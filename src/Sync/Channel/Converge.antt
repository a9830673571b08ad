-- ===== src/Sync/Channel/Converge.antt =====
-- Tabs that receive the same values, in any order and as often as you like, end with the same one.
use Prim.Native.Nat.{Ordering}
use stroid.Base.{
  String, true, false, List, [], ◌∷◌, if◌then◌else◌, ◌≡◌, ◌⊎◌, ◌↔◌, refl, sym, ap, subst, arith,
  Bool-cases, inl, inr, In,
}
use stroid.Sync.Order.{IsOrder, Stamp, newer, newer_trans, newer-total, newer_irrefl}

-- A stamped value; the later one stands.
module _ {V : Type 0} (locale_compare : String → String → Ordering) where
  pick : Stamp × V → Stamp × V → Stamp × V
  pick e m = if newer locale_compare m.0 e.0 then m else e

  pub pick_all : Stamp × V → List (Stamp × V) → Stamp × V
  pick_all e [] = e
  pick_all e (m ∷ ms) = pick_all (pick e m) ms

  pick-cases :
      (e m : Stamp × V)
      → ((pick e m ≡ m) × (newer locale_compare m.0 e.0 ≡ true))
        ⊎ ((pick e m ≡ e) × (newer locale_compare m.0 e.0 ≡ false))
  unfolding pick
  pick-cases e m = elim (Bool-cases (newer locale_compare m.0 e.0)) [
    | inl later ↦ inl (rw later, later)
    | inr other ↦ inr (rw other, other)
  ]

  pub pick_all_nil : (e : Stamp × V) → pick_all e [] ≡ e
  unfolding pick_all
  pick_all_nil e = refl

  pub pick_all_lem :
      (e m : Stamp × V) (ms : List (Stamp × V))
      → pick_all e (m ∷ ms) ≡ pick_all (if newer locale_compare m.0 e.0 then m else e) ms
  unfolding pick_all pick
  pick_all_lem e m ms = refl

  pick_all-cons :
      (e m : Stamp × V) (ms : List (Stamp × V))
      → ((pick_all e (m ∷ ms) ≡ pick_all m ms) × (newer locale_compare m.0 e.0 ≡ true))
        ⊎ ((pick_all e (m ∷ ms) ≡ pick_all e ms) × (newer locale_compare m.0 e.0 ≡ false))
  unfolding pick_all
  pick_all-cons e m ms = elim (pick-cases e m) [
    | inl (taken, later) ↦ inl (ap (λ x. pick_all x ms) taken, later)
    | inr (kept, other) ↦ inr (ap (λ x. pick_all x ms) kept, other)
  ]

  -- What stands at the end is the first value, or one of the list that is newer than it.
  abbrev From : Stamp × V → List (Stamp × V) → Stamp × V → Type 0
  From e ms r = (r ≡ e) ⊎ (In r ms × (newer locale_compare r.0 e.0 ≡ true))

  pick_all-From :
      IsOrder locale_compare → (e : Stamp × V) (ms : List (Stamp × V)) → From e ms (pick_all e ms)
  unfolding pick_all
  pick_all-From o e [] = inl refl
  pick_all-From o e (m ∷ ms) = elim (pick_all-cons e m ms) [
    | inl (taken, later) ↦
        let r = pick_all m ms in
        let ih = pick_all-From o m ms in
        subst (From e (m ∷ ms)) (sym taken)
          (ground (arith, newer_trans locale_compare o r.0 m.0 e.0))
    | inr (kept, other) ↦
        let ih = pick_all-From o e ms in subst (From e (m ∷ ms)) (sym kept) (ground arith)
  ]

  -- Nothing that was seen is newer than what stands at the end.
  abbrev Tops : Stamp × V → List (Stamp × V) → Stamp × V → Type 0
  Tops e ms r =
      (newer locale_compare e.0 r.0 ≡ false)
      × ((m : Stamp × V) → In m ms → newer locale_compare m.0 r.0 ≡ false)

  pick_all-Tops :
      IsOrder locale_compare → (e : Stamp × V) (ms : List (Stamp × V)) → Tops e ms (pick_all e ms)
  unfolding pick_all
  pick_all-Tops o e [] = (newer_irrefl locale_compare e.0, λ m h. absurd h)
  pick_all-Tops o e (m ∷ ms) = elim (pick_all-cons e m ms) [
    | inl (taken, later) ↦
        let r = pick_all m ms in
        let (top, rest) = pick_all-Tops o m ms in
        subst (Tops e (m ∷ ms)) (sym taken)
          (ground (arith, newer_trans locale_compare o m.0 e.0 r.0), λ n h. ground (arith, rest n))
    | inr (kept, other) ↦
        let r = pick_all e ms in
        let (top, rest) = pick_all-Tops o e ms in
        subst (Tops e (m ∷ ms)) (sym kept) (
          top,
          λ n h. ground (
            arith,
            rest n,
            newer_trans locale_compare o e.0 m.0 r.0,
            newer-total locale_compare o m.0 e.0 other,
          ),
        )
  ]

  -- Two runs over the same stamped values end alike.
  pub pick_all_converges :
      IsOrder locale_compare
      → (e : Stamp × V) (ms ns : List (Stamp × V)) → ((m : Stamp × V) → In m ms ↔ In m ns)
      → ((m n : Stamp × V) → In m ms → In n ms → m.0 ≡ n.0 → m ≡ n)
      → pick_all e ms ≡ pick_all e ns
  pick_all_converges o e ms ns same unique =
      let a = pick_all e ms in
      let b = pick_all e ns in
      let (top_a, rest_a) = pick_all-Tops o e ms in
      let (top_b, rest_b) = pick_all-Tops o e ns in
      let total = newer-total locale_compare o a.0 b.0 in
      ground (
        arith,
        pick_all-From o e ms,
        pick_all-From o e ns,
        rest_a b,
        rest_b a,
        (same a).0,
        (same b).1,
        unique a b,
        total,
      )
