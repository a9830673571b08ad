-- ===== src/Computed/Acyclic.antt =====
-- Paths and cycles of the graph of computed stores when one entry is replaced
-- (src/computed/computed-graph.ts).
use stroid.Base.{
  ℕ, zero, suc, String, true, false, List, [], ◌∷◌, ◌++◌, ◌===◌, ===_iff, ===_refl, ◌≡◌, sym, ap,
  subst, ◌∙◌, arith, Bool-cases, ◌⊎◌, inl, inr,
}
use stroid.Base.Dict.{Dict, insert, lookup-insert}
use stroid.Base.Names.{has, add}
use stroid.Computed.{ComputedEntry, deps_of, ran_out, absent, found, walk}
use stroid.Computed.Search.{Holds, Walk-cases, walk-skip, walk-below}

-- From one name to another along what they depend on, in one step or more.
pub data Reaches (entries : Dict ComputedEntry) : String → String → Type 0 where
  edge : {n m : String} → has m (deps_of entries n) ≡ true → Reaches entries n m
  onward :
      {n m k : String}
      → has m (deps_of entries n) ≡ true
      → Reaches entries m k
      → Reaches entries n k

abbrev pub IsAcyclic : Dict ComputedEntry → Type 0
IsAcyclic entries = (n : String) → Reaches entries n n → ⊥

absent_found : (v p : List String) → absent v ≡ found p → ⊥
absent_found v p e = ground (arith, e)

ran_out_found : (p : List String) → ran_out ≡ found p → ⊥
ran_out_found p e = ground (arith, e)

module _ {entries : Dict ComputedEntry} where
  pub Reaches-trans :
      {n m k : String} → Reaches entries n m → Reaches entries m k → Reaches entries n k
  Reaches-trans (edge e) q = onward e q
  Reaches-trans (onward e p) q = onward e (Reaches-trans p q)

module _ (entries : Dict ComputedEntry) (name : String) (entry : ComputedEntry) where
  abbrev pub next : Dict ComputedEntry
  next = insert name entry entries

  pub deps_of-next-name : deps_of next name ≡ entry.deps
  deps_of-next-name = ground (arith, lookup-insert name name entry entries, ===_refl name)

  deps_of-next-other : (n : String) → (name === n) ≡ false → deps_of next n ≡ deps_of entries n
  deps_of-next-other n x = ground (arith, lookup-insert n name entry entries, x)

  -- A path of the new graph is one of the old, or passes `name`.
  Reaches-split :
      {n k : String}
      → Reaches next n k
      → Reaches entries n k ⊎ (((n ≡ name) ⊎ Reaches next n name) × Reaches next name k)
  Reaches-split {n} {k} (edge e) = elim (Bool-cases (name === n)) [
    | inl y ↦ inr (
      inl (sym ((===_iff name n).0 y)),
      subst (λ m. Reaches next m k) (sym ((===_iff name n).0 y)) (edge e),
    )
    | inr x ↦ inl (edge (ap (has k) (sym (deps_of-next-other n x)) ∙ e))
  ]
  Reaches-split {n} {k} (onward {m = m} e p) = elim (Bool-cases (name === n)) [
    | inl y ↦ inr (
      inl (sym ((===_iff name n).0 y)),
      subst (λ m. Reaches next m k) (sym ((===_iff name n).0 y)) (onward e p),
    )
    | inr x ↦ elim (Reaches-split p) [
      | inl q ↦ inl (onward (ap (has m) (sym (deps_of-next-other n x)) ∙ e) q)
      | inr (inl y, r) ↦ inr (inr (edge (subst (λ i. has i (deps_of next n) ≡ true) y e)), r)
      | inr (inr q, r) ↦ inr (inr (onward e q), r)
    ]
  ]

  -- What is closed in the old graph and has no `name` is closed in the new one.
  pub stays_in :
      (vs : List String)
      → has name vs ≡ false
      → ((n : String) → has n vs ≡ true → Holds vs (deps_of entries n))
      → {n k : String} → has n vs ≡ true
      → Reaches next n k
      → has k vs ≡ true
  stays_in vs out c {n} {k} i (edge e) =
      c n i k (ap (has k) (sym (deps_of-next-other n (ground (arith, ===_iff name n, i, out)))) ∙ e)
  stays_in vs out c {n} {k} i (onward {m = m} e p) =
      stays_in vs out c
        (c n i m
          (ap (has m) (sym (deps_of-next-other n (ground (arith, ===_iff name n, i, out)))) ∙ e))
        p

  pub no_cycle :
      (vs : List String)
      → has name vs ≡ false
      → Holds vs entry.deps
      → ((n : String) → has n vs ≡ true → Holds vs (deps_of entries n))
      → Reaches next name name
      → ⊥
  no_cycle vs out h c (edge e) =
      ground (arith, out, h name (ap (has name) (sym deps_of-next-name) ∙ e))
  no_cycle vs out h c (onward {m = m} e p) =
      ground (arith, out, stays_in vs out c (h m (ap (has m) (sym deps_of-next-name) ∙ e)) p)

  pub next-IsAcyclic : (Reaches next name name → ⊥) → IsAcyclic entries → IsAcyclic next
  next-IsAcyclic h a n p = elim (Reaches-split p) [
    | inl q ↦ a n q
    | inr (inl y, r) ↦ h (subst (Reaches next name) y r)
    | inr (inr q, r) ↦ h (Reaches-trans r q)
  ]

  -- A path of the old graph to `name` is one of the new graph, or starts there.
  pub Reaches-next :
      {d k : String} → Reaches entries d k → k ≡ name → (d ≡ name) ⊎ Reaches next d name
  Reaches-next {d} {k} (edge e) y = elim (Bool-cases (name === d)) [
    | inl x ↦ inl (sym ((===_iff name d).0 x))
    | inr x ↦ inr (subst (Reaches next d) y (edge (ap (has k) (deps_of-next-other d x) ∙ e)))
  ]
  Reaches-next {d} {k} (onward {m = m} e p) y = elim (Bool-cases (name === d)) [
    | inl x ↦ inl (sym ((===_iff name d).0 x))
    | inr x ↦ elim (Reaches-next p y) [
      | inl z ↦ inr (subst (Reaches next d) z (edge (ap (has m) (deps_of-next-other d x) ∙ e)))
      | inr q ↦ inr (onward (ap (has m) (deps_of-next-other d x) ∙ e) q)
    ]
  ]

  abbrev pub Reachable : List String → Type 0
  Reachable ds = (d : String) × (has d ds ≡ true) × ((d ≡ name) ⊎ Reaches entries d name)

  later : (d : String) (ds : List String) → Reachable ds → Reachable (d ∷ ds)
  later d ds (d', i, r) = (d', ground (arith, i), r)

  below : (d : String) (ds : List String) → Reachable (deps_of entries d) → Reachable (d ∷ ds)
  below d ds (d', i, inl y) = (
    d,
    ground (arith, ===_refl d),
    inr (edge (subst (λ n. has n (deps_of entries d) ≡ true) y i)),
  )
  below d ds (d', i, inr r) = (d, ground (arith, ===_refl d), inr (onward i r))

  pub found-Reaches :
      (fuel : ℕ) (ds before path p : List String)
      → walk entries name fuel ds before path ≡ found p
      → Reachable ds
  unfolding walk
  found-Reaches fuel [] before path p e = elim (absent_found before p e) [ ]
  found-Reaches zero (d ∷ ds) before path p e = elim (ran_out_found p e) [ ]
  found-Reaches (suc fuel) (d ∷ ds) before path p e = elim (Bool-cases (d === name)) [
    | inl x ↦ (d, ground (arith, ===_refl d), inl ((===_iff d name).0 x))
    | inr x ↦ elim (Bool-cases (has d before)) [
      | inl v ↦ later d ds (
          found-Reaches (suc fuel) ds before path p
            (sym (walk-skip entries name fuel d ds before path x v) ∙ e))
      | inr v ↦
          let step = walk-below entries name fuel d ds before path x v in
          elim (Walk-cases
            (walk entries name fuel (deps_of entries d) (add d before) (path ++ d ∷ []))) [
              | inl r ↦ elim (ran_out_found p (ground (arith, r, e, step))) [ ]
              | inr (inl (q, r)) ↦
                  below d ds
                    (found-Reaches fuel (deps_of entries d) (add d before) (path ++ d ∷ []) q r)
              | inr (inr (m, r)) ↦
                  later d ds (found-Reaches (suc fuel) ds m path p (ground (arith, r, e, step)))
            ]
    ]
  ]
