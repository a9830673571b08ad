-- ===== src/Computed/Search.antt =====
-- The walk of `detectCycle` (src/computed/computed-graph.ts): its fuel is enough, and a walk that
-- does not find the name has closed off all that the start depends on.
use stroid.Base.{
  ℕ, zero, suc, String, true, false, List, [], ◌∷◌, ◌++◌, ◌===◌, ===_iff, ◌≡◌, ◌≢◌, refl, sym,
  subst, ◌∙◌, arith, Bool-cases, ◌⊎◌, inl, inr,
}
use stroid.Base.Dict.{Dict}
use stroid.Base.Names.{has, add, has-add}
use stroid.Computed.{ComputedEntry, deps_of, Walk, ran_out, absent, found, walk}

-- `vs` holds every name of `ns`.
abbrev pub Holds : List String → List String → Type 0
Holds vs ns = (n : String) → has n ns ≡ true → has n vs ≡ true

-- From the names visited before to those visited after: all stay, `ds` are visited, and a name that
-- is new is not the one looked for and has what it depends on visited.
abbrev pub Closes : Dict ComputedEntry → String → List String → List String → List String → Type 0
Closes entries name ds before after =
    Holds after before
    × Holds after ds
    × ((n : String)
        → has n after ≡ true
        → has n before ≡ false
        → (n ≢ name) × Holds after (deps_of entries n))

absent_injective : (before after : List String) → absent before ≡ absent after → before ≡ after
absent_injective before after e = cc e

pub Walk-cases :
    (r : Walk)
    → (r ≡ ran_out) ⊎ ((p : List String) × (r ≡ found p)) ⊎ ((v : List String) × (r ≡ absent v))
Walk-cases ran_out = inl refl
Walk-cases (found p) = inr (inl (p, refl))
Walk-cases (absent v) = inr (inr (v, refl))

ran_out_absent : (after : List String) → ran_out ≡ absent after → ⊥
ran_out_absent after e = ground (arith, e)

found_absent : (path after : List String) → found path ≡ absent after → ⊥
found_absent path after e = ground (arith, e)

module _ (entries : Dict ComputedEntry) (name : String) where
  Closes-cons-visited :
      (d : String) (ds before after : List String)
      → has d before ≡ true
      → Closes entries name ds before after
      → Closes entries name (d ∷ ds) before after
  Closes-cons-visited d ds before after v (k, h, c) =
      (k, λ n e. ground (arith, e, ===_iff d n, h n, k n), c)

  Closes-cons :
      (d : String) (ds before middle after : List String)
      → d ≢ name
      → Closes entries name (deps_of entries d) (add d before) middle
      → Closes entries name ds middle after
      → Closes entries name (d ∷ ds) before after
  Closes-cons d ds before middle after x (k, h, c) (k', h', c') = (
    λ n e. k' n (k n (ground (arith, e, has-add n d before))),
    λ n e. ground (arith, e, ===_iff d n, h' n, k' n, k n, has-add n d before),
    λ n e b. elim (Bool-cases (has n middle)) [
      | inr out ↦ c' n e out
      | inl inside ↦ elim (Bool-cases (d === n)) [
        | inl y ↦
            subst (λ m. (m ≢ name) × Holds after (deps_of entries m)) ((===_iff d n).0 y)
              (x, λ m i. k' m (h m i))
        | inr y ↦
            let new = c n inside (ground (arith, y, b, has-add n d before)) in
            (new.0, λ m i. k' m (new.1 m i))
      ]
    ],
  )

  Closes-nil : (before : List String) → Closes entries name [] before before
  Closes-nil before = (λ n e. e, λ n e. ground (arith, e), λ n e b. ground (arith, e, b))

  module _ (fuel : ℕ) (d : String) (ds before path : List String) (x : (d === name) ≡ false) where
    pub walk-skip :
        has d before ≡ true
        → walk entries name (suc fuel) (d ∷ ds) before path
          ≡ walk entries name (suc fuel) ds before path
    unfolding walk
    walk-skip v = ground (arith, x, v)

    pub walk-below :
        has d before ≡ false
        → walk entries name (suc fuel) (d ∷ ds) before path
          ≡ elim (walk entries name fuel (deps_of entries d) (add d before) (path ++ d ∷ []))
              as (λ _. Walk) [
                | ran_out ↦ ran_out
                | found trace ↦ found trace
                | absent middle ↦ walk entries name (suc fuel) ds middle path
              ]
    unfolding walk
    walk-below v = ground (arith, x, v)

  pub walk-here :
      (fuel : ℕ) (d : String) (ds before path : List String)
      → (d === name) ≡ true
      → walk entries name (suc fuel) (d ∷ ds) before path ≡ found path
  unfolding walk
  walk-here fuel d ds before path x = ground (arith, x)

  pub absent-Closes :
      (fuel : ℕ) (ds before path after : List String)
      → walk entries name fuel ds before path ≡ absent after
      → Closes entries name ds before after
  unfolding walk
  absent-Closes fuel [] before path after e =
      subst (Closes entries name [] before) (absent_injective before after e) (Closes-nil before)
  absent-Closes zero (d ∷ ds) before path after e = elim (ran_out_absent after e) [ ]
  absent-Closes (suc fuel) (d ∷ ds) before path after e = elim (Bool-cases (d === name)) [
    | inl x ↦ elim (found_absent path after (sym (walk-here fuel d ds before path x) ∙ e)) [ ]
    | inr x ↦ elim (Bool-cases (has d before)) [
      | inl v ↦ Closes-cons-visited d ds before after v (
          absent-Closes (suc fuel) ds before path after
            (sym (walk-skip fuel d ds before path x v) ∙ e))
      | inr v ↦
          elim (Walk-cases
            (walk entries name fuel (deps_of entries d) (add d before) (path ++ d ∷ []))) [
              | inl r ↦
                  elim (ran_out_absent after
                    (ground (arith, r, e, walk-below fuel d ds before path x v))) [ ]
              | inr (inl (p, r)) ↦
                  elim (found_absent p after
                    (ground (arith, r, e, walk-below fuel d ds before path x v))) [ ]
              | inr (inr (m, r)) ↦
                  Closes-cons d ds before m after (λ y. ground (arith, x, y, ===_iff d name))
                    (absent-Closes fuel (deps_of entries d) (add d before) (path ++ d ∷ []) m r)
                    (absent-Closes (suc fuel) ds m path after
                      (ground (arith, r, e, walk-below fuel d ds before path x v)))
            ]
    ]
  ]
