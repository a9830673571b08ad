-- ===== src/Computed/Fuel.antt =====
-- The fuel of the walk of `detectCycle` (src/computed/computed-graph.ts) is enough: a walk goes down
-- only from an entry that was not visited, and visits it.
use stroid.Base.{
  ℕ, zero, suc, ◌≤◌, ◌<◌, String, true, false, List, [], ◌∷◌, ◌++◌, ◌===◌, ===_iff, if◌then◌else◌,
  length, ◌≡◌, ◌≢◌, sym, ◌∙◌, arith, Bool-cases, ◌⊎◌, inl, inr,
}
use stroid.Base.Dict.{Dict, keys, has-keys, has_key}
use stroid.Base.Names.{has, add, has-add}
use stroid.Computed.{ComputedEntry, ComputedGraph, deps_of, ran_out, walk}
use stroid.Computed.Search.{Holds, Walk-cases, walk-skip, walk-below, walk-here, absent-Closes}

abbrev pub unvisited : List String → List String → ℕ
unvisited [] visited = 0
unvisited (k ∷ ks) visited =
    let rest = unvisited ks visited in if has k visited then rest else suc rest

pub unvisited_le :
    (ks before after : List String) → Holds after before → unvisited ks after ≤ unvisited ks before
unvisited_le [] before after h = omega arith
unvisited_le (k ∷ ks) before after h = ground (arith, h k, unvisited_le ks before after h)

pub add-Holds : (d : String) (before : List String) → Holds (add d before) before
add-Holds d before n e = ground (arith, e, has-add n d before)

pub unvisited_lt :
    (ks : List String) (d : String) (before : List String)
    → has d ks ≡ true
    → has d before ≡ false
    → unvisited ks (add d before) < unvisited ks before
unvisited_lt [] d before h v = ground (arith, h)
unvisited_lt (k ∷ ks) d before h v = elim (Bool-cases (k === d)) [
  | inl x ↦ ground (
    arith,
    x,
    v,
    ===_iff k d,
    has-add k d before,
    unvisited_le ks before (add d before) (add-Holds d before),
  )
  | inr x ↦
      ground (arith, x, h, has-add k d before, unvisited_lt ks d before (ground (arith, h, x)) v)
]

pub unvisited_le_length : (s seen : List String) → unvisited s seen ≤ length s
unvisited_le_length [] seen = omega arith
unvisited_le_length (n ∷ s) seen = ground (arith, unvisited_le_length s seen)

pub unvisited-length :
    (entries : Dict ComputedEntry) (before : List String)
    → unvisited (keys entries) before ≤ length entries
unvisited-length [] before = omega arith
unvisited-length ((k, e) ∷ entries) before = ground (arith, unvisited-length entries before)

module _ (entries : Dict ComputedEntry) (name : String) where
  abbrev HasFuel : ℕ → List String → List String → Type 0
  HasFuel fuel ds before = (ds ≡ []) ⊎ (unvisited (keys entries) before < fuel)

  HasFuel-below :
      (fuel : ℕ) (d : String) (before : List String)
      → has d before ≡ false
      → unvisited (keys entries) before < suc fuel
      → HasFuel fuel (deps_of entries d) (add d before)
  HasFuel-below fuel d before v h = elim (Bool-cases (has_key d entries)) [
    | inl k ↦
        inr (ground (arith, h, unvisited_lt (keys entries) d before (has-keys d entries ∙ k) v))
    | inr k ↦ inl (ground (arith, k))
  ]

  walk_ends :
      (fuel : ℕ) (ds before path : List String)
      → HasFuel fuel ds before
      → walk entries name fuel ds before path ≢ ran_out
  unfolding walk
  walk_ends fuel [] before path h e = ground (arith, e)
  walk_ends zero (d ∷ ds) before path h e = ground (arith, h)
  walk_ends (suc fuel) (d ∷ ds) before path (inl h) e = ground (arith, h)
  walk_ends (suc fuel) (d ∷ ds) before path (inr h) e = elim (Bool-cases (d === name)) [
    | inl x ↦ ground (arith, e, walk-here entries name fuel d ds before path x)
    | inr x ↦ elim (Bool-cases (has d before)) [
      | inl v ↦
          walk_ends (suc fuel) ds before path (inr h)
            (sym (walk-skip entries name fuel d ds before path x v) ∙ e)
      | inr v ↦
          let step = walk-below entries name fuel d ds before path x v in
          elim (Walk-cases
            (walk entries name fuel (deps_of entries d) (add d before) (path ++ d ∷ []))) [
              | inl r ↦
                  walk_ends fuel (deps_of entries d) (add d before) (path ++ d ∷ [])
                    (HasFuel-below fuel d before v h) r
              | inr (inl (p, r)) ↦ ground (arith, r, e, step)
              | inr (inr (m, r)) ↦
                  let c =
                    absent-Closes entries name fuel (deps_of entries d) (add d before)
                      (path ++ d ∷ []) m r in
                  walk_ends (suc fuel) ds m path
                    (inr (
                      ground (
                        arith,
                        h,
                        unvisited_le (keys entries) before m
                            (λ n i. c.0 n (add-Holds d before n i)),
                      )))
                    (ground (arith, r, e, step))
            ]
    ]
  ]

-- With one unit of fuel more than there are entries, the walk of `detectCycle` comes to an end.
pub detect_cycle_ends :
    (g : ComputedGraph) (name : String) (deps : List String)
    → walk g.entries name (suc (length g.entries)) deps [] [] ≢ ran_out
detect_cycle_ends g name deps =
    walk_ends g.entries name (suc (length g.entries)) deps [] []
      (inr (ground (arith, unvisited-length g.entries [])))
