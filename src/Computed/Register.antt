-- ===== src/Computed/Register.antt =====
-- `detectCycle`, `registerComputed` and `unregisterComputed` (src/computed/computed-graph.ts) and the
-- cycles of the graph of entries.
use stroid.Base.{
  ℕ, suc, String, true, false, none, some, List, [], ◌∷◌, ◌++◌, ◌↔◌, length, ◌≡◌, ◌≢◌, refl, sym,
  ap, subst, ◌∙◌, arith, Bool-cases, Option-cases, ◌⊎◌, inl, inr,
}
use stroid.Base.Dict.{Dict, lookup, insert, erase, lookup-erase}
use stroid.Base.Names.{has}
use stroid.Computed.{
  Classification, ComputedEntry, ComputedGraph, deps_of, absent, found, walk, detect_cycle,
  register_computed, unregister_computed,
}
use stroid.Computed.Search.{Walk-cases, absent-Closes}
use stroid.Computed.Fuel.{detect_cycle_ends}
use stroid.Computed.Acyclic.{
  Reaches, edge, onward, IsAcyclic, next, Reachable, no_cycle, next-IsAcyclic, Reaches-next,
  found-Reaches, deps_of-next-name,
}

module _ (g : ComputedGraph) (name : String) (entry : ComputedEntry) where
  absent_no_cycle :
      (visited : List String)
      → walk g.entries name (suc (length g.entries)) entry.deps [] [] ≡ absent visited
      → Reaches (next g.entries name entry) name name
      → ⊥
  absent_no_cycle visited e =
      let c = absent-Closes g.entries name (suc (length g.entries)) entry.deps [] [] visited e in
      no_cycle g.entries name entry visited
        (elim (Bool-cases (has name visited)) [
          | inl y ↦ elim ((c.2 name y refl).0 refl) [ ]
          | inr n ↦ n
        ])
        c.1 (λ n i. (c.2 n i refl).1)

  Reachable-cycle :
      Reachable g.entries name entry entry.deps → Reaches (next g.entries name entry) name name
  Reachable-cycle (d, i, r) =
      let i' = ap (has d) (deps_of-next-name g.entries name entry) ∙ i in
      elim (to r) [
        | inl y ↦ edge (subst (λ m. has m (deps_of (next g.entries name entry) name) ≡ true) y i')
        | inr q ↦ onward i' q
      ]
    where
      to :
          (d ≡ name) ⊎ Reaches g.entries d name
          → (d ≡ name) ⊎ Reaches (next g.entries name entry) d name
      to (inl y) = inl y
      to (inr q) = Reaches-next g.entries name entry q refl

  detect_cycle-found :
      (p : List String)
      → walk g.entries name (suc (length g.entries)) entry.deps [] [] ≡ found p
      → detect_cycle g name entry.deps ≡ some (name ∷ p ++ name ∷ [])
  unfolding detect_cycle
  detect_cycle-found p r = ground (arith, r)

  detect_cycle-absent :
      (v : List String)
      → walk g.entries name (suc (length g.entries)) entry.deps [] [] ≡ absent v
      → detect_cycle g name entry.deps ≡ none
  unfolding detect_cycle
  detect_cycle-absent v r = ground (arith, r)

  -- `detectCycle` reports a cycle exactly if there is a path from the name to itself in the graph in
  -- which the name has the given dependencies.
  pub detect_cycle_iff :
      (detect_cycle g name entry.deps ≢ none) ↔ Reaches (next g.entries name entry) name name
  detect_cycle_iff =
      elim (Walk-cases (walk g.entries name (suc (length g.entries)) entry.deps [] [])) [
        | inl r ↦ elim (detect_cycle_ends g name entry.deps r) [ ]
        | inr (inl (p, r)) ↦ (
          λ _.
              Reachable-cycle
                (found-Reaches g.entries name entry (suc (length g.entries)) entry.deps [] [] p r),
          λ _ e. ground (arith, e, detect_cycle-found p r),
        )
        | inr (inr (v, r)) ↦
            (λ h. elim (h (detect_cycle-absent v r)) [ ], λ c e. absent_no_cycle v r c)
      ]

abbrev fresh_entry : List String → ℕ → Classification → ComputedEntry
fresh_entry deps compute classification = record {
  deps = deps;
  compute = compute;
  stale = true;
  classification = classification;
  has_last_output = false;
  last_output = none;
}

module _ (name : String) (deps : List String) (compute : ℕ) (classification : Classification)
    (g : ComputedGraph) where
  register-none :
      detect_cycle g name deps ≡ none
      → (register_computed name deps compute classification g).0.entries
        ≡ insert name (fresh_entry deps compute classification) g.entries
  unfolding register_computed
  register-none h = ground (arith, h)

  register-some :
      (trace : List String)
      → detect_cycle g name deps ≡ some trace
      → (register_computed name deps compute classification g).0.entries ≡ g.entries
  unfolding register_computed
  register-some trace h = ground (arith, h)

-- `registerComputed` keeps a graph of entries without cycles, whether it registers or rejects.
pub register_computed-IsAcyclic :
    (name : String) (deps : List String) (compute : ℕ) (classification : Classification)
    (g : ComputedGraph)
    → IsAcyclic g.entries
    → IsAcyclic (register_computed name deps compute classification g).0.entries
register_computed-IsAcyclic name deps compute classification g a =
    let entry = fresh_entry deps compute classification in
    elim (Option-cases (detect_cycle g name deps)) [
      | inl h ↦
          subst IsAcyclic (sym (register-none name deps compute classification g h))
            (next-IsAcyclic g.entries name entry (λ c. (detect_cycle_iff g name entry).1 c h) a)
      | inr (t, h) ↦ subst IsAcyclic (sym (register-some name deps compute classification g t h)) a
    ]

deps_of-erase :
    (entries : Dict ComputedEntry) (name n m : String)
    → has m (deps_of (erase name entries) n) ≡ true
    → has m (deps_of entries n) ≡ true
deps_of-erase entries name n m e = ground (arith, e, lookup-erase n name entries)

Reaches-erase :
    (entries : Dict ComputedEntry) (name : String) {n k : String}
    → Reaches (erase name entries) n k
    → Reaches entries n k
Reaches-erase entries name (edge {n} {m} e) = edge (deps_of-erase entries name n m e)
Reaches-erase entries name (onward {n} {m} e p) =
    onward (deps_of-erase entries name n m e) (Reaches-erase entries name p)

unregister-none :
    (name : String) (g : ComputedGraph)
    → lookup name g.entries ≡ none
    → (unregister_computed name g).entries ≡ g.entries
unfolding unregister_computed
unregister-none name g h = ground (arith, h)

unregister-some :
    (name : String) (g : ComputedGraph) (e : ComputedEntry)
    → lookup name g.entries ≡ some e
    → (unregister_computed name g).entries ≡ erase name g.entries
unfolding unregister_computed
unregister-some name g e h = ground (arith, h)

-- `unregisterComputed` keeps a graph of entries without cycles.
pub unregister_computed-IsAcyclic :
    (name : String) (g : ComputedGraph)
    → IsAcyclic g.entries
    → IsAcyclic (unregister_computed name g).entries
unregister_computed-IsAcyclic name g a = elim (Option-cases (lookup name g.entries)) [
  | inl h ↦ subst IsAcyclic (sym (unregister-none name g h)) a
  | inr (e, h) ↦
      subst IsAcyclic (sym (unregister-some name g e h))
        (λ n p. a n (Reaches-erase g.entries name p))
]
