-- ===== src/Computed/Reach.antt =====
-- Every graph that the calls of src/computed/computed-graph.ts can build.
use stroid.Base.{
  ℕ, String, true, List, [], ◌≡◌, refl, sym, ap, ◌∙◌, inl, inr, arith, Option-cases, ===_iff,
}
use stroid.Base.Dict.{lookup, lookup-insert}
use stroid.Base.Names.{has}
use stroid.Computed.{
  ComputedGraph, Classification, deps_of, register_computed, unregister_computed, mark_stale,
  links_of,
}
use stroid.Computed.Acyclic.{Reaches, edge, onward, IsAcyclic}
use stroid.Computed.Register.{register_computed-IsAcyclic, unregister_computed-IsAcyclic}
use stroid.Computed.Links.{IsMirrored, register_computed-IsMirrored, unregister_computed-IsMirrored}

abbrev pub empty_graph : ComputedGraph
empty_graph = record { entries = []; dependents = []; version = 0 }

-- The calls that change a graph, from the empty one on.
pub data IsReachable : ComputedGraph → Type 0 where
  starts : IsReachable empty_graph
  registers :
      {g : ComputedGraph} (name : String) (deps : List String) (compute : ℕ) (c : Classification)
      → IsReachable g
      → IsReachable (register_computed name deps compute c g).0
  unregisters :
      {g : ComputedGraph} (name : String) → IsReachable g → IsReachable (unregister_computed name g)
  marks : {g : ComputedGraph} (name : String) → IsReachable g → IsReachable (mark_stale name g)

-- No computed store depends on itself, and the two indexes agree.
pub record IsConsistent (g : ComputedGraph) : Type 0 where
  pub acyclic : IsAcyclic g.entries
  pub mirrored : IsMirrored g

mark_stale-deps :
    (name n : String) (g : ComputedGraph)
    → deps_of (mark_stale name g).entries n ≡ deps_of g.entries n
unfolding mark_stale
mark_stale-deps name n g = elim (Option-cases (lookup name g.entries)) [
  | inl o ↦ ground (arith, o)
  | inr (e, o) ↦
      ground (arith, o, ===_iff name n, lookup-insert n name (record e { stale = true }) g.entries)
]

mark_stale-links :
    (name : String) (g : ComputedGraph) → (mark_stale name g).dependents ≡ g.dependents
unfolding mark_stale
mark_stale-links name g = elim (Option-cases (lookup name g.entries)) [
  | inl o ↦ ground (arith, o)
  | inr (e, o) ↦ ground (arith, o)
]

Reaches-unmarked :
    (name : String) (g : ComputedGraph) {n m : String}
    → Reaches (mark_stale name g).entries n m
    → Reaches g.entries n m
Reaches-unmarked name g (edge {n} {m} e) = edge (sym (ap (has m) (mark_stale-deps name n g)) ∙ e)
Reaches-unmarked name g (onward {n} {m} e p) =
    onward (sym (ap (has m) (mark_stale-deps name n g)) ∙ e) (Reaches-unmarked name g p)

empty-IsConsistent : IsConsistent empty_graph
empty-IsConsistent = record { acyclic = no_path; mirrored = λ dep n. refl }
  where
    no_path : IsAcyclic empty_graph.entries
    no_path n (edge e) = ground (arith, e)
    no_path n (onward e p) = ground (arith, e)

-- Whatever computed stores are registered, replaced, unregistered and marked stale, no computed store
-- depends on itself, directly or through others, and a store lists exactly the computed stores that
-- depend on it.
pub reachable-IsConsistent : (g : ComputedGraph) → IsReachable g → IsConsistent g
reachable-IsConsistent g starts = empty-IsConsistent
reachable-IsConsistent g (registers {g = h} name deps compute c r) =
    let before = reachable-IsConsistent h r in
    record {
      acyclic = register_computed-IsAcyclic name deps compute c h before.acyclic;
      mirrored = register_computed-IsMirrored name deps compute c h before.mirrored;
    }
reachable-IsConsistent g (unregisters {g = h} name r) =
    let before = reachable-IsConsistent h r in
    record {
      acyclic = unregister_computed-IsAcyclic name h before.acyclic;
      mirrored = unregister_computed-IsMirrored name h before.mirrored;
    }
reachable-IsConsistent g (marks {g = h} name r) =
    let before = reachable-IsConsistent h r in
    record {
      acyclic = λ n p. before.acyclic n (Reaches-unmarked name h p);
      mirrored = λ dep n.
          ap (λ m. has n (links_of dep m)) (mark_stale-links name h)
          ∙ before.mirrored dep n
          ∙ ap (has dep) (sym (mark_stale-deps name n h));
    }
