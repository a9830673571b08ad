-- ===== src/Computed/Tests.antt =====
-- A graph in which `total` depends on `price`, and `price` on a store.
use stroid.Base.{
  ◌≡◌, suc, some, String, Bool, true, false, List, refl, [], ◌∷◌, none, length, ◌≢◌, ◌↔◌,
}
use stroid.Base.Dict.{insert}
use stroid.Base.Names.{has}
use stroid.Computed.{
  ComputedEntry, ComputedGraph, deterministic, opaque, detect_cycle, register_computed,
  add_dependent_links, unregister_computed, mark_stale, walk, ran_out,
}
use stroid.Computed.Fuel.{detect_cycle_ends}
use stroid.Computed.Acyclic.{Reaches}
use stroid.Computed.Register.{detect_cycle_iff}
use stroid.Computed.Affected.{compute_topo_ordered_computeds}
use stroid.Computed.Affected.Start.{
  direct, further, RunsDepsFirst, compute_topo_ordered_computeds-RunsDepsFirst,
}
use stroid.Computed.Affected.Complete.{affected_get_their_turn}
use stroid.Computed.Reach.{
  empty_graph, IsReachable, starts, registers, unregisters, marks, IsConsistent,
  reachable-IsConsistent,
}

abbrev entry : List String → ComputedEntry
entry deps = record {
  deps = deps;
  compute = 1;
  stale = true;
  classification = deterministic;
  has_last_output = false;
  last_output = none;
}

abbrev priced : ComputedGraph
priced = record {
  entries = ("total", entry ("price" ∷ [])) ∷ ("price", entry ("cart" ∷ [])) ∷ [];
  dependents = ("price", "total" ∷ []) ∷ ("cart", "price" ∷ []) ∷ [];
  version = 2;
}

detect_cycle_ends_example :
    walk priced.entries "price" (suc (length priced.entries)) ("total" ∷ []) [] [] ≢ ran_out
detect_cycle_ends_example = detect_cycle_ends priced "price" ("total" ∷ [])

detect_cycle_iff_example :
    (detect_cycle priced "price" ("total" ∷ []) ≢ none)
    ↔ Reaches (insert "price" (entry ("total" ∷ [])) priced.entries) "price" "price"
detect_cycle_iff_example = detect_cycle_iff priced "price" (entry ("total" ∷ []))

-- Two stores registered, one replaced and one taken away.
abbrev built : IsReachable (
    unregister_computed "price" (
      mark_stale "total"
        (register_computed "total"
          ("price" ∷ [])
          1
          deterministic
          (register_computed "price" ("cart" ∷ []) 1 opaque empty_graph).0).0))
built = unregisters "price" (
    marks "total" (
      registers "total" ("price" ∷ []) 1 deterministic
        (registers "price" ("cart" ∷ []) 1 opaque starts)))

reachable-IsConsistent_example : IsConsistent (
    unregister_computed "price" (
      mark_stale "total"
        (register_computed "total"
          ("price" ∷ [])
          1
          deterministic
          (register_computed "price" ("cart" ∷ []) 1 opaque empty_graph).0).0))
reachable-IsConsistent_example = reachable-IsConsistent _ built

-- The order of names does not matter here.
abbrev unordered : String → String → Bool
unordered a b = false

compute_topo_ordered_computeds-RunsDepsFirst_example :
    (order : List String) × ((compute_topo_ordered_computeds unordered priced ("cart" ∷ [])
        ≡ some order)
      × RunsDepsFirst priced order)
compute_topo_ordered_computeds-RunsDepsFirst_example =
    compute_topo_ordered_computeds-RunsDepsFirst unordered priced ("cart" ∷ [])

abbrev two_computed : ComputedGraph
two_computed =
    (register_computed "total" ("price" ∷ []) 1 deterministic
      (register_computed "price" ("cart" ∷ []) 1 opaque empty_graph).0).0

affected_get_their_turn_example :
    (order : List String) × ((compute_topo_ordered_computeds unordered two_computed ("cart" ∷ [])
        ≡ some order)
      × (has "total" order ≡ true))
unfolding register_computed detect_cycle walk add_dependent_links
affected_get_their_turn_example =
    affected_get_their_turn unordered two_computed ("cart" ∷ []) "total"
      (registers "total" ("price" ∷ []) 1 deterministic
        (registers "price" ("cart" ∷ []) 1 opaque starts))
      (further "price" "total" (direct "cart" "price" refl refl) refl)
