-- ===== src/Computed/Affected.antt =====
-- The computed stores that a change of some stores affects: the first half of
-- `computeTopoOrderedComputeds` (src/computed/computed-graph.ts). The queue over dependents has one
-- unit of fuel for each source and for each link, the recursion over dependencies one more than there
-- are entries. `none` is a walk that ran out of fuel.
pub mod Grows
pub mod Expand
pub mod Start
pub mod Complete
use stroid.Base.{
  ℕ, zero, suc, ◌+◌, String, Bool, true, false, not, ◌&&◌, Option, none, some, List, [], ◌∷◌, ◌++◌,
  if◌then◌else◌, is_nil, length,
}
use stroid.Base.Dict.{Dict, has_key}
use stroid.Base.Names.{has, add}
use stroid.Computed.{ComputedEntry, ComputedGraph, deps_of, links_of}
use stroid.Computed.Topo.{order_affected}

-- `for (const dep of deps) if (!affected.has(dep)) { affected.add(dep); queue.push(dep); }`, with the
-- affected names and the queue
unfoldable pub collect : List String → List String × List String → List String × List String
collect [] r = r
collect (dep ∷ deps) (affected, queue) =
    collect deps
      (if has dep affected then (affected, queue) else (add dep affected, queue ++ dep ∷ []))

-- `while (queue.length > 0)`
unfoldable pub collect_all :
    Dict (List String) → ℕ → List String → List String → Option (List String)
collect_all dependents fuel [] affected = some affected
collect_all dependents zero (current ∷ queue) affected = none
collect_all dependents (suc fuel) (current ∷ queue) affected =
    let r = collect (links_of current dependents) (affected, queue) in
    collect_all dependents fuel r.1 r.0

abbrev pub link_names : Dict (List String) → List String
link_names [] = []
link_names ((name, links) ∷ rest) = links ++ link_names rest

-- `for (const dep of entry.deps)` of `expandComputedDeps`
unfoldable pub expand_deps :
    Dict ComputedEntry → ℕ → List String → List String → Option (List String)
expand_deps entries fuel [] affected = some affected
expand_deps entries zero (dep ∷ deps) affected = none
expand_deps entries (suc fuel) (dep ∷ deps) affected =
    elim (has_key dep entries && not (has dep affected)) [
      | false ↦ expand_deps entries (suc fuel) deps affected
      | true ↦ elim (expand_deps entries fuel (deps_of entries dep) (add dep affected)) [
        | none ↦ none
        | some after ↦ expand_deps entries (suc fuel) deps after
      ]
    ]

-- `Array.from(affected).forEach((name) => expandComputedDeps(name))`
unfoldable pub expand_all :
    Dict ComputedEntry → ℕ → List String → List String → Option (List String)
expand_all entries fuel [] affected = some affected
expand_all entries fuel (name ∷ names) affected =
    elim (expand_deps entries fuel (deps_of entries name) affected) [
      | none ↦ none
      | some after ↦ expand_all entries fuel names after
    ]

unfoldable pub affected_by : ComputedGraph → List String → Option (List String)
affected_by g sources =
    elim (collect_all g.dependents (length sources + length (link_names g.dependents)) sources []) [
      | none ↦ none
      | some affected ↦ expand_all g.entries (suc (length g.entries)) affected affected
    ]

unfoldable pub compute_topo_ordered_computeds :
    (String → String → Bool) → ComputedGraph → List String → Option (List String)
compute_topo_ordered_computeds before g sources = elim (affected_by g sources) [
  | none ↦ none
  | some affected ↦ some (order_affected before g.entries affected)
]
