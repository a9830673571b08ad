-- ===== src/Computed/Topo.antt =====
-- The order in which affected computed stores run: the second half of `computeTopoOrderedComputeds`
-- (src/computed/computed-graph.ts), from the set of affected names on. `before` is `<` on names. The loop
-- over ready names runs on fuel, one unit for each affected name.
pub mod Degrees
pub mod Kahn
pub mod Order
pub mod Start
use stroid.Base.{
  ℕ, zero, suc, ◌+◌, ◌-◌, String, Bool, true, false, Option, none, some, List, [], ◌∷◌, ◌++◌,
  if◌then◌else◌, or_else, ◌==◌, length,
}
use stroid.Base.Dict.{Dict, lookup, insert}
use stroid.Base.Names.{has}
use stroid.Computed.{ComputedEntry, deps_of}

-- `inDegree` and `adjList`
pub record Edges : Type 0 where
  pub in_degree : Dict ℕ
  pub adj_list : Dict (List String)

abbrev pub children_of : String → Dict (List String) → List String
children_of name adj = or_else (lookup name adj) []

-- The dependencies that are affected.
abbrev pub affected_of : List String → List String → List String
affected_of affected [] = []
affected_of affected (dep ∷ deps) =
    let rest = affected_of affected deps in if has dep affected then dep ∷ rest else rest

-- `for (const dep of entry.deps) if (affected.has(dep)) { degree++; adjList.get(dep).push(name); }`
pub add_edges : String → List String → List String → ℕ × Dict (List String) → ℕ × Dict (List String)
add_edges name affected [] r = r
add_edges name affected (dep ∷ deps) (degree, adj) = add_edges name affected deps (
    if has dep affected
    then (degree + 1, insert dep (children_of dep adj ++ name ∷ []) adj)
    else (degree, adj))

abbrev pub add_name : Option ComputedEntry → String → List String → Edges → Edges
add_name none name affected e = e
add_name (some entry) name affected e =
    let r = add_edges name affected entry.deps (0, e.adj_list) in
    record { in_degree = insert name r.0 e.in_degree; adj_list = r.1 }

-- `for (const name of affected)`
unfoldable pub build_edges : Dict ComputedEntry → List String → List String → Edges → Edges
build_edges entries affected [] e = e
build_edges entries affected (name ∷ names) e =
    build_edges entries affected names (add_name (lookup name entries) name affected e)

module _ (before : String → String → Bool) where
  -- `ready.splice(insertAt, 0, child)` at the first name behind `child`, or `ready.push(child)`
  unfoldable pub insert_ready : String → List String → List String
  insert_ready child [] = child ∷ []
  insert_ready child (n ∷ ns) =
      let rest = insert_ready child ns in if before child n then child ∷ n ∷ ns else n ∷ rest

  -- The names of degree 0, sorted.
  unfoldable pub ready_names : Dict ℕ → List String
  ready_names [] = []
  ready_names ((name, degree) ∷ rest) =
      let ready = ready_names rest in if degree == 0 then insert_ready name ready else ready

  -- `for (const child of children)`. A degree of 0, which would go below, becomes no new one here.
  unfoldable pub relax : List String → Dict ℕ × List String → Dict ℕ × List String
  relax [] r = r
  relax (child ∷ children) (degrees, ready) =
      let degree = or_else (lookup child degrees) 1 in
      relax children
        (insert child (degree - 1) degrees, if degree == 1 then insert_ready child ready else ready)

  -- `while (ready.length > 0)`
  unfoldable pub sort_ready :
      ℕ → Dict (List String) → Dict ℕ → List String → List String → List String
  sort_ready zero adj degrees ready sorted = sorted
  sort_ready (suc fuel) adj degrees [] sorted = sorted
  sort_ready (suc fuel) adj degrees (name ∷ ready) sorted =
      let r = relax (children_of name adj) (degrees, ready) in
      sort_ready fuel adj r.0 r.1 (sorted ++ name ∷ [])

  unfoldable pub order_affected : Dict ComputedEntry → List String → List String
  order_affected entries affected =
      let e = build_edges entries affected affected (record { in_degree = []; adj_list = [] }) in
      sort_ready (length affected) e.adj_list e.in_degree (ready_names e.in_degree) []
