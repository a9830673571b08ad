-- ===== src/Computed.antt =====
-- The graph of computed stores (src/computed/computed-graph.ts): entries with the stores they depend
-- on, and for each store the computed stores that depend on it. A compute function and an output
-- are kept by reference. The walk of `detectCycle` runs on fuel, one more than there are entries.
pub mod Search
pub mod Fuel
pub mod Acyclic
pub mod Register
pub mod Links
pub mod Reach
pub mod Topo
pub mod Affected
mod Tests
use stroid.Base.{
  ℕ, zero, suc, ◌+◌, String, Bool, true, false, Option, none, some, List, [], ◌∷◌, ◌++◌, ◌===◌,
  if◌then◌else◌, is_nil, length,
}
use stroid.Base.Dict.{Dict, lookup, insert, erase, has_key}
use stroid.Base.Names.{has, add, remove}

pub data Classification : Type 0 where
  deterministic : Classification
  opaque : Classification
  async_boundary : Classification

pub record ComputedEntry : Type 0 where
  pub deps : List String
  pub compute : ℕ
  pub stale : Bool
  pub classification : Classification
  pub has_last_output : Bool
  pub last_output : Option ℕ

-- The part of the registry that the graph stands in, with the version of the graph.
pub record ComputedGraph : Type 0 where
  pub entries : Dict ComputedEntry
  pub dependents : Dict (List String)
  pub version : ℕ

-- `entries[name]?.deps ?? []`
abbrev pub deps_of : Dict ComputedEntry → String → List String
deps_of entries name = elim (lookup name entries) [ none ↦ [] | some entry ↦ entry.deps ]

pub data Walk : Type 0 where
  ran_out : Walk
  absent : List String → Walk
  found : List String → Walk

-- `dfs(d)` for each of `ds`, until one reaches `name`: with the path that leads to it, or with the
-- names that were visited.
pub walk : Dict ComputedEntry → String → ℕ → List String → List String → List String → Walk
walk entries name fuel [] visited path = absent visited
walk entries name zero (d ∷ ds) visited path = ran_out
walk entries name (suc fuel) (d ∷ ds) visited path = elim (d === name) [
  | true ↦ found path
  | false ↦ elim (has d visited) [
    | true ↦ walk entries name (suc fuel) ds visited path
    | false ↦ elim (walk entries name fuel (deps_of entries d) (add d visited) (path ++ d ∷ [])) [
      | ran_out ↦ ran_out
      | found trace ↦ found trace
      | absent visited' ↦ walk entries name (suc fuel) ds visited' path
    ]
  ]
]

-- `detectCycle`: the names of the cycle, which the source joins by " -> ".
pub detect_cycle : ComputedGraph → String → List String → Option (List String)
detect_cycle g name deps = elim (walk g.entries name (suc (length g.entries)) deps [] []) [
  | ran_out ↦ none
  | absent visited ↦ none
  | found path ↦ some (name ∷ path ++ name ∷ [])
]

-- One round of `removeComputedDependentLinks`.
pub remove_link : String → String → Dict (List String) → Dict (List String)
remove_link name dep dependents = elim (lookup dep dependents) [
  | none ↦ dependents
  | some links ↦
      let rest = remove name links in
      if is_nil rest then erase dep dependents else insert dep rest dependents
]

pub remove_computed_dependent_links : String → List String → Dict (List String) → Dict (List String)
remove_computed_dependent_links name [] dependents = dependents
remove_computed_dependent_links name (dep ∷ deps) dependents =
    remove_computed_dependent_links name deps (remove_link name dep dependents)

abbrev pub links_of : String → Dict (List String) → List String
links_of dep dependents = elim (lookup dep dependents) [ none ↦ [] | some links ↦ links ]

-- `for (const dep of deps) …dependents[dep].add(name)`
pub add_dependent_links : String → List String → Dict (List String) → Dict (List String)
add_dependent_links name [] dependents = dependents
add_dependent_links name (dep ∷ deps) dependents =
    add_dependent_links name deps (insert dep (add name (links_of dep dependents)) dependents)

-- `registerComputed`, with what it returns.
pub register_computed :
    String → List String → ℕ → Classification → ComputedGraph → ComputedGraph × Bool
register_computed name deps compute classification g = elim (detect_cycle g name deps) [
  | some trace ↦ (g, false)
  | none ↦
      let cleaned : Dict (List String) = elim (lookup name g.entries) [
        | none ↦ g.dependents
        | some old ↦ remove_computed_dependent_links name old.deps g.dependents
      ] in
      (
        record {
          entries =
              insert name
                (record {
                  deps = deps;
                  compute = compute;
                  stale = true;
                  classification = classification;
                  has_last_output = false;
                  last_output = none;
                })
                g.entries;
          dependents = add_dependent_links name deps cleaned;
          version = g.version + 1;
        },
        true,
      )
]

pub unregister_computed : String → ComputedGraph → ComputedGraph
unregister_computed name g = elim (lookup name g.entries) [
  | none ↦ g
  | some entry ↦ record {
    entries = erase name g.entries;
    dependents = remove_computed_dependent_links name entry.deps g.dependents;
    version = g.version + 1;
  }
]

pub mark_stale : String → ComputedGraph → ComputedGraph
mark_stale name g = elim (lookup name g.entries) [
  | none ↦ g
  | some entry ↦ record g { entries = insert name (record entry { stale = true }) g.entries }
]
