-- ===== src/Computed/Topo/Degrees.antt =====
-- The degrees and edges that the order of computed stores starts from
-- (src/computed/computed-graph.ts).
use stroid.Base.{
  ℕ, suc, ◌+◌, String, Bool, some, List, [], ◌∷◌, ◌++◌, ◌≡◌, refl, ◌===◌, ===_iff, if◌then◌else◌,
  arith, length, Option-cases, inl, inr, Bool-cases, ◌&&◌,
}
use stroid.Base.Dict.{Dict, lookup, insert, has_key, lookup-insert}
use stroid.Base.Names.{has, IsDistinct}
use stroid.Computed.{ComputedEntry, deps_of}
use stroid.Computed.Topo.{Edges, children_of, affected_of, add_edges, add_name, build_edges}

abbrev pub count : String → List String → ℕ
count k [] = 0
count k (j ∷ js) = let rest = count k js in if j === k then suc rest else rest

pub count-append : (k : String) (s t : List String) → count k (s ++ t) ≡ count k s + count k t
count-append k [] t = omega arith
count-append k (j ∷ s) t = ground (arith, count-append k s t)

add_edges-degree :
    (name : String) (affected deps : List String) (degree : ℕ) (adj : Dict (List String))
    → (add_edges name affected deps (degree, adj)).0 ≡ degree + length (affected_of affected deps)
unfolding add_edges
add_edges-degree name affected [] degree adj = omega arith
add_edges-degree name affected (dep ∷ deps) degree adj = elim (Bool-cases (has dep affected)) [
  | inl y ↦ ground (
    arith,
    y,
    add_edges-degree name affected deps (degree + 1)
        (insert dep (children_of dep adj ++ name ∷ []) adj),
  )
  | inr n ↦ ground (arith, n, add_edges-degree name affected deps degree adj)
]

add_edges-children :
    (name : String) (affected deps : List String) (degree : ℕ) (adj : Dict (List String))
    (x d : String)
    → count x (children_of d (add_edges name affected deps (degree, adj)).1)
      ≡ count x (children_of d adj)
        + (if name === x then count d (affected_of affected deps) else 0)
unfolding add_edges
add_edges-children name affected [] degree adj x d = ground arith
add_edges-children name affected (dep ∷ deps) degree adj x d =
    elim (Bool-cases (has dep affected)) [
      | inl y ↦ ground (
        arith,
        y,
        add_edges-children name affected deps (degree + 1)
            (insert dep (children_of dep adj ++ name ∷ []) adj) x d,
        lookup-insert d dep (children_of dep adj ++ name ∷ []) adj,
        count-append x (children_of dep adj) (name ∷ []),
        ===_iff dep d,
      )
      | inr n ↦ ground (arith, n, add_edges-children name affected deps degree adj x d)
    ]

-- The names of `names` that have an entry.
abbrev pub is_node : Dict ComputedEntry → List String → String → Bool
is_node entries names x = has x names && has_key x entries

abbrev pub need_of : Dict ComputedEntry → List String → String → List String
need_of entries affected x = affected_of affected (deps_of entries x)

module _ (entries : Dict ComputedEntry) (affected : List String) where
  add_name-degree :
      (name x : String) (e : Edges)
      → lookup x (add_name (lookup name entries) name affected e).in_degree ≡ (
          if (name === x) && has_key x entries
          then some (length (need_of entries affected x))
          else lookup x e.in_degree)
  add_name-degree name x e = elim (Option-cases (lookup name entries)) [
    | inl o ↦ ground (arith, o, ===_iff name x)
    | inr (entry, o) ↦ ground (
      arith,
      o,
      ===_iff name x,
      add_edges-degree name affected entry.deps 0 e.adj_list,
      lookup-insert x name (add_edges name affected entry.deps (0, e.adj_list)).0 e.in_degree,
    )
  ]

  add_name-children :
      (name x d : String) (e : Edges)
      → count x (children_of d (add_name (lookup name entries) name affected e).adj_list)
        ≡ count x (children_of d e.adj_list)
          + (if (name === x) && has_key x entries then count d (need_of entries affected x) else 0)
  add_name-children name x d e = elim (Option-cases (lookup name entries)) [
    | inl o ↦ ground (arith, o, ===_iff name x)
    | inr (entry, o) ↦
        ground
          (arith, o, ===_iff name x, add_edges-children name affected entry.deps 0 e.adj_list x d)
  ]

  pub build_edges-degree :
      (names : List String) (e : Edges) (x : String)
      → lookup x (build_edges entries affected names e).in_degree ≡ (
          if is_node entries names x
          then some (length (need_of entries affected x))
          else lookup x e.in_degree)
  unfolding build_edges
  build_edges-degree [] e x = refl
  build_edges-degree (name ∷ names) e x = ground (
    arith,
    build_edges-degree names (add_name (lookup name entries) name affected e) x,
    add_name-degree name x e,
  )

  pub build_edges-children :
      (names : List String) (e : Edges) (x d : String)
      → IsDistinct names
      → count x (children_of d (build_edges entries affected names e).adj_list)
        ≡ count x (children_of d e.adj_list)
          + (if is_node entries names x then count d (need_of entries affected x) else 0)
  unfolding build_edges
  build_edges-children [] e x d u = ground arith
  build_edges-children (name ∷ names) e x d (fresh, u) = ground (
    arith,
    build_edges-children names (add_name (lookup name entries) name affected e) x d u,
    add_name-children name x d e,
    fresh,
    ===_iff name x,
  )
