-- ===== src/Computed/Links.antt =====
-- The two indexes of the graph of computed stores (src/computed/computed-graph.ts): `dependents`
-- names for each store the computed stores whose entries depend on it.
use stroid.Base.{
  ℕ, String, true, false, not, ◌&&◌, ◌||◌, none, List, [], ◌∷◌, ◌===◌, ===_iff, is_nil, ◌≡◌, refl,
  arith, Bool-cases, Option-cases, inl, inr,
}
use stroid.Base.Dict.{Dict, lookup, insert, lookup-insert, lookup-erase}
use stroid.Base.Names.{has, add, remove, has-add, has-remove}
use stroid.Computed.{
  Classification, ComputedGraph, deps_of, links_of, remove_link, remove_computed_dependent_links,
  add_dependent_links, detect_cycle, register_computed, unregister_computed,
}

-- Every entry stands in the links of the stores it depends on, and nothing else does.
abbrev pub IsMirrored : ComputedGraph → Type 0
IsMirrored g = (dep n : String) → has n (links_of dep g.dependents) ≡ has dep (deps_of g.entries n)

has-is_nil : (n : String) (s : List String) → is_nil s ≡ true → has n s ≡ false
has-is_nil n [] h = refl
has-is_nil n (m ∷ s) h = ground (arith, h)

has-remove_link :
    (n d name dep : String) (m : Dict (List String))
    → has n (links_of d (remove_link name dep m))
      ≡ (not (dep === d && name === n) && has n (links_of d m))
unfolding remove_link
has-remove_link n d name dep m = elim (Option-cases (lookup dep m)) [
  | inl h ↦ ground (arith, h, ===_iff dep d)
  | inr (links, h) ↦ elim (Bool-cases (is_nil (remove name links))) [
    | inl y ↦ ground (
      arith,
      h,
      y,
      ===_iff dep d,
      lookup-erase d dep m,
      has-remove n name links,
      has-is_nil n (remove name links) y,
    )
    | inr y ↦ ground (
      arith,
      h,
      y,
      ===_iff dep d,
      lookup-insert d dep (remove name links) m,
      has-remove n name links,
    )
  ]
]

has-remove_links :
    (n d name : String) (deps : List String) (m : Dict (List String))
    → has n (links_of d (remove_computed_dependent_links name deps m))
      ≡ (not (has d deps && name === n) && has n (links_of d m))
unfolding remove_computed_dependent_links
has-remove_links n d name [] m = refl
has-remove_links n d name (dep ∷ deps) m =
    ground (
      arith,
      has-remove_links n d name deps (remove_link name dep m),
      has-remove_link n d name dep m,
    )

has-add_links :
    (n d name : String) (deps : List String) (m : Dict (List String))
    → has n (links_of d (add_dependent_links name deps m))
      ≡ (has d deps && name === n || has n (links_of d m))
unfolding add_dependent_links
has-add_links n d name [] m = refl
has-add_links n d name (dep ∷ deps) m =
    let links = add name (links_of dep m) in
    ground (
      arith,
      ===_iff dep d,
      has-add_links n d name deps (insert dep links m),
      lookup-insert d dep links m,
      has-add n name (links_of dep m),
    )

-- `registerComputed` keeps the two indexes in step, whether it registers, replaces an entry with
-- other dependencies, or rejects.
pub register_computed-IsMirrored :
    (name : String) (deps : List String) (compute : ℕ) (classification : Classification)
    (g : ComputedGraph)
    → IsMirrored g
    → IsMirrored (register_computed name deps compute classification g).0
unfolding register_computed
register_computed-IsMirrored name deps compute classification g h d n =
    elim (Option-cases (detect_cycle g name deps)) [
      | inr (t, c) ↦ ground (arith, c, h d n)
      | inl c ↦ elim (Option-cases (lookup name g.entries)) [
        | inl o ↦ ground (
          arith,
          c,
          o,
          h d n,
          ===_iff name n,
          has-add_links n d name deps g.dependents,
          lookup-insert n name
              (record {
                deps = deps;
                compute = compute;
                stale = true;
                classification = classification;
                has_last_output = false;
                last_output = none;
              })
              g.entries,
        )
        | inr (old, o) ↦
            let cleaned = remove_computed_dependent_links name old.deps g.dependents in
            ground (
              arith,
              c,
              o,
              h d n,
              ===_iff name n,
              has-add_links n d name deps cleaned,
              has-remove_links n d name old.deps g.dependents,
              lookup-insert n name
                  (record {
                    deps = deps;
                    compute = compute;
                    stale = true;
                    classification = classification;
                    has_last_output = false;
                    last_output = none;
                  })
                  g.entries,
            )
      ]
    ]

-- `unregisterComputed` keeps the two indexes in step.
pub unregister_computed-IsMirrored :
    (name : String) (g : ComputedGraph) → IsMirrored g → IsMirrored (unregister_computed name g)
unfolding unregister_computed
unregister_computed-IsMirrored name g h d n = elim (Option-cases (lookup name g.entries)) [
  | inl o ↦ ground (arith, o, h d n)
  | inr (entry, o) ↦ ground (
    arith,
    o,
    h d n,
    ===_iff name n,
    lookup-erase n name g.entries,
    has-remove_links n d name entry.deps g.dependents,
  )
]
