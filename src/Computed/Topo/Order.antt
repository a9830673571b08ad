-- ===== src/Computed/Topo/Order.antt =====
-- Affected computed stores run after the affected stores they depend on, and none runs twice
-- (src/computed/computed-graph.ts).
use stroid.Base.{
  ℕ, suc, zero, ◌≤◌, ◌<◌, ◌==◌, String, Bool, true, false, some, List, [], ◌∷◌, ◌++◌, ◌≡◌, refl,
  ◌===◌, ===_iff, if◌then◌else◌, arith, inl, inr, Bool-cases, ◌||◌, ◌∙◌, ap, subst,
}
use stroid.Base.Dict.{Dict, lookup}
use stroid.Base.Names.{has, add, IsDistinct, has-append}
use stroid.Computed.Fuel.{unvisited, unvisited_lt}
use stroid.Computed.Topo.{children_of, relax, sort_ready}
use stroid.Computed.Topo.Degrees.{count}
use stroid.Computed.Topo.Kahn.{
  missing, missing-snoc, missing-zero, has-count, Relaxed, relax-Relaxed,
}

-- Each name of `names` stands behind all that it needs, of which `before` has come already.
abbrev pub DepsFirst : (String → List String) → List String → List String → Type 0
DepsFirst need before [] = Unit
DepsFirst need before (n ∷ ns) =
    ((d : String) → has d (need n) ≡ true → has d before ≡ true)
    × DepsFirst need (before ++ n ∷ []) ns

DepsFirst-snoc :
    (need : String → List String) (before names : List String) (n : String)
    → DepsFirst need before names
    → ((d : String) → has d (need n) ≡ true → has d (before ++ names) ≡ true)
    → DepsFirst need before (names ++ n ∷ [])
DepsFirst-snoc need before [] n h k = (λ d e. ground (arith, k d e, has-append d before []), tt)
DepsFirst-snoc need before (m ∷ names) n (first, h) k = (
  first,
  DepsFirst-snoc need (before ++ m ∷ []) names n h (λ d e. ground (
    arith,
    k d e,
    has-append d before (m ∷ names),
    has-append d (before ++ m ∷ []) names,
    has-append d before (m ∷ []),
  )),
)

IsDistinct-snoc :
    (names : List String) (n : String)
    → has n names ≡ false
    → IsDistinct names
    → IsDistinct (names ++ n ∷ [])
IsDistinct-snoc [] n h u = (refl, tt)
IsDistinct-snoc (m ∷ names) n h (fresh, u) = (
  ground (arith, h, fresh, has-append m names (n ∷ []), ===_iff n m, ===_iff m n),
  IsDistinct-snoc names n (ground (arith, h)) u,
)

add-snoc : (n : String) (s : List String) → has n s ≡ false → add n s ≡ s ++ n ∷ []
add-snoc n [] h = refl
add-snoc n (m ∷ s) h = ground (arith, h, add-snoc n s)

-- Distinct names out of `node`, each behind what it needs.
pub record IsOrder (node : String → Bool) (need : String → List String) (names : List String)
    : Type 0 where
  pub deps_first : DepsFirst need [] names
  pub distinct : IsDistinct names
  pub nodes : (x : String) → has x names ≡ true → node x ≡ true
  pub stuck : (x : String) → node x ≡ true → has x names ≡ false → 1 ≤ missing (need x) names

module _ (node : String → Bool) (need : String → List String) where
  -- The state of the loop: degrees, ready names and sorted names.
  pub record InStep (degrees : Dict ℕ) (ready sorted : List String) : Type 0 where
    pub counted : (x : String) → node x ≡ true → lookup x degrees ≡ some (missing (need x) sorted)
    pub ready_free : (x : String) → has x ready ≡ true → missing (need x) sorted ≡ 0
    pub sorted_free : (x : String) → has x sorted ≡ true → missing (need x) sorted ≡ 0
    pub ready_nodes : (x : String) → has x ready ≡ true → node x ≡ true
    pub sorted_nodes : (x : String) → has x sorted ≡ true → node x ≡ true
    pub taken :
        (x : String)
        → node x ≡ true
        → missing (need x) sorted ≡ 0
        → (has x ready || has x sorted) ≡ true
    pub apart : (x : String) → has x ready ≡ true → has x sorted ≡ false
    pub ready_distinct : IsDistinct ready
    pub sorted_distinct : IsDistinct sorted
    pub in_order : DepsFirst need [] sorted

  InStep-IsOrder :
      (degrees : Dict ℕ) (sorted : List String)
      → InStep degrees [] sorted
      → IsOrder node need sorted
  InStep-IsOrder degrees sorted s = record {
    deps_first = s.in_order;
    distinct = s.sorted_distinct;
    nodes = s.sorted_nodes;
    stuck = λ x h out. ground (arith, s.taken x h, out);
  }

  next_unvisited :
      (all : List String)
      → ((x : String) → node x ≡ true → has x all ≡ true)
      → (degrees : Dict ℕ) (name : String) (ready sorted : List String)
      → InStep degrees (name ∷ ready) sorted
      → unvisited all (sorted ++ name ∷ []) < unvisited all sorted
  next_unvisited all a degrees name ready sorted s =
      let free = s.apart name (ground (arith, ===_iff name name)) in
      subst (λ names. unvisited all names < unvisited all sorted) (add-snoc name sorted free)
        (unvisited_lt all name sorted
          (a name (s.ready_nodes name (ground (arith, ===_iff name name)))) free)

  module _ (before : String → String → Bool) (adj : Dict (List String))
      (edges : (x d : String)
        → count x (children_of d adj) ≡ (if node x then count d (need x) else 0)) where
    step-InStep :
        (degrees : Dict ℕ) (name : String) (ready sorted : List String)
        → InStep degrees (name ∷ ready) sorted
        → let r = relax before (children_of name adj) (degrees, ready) in
          InStep r.0 r.1 (sorted ++ name ∷ [])
    step-InStep degrees name ready sorted s =
        let g = λ (x : String). missing (need x) sorted in
        let free : has name sorted ≡ false = s.apart name (ground (arith, ===_iff name name)) in
        let r : Relaxed before node g (children_of name adj) ready
            (relax before (children_of name adj) (degrees, ready)) =
          relax-Relaxed before node (children_of name adj) g degrees ready s.counted
            (λ x h. ground (arith, edges x name, has-count x (children_of name adj) h))
            (λ x. ground (arith, edges x name, missing-snoc (need x) sorted name free))
            (λ x h. s.ready_free x (ground (arith, h))) s.ready_distinct.1 in
        let snoc = λ (x : String). missing-snoc (need x) sorted name free in
        let ready_name = s.ready_free name (ground (arith, ===_iff name name)) in
        let away : (x : String) → has x (sorted ++ name ∷ []) ≡ (has x sorted || name === x) =
          λ x. ground (arith, has-append x sorted (name ∷ [])) in
        record {
          counted = λ x h. r.degrees x h ∙ ap some (ground (arith, edges x name, snoc x, h));
          ready_free = λ x h. elim (r.members x h) [
            | inl old ↦ ground (arith, snoc x, s.ready_free x (ground (arith, old)))
            | inr (z, (le, nx)) ↦ ground (arith, z, edges x name, snoc x, nx)
          ];
          sorted_free = λ x h. elim (Bool-cases (name === x)) [
            | inl y ↦
                subst (λ x. missing (need x) (sorted ++ name ∷ []) ≡ 0) ((===_iff name x).0 y)
                  (ground (arith, snoc name, ready_name))
            | inr n ↦ ground (arith, snoc x, s.sorted_free x (ground (arith, h, away x, n)))
          ];
          ready_nodes = λ x h. elim (r.members x h) [
            | inl old ↦ s.ready_nodes x (ground (arith, old))
            | inr (z, (le, nx)) ↦ nx
          ];
          sorted_nodes = λ x h. elim (Bool-cases (name === x)) [
            | inl y ↦
                subst (λ x. node x ≡ true) ((===_iff name x).0 y)
                  (s.ready_nodes name (ground (arith, ===_iff name name)))
            | inr n ↦ s.sorted_nodes x (ground (arith, h, away x, n))
          ];
          taken = λ x h z. elim (Bool-cases (missing (need x) sorted == 0)) [
            | inl y ↦
                ground (arith, s.taken x h (ground (arith, y)), r.kept x, away x, ===_iff name x)
            | inr n ↦ ground (
              arith,
              r.freed x h (ground (arith, n)) (ground (arith, z, h, snoc x, edges x name)),
            )
          ];
          apart = λ x h. elim (r.members x h) [
            | inl old ↦ ground (
              arith,
              away x,
              s.apart x (ground (arith, old)),
              s.ready_distinct.0,
              old,
              ===_iff name x,
            )
            | inr (z, (le, nx)) ↦ elim (Bool-cases (name === x)) [
              | inl y ↦ ground (
                arith,
                le,
                subst (λ x. missing (need x) sorted ≡ 0) ((===_iff name x).0 y) ready_name,
              )
              | inr n ↦ ground (arith, away x, le, n, s.sorted_free x)
            ]
          ];
          ready_distinct = r.distinct;
          sorted_distinct = IsDistinct-snoc sorted name free s.sorted_distinct;
          in_order = DepsFirst-snoc need [] sorted name s.in_order (λ d e.
              missing-zero (need name) sorted d
                (s.ready_free name (ground (arith, ===_iff name name))) e);
        }

    -- With the loop's invariant at the start and fuel for each name that is not sorted yet, what it
    -- sorts is in order, has no name twice, has nodes only, and leaves out only nodes that lack a name.
    pub sort_ready-IsOrder :
        (all : List String)
        → ((x : String) → node x ≡ true → has x all ≡ true)
        → (fuel : ℕ) (degrees : Dict ℕ) (ready sorted : List String) → unvisited all sorted ≤ fuel
        → InStep degrees ready sorted
        → IsOrder node need (sort_ready before fuel adj degrees ready sorted)
    unfolding sort_ready
    sort_ready-IsOrder all a zero degrees [] sorted f s = InStep-IsOrder degrees sorted s
    sort_ready-IsOrder all a zero degrees (name ∷ ready) sorted f s =
        ground (arith, f, next_unvisited all a degrees name ready sorted s)
    sort_ready-IsOrder all a (suc fuel) degrees [] sorted f s = InStep-IsOrder degrees sorted s
    sort_ready-IsOrder all a (suc fuel) degrees (name ∷ ready) sorted f s =
        let r = relax before (children_of name adj) (degrees, ready) in
        sort_ready-IsOrder all a fuel r.0 r.1 (sorted ++ name ∷ [])
          (ground (arith, f, next_unvisited all a degrees name ready sorted s))
          (step-InStep degrees name ready sorted s)
