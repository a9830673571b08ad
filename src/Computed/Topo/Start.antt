-- ===== src/Computed/Topo/Start.antt =====
-- The state in which the loop over ready names starts (src/computed/computed-graph.ts).
use stroid.Base.{
  ℕ, String, Bool, false, Option, none, some, List, [], ◌∷◌, ◌≡◌, refl, ◌===◌, ===_iff, ◌==◌,
  if◌then◌else◌, arith, length, Bool-cases, inl, inr, ◌∙◌, sym, ap, subst, if-both, is_some,
}
use stroid.Base.Dict.{Dict, lookup, insert, keys, has-keys, lookup-insert}
use stroid.Base.Names.{has, IsDistinct}
use stroid.Computed.{ComputedEntry}
use stroid.Computed.Fuel.{unvisited_le_length}
use stroid.Computed.Topo.{
  Edges, insert_ready, ready_names, add_name, build_edges, order_affected, children_of,
}
use stroid.Computed.Topo.Degrees.{count, is_node, need_of, build_edges-degree, build_edges-children}
use stroid.Computed.Topo.Kahn.{missing-nil, has-insert_ready, insert_ready-IsDistinct}
use stroid.Computed.Topo.Order.{IsOrder, InStep, sort_ready-IsOrder}

keys-insert : (x k : String) (v : ℕ) (m : Dict ℕ) → has x (keys (insert k v m)) ≡ has x (k ∷ keys m)
keys-insert x k v m =
    has-keys x (insert k v m) ∙ ap is_some (lookup-insert x k v m) ∙ ground (arith, has-keys x m)

insert-IsDistinct :
    (k : String) (v : ℕ) (m : Dict ℕ) → IsDistinct (keys m) → IsDistinct (keys (insert k v m))
insert-IsDistinct k v [] u = (refl, tt)
insert-IsDistinct k v ((j, w) ∷ m) (fresh, u) =
    let P = λ (m : Dict ℕ). IsDistinct (keys m) in
    elim (Bool-cases (j === k)) [
      | inl y ↦ subst (λ b. P (if b then (j, v) ∷ m else (j, w) ∷ insert k v m)) (sym y) (fresh, u)
      | inr n ↦
          subst (λ b. P (if b then (j, v) ∷ m else (j, w) ∷ insert k v m)) (sym n)
            (
              ground (arith, n, fresh, keys-insert j k v m, ===_iff k j, ===_iff j k),
              insert-IsDistinct k v m u,
            )
    ]

add_name-IsDistinct :
    (o : Option ComputedEntry) (name : String) (affected : List String) (e : Edges)
    → IsDistinct (keys e.in_degree)
    → IsDistinct (keys (add_name o name affected e).in_degree)
add_name-IsDistinct none name affected e u = u
add_name-IsDistinct (some entry) name affected e u = insert-IsDistinct name _ e.in_degree u

build_edges-IsDistinct :
    (entries : Dict ComputedEntry) (affected names : List String) (e : Edges)
    → IsDistinct (keys e.in_degree)
    → IsDistinct (keys (build_edges entries affected names e).in_degree)
unfolding build_edges
build_edges-IsDistinct entries affected [] e u = u
build_edges-IsDistinct entries affected (name ∷ names) e u =
    build_edges-IsDistinct entries affected names (add_name (lookup name entries) name affected e)
      (add_name-IsDistinct (lookup name entries) name affected e u)

abbrev is_zero : Option ℕ → Bool
is_zero none = false
is_zero (some degree) = degree == 0

module _ (before : String → String → Bool) where
  -- The ready names are those of degree 0.
  has-ready_names :
      (x : String) (m : Dict ℕ)
      → IsDistinct (keys m)
      → has x (ready_names before m) ≡ is_zero (lookup x m)
  unfolding ready_names
  has-ready_names x [] u = refl
  has-ready_names x ((k, degree) ∷ m) (fresh, u) = ground (
    arith,
    fresh,
    has-keys k m,
    has-keys x m,
    ===_iff k x,
    has-ready_names x m u,
    has-insert_ready before x k (ready_names before m),
  )

  ready_names-IsDistinct : (m : Dict ℕ) → IsDistinct (keys m) → IsDistinct (ready_names before m)
  unfolding ready_names
  ready_names-IsDistinct [] u = tt
  ready_names-IsDistinct ((k, degree) ∷ m) (fresh, u) =
      if-both IsDistinct (degree == 0) (insert_ready before k (ready_names before m))
        (ready_names before m)
        (insert_ready-IsDistinct before k (ready_names before m)
          (ground (arith, fresh, has-keys k m, has-ready_names k m u)) (ready_names-IsDistinct m u))
        (ready_names-IsDistinct m u)

module _ (before : String → String → Bool) (entries : Dict ComputedEntry) (affected : List String)
    (distinct : IsDistinct affected) where
  abbrev pub start_edges : Edges
  start_edges = build_edges entries affected affected (record { in_degree = []; adj_list = [] })

  start-keys : IsDistinct (keys start_edges.in_degree)
  start-keys = build_edges-IsDistinct entries affected affected _ tt

  pub start-edges :
      (x d : String)
      → count x (children_of d start_edges.adj_list)
        ≡ (if is_node entries affected x then count d (need_of entries affected x) else 0)
  start-edges x d =
      build_edges-children entries affected affected (record { in_degree = []; adj_list = [] }) x d
        distinct
      ∙ (omega arith)

  start-InStep :
      InStep
        (is_node entries affected)
        (need_of entries affected)
        start_edges.in_degree
        (ready_names before start_edges.in_degree)
        []
  start-InStep = record {
    counted = λ x h.
        build_edges-degree entries affected affected (record { in_degree = []; adj_list = [] }) x
        ∙ ground (arith, h, missing-nil (need_of entries affected x));
    ready_free = λ x h.
        missing-nil (need_of entries affected x)
        ∙ ground (
          arith,
          h,
          has-ready_names before x start_edges.in_degree start-keys,
          build_edges-degree entries affected affected (record { in_degree = []; adj_list = [] }) x,
        );
    sorted_free = λ x h. ground (arith, h);
    ready_nodes = λ x h. ground (
      arith,
      h,
      has-ready_names before x start_edges.in_degree start-keys,
      build_edges-degree entries affected affected (record { in_degree = []; adj_list = [] }) x,
    );
    sorted_nodes = λ x h. ground (arith, h);
    taken = λ x h z. ground (
      arith,
      h,
      z,
      missing-nil (need_of entries affected x),
      has-ready_names before x start_edges.in_degree start-keys,
      build_edges-degree entries affected affected (record { in_degree = []; adj_list = [] }) x,
    );
    apart = λ x h. refl;
    ready_distinct = ready_names-IsDistinct before start_edges.in_degree start-keys;
    sorted_distinct = tt;
    in_order = tt;
  }

  -- In the order of the affected computed stores, each stands behind all affected stores that it depends
  -- on, and none stands twice. No affected name is given twice.
  pub order_affected-IsOrder :
      IsOrder
        (is_node entries affected)
        (need_of entries affected)
        (order_affected before entries affected)
  unfolding order_affected
  order_affected-IsOrder =
      sort_ready-IsOrder (is_node entries affected) (need_of entries affected) before
        start_edges.adj_list start-edges affected (λ x h. ground (arith, h)) (length affected)
        start_edges.in_degree (ready_names before start_edges.in_degree) []
        (unvisited_le_length affected []) start-InStep
