-- ===== src/Computed/Affected/Start.antt =====
-- `computeTopoOrderedComputeds` (src/computed/computed-graph.ts) as a whole: it ends, and each computed
-- store runs behind those that it depends on.
use stroid.Base.{
  suc, ◌+◌, String, Bool, true, some, List, [], ◌∷◌, ◌++◌, ===_iff, if◌then◌else◌, length, ◌≡◌,
  refl, subst, arith, Bool-cases, ◌⊎◌, inl, inr,
}
use stroid.Base.Dict.{Dict, has_key}
use stroid.Base.Names.{has, IsDistinct}
use stroid.Computed.{ComputedEntry, ComputedGraph, deps_of, links_of}
use stroid.Computed.Search.{Holds}
use stroid.Computed.Fuel.{unvisited-length, unvisited_le_length}
use stroid.Computed.Topo.{affected_of, order_affected}
use stroid.Computed.Topo.Degrees.{need_of}
use stroid.Computed.Topo.Order.{DepsFirst}
use stroid.Computed.Topo.Start.{order_affected-IsOrder}
use stroid.Computed.Affected.{link_names, affected_by, compute_topo_ordered_computeds}
use stroid.Computed.Affected.Grows.{Spreads, collect_all-Spreads}
use stroid.Computed.Affected.Expand.{HoldsComputed, ExpandsAll, expand_all-ExpandsAll}

-- The computed stores that a change of `sources` reaches over dependents.
pub data IsAffected (g : ComputedGraph) (sources : List String) : String → Type 0 where
  direct :
      (s n : String)
      → has s sources ≡ true
      → has n (links_of s g.dependents) ≡ true
      → IsAffected g sources n
  further :
      (s n : String)
      → IsAffected g sources s
      → has n (links_of s g.dependents) ≡ true
      → IsAffected g sources n

-- The dependencies that are registered computed stores.
abbrev pub computed_among : Dict ComputedEntry → List String → List String
computed_among entries [] = []
computed_among entries (dep ∷ deps) =
    let rest = computed_among entries deps in if has_key dep entries then dep ∷ rest else rest

has-computed_among :
    (entries : Dict ComputedEntry) (deps : List String) (d : String)
    → has d (computed_among entries deps) ≡ true
    → (has d deps ≡ true) × (has_key d entries ≡ true)
has-computed_among entries [] d h = ground (arith, h)
has-computed_among entries (e ∷ deps) d h =
    elim (Bool-cases (has d (computed_among entries deps))) [
      | inl y ↦ let rest = has-computed_among entries deps d y in (ground (arith, rest.0), rest.1)
      | inr n ↦
          let same : e ≡ d = (===_iff e d).0 (ground (arith, h, n)) in
          let known : has_key e entries ≡ true = ground (arith, h, n) in
          (ground (arith, same, ===_iff e d), subst (λ d. has_key d entries ≡ true) same known)
    ]

has-affected_of :
    (affected deps : List String) (d : String)
    → has d deps ≡ true
    → has d affected ≡ true
    → has d (affected_of affected deps) ≡ true
has-affected_of affected [] d h a = ground (arith, h)
has-affected_of affected (e ∷ deps) d h a =
    ground (arith, h, a, ===_iff e d, has-affected_of affected deps d)

module _ (g : ComputedGraph) (sources : List String) where
  -- What the affected names are: all that the sources reach, closed under dependencies.
  pub record IsFull (affected : List String) : Type 0 where
    pub distinct : IsDistinct affected
    pub reached : (n : String) → IsAffected g sources n → has n affected ≡ true
    pub closed :
        (n : String)
        → has n affected ≡ true
        → HoldsComputed g.entries affected (deps_of g.entries n)
    pub origin :
        (n : String)
        → has n affected ≡ true
        → ((s : String) × (has n (links_of s g.dependents) ≡ true)) ⊎ (has_key n g.entries ≡ true)

  reached :
      (names affected : List String)
      → Spreads g.dependents sources [] names
      → ExpandsAll g.entries names names affected
      → (n : String) → IsAffected g sources n
      → has n names ≡ true
  reached names affected h k _ (direct s n i j) = h.from_queue s i n j
  reached names affected h k _ (further s n i j) =
      h.from_new s (reached names affected h k s i) refl n j

  pub affected_by-IsFull :
      (affected : List String) × ((affected_by g sources ≡ some affected) × IsFull affected)
  unfolding affected_by
  affected_by-IsFull =
      let (names, (e, h)) =
        collect_all-Spreads g.dependents (length sources + length (link_names g.dependents)) sources
          [] (ground (arith, unvisited_le_length (link_names g.dependents) [])) in
      let (affected, (e', k)) =
        expand_all-ExpandsAll g.entries (suc (length g.entries)) names names
          (ground (arith, unvisited-length g.entries names)) in
      (
        affected,
        (
          ground (arith, e, e'),
          record {
            distinct = k.keeps.distinct (h.keeps.distinct tt);
            reached = λ n i. k.keeps.keeps n (reached names affected h k n i);
            closed = λ n i. elim (Bool-cases (has n names)) [
              | inl y ↦ k.from_names n y
              | inr o ↦ k.from_new n i o
            ];
            origin = λ n i. elim (Bool-cases (has n names)) [
              | inl y ↦ inl (h.fresh n y refl)
              | inr o ↦ inr (k.fresh n i o)
            ];
          },
        ),
      )

DepsFirst-mono :
    (need need' : String → List String) (before names : List String)
    → ((n : String) → has n names ≡ true → Holds (need n) (need' n))
    → DepsFirst need before names
    → DepsFirst need' before names
DepsFirst-mono need need' before [] h k = tt
DepsFirst-mono need need' before (n ∷ names) h (first, k) = (
  λ d e. first d (h n (ground (arith, ===_iff n n)) d e),
  DepsFirst-mono need need' (before ++ n ∷ []) names (λ m e. h m (ground (arith, e))) k,
)

-- An order of registered computed stores, each behind all of those that it depends on.
abbrev pub RunsDepsFirst : ComputedGraph → List String → Type 0
RunsDepsFirst g order =
    DepsFirst (λ n. computed_among g.entries (deps_of g.entries n)) [] order
    × (IsDistinct order × ((n : String) → has n order ≡ true → has_key n g.entries ≡ true))

module _ (before : String → String → Bool) (g : ComputedGraph) (sources : List String) where
  pub computed-step :
      (affected : List String)
      → affected_by g sources ≡ some affected
      → compute_topo_ordered_computeds before g sources
        ≡ some (order_affected before g.entries affected)
  unfolding compute_topo_ordered_computeds
  computed-step affected e = ground (arith, e)

  -- The computation of the order ends. In the order that it returns, each computed store stands behind
  -- all registered computed stores that it depends on, none stands twice, and all are registered.
  pub compute_topo_ordered_computeds-RunsDepsFirst :
      (order : List String) × ((compute_topo_ordered_computeds before g sources ≡ some order)
        × RunsDepsFirst g order)
  compute_topo_ordered_computeds-RunsDepsFirst =
      let (affected, (e, full)) = affected_by-IsFull g sources in
      let sorted = order_affected-IsOrder before g.entries affected full.distinct in
      let order = order_affected before g.entries affected in
      (
        order,
        (
          computed-step affected e,
          (
            DepsFirst-mono (need_of g.entries affected) _ [] order
                (λ n i d j.
                  let k = has-computed_among g.entries (deps_of g.entries n) d j in
                  has-affected_of affected (deps_of g.entries n) d k.0
                    (full.closed n (ground (arith, sorted.nodes n i)) d k.0 k.1))
                sorted.deps_first,
            (sorted.distinct, λ n i. ground (arith, sorted.nodes n i)),
          ),
        ),
      )
