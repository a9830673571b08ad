-- ===== src/Computed/Affected/Complete.antt =====
-- Every affected computed store gets its turn (src/computed/computed-graph.ts): a name that the order
-- leaves out lacks one that it leaves out, and so on, and the names run out.
use stroid.Base.{
  ℕ, zero, suc, ◌≤◌, ◌<◌, String, Bool, true, false, some, List, [], ◌∷◌, ◌===◌, ===_iff, ◌≡◌, sym,
  subst, ◌∙◌, arith, Bool-cases, Option-cases, ◌⊎◌, inl, inr,
}
use stroid.Base.Dict.{Dict, has_key, lookup}
use stroid.Base.Names.{has, add, has-add}
use stroid.Computed.{ComputedEntry, ComputedGraph, deps_of}
use stroid.Computed.Fuel.{unvisited, unvisited_lt}
use stroid.Computed.Acyclic.{Reaches, edge, Reaches-trans}
use stroid.Computed.Reach.{IsReachable, IsConsistent, reachable-IsConsistent}
use stroid.Computed.Topo.{affected_of, order_affected}
use stroid.Computed.Topo.Degrees.{need_of, is_node}
use stroid.Computed.Topo.Kahn.{missing}
use stroid.Computed.Topo.Order.{IsOrder}
use stroid.Computed.Topo.Start.{order_affected-IsOrder}
use stroid.Computed.Affected.{compute_topo_ordered_computeds}
use stroid.Computed.Affected.Start.{IsAffected, IsFull, affected_by-IsFull, computed-step}

some_missing :
    (ns sorted : List String)
    → 1 ≤ missing ns sorted
    → (d : String) × ((has d ns ≡ true) × (has d sorted ≡ false))
some_missing [] sorted h = ground (arith, h)
some_missing (n ∷ ns) sorted h = elim (Bool-cases (has n sorted)) [
  | inl y ↦
      let (d, (i, o)) = some_missing ns sorted (ground (arith, h, y)) in (d, (ground (arith, i), o))
  | inr o ↦ (n, (ground (arith, ===_iff n n), o))
]

has-need :
    (affected deps : List String) (d : String)
    → has d (affected_of affected deps) ≡ true
    → has d deps ≡ true
has-need affected [] d h = ground (arith, h)
has-need affected (e ∷ deps) d h = ground (arith, h, has-need affected deps d)

need-has :
    (affected deps : List String) (d : String)
    → has d (affected_of affected deps) ≡ true
    → has d affected ≡ true
need-has affected [] d h = ground (arith, h)
need-has affected (e ∷ deps) d h = elim (Bool-cases (has d (affected_of affected deps))) [
  | inl y ↦ need-has affected deps d y
  | inr n ↦
      subst (λ d. has d affected ≡ true) ((===_iff e d).0 (ground (arith, h, n)))
        (ground (arith, h, n))
]

depends-has_key :
    (entries : Dict ComputedEntry) (n d : String)
    → has d (deps_of entries n) ≡ true
    → has_key n entries ≡ true
depends-has_key entries n d h = elim (Option-cases (lookup n entries)) [
  | inl o ↦ ground (arith, h, o)
  | inr (e, o) ↦ ground (arith, o)
]

module _ (g : ComputedGraph) (sources affected order : List String) (c : IsConsistent g)
    (full : IsFull g sources affected)
    (o : IsOrder (is_node g.entries affected) (need_of g.entries affected) order) where
  registered : (n : String) → has n affected ≡ true → has_key n g.entries ≡ true
  registered n h = elim (full.origin n h) [
    | inl (s, l) ↦ depends-has_key g.entries n s (sym (c.mirrored s n) ∙ l)
    | inr k ↦ k
  ]

  -- The names of `visited` depend on `x`, directly or through others, or are `x`.
  abbrev LeadTo : List String → String → Type 0
  LeadTo visited x = (y : String) → has y visited ≡ true → (y ≡ x) ⊎ Reaches g.entries y x

  through :
      (x d y : String)
      → has d (deps_of g.entries x) ≡ true
      → (y ≡ x) ⊎ Reaches g.entries y x
      → Reaches g.entries y d
  through x d y h (inl e) = subst (λ y. Reaches g.entries y d) (sym e) (edge h)
  through x d y h (inr p) = Reaches-trans p (edge h)

  never_left_out :
      (fuel : ℕ) (x : String) (visited : List String)
      → unvisited affected visited < fuel
      → has x affected ≡ true
      → has x order ≡ false
      → LeadTo visited x
      → ⊥
  never_left_out zero x visited f a h lead = ground (arith, f)
  never_left_out (suc fuel) x visited f a h lead =
      let (d, (i, out)) =
        some_missing (need_of g.entries affected x) order
          (o.stuck x (ground (arith, a, registered x a)) h) in
      let dep = has-need affected (deps_of g.entries x) d i in
      let here = need-has affected (deps_of g.entries x) d i in
      elim (Bool-cases (has d visited)) [
        | inl y ↦ c.acyclic d (through x d d dep (lead d y))
        | inr n ↦
            never_left_out fuel d (add d visited)
              (ground (arith, f, unvisited_lt affected d visited here n)) here out
              (λ y j. elim (Bool-cases (d === y)) [
                | inl same ↦ inl (sym ((===_iff d y).0 same))
                | inr other ↦
                    inr (through x d y dep (lead y (ground (arith, j, other, has-add y d visited))))
              ])
      ]

  ordered : (x : String) → has x affected ≡ true → has x order ≡ true
  ordered x a = elim (Bool-cases (has x order)) [
    | inl y ↦ y
    | inr n ↦
        elim (never_left_out (suc (unvisited affected [])) x [] (omega arith) a n
          (λ y j. ground (arith, j))) [ ]
  ]

-- In a graph that calls have built from the empty one, each computed store that a changed store reaches
-- over its dependents stands in the order that the computation returns.
pub affected_get_their_turn :
    (before : String → String → Bool) (g : ComputedGraph) (sources : List String) (n : String)
    → IsReachable g
    → IsAffected g sources n
    → (order : List String) × ((compute_topo_ordered_computeds before g sources ≡ some order)
        × (has n order ≡ true))
affected_get_their_turn before g sources n r a =
    let (affected, (e, full)) = affected_by-IsFull g sources in
    (
      order_affected before g.entries affected,
      (
        computed-step before g sources affected e,
        ordered g sources affected (order_affected before g.entries affected)
            (reachable-IsConsistent g r) full
            (order_affected-IsOrder before g.entries affected full.distinct) n (full.reached n a),
      ),
    )
