-- ===== src/Computed/Affected/Grows.antt =====
-- The two walks that collect the affected computed stores come to an end, add names only, and add no
-- name twice (src/computed/computed-graph.ts).
use stroid.Base.{
  ℕ, zero, suc, ◌+◌, ◌≤◌, String, Bool, true, false, some, List, [], ◌∷◌, ◌++◌, ◌===◌, ===_iff,
  if◌then◌else◌, length, ◌≡◌, refl, sym, subst, arith, Bool-cases, inl, inr,
}
use stroid.Base.Dict.{Dict}
use stroid.Base.Names.{has, add, has-add, has-append, IsDistinct}
use stroid.Computed.{links_of}
use stroid.Computed.Search.{Holds}
use stroid.Computed.Fuel.{unvisited, unvisited_lt, add-Holds}
use stroid.Computed.Affected.{collect, collect_all, link_names}

add-IsDistinct : (k : String) (s : List String) → IsDistinct s → IsDistinct (add k s)
add-IsDistinct k [] u = (refl, tt)
add-IsDistinct k (j ∷ s) (fresh, u) = elim (Bool-cases (j === k)) [
  | inl y ↦ subst (λ b. IsDistinct (if b then j ∷ s else j ∷ add k s)) (sym y) (fresh, u)
  | inr n ↦
      subst (λ b. IsDistinct (if b then j ∷ s else j ∷ add k s)) (sym n)
        (ground (arith, n, fresh, has-add j k s, ===_iff k j, ===_iff j k), add-IsDistinct k s u)
]

-- A result that keeps the names it started from, and repeats none.
pub record Keeps (before after : List String) : Type 0 where
  pub keeps : Holds after before
  pub distinct : IsDistinct before → IsDistinct after

pub Keeps-refl : (before : List String) → Keeps before before
Keeps-refl before = record { keeps = λ n h. h; distinct = λ u. u }

pub Keeps-trans : (a b c : List String) → Keeps a b → Keeps b c → Keeps a c
Keeps-trans a b c h k = record {
  keeps = λ n i. k.keeps n (h.keeps n i);
  distinct = λ u. k.distinct (h.distinct u);
}

pub Keeps-add : (d : String) (before : List String) → Keeps before (add d before)
Keeps-add d before = record { keeps = add-Holds d before; distinct = add-IsDistinct d before }

-- What `collect` does with the affected names and the queue, where all names are in `all`.
record Collects (all from : List String) (r r' : List String × List String) : Type 0 where
  pub keeps : Keeps r.0 r'.0
  pub queue_kept : Holds r'.1 r.1
  pub queued : (n : String) → has n r'.0 ≡ true → has n r.0 ≡ false → has n r'.1 ≡ true
  pub fresh : (n : String) → has n r'.0 ≡ true → has n r.0 ≡ false → has n from ≡ true
  pub shrinks : length r'.1 + unvisited all r'.0 ≤ length r.1 + unvisited all r.0

length-snoc : (names : List String) (d : String) → length (names ++ d ∷ []) ≡ suc (length names)
length-snoc [] d = refl
length-snoc (n ∷ names) d = ground (arith, length-snoc names d)

collect-Collects :
    (all deps affected queue : List String)
    → Holds all deps
    → Collects all deps (affected, queue) (collect deps (affected, queue))
      × Holds (collect deps (affected, queue)).0 deps
unfolding collect
collect-Collects all [] affected queue h = (
  record {
    keeps = Keeps-refl affected;
    queue_kept = λ n e. e;
    queued = λ n e f. ground (arith, e, f);
    fresh = λ n e f. ground (arith, e, f);
    shrinks = omega arith;
  },
  λ n e. ground (arith, e),
)
collect-Collects all (d ∷ deps) affected queue h =
    let P = λ (b : Bool).
      let r = collect deps (if b then (affected, queue) else (add d affected, queue ++ d ∷ [])) in
      Collects all (d ∷ deps) (affected, queue) r × Holds r.0 (d ∷ deps) in
    let below = λ (n : String) (e : has n deps ≡ true). h n (ground (arith, e)) in
    elim (Bool-cases (has d affected)) [
      | inl y ↦
          let rest = collect-Collects all deps affected queue below in
          subst P (sym y) (
            record {
              keeps = rest.0.keeps;
              queue_kept = rest.0.queue_kept;
              queued = rest.0.queued;
              fresh = λ n e f. ground (arith, rest.0.fresh n e f);
              shrinks = rest.0.shrinks;
            },
            λ n e. ground (arith, e, y, ===_iff d n, rest.0.keeps.keeps n, rest.1 n),
          )
      | inr o ↦
          let rest = collect-Collects all deps (add d affected) (queue ++ d ∷ []) below in
          subst P (sym o) (
            record {
              keeps = Keeps-trans affected (add d affected) _ (Keeps-add d affected) rest.0.keeps;
              queue_kept =
                  λ n e. ground (arith, e, has-append n queue (d ∷ []), rest.0.queue_kept n);
              queued = λ n e f. ground (
                arith,
                e,
                f,
                has-add n d affected,
                has-append n queue (d ∷ []),
                rest.0.queue_kept n,
                rest.0.queued n,
              );
              fresh = λ n e f. ground (arith, e, f, has-add n d affected, rest.0.fresh n);
              shrinks = ground (
                arith,
                rest.0.shrinks,
                length-snoc queue d,
                unvisited_lt all d affected (h d (ground (arith, ===_iff d d))) o,
              );
            },
            λ n e.
                ground
                  (arith, e, ===_iff d n, has-add n d affected, rest.0.keeps.keeps n, rest.1 n),
          )
    ]

module _ (dependents : Dict (List String)) where
  pub links_of-link_names :
      (name : String) (m : Dict (List String)) → Holds (link_names m) (links_of name m)
  links_of-link_names name [] n e = ground (arith, e)
  links_of-link_names name ((k, links) ∷ m) n e =
      ground (arith, e, has-append n links (link_names m), links_of-link_names name m n)

  -- `after` has the dependents of all of `queue`, and those of each name that `before` has not.
  pub record Spreads (queue before after : List String) : Type 0 where
    pub keeps : Keeps before after
    pub from_queue : (s : String) → has s queue ≡ true → Holds after (links_of s dependents)
    pub from_new :
        (n : String)
        → has n after ≡ true
        → has n before ≡ false
        → Holds after (links_of n dependents)
    pub fresh :
        (n : String)
        → has n after ≡ true
        → has n before ≡ false
        → (s : String) × (has n (links_of s dependents) ≡ true)

  pub collect_all-Spreads :
      (fuel : ℕ) (queue affected : List String)
      → length queue + unvisited (link_names dependents) affected ≤ fuel
      → (after : List String) × ((collect_all dependents fuel queue affected ≡ some after)
          × Spreads queue affected after)
  unfolding collect_all
  collect_all-Spreads fuel [] affected h = (
    affected,
    (
      refl,
      record {
        keeps = Keeps-refl affected;
        from_queue = λ s e. ground (arith, e);
        from_new = λ n e f. ground (arith, e, f);
        fresh = λ n e f. ground (arith, e, f);
      },
    ),
  )
  collect_all-Spreads zero (current ∷ queue) affected h = ground (arith, h)
  collect_all-Spreads (suc fuel) (current ∷ queue) affected h =
      let r = collect (links_of current dependents) (affected, queue) in
      let (step, taken) =
        collect-Collects (link_names dependents) (links_of current dependents) affected queue
          (links_of-link_names current dependents) in
      let (after, (e, rest)) = collect_all-Spreads fuel r.1 r.0 (ground (arith, h, step.shrinks)) in
      (
        after,
        (
          e,
          record {
            keeps = Keeps-trans affected r.0 after step.keeps rest.keeps;
            from_queue = λ s i. elim (Bool-cases (current === s)) [
              | inl y ↦
                  subst (λ s. Holds after (links_of s dependents)) ((===_iff current s).0 y)
                    (λ m k. rest.keeps.keeps m (taken m k))
              | inr o ↦ rest.from_queue s (step.queue_kept s (ground (arith, i, o)))
            ];
            from_new = λ n i f. elim (Bool-cases (has n r.0)) [
              | inl y ↦ rest.from_queue n (step.queued n y f)
              | inr o ↦ rest.from_new n i o
            ];
            fresh = λ n i f. elim (Bool-cases (has n r.0)) [
              | inl y ↦ (current, step.fresh n y f)
              | inr o ↦ rest.fresh n i o
            ];
          },
        ),
      )
