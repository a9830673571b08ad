-- ===== src/Notify/Plan.antt =====
-- What the plan of a flush names, and how often (src/notification/priority.ts).
use stroid.Base.{
  String, Bool, true, false, not, ◌&&◌, ◌||◌, List, [], ◌∷◌, ◌++◌, if◌then◌else◌, ◌≡◌, ===_iff,
  refl, sym, subst, arith, Bool-cases, inl, inr,
}
use stroid.Base.Names.{IsDistinct, has, has-append}
use stroid.Notify.{
  NotifyState, FlushConfig, pending_first, pending_others, push_missing, order_pending,
  build_flush_plan,
}

has-pending_first :
    (n : String) (priority pending : List String)
    → has n (pending_first priority pending) ≡ (has n priority && has n pending)
unfolding pending_first
has-pending_first n [] pending = refl
has-pending_first n (p ∷ priority) pending =
    ground (arith, ===_iff p n, has-pending_first n priority pending)

has-pending_others :
    (n : String) (priority pending : List String)
    → has n (pending_others priority pending) ≡ (not (has n priority) && has n pending)
unfolding pending_others
has-pending_others n priority [] = ground arith
has-pending_others n priority (p ∷ pending) =
    ground (arith, ===_iff p n, has-pending_others n priority pending)

has-order_pending :
    (n : String) (priority pending : List String)
    → has n (order_pending priority pending) ≡ has n pending
has-order_pending n priority pending = ground (
  arith,
  has-append n (pending_first priority pending) (pending_others priority pending),
  has-pending_first n priority pending,
  has-pending_others n priority pending,
)

has-push_missing :
    (n : String) (names computed : List String)
    → has n (push_missing names computed) ≡ (has n names || has n computed)
unfolding push_missing
has-push_missing n names [] = ground arith
has-push_missing n names (c ∷ computed) = ground (
  arith,
  ===_iff c n,
  has-append n names (c ∷ []),
  has-push_missing n (if has c names then names else names ++ c ∷ []) computed,
)

append-IsDistinct :
    (a b : List String)
    → IsDistinct a
    → IsDistinct b
    → ((n : String) → has n a ≡ true → has n b ≡ false)
    → IsDistinct (a ++ b)
append-IsDistinct [] b x y d = y
append-IsDistinct (n ∷ a) b (h, x) y d = (
  ground (arith, has-append n a b, h, d n, ===_iff n n),
  append-IsDistinct a b x y (λ m e. d m (ground (arith, e))),
)

cons_if :
    (b : Bool) (n : String) (ns : List String)
    → has n ns ≡ false
    → IsDistinct ns
    → IsDistinct (if b then n ∷ ns else ns)
cons_if true n ns h d = (h, d)
cons_if false n ns h d = d

cons_unless :
    (b : Bool) (n : String) (ns : List String)
    → has n ns ≡ false
    → IsDistinct ns
    → IsDistinct (if b then ns else n ∷ ns)
cons_unless true n ns h d = d
cons_unless false n ns h d = (h, d)

pending_first-IsDistinct :
    (priority pending : List String)
    → IsDistinct priority
    → IsDistinct (pending_first priority pending)
unfolding pending_first
pending_first-IsDistinct [] pending d = tt
pending_first-IsDistinct (p ∷ priority) pending (h, d) =
    cons_if (has p pending) p (pending_first priority pending)
      (ground (arith, h, has-pending_first p priority pending))
      (pending_first-IsDistinct priority pending d)

pending_others-IsDistinct :
    (priority pending : List String)
    → IsDistinct pending
    → IsDistinct (pending_others priority pending)
unfolding pending_others
pending_others-IsDistinct priority [] d = tt
pending_others-IsDistinct priority (p ∷ pending) (h, d) =
    cons_unless (has p priority) p (pending_others priority pending)
      (ground (arith, h, has-pending_others p priority pending))
      (pending_others-IsDistinct priority pending d)

order_pending-IsDistinct :
    (priority pending : List String)
    → IsDistinct priority
    → IsDistinct pending
    → IsDistinct (order_pending priority pending)
order_pending-IsDistinct [] pending d d' = d'
order_pending-IsDistinct (p ∷ priority) pending d d' =
    append-IsDistinct (pending_first (p ∷ priority) pending) (pending_others (p ∷ priority) pending)
      (pending_first-IsDistinct (p ∷ priority) pending d)
      (pending_others-IsDistinct (p ∷ priority) pending d')
      (λ n e. ground (
        arith,
        e,
        has-pending_first n (p ∷ priority) pending,
        has-pending_others n (p ∷ priority) pending,
      ))

push_missing-IsDistinct :
    (names computed : List String) → IsDistinct names → IsDistinct (push_missing names computed)
unfolding push_missing
push_missing-IsDistinct names [] d = d
push_missing-IsDistinct names (c ∷ computed) d =
    push_missing-IsDistinct (if has c names then names else names ++ c ∷ []) computed
      (push_one names c d)
  where
    push_one :
        (ns : List String) (k : String)
        → IsDistinct ns
        → IsDistinct (if has k ns then ns else ns ++ k ∷ [])
    push_one ns k e = elim (Bool-cases (has k ns)) [
      | inl y ↦ subst (λ b. IsDistinct (if b then ns else ns ++ k ∷ [])) (sym y) e
      | inr y ↦
          subst (λ b. IsDistinct (if b then ns else ns ++ k ∷ [])) (sym y)
            (append-IsDistinct ns (k ∷ []) e (refl, tt) (λ m i. ground (arith, ===_iff k m, i, y)))
    ]

module _ (get_computed_order : List String → List String) (cfg : FlushConfig)
    (state : NotifyState) where
  -- A flush names exactly the pending stores and the computed stores of the order that is resolved
  -- for them, whatever stores have priority, and leaves no store pending.
  pub plan_names :
      (n : String)
      → (has n (build_flush_plan get_computed_order cfg state).1.names ≡ (
          has n state.pending_notifications
          || has n
              (get_computed_order (order_pending cfg.priority_stores state.pending_notifications))))
        × ((build_flush_plan get_computed_order cfg state).0.pending_notifications ≡ [])
  unfolding build_flush_plan
  plan_names n = (
    ground (
      arith,
      has-order_pending n cfg.priority_stores state.pending_notifications,
      has-push_missing n (order_pending cfg.priority_stores state.pending_notifications)
          (get_computed_order (order_pending cfg.priority_stores state.pending_notifications)),
    ),
    refl,
  )

  -- A flush names no store twice, where no store stands twice in the list of priorities; the pending
  -- stores are distinct, as members of a Set are.
  pub plan-IsDistinct :
      IsDistinct cfg.priority_stores
      → IsDistinct state.pending_notifications
      → IsDistinct (build_flush_plan get_computed_order cfg state).1.names
  unfolding build_flush_plan
  plan-IsDistinct d d' =
      push_missing-IsDistinct (order_pending cfg.priority_stores state.pending_notifications)
        (get_computed_order (order_pending cfg.priority_stores state.pending_notifications))
        (order_pending-IsDistinct cfg.priority_stores state.pending_notifications d d')
