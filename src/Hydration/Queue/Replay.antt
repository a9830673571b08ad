-- ===== src/Hydration/Queue/Replay.antt =====
-- The order in which deferred writes are replayed (src/core/hydration-consistency/state.ts).
use stroid.Base.{
  ℕ, ◌+◌, ◌≤◌, ◌<◌, String, true, false, List, [], ◌∷◌, ◌++◌, if◌then◌else◌, All, is_nil, leb, ◌≡◌,
  refl, ap, ◌∙◌, arith, Bool, none, sym, subst, Bool-cases, inl, inr,
}
use stroid.Hydration.State.{
  HydrationSource, HydrationDeferredWrite, HydrationRuntimeState, next_hydration_sequence,
  max_safe_integer,
}
use stroid.Hydration.Queue.{
  insert_by_id, sort_by_id, Apply, enqueue_hydration_write, close_hydration_boot_window, replay,
  flush_hydration_write_queue, replayed,
}

abbrev pub IsAscending : List HydrationDeferredWrite → Type 0
IsAscending [] = Unit
IsAscending (w ∷ ws) = All (λ x. w.id < x.id) ws × IsAscending ws

-- The queue stands in the order of its numbers, none above the last number given.
abbrev pub IsQueued : {V : Type 0} → HydrationRuntimeState V → Type 0
IsQueued state = IsAscending state.queue × All (λ x. x.id ≤ state.sequence) state.queue

All-append :
    (P : HydrationDeferredWrite → Type 0) (ws : List HydrationDeferredWrite)
    (w : HydrationDeferredWrite)
    → All P ws
    → P w
    → All P (ws ++ w ∷ [])
All-append P [] w a p = (p, tt)
All-append P (x ∷ ws) w (q, a) p = (q, All-append P ws w a p)

append-IsAscending :
    (ws : List HydrationDeferredWrite) (w : HydrationDeferredWrite) (bound : ℕ)
    → IsAscending ws
    → All (λ x. x.id ≤ bound) ws
    → bound < w.id
    → IsAscending (ws ++ w ∷ [])
append-IsAscending [] w bound a b h = (tt, tt)
append-IsAscending (x ∷ ws) w bound (l, a) (le, b) h = (
  All-append (λ y. x.id < y.id) ws w l (omega (arith, le, h)),
  append-IsAscending ws w bound a b h,
)

All-weaken :
    (ws : List HydrationDeferredWrite) (n m : ℕ)
    → n ≤ m
    → All (λ x. x.id ≤ n) ws
    → All (λ x. x.id ≤ m) ws
All-weaken [] n m h a = tt
All-weaken (w ∷ ws) n m h (p, a) = (omega (arith, p, h), All-weaken ws n m h a)

-- Enqueuing a write keeps the queue in the order of its numbers, while the sequence is below the
-- largest safe integer.
pub enqueue-IsQueued :
    {V : Type 0} (store : String) (source : HydrationSource) (apply now_ms : ℕ)
    (state : HydrationRuntimeState V)
    → state.sequence < max_safe_integer
    → IsQueued state
    → IsQueued (enqueue_hydration_write store source apply now_ms state)
unfolding enqueue_hydration_write next_hydration_sequence
enqueue-IsQueued store source apply now_ms state h (a, b) =
    let next = (if leb max_safe_integer state.sequence then 0 else state.sequence) + 1 in
    let lt : state.sequence < next = ground (arith, h) in
    (
      append-IsAscending state.queue _ state.sequence a b lt,
      All-append (λ x. x.id ≤ next) state.queue _
          (All-weaken state.queue state.sequence next (omega (arith, lt)) b) (omega arith),
    )

insert_by_id-first :
    (w : HydrationDeferredWrite) (ws : List HydrationDeferredWrite)
    → All (λ x. w.id < x.id) ws
    → insert_by_id w ws ≡ w ∷ ws
insert_by_id-first w [] a = refl
insert_by_id-first w (x ∷ ws) (l, a) = ground (arith, l)

sort_by_id-IsAscending : (ws : List HydrationDeferredWrite) → IsAscending ws → sort_by_id ws ≡ ws
sort_by_id-IsAscending [] a = refl
sort_by_id-IsAscending (w ∷ ws) (l, a) =
    ap (insert_by_id w) (sort_by_id-IsAscending ws a) ∙ insert_by_id-first w ws l

-- A run of writes one after another, up to the first that throws: from the state that it starts in to
-- the one that it leaves, with whether it came to the end.
pub data Runs {V W : Type 0} (run : Apply V W)
    : List HydrationDeferredWrite
      → HydrationRuntimeState V × W
      → HydrationRuntimeState V × W
      → Bool
      → Type 0 where
  ends : (s : HydrationRuntimeState V × W) → Runs run [] s s true
  returns :
      (w : HydrationDeferredWrite) (ws : List HydrationDeferredWrite)
      (s t u : HydrationRuntimeState V × W) (ok : Bool)
      → run w.apply (replayed w s.0, s.1) ≡ (t, true)
      → Runs run ws t u ok
      → Runs run (w ∷ ws) s u ok
  throws :
      (w : HydrationDeferredWrite) (ws : List HydrationDeferredWrite)
      (s t : HydrationRuntimeState V × W)
      → run w.apply (replayed w s.0, s.1) ≡ (t, false)
      → Runs run (w ∷ ws) s t false

replay-Runs :
    {V W : Type 0} (run : Apply V W) (ws : List HydrationDeferredWrite)
    (s : HydrationRuntimeState V × W)
    → Runs run ws s (replay run ws s).0 (replay run ws s).1
unfolding replay
replay-Runs run [] s = ends s
replay-Runs run (w ∷ ws) s =
    let ran = run w.apply (replayed w s.0, s.1) in
    let later = replay run ws ran.0 in
    let P = λ (b : Bool). let r = if b then later else ran in Runs run (w ∷ ws) s r.0 r.1 in
    elim (Bool-cases ran.1) [
      | inl y ↦
          subst P (sym y) (
            returns w ws s ran.0 later.0 later.1 (ap (λ b. (ran.0, b)) y)
              (replay-Runs run ws ran.0))
      | inr n ↦
          subst P (sym n) (
            subst (Runs run (w ∷ ws) s ran.0) (sym n)
              (throws w ws s ran.0 (ap (λ b. (ran.0, b)) n)))
    ]

-- Flushing a queue that stands in the order of its numbers and is not empty, while no replay runs,
-- closes the window, takes the queue, and runs its writes one after another in the order of their
-- numbers, each once, up to the first that throws. `replaying` is set while they run and cleared at
-- the end, also when a write throws, which the flush then does too.
pub flush_in_order :
    {V W : Type 0} (run : Apply V W) (state : HydrationRuntimeState V) (w : W)
    → IsQueued state
    → state.replaying ≡ false
    → is_nil state.queue ≡ false
    → (after : HydrationRuntimeState V × W) × (ok : Bool) × (Runs run state.queue
        (
          record state {
            boot_window_active = false;
            boot_window_ends_at_ms = none;
            replaying = true;
            queue = [];
          },
          w,
        )
        after
        ok)
      × (flush_hydration_write_queue run (state, w)
          ≡ ((record (after.0) { replaying = false }, after.1), ok))
unfolding flush_hydration_write_queue close_hydration_boot_window
flush_in_order {V} {W} run state w (a, b) h n =
    let start : HydrationRuntimeState V × W =
      (record (close_hydration_boot_window state) { replaying = true; queue = [] }, w) in
    let r = replay run state.queue start in
    (
      r.0,
      r.1,
      replay-Runs run state.queue start,
      ground (arith, h, n, sort_by_id-IsAscending state.queue a),
    )
