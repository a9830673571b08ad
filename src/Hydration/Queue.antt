-- ===== src/Hydration/Queue.antt =====
-- The queue of deferred writes (src/core/hydration-consistency/state.ts). What the `apply` of a write
-- does is the parameter `run`: it may change a world `W` beside the state, and throws if it returns
-- false.
pub mod Replay
use stroid.Base.{
  ℕ, ◌+◌, String, Bool, true, false, not, ◌&&◌, ◌||◌, Option, none, some, List, [], ◌∷◌, ◌++◌,
  if◌then◌else◌, is_some, is_nil, leb,
}
use stroid.Base.Dict.{Dict, lookup, insert, has_key}
use stroid.Hydration.State.{
  HydrationSource, HydrationStoreState, HydrationMetrics, HydrationDeferredWrite,
  HydrationRuntimeState, next_hydration_sequence, same_source,
}

abbrev has_source : HydrationSource → List HydrationSource → Bool
has_source source [] = false
has_source source (s ∷ ss) = same_source s source || has_source source ss

-- `left.id - right.id`: a write is put before the first one whose number is no smaller.
abbrev pub insert_by_id :
    HydrationDeferredWrite → List HydrationDeferredWrite → List HydrationDeferredWrite
insert_by_id w [] = w ∷ []
insert_by_id w (x ∷ xs) =
    let rest = insert_by_id w xs in if leb w.id x.id then w ∷ x ∷ xs else x ∷ rest

abbrev pub sort_by_id : List HydrationDeferredWrite → List HydrationDeferredWrite
sort_by_id [] = []
sort_by_id (w ∷ ws) = insert_by_id w (sort_by_id ws)

-- What the `apply` of each number does, with whether it returns.
abbrev pub Apply : Type 0 → Type 0 → Type 0
Apply V W = ℕ → HydrationRuntimeState V × W → (HydrationRuntimeState V × W) × Bool

module _ {V : Type 0} where
  pub close_hydration_boot_window : HydrationRuntimeState V → HydrationRuntimeState V
  close_hydration_boot_window state = record state {
    boot_window_active = false;
    boot_window_ends_at_ms = none;
  }

  unfoldable pub should_queue_hydration_write :
      String → HydrationSource → HydrationRuntimeState V → Bool
  should_queue_hydration_write store source state =
      if state.replaying
      then false
      else if not state.boot_window_active
      then false
      else if not (has_source source state.defer_sources)
      then false
      else has_key store state.stores

  -- The entry's part of a write that is queued or replayed, if the store has an entry.
  abbrev on_entry :
      String
      → (HydrationStoreState V → HydrationStoreState V)
      → Dict (HydrationStoreState V)
      → Dict (HydrationStoreState V)
  on_entry store change stores = elim (lookup store stores) [
    | none ↦ stores
    | some entry ↦ insert store (change entry) stores
  ]

  pub enqueue_hydration_write :
      String → HydrationSource → ℕ → ℕ → HydrationRuntimeState V → HydrationRuntimeState V
  enqueue_hydration_write store source apply now_ms state =
      let numbered = next_hydration_sequence state in
      let s = numbered.0 in
      record s {
        queue =
            s.queue
            ++ record {
              id = numbered.1;
              store = store;
              source = source;
              enqueued_at_ms = now_ms;
              apply = apply;
            }
              ∷ [];
        metrics = record (s.metrics) { queued_writes = s.metrics.queued_writes + 1 };
        stores =
            on_entry store
              (λ entry. record entry {
                queued_writes = entry.queued_writes + 1;
                last_source = some source;
              })
              s.stores;
      }

  abbrev pub replayed : HydrationDeferredWrite → HydrationRuntimeState V → HydrationRuntimeState V
  replayed w state = record state {
    metrics = record (state.metrics) { replayed_writes = state.metrics.replayed_writes + 1 };
    stores =
        on_entry w.store
          (λ entry. record entry {
            replayed_writes = entry.replayed_writes + 1;
            last_source = some w.source;
          })
          state.stores;
  }

  module _ {W : Type 0} (run : Apply V W) where
    -- The loop over the queued writes: a write that throws ends it.
    pub replay :
        List HydrationDeferredWrite
        → HydrationRuntimeState V × W
        → (HydrationRuntimeState V × W) × Bool
    replay [] (state, w) = ((state, w), true)
    replay (next ∷ rest) (state, w) =
        let ran = run next.apply (replayed next state, w) in
        let later = replay rest ran.0 in if ran.1 then later else ran

    -- `flushHydrationWriteQueue`: what it returns is false if it throws.
    pub flush_hydration_write_queue :
        HydrationRuntimeState V × W → (HydrationRuntimeState V × W) × Bool
    flush_hydration_write_queue (state, w) =
        let closed = close_hydration_boot_window state in
        if closed.replaying || is_nil closed.queue
        then ((closed, w), true)
        else let ((state', w'), ok) =
            replay (sort_by_id closed.queue) (record closed { replaying = true; queue = [] }, w) in
          ((record state' { replaying = false }, w'), ok)
