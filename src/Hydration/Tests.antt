-- ===== src/Hydration/Tests.antt =====
-- A hydrated store that drifts under `server_wins`, and a queue of two deferred writes.
use stroid.Base.{Bool, ℕ, ◌≤◌, ◌+◌, true, false, none, List, [], ◌∷◌, length, ◌≡◌, refl, arith}
use stroid.Hydration.State.{
  HydrationStoreState, HydrationRuntimeState, HydrationDeferredWrite, server_authoritative,
  server_wins, network, storage,
}
use stroid.Hydration.Reconcile.{reconcile_hydration_value}
use stroid.Hydration.Reconcile.Baseline.{
  IsHashed, reconcile-IsHashed, server_wins_reverts, events_stay_bounded,
}
use stroid.Hydration.Queue.{Apply, enqueue_hydration_write, flush_hydration_write_queue}
use stroid.Hydration.Queue.Replay.{Runs, IsQueued, enqueue-IsQueued, flush_in_order}

abbrev hash : ℕ → ℕ
hash v = v + 1

abbrev merged_with : ℕ → ℕ → ℕ
merged_with baseline live = live

abbrev hydrated : HydrationStoreState ℕ
hydrated = record {
  authority = server_authoritative;
  policy = server_wins;
  baseline = 5;
  baseline_hash = 6;
  hydrated_at_ms = 1;
  first_diverged_at_ms = none;
  last_diverged_at_ms = none;
  last_resolution = none;
  last_source = none;
  drift_count = 0;
  queued_writes = 0;
  replayed_writes = 0;
  invalidated_at_ms = none;
  current_hash = 6;
  merge = none;
}

abbrev write : ℕ → HydrationDeferredWrite
write id = record { id = id; store = "users"; source = storage; enqueued_at_ms = 2; apply = id }

abbrev state : HydrationRuntimeState ℕ
state = record {
  stores = ("users", hydrated) ∷ [];
  events = [];
  metrics = record {
    drift_events = 0;
    queued_writes = 2;
    replayed_writes = 0;
    reconciliations = 0;
    invalidations = 0;
  };
  queue = write 1 ∷ write 2 ∷ [];
  max_events = 50;
  defer_sources = storage ∷ network ∷ [];
  boot_window_active = true;
  boot_window_ends_at_ms = none;
  replaying = false;
  sequence = 2;
}

state-IsHashed : IsHashed hash state
state-IsHashed = record { hashed = λ store entry h. ground (arith, h) }

reconcile-IsHashed_example :
    IsHashed hash (reconcile_hydration_value hash merged_with "users" 8 network none 3 state).0
reconcile-IsHashed_example =
    reconcile-IsHashed hash merged_with "users" 8 network none 3 state state-IsHashed

server_wins_reverts_example :
    hash (reconcile_hydration_value hash merged_with "users" 8 network none 3 state).1.value ≡ 6
server_wins_reverts_example =
    server_wins_reverts hash merged_with "users" 8 network none 3 state hydrated refl refl refl tt

events_stay_bounded_example :
    length (reconcile_hydration_value hash merged_with "users" 8 network none 3 state).0.events ≤ 50
events_stay_bounded_example =
    events_stay_bounded hash merged_with "users" 8 network none 3 state (omega arith)

state-IsQueued : IsQueued state
state-IsQueued = (((omega arith, tt), (tt, tt)), (omega arith, (omega arith, tt)))

enqueue-IsQueued_example : IsQueued (enqueue_hydration_write "users" storage 3 4 state)
enqueue-IsQueued_example = enqueue-IsQueued "users" storage 3 4 state (omega arith) state-IsQueued

-- The world is the list of the writes that ran.
abbrev run : Apply ℕ (List ℕ)
run n (s, ran) = ((s, n ∷ ran), true)

flush_in_order_example :
    (after : HydrationRuntimeState ℕ × List ℕ) × (ok : Bool) × (Runs run
      (write 1 ∷ write 2 ∷ [])
      (
        record state {
          boot_window_active = false;
          boot_window_ends_at_ms = none;
          replaying = true;
          queue = [];
        },
        [],
      )
      after
      ok)
    × (flush_hydration_write_queue run (state, [])
        ≡ ((record (after.0) { replaying = false }, after.1), ok))
flush_in_order_example = flush_in_order run state [] state-IsQueued refl refl
