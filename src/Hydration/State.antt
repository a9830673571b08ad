-- ===== src/Hydration/State.antt =====
-- The state of hydration consistency (src/core/hydration-consistency/types.ts) and what its modules
-- share (helpers.ts). A store's value has the type `V` and a deep clone is the same value; each time
-- is kept in milliseconds, without its ISO text; a callback that throws returns none. The clones of
-- values that an event carries in development, the timer of the boot window and the metadata of the
-- snapshot are left out.
use stroid.Base.{
  ℕ, ◌+◌, ◌-◌, String, Bool, true, false, Option, List, [], ◌∷◌, ◌++◌, if◌then◌else◌, leb, ltb,
  length, drop,
}
use stroid.Base.Dict.{Dict}

pub data HydrationSource : Type 0 where
  effect : HydrationSource
  storage : HydrationSource
  network : HydrationSource
  sync : HydrationSource
  hydrate : HydrationSource
  unknown : HydrationSource

pub data HydrationAuthority : Type 0 where
  server_authoritative : HydrationAuthority
  client_authoritative : HydrationAuthority
  mergeable : HydrationAuthority

pub data HydrationPolicy : Type 0 where
  server_wins : HydrationPolicy
  client_wins : HydrationPolicy
  merges : HydrationPolicy
  invalidate_and_refetch : HydrationPolicy

pub data HydrationResolution : Type 0 where
  stable : HydrationResolution
  server_reverted : HydrationResolution
  client_kept : HydrationResolution
  merged : HydrationResolution
  invalidated : HydrationResolution

-- `merge` takes the baseline, the live value and the source.
pub record HydrationStoreState (V : Type 0) : Type 0 where
  pub authority : HydrationAuthority
  pub policy : HydrationPolicy
  pub baseline : V
  pub baseline_hash : ℕ
  pub hydrated_at_ms : ℕ
  pub first_diverged_at_ms : Option ℕ
  pub last_diverged_at_ms : Option ℕ
  pub last_resolution : Option HydrationResolution
  pub last_source : Option HydrationSource
  pub drift_count : ℕ
  pub queued_writes : ℕ
  pub replayed_writes : ℕ
  pub invalidated_at_ms : Option ℕ
  pub current_hash : ℕ
  pub merge : Option (V → V → HydrationSource → Option V)

pub record HydrationDriftEvent (V : Type 0) : Type 0 where
  pub id : ℕ × ℕ
  pub store : String
  pub source : HydrationSource
  pub authority : HydrationAuthority
  pub policy : HydrationPolicy
  pub resolution : HydrationResolution
  pub detected_at_ms : ℕ
  pub first_diverged_at_ms : ℕ
  pub hydrated_at_ms : ℕ
  pub baseline_hash : ℕ
  pub live_hash : ℕ
  pub resolved_hash : ℕ
  pub invalidated : Bool

pub record HydrationMetrics : Type 0 where
  pub drift_events : ℕ
  pub queued_writes : ℕ
  pub replayed_writes : ℕ
  pub reconciliations : ℕ
  pub invalidations : ℕ

-- `apply` is kept by its number.
pub record HydrationDeferredWrite : Type 0 where
  pub id : ℕ
  pub store : String
  pub source : HydrationSource
  pub enqueued_at_ms : ℕ
  pub apply : ℕ

pub record HydrationRuntimeState (V : Type 0) : Type 0 where
  pub stores : Dict (HydrationStoreState V)
  pub events : List (HydrationDriftEvent V)
  pub metrics : HydrationMetrics
  pub queue : List HydrationDeferredWrite
  pub max_events : ℕ
  pub defer_sources : List HydrationSource
  pub boot_window_active : Bool
  pub boot_window_ends_at_ms : Option ℕ
  pub replaying : Bool
  pub sequence : ℕ

abbrev pub same_source : HydrationSource → HydrationSource → Bool
same_source effect effect = true
same_source storage storage = true
same_source network network = true
same_source sync sync = true
same_source hydrate hydrate = true
same_source unknown unknown = true
same_source _ _ = false

abbrev pub max_safe_integer : ℕ
max_safe_integer = 9007199254740991

-- `resolveHydrationPolicy` for a store with no policy of its own.
pub default_policy : HydrationAuthority → HydrationPolicy
default_policy client_authoritative = client_wins
default_policy mergeable = merges
default_policy server_authoritative = server_wins

module _ {V : Type 0} where
  -- `nextHydrationSequence`, with the number it returns.
  unfoldable pub next_hydration_sequence : HydrationRuntimeState V → HydrationRuntimeState V × ℕ
  next_hydration_sequence state =
      let base = if leb max_safe_integer state.sequence then 0 else state.sequence in
      (record state { sequence = base + 1 }, base + 1)

  -- `pushHydrationDriftEvent` without the callback.
  unfoldable pub push_hydration_drift_event :
      HydrationDriftEvent V → HydrationRuntimeState V → HydrationRuntimeState V
  push_hydration_drift_event event state =
      let events = state.events ++ event ∷ [] in
      record state {
        events =
            if ltb state.max_events (length events)
            then drop (length events - state.max_events) events
            else events;
      }
