-- ===== src/Hydration/Reconcile.antt =====
-- `reconcileHydrationValue` (src/core/hydration-consistency/reconcile.ts), for any hash of values, any
-- merge of two values and any clock.
pub mod Baseline
pub mod Origin
use stroid.Base.{
  ℕ, ◌+◌, String, Bool, true, false, ◌&&◌, ◌||◌, Option, none, some, if◌then◌else◌, or_else,
  is_some, ◌==◌,
}
use stroid.Base.Dict.{lookup, insert}
use stroid.Hydration.State.{
  HydrationSource, network, HydrationPolicy, server_wins, client_wins, merges,
  invalidate_and_refetch, HydrationResolution, stable, server_reverted, client_kept, merged,
  invalidated, HydrationStoreState, HydrationDriftEvent, HydrationMetrics, HydrationRuntimeState,
  next_hydration_sequence, push_hydration_drift_event, same_source,
}

pub record HydrationReconcileResult (V : Type 0) : Type 0 where
  pub value : V
  pub event : Option (HydrationDriftEvent V)
  pub invalidated : Bool
  pub needs_refetch : Bool

-- `normalize`: none when it throws or is not ok.
abbrev pub Normalize : Type 0 → Type 0
Normalize V = Option (V → Option V)

module _ {V : Type 0} (hash_state : V → ℕ) (merge_hydration_values : V → V → V) where
  abbrev pub unchanged : V → HydrationReconcileResult V
  unchanged value = record {
    value = value;
    event = none;
    invalidated = false;
    needs_refetch = false;
  }

  abbrev pub refetches : HydrationPolicy → Bool
  refetches invalidate_and_refetch = true
  refetches _ = false

  -- What a store's own merge gives; none stands for a throw. That it returns undefined is a value.
  abbrev pub own_merge : V → Option V → V × HydrationResolution
  own_merge baseline none = (baseline, server_reverted)
  own_merge baseline (some v) = (v, merged)

  abbrev pub resolve_merge :
      Option (V → V → HydrationSource → Option V)
      → V
      → V
      → HydrationSource
      → V × HydrationResolution
  resolve_merge none baseline value source = (merge_hydration_values baseline value, merged)
  resolve_merge (some merge) baseline value source =
      own_merge baseline (merge baseline value source)

  abbrev pub resolve_policy :
      HydrationPolicy → HydrationStoreState V → V → HydrationSource → V × HydrationResolution
  resolve_policy server_wins entry value source = (entry.baseline, server_reverted)
  resolve_policy client_wins entry value source = (value, client_kept)
  resolve_policy merges entry value source = resolve_merge entry.merge entry.baseline value source
  resolve_policy invalidate_and_refetch entry value source = (value, invalidated)

  -- What each policy makes of a value that has drifted.
  pub resolve : HydrationStoreState V → V → HydrationSource → V × HydrationResolution
  resolve entry value source = resolve_policy entry.policy entry value source

  -- `if (args.normalize && (resolution === "merged" || resolution === "server_reverted"))`
  abbrev pub or_baseline : V → HydrationResolution → Option V → V × HydrationResolution
  or_baseline baseline resolution none = (baseline, server_reverted)
  or_baseline baseline resolution (some v) = (v, resolution)

  pub normalized : Normalize V → V → V × HydrationResolution → V × HydrationResolution
  normalized (some normalize) baseline (v, merged) = or_baseline baseline merged (normalize v)
  normalized (some normalize) baseline (v, server_reverted) =
      or_baseline baseline server_reverted (normalize v)
  normalized _ baseline r = r

  -- The entry of a value that agrees with the baseline, or that replaces it.
  abbrev pub settled : HydrationStoreState V → HydrationSource → ℕ → HydrationStoreState V
  settled entry source live_hash = record entry {
    last_source = some source;
    current_hash = live_hash;
    invalidated_at_ms = none;
    last_resolution = some stable;
  }

  abbrev pub diverged :
      HydrationStoreState V → HydrationSource → ℕ → V × HydrationResolution → HydrationStoreState V
  diverged entry source now_ms (v, resolution) = record entry {
    last_source = some source;
    current_hash = hash_state v;
    first_diverged_at_ms = some (or_else entry.first_diverged_at_ms now_ms);
    last_diverged_at_ms = some now_ms;
    drift_count = entry.drift_count + 1;
    invalidated_at_ms = if refetches entry.policy then some now_ms else entry.invalidated_at_ms;
    last_resolution = some resolution;
  }

  abbrev pub counted : HydrationPolicy → HydrationMetrics → HydrationMetrics
  counted policy m = record m {
    drift_events = m.drift_events + 1;
    reconciliations = m.reconciliations + 1;
    invalidations = if refetches policy then m.invalidations + 1 else m.invalidations;
  }

  abbrev pub drift_event :
      String
      → HydrationStoreState V
      → HydrationSource
      → ℕ
      → ℕ
      → ℕ
      → V × HydrationResolution
      → HydrationDriftEvent V
  drift_event store entry source now_ms live_hash sequence (v, resolution) = record {
    id = (now_ms, sequence);
    store = store;
    source = source;
    authority = entry.authority;
    policy = entry.policy;
    resolution = resolution;
    detected_at_ms = now_ms;
    first_diverged_at_ms = or_else entry.first_diverged_at_ms now_ms;
    hydrated_at_ms = entry.hydrated_at_ms;
    baseline_hash = entry.baseline_hash;
    live_hash = live_hash;
    resolved_hash = hash_state v;
    invalidated = refetches entry.policy;
  }

  -- The reconciliation of a value that has drifted from the entry's baseline.
  pub drift :
      String
      → HydrationStoreState V
      → V
      → HydrationSource
      → Normalize V
      → ℕ
      → HydrationRuntimeState V
      → HydrationRuntimeState V × HydrationReconcileResult V
  drift store entry value source normalize now_ms state =
      let outcome = normalized normalize entry.baseline (resolve entry value source) in
      let noted = record state {
        stores = insert store (diverged entry source now_ms outcome) state.stores;
        metrics = counted entry.policy state.metrics;
      } in
      let numbered = next_hydration_sequence noted in
      let event = drift_event store entry source now_ms (hash_state value) numbered.1 outcome in
      (
        push_hydration_drift_event event numbered.0,
        record {
          value = outcome.0;
          event = some event;
          invalidated = refetches entry.policy;
          needs_refetch = refetches entry.policy;
        },
      )

  abbrev pub reconcile_entry :
      Option (HydrationStoreState V)
      → String
      → V
      → HydrationSource
      → Normalize V
      → ℕ
      → HydrationRuntimeState V
      → HydrationRuntimeState V × HydrationReconcileResult V
  reconcile_entry none store value source normalize now_ms state = (state, unchanged value)
  reconcile_entry (some entry) store value source normalize now_ms state =
      let live_hash = hash_state value in
      if refetches entry.policy && same_source source network
      then (
        record state {
          stores =
              insert store
                (record (settled entry source live_hash) {
                  baseline = value;
                  baseline_hash = live_hash;
                })
                state.stores;
        },
        unchanged value,
      )
      else if live_hash == entry.baseline_hash
      then (
        record state { stores = insert store (settled entry source live_hash) state.stores },
        unchanged value,
      )
      else drift store entry value source normalize now_ms state

  unfoldable pub reconcile_hydration_value :
      String
      → V
      → HydrationSource
      → Normalize V
      → ℕ
      → HydrationRuntimeState V
      → HydrationRuntimeState V × HydrationReconcileResult V
  reconcile_hydration_value store value source normalize now_ms state =
      reconcile_entry (lookup store state.stores) store value source normalize now_ms state
