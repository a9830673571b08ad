-- ===== src/Hydration/Reconcile/Origin.antt =====
-- Where the value that `reconcileHydrationValue` settles on comes from
-- (src/core/hydration-consistency/reconcile.ts).
use stroid.Base.{ℕ, String, ◌&&◌, Option, none, some, ◌≡◌, refl, ◌⊎◌, inl, inr, if-both, ◌==◌}
use stroid.Base.Dict.{lookup}
use stroid.Hydration.State.{
  HydrationSource, network, HydrationPolicy, server_wins, client_wins, merges,
  invalidate_and_refetch, HydrationResolution, server_reverted, merged, HydrationStoreState,
  HydrationRuntimeState, same_source,
}
use stroid.Hydration.Reconcile.{
  HydrationReconcileResult, resolve_policy, resolve_merge, own_merge, resolve, or_baseline,
  normalized, drift, reconcile_hydration_value, reconcile_entry, refetches,
}

-- `v` is the given value, the baseline of the store, or what `normalize` has made of a value.
abbrev pub IsFrom : {V : Type 0} → (V → Option V) → V → Option (HydrationStoreState V) → V → Type 0
IsFrom {V} normalize value entry v =
    (v ≡ value)
    ⊎ (((e : HydrationStoreState V) × ((entry ≡ some e) × (v ≡ e.baseline)))
        ⊎ ((c : V) × (normalize c ≡ some v)))

module _ {V : Type 0} (hash_state : V → ℕ) (merge_hydration_values : V → V → V)
    (normalize : V → Option V) where
  or_baseline-origin :
      (baseline c : V) (resolution : HydrationResolution) (o : Option V)
      → normalize c ≡ o
      → ((or_baseline hash_state merge_hydration_values baseline resolution o).0 ≡ baseline)
        ⊎ ((c : V) × (normalize c
              ≡ some (or_baseline hash_state merge_hydration_values baseline resolution o).0))
  or_baseline-origin baseline c resolution none h = inl refl
  or_baseline-origin baseline c resolution (some v) h = inr (c, h)

  abbrev outcome : V → V × HydrationResolution → V
  outcome baseline r = (normalized hash_state merge_hydration_values (some normalize) baseline r).0

  abbrev Settled : V → V → V → Type 0
  Settled value baseline v = (v ≡ value) ⊎ ((v ≡ baseline) ⊎ ((c : V) × (normalize c ≡ some v)))

  own_merge-origin :
      (baseline value : V) (o : Option V)
      → Settled value baseline
          (outcome baseline (own_merge hash_state merge_hydration_values baseline o))
  unfolding normalized
  own_merge-origin baseline value none =
      inr (or_baseline-origin baseline baseline server_reverted (normalize baseline) refl)
  own_merge-origin baseline value (some v) =
      inr (or_baseline-origin baseline v merged (normalize v) refl)

  resolve_merge-origin :
      (merge : Option (V → V → HydrationSource → Option V)) (baseline value : V)
      (source : HydrationSource)
      → Settled value baseline (
          outcome baseline
            (resolve_merge hash_state merge_hydration_values merge baseline value source))
  unfolding normalized
  resolve_merge-origin none baseline value source = inr (
      or_baseline-origin baseline (merge_hydration_values baseline value) merged
        (normalize (merge_hydration_values baseline value)) refl)
  resolve_merge-origin (some merge) baseline value source =
      own_merge-origin baseline value (merge baseline value source)

  resolve-origin :
      (policy : HydrationPolicy) (entry : HydrationStoreState V) (value : V)
      (source : HydrationSource)
      → Settled value entry.baseline (
          outcome entry.baseline
            (resolve_policy hash_state merge_hydration_values policy entry value source))
  unfolding normalized
  resolve-origin server_wins entry value source = inr (
      or_baseline-origin entry.baseline entry.baseline server_reverted (normalize entry.baseline)
        refl)
  resolve-origin client_wins entry value source = inl refl
  resolve-origin merges entry value source =
      resolve_merge-origin entry.merge entry.baseline value source
  resolve-origin invalidate_and_refetch entry value source = inl refl

  -- The value of a reconciliation.
  record Reconciles (value : V) (entry : Option (HydrationStoreState V))
      (p : HydrationRuntimeState V × HydrationReconcileResult V) : Type 0 where
    pub origin : IsFrom normalize value entry p.1.value

  drift-origin :
      (store : String) (entry : HydrationStoreState V) (value : V) (source : HydrationSource)
      (now_ms : ℕ) (state : HydrationRuntimeState V)
      → Settled value entry.baseline
          (drift hash_state merge_hydration_values store entry value source
            (some normalize)
            now_ms
            state).1.value
  unfolding drift resolve
  drift-origin store entry value source now_ms state =
      resolve-origin entry.policy entry value source

  lift_origin :
      (entry : HydrationStoreState V) (value v : V)
      → Settled value entry.baseline v
      → IsFrom normalize value (some entry) v
  lift_origin entry value v (inl e) = inl e
  lift_origin entry value v (inr (inl e)) = inr (inl (entry, (refl, e)))
  lift_origin entry value v (inr (inr c)) = inr (inr c)

  reconcile_entry-origin :
      (entry : Option (HydrationStoreState V)) (store : String) (value : V)
      (source : HydrationSource) (now_ms : ℕ) (state : HydrationRuntimeState V)
      → Reconciles value entry (
          reconcile_entry hash_state merge_hydration_values entry store value source
            (some normalize)
            now_ms
            state)
  reconcile_entry-origin none store value source now_ms state = record { origin = inl refl }
  reconcile_entry-origin (some entry) store value source now_ms state =
      if-both (Reconciles value (some entry))
        (refetches hash_state merge_hydration_values entry.policy && same_source source network) _ _
        (record { origin = inl refl })
        (if-both (Reconciles value (some entry)) (hash_state value == entry.baseline_hash) _ _
          (record { origin = inl refl })
          (record {
            origin = lift_origin entry value _ (drift-origin store entry value source now_ms state);
          }))

  -- What a reconciliation gives is the value itself, the baseline that the store was hydrated with, or a
  -- value that `normalize` has accepted.
  pub reconcile_origin :
      (store : String) (value : V) (source : HydrationSource) (now_ms : ℕ)
      (state : HydrationRuntimeState V)
      → IsFrom normalize value
          (lookup store state.stores)
          (reconcile_hydration_value hash_state merge_hydration_values store value source
            (some normalize)
            now_ms
            state).1.value
  unfolding reconcile_hydration_value
  reconcile_origin store value source now_ms state =
      (reconcile_entry-origin (lookup store state.stores) store value source now_ms state).origin
