-- ===== src/Hydration/Reconcile/Baseline.antt =====
-- What `reconcileHydrationValue` keeps and where it leads
-- (src/core/hydration-consistency/reconcile.ts).
use stroid.Base.{
  ℕ, ◌-◌, ◌≤◌, String, none, some, [], ◌∷◌, ◌++◌, ◌==◌, ◌&&◌, length, length-drop, ◌≡◌, refl, sym,
  ap, ◌∙◌, arith, Bool-cases, Option-cases, inl, inr,
}
use stroid.Base.Dict.{Dict, lookup, insert, lookup-insert}
use stroid.Hydration.State.{
  HydrationSource, server_wins, HydrationStoreState, HydrationDriftEvent, HydrationRuntimeState,
  next_hydration_sequence, push_hydration_drift_event, network, same_source,
}
use stroid.Hydration.Reconcile.{
  Normalize, resolve, normalized, drift, diverged, settled, refetches, reconcile_hydration_value,
}

module _ {V : Type 0} (hash_state : V → ℕ) where
  -- Every entry has the hash of its baseline.
  pub record IsHashed (state : HydrationRuntimeState V) : Type 0 where
    pub hashed :
        (store : String) (entry : HydrationStoreState V)
        → lookup store state.stores ≡ some entry
        → entry.baseline_hash ≡ hash_state entry.baseline

module _ {V : Type 0} (hash_state : V → ℕ) (merge_hydration_values : V → V → V) where
  drift-stores :
      (store : String) (entry : HydrationStoreState V) (value : V) (source : HydrationSource)
      (normalize : Normalize V) (now_ms : ℕ) (state : HydrationRuntimeState V)
      → (drift hash_state merge_hydration_values store entry value source normalize now_ms
          state).0.stores
        ≡ insert store
            (diverged hash_state merge_hydration_values entry source now_ms (
              normalized hash_state merge_hydration_values normalize entry.baseline
                (resolve hash_state merge_hydration_values entry value source)))
            state.stores
  unfolding drift push_hydration_drift_event next_hydration_sequence
  drift-stores store entry value source normalize now_ms state = refl

  abbrev pub FixesBaseline : Normalize V → V → Type 0
  FixesBaseline none baseline = Unit
  FixesBaseline (some normalize) baseline = normalize baseline ≡ some baseline

  drift-server_wins :
      (store : String) (entry : HydrationStoreState V) (value : V) (source : HydrationSource)
      (normalize : Normalize V) (now_ms : ℕ) (state : HydrationRuntimeState V)
      → entry.policy ≡ server_wins
      → FixesBaseline normalize entry.baseline
      → (drift hash_state merge_hydration_values store entry value source normalize now_ms
          state).1.value
        ≡ entry.baseline
  unfolding drift resolve normalized
  drift-server_wins store entry value source none now_ms state p f = ground (arith, p)
  drift-server_wins store entry value source (some normalize) now_ms state p f =
      ground (arith, p, f)

  insert-IsHashed :
      (stores : Dict (HydrationStoreState V)) (store : String) (entry : HydrationStoreState V)
      → entry.baseline_hash ≡ hash_state entry.baseline
      → ((s : String) (e : HydrationStoreState V)
          → lookup s stores ≡ some e
          → e.baseline_hash ≡ hash_state e.baseline)
      → (s : String) (e : HydrationStoreState V) → lookup s (insert store entry stores) ≡ some e
      → e.baseline_hash ≡ hash_state e.baseline
  insert-IsHashed stores store entry h hs s e l =
      ground (arith, h, l, hs s e, lookup-insert s store entry stores)

  -- Reconciling a value, with whatever policy, merge and normalization, leaves every entry with the
  -- hash of its baseline.
  pub reconcile-IsHashed :
      (store : String) (value : V) (source : HydrationSource) (normalize : Normalize V) (now_ms : ℕ)
      (state : HydrationRuntimeState V)
      → IsHashed hash_state state
      → IsHashed hash_state
          (reconcile_hydration_value hash_state merge_hydration_values store value source normalize
            now_ms state).0
  unfolding reconcile_hydration_value
  reconcile-IsHashed store value source normalize now_ms state p =
      let h = p.hashed in
      record {
        hashed = λ s e l. elim (Option-cases (lookup store state.stores)) [
          | inl k ↦ h s e (ground (arith, k, l))
          | inr (entry, k) ↦
              elim (Bool-cases (
                refetches hash_state merge_hydration_values entry.policy
                && same_source source network)) [
                  | inl c ↦
                      insert-IsHashed state.stores store
                        (record (settled hash_state merge_hydration_values entry source
                          (hash_state value)) {
                            baseline = value;
                            baseline_hash = hash_state value;
                          })
                        refl h s e (ground (arith, k, c, l))
                  | inr c ↦ elim (Bool-cases (hash_state value == entry.baseline_hash)) [
                    | inl q ↦
                        insert-IsHashed state.stores store
                          (settled hash_state merge_hydration_values entry source
                            (hash_state value))
                          (h store entry k) h s e (ground (arith, k, c, q, l))
                    | inr q ↦
                        insert-IsHashed state.stores store
                          (diverged hash_state merge_hydration_values entry source now_ms (
                            normalized hash_state merge_hydration_values normalize entry.baseline
                              (resolve hash_state merge_hydration_values entry value source)))
                          (h store entry k) h s e
                          (ap (lookup s)
                              (sym (drift-stores store entry value source normalize now_ms state))
                            ∙ ground (arith, k, c, q, l))
                  ]
                ]
        ];
      }

  -- For a store whose entry stands under `server_wins`, whatever is written, the value that comes out
  -- has the hash of the entry's baseline; the entry's hash is that of its baseline, and the baseline
  -- is a fixed point of the normalization, if there is one.
  pub server_wins_reverts :
      (store : String) (value : V) (source : HydrationSource) (normalize : Normalize V) (now_ms : ℕ)
      (state : HydrationRuntimeState V) (entry : HydrationStoreState V)
      → lookup store state.stores ≡ some entry
      → entry.policy ≡ server_wins
      → entry.baseline_hash ≡ hash_state entry.baseline
      → FixesBaseline normalize entry.baseline
      → hash_state
          (reconcile_hydration_value hash_state merge_hydration_values store value source normalize
            now_ms state).1.value
        ≡ entry.baseline_hash
  unfolding reconcile_hydration_value
  server_wins_reverts store value source normalize now_ms state entry k p h f =
      elim (Bool-cases (hash_state value == entry.baseline_hash)) [
        | inl q ↦ ground (arith, k, p, q)
        | inr q ↦ ground (
          arith,
          k,
          p,
          q,
          h,
          drift-server_wins store entry value source normalize now_ms state p f,
        )
      ]

  push-bounded :
      (event : HydrationDriftEvent V) (state : HydrationRuntimeState V)
      → length (push_hydration_drift_event event state).events ≤ state.max_events
  unfolding push_hydration_drift_event
  push-bounded event state =
      let events = state.events ++ event ∷ [] in
      ground (arith, length-drop (length events - state.max_events) events)

  drift-bounded :
      (store : String) (entry : HydrationStoreState V) (value : V) (source : HydrationSource)
      (normalize : Normalize V) (now_ms : ℕ) (state : HydrationRuntimeState V)
      → length
          (drift hash_state merge_hydration_values store entry value source normalize now_ms
            state).0.events
        ≤ state.max_events
  unfolding drift next_hydration_sequence
  drift-bounded store entry value source normalize now_ms state = push-bounded _ _

  -- Reconciling never keeps more drift events than the configured maximum.
  pub events_stay_bounded :
      (store : String) (value : V) (source : HydrationSource) (normalize : Normalize V) (now_ms : ℕ)
      (state : HydrationRuntimeState V)
      → length state.events ≤ state.max_events
      → length
          (reconcile_hydration_value hash_state merge_hydration_values store value source normalize
            now_ms state).0.events
        ≤ state.max_events
  unfolding reconcile_hydration_value
  events_stay_bounded store value source normalize now_ms state h =
      elim (Option-cases (lookup store state.stores)) [
        | inl k ↦ ground (arith, k, h)
        | inr (entry, k) ↦
            elim (Bool-cases (
              refetches hash_state merge_hydration_values entry.policy
              && same_source source network)) [
                | inl c ↦ ground (arith, k, c, h)
                | inr c ↦ elim (Bool-cases (hash_state value == entry.baseline_hash)) [
                  | inl q ↦ ground (arith, k, c, q, h)
                  | inr q ↦ ground (
                    arith,
                    k,
                    c,
                    q,
                    drift-bounded store entry value source normalize now_ms state,
                  )
                ]
              ]
      ]
