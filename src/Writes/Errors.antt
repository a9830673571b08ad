-- ===== src/Writes/Errors.antt =====
-- What a write that fails leaves behind (src/core/store-set-impl.ts, src/core/store-replace-impl.ts,
-- src/core/store-admin-impl.ts).
use stroid.Base.{
  or_else, ℕ, String, Bool, true, false, Option, none, some, ◌≡◌, refl, ◌⊎◌, arith, not, ◌&&◌,
  if-both, if-true,
}
use stroid.Base.Dict.{has_key}
use stroid.Transaction.{TransactionError}
use stroid.Hydration.Queue.{should_queue_hydration_write}
use stroid.Hydration.State.{effect}
use stroid.Writes.{
  WriteContext, CommitAction, StoreOptions, Update, Host, Runtime, deferred_set, deferred_replace,
  resolve_write_context, stage_or_commit_update, sets,
}
use stroid.Writes.Pipeline.{
  normalize_committed_state, materialize_initial, get_store_value_ref, options_of,
}
use stroid.Writes.Set.{
  same_value, WriteReason, failed, WriteResult, ok, Prepared, ready, rejected, fail_tx, written,
  finish_set, write_set, set_found, set_store, not_found, error_for, source_hint_of, defer,
}
use stroid.Writes.Replace.{
  prepare_replace, defers_replace, default_source, finish_replace, write_replace,
  replace_store_state,
}

-- The state is `rt` with its open transaction, if there is one, failed.
abbrev pub IsFailed : Runtime → Runtime → Type 0
IsFailed rt rt' = (e : TransactionError) × (rt' ≡ fail_tx e rt)

-- An initial value was there or is given, or nothing has changed.
record Materialized (rt : Runtime) (p : Runtime × Bool) : Type 0 where
  pub case : (p.1 ≡ true) ⊎ ((p.1 ≡ false) × (p.0 ≡ rt))

-- A call that returned a reason has changed nothing, or has only failed the transaction of `m`.
record Leaves (rt m : Runtime) (p : Runtime × WriteResult) : Type 0 where
  pub outcome : (reason : WriteReason) → p.1 ≡ failed reason → (p.0 ≡ rt) ⊎ IsFailed m p.0

-- A call that returned a reason has only failed the transaction of `rt`.
pub record Refuses (rt : Runtime) (p : Runtime × WriteResult) : Type 0 where
  pub refusal : (reason : WriteReason) → p.1 ≡ failed reason → IsFailed rt p.0

ok-Refuses : (rt rt' : Runtime) → Refuses rt (rt', ok)
ok-Refuses rt rt' = record { refusal = λ reason h. ground (arith, h) }

fail_tx-Refuses :
    (rt : Runtime) (e : TransactionError) (reason : WriteReason)
    → Refuses rt (fail_tx e rt, failed reason)
fail_tx-Refuses rt e reason = record { refusal = λ _ h. (e, refl) }

written-Refuses : (rt : Runtime) (p : Runtime × Option TransactionError) → Refuses rt (written p)
written-Refuses rt (rt', none) = record { refusal = λ reason h. ground (arith, h) }
written-Refuses rt (rt', some e) = record { refusal = λ reason h. ground (arith, h) }

module _ (host : Host) where
  finish_set-Refuses :
      (name : String) (options : StoreOptions) (context : Option WriteContext) (prev : ℕ)
      (p : Prepared) (rt : Runtime)
      → Refuses rt (finish_set host name options context prev p rt)
  unfolding finish_set
  finish_set-Refuses name options context prev (rejected reason e) rt = fail_tx-Refuses rt e reason
  finish_set-Refuses name options context prev (ready committed patches) rt =
      if-both (Refuses rt) (same_value host prev committed) (rt, ok) _ (ok-Refuses rt rt)
        (written-Refuses rt (
          stage_or_commit_update host
            (record {
              name = name;
              prev = prev;
              next = committed;
              action = sets;
              context = context;
              runtime_patches = patches;
              reset_elapsed_ms = none;
            })
            (some (normalize_committed_state host options.validate false)) rt))

  set_found-Refuses :
      (name : String) (update : Update) (context : Option WriteContext) (bypass : Bool)
      (rt : Runtime)
      → Refuses rt (set_found host name update context bypass rt)
  unfolding write_set
  set_found-Refuses name update context bypass rt =
      if-both (Refuses rt) (not (has_key name rt.world.registry.stores)) _ _
        (fail_tx-Refuses rt (error_for host "called before createStore()") not_found)
        (if-both (Refuses rt)
          (not bypass
            && should_queue_hydration_write name (source_hint_of effect context) rt.hydration)
          (
            defer host name (source_hint_of effect context) (deferred_set name update context) rt,
            ok,
          )
          _ (ok-Refuses rt _) (finish_set-Refuses name _ _ _ _ rt))

  pub set_store-Refuses :
      (name : String) (update : Update) (context : Option WriteContext) (bypass : Bool)
      (rt : Runtime)
      → (materialize_initial host name rt).1 ≡ true
      → Refuses (materialize_initial host name rt).0 (set_store host name update context bypass rt)
  unfolding set_store
  set_store-Refuses name update context bypass rt y =
      let m = materialize_initial host name rt in
      if-true (Refuses m.0) m.1 _ _ y (set_found-Refuses name update context bypass m.0)

  finish_replace-Refuses :
      (name : String) (action : CommitAction) (options : StoreOptions)
      (context : Option WriteContext) (prev : ℕ) (p : Prepared) (rt : Runtime)
      → Refuses rt (finish_replace host name action options context prev p rt)
  unfolding finish_replace
  finish_replace-Refuses name action options context prev (rejected reason e) rt =
      fail_tx-Refuses rt e reason
  finish_replace-Refuses name action options context prev (ready committed patches) rt =
      written-Refuses rt (
        stage_or_commit_update host
          (record {
            name = name;
            prev = prev;
            next = committed;
            action = action;
            context = context;
            runtime_patches = patches;
            reset_elapsed_ms = none;
          })
          (some (normalize_committed_state host options.validate false)) rt)

  pub replace_store_state-Refuses :
      (name : String) (value : ℕ) (action : CommitAction) (context : Option WriteContext)
      (bypass : Bool) (rt : Runtime)
      → Refuses rt (replace_store_state host name value action context bypass rt)
  unfolding replace_store_state write_replace
  replace_store_state-Refuses name value action context bypass rt =
      if-both (Refuses rt) (not (has_key name rt.world.registry.stores)) _ _
        (fail_tx-Refuses rt (error_for host "called before createStore()") not_found)
        (if-both (Refuses rt) (defers_replace host name action context bypass rt)
          (
            defer host name (source_hint_of (default_source action) context)
                (deferred_replace name value action context) rt,
            ok,
          )
          (write_replace host name value action context rt) (ok-Refuses rt _)
          (finish_replace-Refuses name action (options_of host name rt.world)
            (resolve_write_context host context)
            (or_else (get_store_value_ref name rt.world) host.undefined)
            (prepare_replace host name action (options_of host name rt.world)
              (resolve_write_context host context)
              (or_else (get_store_value_ref name rt.world) host.undefined) value)
            rt))
