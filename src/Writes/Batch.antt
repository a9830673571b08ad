-- ===== src/Writes/Batch.antt =====
-- Writes within a batch: a step is a call that the callback of a `setStoreBatch` makes
-- (src/core/store-set-impl.ts, src/core/store-replace-impl.ts, src/core/store-admin-impl.ts).
use stroid.Base.{
  ℕ, String, Bool, true, false, Option, none, some, ◌≡◌, refl, sym, if◌then◌else◌, is_some, arith,
  subst, not, ◌&&◌,
}
use stroid.Base.Dict.{lookup, has_key}
use stroid.Transaction.{
  StoreRegistry, TransactionState, TransactionError, is_transaction_active, mark_transaction_failed,
  register_transaction_commit, stage_transaction_value, stage_transaction_patches,
  get_staged_transaction_value,
}
use stroid.Hydration.State.{HydrationSource, effect}
use stroid.Hydration.Queue.{should_queue_hydration_write}
use stroid.Hydration.Reconcile.{Normalize}
use stroid.Writes.{
  WriteContext, CommitAction, CommitArgs, updates, materializes, Update, DeferredCall,
  deferred_reset, StoreOptions, Host, Runtime, stage_update, stage_or_commit_update,
}
use stroid.Writes.Pipeline.{
  get_store_value_ref, store_initial, keep_initial, run_factory, materialize_initial, is_staged,
  is_defined, options_of,
}
use stroid.Writes.Set.{
  Prepared, ready, rejected, fail_tx, written, defer, finish_set, write_set, set_store, error_for,
  failed, not_found, lazy_uninitialized, validate, ok,
}
use stroid.Writes.Replace.{
  finish_replace, write_replace, replace_store_state, write_reset, reset_to, reset_ready,
  reset_store,
}
use stroid.Writes.Staged.{IsBacked, stage-IsBacked, read_staged}

-- A batch is open, its registry is still `r`, and its commits will write what it has staged.
pub record InBatch (r : StoreRegistry) (was : Bool) (rt : Runtime) : Type 0 where
  pub marked : was ≡ true → rt.world.transaction.failed ≡ true
  pub opened : rt.world.transaction.depth ≡ 1
  pub kept : rt.world.registry ≡ r
  pub backed :
      IsBacked rt.closures rt.world.transaction.pending rt.world.transaction.staged_values
        rt.world.registry.stores

-- The same of the state that a call returns beside its result.
pub record AfterCall {B : Type 0} (r : StoreRegistry) (was : Bool) (p : Runtime × B) : Type 0 where
  pub still : InBatch r was p.0

if-preserves :
    {A : Type 0} (P : A → Type 0) (b : Bool) (x y : A) → P x → P y → P (if b then x else y)
if-preserves P true x y p q = p
if-preserves P false x y p q = q

pub opened-active : (t : TransactionState) → t.depth ≡ 1 → is_transaction_active t ≡ true
unfolding is_transaction_active
opened-active t h = ground (arith, h)

-- The same where the test is known to hold.
if-holds :
    {A : Type 0} (P : A → Type 0) (b : Bool) (x y : A) → b ≡ true → P x → P (if b then x else y)
if-holds P b x y h p = subst (λ c. P (if c then x else y)) (sym h) p

module _ (host : Host) (r : StoreRegistry) (was : Bool) where
  stage_update-InBatch :
      (args : CommitArgs) (invalidation : Option (ℕ × HydrationSource)) (rt : Runtime)
      → InBatch r was rt
      → InBatch r was (stage_update host args invalidation rt)
  unfolding stage_update register_transaction_commit stage_transaction_value
      stage_transaction_patches is_transaction_active
  stage_update-InBatch args invalidation rt b = record {
    opened = b.opened;
    marked = b.marked;
    kept = b.kept;
    backed =
        stage-IsBacked rt.closures (updates args invalidation) rt.world.transaction.pending
          rt.world.transaction.staged_values rt.world.registry.stores b.backed;
  }

  stage_or_commit_update-InBatch :
      (args : CommitArgs) (normalize : Normalize ℕ) (rt : Runtime)
      → InBatch r was rt
      → AfterCall r was (stage_or_commit_update host args normalize rt)
  unfolding stage_or_commit_update
  stage_or_commit_update-InBatch args normalize rt b =
      if-holds (AfterCall r was) (is_transaction_active rt.world.transaction) _ _
        (opened-active rt.world.transaction b.opened)
        (record {
          still =
              stage_update-InBatch _ _ _
                (record { opened = b.opened; marked = b.marked; kept = b.kept; backed = b.backed });
        })

  written-InBatch :
      (p : Runtime × Option TransactionError) → AfterCall r was p → AfterCall r was (written p)
  written-InBatch (rt, none) b = record { still = b.still }
  written-InBatch (rt, some e) b = record { still = b.still }

  -- A failure leaves a batch that has failed, whether it had or not.
  pub fail_tx-InBatch :
      (e : TransactionError) (rt : Runtime) → InBatch r was rt → InBatch r true (fail_tx e rt)
  unfolding fail_tx mark_transaction_failed
  fail_tx-InBatch e rt b =
      if-holds (InBatch r true) (is_transaction_active rt.world.transaction) _ rt
        (opened-active rt.world.transaction b.opened)
        (record { opened = b.opened; marked = λ _. refl; kept = b.kept; backed = b.backed })

  fail_tx-AfterCall :
      {B : Type 0} (e : TransactionError) (result : B) (rt : Runtime)
      → InBatch r was rt
      → AfterCall r was (fail_tx e rt, result)
  fail_tx-AfterCall e result rt b =
      let f = fail_tx-InBatch e rt b in
      record {
        still = record {
          opened = f.opened;
          marked = λ _. f.marked refl;
          kept = f.kept;
          backed = f.backed;
        };
      }

  defer-InBatch :
      (name : String) (source : HydrationSource) (call : DeferredCall) (rt : Runtime)
      → InBatch r was rt
      → InBatch r was (defer host name source call rt)
  unfolding defer
  defer-InBatch name source call rt b = record {
    opened = b.opened;
    marked = b.marked;
    kept = b.kept;
    backed = b.backed;
  }

  store_initial-InBatch :
      (name : String) (value : ℕ) (rt : Runtime)
      → InBatch r was rt
      → InBatch r was (store_initial host name value rt)
  unfolding store_initial register_transaction_commit stage_transaction_value is_transaction_active
  store_initial-InBatch name value rt b =
      if-holds (InBatch r was) (is_transaction_active rt.world.transaction) _ _
        (opened-active rt.world.transaction b.opened)
        (record {
          opened = b.opened;
          marked = b.marked;
          kept = b.kept;
          backed =
              stage-IsBacked rt.closures (materializes name value) rt.world.transaction.pending
                rt.world.transaction.staged_values rt.world.registry.stores b.backed;
        })

  keep_initial-InBatch :
      (name : String) (value : Option ℕ) (rt : Runtime)
      → InBatch r was rt
      → AfterCall r was (keep_initial host name value rt)
  keep_initial-InBatch name none rt b = record { still = b }
  keep_initial-InBatch name (some value) rt b = record {
    still = store_initial-InBatch name value rt b;
  }

  run_factory-InBatch :
      (name : String) (factory : Option ℕ) (rt : Runtime)
      → InBatch r was rt
      → AfterCall r was (run_factory host name factory rt)
  run_factory-InBatch name none rt b = record { still = b }
  run_factory-InBatch name (some factory) rt b = keep_initial-InBatch name _ rt b

  pub materialize_initial-InBatch :
      (name : String) (rt : Runtime)
      → InBatch r was rt
      → AfterCall r was (materialize_initial host name rt)
  unfolding materialize_initial
  materialize_initial-InBatch name rt b =
      if-preserves (AfterCall r was) (is_staged name rt.world) (rt, true) _ (record { still = b })
        (if-preserves (AfterCall r was) (is_defined host (lookup name rt.world.registry.stores))
          (rt, true) _ (record { still = b })
          (run_factory-InBatch name (lookup name rt.world.registry.initial_factories) rt b))

  finish_set-InBatch :
      (name : String) (options : StoreOptions) (context : Option WriteContext) (prev : ℕ)
      (p : Prepared) (rt : Runtime)
      → InBatch r was rt
      → AfterCall r was (finish_set host name options context prev p rt)
  unfolding finish_set
  finish_set-InBatch name options context prev (rejected reason e) rt b = fail_tx-AfterCall e _ rt b
  finish_set-InBatch name options context prev (ready committed patches) rt b =
      if-preserves (AfterCall r was) _ _ _ (record { still = b })
        (written-InBatch _ (stage_or_commit_update-InBatch _ _ rt b))

  pub set_store-InBatch :
      (name : String) (update : Update) (context : Option WriteContext) (bypass : Bool)
      (rt : Runtime)
      → InBatch r was rt
      → AfterCall r was (set_store host name update context bypass rt)
  unfolding set_store write_set
  set_store-InBatch name update context bypass rt b =
      let m = (materialize_initial-InBatch name rt b).still in
      if-preserves (AfterCall r was) _ _ _
        (if-preserves (AfterCall r was) _ _ _ (fail_tx-AfterCall _ _ _ m) (
          if-preserves (AfterCall r was) _ _ _ (record { still = defer-InBatch name _ _ _ m })
            (finish_set-InBatch name _ _ _ _ _ m)))
        (record { still = m })

  finish_replace-InBatch :
      (name : String) (action : CommitAction) (options : StoreOptions)
      (context : Option WriteContext) (prev : ℕ) (p : Prepared) (rt : Runtime)
      → InBatch r was rt
      → AfterCall r was (finish_replace host name action options context prev p rt)
  unfolding finish_replace
  finish_replace-InBatch name action options context prev (rejected reason e) rt b =
      fail_tx-AfterCall e _ rt b
  finish_replace-InBatch name action options context prev (ready committed patches) rt b =
      written-InBatch _ (stage_or_commit_update-InBatch _ _ rt b)

  pub replace_store_state-InBatch :
      (name : String) (value : ℕ) (action : CommitAction) (context : Option WriteContext)
      (bypass : Bool) (rt : Runtime)
      → InBatch r was rt
      → AfterCall r was (replace_store_state host name value action context bypass rt)
  unfolding replace_store_state write_replace
  replace_store_state-InBatch name value action context bypass rt b =
      if-preserves (AfterCall r was) _ _ _ (fail_tx-AfterCall _ _ rt b) (
        if-preserves (AfterCall r was) _ _ _ (record { still = defer-InBatch name _ _ rt b })
          (finish_replace-InBatch name action _ _ _ _ rt b))

  reset_to-InBatch :
      (name : String) (elapsed : ℕ) (initial : Option ℕ) (rt : Runtime)
      → InBatch r was rt
      → AfterCall r was (reset_to host name elapsed initial rt)
  unfolding write_reset
  reset_to-InBatch name elapsed none rt b = fail_tx-AfterCall _ _ rt b
  reset_to-InBatch name elapsed (some initial) rt b =
      written-InBatch _ (stage_or_commit_update-InBatch _ _ rt b)

  pub reset_store-InBatch :
      (name : String) (elapsed : ℕ) (bypass : Bool) (rt : Runtime)
      → InBatch r was rt
      → AfterCall r was (reset_store host name elapsed bypass rt)
  unfolding reset_store
  reset_store-InBatch name elapsed bypass rt b =
      let m = (materialize_initial-InBatch name rt b).still in
      let initial = materialize_initial host name rt in
      let same : AfterCall r was (rt, failed not_found) = record { still = b } in
      if-preserves (AfterCall r was) (not (has_key name rt.world.registry.stores)) _ _ same (
        if-preserves (AfterCall r was)
          (not bypass && should_queue_hydration_write name effect rt.hydration)
          (defer host name effect (deferred_reset name) rt, ok) _
          (record { still = defer-InBatch name _ _ rt b })
          (if-preserves (AfterCall r was)
            ((options_of host name rt.world).lazy
              && is_some (lookup name rt.world.registry.initial_factories))
            (fail_tx (error_for host "cannot run on a lazy store") rt, failed lazy_uninitialized) _
            (fail_tx-AfterCall _ _ rt b)
            (if-preserves (AfterCall r was) initial.1 (reset_ready host name elapsed initial.0)
              (initial.0, failed validate) (reset_to-InBatch name elapsed _ _ m)
              (record { still = m }))))

pub read-staged :
    (r : StoreRegistry) (was : Bool) (rt : Runtime) (n : String)
    → InBatch r was rt
    → get_store_value_ref n rt.world
      ≡ read_staged rt.world.transaction.staged_values rt.world.registry.stores n
unfolding get_store_value_ref get_staged_transaction_value
read-staged r was rt n b = ground (arith, opened-active rt.world.transaction b.opened)
