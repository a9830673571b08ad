-- ===== src/Writes/Atomic.antt =====
-- `setStoreBatch` (src/core/store-notify.ts) over the writes: what its callback stages is committed as
-- one, or not at all. The depth of batches and the flush at the end are left to notification.
use stroid.Base.{
  ℕ, String, Bool, false, Option, none, some, List, [], ◌∷◌, ◌≡◌, refl, sym, ap, ◌∙◌, inl, inr,
  subst, arith, Option-cases,
}
use stroid.Base.Dict.{lookup, insert}
use stroid.Transaction.{
  cleared, TransactionState, MetaEntry, World, StoreRegistry, TransactionError, begin_transaction,
  end_transaction, set_all,
}
use stroid.Transaction.Restore.{IsUnique, IsRestored}
use stroid.Transaction.Rollback.{end_transaction_rolls_back}
use stroid.Transaction.Nesting.{run_all, closed, commits_run_in_order}
use stroid.Hydration.State.{HydrationSource}
use stroid.Writes.{
  run_store_hook, commit_meta, set_meta, set_store_value, touch_entry, WriteContext, CommitAction,
  CommitArgs, Closure, updates, materializes, nth, Update, Host, Runtime, commit_store_update,
  after_update, commit_initial, run_closure, run_closures,
}
use stroid.Writes.Pipeline.{get_store_value_ref}
use stroid.Writes.Set.{set_store}
use stroid.Writes.Replace.{replace_store_state, reset_store}
use stroid.Writes.Staged.{closure_write, pending_writes}
use stroid.Writes.Batch.{
  InBatch, read-staged, set_store-InBatch, replace_store_state-InBatch, reset_store-InBatch,
}

-- A write that the callback of a batch makes; a reset says how long its clone took.
pub data Call : Type 0 where
  calls_set : String → Update → Option WriteContext → Call
  calls_replace : String → ℕ → CommitAction → Option WriteContext → Call
  calls_reset : String → ℕ → Call

-- The hooks of writes leave the values of the stores alone.
pub record IsQuiet (host : Host) : Type 0 where
  pub feature_hooks :
      (args : CommitArgs) (w : World)
      → (host.feature_write_hooks args w).registry.stores ≡ w.registry.stores
  pub store_hook :
      (options : ℕ) (args : CommitArgs) (w : World)
      → (host.store_hook options args w).registry.stores ≡ w.registry.stores
  pub handler :
      (name : String) (live : ℕ) (source : HydrationSource) (w : World)
      → (host.invalidation_handler name live source w).registry.stores ≡ w.registry.stores

module _ (host : Host) where
  unfoldable pub do_call : Call → Runtime → Runtime
  do_call (calls_set name update context) rt = (set_store host name update context false rt).0
  do_call (calls_replace name value action context) rt =
      (replace_store_state host name value action context false rt).0
  do_call (calls_reset name elapsed) rt = (reset_store host name elapsed false rt).0

  unfoldable pub do_calls : List Call → Runtime → Runtime
  do_calls [] rt = rt
  do_calls (c ∷ cs) rt = do_calls cs (do_call c rt)

  abbrev pub open_batch : Runtime → Runtime
  open_batch rt = record rt {
    world = record (rt.world) { transaction = begin_transaction rt.world.transaction };
  }

  -- `thrown` is what the callback throws in the end. The source returns nothing: the error here, which
  -- `endTransaction` gives, is the one that it warns of.
  unfoldable pub set_store_batch :
      List Call → Option TransactionError → Runtime → Runtime × Option TransactionError
  set_store_batch calls thrown rt =
      let called = do_calls calls (open_batch rt) in
      let ended = end_transaction (run_closures host called.closures) thrown called.world in
      (record called { world = ended.0 }, ended.1)

begin-cleared :
    (t : TransactionState) → t.depth ≡ 0 → begin_transaction t ≡ cleared (record t { depth = 1 })
unfolding begin_transaction
begin-cleared t h = ground (arith, h)

module _ (host : Host) where
  do_call-InBatch :
      (r : StoreRegistry) (was : Bool) (c : Call) (rt : Runtime)
      → InBatch r was rt
      → InBatch r was (do_call host c rt)
  unfolding do_call
  do_call-InBatch r was (calls_set name update context) rt b =
      (set_store-InBatch host r was name update context false rt b).still
  do_call-InBatch r was (calls_replace name value action context) rt b =
      (replace_store_state-InBatch host r was name value action context false rt b).still
  do_call-InBatch r was (calls_reset name elapsed) rt b =
      (reset_store-InBatch host r was name elapsed false rt b).still

  pub do_calls-InBatch :
      (r : StoreRegistry) (was : Bool) (calls : List Call) (rt : Runtime)
      → InBatch r was rt
      → InBatch r was (do_calls host calls rt)
  unfolding do_calls
  do_calls-InBatch r was [] rt b = b
  do_calls-InBatch r was (c ∷ cs) rt b =
      do_calls-InBatch r was cs (do_call host c rt) (do_call-InBatch r was c rt b)

  open_batch-InBatch :
      (rt : Runtime)
      → rt.world.transaction.depth ≡ 0
      → InBatch rt.world.registry false (open_batch host rt)
  unfolding begin_transaction set_all
  open_batch-InBatch rt d =
      subst
        (λ t.
          InBatch rt.world.registry false
            (record rt { world = record (rt.world) { transaction = t } }))
        (sym (begin-cleared rt.world.transaction d))
        (record {
          opened = refl;
          marked = λ h. ground (arith, h);
          kept = refl;
          backed = record { held = tt; agrees = λ n. refl };
        })

  -- The state at the end of the callback.
  pub called-InBatch :
      (calls : List Call) (rt : Runtime)
      → rt.world.transaction.depth ≡ 0
      → InBatch rt.world.registry false (do_calls host calls (open_batch host rt))
  called-InBatch calls rt d =
      do_calls-InBatch rt.world.registry false calls (open_batch host rt) (open_batch-InBatch rt d)

module _ (host : Host) (q : IsQuiet host) where
  run_store_hook-stores :
      (args : CommitArgs) (entry : Option MetaEntry) (w : World)
      → (run_store_hook host args entry w).0.registry.stores ≡ w.registry.stores
  run_store_hook-stores args none w = refl
  run_store_hook-stores args (some entry) w = q.store_hook entry.options args w

  commit_meta-stores :
      (args : CommitArgs) (entry : Option MetaEntry) (w : World)
      → (commit_meta host args entry w).0.registry.stores ≡ w.registry.stores
  commit_meta-stores args none w = refl
  commit_meta-stores args (some entry) w =
      run_store_hook-stores args _ _
      ∙ q.feature_hooks args (set_meta args.name (touch_entry host args entry) w)

  pub commit-stores :
      (args : CommitArgs) (w : World)
      → (commit_store_update host args w).0.registry.stores
        ≡ insert args.name args.next w.registry.stores
  unfolding commit_store_update
  commit-stores args w = commit_meta-stores args _ (set_store_value args.name args.next w)

  pub after_update-stores :
      (name : String) (invalidation : Option (ℕ × HydrationSource))
      (p : World × Option TransactionError)
      → (after_update host name invalidation p).0.registry.stores ≡ p.0.registry.stores
  unfolding after_update
  after_update-stores name none p = refl
  after_update-stores name (some (live, source)) (w, none) = q.handler name live source w
  after_update-stores name (some (live, source)) (w, some e) = refl

  run_closure-stores :
      (c : Closure) (w : World)
      → (run_closure host c w).0.registry.stores
        ≡ insert (closure_write c).0 (closure_write c).1 w.registry.stores
  unfolding run_closure commit_initial
  run_closure-stores (updates args invalidation) w =
      after_update-stores args.name invalidation (commit_store_update host args w)
      ∙ commit-stores args w
  run_closure-stores (materializes name value) w = refl

  run_all-stores :
      (cs : List Closure) (fns : List ℕ) (w : World)
      → (run_all (run_closures host cs) fns w).registry.stores
        ≡ set_all (pending_writes cs fns) w.registry.stores
  unfolding run_closures set_all
  run_all-stores cs [] w = refl
  run_all-stores cs (fn ∷ fns) w =
      run_all-stores cs fns (run_closures host cs fn w).0 ∙ elim (Option-cases (nth fn cs)) [
        | inl gone ↦ ground (arith, gone)
        | inr (c, found) ↦ ground (arith, found, run_closure-stores c w)
      ]

  -- A batch of writes whose `endTransaction` returns no error leaves, under every name, the value that
  -- the callback would have read at its end. The batch is no part of another, and the hooks of writes do
  -- not set stores.
  pub batch_commits_reads :
      (calls : List Call) (rt : Runtime) (n : String)
      → rt.world.transaction.depth ≡ 0
      → (set_store_batch host calls none rt).1 ≡ none
      → lookup n (set_store_batch host calls none rt).0.world.registry.stores
        ≡ get_store_value_ref n (do_calls host calls (open_batch host rt)).world
  unfolding set_store_batch
  batch_commits_reads calls rt n d h =
      let called = do_calls host calls (open_batch host rt) in
      let b = called-InBatch host calls rt d in
      let run = run_closures host called.closures in
      ap (λ r. lookup n r.stores) (commits_run_in_order run called.world b.opened h)
      ∙ ap (lookup n)
          (run_all-stores called.closures called.world.transaction.pending (closed called.world))
      ∙ b.backed.agrees n
      ∙ sym (read-staged rt.world.registry false called n b)

-- A batch of writes that returns an error, its callback's or that of a commit, leaves the values of
-- the stores, the metadata that a transaction saves, the pending notifications and the last patches as
-- they were before the batch. No name stands twice in the registry.
pub batch_fails-IsRestored :
    (host : Host) (calls : List Call) (thrown : Option TransactionError) (rt : Runtime)
    (e : TransactionError)
    → IsUnique rt.world.registry.stores
    → IsUnique rt.world.registry.meta_entries
    → rt.world.transaction.depth ≡ 0
    → (set_store_batch host calls thrown rt).1 ≡ some e
    → IsRestored rt.world.registry (set_store_batch host calls thrown rt).0.world.registry
unfolding set_store_batch
batch_fails-IsRestored host calls thrown rt e u v d h =
    let called = do_calls host calls (open_batch host rt) in
    let same = (called-InBatch host calls rt d).kept in
    subst (λ r. IsRestored r (set_store_batch host calls thrown rt).0.world.registry) same
      (end_transaction_rolls_back (run_closures host called.closures) thrown called.world e
        (subst (λ r. IsUnique r.stores) (sym same) u)
        (subst (λ r. IsUnique r.meta_entries) (sym same) v) h)
