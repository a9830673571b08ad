-- ===== src/Writes/Set.antt =====
-- `setStoreInternal` (src/core/store-set-impl.ts). The name is qualified and the path parsed before.
-- An object here is one that is no array. The mutator is what the producer of the settings, or the clone,
-- makes of it.
use stroid.Base.{
  ℕ, String, Bool, true, false, not, ◌&&◌, ◌||◌, Option, none, some, List, [], ◌∷◌, ◌++◌,
  if◌then◌else◌, or_else, ◌==◌, length,
}
use stroid.Base.Dict.{has_key}
use stroid.Transaction.{TransactionError, raised, is_transaction_active, mark_transaction_failed}
use stroid.Hydration.State.{HydrationSource, effect}
use stroid.Hydration.Queue.{should_queue_hydration_write, enqueue_hydration_write}
use stroid.Path.{validate_depth}
use stroid.Writes.{
  WriteContext, sets, MutatorResult, drafts, returned, threw, Update, mutator, object, at_path,
  invalid, DeferredCall, deferred_set, StoreOptions, Host, Runtime, resolve_write_context,
  stage_or_commit_update,
}
use stroid.Writes.Pipeline.{
  options_of, sanitize_value, normalize_committed_state, run_middleware_for_store,
  get_store_value_ref, materialize_initial,
}

pub data WriteReason : Type 0 where
  validate : WriteReason
  not_found : WriteReason
  invalid_args : WriteReason
  path : WriteReason
  middleware : WriteReason
  sanitize : WriteReason
  undefined_value : WriteReason
  lazy_uninitialized : WriteReason
  no_initial_state : WriteReason

-- A call returns `{ ok: true }`, returns its reason, or throws.
pub data WriteResult : Type 0 where
  ok : WriteResult
  failed : WriteReason → WriteResult
  thrown : TransactionError → WriteResult

-- `runtimePatchIntent`
pub data PatchIntent : Type 0 where
  root : PatchIntent
  merge : ℕ → PatchIntent
  sets_path : List (List ℕ) → ℕ → PatchIntent

pub data Draft : Type 0 where
  drafted : ℕ → PatchIntent → Draft
  refused : WriteReason → TransactionError → Draft

pub data Prepared : Type 0 where
  ready : ℕ → List ℕ → Prepared
  rejected : WriteReason → TransactionError → Prepared

-- `failTx`
unfoldable pub fail_tx : TransactionError → Runtime → Runtime
fail_tx e rt =
    if is_transaction_active rt.world.transaction
    then record rt {
      world = record (rt.world) { transaction = mark_transaction_failed e rt.world.transaction };
    }
    else rt

abbrev pub written : Runtime × Option TransactionError → Runtime × WriteResult
written (rt, none) = (rt, ok)
written (rt, some e) = (rt, thrown e)

abbrev pub source_hint_of : HydrationSource → Option WriteContext → HydrationSource
source_hint_of default none = default
source_hint_of default (some c) = or_else c.source_hint default

-- `enqueueHydrationWrite` of a call that is made again when the queue is flushed.
unfoldable pub defer : Host → String → HydrationSource → DeferredCall → Runtime → Runtime
defer host name source call rt = record rt {
  hydration = enqueue_hydration_write name source (length rt.deferred) host.now rt.hydration;
  deferred = rt.deferred ++ call ∷ [];
}

module _ (host : Host) where
  abbrev pub error_for : String → TransactionError
  error_for text = raised (host.message text)

  abbrev draft_mutator : MutatorResult → Draft
  draft_mutator (drafts v) = drafted v root
  draft_mutator (returned v) =
      if host.strict_mutator_returns
      then refused validate (error_for "returned a value")
      else drafted v root
  draft_mutator (threw e) = refused validate (raised e)

  -- The new value as the argument asks for it.
  unfoldable pub draft_update : String → ℕ → Update → Draft
  draft_update name prev (mutator recipe) = draft_mutator (recipe prev)
  draft_update name prev (object partial) =
      if not (host.is_valid_data partial)
      then refused invalid_args (error_for "received invalid data")
      else if not (host.is_plain_object prev)
      then refused validate (error_for "attempted object merge on non-object store")
      else elim (sanitize_value host false partial) [
        | none ↦ refused validate (error_for "failed sanitize")
        | some clean ↦ drafted (host.assign prev clean) (merge clean)
      ]
  draft_update name prev (at_path parts value) =
      if not (validate_depth parts)
      then refused invalid_args (error_for "received invalid path")
      else elim (sanitize_value host false value) [
        | none ↦ refused validate (error_for "failed sanitize")
        | some clean ↦
            if host.validate_path_safety name prev parts clean
            then drafted (host.set_by_path prev parts clean) (sets_path parts clean)
            else refused path (error_for "invalid path")
      ]
  draft_update name prev invalid = refused invalid_args (error_for "invalid arguments")

  -- `createCanonicalSetStorePatches`
  unfoldable pub canonical_patches : String → PatchIntent → Bool → ℕ → Option WriteContext → List ℕ
  canonical_patches name (merge value) true committed context =
      host.merge_patch name value context ∷ []
  canonical_patches name (sets_path parts value) true committed context =
      host.path_patch name parts value context ∷ []
  canonical_patches name _ _ committed context = host.root_patch sets name committed context ∷ []

  abbrev pub after_validation :
      String → Option WriteContext → ℕ → PatchIntent → ℕ → Option ℕ → Prepared
  after_validation name context updated intent next none =
      rejected validate (error_for "failed validation")
  after_validation name context updated intent next (some committed) =
      ready committed
        (canonical_patches name intent (next == updated && committed == next) committed context)

  abbrev pub after_middleware :
      String → StoreOptions → Option WriteContext → ℕ → PatchIntent → Option ℕ → Prepared
  after_middleware name options context updated intent none =
      rejected middleware (error_for "aborted by middleware")
  after_middleware name options context updated intent (some next) =
      after_validation name context updated intent next
        (normalize_committed_state host options.validate (next == updated) next)

  unfoldable pub prepare_drafted :
      String → StoreOptions → Option WriteContext → ℕ → ℕ → PatchIntent → Prepared
  prepare_drafted name options context prev updated intent =
      if not (host.is_valid_data updated)
      then rejected validate (error_for "produced invalid data")
      else after_middleware name options context updated intent (
          run_middleware_for_store host options
            (record { action = sets; name = name; prev = prev; next = updated; context = context }))

  abbrev pub prepare_draft : String → StoreOptions → Option WriteContext → ℕ → Draft → Prepared
  prepare_draft name options context prev (refused reason e) = rejected reason e
  prepare_draft name options context prev (drafted updated intent) =
      prepare_drafted name options context prev updated intent

  -- From the argument to the value to commit and its patches.
  unfoldable pub prepare_set : String → StoreOptions → Option WriteContext → ℕ → Update → Prepared
  prepare_set name options context prev update =
      prepare_draft name options context prev (draft_update name prev update)

  abbrev pub same_value : ℕ → ℕ → Bool
  same_value prev committed = prev == committed || host.shallow_equal prev committed

  -- The end of a write: fail, skip a value that is shallowly the same, or commit.
  unfoldable pub finish_set :
      String → StoreOptions → Option WriteContext → ℕ → Prepared → Runtime → Runtime × WriteResult
  finish_set name options context prev (rejected reason e) rt = (fail_tx e rt, failed reason)
  finish_set name options context prev (ready committed patches) rt =
      if same_value prev committed
      then (rt, ok)
      else written (
          stage_or_commit_update host
            (record {
              name = name;
              prev = prev;
              next = committed;
              action = sets;
              context = context;
              runtime_patches = patches;
              reset_elapsed_ms = none;
            })
            (some (normalize_committed_state host options.validate false)) rt)

  -- What is left once the store is known and the write not deferred.
  unfoldable pub write_set : String → Update → Option WriteContext → Runtime → Runtime × WriteResult
  write_set name update context rt =
      let prev = or_else (get_store_value_ref name rt.world) host.undefined in
      let options = options_of host name rt.world in
      let ctx = resolve_write_context host context in
      finish_set name options ctx prev (prepare_set name options ctx prev update) rt

  abbrev pub set_found :
      String → Update → Option WriteContext → Bool → Runtime → Runtime × WriteResult
  set_found name update context bypass rt =
      let source = source_hint_of effect context in
      if not (has_key name rt.world.registry.stores)
      then (fail_tx (error_for "called before createStore()") rt, failed not_found)
      else if not bypass && should_queue_hydration_write name source rt.hydration
      then (defer host name source (deferred_set name update context) rt, ok)
      else write_set name update context rt

  -- A lazy store whose factory fails does not fail the transaction.
  unfoldable pub set_store :
      String → Update → Option WriteContext → Bool → Runtime → Runtime × WriteResult
  set_store name update context bypass rt =
      let initial = materialize_initial host name rt in
      if initial.1
      then set_found name update context bypass initial.0
      else (initial.0, failed validate)
