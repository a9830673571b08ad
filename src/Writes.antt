-- ===== src/Writes.antt =====
-- Writes to a store (src/core/store-write-shared.ts): a committed write, and the choice between
-- committing and staging it. A value is its reference, which `Object.is` compares; what the walks of
-- src/utils make of a value, what the user's code does (hooks, validators, middleware, factories) and
-- what a clock returns are the fields of a `Host`. A closure that a transaction keeps is its place in
-- the list `closures`, a write that hydration defers its place in `deferred`. The path cache, logs,
-- and the refetch after an invalidation are left out.
pub mod Pipeline
pub mod Set
pub mod Replace
pub mod Staged
pub mod Errors
pub mod Batch
pub mod Atomic
pub mod Abort
pub mod Effect
pub mod Accepted
mod Tests
use stroid.Base.{
  ℕ, zero, suc, ◌+◌, String, Bool, true, false, not, ◌&&◌, Option, none, some, List, [], ◌∷◌, ◌++◌,
  if◌then◌else◌, or_else, is_some, is_nil, ◌==◌, leb, length,
}
use stroid.Base.Dict.{Dict, lookup, insert, erase}
use stroid.Base.Names.{add}
use stroid.Transaction.{
  Metrics, MetaSnapshot, MetaEntry, StoreRegistry, TransactionError, raised, World, Run,
  is_transaction_active, register_transaction_commit, stage_transaction_value,
  stage_transaction_patches,
}
use stroid.Hydration.State.{
  HydrationSource, effect, hydrate, HydrationDriftEvent, HydrationRuntimeState, max_safe_integer,
}
use stroid.Hydration.Reconcile.{HydrationReconcileResult, Normalize, reconcile_hydration_value}

pub record WriteContext : Type 0 where
  pub correlation_id : Option ℕ
  pub trace_context : Option ℕ
  pub source_hint : Option HydrationSource

pub data CommitAction : Type 0 where
  sets : CommitAction
  resets : CommitAction
  hydrates : CommitAction
  replaces : CommitAction

-- `onReset` is the hook of a reset, `onSet` that of any other write; patches are kept by reference.
pub record CommitArgs : Type 0 where
  pub name : String
  pub prev : ℕ
  pub next : ℕ
  pub action : CommitAction
  pub context : Option WriteContext
  pub runtime_patches : List ℕ
  pub reset_elapsed_ms : Option ℕ

-- A validator, as a function or as a schema. A schema that accepts a value may give data in its place.
pub data Checked : Type 0 where
  accepts : Checked
  rejects : Checked
  gives : ℕ → Checked
  throws : Checked

pub data Validate : Type 0 where
  checker : (ℕ → Checked) → Validate
  schema : (ℕ → Option (Option ℕ)) → Validate

pub record MiddlewareContext : Type 0 where
  pub action : CommitAction
  pub name : String
  pub prev : ℕ
  pub next : ℕ
  pub context : Option WriteContext

pub data MiddlewareResult : Type 0 where
  passes : MiddlewareResult
  returns : ℕ → MiddlewareResult
  fails : MiddlewareResult
  promises : MiddlewareResult

abbrev pub Middleware : Type 0
Middleware = MiddlewareContext → MiddlewareResult

pub data ResetClone : Type 0 where
  deep : ResetClone
  shallow : ResetClone
  no_clone : ResetClone

pub record StoreOptions : Type 0 where
  pub validate : Option Validate
  pub middleware : List Middleware
  pub lazy : Bool
  pub reset_clone : ResetClone

-- What the writes rest on. `options` reads the options of a metadata entry; a function of values that
-- can throw returns none; the patches take the store, the value and the context; `message` is the
-- error of a failed write.
pub record Host : Type 0 where
  pub options : ℕ → StoreOptions
  pub global_middleware : List Middleware
  pub strict_mutator_returns : Bool
  pub undefined : ℕ
  pub sanitize : ℕ → Option ℕ
  pub can_reuse_sanitized : ℕ → Bool
  pub deep_clone : ℕ → ℕ
  pub shallow_clone : ℕ → ℕ
  pub is_valid_data : ℕ → Bool
  pub is_plain_object : ℕ → Bool
  pub is_object : ℕ → Bool
  pub assign : ℕ → ℕ → ℕ
  pub validate_path_safety : String → ℕ → List (List ℕ) → ℕ → Bool
  pub set_by_path : ℕ → List (List ℕ) → ℕ → ℕ
  pub shallow_equal : ℕ → ℕ → Bool
  pub factory : ℕ → Option ℕ
  pub root_patch : CommitAction → String → ℕ → Option WriteContext → ℕ
  pub merge_patch : String → ℕ → Option WriteContext → ℕ
  pub path_patch : String → List (List ℕ) → ℕ → Option WriteContext → ℕ
  pub hash_state : ℕ → ℕ
  pub merge_hydration_values : ℕ → ℕ → ℕ
  pub write_context : Option WriteContext
  pub now : ℕ
  pub clock : CommitArgs → ℕ
  pub iso : ℕ → ℕ
  pub message : String → ℕ
  pub type_error : ℕ
  pub feature_write_hooks : CommitArgs → World → World
  pub store_hook : ℕ → CommitArgs → World → World
  pub invalidation_handler : String → ℕ → HydrationSource → World → World

-- What a commit closure has captured: a write, with the live value and the source of an invalidation,
-- or the value of a lazy store.
pub data Closure : Type 0 where
  updates : CommitArgs → Option (ℕ × HydrationSource) → Closure
  materializes : String → ℕ → Closure

-- `setStore`'s second argument, with the third: a function of the draft, an object to merge, a path
-- with its value, or neither.
pub data MutatorResult : Type 0 where
  drafts : ℕ → MutatorResult
  returned : ℕ → MutatorResult
  threw : ℕ → MutatorResult

pub data Update : Type 0 where
  mutator : (ℕ → MutatorResult) → Update
  object : ℕ → Update
  at_path : List (List ℕ) → ℕ → Update
  invalid : Update

pub data DeferredCall : Type 0 where
  deferred_set : String → Update → Option WriteContext → DeferredCall
  deferred_replace : String → ℕ → CommitAction → Option WriteContext → DeferredCall
  deferred_reset : String → DeferredCall

pub record Runtime : Type 0 where
  pub world : World
  pub hydration : HydrationRuntimeState ℕ
  pub closures : List Closure
  pub deferred : List DeferredCall

abbrev pub nth {ℓ} : {A : Type ℓ} → ℕ → List A → Option A
nth n [] = none
nth zero (x ∷ xs) = some x
nth (suc n) (x ∷ xs) = nth n xs

-- `bumpUpdateCount`
pub bump_update_count : ℕ → ℕ
bump_update_count n = if leb max_safe_integer n then 0 else n + 1

-- `applyMetricsUpdate` on an entry that exists.
pub apply_metrics_update : Option ℕ → Metrics → Metrics
apply_metrics_update none m = m
apply_metrics_update (some elapsed) m = record m {
  reset_count = m.reset_count + 1;
  total_reset_ms = m.total_reset_ms + elapsed;
  last_reset_ms = elapsed;
}

-- `setStoreValueInternal`, where no request carrier stands before the registry.
abbrev pub set_store_value : String → ℕ → World → World
set_store_value name value w = record w {
  registry = record (w.registry) { stores = insert name value w.registry.stores };
}

abbrev pub set_meta : String → MetaEntry → World → World
set_meta name entry w = record w {
  registry = record (w.registry) { meta_entries = insert name entry w.registry.meta_entries };
}

-- `notifyStore`: the part of `notify` that a transaction saves.
abbrev pub notify_store : String → World → World
notify_store name w = record w {
  registry = record (w.registry) {
    pending_notifications = add name w.registry.pending_notifications;
  };
}

pub resolve_hydration_source : CommitAction → Option WriteContext → HydrationSource
resolve_hydration_source hydrates none = hydrate
resolve_hydration_source _ none = effect
resolve_hydration_source hydrates (some c) = or_else c.source_hint hydrate
resolve_hydration_source _ (some c) = or_else c.source_hint effect

-- `resolvedContext.correlationId || resolvedContext.traceContext`
abbrev is_traced : Option WriteContext → Bool
is_traced none = false
is_traced (some c) = if is_some c.correlation_id then true else is_some c.trace_context

abbrev correlated : Option WriteContext → ℕ → ℕ → MetaSnapshot → MetaSnapshot
correlated none at at_ms m = m
correlated (some c) at at_ms m = record m {
  last_correlation_id = c.correlation_id;
  last_correlation_at = some at;
  last_correlation_at_ms = some at_ms;
  last_trace_context = c.trace_context;
}

abbrev uncorrelated : MetaSnapshot → MetaSnapshot
uncorrelated m = record m {
  last_correlation_id = none;
  last_correlation_at = none;
  last_correlation_at_ms = none;
  last_trace_context = none;
}

module _ (host : Host) where
  pub resolve_write_context : Option WriteContext → Option WriteContext
  resolve_write_context none = host.write_context
  resolve_write_context (some c) = some c

  -- The metadata of a write, before its hooks.
  pub touch_entry : CommitArgs → MetaEntry → MetaEntry
  touch_entry args entry =
      let at_ms = host.clock args in
      let context = resolve_write_context args.context in
      let m = record (entry.saved) { updated_at = host.iso at_ms; updated_at_ms = at_ms } in
      let traced =
        if is_traced context then correlated context (host.iso at_ms) at_ms m else uncorrelated m in
      record entry {
        saved = record traced {
          update_count = bump_update_count traced.update_count;
          metrics = apply_metrics_update args.reset_elapsed_ms traced.metrics;
        };
      }

  -- A read of the options of a store whose metadata is gone throws.
  abbrev pub run_store_hook :
      CommitArgs → Option MetaEntry → World → World × Option TransactionError
  run_store_hook args none w = (w, some (raised host.type_error))
  run_store_hook args (some entry) w =
      (notify_store args.name (host.store_hook entry.options args w), none)

  abbrev pub commit_meta : CommitArgs → Option MetaEntry → World → World × Option TransactionError
  commit_meta args none w = (w, some (raised host.type_error))
  commit_meta args (some entry) w =
      let hooked = host.feature_write_hooks args (set_meta args.name (touch_entry args entry) w) in
      run_store_hook args (lookup args.name hooked.registry.meta_entries) hooked

  pub commit_store_update : CommitArgs → World → World × Option TransactionError
  commit_store_update args w =
      let written = set_store_value args.name args.next w in
      commit_meta args (lookup args.name written.registry.meta_entries) written

  -- The handler of an invalidation, after a commit that has not thrown.
  pub after_update :
      String
      → Option (ℕ × HydrationSource)
      → World × Option TransactionError
      → World × Option TransactionError
  after_update name none r = r
  after_update name (some (live, source)) (w, none) =
      (host.invalidation_handler name live source w, none)
  after_update name (some (live, source)) (w, some e) = (w, some e)

  -- `setStoreValueInternal`, `initialStates[name] = deepClone(value)`, `delete initialFactories[name]`
  pub commit_initial : String → ℕ → World → World
  commit_initial name value w = record w {
    registry = record (w.registry) {
      stores = insert name value w.registry.stores;
      initial_states = insert name (host.deep_clone value) w.registry.initial_states;
      initial_factories = erase name w.registry.initial_factories;
    };
  }

  pub run_closure : Closure → World → World × Option TransactionError
  run_closure (updates args invalidation) w =
      after_update args.name invalidation (commit_store_update args w)
  run_closure (materializes name value) w = (commit_initial name value w, none)

  -- What the commits of a transaction do.
  pub run_closures : List Closure → Run
  run_closures closures fn w = elim (nth fn closures) [
    | none ↦ (w, none)
    | some c ↦ run_closure c w
  ]

  -- `registerTransactionCommit` of a new closure.
  abbrev pub register_closure : Closure → Runtime → Runtime
  register_closure c rt = record rt {
    world = record (rt.world) {
      transaction = register_transaction_commit (length rt.closures) rt.world.transaction;
    };
    closures = rt.closures ++ c ∷ [];
  }

  abbrev pub set_last_patches : List ℕ → World → World
  set_last_patches patches w =
      if is_nil patches
      then w
      else record w { registry = record (w.registry) { last_runtime_patches = patches } }

  -- Outside of development an event has no live value, and the handler is given the next value.
  abbrev pub invalidation_of :
      ℕ → HydrationSource → HydrationReconcileResult ℕ → Option (ℕ × HydrationSource)
  invalidation_of live source r = if r.invalidated then some (live, source) else none

  -- The patches that are kept if reconciliation has left the value alone.
  pub resolve_patches : CommitArgs → Option WriteContext → ℕ → List ℕ
  resolve_patches args context next =
      if is_nil args.runtime_patches
      then args.runtime_patches
      else if next == args.next
      then args.runtime_patches
      else host.root_patch args.action args.name next context ∷ []

  pub stage_update : CommitArgs → Option (ℕ × HydrationSource) → Runtime → Runtime
  stage_update args invalidation rt = register_closure (updates args invalidation) (record rt {
    world = record (rt.world) {
      transaction =
          stage_transaction_patches args.runtime_patches
            (stage_transaction_value args.name args.next rt.world.transaction);
    };
  })

  abbrev pub kept : List ℕ → World × Option TransactionError → World × Option TransactionError
  kept patches (w, none) = (set_last_patches patches w, none)
  kept patches (w, some e) = (w, some e)

  -- The patches are stored before the handler of an invalidation runs.
  pub commit_now :
      CommitArgs → Option (ℕ × HydrationSource) → Runtime → Runtime × Option TransactionError
  commit_now args invalidation rt =
      let done = commit_store_update args rt.world in
      let r = after_update args.name invalidation (kept args.runtime_patches done) in
      (record rt { world = r.0 }, r.1)

  pub stage_or_commit_update :
      CommitArgs → Normalize ℕ → Runtime → Runtime × Option TransactionError
  stage_or_commit_update args normalize rt =
      let context = resolve_write_context args.context in
      let source = resolve_hydration_source args.action context in
      let reconciled =
        reconcile_hydration_value host.hash_state host.merge_hydration_values args.name args.next
          source normalize host.now rt.hydration in
      let next = reconciled.1.value in
      let args' = record args {
        next = next;
        context = context;
        runtime_patches = resolve_patches args context next;
      } in
      let invalidation = invalidation_of next source reconciled.1 in
      let rt' = record rt { hydration = reconciled.0 } in
      if is_transaction_active rt'.world.transaction
      then (stage_update args' invalidation rt', none)
      else commit_now args' invalidation rt'
