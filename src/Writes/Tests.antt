-- ===== src/Writes/Tests.antt =====
-- Two stores, of which one has a validator that rejects odd values.
use stroid.Base.{
  ℕ, true, false, none, some, List, [], ◌∷◌, ◌≡◌, ◌≢◌, refl, ◌%◌, ◌+◌, ◌==◌, if◌then◌else◌, ◌===◌,
}
use stroid.Base.Dict.{lookup}
use stroid.Transaction.{
  MetaEntry, raised, begin_transaction, end_transaction, mark_transaction_failed,
  is_transaction_active, register_transaction_commit, stage_transaction_value,
  stage_transaction_patches, get_staged_transaction_value, run_commits, settle,
  capture_transaction_rollback_snapshot, snapshot_meta,
}
use stroid.Transaction.Restore.{IsRestored}
use stroid.Hydration.State.{HydrationRuntimeState}
use stroid.Writes.{
  StoreOptions, checker, accepts, rejects, deep, Host, Runtime, object, CommitArgs, sets,
  stage_or_commit_update, Update, resolve_write_context, resolve_hydration_source, resolve_patches,
  stage_update, run_closures, run_closure, commit_store_update, touch_entry, bump_update_count,
  apply_metrics_update, after_update, commit_now,
}
use stroid.Writes.Pipeline.{
  get_store_value_ref, materialize_initial, options_of, sanitize_value, normalize_committed_state,
  run_validation, run_middleware_for_store, run_middleware,
}
use stroid.Hydration.Queue.{should_queue_hydration_write}
use stroid.Hydration.Reconcile.{reconcile_hydration_value}
use stroid.Writes.Set.{
  set_store, write_set, finish_set, prepare_set, prepare_drafted, draft_update, canonical_patches,
  fail_tx, validate, failed,
}
use stroid.Writes.Atomic.{
  IsQuiet, Call, calls_set, do_calls, do_call, open_batch, set_store_batch, batch_commits_reads,
  batch_fails-IsRestored,
}
use stroid.Writes.Abort.{failed_write_aborts_batch}
use stroid.Writes.Accepted.{MayHold, set_store_holds_accepted}
use stroid.Writes.Effect.{reconciled_value, write_reaches_store}

-- Value 0 is undefined; merging adds the references.
abbrev even : StoreOptions
even = record {
  validate = some (checker (λ v. if v % 2 == 0 then accepts else rejects));
  middleware = [];
  lazy = false;
  reset_clone = deep;
}

abbrev host : Host
host = record {
  options = λ n. even;
  global_middleware = [];
  strict_mutator_returns = false;
  undefined = 0;
  sanitize = λ v. some v;
  can_reuse_sanitized = λ v. true;
  deep_clone = λ v. v;
  shallow_clone = λ v. v;
  is_valid_data = λ v. true;
  is_plain_object = λ v. true;
  is_object = λ v. true;
  assign = λ a b. a + b;
  validate_path_safety = λ name prev parts v. true;
  set_by_path = λ prev parts v. v;
  shallow_equal = λ a b. a == b;
  factory = λ n. none;
  root_patch = λ action name v context. v;
  merge_patch = λ name v context. v;
  path_patch = λ name parts v context. v;
  hash_state = λ v. v;
  merge_hydration_values = λ a b. b;
  write_context = none;
  now = 5;
  clock = λ args. 6;
  iso = λ t. t;
  message = λ text. 1;
  type_error = 2;
  feature_write_hooks = λ args w. w;
  store_hook = λ options args w. w;
  invalidation_handler = λ name live source w. w;
}

host-IsQuiet : IsQuiet host
host-IsQuiet = record {
  feature_hooks = λ args w. refl;
  store_hook = λ options args w. refl;
  handler = λ name live source w. refl;
}

abbrev meta_entry : MetaEntry
meta_entry = record {
  saved = record {
    updated_at = 0;
    updated_at_ms = 0;
    update_count = 0;
    last_correlation_id = none;
    last_correlation_at = none;
    last_correlation_at_ms = none;
    last_trace_context = none;
    metrics = record {
      notify_count = 0;
      total_notify_ms = 0;
      last_notify_ms = 0;
      reset_count = 0;
      total_reset_ms = 0;
      last_reset_ms = 0;
    };
  };
  options = 1;
}

abbrev hydration : HydrationRuntimeState ℕ
hydration = record {
  stores = [];
  events = [];
  metrics = record {
    drift_events = 0;
    queued_writes = 0;
    replayed_writes = 0;
    reconciliations = 0;
    invalidations = 0;
  };
  queue = [];
  max_events = 10;
  defer_sources = [];
  boot_window_active = false;
  boot_window_ends_at_ms = none;
  replaying = false;
  sequence = 0;
}

abbrev runtime : Runtime
runtime = record {
  world = record {
    registry = record {
      stores = ("users", 2) ∷ ("posts", 4) ∷ [];
      initial_states = [];
      initial_factories = [];
      meta_entries = ("users", meta_entry) ∷ ("posts", meta_entry) ∷ [];
      pending_notifications = [];
      last_runtime_patches = [];
    };
    transaction = record {
      depth = 0;
      pending = [];
      staged_values = [];
      snapshot_cache = [];
      runtime_patches = [];
      failed = false;
      error = none;
    };
  };
  hydration = hydration;
  closures = [];
  deferred = [];
}

-- The second merge adds to what the first has staged.
abbrev merges : List Call
merges = calls_set "users" (object 4) none ∷ calls_set "users" (object 6) none ∷ []

-- The first merge is fine, the second one leaves an odd value.
abbrev odd_merge : Update
odd_merge = object 3

abbrev rejected_merges : List Call
rejected_merges = calls_set "users" (object 4) none ∷ calls_set "users" odd_merge none ∷ []

-- What the calls below return: two merges leave 2 + 4 + 6, an odd value is rejected.
record SampleRuns : Type 0 where
  pub batch_succeeds : (set_store_batch host merges none runtime).1 ≡ none
  pub batch_value :
      lookup "users" (set_store_batch host merges none runtime).0.world.registry.stores ≡ some 12
  pub batch_error : (set_store_batch host rejected_merges none runtime).1 ≡ some (raised 1)
  pub merge_materialized :
      (materialize_initial host "users"
        (do_calls host (calls_set "users" (object 4) none ∷ []) (open_batch host runtime))).1
      ≡ true
  pub merge_rejected :
      (set_store host "users" odd_merge none false
        (do_calls host (calls_set "users" (object 4) none ∷ []) (open_batch host runtime))).1
      ≡ failed validate
  pub set_value :
      lookup "users" (set_store host "users" (object 4) none false runtime).0.world.registry.stores
      ≡ some 6
  pub set_rejected : (set_store host "users" odd_merge none false runtime).1 ≡ failed validate

sample_runs : SampleRuns
unfolding set_store_batch do_calls do_call set_store materialize_initial write_set finish_set
    prepare_set prepare_drafted draft_update canonical_patches get_store_value_ref options_of
    sanitize_value normalize_committed_state run_validation run_middleware_for_store run_middleware
    should_queue_hydration_write stage_or_commit_update resolve_write_context
    resolve_hydration_source reconcile_hydration_value resolve_patches stage_update run_closures
    run_closure commit_store_update touch_entry bump_update_count apply_metrics_update after_update
    is_transaction_active begin_transaction end_transaction mark_transaction_failed
    register_transaction_commit stage_transaction_value stage_transaction_patches
    get_staged_transaction_value run_commits settle capture_transaction_rollback_snapshot
    snapshot_meta fail_tx commit_now
sample_runs = record {
  batch_succeeds = refl;
  batch_value = refl;
  batch_error = refl;
  merge_materialized = refl;
  merge_rejected = refl;
  set_value = refl;
  set_rejected = refl;
}

batch_commits_reads_example :
    lookup "users" (set_store_batch host merges none runtime).0.world.registry.stores
    ≡ get_store_value_ref "users" (do_calls host merges (open_batch host runtime)).world
batch_commits_reads_example =
    batch_commits_reads host host-IsQuiet merges runtime "users" refl sample_runs.batch_succeeds

batch_fails-IsRestored_example :
    IsRestored runtime.world.registry
      (set_store_batch host rejected_merges none runtime).0.world.registry
batch_fails-IsRestored_example =
    batch_fails-IsRestored host rejected_merges none runtime (raised 1) (refl, (refl, tt))
      (refl, (refl, tt)) refl sample_runs.batch_error

failed_write_aborts_batch_example :
    ((set_store_batch host rejected_merges none runtime).1 ≢ none)
    × ((set_store_batch host rejected_merges none runtime).0.world.registry
        ≡ runtime.world.registry)
failed_write_aborts_batch_example =
    failed_write_aborts_batch host (calls_set "users" (object 4) none ∷ [])
      (calls_set "users" odd_merge none) [] runtime refl
      (sample_runs.merge_materialized, (validate, sample_runs.merge_rejected))

abbrev users_args : CommitArgs
users_args = record {
  name = "users";
  prev = 2;
  next = 8;
  action = sets;
  context = none;
  runtime_patches = 7 ∷ [];
  reset_elapsed_ms = none;
}

write_reaches_store_example :
    lookup "posts" (stage_or_commit_update host users_args none runtime).0.world.registry.stores
    ≡ (if "users" === "posts" then some (reconciled_value host users_args none runtime) else some 4)
unfolding is_transaction_active
write_reaches_store_example =
    write_reaches_store host host-IsQuiet users_args none runtime "posts" refl

set_store_holds_accepted_example : MayHold host "users" runtime "users" 6
unfolding is_transaction_active
set_store_holds_accepted_example =
    set_store_holds_accepted host host-IsQuiet "users" (object 4) none false runtime "users" 6 refl
      refl sample_runs.set_value
