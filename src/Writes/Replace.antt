-- ===== src/Writes/Replace.antt =====
-- `replaceStoreState` and `replaceStore` (src/core/store-replace-impl.ts) and `resetStoreInternal`
-- (src/core/store-admin-impl.ts). No store is being deleted during the call, and the name is
-- qualified.
use stroid.Base.{
  ℕ, String, Bool, true, false, not, ◌&&◌, Option, none, some, [], ◌∷◌, if◌then◌else◌, or_else,
  is_some, ◌==◌,
}
use stroid.Base.Dict.{lookup, has_key}
use stroid.Hydration.State.{HydrationSource, effect, hydrate}
use stroid.Hydration.Queue.{should_queue_hydration_write}
use stroid.Writes.{
  WriteContext, CommitAction, resets, hydrates, replaces, ResetClone, deep, shallow, no_clone,
  deferred_replace, deferred_reset, StoreOptions, Host, Runtime, resolve_write_context,
  stage_or_commit_update,
}
use stroid.Writes.Pipeline.{
  options_of, sanitize_value, normalize_committed_state, run_middleware_for_store,
  get_store_value_ref, materialize_initial,
}
use stroid.Writes.Set.{
  validate, not_found, middleware, sanitize, undefined_value, lazy_uninitialized, no_initial_state,
  WriteResult, ok, failed, Prepared, ready, rejected, fail_tx, written, defer, error_for,
  source_hint_of,
}

abbrev is_hydrate : CommitAction → Bool
is_hydrate hydrates = true
is_hydrate _ = false

-- The source of a write whose context names none.
abbrev pub default_source : CommitAction → HydrationSource
default_source hydrates = hydrate
default_source _ = effect

module _ (host : Host) where
  pub prepare_replace :
      String → CommitAction → StoreOptions → Option WriteContext → ℕ → ℕ → Prepared
  prepare_replace name action options context prev data_ref =
      elim (sanitize_value host false data_ref) [
        | none ↦ rejected sanitize (error_for host "failed sanitize")
        | some next ↦
            if next == host.undefined
            then rejected undefined_value (error_for host "undefined replacement is blocked")
            else elim (run_middleware_for_store host options (record {
              action = action;
              name = name;
              prev = prev;
              next = next;
              context = context;
            })) [
              | none ↦ rejected middleware (error_for host "aborted by middleware")
              | some final ↦ elim (normalize_committed_state host options.validate false final) [
                | none ↦ rejected validate (error_for host "failed validation")
                | some committed ↦
                    ready committed (host.root_patch action name committed context ∷ [])
              ]
            ]
      ]

  unfoldable pub finish_replace :
      String
      → CommitAction
      → StoreOptions
      → Option WriteContext
      → ℕ
      → Prepared
      → Runtime
      → Runtime × WriteResult
  finish_replace name action options context prev (rejected reason e) rt =
      (fail_tx e rt, failed reason)
  finish_replace name action options context prev (ready committed patches) rt = written (
      stage_or_commit_update host
        (record {
          name = name;
          prev = prev;
          next = committed;
          action = action;
          context = context;
          runtime_patches = patches;
          reset_elapsed_ms = none;
        })
        (some (normalize_committed_state host options.validate false)) rt)

  unfoldable pub write_replace :
      String → ℕ → CommitAction → Option WriteContext → Runtime → Runtime × WriteResult
  write_replace name value action context rt =
      let prev = or_else (get_store_value_ref name rt.world) host.undefined in
      let options = options_of host name rt.world in
      let ctx = resolve_write_context host context in
      finish_replace name action options ctx prev
        (prepare_replace name action options ctx prev value) rt

  -- A write that is no hydration waits in the queue while the boot window defers its source.
  abbrev pub defers_replace : String → CommitAction → Option WriteContext → Bool → Runtime → Bool
  defers_replace name action context bypass rt =
      not (is_hydrate action)
      && (not bypass
          && should_queue_hydration_write name (source_hint_of (default_source action) context)
              rt.hydration)

  unfoldable pub replace_store_state :
      String → ℕ → CommitAction → Option WriteContext → Bool → Runtime → Runtime × WriteResult
  replace_store_state name value action context bypass rt =
      let source = source_hint_of (default_source action) context in
      if not (has_key name rt.world.registry.stores)
      then (fail_tx (error_for host "called before createStore()") rt, failed not_found)
      else if not (is_hydrate action)
          && (not bypass && should_queue_hydration_write name source rt.hydration)
      then (defer host name source (deferred_replace name value action context) rt, ok)
      else write_replace name value action context rt

  -- The reasons that `replaceStore` passes on.
  abbrev public_reason : WriteResult → WriteResult
  public_reason (failed not_found) = failed not_found
  public_reason (failed middleware) = failed middleware
  public_reason (failed _) = failed validate
  public_reason r = r

  pub replace_store : String → ℕ → Runtime → Runtime × WriteResult
  replace_store name value rt =
      let done = replace_store_state name value replaces none false rt in
      (done.0, public_reason done.1)

  abbrev pub clone_reset_value : ResetClone → ℕ → ℕ
  clone_reset_value deep v = host.deep_clone v
  clone_reset_value shallow v = if host.is_object v then host.shallow_clone v else v
  clone_reset_value no_clone v = v

  -- The write of an initial state; it took `elapsed` milliseconds to clone.
  unfoldable pub write_reset : String → ℕ → ℕ → Runtime → Runtime × WriteResult
  write_reset name initial elapsed rt =
      let value = clone_reset_value (options_of host name rt.world).reset_clone initial in
      written (
        stage_or_commit_update host
          (record {
            name = name;
            prev = or_else (get_store_value_ref name rt.world) host.undefined;
            next = value;
            action = resets;
            context = none;
            runtime_patches = host.root_patch resets name value none ∷ [];
            reset_elapsed_ms = some elapsed;
          })
          (some some) rt)

  abbrev pub reset_to : String → ℕ → Option ℕ → Runtime → Runtime × WriteResult
  reset_to name elapsed none rt =
      (fail_tx (error_for host "has no initial state") rt, failed no_initial_state)
  reset_to name elapsed (some initial) rt = write_reset name initial elapsed rt

  abbrev pub reset_ready : String → ℕ → Runtime → Runtime × WriteResult
  reset_ready name elapsed rt =
      reset_to name elapsed (lookup name rt.world.registry.initial_states) rt

  -- A reset of a store that is not there, or whose factory fails, does not fail the transaction.
  unfoldable pub reset_store : String → ℕ → Bool → Runtime → Runtime × WriteResult
  reset_store name elapsed bypass rt =
      if not (has_key name rt.world.registry.stores)
      then (rt, failed not_found)
      else if not bypass && should_queue_hydration_write name effect rt.hydration
      then (defer host name effect (deferred_reset name) rt, ok)
      else if (options_of host name rt.world).lazy
          && is_some (lookup name rt.world.registry.initial_factories)
      then (fail_tx (error_for host "cannot run on a lazy store") rt, failed lazy_uninitialized)
      else let initial = materialize_initial host name rt in
        if initial.1 then reset_ready name elapsed initial.0 else (initial.0, failed validate)
