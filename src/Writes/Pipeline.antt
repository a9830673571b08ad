-- ===== src/Writes/Pipeline.antt =====
-- What a written value goes through before it is committed: sanitizing and validation
-- (src/core/store-lifecycle/validation.ts), the middleware (`runMiddleware` of
-- src/features/lifecycle.ts, `runMiddlewareForStore` of src/core/store-lifecycle/hooks.ts), and lazy
-- initial values. The calls that report an error are left out. A lazy store has a factory, and its value is undefined until the
-- factory has run.
use stroid.Base.{
  ℕ, String, Bool, true, false, not, ◌&&◌, Option, none, some, List, [], ◌∷◌, ◌++◌, if◌then◌else◌,
  is_some, is_nil, ◌==◌,
}
use stroid.Base.Dict.{lookup}
use stroid.Transaction.{
  World, is_transaction_active, stage_transaction_value, get_staged_transaction_value,
}
use stroid.Writes.{
  Checked, accepts, rejects, gives, throws, Validate, checker, schema, MiddlewareContext,
  MiddlewareResult, passes, returns, fails, promises, Middleware, deep, StoreOptions, Host,
  materializes, Runtime, commit_initial, register_closure,
}

abbrev pub no_options : StoreOptions
no_options = record { validate = none; middleware = []; lazy = false; reset_clone = deep }

abbrev pub checked : Checked → ℕ → Option ℕ
checked accepts v = some v
checked rejects v = none
checked (gives r) v = some r
checked throws v = none

abbrev pub parsed : Option (Option ℕ) → ℕ → Option ℕ
parsed none v = none
parsed (some none) v = some v
parsed (some (some given)) v = some given

unfoldable pub run_validation : Option Validate → ℕ → Option ℕ
run_validation none v = some v
run_validation (some (checker f)) v = checked (f v) v
run_validation (some (schema f)) v = parsed (f v) v

-- `isTransactionActive() && getStagedTransactionValue(name).has`
abbrev pub is_staged : String → World → Bool
is_staged name w =
    is_transaction_active w.transaction && is_some (get_staged_transaction_value name w.transaction)

-- `getStoreValueRef`
unfoldable pub get_store_value_ref : String → World → Option ℕ
get_store_value_ref name w =
    if is_transaction_active w.transaction
      && is_some (get_staged_transaction_value name w.transaction)
    then get_staged_transaction_value name w.transaction
    else lookup name w.registry.stores

module _ (host : Host) where
  -- `registryMeta[name]?.options`
  unfoldable pub options_of : String → World → StoreOptions
  options_of name w = elim (lookup name w.registry.meta_entries) [
    | none ↦ no_options
    | some entry ↦ host.options entry.options
  ]

  unfoldable pub sanitize_value : Bool → ℕ → Option ℕ
  sanitize_value reuse_input v =
      if reuse_input && host.can_reuse_sanitized v then some v else host.sanitize v

  unfoldable pub normalize_committed_state : Option Validate → Bool → ℕ → Option ℕ
  normalize_committed_state validate reuse_input v = elim (sanitize_value reuse_input v) [
    | none ↦ none
    | some clean ↦ run_validation validate clean
  ]

  -- The value after a middleware, which passes when it returns undefined; none aborts the write.
  abbrev pub middleware_value : MiddlewareResult → ℕ → Option ℕ
  middleware_value passes next = some next
  middleware_value (returns v) next = some v
  middleware_value fails next = none
  middleware_value promises next = none

  pub run_chain : List Middleware → MiddlewareContext → ℕ → Option ℕ
  run_chain [] ctx next = some next
  run_chain (mw ∷ mws) ctx next = elim (middleware_value (mw (record ctx { next = next })) next) [
    | none ↦ none
    | some v ↦ run_chain mws ctx v
  ]

  unfoldable pub run_middleware : List Middleware → MiddlewareContext → Option ℕ
  run_middleware middlewares ctx =
      if is_nil middlewares
      then some ctx.next
      else run_chain middlewares ctx (host.deep_clone ctx.next)

  -- Those of the store first, then the global ones.
  unfoldable pub run_middleware_for_store : StoreOptions → MiddlewareContext → Option ℕ
  run_middleware_for_store options ctx =
      run_middleware (options.middleware ++ host.global_middleware) ctx

  -- `stores[name] !== undefined`
  abbrev pub is_defined : Option ℕ → Bool
  is_defined none = false
  is_defined (some v) = not (v == host.undefined)

  -- The value of a factory, sanitized twice and validated.
  pub initial_value : StoreOptions → ℕ → Option ℕ
  initial_value options factory = elim (host.factory factory) [
    | none ↦ none
    | some produced ↦ elim (sanitize_value false produced) [
      | none ↦ none
      | some clean ↦ normalize_committed_state options.validate false clean
    ]
  ]

  unfoldable pub store_initial : String → ℕ → Runtime → Runtime
  store_initial name value rt =
      if is_transaction_active rt.world.transaction
      then register_closure host (materializes name value) (record rt {
        world = record (rt.world) {
          transaction = stage_transaction_value name value rt.world.transaction;
        };
      })
      else record rt { world = commit_initial host name value rt.world }

  abbrev pub keep_initial : String → Option ℕ → Runtime → Runtime × Bool
  keep_initial name none rt = (rt, false)
  keep_initial name (some value) rt = (store_initial name value rt, true)

  abbrev pub run_factory : String → Option ℕ → Runtime → Runtime × Bool
  run_factory name none rt = (rt, true)
  run_factory name (some factory) rt =
      keep_initial name (initial_value (options_of name rt.world) factory) rt

  unfoldable pub materialize_initial : String → Runtime → Runtime × Bool
  materialize_initial name rt =
      if is_staged name rt.world
      then (rt, true)
      else if is_defined (lookup name rt.world.registry.stores)
      then (rt, true)
      else run_factory name (lookup name rt.world.registry.initial_factories) rt
