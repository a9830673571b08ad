-- ===== src/Writes/Accepted.antt =====
-- What stands in the stores after a `setStore` outside of a batch has passed its store's validator
-- (src/core/store-set-impl.ts, src/core/store-lifecycle/validation.ts,
-- src/core/hydration-consistency/reconcile.ts).
pub mod Rule
use stroid.Base.{
  Option-cases, ℕ, String, Bool, true, false, not, Option, none, some, List, ◌≡◌, refl, sym, ap,
  ◌∙◌, ◌⊎◌, inl, inr, if-both, arith, Bool-cases, ◌===◌, ===_iff, ◌==◌, subst, if◌then◌else◌,
  or_else, ◌&&◌,
}
use stroid.Base.Dict.{lookup, has_key}
use stroid.Transaction.{TransactionError, is_transaction_active}
use stroid.Hydration.State.{HydrationStoreState, effect}
use stroid.Hydration.Queue.{should_queue_hydration_write}
use stroid.Hydration.Reconcile.Origin.{IsFrom, reconcile_origin}
use stroid.Writes.{
  WriteContext, CommitArgs, sets, StoreOptions, Update, Validate, checker, schema, Checked, accepts,
  rejects, gives, throws, Host, Runtime, deferred_set, resolve_write_context,
  resolve_hydration_source, stage_or_commit_update,
}
use stroid.Writes.Pipeline.{
  options_of, normalize_committed_state, get_store_value_ref, sanitize_value, checked, parsed,
  run_validation, materialize_initial, run_factory, is_staged, is_defined,
}
use stroid.Writes.Set.{
  PatchIntent, Draft, drafted, refused, Prepared, ready, rejected, validate, error_for, fail_tx,
  WriteReason, WriteResult, ok, failed, not_found, written, same_value, after_validation,
  after_middleware, prepare_drafted, prepare_draft, prepare_set, draft_update, finish_set,
  write_set, set_found, set_store, source_hint_of, defer,
}
use stroid.Writes.Atomic.{IsQuiet}
use stroid.Writes.Accepted.Rule.{IsAccepted, normalized-IsAccepted}
use stroid.Writes.Effect.{reconciled_value, write_reaches_store}

-- A prepared write holds a value that `rule` accepts.
record Accepts (host : Host) (rule : Option Validate) (p : Prepared) : Type 0 where
  pub accepted : (c : ℕ) (patches : List ℕ) → p ≡ ready c patches → IsAccepted host rule c

module _ (host : Host) where
  rejected-Accepts :
      (rule : Option Validate) (reason : WriteReason) (e : TransactionError)
      → Accepts host rule (rejected reason e)
  rejected-Accepts rule reason e = record { accepted = λ c patches h. ground (arith, h) }

  after_validation-Accepts :
      (name : String) (rule : Option Validate) (context : Option WriteContext) (updated : ℕ)
      (intent : PatchIntent) (reuse : Bool) (next : ℕ) (o : Option ℕ)
      → normalize_committed_state host rule reuse next ≡ o
      → Accepts host rule (after_validation host name context updated intent next o)
  after_validation-Accepts name rule context updated intent reuse next none h =
      rejected-Accepts rule validate _
  after_validation-Accepts name rule context updated intent reuse next (some v) h = record {
    accepted =
        λ c patches e. normalized-IsAccepted host rule reuse next c (h ∙ ap some (ready-value e));
  }
    where
      ready-value : {a b : ℕ} {ps qs : List ℕ} → ready a ps ≡ ready b qs → a ≡ b
      ready-value e = ground (arith, e)

  after_middleware-Accepts :
      (name : String) (options : StoreOptions) (context : Option WriteContext) (updated : ℕ)
      (intent : PatchIntent) (o : Option ℕ)
      → Accepts host options.validate (after_middleware host name options context updated intent o)
  after_middleware-Accepts name options context updated intent none =
      rejected-Accepts options.validate _ _
  after_middleware-Accepts name options context updated intent (some next) =
      after_validation-Accepts name options.validate context updated intent (next == updated) next _
        refl

  prepare_draft-Accepts :
      (name : String) (options : StoreOptions) (context : Option WriteContext) (prev : ℕ)
      (d : Draft)
      → Accepts host options.validate (prepare_draft host name options context prev d)
  unfolding prepare_drafted
  prepare_draft-Accepts name options context prev (refused reason e) =
      rejected-Accepts options.validate reason e
  prepare_draft-Accepts name options context prev (drafted updated intent) =
      if-both (Accepts host options.validate) (not (host.is_valid_data updated)) _
        (after_middleware host name options context updated intent _)
        (rejected-Accepts options.validate validate (error_for host "produced invalid data"))
        (after_middleware-Accepts name options context updated intent _)

  prepare_set-Accepts :
      (name : String) (options : StoreOptions) (context : Option WriteContext) (prev : ℕ)
      (update : Update)
      → Accepts host options.validate (prepare_set host name options context prev update)
  unfolding prepare_set
  prepare_set-Accepts name options context prev update =
      prepare_draft-Accepts name options context prev (draft_update host name prev update)

-- A value of the store `j` that a `setStore` of `name` may leave, if `m` is the state it starts from.
abbrev pub MayHold : Host → String → Runtime → String → ℕ → Type 0
MayHold host name m j v =
    (lookup j m.world.registry.stores ≡ some v)
    ⊎ ((name ≡ j)
        × (IsAccepted host (options_of host name m.world).validate v
            ⊎ ((e : HydrationStoreState ℕ) × ((lookup name m.hydration.stores ≡ some e)
                  × (v ≡ e.baseline)))))

record Holds (host : Host) (name : String) (m : Runtime) (p : Runtime × WriteResult) : Type 0 where
  pub holds :
      (j : String) (v : ℕ) → lookup j p.0.world.registry.stores ≡ some v → MayHold host name m j v

module _ (host : Host) (q : IsQuiet host) where
  unchanged-Holds :
      (name : String) (m m' : Runtime) (result : WriteResult)
      → m'.world.registry.stores ≡ m.world.registry.stores
      → Holds host name m (m', result)
  unchanged-Holds name m m' result same = record {
    holds = λ j v h. inl (ap (lookup j) (sym same) ∙ h);
  }

  fail_tx-Holds :
      (name : String) (m : Runtime) (e : TransactionError) (result : WriteResult)
      → Holds host name m (fail_tx e m, result)
  unfolding fail_tx
  fail_tx-Holds name m e result = unchanged-Holds name m _ result (
      if-both (λ x. x.world.registry.stores ≡ m.world.registry.stores)
        (is_transaction_active m.world.transaction) _ m refl refl)

  written-world : (p : Runtime × Option TransactionError) → (written p).0 ≡ p.0
  written-world (rt, none) = refl
  written-world (rt, some e) = refl

  -- Where a reconciled value comes from.
  reconciled-MayHold :
      (m : Runtime) (args : CommitArgs) (j : String) (v : ℕ)
      → args.name ≡ j
      → IsAccepted host (options_of host args.name m.world).validate args.next
      → IsFrom
          (normalize_committed_state host (options_of host args.name m.world).validate false)
          args.next
          (lookup args.name m.hydration.stores)
          v
      → MayHold host args.name m j v
  reconciled-MayHold m args j v same a (inl e) =
      inr
        (same, inl (subst (IsAccepted host (options_of host args.name m.world).validate) (sym e) a))
  reconciled-MayHold m args j v same a (inr (inl baseline)) = inr (same, inr baseline)
  reconciled-MayHold m args j v same a (inr (inr (c, h))) = inr (
    same,
    inl (normalized-IsAccepted host (options_of host args.name m.world).validate false c v h),
  )

  commit-Holds :
      (m : Runtime) (args : CommitArgs)
      → IsAccepted host (options_of host args.name m.world).validate args.next
      → is_transaction_active m.world.transaction ≡ false
      → Holds host args.name m (
          written (
            stage_or_commit_update host args
              (some
                (normalize_committed_state host (options_of host args.name m.world).validate false))
              m))
  commit-Holds m args a closed = record {
    holds = λ j v h.
        let rule = (options_of host args.name m.world).validate in
        let normalize = normalize_committed_state host rule false in
        let call = stage_or_commit_update host args (some normalize) m in
        let value = reconciled_value host args (some normalize) m in
        let reads =
          sym (write_reaches_store host q args (some normalize) m j closed)
          ∙ ap (λ x. lookup j x.world.registry.stores) (sym (written-world call))
          ∙ h in
        let from =
          reconcile_origin host.hash_state host.merge_hydration_values normalize args.name args.next
            (resolve_hydration_source args.action (resolve_write_context host args.context))
            host.now m.hydration in
        elim (Bool-cases (args.name === j)) [
          | inl y ↦
              let same : value ≡ v = ground (arith, y, reads) in
              reconciled-MayHold m args j v ((===_iff args.name j).0 y) a
                (subst (IsFrom normalize args.next (lookup args.name m.hydration.stores)) same from)
          | inr n ↦ inl (ground (arith, n, reads))
        ];
  }

  finish_set-Holds :
      (name : String) (context : Option WriteContext) (prev : ℕ) (p : Prepared) (m : Runtime)
      → Accepts host (options_of host name m.world).validate p
      → is_transaction_active m.world.transaction ≡ false
      → Holds host name m (finish_set host name (options_of host name m.world) context prev p m)
  unfolding finish_set
  finish_set-Holds name context prev (rejected reason e) m a closed =
      fail_tx-Holds name m e (failed reason)
  finish_set-Holds name context prev (ready committed patches) m a closed =
      if-both (Holds host name m) (same_value host prev committed) (m, ok) _
        (unchanged-Holds name m m ok refl)
        (commit-Holds m
          (record {
            name = name;
            prev = prev;
            next = committed;
            action = sets;
            context = context;
            runtime_patches = patches;
            reset_elapsed_ms = none;
          })
          (a.accepted committed patches refl) closed)

  set_found-Holds :
      (name : String) (update : Update) (context : Option WriteContext) (bypass : Bool)
      (m : Runtime)
      → is_transaction_active m.world.transaction ≡ false
      → Holds host name m (set_found host name update context bypass m)
  unfolding write_set defer
  set_found-Holds name update context bypass m closed =
      let options = options_of host name m.world in
      let prev = or_else (get_store_value_ref name m.world) host.undefined in
      let ctx = resolve_write_context host context in
      if-both (Holds host name m) (not (has_key name m.world.registry.stores)) _ _
        (fail_tx-Holds name m (error_for host "called before createStore()") (failed not_found))
        (if-both (Holds host name m)
          (not bypass
            && should_queue_hydration_write name (source_hint_of effect context) m.hydration)
          (defer host name (source_hint_of effect context) (deferred_set name update context) m, ok)
          _ (unchanged-Holds name m _ ok refl)
          (finish_set-Holds name ctx prev (prepare_set host name options ctx prev update) m
            (prepare_set-Accepts host name options ctx prev update) closed))

  ready_store :
      (name : String) (m : Runtime)
      → lookup name m.world.registry.initial_factories ≡ none
      → materialize_initial host name m ≡ (m, true)
  unfolding materialize_initial
  ready_store name m h =
      if-both (λ p. p ≡ (m, true)) (is_staged name m.world) (m, true) _ refl
        (if-both (λ p. p ≡ (m, true)) (is_defined host (lookup name m.world.registry.stores))
          (m, true) _ refl (ap (λ o. run_factory host name o m) h))

  -- Outside of a batch, a value that a store holds after a `setStore` was there before, or it is in the
  -- store that is set and its validator has accepted it, sanitized, or given it in the place of a
  -- sanitized value, or it is the baseline that the store was hydrated with. The store that
  -- is set waits for no factory, and the hooks of writes do not set stores.
  pub set_store_holds_accepted :
      (name : String) (update : Update) (context : Option WriteContext) (bypass : Bool)
      (m : Runtime) (j : String) (v : ℕ)
      → is_transaction_active m.world.transaction ≡ false
      → lookup name m.world.registry.initial_factories ≡ none
      → lookup j (set_store host name update context bypass m).0.world.registry.stores ≡ some v
      → MayHold host name m j v
  unfolding set_store
  set_store_holds_accepted name update context bypass m j v closed f h =
      (subst
          (λ i.
            Holds host name m (
              if i.1
              then set_found host name update context bypass i.0
              else (i.0, failed validate)))
          (sym (ready_store name m f)) (set_found-Holds name update context bypass m closed)).holds
        j v h
