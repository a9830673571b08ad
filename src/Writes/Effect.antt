-- ===== src/Writes/Effect.antt =====
-- What a write outside of a batch does to the values of the stores
-- (src/core/store-write-shared.ts, src/core/store-set-impl.ts).
use stroid.Base.{
  ℕ, String, false, Option, none, some, List, ◌≡◌, refl, ap, ◌∙◌, if◌then◌else◌, if-false, if-both,
  ◌===◌, is_nil,
}
use stroid.Base.Dict.{lookup, insert, lookup-insert}
use stroid.Transaction.{World, TransactionError, is_transaction_active}
use stroid.Hydration.State.{HydrationSource}
use stroid.Hydration.Reconcile.{Normalize, reconcile_hydration_value}
use stroid.Writes.{
  CommitArgs, Host, Runtime, resolve_hydration_source, resolve_write_context, commit_store_update,
  commit_now, kept, stage_or_commit_update,
}
use stroid.Writes.Atomic.{IsQuiet, commit-stores, after_update-stores}

-- The value that a write commits: the given one, reconciled with the store's hydration baseline.
abbrev pub reconciled_value : Host → CommitArgs → Normalize ℕ → Runtime → ℕ
reconciled_value host args normalize rt =
    (reconcile_hydration_value host.hash_state host.merge_hydration_values args.name args.next
      (resolve_hydration_source args.action (resolve_write_context host args.context)) normalize
      host.now rt.hydration).1.value

module _ (host : Host) (q : IsQuiet host) where
  keep_patches-stores :
      (patches : List ℕ) (p : World × Option TransactionError)
      → (kept host patches p).0.registry.stores ≡ p.0.registry.stores
  keep_patches-stores patches (w, none) =
      if-both (λ x. x.registry.stores ≡ w.registry.stores) (is_nil patches) w _ refl refl
  keep_patches-stores patches (w, some e) = refl

  commit_now-stores :
      (args : CommitArgs) (invalidation : Option (ℕ × HydrationSource)) (rt : Runtime)
      → (commit_now host args invalidation rt).0.world.registry.stores
        ≡ insert args.name args.next rt.world.registry.stores
  unfolding commit_now
  commit_now-stores args invalidation rt =
      after_update-stores host q args.name invalidation _
      ∙ keep_patches-stores args.runtime_patches (commit_store_update host args rt.world)
      ∙ commit-stores host q args rt.world

  -- A write that is committed outside of a batch leaves under the store's name the value reconciled with
  -- its hydration baseline, and every other store as it was. The hooks of writes do not set stores.
  pub write_reaches_store :
      (args : CommitArgs) (normalize : Normalize ℕ) (rt : Runtime) (j : String)
      → is_transaction_active rt.world.transaction ≡ false
      → lookup j (stage_or_commit_update host args normalize rt).0.world.registry.stores ≡ (
          if args.name === j
          then some (reconciled_value host args normalize rt)
          else lookup j rt.world.registry.stores)
  unfolding stage_or_commit_update
  write_reaches_store args normalize rt j closed =
      if-false
        (λ (p : Runtime × Option TransactionError). lookup j p.0.world.registry.stores ≡ (
          if args.name === j
          then some (reconciled_value host args normalize rt)
          else lookup j rt.world.registry.stores))
        (is_transaction_active rt.world.transaction) _ _ closed
        (ap (lookup j) (commit_now-stores _ _ _)
          ∙ lookup-insert j args.name (reconciled_value host args normalize rt)
              rt.world.registry.stores)
