-- ===== src/Transaction/Tests.antt =====
-- A batch of two commits of which the second fails, and a batch that succeeds.
use stroid.Base.{ℕ, true, false, none, some, List, [], ◌∷◌, ◌==◌, if◌then◌else◌, ◌≡◌, refl, arith}
use stroid.Base.Dict.{insert}
use stroid.Transaction.{
  stage_transaction_value, World, raised, Run, end_transaction, cleared, begin_transaction,
  mark_transaction_failed, settle, run_commits,
}
use stroid.Transaction.Restore.{IsRestored}
use stroid.Transaction.Rollback.{end_transaction_rolls_back}
use stroid.Transaction.Nesting.{
  Step, begins, ends, fails, stages, take_steps, failure_aborts_all, run_all, closed,
  with_staged_patches, commits_run_in_order,
}

-- Commit 1 writes a store, commit 2 throws.
abbrev run : Run
run fn w =
    if fn == 1
    then (
      record w { registry = record (w.registry) { stores = insert "users" 9 w.registry.stores } },
      none,
    )
    else (w, some (raised 4))

abbrev batch : List ℕ → World
batch pending = record {
  registry = record {
    stores = ("users", 5) ∷ ("posts", 6) ∷ [];
    initial_states = [];
    initial_factories = [];
    meta_entries = [];
    pending_notifications = "posts" ∷ [];
    last_runtime_patches = [];
  };
  transaction = record {
    depth = 1;
    pending = pending;
    staged_values = [];
    snapshot_cache = [];
    runtime_patches = 3 ∷ [];
    failed = false;
    error = none;
  };
}

end_transaction_rolls_back_example :
    IsRestored
      (batch (1 ∷ 2 ∷ [])).registry
      (end_transaction run none (batch (1 ∷ 2 ∷ []))).0.registry
unfolding end_transaction settle run_commits mark_transaction_failed
end_transaction_rolls_back_example =
    end_transaction_rolls_back run none (batch (1 ∷ 2 ∷ [])) (raised 4) (refl, (refl, tt)) tt refl

abbrev failed_batch : World
failed_batch = record (batch (1 ∷ [])) {
  transaction = record ((batch (1 ∷ [])).transaction) { failed = true; error = some (raised 4) };
}

abbrev inner_batch : List Step
inner_batch = begins ∷ stages "users" 7 ∷ fails (raised 5) ∷ ends none ∷ []

failure_aborts_all_example : end_transaction run none (take_steps run inner_batch failed_batch) ≡ (
  record {
    registry = failed_batch.registry;
    transaction =
        cleared (record ((take_steps run inner_batch failed_batch).transaction) { depth = 0 });
  },
  some (raised 4),
)
unfolding begin_transaction end_transaction mark_transaction_failed stage_transaction_value
failure_aborts_all_example =
    failure_aborts_all run inner_batch failed_batch (raised 4) none refl refl
      (omega arith, (omega arith, (omega arith, (omega arith, omega arith)))) refl

commits_run_in_order_example :
    (end_transaction run none (batch (1 ∷ []))).0.registry
    ≡ with_staged_patches (run_all run (1 ∷ []) (closed (batch (1 ∷ []))))
unfolding end_transaction settle run_commits mark_transaction_failed
commits_run_in_order_example = commits_run_in_order run (batch (1 ∷ [])) refl refl
