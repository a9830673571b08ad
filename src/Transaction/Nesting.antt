-- ===== src/Transaction/Nesting.antt =====
-- Transactions within transactions, and what the outermost one runs (src/core/store-transaction.ts):
-- a step is a call that the code between a `beginTransaction` and its `endTransaction` makes.
use stroid.Base.{
  is_nil, if◌then◌else◌, ℕ, ◌≤◌, String, true, false, Option, none, some, List, [], ◌∷◌, ◌≡◌, ◌≢◌,
  refl, sym, ap, subst, ◌∙◌, arith, Bool-cases, Option-cases, inl, inr,
}
use stroid.Transaction.Rollback.{run_commits-go, run_commits-stop, settle-runs}
use stroid.Transaction.{
  StoreRegistry, TransactionError, World, RollbackSnapshot, Run, cleared, begin_transaction,
  mark_transaction_failed, register_transaction_commit, stage_transaction_value,
  stage_transaction_patches, capture_transaction_rollback_snapshot, run_commits, settle,
  end_transaction, after_commit, keep_patches, finish_commits,
}

pub data Step : Type 0 where
  begins : Step
  ends : Option TransactionError → Step
  fails : TransactionError → Step
  registers : ℕ → Step
  stages : String → ℕ → Step
  patches : List ℕ → Step

abbrev pub take_step : Run → Step → World → World
take_step run begins w = record w { transaction = begin_transaction w.transaction }
take_step run (ends err) w = (end_transaction run err w).0
take_step run (fails err) w = record w { transaction = mark_transaction_failed err w.transaction }
take_step run (registers fn) w = record w {
  transaction = register_transaction_commit fn w.transaction;
}
take_step run (stages name value) w = record w {
  transaction = stage_transaction_value name value w.transaction;
}
take_step run (patches ps) w = record w { transaction = stage_transaction_patches ps w.transaction }

abbrev pub take_steps : Run → List Step → World → World
take_steps run [] w = w
take_steps run (s ∷ ss) w = take_steps run ss (take_step run s w)

-- The transaction is open at the start and stays so.
abbrev pub StaysOpen : Run → List Step → World → Type 0
StaysOpen run [] w = 1 ≤ w.transaction.depth
StaysOpen run (s ∷ ss) w = (1 ≤ w.transaction.depth) × StaysOpen run ss (take_step run s w)

-- The transaction failed with `e`, and the registry is `r`.
abbrev pub HasFailed : TransactionError → StoreRegistry → World → Type 0
HasFailed e r w = (w.transaction.failed ≡ true) × (w.transaction.error ≡ some e) × (w.registry ≡ r)

take_step-HasFailed :
    (run : Run) (s : Step) (w : World) (e : TransactionError)
    → 1 ≤ w.transaction.depth
    → 1 ≤ (take_step run s w).transaction.depth
    → HasFailed e w.registry w
    → HasFailed e w.registry (take_step run s w)
unfolding begin_transaction end_transaction mark_transaction_failed register_transaction_commit
    stage_transaction_value stage_transaction_patches settle
take_step-HasFailed run begins w e o o' (f, k, r) = ground (arith, o, f, k)
take_step-HasFailed run (ends none) w e o o' (f, k, r) = ground (arith, o, o', f, k)
take_step-HasFailed run (ends (some err)) w e o o' (f, k, r) = ground (arith, o, o', f, k)
take_step-HasFailed run (fails err) w e o o' (f, k, r) = ground (arith, o, f, k)
take_step-HasFailed run (registers fn) w e o o' (f, k, r) = (f, k, refl)
take_step-HasFailed run (stages name value) w e o o' (f, k, r) = (f, k, refl)
take_step-HasFailed run (patches ps) w e o o' (f, k, r) = (f, k, refl)

open_at_start :
    (run : Run) (ss : List Step) (w : World) → StaysOpen run ss w → 1 ≤ w.transaction.depth
open_at_start run [] w o = o
open_at_start run (s ∷ ss) w (o, _) = o

take_steps-HasFailed :
    (run : Run) (ss : List Step) (w : World) (e : TransactionError)
    → StaysOpen run ss w
    → HasFailed e w.registry w
    → HasFailed e w.registry (take_steps run ss w)
take_steps-HasFailed run [] w e o f = f
take_steps-HasFailed run (s ∷ ss) w e (o, os) f =
    let f' = take_step-HasFailed run s w e o (open_at_start run ss (take_step run s w) os) f in
    subst (λ r. HasFailed e r (take_steps run ss (take_step run s w))) f'.2
      (take_steps-HasFailed run ss (take_step run s w) e os (f'.0, f'.1, refl))

ends-failed :
    (run : Run) (w : World) (e : TransactionError) (err : Option TransactionError)
    → w.transaction.depth ≡ 1
    → w.transaction.failed ≡ true
    → w.transaction.error ≡ some e
    → end_transaction run err w
      ≡ (record w { transaction = cleared (record (w.transaction) { depth = 0 }) }, some e)
unfolding end_transaction settle mark_transaction_failed
ends-failed run w e none d f k = ground (arith, d, f, k)
ends-failed run w e (some err) d f k = ground (arith, d, f, k)

-- Once an open transaction has failed with `e` and nothing has changed the registry since, then
-- whatever is begun, ended, staged, registered or reported while it stays open, its outermost end
-- runs no commit: it returns `e`, leaves the registry as it was and clears the transaction.
pub failure_aborts_all :
    (run : Run) (ss : List Step) (w : World) (e : TransactionError) (err : Option TransactionError)
    → w.transaction.failed ≡ true
    → w.transaction.error ≡ some e
    → StaysOpen run ss w
    → (take_steps run ss w).transaction.depth ≡ 1
    → end_transaction run err (take_steps run ss w) ≡ (
      record {
        registry = w.registry;
        transaction = cleared (record ((take_steps run ss w).transaction) { depth = 0 });
      },
      some e,
    )
failure_aborts_all run ss w e err f k o d =
    let h = take_steps-HasFailed run ss w e o (f, k, refl) in
    ends-failed run (take_steps run ss w) e err d h.0 h.1
    ∙ ap
        (λ r. (
          record {
            registry = r;
            transaction = cleared (record ((take_steps run ss w).transaction) { depth = 0 });
          },
          some e,
        ))
        h.2

-- What the commits do when none of them stops the others.
abbrev pub run_all : Run → List ℕ → World → World
run_all run [] w = w
run_all run (fn ∷ fns) w = run_all run fns (run fn w).0

run_commits-none :
    (run : Run) (snapshot : RollbackSnapshot) (fns : List ℕ) (w : World)
    → (run_commits run snapshot fns w).1 ≡ none
    → (run_commits run snapshot fns w).0 ≡ run_all run fns w
unfolding run_commits
run_commits-none run snapshot [] w h = refl
run_commits-none run snapshot (fn ∷ fns) w h =
    elim (Option-cases (after_commit snapshot (run fn w)).1) [
      | inl go ↦ ground (
        arith,
        run_commits-go run snapshot fn fns w go,
        h,
        run_commits-none run snapshot fns (after_commit snapshot (run fn w)).0,
        after_commit-none (run fn w) go,
      )
      | inr (e', stop) ↦ ground (arith, run_commits-stop run snapshot fn fns w e' stop, h)
    ]
  where
    after_commit-none :
        (p : World × Option TransactionError)
        → (after_commit snapshot p).1 ≡ none
        → (after_commit snapshot p).0 ≡ p.0
    after_commit-none (w', none) h' = ground (arith, h')
    after_commit-none (w', some e) h' = ground (arith, h')

abbrev pub closed : World → World
closed w = record w { transaction = record (w.transaction) { depth = 0 } }

ends-clean :
    (run : Run) (w : World)
    → w.transaction.depth ≡ 1
    → (end_transaction run none w).1 ≡ none
    → (end_transaction run none w ≡ settle run (closed w)) × (w.transaction.failed ≡ false)
unfolding end_transaction settle
ends-clean run w d h = elim (Bool-cases w.transaction.failed) [
  | inl y ↦ ground (arith, y, d, h)
  | inr n ↦ (ground (arith, d), n)
]

finish_commits-clean :
    (w : World) (o : Option TransactionError)
    → (finish_commits (w, o)).1 ≡ none
    → (o ≡ none) × ((finish_commits (w, o)).0.registry ≡ (keep_patches w).registry)
finish_commits-clean w none h = ground (arith, h)
finish_commits-clean w (some e) h = ground (arith, h)

-- The registry of a world with the staged patches, if there are any, as its last ones.
abbrev pub with_staged_patches : World → StoreRegistry
with_staged_patches w = record (w.registry) {
  last_runtime_patches =
      if is_nil w.transaction.runtime_patches
      then w.registry.last_runtime_patches
      else w.transaction.runtime_patches;
}

keep_patches-registry : (w : World) → (keep_patches w).registry ≡ with_staged_patches w
keep_patches-registry w = elim (Bool-cases (is_nil w.transaction.runtime_patches)) [
  | inl y ↦ ground (arith, y)
  | inr n ↦ ground (arith, n)
]

-- When the outermost `endTransaction` returns no error, it has run every commit that was registered,
-- each once and in the order of their registration, and then stored the patches that are staged, if
-- there are any, as the last ones.
pub commits_run_in_order :
    (run : Run) (w : World)
    → w.transaction.depth ≡ 1
    → (end_transaction run none w).1 ≡ none
    → (end_transaction run none w).0.registry
      ≡ with_staged_patches (run_all run w.transaction.pending (closed w))
commits_run_in_order run w d h =
    let clean = ends-clean run w d h in
    let eq = clean.0 ∙ settle-runs run (closed w) clean.1 in
    let snapshot = capture_transaction_rollback_snapshot w.registry in
    let p = run_commits run snapshot w.transaction.pending (closed w) in
    let done = finish_commits-clean p.0 p.1 (ap (λ x. x.1) (sym eq) ∙ h) in
    ap (λ x. x.0.registry) eq
    ∙ done.1
    ∙ keep_patches-registry p.0
    ∙ ap with_staged_patches (run_commits-none run snapshot w.transaction.pending (closed w) done.0)

-- The end of a transaction that has failed runs no commit and returns an error.
pub ends-failed-aborts :
    (run : Run) (w : World)
    → w.transaction.depth ≡ 1
    → w.transaction.failed ≡ true
    → ((end_transaction run none w).1 ≢ none)
      × ((end_transaction run none w).0.registry ≡ w.registry)
unfolding end_transaction settle
ends-failed-aborts run w d f = (λ h. ground (arith, d, f, h), ground (arith, d, f))
