-- ===== src/Transaction/Rollback.antt =====
-- What a failing `endTransaction` leaves behind (src/core/store-transaction.ts).
use stroid.Base.{
  ℕ, true, false, Option, none, some, List, [], ◌∷◌, ◌≡◌, refl, sym, ap, subst, ◌∙◌, inl, inr, ◌-◌,
  Bool-cases, arith, Option-cases,
}
use stroid.Transaction.{
  after_commit, rolled_back, mark_if, finish_commits, StoreRegistry, TransactionError, World,
  RollbackSnapshot, capture_transaction_rollback_snapshot, Run, run_commits, settle,
  end_transaction,
}
use stroid.Transaction.Restore.{IsUnique, IsRestored, IsRestored-refl, restore-IsRestored}

module _ (run : Run) (snapshot : RollbackSnapshot) (fn : ℕ) (fns : List ℕ) (w : World) where
  pub run_commits-go :
      (after_commit snapshot (run fn w)).1 ≡ none
      → run_commits run snapshot (fn ∷ fns) w
        ≡ run_commits run snapshot fns (after_commit snapshot (run fn w)).0
  unfolding run_commits
  run_commits-go h = ground (arith, h)

  pub run_commits-stop :
      (e : TransactionError)
      → (after_commit snapshot (run fn w)).1 ≡ some e
      → run_commits run snapshot (fn ∷ fns) w ≡ ((after_commit snapshot (run fn w)).0, some e)
  unfolding run_commits
  run_commits-stop e h = ground (arith, h)

module _ (run : Run) (before : StoreRegistry) (u : IsUnique before.stores)
    (v : IsUnique before.meta_entries) where
  rolled_back_when_failed :
      (snapshot : RollbackSnapshot) (w : World)
      → w.transaction.failed ≡ true
      → (after_commit snapshot (w, none)).0 ≡ rolled_back snapshot w
  rolled_back_when_failed snapshot w h = ground (arith, h)

  after_commit-IsRestored :
      (p : World × Option TransactionError) (e : TransactionError)
      → (after_commit (capture_transaction_rollback_snapshot before) p).1 ≡ some e
      → IsRestored before (after_commit (capture_transaction_rollback_snapshot before) p).0.registry
  after_commit-IsRestored (w, none) e h = elim (Bool-cases w.transaction.failed) [
    | inl y ↦
        subst (λ x. IsRestored before x.registry)
          (sym (rolled_back_when_failed (capture_transaction_rollback_snapshot before) w y))
          (restore-IsRestored before w.registry u v)
    | inr n ↦ ground (arith, n, h)
  ]
  after_commit-IsRestored (w, some thrown) e h = restore-IsRestored before w.registry u v

  run_commits-IsRestored :
      (fns : List ℕ) (w : World) (e : TransactionError)
      → (run_commits run (capture_transaction_rollback_snapshot before) fns w).1 ≡ some e
      → IsRestored before
          (run_commits run (capture_transaction_rollback_snapshot before) fns w).0.registry
  unfolding run_commits
  run_commits-IsRestored [] w e h = ground (arith, h)
  run_commits-IsRestored (fn ∷ fns) w e h =
      let snapshot = capture_transaction_rollback_snapshot before in
      elim (Option-cases (after_commit snapshot (run fn w)).1) [
        | inl go ↦
            subst (λ x. IsRestored before x.0.registry)
              (sym (run_commits-go run snapshot fn fns w go))
              (run_commits-IsRestored fns (after_commit snapshot (run fn w)).0 e
                (ap (λ x. x.1) (sym (run_commits-go run snapshot fn fns w go)) ∙ h))
        | inr (e', stop) ↦
            subst (λ x. IsRestored before x.0.registry)
              (sym (run_commits-stop run snapshot fn fns w e' stop))
              (after_commit-IsRestored (run fn w) e' stop)
      ]

module _ (run : Run) (snapshot : RollbackSnapshot) where
  run_commits-failed :
      (fns : List ℕ) (w : World)
      → w.transaction.failed ≡ false
      → (run_commits run snapshot fns w).1 ≡ none
      → (run_commits run snapshot fns w).0.transaction.failed ≡ false
  unfolding run_commits
  run_commits-failed [] w n h = n
  run_commits-failed (fn ∷ fns) w n h = elim (Option-cases (after_commit snapshot (run fn w)).1) [
    | inl go ↦ ground (
      arith,
      run_commits-go run snapshot fn fns w go,
      h,
      run_commits-failed fns (after_commit snapshot (run fn w)).0
          (after_commit-failed (run fn w) go),
    )
    | inr (e', stop) ↦ ground (arith, run_commits-stop run snapshot fn fns w e' stop, h)
  ]
    where
      after_commit-failed :
          (p : World × Option TransactionError)
          → (after_commit snapshot p).1 ≡ none
          → (after_commit snapshot p).0.transaction.failed ≡ false
      after_commit-failed (w', none) h' = ground (arith, h')
      after_commit-failed (w', some e) h' = ground (arith, h')

finish_commits-registry :
    (w : World) (o : Option TransactionError) (e : TransactionError)
    → (finish_commits (w, o)).1 ≡ some e
    → (finish_commits (w, o)).0.registry ≡ w.registry
finish_commits-registry w none e h = ground (arith, h)
finish_commits-registry w (some e') e h = refl

finish_commits-error :
    (w : World) (o : Option TransactionError) (e : TransactionError)
    → (finish_commits (w, o)).1 ≡ some e
    → (o ≡ none → w.transaction.failed ≡ false)
    → o ≡ some e
finish_commits-error w none e h k = ground (arith, h, k refl)
finish_commits-error w (some e') e h k = h

settle-failed :
    (run : Run) (w : World) → w.transaction.failed ≡ true → (settle run w).0.registry ≡ w.registry
unfolding settle
settle-failed run w y = ground (arith, y)

pub settle-runs :
    (run : Run) (w : World)
    → w.transaction.failed ≡ false
    → settle run w
      ≡ finish_commits (
          run_commits run
            (capture_transaction_rollback_snapshot w.registry)
            w.transaction.pending
            w)
unfolding settle
settle-runs run w n = ground (arith, n)

settle-IsRestored :
    (run : Run) (w : World) (e : TransactionError)
    → IsUnique w.registry.stores
    → IsUnique w.registry.meta_entries
    → (settle run w).1 ≡ some e
    → IsRestored w.registry (settle run w).0.registry
settle-IsRestored run w e u v h = elim (Bool-cases w.transaction.failed) [
  | inl y ↦ subst (IsRestored w.registry) (sym (settle-failed run w y)) (IsRestored-refl w.registry)
  | inr n ↦
      let snapshot = capture_transaction_rollback_snapshot w.registry in
      let p = run_commits run snapshot w.transaction.pending w in
      let h' = ap (λ x. x.1) (sym (settle-runs run w n)) ∙ h in
      subst (IsRestored w.registry)
        (sym (ap (λ x. x.0.registry) (settle-runs run w n) ∙ finish_commits-registry p.0 p.1 e h'))
        (run_commits-IsRestored run w.registry u v w.transaction.pending w e (
          finish_commits-error p.0 p.1 e h'
            (run_commits-failed run snapshot w.transaction.pending w n)))
]

-- `endTransaction` once it has noted the error and lowered the depth.
abbrev pub lowered : Option TransactionError → World → World
lowered err w =
    let t = mark_if err w.transaction in record w { transaction = record t { depth = t.depth - 1 } }

end_transaction-settles :
    (run : Run) (err : Option TransactionError) (w : World) (e : TransactionError)
    → (end_transaction run err w).1 ≡ some e
    → end_transaction run err w ≡ settle run (lowered err w)
unfolding end_transaction
end_transaction-settles run none w e h = ground (arith, h)
end_transaction-settles run (some err) w e h = ground (arith, h)

-- When `endTransaction` gives its caller an error, whatever the commits did, the registry has its
-- values, its pending notifications and its patches from before the call, and each metadata entry
-- that was there and still is has the fields that a rollback saves; the names of the registry's
-- values and of its metadata entries are unique, as keys of objects are.
pub end_transaction_rolls_back :
    (run : Run) (err : Option TransactionError) (w : World) (e : TransactionError)
    → IsUnique w.registry.stores
    → IsUnique w.registry.meta_entries
    → (end_transaction run err w).1 ≡ some e
    → IsRestored w.registry (end_transaction run err w).0.registry
end_transaction_rolls_back run err w e u v h =
    let settles = end_transaction-settles run err w e h in
    subst (λ x. IsRestored w.registry x.0.registry) (sym settles)
      (settle-IsRestored run (lowered err w) e u v (ap (λ x. x.1) (sym settles) ∙ h))
