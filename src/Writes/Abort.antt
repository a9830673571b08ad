-- ===== src/Writes/Abort.antt =====
-- A batch in which a write fails (src/core/store-set-impl.ts, src/core/store-replace-impl.ts,
-- src/core/store-transaction.ts).
use stroid.Base.{true, false, none, List, [], ◌∷◌, ◌++◌, ◌≢◌, ◌≡◌, refl, sym, ◌∙◌, subst}
use stroid.Transaction.{StoreRegistry}
use stroid.Transaction.Nesting.{ends-failed-aborts}
use stroid.Writes.{Host, Runtime, run_closures}
use stroid.Writes.Pipeline.{materialize_initial}
use stroid.Writes.Set.{WriteResult, WriteReason, set_store, failed}
use stroid.Writes.Errors.{Refuses, set_store-Refuses, replace_store_state-Refuses}
use stroid.Writes.Replace.{replace_store_state}
use stroid.Writes.Batch.{fail_tx-InBatch, materialize_initial-InBatch, InBatch}
use stroid.Writes.Atomic.{
  Call, calls_set, calls_replace, calls_reset, do_call, do_calls, open_batch, set_store_batch,
  do_calls-InBatch, called-InBatch,
}

-- A set or a replacement that returns a reason; a lazy store that is set has its initial value.
abbrev pub FailsInBatch : Host → Call → Runtime → Type 0
FailsInBatch host (calls_set name update context) rt =
    ((materialize_initial host name rt).1 ≡ true)
    × ((reason : WriteReason) × ((set_store host name update context false rt).1 ≡ failed reason))
FailsInBatch host (calls_replace name value action context) rt =
    (reason : WriteReason) × ((replace_store_state host name value action context false rt).1
      ≡ failed reason)
FailsInBatch host (calls_reset name elapsed) rt = ⊥

module _ (host : Host) (r : StoreRegistry) where
  refused-InBatch :
      (rt : Runtime) (p : Runtime × WriteResult) (reason : WriteReason)
      → InBatch r false rt
      → Refuses rt p
      → p.1 ≡ failed reason
      → InBatch r true p.0
  refused-InBatch rt p reason b refuses h =
      let (e, same) = refuses.refusal reason h in
      subst (InBatch r true) (sym same) (fail_tx-InBatch host r false e rt b)

  failing-InBatch :
      (c : Call) (rt : Runtime)
      → InBatch r false rt
      → FailsInBatch host c rt
      → InBatch r true (do_call host c rt)
  unfolding do_call
  failing-InBatch (calls_set name update context) rt b (m, (reason, h)) =
      refused-InBatch (materialize_initial host name rt).0 _ reason
        (materialize_initial-InBatch host r false name rt b).still
        (set_store-Refuses host name update context false rt m) h
  failing-InBatch (calls_reset name elapsed) rt b x = elim x [ ]
  failing-InBatch (calls_replace name value action context) rt b (reason, h) =
      refused-InBatch rt _ reason b
        (replace_store_state-Refuses host name value action context false rt) h

module _ (host : Host) where
  do_calls-append :
      (cs ds : List Call) (rt : Runtime)
      → do_calls host (cs ++ ds) rt ≡ do_calls host ds (do_calls host cs rt)
  unfolding do_calls
  do_calls-append [] ds rt = refl
  do_calls-append (c ∷ cs) ds rt = do_calls-append cs ds (do_call host c rt)

  -- One set or replacement that returns a reason, wherever in the callback it stands and whatever the
  -- callback does about it, makes `endTransaction` give the batch an error, of which it warns, and leaves
  -- the values, initial values and factories, the metadata, the pending notifications and the patches of
  -- the registry as they were before. The registry's hydration state is not meant, nor is a set whose lazy
  -- store gets no initial value. The batch is no part of another.
  pub failed_write_aborts_batch :
      (before : List Call) (c : Call) (after : List Call) (rt : Runtime)
      → rt.world.transaction.depth ≡ 0
      → FailsInBatch host c (do_calls host before (open_batch host rt))
      → ((set_store_batch host (before ++ c ∷ after) none rt).1 ≢ none)
        × ((set_store_batch host (before ++ c ∷ after) none rt).0.world.registry
            ≡ rt.world.registry)
  unfolding set_store_batch do_calls
  failed_write_aborts_batch before c after rt d f =
      let r = rt.world.registry in
      let called = do_calls host (before ++ c ∷ after) (open_batch host rt) in
      let b : InBatch r true called =
        subst (InBatch r true) (sym (do_calls-append before (c ∷ after) (open_batch host rt))) (
          do_calls-InBatch host r true after _
            (failing-InBatch host r c _ (called-InBatch host before rt d) f)) in
      let ended =
        ends-failed-aborts (run_closures host called.closures) called.world b.opened
          (b.marked refl) in
      (ended.0, ended.1 ∙ b.kept)
