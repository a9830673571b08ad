-- ===== src/Transaction.antt =====
-- Transactions over the store registry (src/core/store-transaction.ts), outside of a request scope,
-- where no transaction runner is injected and no request carrier stands before the registry. A
-- commit is a closure, kept by its number; what the closures do is the parameter `run` of the
-- operations that call them. The commits that run are those of the list at the start: stores register
-- one only in an open transaction, and the first `beginTransaction` puts a new list. Values, patches and errors are kept by reference.
pub mod Restore
pub mod Rollback
pub mod Nesting
mod Tests
use stroid.Base.{
  ℕ, suc, ◌+◌, ◌-◌, String, Bool, true, false, not, Option, none, some, List, [], ◌∷◌, ◌++◌,
  if◌then◌else◌, or_else, is_some, is_nil, ◌==◌, ◌===◌,
}
use stroid.Base.Dict.{Dict, lookup, insert, erase, has_key, keys}
use stroid.Base.Names.{has, remove}

pub record Metrics : Type 0 where
  pub notify_count : ℕ
  pub total_notify_ms : ℕ
  pub last_notify_ms : ℕ
  pub reset_count : ℕ
  pub total_reset_ms : ℕ
  pub last_reset_ms : ℕ

-- The part of a metadata entry that a transaction saves.
pub record MetaSnapshot : Type 0 where
  pub updated_at : ℕ
  pub updated_at_ms : ℕ
  pub update_count : ℕ
  pub last_correlation_id : Option ℕ
  pub last_correlation_at : Option ℕ
  pub last_correlation_at_ms : Option ℕ
  pub last_trace_context : Option ℕ
  pub metrics : Metrics

-- `options` stands for what a transaction does not save.
pub record MetaEntry : Type 0 where
  pub saved : MetaSnapshot
  pub options : ℕ

-- The part of the registry that a transaction saves and that commits write. A transaction does not save
-- the initial states and the factories of lazy stores. The hydration state of the registry, which no
-- transaction saves either, stands beside this record, in Hydration/State.
pub record StoreRegistry : Type 0 where
  pub stores : Dict ℕ
  pub initial_states : Dict ℕ
  pub initial_factories : Dict ℕ
  pub meta_entries : Dict MetaEntry
  pub pending_notifications : List String
  pub last_runtime_patches : List ℕ

-- `aborted` is the error of `coerceError` for a reason that is no error, no text and has no message.
pub data TransactionError : Type 0 where
  aborted : TransactionError
  raised : ℕ → TransactionError

pub record TransactionState : Type 0 where
  pub depth : ℕ
  pub pending : List ℕ
  pub staged_values : Dict ℕ
  pub snapshot_cache : Dict ℕ
  pub runtime_patches : List ℕ
  pub failed : Bool
  pub error : Option TransactionError

pub record World : Type 0 where
  pub registry : StoreRegistry
  pub transaction : TransactionState

abbrev pub cleared : TransactionState → TransactionState
cleared t = record t {
  pending = [];
  staged_values = [];
  snapshot_cache = [];
  runtime_patches = [];
  failed = false;
  error = none;
}

unfoldable pub begin_transaction : TransactionState → TransactionState
begin_transaction t =
    let t' = record t { depth = t.depth + 1 } in if t'.depth == 1 then cleared t' else t'

unfoldable pub is_transaction_active : TransactionState → Bool
is_transaction_active t = not (t.depth == 0)

unfoldable pub mark_transaction_failed : TransactionError → TransactionState → TransactionState
mark_transaction_failed err t = record t {
  failed = true;
  error = if is_some t.error then t.error else some err;
}

unfoldable pub register_transaction_commit : ℕ → TransactionState → TransactionState
register_transaction_commit fn t = record t { pending = t.pending ++ fn ∷ [] }

unfoldable pub stage_transaction_value : String → ℕ → TransactionState → TransactionState
stage_transaction_value name value t = record t {
  staged_values = insert name value t.staged_values;
  snapshot_cache = erase name t.snapshot_cache;
}

unfoldable pub stage_transaction_patches : List ℕ → TransactionState → TransactionState
stage_transaction_patches patches t = record t { runtime_patches = t.runtime_patches ++ patches }

unfoldable pub get_staged_transaction_value : String → TransactionState → Option ℕ
get_staged_transaction_value name t = lookup name t.staged_values

pub record RollbackSnapshot : Type 0 where
  pub stores : Dict ℕ
  pub meta : Dict MetaSnapshot
  pub pending_notifications : List String
  pub last_runtime_patches : List ℕ

unfoldable pub snapshot_meta : Dict MetaEntry → Dict MetaSnapshot
snapshot_meta [] = []
snapshot_meta ((name, entry) ∷ rest) = (name, entry.saved) ∷ snapshot_meta rest

unfoldable pub capture_transaction_rollback_snapshot : StoreRegistry → RollbackSnapshot
unfolding snapshot_meta
capture_transaction_rollback_snapshot r = record {
  stores = r.stores;
  meta = snapshot_meta r.meta_entries;
  pending_notifications = r.pending_notifications;
  last_runtime_patches = r.last_runtime_patches;
}

-- `snapshot.stores.forEach((value, name) => setStoreValueInternal(name, value, registry))`
unfoldable pub set_all : Dict ℕ → Dict ℕ → Dict ℕ
set_all [] stores = stores
set_all ((name, value) ∷ rest) stores = set_all rest (insert name value stores)

-- The names that are left of `currentStoreNames`.
pub without_names : List String → List String → List String
without_names [] names = names
without_names (name ∷ rest) names = without_names rest (remove name names)

pub erase_all : List String → Dict ℕ → Dict ℕ
erase_all [] stores = stores
erase_all (name ∷ rest) stores = erase_all rest (erase name stores)

abbrev pub restore_entry :
    String → MetaSnapshot → Option MetaEntry → Dict MetaEntry → Dict MetaEntry
restore_entry name saved none entries = entries
restore_entry name saved (some entry) entries = insert name (record entry { saved = saved }) entries

pub restore_meta : Dict MetaSnapshot → Dict MetaEntry → Dict MetaEntry
restore_meta [] entries = entries
restore_meta ((name, saved) ∷ rest) entries =
    restore_meta rest (restore_entry name saved (lookup name entries) entries)

pub restore_transaction_rollback_snapshot : RollbackSnapshot → StoreRegistry → StoreRegistry
restore_transaction_rollback_snapshot snapshot r = record r {
  stores =
      erase_all (without_names (keys snapshot.stores) (keys r.stores))
        (set_all snapshot.stores r.stores);
  meta_entries = restore_meta snapshot.meta r.meta_entries;
  pending_notifications = snapshot.pending_notifications;
  last_runtime_patches = snapshot.last_runtime_patches;
}

-- What a commit closure does: it may write whatever it likes, and it may throw.
abbrev pub Run : Type 0
Run = ℕ → World → World × Option TransactionError

abbrev pub rolled_back : RollbackSnapshot → World → World
rolled_back snapshot w = record w {
  registry = restore_transaction_rollback_snapshot snapshot w.registry;
}

abbrev pub error_of : TransactionState → TransactionError
error_of t = or_else t.error aborted

-- After one commit: go on, or stop with an error.
abbrev pub after_commit :
    RollbackSnapshot → World × Option TransactionError → World × Option TransactionError
after_commit snapshot (w, none) =
    if w.transaction.failed
    then (rolled_back snapshot w, some (error_of w.transaction))
    else (w, none)
after_commit snapshot (w, some thrown) =
    let w' = record w { transaction = mark_transaction_failed thrown w.transaction } in
    (rolled_back snapshot w', some (error_of w'.transaction))

abbrev pub keep_patches : World → World
keep_patches w = if is_nil w.transaction.runtime_patches then w else record w {
  registry = record (w.registry) { last_runtime_patches = w.transaction.runtime_patches };
}

abbrev pub finish_commits : World × Option TransactionError → World × Option TransactionError
finish_commits (w, some e) = (record w { transaction = cleared w.transaction }, some e)
finish_commits (w, none) =
    if w.transaction.failed
    then (record w { transaction = cleared w.transaction }, some (error_of w.transaction))
    else let w' = keep_patches w in (record w' { transaction = cleared w'.transaction }, none)

abbrev pub mark_if : Option TransactionError → TransactionState → TransactionState
mark_if none t = t
mark_if (some err) t = mark_transaction_failed err t

module _ (run : Run) where
  unfoldable pub run_commits : RollbackSnapshot → List ℕ → World → World × Option TransactionError
  run_commits snapshot [] w = (w, none)
  run_commits snapshot (fn ∷ fns) w =
      let (w', stop) = after_commit snapshot (run fn w) in
      let rest = run_commits snapshot fns w' in elim stop [ none ↦ rest | some e ↦ (w', some e) ]

  -- The outermost `endTransaction`, once the depth is 0.
  unfoldable pub settle : World → World × Option TransactionError
  settle w =
      if w.transaction.failed
      then finish_commits (w, some (error_of w.transaction))
      else finish_commits
          (run_commits (capture_transaction_rollback_snapshot w.registry) w.transaction.pending w)

  -- `endTransaction`: the error that the caller is given, if there is one.
  unfoldable pub end_transaction : Option TransactionError → World → World × Option TransactionError
  end_transaction err w =
      if w.transaction.depth == 0
      then (w, none)
      else let t = mark_if err w.transaction in
        let w' = record w { transaction = record t { depth = t.depth - 1 } } in
        if w'.transaction.depth == 0 then settle w' else (w', none)
