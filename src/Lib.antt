-- ===== src/Lib.antt =====
-- A model of stroid, a state library in TypeScript, and what holds of it. The program keeps named
-- stores in a registry. Writes go through transactions, are announced to subscribers by flushes,
-- feed computed stores, are reconciled with a hydrated snapshot, travel to other tabs by the sync
-- feature, and are fed by fetches with a cache, a rate limiter and deduplication.
--
-- The parts and their files:
-- - Base: what all modules share. Base/Dict is a JavaScript object or Map by name, Base/Names a
--   Set.
-- - Values: `shallowEqual` of src/utils/clone.ts.
-- - Async (src/async): Async/State is the registry of async state of src/async/registry.ts;
--   Async/Slots and Async/Cache are src/async/cache.ts, Async/Rate is src/async/rate.ts, and
--   Async/Requests is src/async/inflight.ts. `commit_result` of Async/Cache is the end of a fetch
--   in src/async/fetch/fetch-store.ts: it asks Async/Requests whether the request is current,
--   writes the cache, tracks the slot by Async/Slots and prunes. Each operation takes the registry
--   and returns it; the source finds the active one by itself.
-- - Path (src/utils/path.ts, src/core/store-name.ts): the parser of paths, its cache, and the
--   names and paths that a namespace writes; there a text is the list of its code points.
--   Path/Tree has values as trees, and Path/Access `getByPath`, `setByPath` and the walk of
--   `validatePathSafety` (src/core/store-lifecycle/validation.ts) on them, with keys as strings.
--   Written and Siblings say what a written path reads and leaves alone.
-- - Writes (src/core/store-write-shared.ts): the commit of a write, and the choice between staging
--   and committing, over the registry of Transaction and the state of Hydration. Writes/Pipeline
--   has the validation, middleware and lazy values of src/core/store-lifecycle and
--   src/features/lifecycle.ts, Writes/Set `setStore` of src/core/store-set-impl.ts, Writes/Replace
--   `replaceStore` and `resetStore` of src/core/store-replace-impl.ts and
--   src/core/store-admin-impl.ts, Writes/Atomic `setStoreBatch` of src/core/store-notify.ts.
--   Staged, Batch, Abort, Errors, Effect and Accepted hold the proofs; Accepted/Rule says what a
--   validator lets through without the code's own validation. The commit closures of a batch are
--   what Transaction runs.
-- - Sync (src/features/sync): Sync/Message is helpers.ts with the messages and options,
--   Sync/Session the state of one store in one tab with the bookkeeping of runtime.ts and
--   resources.ts and the broadcast, and Sync/Channel the handler `on_message` and the write hook.
--   The checks, the clocks and the exchange between two tabs have modules of their own below it.
-- - Transaction (src/core/store-transaction.ts): the state of a transaction and the registry that
--   it rolls back. Restore, Rollback and Nesting follow the snapshot, a failing end, and calls in
--   between.
-- - Computed (src/computed/computed-graph.ts): the entries, the links back to dependents, the
--   search for cycles, and registration. Search, Fuel, Acyclic, Register, Links and Reach hold the
--   proofs. Computed/Topo is the order in which affected computed stores run, with its proofs in
--   Degrees, Kahn, Order and Start; Computed/Affected collects those stores and composes the two,
--   with its proofs in Grows, Expand, Start and Complete.
-- - Hydration (src/core/hydration-consistency): State is types.ts and helpers.ts, Reconcile is
--   reconcile.ts (Origin below it says where a reconciled value comes from), Queue the deferred
--   writes of state.ts.
-- - Notify (src/notification/priority.ts, src/notification/scheduler.ts, `notify` of
--   src/core/store-notify.ts): the plan of a flush.
-- - Helpers (src/helpers/index.ts): the entity store, with what the sanitizer of
--   src/utils/validation.ts drops of its entities.
--
-- Conventions. A number is a natural number; where the source subtracts times the difference stops
-- at 0, and the module says why the test agrees. Values, promises, functions and errors that are
-- only passed along are numbers. A time is an argument, one for each call. What a callback or a
-- host does is a parameter: the commits of a transaction, the deferred writes, verify, sign and
-- conflict resolvers, `localeCompare`, the hash of a state, the merge of hydrated values and the
-- resolver of the order of computed stores. The fields of `Host` in Writes are of this kind: the
-- user's validators, hooks, middleware and factories, the walks of src/utils over host objects,
-- clocks and patches. What `Number` makes of a key is a parameter of Path/Access. `localeCompare`
-- is assumed to be a strict total order where two tabs are compared; Sync/Alphabet gives one.
--
-- Bounds. The walk of `detectCycle` has one unit of fuel more than there are entries, and goes one
-- unit down for each entry that it visits for the first time. The loop over ready names of
-- Computed/Topo has one unit for each affected name, since a round takes one name for good. The
-- queue of Computed/Affected has one for each source and each link, since a name enters it once;
-- the recursion over dependencies goes one down for each entry that it adds. Every other loop runs
-- over a list. The numbers of deferred writes wrap at the largest safe integer as in the source.
--
-- Not modelled: the creation, deletion and hydration of stores, the delivery of a flush, the retry
-- loop of fetches, persistence, devtools, the server's request scopes, React and the entry points.
-- Within the modelled files: warnings, clocks of messages that are no natural numbers, the
-- verdicts that `validatePathSafety` keeps, the validators and middleware of an entity store,
-- cleanups of the async registry, opening and closing of sync channels, the injected runner of
-- transactions, the cache of the orders of computed stores, and the timers.
pub mod Base
pub mod Values
pub mod Path
pub mod Writes
pub mod Async
pub mod Sync
pub mod Transaction
pub mod Computed
pub mod Hydration
pub mod Notify
pub mod Helpers
