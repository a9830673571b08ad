-- ===== src/Sync/Channel/Clocks.antt =====
-- Clocks never run backwards, a write of the tab is newer than all that it has accepted, and only a
-- message that passed every check changes the store.
use Prim.Native.Nat.{Ordering}
use stroid.Base.{
  ℕ, ◌+◌, ◌≤◌, true, false, Option, none, some, or_else, ◌≡◌, arith, Bool-cases, Option-cases, inl,
  inr,
}
use stroid.Sync.Message.{
  SyncMessage, SyncOption, off, on, given, SyncOptions, clock_of, source_of, compare_sync_order,
  resolve_loop_guard_ms, Resolution, Conflict, resolver_threw, unresolved, resolved,
}
use stroid.Sync.Session.{
  Env, Session, clock_now, ensure_local_clock, should_suppress_broadcast,
  accept_incoming_sync_version, resolve_sync_version,
}
use stroid.Sync.Session.Frame.{SameState, broadcast-SameState, suppress-SameState, mark-SameState}
use stroid.Sync.Channel.{
  on_message, on_store_write, take_newer, take_stale, take_screened, screen_content, is_off,
  is_named, finish_incoming, write_incoming, commit_resolved, resolve_with, resolve_by,
  settle_conflict, conflict_of, resolved_at, newer_than_accepted,
}

module _ {V : Type 0} where
  -- The accepted version is not ahead of the clock.
  abbrev pub IsOrdered : Session V → Type 0
  IsOrdered s = clock_of s.version ≤ clock_now s

  abbrev pub Advances : Session V → Session V → Type 0
  Advances s t = IsOrdered t × (clock_now s ≤ clock_now t)

  finish-SameState :
      (now : ℕ) (env : Env V) (s : Session V) → SameState s (finish_incoming now env s)
  finish-SameState now env s =
      ground (arith, mark-SameState now (resolve_loop_guard_ms env.option) s)

  take_newer-Advances :
      (now : ℕ) (env : Env V) (msg : SyncMessage V) (s : Session V)
      → IsOrdered s
      → Advances s (take_newer now env msg s)
  unfolding take_newer
  take_newer-Advances now env msg s h = elim (Option-cases (env.normalize msg.content)) [
    | inl bad ↦ rw bad (h, omega arith)
    | inr (value, e) ↦
        let at = or_else msg.updated_at now in
        let taken =
          accept_incoming_sync_version at (or_else msg.clock 0) (or_else msg.source "")
            (write_incoming env value at s) in
        let same = finish-SameState now env taken in rw e (ground arith)
  ]

  commit_resolved-Advances :
      (now : ℕ) (env : Env V) (msg : SyncMessage V) (value : V) (at : Option ℕ) (s : Session V)
      → IsOrdered s
      → Advances s (commit_resolved now env msg value at s)
  commit_resolved-Advances now env msg value none s h = (h, omega arith)
  commit_resolved-Advances now env msg value (some at) s h =
      let taken =
        resolve_sync_version env at (or_else msg.clock 0) (write_incoming env value at s) in
      let done = finish_incoming now env taken in
      let same = finish-SameState now env taken in
      let sent = broadcast-SameState env done.updated_at done.value done in ground arith

  resolve_with-Advances :
      (now : ℕ) (env : Env V) (o : SyncOptions V) (msg : SyncMessage V) (r : Resolution V)
      (s : Session V)
      → IsOrdered s
      → Advances s (resolve_with now env o msg r s)
  resolve_with-Advances now env o msg resolver_threw s h = (h, omega arith)
  resolve_with-Advances now env o msg unresolved s h = (h, omega arith)
  resolve_with-Advances now env o msg (resolved value) s h =
      elim (Option-cases (env.normalize (some value))) [
        | inl bad ↦ rw bad (h, omega arith)
        | inr (v, e) ↦ rw e (
            commit_resolved-Advances now env msg v
              (resolved_at now o.resolve_updated_at s.updated_at (or_else msg.updated_at now)) s h)
      ]

  resolve_by-Advances :
      (now : ℕ) (env : Env V) (o : SyncOptions V) (f : Option (Conflict V → Resolution V))
      (msg : SyncMessage V) (s : Session V)
      → IsOrdered s
      → Advances s (resolve_by now env o f msg s)
  resolve_by-Advances now env o none msg s h = (h, omega arith)
  resolve_by-Advances now env o (some f) msg s h =
      resolve_with-Advances now env o msg (f (conflict_of now msg s)) s h

  settle-Advances :
      (now : ℕ) (env : Env V) (option : SyncOption V) (msg : SyncMessage V) (s : Session V)
      → IsOrdered s
      → Advances s (settle_conflict now env option msg s)
  settle-Advances now env off msg s h = (h, omega arith)
  settle-Advances now env on msg s h = (h, omega arith)
  settle-Advances now env (given o) msg s h =
      resolve_by-Advances now env o o.conflict_resolver msg s h

  take_screened-Advances :
      (now : ℕ) (env : Env V) (msg : SyncMessage V) (s : Session V)
      → IsOrdered s
      → Advances s (take_screened now env msg s)
  unfolding take_screened take_stale
  take_screened-Advances now env msg s h = elim (Bool-cases (is_named "sync-request" msg.kind)) [
    | inl request ↦
        rw request (let sent = broadcast-SameState env s.updated_at s.value s in ground arith)
    | inr other ↦ rw other (elim (Bool-cases (newer_than_accepted env msg s)) [
      | inl newer ↦ rw newer (take_newer-Advances now env msg s h)
      | inr stale ↦ rw stale (settle-Advances now env env.option msg s h)
    ])
  ]

  -- Whatever else a message holds, one whose clock is missing or a natural number, as tabs send it, never
  -- sets the store's clock back, and the accepted version stays within the clock.
  pub on_message-Advances :
      (now : ℕ) (env : Env V) (msg : SyncMessage V) (s : Session V)
      → IsOrdered s
      → Advances s (on_message now env msg s)
  unfolding on_message
  on_message-Advances now env msg s h =
      ground (arith, take_screened-Advances now env msg s h, Option-cases (screen_content env msg))

  -- A write of the tab raises the clock, and the version that it records is newer, in the order of
  -- the protocol, than the one accepted before: no tab that has accepted the same version refuses it.
  pub on_store_write_newer :
      (now : ℕ) (env : Env V) (next : V) (s : Session V)
      → IsOrdered s
      → is_off env.option ≡ false
      → s.has_meta ≡ true
      → let t = on_store_write now env next s in
        Advances s t
        × (clock_now t ≡ clock_now s + 1)
        × (source_of t.version ≡ env.instance_id)
        × (compare_sync_order env.locale_compare
              (some (clock_of t.version))
              (some (source_of t.version))
              s.version
            ≡ Ordering.gt)
  unfolding on_store_write compare_sync_order
  on_store_write_newer now env next s h enabled meta =
      let ms = resolve_loop_guard_ms env.option in
      let same = suppress-SameState now ms s in
      let s' = (should_suppress_broadcast now ms s).1 in
      let sent =
        broadcast-SameState env s'.updated_at next (ensure_local_clock env s'.updated_at s') in
      rw (enabled, meta) (ground arith)
