-- ===== src/Sync/Channel.antt =====
-- What a message does to a store (src/features/sync/channel.ts), and what a write of the tab does
-- (src/features/sync/runtime.ts). The write hooks of the other features are left out.
pub mod Clocks
pub mod Checks
pub mod Converge
pub mod Replicas
use Prim.Native.Nat.{Ordering}
use stroid.Base.{
  ℕ, ◌+◌, String, Bool, true, false, not, ◌&&◌, ◌||◌, Option, none, some, is_some, or_else, max,
  if◌then◌else◌, ◌==◌, ◌===◌,
}
use stroid.Sync.Message.{
  SyncMessage, SyncVersion, SyncOption, off, on, given, SyncOptions, Verdict, verified, refused,
  threw, Conflict, Resolution, resolver_threw, unresolved, resolved, is_valid_sync_message,
  resolve_protocol_version, sync_protocol_version, compare_sync_order, resolve_loop_guard_ms,
}
use stroid.Sync.Session.{
  Env, Session, SyncError, report, option_token, checks_hash, accept_incoming_sync_version,
  resolve_sync_version, mark_loop_guard, broadcast_sync, ensure_local_clock,
  should_suppress_broadcast,
}

abbrev is_named : String → Option String → Bool
is_named s none = false
is_named s (some t) = t === s

abbrev token_ok : Option String → Option String → Bool
token_ok none token = true
token_ok (some expected) token = is_named expected token

abbrev has_protocol : Option ℕ → Bool
has_protocol none = false
has_protocol (some v) = v == sync_protocol_version

abbrev verify_error : Verdict → Option SyncError
verify_error verified = none
verify_error refused = some SyncError.not_verified
verify_error threw = some SyncError.verify_threw

abbrev resolved_at : ℕ → Option (ℕ → ℕ → ℕ → Option ℕ) → ℕ → ℕ → Option ℕ
resolved_at now none local incoming = some (max (max now local) incoming)
resolved_at now (some resolve) local incoming = resolve local incoming now

abbrev is_newer : Ordering → Bool
is_newer Ordering.gt = true
is_newer _ = false

module _ {V : Type 0} where
  -- The messages that are for this store and from another tab, while the store is there.
  abbrev pub is_for : Env V → SyncMessage V → Session V → Bool
  is_for env msg s =
      not (is_named env.instance_id msg.source)
      && is_named env.name msg.name
      && s.is_open
      && s.has_store
      && s.has_meta

  abbrev verifier : SyncOption V → Option (SyncMessage V → Verdict)
  verifier (given o) = o.verify
  verifier _ = none

  abbrev verdict_on : Option (SyncMessage V → Verdict) → SyncMessage V → Verdict
  verdict_on none msg = verified
  verdict_on (some verify) msg = verify msg

  abbrev is_state : SyncMessage V → Bool
  is_state msg = is_named "sync-state" msg.kind

  abbrev checksum_ok : Env V → SyncMessage V → Bool
  checksum_ok env msg = elim msg.checksum [
    | none ↦ false
    | some c ↦ c == env.hash_state msg.content
  ]

  abbrev report_token : Session V → Session V
  report_token s =
      if s.token_warned then s else record (report SyncError.bad_token s) { token_warned = true }

  -- The checks from the protocol on, in the order of the source; `none` lets the message through.
  unfoldable pub screen_content : Env V → SyncMessage V → Option SyncError
  screen_content env msg =
      if not (has_protocol (resolve_protocol_version msg))
      then some SyncError.wrong_protocol
      else if is_state msg && not (is_some msg.content && is_some msg.clock)
      then some SyncError.malformed
      else elim (verify_error (verdict_on (verifier env.option) msg)) [
        | some e ↦ some e
        | none ↦
            if is_state msg && checks_hash env.option && not (checksum_ok env msg)
            then some SyncError.bad_checksum
            else none
      ]

  abbrev finish_incoming : ℕ → Env V → Session V → Session V
  finish_incoming now env s =
      let s' = mark_loop_guard now (resolve_loop_guard_ms env.option) s in
      record s' { notified = s'.notified + 1 }

  -- `applyIncomingState`: a write that is deferred leaves the value and its time for later.
  abbrev write_incoming : Env V → V → ℕ → Session V → Session V
  write_incoming env value at s =
      let written = env.applied value in
      record s {
        value = or_else written s.value;
        updated_at = if is_some written then at else s.updated_at;
      }

  abbrev take_normalized : ℕ → Env V → SyncMessage V → Option V → Session V → Session V
  take_normalized now env msg none s = s
  take_normalized now env msg (some value) s =
      let at = or_else msg.updated_at now in
      finish_incoming now env (
        accept_incoming_sync_version at (or_else msg.clock 0) (or_else msg.source "")
          (write_incoming env value at s))

  -- A message that is newer than what the store has accepted.
  pub take_newer : ℕ → Env V → SyncMessage V → Session V → Session V
  take_newer now env msg s = take_normalized now env msg (env.normalize msg.content) s

  abbrev commit_resolved : ℕ → Env V → SyncMessage V → V → Option ℕ → Session V → Session V
  commit_resolved now env msg value none s = report SyncError.resolve_time_failed s
  commit_resolved now env msg value (some at) s =
      let s' =
        finish_incoming now env
          (resolve_sync_version env at (or_else msg.clock 0) (write_incoming env value at s)) in
      broadcast_sync env s'.updated_at s'.value s'

  abbrev keep_resolved :
      ℕ → Env V → SyncOptions V → SyncMessage V → Option V → Session V → Session V
  keep_resolved now env o msg none s = s
  keep_resolved now env o msg (some value) s =
      commit_resolved now env msg value
        (resolved_at now o.resolve_updated_at s.updated_at (or_else msg.updated_at now)) s

  abbrev resolve_with :
      ℕ → Env V → SyncOptions V → SyncMessage V → Resolution V → Session V → Session V
  resolve_with now env o msg resolver_threw s = report SyncError.resolver_failed s
  resolve_with now env o msg unresolved s = s
  resolve_with now env o msg (resolved value) s =
      keep_resolved now env o msg (env.normalize (some value)) s

  abbrev conflict_of : ℕ → SyncMessage V → Session V → Conflict V
  conflict_of now msg s = record {
    local = s.value;
    incoming = msg.content;
    local_updated = s.updated_at;
    incoming_updated = or_else msg.updated_at now;
  }

  abbrev resolve_by :
      ℕ
      → Env V
      → SyncOptions V
      → Option (Conflict V → Resolution V)
      → SyncMessage V
      → Session V
      → Session V
  resolve_by now env o none msg s = s
  resolve_by now env o (some resolver) msg s =
      resolve_with now env o msg (resolver (conflict_of now msg s)) s

  abbrev settle_conflict : ℕ → Env V → SyncOption V → SyncMessage V → Session V → Session V
  settle_conflict now env (given o) msg s = resolve_by now env o o.conflict_resolver msg s
  settle_conflict now env _ msg s = s

  -- A message that is not newer: it counts only through the store's `conflictResolver`.
  pub take_stale : ℕ → Env V → SyncMessage V → Session V → Session V
  take_stale now env msg s = settle_conflict now env env.option msg s

  abbrev pub newer_than_accepted : Env V → SyncMessage V → Session V → Bool
  newer_than_accepted env msg s =
      is_newer (compare_sync_order env.locale_compare msg.clock msg.source s.version)

  pub take_screened : ℕ → Env V → SyncMessage V → Session V → Session V
  take_screened now env msg s =
      if is_named "sync-request" msg.kind
      then broadcast_sync env s.updated_at s.value s
      else if newer_than_accepted env msg s
      then take_newer now env msg s
      else take_stale now env msg s

  abbrev take_checked : ℕ → Env V → SyncMessage V → Option SyncError → Session V → Session V
  take_checked now env msg (some e) s = report e s
  take_checked now env msg none s = take_screened now env msg s

  -- `channel.onmessage`
  pub on_message : ℕ → Env V → SyncMessage V → Session V → Session V
  on_message now env msg s =
      if not (is_for env msg s)
      then s
      else if not (is_valid_sync_message msg)
      then report SyncError.malformed s
      else if not (token_ok (option_token env.option) msg.token)
      then report_token s
      else take_checked now env msg (screen_content env msg) s

  abbrev is_off : SyncOption V → Bool
  is_off off = true
  is_off _ = false

  abbrev write_with : Env V → Bool × Session V → V → Session V
  write_with env (true, s) next = record (ensure_local_clock env s.updated_at s) {
    loop_guard_warned = true;
  }
  write_with env (false, s) next =
      broadcast_sync env s.updated_at next (ensure_local_clock env s.updated_at s)

  -- `onStoreWrite`: the store holds `next` already, with the time of its metadata.
  pub on_store_write : ℕ → Env V → V → Session V → Session V
  on_store_write now env next s =
      if is_off env.option || not s.has_meta
      then s
      else write_with env (should_suppress_broadcast now (resolve_loop_guard_ms env.option) s) next
