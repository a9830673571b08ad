-- ===== src/Sync/Session.antt =====
-- One store of one tab in the sync feature: its state, and the bookkeeping of versions and clocks
-- (src/features/sync/runtime.ts, src/features/sync/resources.ts).
pub mod Frame
use Prim.Native.Nat.{Ordering}
use stroid.Base.{
  ℕ, ◌+◌, String, Bool, true, false, Option, none, some, List, [], ◌∷◌, ◌++◌, or_else, max,
  if◌then◌else◌, leb, ◌==◌,
}
use stroid.Base.Names.{truthy}
use stroid.Sync.Message.{
  SyncMessage, SyncVersion, SyncOption, off, on, given, sync_protocol_version, Signature, signed,
  unsigned, promised, sign_threw, SyncOptions,
}

pub data SyncError : Type 0 where
  malformed bad_token wrong_protocol verify_threw not_verified bad_checksum resolver_failed :
      SyncError
  resolve_time_failed signer_promised signer_failed too_large not_posted : SyncError

-- What the tab gives the feature: its id, the name and the options of the store, and the callbacks
-- of the store's runtime. `applied` is the value that stands in the store once an incoming one is
-- written, or none while hydration defers the write; `payload_size` and `can_post` are the runtime's JSON and BroadcastChannel.
pub record Env (V : Type 0) : Type 0 where
  pub instance_id : String
  pub name : String
  pub option : SyncOption V
  pub hash_state : Option V → ℕ
  pub normalize : Option V → Option V
  pub applied : V → Option V
  pub locale_compare : String → String → Ordering
  pub payload_size : SyncMessage V → ℕ
  pub can_post : SyncMessage V → Bool

-- `syncClocks[name]`, `syncVersions[name]`, `loopGuardUntil[name]` and so on, with the store's value
-- and the messages that were posted, the last one at the end.
pub record Session (V : Type 0) : Type 0 where
  pub is_open : Bool
  pub has_store : Bool
  pub has_meta : Bool
  pub value : V
  pub updated_at : ℕ
  pub clock : Option ℕ
  pub version : Option SyncVersion
  pub loop_guard_until : Option ℕ
  pub token_warned : Bool
  pub loop_guard_warned : Bool
  pub posted : List (SyncMessage V)
  pub errors : List SyncError
  pub notified : ℕ

module _ {V : Type 0} where
  abbrev pub report : SyncError → Session V → Session V
  report e s = record s { errors = s.errors ++ e ∷ [] }

  abbrev pub clock_now : Session V → ℕ
  clock_now s = or_else s.clock 0

  -- `bumpSyncClock`
  abbrev pub bump_sync_clock : Session V → Session V
  bump_sync_clock s = record s { clock = some (clock_now s + 1) }

  -- `absorbSyncClock`
  abbrev pub absorb_sync_clock : ℕ → Session V → Session V
  absorb_sync_clock incoming s = record s { clock = some (max (clock_now s) incoming + 1) }

  abbrev pub record_local_version : Env V → ℕ → Session V → Session V
  record_local_version env at s = record s {
    version = some (record { clock = clock_now s; updated_at = at; source = env.instance_id });
  }

  abbrev pub ensure_local_clock : Env V → ℕ → Session V → Session V
  ensure_local_clock env at s = record_local_version env at (bump_sync_clock s)

  abbrev pub accept_incoming_sync_version : ℕ → ℕ → String → Session V → Session V
  accept_incoming_sync_version at incoming source s = record s {
    clock = some (max (clock_now s) incoming);
    version = some (record { clock = incoming; updated_at = at; source = source });
  }

  abbrev pub resolve_sync_version : Env V → ℕ → ℕ → Session V → Session V
  resolve_sync_version env at incoming s =
      record_local_version env at (absorb_sync_clock incoming s)

  abbrev pub mark_loop_guard : ℕ → Option ℕ → Session V → Session V
  mark_loop_guard now none s = s
  mark_loop_guard now (some ms) s = record s { loop_guard_until = some (now + ms) }

  abbrev guard_stands : ℕ → Option ℕ → Session V → Bool × Session V
  guard_stands now none s = (false, s)
  guard_stands now (some until) s =
      if leb until now then (false, record s { loop_guard_until = none }) else (true, s)

  abbrev pub should_suppress_broadcast : ℕ → Option ℕ → Session V → Bool × Session V
  should_suppress_broadcast now none s = (false, s)
  should_suppress_broadcast now (some ms) s = guard_stands now s.loop_guard_until s

  -- An empty token counts as none.
  abbrev pub option_token : SyncOption V → Option String
  option_token (given o) = truthy o.auth_token
  option_token _ = none

  abbrev pub checks_hash : SyncOption V → Bool
  checks_hash (given o) = if o.without_checksum then false else true
  checks_hash _ = true

  abbrev max_bytes : SyncOption V → ℕ
  max_bytes (given o) = or_else o.max_payload_bytes 65536
  max_bytes _ = 65536

  abbrev pub payload : Env V → ℕ → V → Session V → SyncMessage V
  payload env at value s = record {
    v = some sync_protocol_version;
    protocol = some sync_protocol_version;
    kind = some "sync-state";
    name = some env.name;
    clock = some (clock_now s);
    source = some env.instance_id;
    content = some value;
    checksum = if checks_hash env.option then some (env.hash_state (some value)) else none;
    updated_at = some at;
    token = option_token env.option;
    auth = none;
  }

  abbrev post : Env V → SyncMessage V → Session V → Session V
  post env msg s =
      if leb (env.payload_size msg) (max_bytes env.option)
      then if env.can_post msg
        then record s { posted = s.posted ++ msg ∷ [] }
        else report SyncError.not_posted s
      else report SyncError.too_large s

  abbrev post_signed : Env V → SyncMessage V → Signature → Session V → Session V
  post_signed env msg (signed a) s = post env (record msg { auth = some a }) s
  post_signed env msg unsigned s = post env msg s
  post_signed env msg promised s = report SyncError.signer_promised s
  post_signed env msg sign_threw s = report SyncError.signer_failed s

  abbrev signer : SyncOption V → Option (SyncMessage V → Signature)
  signer (given o) = o.sign
  signer _ = none

  abbrev sign_and_post :
      Env V → SyncMessage V → Option (SyncMessage V → Signature) → Session V → Session V
  sign_and_post env msg none s = post env msg s
  sign_and_post env msg (some sign) s = post_signed env msg (sign msg) s

  -- `broadcastSync` of src/features/sync/channel.ts.
  pub broadcast_sync : Env V → ℕ → V → Session V → Session V
  broadcast_sync env at value s =
      if s.is_open then sign_and_post env (payload env at value s) (signer env.option) s else s
