-- ===== src/Sync/Message.antt =====
-- Messages and options of the sync feature, and the order of versions
-- (src/features/sync/helpers.ts, src/features/sync/types.ts, src/adapters/options/types.ts).
-- A field of a message whose type the source tests with `typeof` is optional: `none` says that the
-- test fails. A clock is a counter, as the tabs send it: a message whose clock is another number, such
-- as NaN or a negative one, which the source takes too, is not modelled. `V` is the type of a store's value.
use Prim.Native.Nat.{Ordering, compare}
use stroid.Base.{
  ℕ, String, Bool, ◌&&◌, ◌||◌, Option, none, some, or_else, is_some, ◌===◌, if◌then◌else◌, ◌==◌,
}

pub record SyncVersion : Type 0 where
  pub clock : ℕ
  pub updated_at : ℕ
  pub source : String

pub record SyncMessage (V : Type 0) : Type 0 where
  pub v : Option ℕ
  pub protocol : Option ℕ
  pub kind : Option String
  pub name : Option String
  pub clock : Option ℕ
  pub source : Option String
  pub content : Option V
  pub checksum : Option ℕ
  pub updated_at : Option ℕ
  pub token : Option String
  pub auth : Option ℕ

abbrev pub sync_protocol_version : ℕ
sync_protocol_version = 1

abbrev pub first_of_two : Option ℕ → Option ℕ → Option ℕ
first_of_two none b = b
first_of_two (some a) b = some a

unfoldable pub resolve_protocol_version : {V : Type 0} → SyncMessage V → Option ℕ
resolve_protocol_version msg = first_of_two msg.v msg.protocol

unfoldable pub is_valid_sync_message : {V : Type 0} → SyncMessage V → Bool
is_valid_sync_message msg =
    (is_some msg.v || is_some msg.protocol)
    && is_some msg.kind
    && is_some msg.name
    && is_some msg.clock
    && is_some msg.source

pub data Policy : Type 0 where
  strict insecure : Policy

-- `loopGuard`: absent, `true` or `false`, or an object with its `windowMs` where that is a positive
-- number.
pub data LoopGuard : Type 0 where
  default_guard no_guard : LoopGuard
  guard_for : Option ℕ → LoopGuard

pub data Verdict : Type 0 where
  verified refused threw : Verdict

pub data Signature : Type 0 where
  signed : ℕ → Signature
  unsigned promised sign_threw : Signature

pub record Conflict (V : Type 0) : Type 0 where
  pub local : V
  pub incoming : Option V
  pub local_updated : ℕ
  pub incoming_updated : ℕ

pub data Resolution (V : Type 0) : Type 0 where
  resolver_threw unresolved : Resolution V
  resolved : V → Resolution V

pub record SyncOptions (V : Type 0) : Type 0 where
  pub policy : Option Policy
  pub allows_insecure : Bool
  pub auth_token : Option String
  pub verify : Option (SyncMessage V → Verdict)
  pub sign : Option (SyncMessage V → Signature)
  pub without_checksum : Bool
  pub conflict_resolver : Option (Conflict V → Resolution V)
  -- `none` as a result: it throws
  pub resolve_updated_at : Option (ℕ → ℕ → ℕ → Option ℕ)
  pub loop_guard : LoopGuard
  pub max_payload_bytes : Option ℕ

-- `sync`: false or absent, true, or options.
pub data SyncOption (V : Type 0) : Type 0 where
  off on : SyncOption V
  given : SyncOptions V → SyncOption V

abbrev pub default_loop_guard_ms : ℕ
default_loop_guard_ms = 100

abbrev guard_ms : LoopGuard → Option ℕ
guard_ms default_guard = some default_loop_guard_ms
guard_ms no_guard = none
guard_ms (guard_for none) = some default_loop_guard_ms
guard_ms (guard_for (some ms)) = if ms == 0 then some default_loop_guard_ms else some ms

abbrev pub resolve_loop_guard_ms : {V : Type 0} → SyncOption V → Option ℕ
resolve_loop_guard_ms off = none
resolve_loop_guard_ms on = some default_loop_guard_ms
resolve_loop_guard_ms (given o) = guard_ms o.loop_guard

abbrev pub clock_of : Option SyncVersion → ℕ
clock_of none = 0
clock_of (some version) = version.clock

abbrev pub source_of : Option SyncVersion → String
source_of none = ""
source_of (some version) = version.source

abbrev pub order_then : Ordering → Ordering → Ordering
order_then Ordering.lt next = Ordering.lt
order_then Ordering.eq next = next
order_then Ordering.gt next = Ordering.gt

-- `compareSyncOrder`: the sign of its result. `localeCompare` is the runtime's.
module _ (locale_compare : String → String → Ordering) where
  abbrev pub compare_sources : String → String → Ordering
  compare_sources incoming accepted =
      if incoming === accepted then Ordering.eq else locale_compare incoming accepted

  unfoldable pub compare_sync_order : Option ℕ → Option String → Option SyncVersion → Ordering
  compare_sync_order clock source accepted =
      order_then (compare (or_else clock 0) (clock_of accepted))
        (compare_sources (or_else source "") (source_of accepted))
