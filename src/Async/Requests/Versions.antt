-- ===== src/Async/Requests/Versions.antt =====
-- Of the requests of a slot the one that was started last may commit, and no other.
use stroid.Base.{
  ℕ, ◌+◌, ◌≤◌, ◌<◌, String, true, false, Option, ◌==◌, ◌===◌, ===_iff, ◌≡◌, ◌≢◌, ◌⊎◌, refl, arith,
  if◌then◌else◌, or_else,
}
use stroid.Base.Dict.{lookup, erase, lookup-insert, lookup-erase}
use stroid.Async.State.{AsyncRegistry, InflightEntry}
use stroid.Async.Slots.Frame.{track_if_named-SameTables, release-SameTables}
use stroid.Async.Cache.{commit_result, prune_async_cache, clear_async_meta}
use stroid.Async.Requests.{
  is_current_request, reserve_request_version, clear_request_version, set_inflight_entry,
  clear_inflight_entry,
}

abbrev pub sequence_of : String → AsyncRegistry → ℕ
sequence_of slot r = or_else (lookup slot r.request_sequence) 0

abbrev pub version_of : String → AsyncRegistry → ℕ
version_of slot r = or_else (lookup slot r.request_version) 0

pub is_current_request_lem :
    (slot : String) (version : ℕ) (r : AsyncRegistry)
    → is_current_request slot version r ≡ (version_of slot r == version)
unfolding is_current_request
is_current_request_lem slot version r = refl

-- The request numbers of the slot are as they were.
abbrev pub KeepsNumbers : String → AsyncRegistry → AsyncRegistry → Type 0
KeepsNumbers slot r r' =
    (lookup slot r'.request_sequence ≡ lookup slot r.request_sequence)
    × (lookup slot r'.request_version ≡ lookup slot r.request_version)

-- What fetches, of this slot and of others, do to the registry, while no prune and no deletion forgets
-- the request numbers of `slot`.
pub data Step (slot : String) : AsyncRegistry → AsyncRegistry → Type 0 where
  reserve :
      (s : String) (store_name : Option String) (r : AsyncRegistry)
      → Step slot r (reserve_request_version s store_name r).1
  clear :
      (s : String) (version : ℕ) (r : AsyncRegistry)
      → Step slot r (clear_request_version s version r)
  begin :
      (s : String) (entry : InflightEntry) (store_name : Option String) (r : AsyncRegistry)
      → Step slot r (set_inflight_entry s entry store_name r)
  finish : (s : String) (r : AsyncRegistry) → Step slot r (clear_inflight_entry s r)
  commit :
      (now : ℕ) (name s : String) (version : ℕ) (ttl : Option ℕ) (result : ℕ) (r : AsyncRegistry)
      → KeepsNumbers slot r (commit_result now name s version ttl result r).1
      → Step slot r (commit_result now name s version ttl result r).1
  prune :
      (now : ℕ) (name : String) (r : AsyncRegistry)
      → KeepsNumbers slot r (prune_async_cache now name r)
      → Step slot r (prune_async_cache now name r)
  delete :
      (name : String) (r : AsyncRegistry)
      → KeepsNumbers slot r (clear_async_meta name r)
      → Step slot r (clear_async_meta name r)

pub data Steps (slot : String) (r : AsyncRegistry) : AsyncRegistry → Type 0 where
  here : Steps slot r r
  next : {s t : AsyncRegistry} → Steps slot r s → Step slot s t → Steps slot r t

reserve_versions :
    (slot s : String) (store_name : Option String) (r : AsyncRegistry)
    → let (v, r') = reserve_request_version s store_name r in
      (v ≡ sequence_of s r + 1)
      × (sequence_of slot r' ≡ (if s === slot then v else sequence_of slot r))
      × (version_of slot r' ≡ (if s === slot then v else version_of slot r))
unfolding reserve_request_version
reserve_versions slot s store_name r = ground (
  arith,
  track_if_named-SameTables store_name s r,
  lookup-insert slot s (sequence_of s r + 1) r.request_sequence,
  lookup-insert slot s (sequence_of s r + 1) r.request_version,
)

clear_versions :
    (slot s : String) (v : ℕ) (r : AsyncRegistry)
    → let r' = clear_request_version s v r in
      (sequence_of slot r' ≡ sequence_of slot r)
      × ((version_of slot r' ≡ version_of slot r) ⊎ (version_of slot r' ≡ 0))
unfolding clear_request_version
clear_versions slot s v r = ground (
  arith,
  release-SameTables s (record r { request_version = erase s r.request_version }),
  lookup-erase slot s r.request_version,
)

begin_versions :
    (slot s : String) (entry : InflightEntry) (store_name : Option String) (r : AsyncRegistry)
    → let r' = set_inflight_entry s entry store_name r in
      (sequence_of slot r' ≡ sequence_of slot r) × (version_of slot r' ≡ version_of slot r)
unfolding set_inflight_entry
begin_versions slot s entry store_name r = ground (arith, track_if_named-SameTables store_name s r)

finish_versions :
    (slot s : String) (r : AsyncRegistry)
    → let r' = clear_inflight_entry s r in
      (sequence_of slot r' ≡ sequence_of slot r) × (version_of slot r' ≡ version_of slot r)
unfolding clear_inflight_entry
finish_versions slot s r =
    ground (arith, release-SameTables s (record r { inflight = erase s r.inflight }))

-- `version` was overtaken: the slot has handed it out, and it is not the current one.
abbrev IsOvertaken : String → ℕ → AsyncRegistry → Type 0
IsOvertaken slot version r =
    (0 < version) × (version ≤ sequence_of slot r) × (version_of slot r ≢ version)

kept-IsOvertaken :
    (slot : String) (version : ℕ) (r s : AsyncRegistry)
    → KeepsNumbers slot r s
    → IsOvertaken slot version r
    → IsOvertaken slot version s
kept-IsOvertaken slot version r s k h = ground (arith, h, k.0, k.1)

step-IsOvertaken :
    (slot : String) (version : ℕ) {r s : AsyncRegistry}
    → Step slot r s
    → IsOvertaken slot version r
    → IsOvertaken slot version s
step-IsOvertaken slot version (reserve s store_name r) h =
    ground (arith, reserve_versions slot s store_name r, ===_iff s slot)
step-IsOvertaken slot version (clear s v r) h = ground (arith, clear_versions slot s v r)
step-IsOvertaken slot version (begin s entry store_name r) h =
    ground (arith, begin_versions slot s entry store_name r)
step-IsOvertaken slot version (finish s r) h = ground (arith, finish_versions slot s r)
step-IsOvertaken slot version (commit now name s v ttl result r k) h =
    kept-IsOvertaken slot version r (commit_result now name s v ttl result r).1 k h
step-IsOvertaken slot version (prune now name r k) h =
    kept-IsOvertaken slot version r (prune_async_cache now name r) k h
step-IsOvertaken slot version (delete name r k) h =
    kept-IsOvertaken slot version r (clear_async_meta name r) k h

steps-IsOvertaken :
    (slot : String) (version : ℕ) {r s : AsyncRegistry}
    → Steps slot r s
    → IsOvertaken slot version r
    → IsOvertaken slot version s
steps-IsOvertaken slot version here h = h
steps-IsOvertaken slot version (next rs st) h =
    step-IsOvertaken slot version st (steps-IsOvertaken slot version rs h)

-- A request that reserves a version becomes the current one of its slot, with a number that the
-- slot has not given out before.
pub reserve_is_current :
    (slot : String) (store_name : Option String) (r : AsyncRegistry)
    → let (v, r') = reserve_request_version slot store_name r in
      (is_current_request slot v r' ≡ true) × (v ≡ sequence_of slot r + 1)
unfolding is_current_request
reserve_is_current slot store_name r =
    ground (arith, reserve_versions slot slot store_name r, ===_iff slot slot)

-- Once a later request of the slot has started, an earlier one is not current, however the requests of
-- this slot and of others go on to start, to enter and leave the table, to commit their results and to
-- end, and caches are pruned and deleted, as long as none of this forgets the request numbers of the slot.
pub overtaken_stays_stale :
    (slot : String) (store_name : Option String) (version : ℕ) (r : AsyncRegistry)
    {s : AsyncRegistry}
    → 0 < version
    → version ≤ sequence_of slot r
    → Steps slot (reserve_request_version slot store_name r).1 s
    → is_current_request slot version s ≡ false
unfolding is_current_request
overtaken_stays_stale slot store_name version r {s} positive handed rs =
    let h =
      steps-IsOvertaken slot version rs
        (ground (arith, reserve_versions slot slot store_name r, ===_iff slot slot)) in
    ground arith
