-- ===== src/Async/Cache.antt =====
-- The cache of results (src/async/cache.ts) and what a fetch does when its result is there
-- (src/async/fetch/fetch-store.ts). `now` is the one time that a call reads.
pub mod Expiry
pub mod Deletion
use Prim.Native.String.{◌++◌ as text_append}
use text.Mathlib.Text.{starts_with}
use stroid.Base.{
  ℕ, ◌+◌, ◌-◌, String, Bool, true, false, not, ◌&&◌, ◌||◌, Option, none, some, List, [], ◌∷◌, ◌++◌,
  ◌==◌, ◌===◌, if◌then◌else◌, or_else, is_some, ltb, leb, length, take, drop,
}
use stroid.Base.Dict.{Dict, lookup, insert, erase, has_key, keys}
use stroid.Base.Names.{has, add}
use stroid.Async.State.{AsyncRegistry, CacheMeta, InflightEntry}
use stroid.Async.Slots.{
  safe_delete_key, safe_get_key, safe_has_key, track_async_slot, release_async_slot_if_orphaned,
  remove_tracked_async_slot,
}
use stroid.Async.Requests.{is_current_request}

abbrev pub max_cache_slots_per_store : ℕ
max_cache_slots_per_store = 100

abbrev pub cache_prune_interval_writes : ℕ
cache_prune_interval_writes = 32

is_store_slot : String → String → Bool
is_store_slot name key = key === name || starts_with key (text_append name ":")

-- The slots that the index gives to the store.
owned_slots : String → Dict String → List String → List String
owned_slots name [] slots = slots
owned_slots name ((slot, owner) ∷ rest) slots =
    owned_slots name rest (if owner === name then add slot slots else slots)

abbrev is_legacy_slot : String → String → Option String → Bool
unfolding is_store_slot
is_legacy_slot name key none = is_store_slot name key
is_legacy_slot name key (some owner) = owner === name

collect_legacy_slots : String → Dict String → List String → List String → List String
collect_legacy_slots name owners [] slots = slots
collect_legacy_slots name owners (key ∷ ks) slots =
    collect_legacy_slots name owners ks
      (if is_legacy_slot name key (lookup key owners) then add key slots else slots)

abbrev has_base_slot : String → AsyncRegistry → Bool
has_base_slot name r =
    safe_has_key r.inflight name
    || safe_has_key r.request_version name
    || safe_has_key r.request_sequence name
    || safe_has_key r.cache_meta name
    || safe_has_key r.rate_window_start name
    || safe_has_key r.rate_count name

pub collect_store_slots_by_scan : String → AsyncRegistry → List String
unfolding owned_slots collect_legacy_slots
collect_store_slots_by_scan name r =
    let legacy = collect_legacy_slots name r.slot_owners in
    let slots = legacy (keys r.rate_count) (
      legacy (keys r.rate_window_start) (
        legacy (keys r.cache_meta) (
          legacy (keys r.request_sequence) (
            legacy (keys r.request_version)
              (legacy (keys r.inflight) (owned_slots name r.slot_owners [])))))) in
    if has_base_slot name r then add name slots else slots

abbrev tracked_or_scanned : String → Option (List String) → AsyncRegistry → List String
tracked_or_scanned name none r = collect_store_slots_by_scan name r
tracked_or_scanned name (some slots) r = slots

-- `getAsyncSlotsByStore().get(name) ?? collectStoreSlotsByScan(name)`
unfoldable pub tracked_slots : String → AsyncRegistry → List String
tracked_slots name r = tracked_or_scanned name (lookup name r.slots_by_store) r

abbrev pub is_expired : ℕ → Option ℕ → Bool
is_expired now none = false
is_expired now (some at) = leb at now

abbrev fresh_within : ℕ → ℕ → Option CacheMeta → String → AsyncRegistry → Bool × AsyncRegistry
fresh_within now ttl none slot r = (false, r)
fresh_within now ttl (some m) slot r =
    if is_expired now m.expires_at
    then (
      false,
      release_async_slot_if_orphaned slot
          (record r { cache_meta = safe_delete_key r.cache_meta slot }),
    )
    else (ltb (now - m.timestamp) ttl, r)

-- `ttl` of 0 is falsy, as a missing one is.
unfoldable pub should_use_cache : ℕ → String → Option ℕ → AsyncRegistry → Bool × AsyncRegistry
should_use_cache now slot ttl r =
    if or_else ttl 0 == 0
    then (false, r)
    else fresh_within now (or_else ttl 0) (safe_get_key r.cache_meta slot) slot r

abbrev slot_count : String → AsyncRegistry → ℕ
slot_count name r = length (or_else (lookup name r.slots_by_store) [])

unfoldable pub note_async_cache_write : String → AsyncRegistry → Bool × AsyncRegistry
note_async_cache_write name r =
    let next = or_else (lookup name r.cache_prune_counters) 0 + 1 in
    (
      ltb max_cache_slots_per_store (slot_count name r) || leb cache_prune_interval_writes next,
      record r { cache_prune_counters = insert name next r.cache_prune_counters },
    )

abbrev reset_async_prune_counter : String → AsyncRegistry → AsyncRegistry
reset_async_prune_counter name r = record r {
  cache_prune_counters = erase name r.cache_prune_counters;
}

-- What the prune removes of a slot: the cached result and both request numbers.
pub evict_slot : String → AsyncRegistry → AsyncRegistry
evict_slot slot r = release_async_slot_if_orphaned slot (record r {
  cache_meta = safe_delete_key r.cache_meta slot;
  request_version = safe_delete_key r.request_version slot;
  request_sequence = safe_delete_key r.request_sequence slot;
})

abbrev expire_meta : ℕ → Option CacheMeta → String → AsyncRegistry → AsyncRegistry
expire_meta now none slot r = r
expire_meta now (some m) slot r = if is_expired now m.expires_at then evict_slot slot r else r

abbrev keep_meta : ℕ → Option CacheMeta → String → List (String × ℕ) → List (String × ℕ)
keep_meta now none slot kept = kept
keep_meta now (some m) slot kept =
    if is_expired now m.expires_at then kept else (slot, m.timestamp) ∷ kept

-- Evicts what has expired, and lists the other cached slots with their timestamps.
pub evict_expired : ℕ → List String → AsyncRegistry → List (String × ℕ) × AsyncRegistry
evict_expired now [] r = ([], r)
evict_expired now (slot ∷ slots) r =
    let m = safe_get_key r.cache_meta slot in
    let (kept, r') = evict_expired now slots (expire_meta now m slot r) in
    (keep_meta now m slot kept, r')

-- `slots.sort((a, b) => a[1].timestamp - b[1].timestamp)`, which is stable.
pub insert_by_timestamp : String × ℕ → List (String × ℕ) → List (String × ℕ)
insert_by_timestamp e [] = e ∷ []
insert_by_timestamp (s, t) ((s', t') ∷ rest) =
    if leb t t' then (s, t) ∷ (s', t') ∷ rest else (s', t') ∷ insert_by_timestamp (s, t) rest

pub sort_by_timestamp : List (String × ℕ) → List (String × ℕ)
unfolding insert_by_timestamp
sort_by_timestamp [] = []
sort_by_timestamp (e ∷ rest) = insert_by_timestamp e (sort_by_timestamp rest)

pub evict_all : List (String × ℕ) → AsyncRegistry → AsyncRegistry
evict_all [] r = r
evict_all ((slot, _) ∷ rest) r = evict_all rest (evict_slot slot r)

pub prune_async_cache : ℕ → String → AsyncRegistry → AsyncRegistry
prune_async_cache now name r =
    let (slots, r') = evict_expired now (tracked_slots name r) r in
    let overflow = length slots - max_cache_slots_per_store in
    if leb (length slots) max_cache_slots_per_store
    then reset_async_prune_counter name r'
    else reset_async_prune_counter name (evict_all (take overflow (sort_by_timestamp slots)) r')

abbrev expiry_of : ℕ → Option ℕ → Option ℕ
expiry_of now none = none
expiry_of now (some ttl) = if ttl == 0 then none else some (now + ttl)

abbrev prune_if_due : ℕ → String → Bool × AsyncRegistry → AsyncRegistry
prune_if_due now name (due, r) = if due then prune_async_cache now name r else r

-- The end of a fetch whose result is there: it commits only if it is still the current request of
-- its slot. The result says whether the store is written.
unfoldable pub commit_result :
    ℕ → String → String → ℕ → Option ℕ → ℕ → AsyncRegistry → Bool × AsyncRegistry
commit_result now name slot version ttl result r =
    if not (is_current_request slot version r)
    then (false, r)
    else let cached = record r {
      cache_meta =
          insert slot (record { timestamp = now; expires_at = expiry_of now ttl; content = result })
            r.cache_meta;
    } in
      (
        true,
        prune_if_due now name (note_async_cache_write name (track_async_slot name slot cached)),
      )

count_present : List String → Dict InflightEntry → ℕ
count_present [] inflight = 0
count_present (slot ∷ slots) inflight =
    let rest = count_present slots inflight in if safe_has_key inflight slot then rest + 1 else rest

count_legacy : String → Dict String → List String → ℕ
count_legacy name owners [] = 0
count_legacy name owners (key ∷ ks) =
    let rest = count_legacy name owners ks in
    if is_legacy_slot name key (lookup key owners) then rest + 1 else rest

abbrev count_tracked : String → List String → AsyncRegistry → ℕ
count_tracked name [] r = count_legacy name r.slot_owners (keys r.inflight)
count_tracked name (slot ∷ slots) r = count_present (slot ∷ slots) r.inflight

pub count_inflight_slots : String → AsyncRegistry → ℕ
count_inflight_slots name r = count_tracked name (or_else (lookup name r.slots_by_store) []) r

abbrev pub clear_tables : String → AsyncRegistry → AsyncRegistry
clear_tables slot r = record r {
  inflight = safe_delete_key r.inflight slot;
  request_version = safe_delete_key r.request_version slot;
  request_sequence = safe_delete_key r.request_sequence slot;
  cache_meta = safe_delete_key r.cache_meta slot;
  rate_window_start = safe_delete_key r.rate_window_start slot;
  rate_count = safe_delete_key r.rate_count slot;
}

-- What `clearAsyncMeta` does with one slot.
pub clear_slot : String → String → AsyncRegistry → AsyncRegistry
clear_slot name slot r = remove_tracked_async_slot name slot (clear_tables slot r)

pub clear_slots : String → List String → AsyncRegistry → AsyncRegistry
clear_slots name [] r = r
clear_slots name (slot ∷ slots) r = clear_slots name slots (clear_slot name slot r)

abbrev cleared_slots : String → List String → AsyncRegistry → List String
cleared_slots name [] r = add name (collect_store_slots_by_scan name r)
cleared_slots name (slot ∷ slots) r = add name (slot ∷ slots)

pub clear_async_meta : String → AsyncRegistry → AsyncRegistry
clear_async_meta name r =
    let r' =
      clear_slots name (cleared_slots name (or_else (lookup name r.slots_by_store) []) r) r in
    record r' {
      slots_by_store = erase name r'.slots_by_store;
      cache_prune_counters = erase name r'.cache_prune_counters;
      store_dedupes = erase name r'.store_dedupes;
    }
