-- ===== src/Async/Tests.antt =====
-- Runs of the async feature on small registries.
use stroid.Base.{
  ℕ, ◌<◌, ◌≤◌, ◌↔◌, or_else, ◌===◌, String, true, false, none, some, [], ◌∷◌, ◌≡◌, ◌≢◌, refl, arith,
  ===_iff,
}
use stroid.Base.Dict.{lookup}
use stroid.Base.Names.{has}
use stroid.Async.State.{AsyncRegistry, CacheMeta, InflightEntry, empty_registry}
use stroid.Async.Slots.{
  remove_tracked_async_slot, track_if_named, track_async_slot, release_async_slot_if_orphaned,
  has_slot_references,
}
use stroid.Async.Slots.Index.{IsIndexed, IsReferenced, track-IsIndexed, release-IsIndexed, slots_of}
use stroid.Async.Rate.{register_rate_hit, prune_rate_counters_for_registry}
use stroid.Async.Rate.Window.{Hit, accepted, accepted-eq-min}
use stroid.Async.Rate.Prune.{register_rate_hit-prune}
use stroid.Async.Requests.{
  is_current_request, reserve_request_version, clear_inflight_entry, DedupeRequest,
  try_dedupe_request, same_request_contract, same_result_contract,
}
use stroid.Async.Requests.Versions.{KeepsNumbers, here, next, commit, finish, overtaken_stays_stale}
use stroid.Async.Requests.Dedupe.{SameContract, joined-SameContract}
use stroid.Async.Cache.{commit_result, note_async_cache_write, should_use_cache, clear_async_meta}
use stroid.Async.Cache.Expiry.{IsFresh, should_use_cache_iff}
use stroid.Async.Cache.Deletion.{clear_async_meta_forgets}

abbrev users : String
users = "users"

users_is_named : users ≢ ""
users_is_named e = ground (arith, e, ===_iff "users" "")

-- The slot "users:1" belongs to another store, and nothing refers to it.
abbrev with_owner : AsyncRegistry
with_owner = record empty_registry {
  slot_owners = ("users:1", "posts") ∷ [];
  slots_by_store = ("posts", "users:1" ∷ []) ∷ [];
}

with_owner-IsIndexed : IsIndexed with_owner
with_owner-IsIndexed = record {
  agree = λ slot name. ground (arith, ===_iff "users:1" slot, ===_iff "posts" name);
  named = λ slot e. ground (arith, e, ===_iff "users:1" slot, ===_iff "posts" "");
}

track-IsIndexed_example :
    IsIndexed (track_async_slot "users" "users:1" with_owner)
    × ((n : String)
        → has "users:1" (slots_of n (track_async_slot "users" "users:1" with_owner))
          ≡ ("users" === n))
    × ((s : String)
        → ◌≢◌ {A = String} "users:1" s
        → lookup s (track_async_slot "users" "users:1" with_owner).slot_owners
          ≡ lookup s with_owner.slot_owners)
track-IsIndexed_example =
    track-IsIndexed "users" "users:1" with_owner users_is_named with_owner-IsIndexed

release-IsIndexed_example :
    let r' = release_async_slot_if_orphaned "users:1" with_owner in
    IsIndexed r'
    × (IsReferenced "users:1" with_owner → r' ≡ with_owner)
    × (¬ IsReferenced "users:1" with_owner
        → ((n : String) → has "users:1" (slots_of n r') ≡ false)
          × ((s : String)
              → ◌≢◌ {A = String} "users:1" s
              → lookup s r'.slot_owners ≡ lookup s with_owner.slot_owners))
release-IsIndexed_example = release-IsIndexed "users:1" with_owner refl with_owner-IsIndexed

abbrev hit_at : ℕ → Hit
hit_at at = record { slot = "users"; at = at; store_name = some "users" }

accepted-eq-min_example :
    accepted "users" (hit_at 5 ∷ hit_at 7 ∷ hit_at 900 ∷ []) empty_registry ≡ 3
accepted-eq-min_example =
    accepted-eq-min "users" (hit_at 5) (hit_at 7 ∷ hit_at 900 ∷ []) empty_registry refl refl
      ((λ e. omega arith), ((λ e. omega arith), tt))

abbrev with_window : AsyncRegistry
with_window = record empty_registry {
  rate_window_start = ("users", 0) ∷ ("posts", 4500) ∷ [];
  rate_count = ("users", 3) ∷ ("posts", 2) ∷ [];
}

register_rate_hit-prune_example :
    (register_rate_hit "posts" 5000 none (prune_rate_counters_for_registry 5000 with_window)).0
    ≡ (register_rate_hit "posts" 5000 none with_window).0
register_rate_hit-prune_example =
    register_rate_hit-prune 5000 5000 "posts" none with_window (omega arith)

abbrev started : AsyncRegistry
started = record empty_registry {
  request_version = ("users", 1) ∷ [];
  request_sequence = ("users", 1) ∷ [];
  inflight =
      ("users", record { promise = 7; transform = none; clone_result = none; contract = none })
      ∷ [];
}

-- A later request has the number 2, commits its result and ends.
abbrev later : AsyncRegistry
later = (reserve_request_version "users" none started).1

later_keeps : KeepsNumbers "users" later (commit_result 50 "users" "users" 2 none 9 later).1
unfolding reserve_request_version commit_result is_current_request track_if_named track_async_slot
    note_async_cache_write remove_tracked_async_slot
later_keeps = (refl, refl)

overtaken_stays_stale_example :
    is_current_request "users" 1
      (clear_inflight_entry "users" (commit_result 50 "users" "users" 2 none 9 later).1)
    ≡ false
overtaken_stays_stale_example =
    overtaken_stays_stale "users" none 1 started (omega arith) (omega arith) (
      next (next here (commit 50 "users" "users" 2 none 9 later later_keeps))
        (finish "users" (commit_result 50 "users" "users" 2 none 9 later).1))

abbrev same_request : DedupeRequest
same_request = record { contract = none; transform = none; clone_result = none }

joined-SameContract_example :
    (active : InflightEntry) × (lookup "users" started.inflight ≡ some active)
    × (active.promise ≡ 7)
    × (active.transform ≡ none)
    × (active.clone_result ≡ none)
    × SameContract active.contract none
unfolding try_dedupe_request same_request_contract same_result_contract
joined-SameContract_example = joined-SameContract "users" "users" same_request started 7 refl

abbrev with_cache : AsyncRegistry
with_cache = record empty_registry {
  cache_meta = ("users", record { timestamp = 100; expires_at = some 1000; content = 3 }) ∷ [];
  request_version = ("users", 1) ∷ [];
  request_sequence = ("users", 1) ∷ [];
  slot_owners = ("users", "users") ∷ [];
  slots_by_store = ("users", "users" ∷ []) ∷ [];
}

should_use_cache_iff_example :
    ((should_use_cache 150 "users" (some 60) with_cache).0 ≡ true
      ↔ IsFresh 150 "users" (some 60) with_cache)
    × ((should_use_cache 150 "users" (some 60) with_cache).0 ≡ true
        → (should_use_cache 150 "users" (some 60) with_cache).1 ≡ with_cache)
    × ((m : CacheMeta) (at : ℕ)
        → lookup "users" with_cache.cache_meta ≡ some m
        → m.expires_at ≡ some at
        → at ≤ 150
        → 0 < or_else (some 60) 0
        → lookup "users" (should_use_cache 150 "users" (some 60) with_cache).1.cache_meta ≡ none)
should_use_cache_iff_example = should_use_cache_iff 150 "users" (some 60) with_cache refl

clear_async_meta_forgets_example :
    (has_slot_references users (clear_async_meta users with_cache) ≡ false)
    × (has "posts" (slots_of users with_cache) ≡ true
        → has_slot_references "posts" (clear_async_meta users with_cache) ≡ false)
    × (slots_of users with_cache ≢ []
        → has "posts" (slots_of users with_cache) ≡ false
        → ◌≢◌ {A = String} "posts" users
        → has_slot_references "posts" (clear_async_meta users with_cache)
          ≡ has_slot_references "posts" with_cache)
clear_async_meta_forgets_example = clear_async_meta_forgets users "posts" with_cache
