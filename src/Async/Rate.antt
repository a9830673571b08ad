-- ===== src/Async/Rate.antt =====
-- The rate limiter (src/async/rate.ts): a window of one second for each cache slot. A difference of
-- times below zero fails `> RATE_WINDOW_MS` and passes `< RATE_WINDOW_MS`, as 0 does, so that the
-- differences may stop at 0. The deletions of the prune go to keys that the forbidden names,
-- which `safeDeleteKey` guards elsewhere, do not concern.
pub mod Window
pub mod Prune
use stroid.Base.{
  ℕ, ◌+◌, ◌-◌, String, Bool, true, false, Option, none, some, List, [], ◌∷◌, ltb, leb,
  if◌then◌else◌, or_else,
}
use stroid.Base.Dict.{Dict, lookup, insert, erase, keys}
use stroid.Async.State.{AsyncRegistry}
use stroid.Async.Slots.{track_if_named, release_async_slot_if_orphaned}

abbrev pub rate_window_ms : ℕ
rate_window_ms = 1000

abbrev pub rate_max : ℕ
rate_max = 100

-- A live window: one that was opened less than a second before.
abbrev pub is_live : ℕ → Option ℕ → Bool
is_live now_ts none = false
is_live now_ts (some start) = ltb (now_ts - start) rate_window_ms

abbrev pub open_window : String → ℕ → AsyncRegistry → AsyncRegistry
open_window slot now_ts r = record r {
  rate_window_start = insert slot now_ts r.rate_window_start;
  rate_count = insert slot 1 r.rate_count;
}

abbrev pub count_of : String → AsyncRegistry → ℕ
count_of slot r = or_else (lookup slot r.rate_count) 0

-- The body of `registerRateHit` behind the tracking.
abbrev pub hit_window : String → ℕ → AsyncRegistry → Bool × AsyncRegistry
hit_window slot now_ts r =
    if is_live now_ts (lookup slot r.rate_window_start)
    then if leb rate_max (count_of slot r)
      then (true, r)
      else (false, record r { rate_count = insert slot (count_of slot r + 1) r.rate_count })
    else (false, open_window slot now_ts r)

-- The result says whether the hit is refused.
pub register_rate_hit : String → ℕ → Option String → AsyncRegistry → Bool × AsyncRegistry
register_rate_hit slot now_ts store_name r =
    hit_window slot now_ts (track_if_named store_name slot r)

abbrev drop_window : String → AsyncRegistry → AsyncRegistry
drop_window key r = record r {
  rate_window_start = erase key r.rate_window_start;
  rate_count = erase key r.rate_count;
}

pub prune_key : ℕ → String → AsyncRegistry → AsyncRegistry
prune_key now_ts key r =
    if ltb rate_window_ms (now_ts - or_else (lookup key r.rate_window_start) 0)
    then release_async_slot_if_orphaned key (drop_window key r)
    else r

-- `forEach` over the keys that were there at the start.
pub prune_keys : ℕ → List String → AsyncRegistry → AsyncRegistry
prune_keys now_ts [] r = r
prune_keys now_ts (key ∷ ks) r = prune_keys now_ts ks (prune_key now_ts key r)

pub prune_rate_counters_for_registry : ℕ → AsyncRegistry → AsyncRegistry
prune_rate_counters_for_registry now_ts r =
    if ltb (now_ts - r.rate_prune_last_at) rate_window_ms
    then r
    else prune_keys now_ts (keys r.rate_window_start) (record r { rate_prune_last_at = now_ts })
