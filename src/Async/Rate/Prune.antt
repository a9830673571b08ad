-- ===== src/Async/Rate/Prune.antt =====
-- The prune of rate windows: what it removes, and that it never changes a decision.
use stroid.Base.{
  ℕ, ◌-◌, ◌≤◌, String, Bool, false, ◌&&◌, Option, none, List, [], ◌∷◌, ◌===◌, ===_iff, ◌≡◌, refl,
  arith, if◌then◌else◌, or_else, ltb, leb, Option-cases,
}
use stroid.Base.Dict.{lookup, keys, lookup-erase, has-keys}
use stroid.Base.Names.{has}
use stroid.Async.State.{AsyncRegistry}
use stroid.Async.Slots.Frame.{track_if_named-SameTables, release-SameTables}
use stroid.Async.Rate.{
  register_rate_hit, count_of, rate_window_ms, is_live, rate_max, prune_key, prune_keys,
  prune_rate_counters_for_registry, drop_window,
}

-- The window of the slot is more than a second old; a slot without one counts as opened at 0.
abbrev pub is_stale : ℕ → String → AsyncRegistry → Bool
is_stale now_ts slot r = ltb rate_window_ms (now_ts - or_else (lookup slot r.rate_window_start) 0)

starts-prune_key :
    (now_ts : ℕ) (key slot : String) (r : AsyncRegistry)
    → lookup slot (prune_key now_ts key r).rate_window_start
      ≡ (if key === slot && is_stale now_ts slot r then none else lookup slot r.rate_window_start)
unfolding prune_key
starts-prune_key now_ts key slot r = ground (
  arith,
  release-SameTables key (drop_window key r),
  lookup-erase slot key r.rate_window_start,
  ===_iff key slot,
)

counts-prune_key :
    (now_ts : ℕ) (key slot : String) (r : AsyncRegistry)
    → lookup slot (prune_key now_ts key r).rate_count
      ≡ (if key === slot && is_stale now_ts slot r then none else lookup slot r.rate_count)
unfolding prune_key
counts-prune_key now_ts key slot r = ground (
  arith,
  release-SameTables key (drop_window key r),
  lookup-erase slot key r.rate_count,
  ===_iff key slot,
)

starts-prune_keys :
    (now_ts : ℕ) (ks : List String) (slot : String) (r : AsyncRegistry)
    → lookup slot (prune_keys now_ts ks r).rate_window_start
      ≡ (if has slot ks && is_stale now_ts slot r then none else lookup slot r.rate_window_start)
unfolding prune_keys
starts-prune_keys now_ts [] slot r = refl
starts-prune_keys now_ts (key ∷ ks) slot r = ground (
  arith,
  starts-prune_keys now_ts ks slot (prune_key now_ts key r),
  starts-prune_key now_ts key slot r,
)

counts-prune_keys :
    (now_ts : ℕ) (ks : List String) (slot : String) (r : AsyncRegistry)
    → lookup slot (prune_keys now_ts ks r).rate_count
      ≡ (if has slot ks && is_stale now_ts slot r then none else lookup slot r.rate_count)
unfolding prune_keys
counts-prune_keys now_ts [] slot r = refl
counts-prune_keys now_ts (key ∷ ks) slot r = ground (
  arith,
  counts-prune_keys now_ts ks slot (prune_key now_ts key r),
  starts-prune_key now_ts key slot r,
  counts-prune_key now_ts key slot r,
)

-- A prune removes exactly the windows that are more than a second old, and it does so at most once
-- a second.
pub starts-prune :
    (now_ts : ℕ) (slot : String) (r : AsyncRegistry)
    → lookup slot (prune_rate_counters_for_registry now_ts r).rate_window_start ≡ (
        if ltb (now_ts - r.rate_prune_last_at) rate_window_ms
        then lookup slot r.rate_window_start
        else if is_stale now_ts slot r
        then none
        else lookup slot r.rate_window_start)
unfolding prune_rate_counters_for_registry
starts-prune now_ts slot r = ground (
  arith,
  starts-prune_keys now_ts (keys r.rate_window_start) slot
      (record r { rate_prune_last_at = now_ts }),
  has-keys slot r.rate_window_start,
)

counts-prune :
    (now_ts : ℕ) (slot : String) (r : AsyncRegistry)
    → is_stale now_ts slot r ≡ false
    → lookup slot (prune_rate_counters_for_registry now_ts r).rate_count ≡ lookup slot r.rate_count
unfolding prune_rate_counters_for_registry
counts-prune now_ts slot r fresh = ground (
  arith,
  counts-prune_keys now_ts (keys r.rate_window_start) slot
      (record r { rate_prune_last_at = now_ts }),
)

-- What a hit's verdict rests on: the start of the window and the count.
verdict_of :
    (now_ts : ℕ) (slot : String) (store_name : Option String) (r : AsyncRegistry)
    → (register_rate_hit slot now_ts store_name r).0
      ≡ (is_live now_ts (lookup slot r.rate_window_start) && leb rate_max (count_of slot r))
unfolding register_rate_hit
verdict_of now_ts slot store_name r = ground (arith, track_if_named-SameTables store_name slot r)

-- Pruning at any time up to that of a hit leaves the verdict on the hit as it is.
pub register_rate_hit-prune :
    (pruned_at now_ts : ℕ) (slot : String) (store_name : Option String) (r : AsyncRegistry)
    → pruned_at ≤ now_ts
    → (register_rate_hit slot now_ts store_name (prune_rate_counters_for_registry pruned_at r)).0
      ≡ (register_rate_hit slot now_ts store_name r).0
register_rate_hit-prune pruned_at now_ts slot store_name r before =
    rw
      (
        verdict_of now_ts slot store_name (prune_rate_counters_for_registry pruned_at r),
        verdict_of now_ts slot store_name r,
      )
      (ground (
        arith,
        starts-prune pruned_at slot r,
        counts-prune pruned_at slot r,
        Option-cases (lookup slot r.rate_window_start),
      ))
