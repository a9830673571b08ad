-- ===== src/Async/Slots/Frame.antt =====
-- Tracking and releasing a slot touch the index alone.
use stroid.Base.{String, Option, none, some, ◌≡◌, refl, arith, Option-cases, inl, inr}
use stroid.Base.Dict.{lookup}
use stroid.Async.State.{AsyncRegistry}
use stroid.Async.Slots.{
  remove_tracked_async_slot, track_async_slot, track_if_named, release_async_slot_if_orphaned,
  has_slot_references,
}

pub record SameTables (r r' : AsyncRegistry) : Type 0 where
  pub inflight : r'.inflight ≡ r.inflight
  pub versions : r'.request_version ≡ r.request_version
  pub sequences : r'.request_sequence ≡ r.request_sequence
  pub cache : r'.cache_meta ≡ r.cache_meta
  pub starts : r'.rate_window_start ≡ r.rate_window_start
  pub counts : r'.rate_count ≡ r.rate_count
  pub pruned : r'.rate_prune_last_at ≡ r.rate_prune_last_at

pub remove_tracked-SameTables :
    (name slot : String) (r : AsyncRegistry) → SameTables r (remove_tracked_async_slot name slot r)
unfolding remove_tracked_async_slot
remove_tracked-SameTables name slot r = ground arith

track-SameTables :
    (name slot : String) (r : AsyncRegistry) → SameTables r (track_async_slot name slot r)
unfolding track_async_slot
track-SameTables name slot r = elim (Option-cases (lookup slot r.slot_owners)) [
  | inl e ↦ ground arith
  | inr (owner, e) ↦ ground (arith, remove_tracked-SameTables owner slot r)
]

pub track_if_named-SameTables :
    (store_name : Option String) (slot : String) (r : AsyncRegistry)
    → SameTables r (track_if_named store_name slot r)
unfolding track_if_named
track_if_named-SameTables none slot r = ground arith
track_if_named-SameTables (some name) slot r = ground (arith, track-SameTables name slot r)

pub release-SameTables :
    (slot : String) (r : AsyncRegistry) → SameTables r (release_async_slot_if_orphaned slot r)
unfolding release_async_slot_if_orphaned
release-SameTables slot r = elim (Option-cases (lookup slot r.slot_owners)) [
  | inl e ↦ ground arith
  | inr (owner, e) ↦ ground (arith, remove_tracked-SameTables owner slot r)
]

-- Whether a slot is referred to does not depend on the index.
pub references-remove_tracked :
    (name slot s : String) (r : AsyncRegistry)
    → has_slot_references s (remove_tracked_async_slot name slot r) ≡ has_slot_references s r
unfolding remove_tracked_async_slot has_slot_references
references-remove_tracked name slot s r = refl
