-- ===== src/Async/Cache/Deletion.antt =====
-- What the deletion of a store removes.
use stroid.Base.{
  String, true, false, not, ◌&&◌, ◌||◌, List, [], ◌∷◌, ◌===◌, ===_iff, ===_refl, ◌≡◌, ◌≢◌, ◌∙◌,
  refl, arith,
}
use stroid.Base.Dict.{Dict, lookup-erase}
use stroid.Base.Names.{has, has-add}
use stroid.Async.State.{AsyncRegistry}
use stroid.Async.Slots.{safe_delete_key, safe_has_key, has_slot_references}
use stroid.Async.Slots.Frame.{references-remove_tracked}
use stroid.Async.Slots.Index.{slots_of}
use stroid.Async.Cache.{
  clear_tables, clear_slot, clear_slots, clear_async_meta, cleared_slots,
  collect_store_slots_by_scan,
}

safe_has-safe_delete :
    {V : Type 0} (k j : String) (m : Dict V)
    → safe_has_key (safe_delete_key m k) j ≡ (not (k === j) && safe_has_key m j)
safe_has-safe_delete k j m = ground (arith, ===_iff k j, lookup-erase j k m)

references-clear_slot :
    (name slot s : String) (r : AsyncRegistry)
    → has_slot_references s (clear_slot name slot r) ≡ (not (slot === s) && has_slot_references s r)
unfolding clear_slot has_slot_references
references-clear_slot name slot s r =
    references-remove_tracked name slot s (clear_tables slot r)
    ∙ (unfold has_slot_references in
        ground (
          arith,
          safe_has-safe_delete slot s r.inflight,
          safe_has-safe_delete slot s r.request_version,
          safe_has-safe_delete slot s r.request_sequence,
          safe_has-safe_delete slot s r.cache_meta,
          safe_has-safe_delete slot s r.rate_window_start,
          safe_has-safe_delete slot s r.rate_count,
        ))

references-clear_slots :
    (name : String) (slots : List String) (s : String) (r : AsyncRegistry)
    → has_slot_references s (clear_slots name slots r)
      ≡ (not (has s slots) && has_slot_references s r)
unfolding clear_slots
references-clear_slots name [] s r = refl
references-clear_slots name (slot ∷ slots) s r = ground (
  arith,
  references-clear_slots name slots s (clear_slot name slot r),
  references-clear_slot name slot s r,
)

references-clear_async_meta :
    (name s : String) (r : AsyncRegistry)
    → has_slot_references s (clear_async_meta name r)
      ≡ (not (has s (cleared_slots name (slots_of name r) r)) && has_slot_references s r)
unfolding clear_async_meta has_slot_references
references-clear_async_meta name s r =
    references-clear_slots name (cleared_slots name (slots_of name r) r) s r

has-cleared_slots :
    (name slot : String) (slots : List String) (r : AsyncRegistry)
    → (has name (cleared_slots name slots r) ≡ true)
      × (has slot slots ≡ true → has slot (cleared_slots name slots r) ≡ true)
      × (slots ≢ [] → has slot (cleared_slots name slots r) ≡ (name === slot || has slot slots))
has-cleared_slots name slot [] r = (
  ground (arith, has-add name name (collect_store_slots_by_scan name r), ===_iff name name),
  λ h. cc,
  λ h. absurd (h refl),
)
has-cleared_slots name slot (s ∷ slots) r = (
  rw (has-add name name (s ∷ slots), ===_refl name),
  λ h. rw (has-add slot name (s ∷ slots), h) (ground arith),
  λ h. has-add slot name (s ∷ slots),
)

-- After a store is deleted no table refers to its base slot or to any slot that the index gave to
-- it, and every reference to a slot outside those is as it was when the index knew of slots.
pub clear_async_meta_forgets :
    (name slot : String) (r : AsyncRegistry)
    → (has_slot_references name (clear_async_meta name r) ≡ false)
      × (has slot (slots_of name r) ≡ true
          → has_slot_references slot (clear_async_meta name r) ≡ false)
      × (slots_of name r ≢ []
          → has slot (slots_of name r) ≡ false
          → slot ≢ name
          → has_slot_references slot (clear_async_meta name r) ≡ has_slot_references slot r)
clear_async_meta_forgets name slot r =
    let (base, kept, exact) = has-cleared_slots name slot (slots_of name r) r in
    let on_base = references-clear_async_meta name name r in
    let on_slot = references-clear_async_meta name slot r in
    (
      on_base ∙ rw base,
      λ owned. on_slot ∙ rw (kept owned),
      λ known apart other. on_slot ∙ rw (exact known) (ground (arith, ===_iff name slot)),
    )
