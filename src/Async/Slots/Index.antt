-- ===== src/Async/Slots/Index.antt =====
-- The two directions of the index agree, whatever is tracked and released.
use stroid.Base.{
  true, Bool-cases, refl, String, Bool, false, not, ◌&&◌, Option, none, some, List, [], ◌∷◌, ◌===◌,
  ===_iff, ◌≡◌, ◌≢◌, ◌⊎◌, arith, if◌then◌else◌, or_else, Option-cases, inl, inr,
}
use stroid.Base.Dict.{Dict, has_key, lookup, lookup-insert, lookup-erase}
use stroid.Base.Names.{has, add, remove, truthy, has-add, has-remove}
use stroid.Async.State.{AsyncRegistry}
use stroid.Async.Slots.{
  remove_tracked_async_slot, track_async_slot, track_if_named, release_async_slot_if_orphaned,
  without_slot, set_or_delete, drop_previous, set_owner, release_owned, has_slot_references,
  is_forbidden_object_key,
}

-- The slots of a store; a store that is not in the map has none.
abbrev pub slots_of : String → AsyncRegistry → List String
slots_of name r = or_else (lookup name r.slots_by_store) []

abbrev owns : String → Option String → Bool
owns name none = false
owns name (some owner) = owner === name

pub record IsIndexed (r : AsyncRegistry) : Type 0 where
  pub agree :
      (slot name : String) → has slot (slots_of name r) ≡ owns name (lookup slot r.slot_owners)
  pub named : (slot : String) → lookup slot r.slot_owners ≢ some ""

lookup-set_or_delete :
    (n name : String) (slots : List String) (m : Dict (List String))
    → or_else (lookup n (set_or_delete name slots m)) []
      ≡ (if name === n then slots else or_else (lookup n m) [])
lookup-set_or_delete n name [] m = ground (arith, lookup-erase n name m)
lookup-set_or_delete n name (s ∷ slots) m = ground (arith, lookup-insert n name (s ∷ slots) m)

lookup-without_slot :
    (n name slot : String) (m : Dict (List String))
    → or_else (lookup n (without_slot name slot (lookup name m) m)) []
      ≡ (if name === n then remove slot (or_else (lookup n m) []) else or_else (lookup n m) [])
lookup-without_slot n name slot m = elim (Option-cases (lookup name m)) [
  | inl e ↦ ground (arith, ===_iff name n)
  | inr (slots, e) ↦
      ground (arith, ===_iff name n, lookup-set_or_delete n name (remove slot slots) m)
]

has-slots_of-remove_tracked :
    (s n name slot : String) (r : AsyncRegistry)
    → has s (slots_of n (remove_tracked_async_slot name slot r))
      ≡ (if name === n then not (slot === s) && has s (slots_of n r) else has s (slots_of n r))
unfolding remove_tracked_async_slot
has-slots_of-remove_tracked s n name slot r =
    ground
      (arith, lookup-without_slot n name slot r.slots_by_store, has-remove s slot (slots_of n r))

owners-remove_tracked :
    (s name slot : String) (r : AsyncRegistry)
    → lookup s (remove_tracked_async_slot name slot r).slot_owners
      ≡ (if slot === s then none else lookup s r.slot_owners)
unfolding remove_tracked_async_slot
owners-remove_tracked s name slot r = lookup-erase s slot r.slot_owners

-- The owner that is removed is the one that the index names.
remove_tracked-IsIndexed :
    (name slot : String) (r : AsyncRegistry)
    → lookup slot r.slot_owners ≡ some name
    → IsIndexed r
    → IsIndexed (remove_tracked_async_slot name slot r)
remove_tracked-IsIndexed name slot r e h = record {
  agree = λ s n. ground (
    arith,
    h.agree s n,
    has-slots_of-remove_tracked s n name slot r,
    owners-remove_tracked s name slot r,
    ===_iff slot s,
    ===_iff name n,
  );
  named = λ s. ground (arith, h.named s, owners-remove_tracked s name slot r);
}

set_owner-IsIndexed :
    (name slot : String) (r : AsyncRegistry)
    → name ≢ ""
    → (lookup slot r.slot_owners ≡ some name) ⊎ (lookup slot r.slot_owners ≡ none)
    → IsIndexed r
    → IsIndexed (set_owner name slot r)
set_owner-IsIndexed name slot r ne own h = record {
  agree = λ s n. ground (
    arith,
    h.agree s n,
    lookup-insert s slot name r.slot_owners,
    lookup-insert n name (add slot (slots_of name r)) r.slots_by_store,
    has-add s slot (slots_of name r),
    ===_iff slot s,
    ===_iff name n,
    h.agree s name,
  );
  named = λ s. ground (arith, h.named s, lookup-insert s slot name r.slot_owners);
}

drop_previous-IsIndexed :
    (name slot : String) (r : AsyncRegistry)
    → IsIndexed r
    → let r' = drop_previous (truthy (lookup slot r.slot_owners)) name slot r in
      IsIndexed r'
      × ((lookup slot r'.slot_owners ≡ some name) ⊎ (lookup slot r'.slot_owners ≡ none))
drop_previous-IsIndexed name slot r h = elim (Option-cases (lookup slot r.slot_owners)) [
  | inl unowned ↦ rw unowned (h, inr unowned)
  | inr (owner, e) ↦ ground (
    arith,
    h.named slot,
    ===_iff owner "",
    ===_iff owner name,
    ===_iff slot slot,
    remove_tracked-IsIndexed owner slot r e h,
    owners-remove_tracked slot owner slot r,
  )
]

drop_previous-owners :
    (s name slot : String) (r : AsyncRegistry)
    → slot ≢ s
    → lookup s (drop_previous (truthy (lookup slot r.slot_owners)) name slot r).slot_owners
      ≡ lookup s r.slot_owners
drop_previous-owners s name slot r ne = elim (Option-cases (lookup slot r.slot_owners)) [
  | inl unowned ↦ ground (arith, unowned)
  | inr (owner, e) ↦ ground (arith, e, ne, ===_iff slot s, owners-remove_tracked s owner slot r)
]

-- `trackAsyncSlot` keeps the index. Afterwards the slot is in the set of the new owner and in no other,
-- also where another store owned it before, and every other slot is owned as it was.
pub track-IsIndexed :
    (name slot : String) (r : AsyncRegistry)
    → name ≢ ""
    → IsIndexed r
    → IsIndexed (track_async_slot name slot r)
      × ((n : String) → has slot (slots_of n (track_async_slot name slot r)) ≡ (name === n))
      × ((s : String)
          → slot ≢ s
          → lookup s (track_async_slot name slot r).slot_owners ≡ lookup s r.slot_owners)
unfolding track_async_slot
track-IsIndexed name slot r ne h =
    let (kept, own) = drop_previous-IsIndexed name slot r h in
    let dropped = drop_previous (truthy (lookup slot r.slot_owners)) name slot r in
    let indexed = set_owner-IsIndexed name slot dropped ne own kept in
    (
      indexed,
      λ n. ground (
        arith,
        indexed.agree slot n,
        lookup-insert slot slot name dropped.slot_owners,
        ===_iff slot slot,
      ),
      λ s apart. ground (
        arith,
        apart,
        ===_iff slot s,
        lookup-insert s slot name dropped.slot_owners,
        drop_previous-owners s name slot r apart,
      ),
    )

pub track_if_named-IsIndexed :
    (store_name : Option String) (slot : String) (r : AsyncRegistry)
    → IsIndexed r
    → IsIndexed (track_if_named store_name slot r)
unfolding track_if_named
track_if_named-IsIndexed none slot r h = h
track_if_named-IsIndexed (some name) slot r h = ground (
  arith,
  ===_iff name "",
  λ (ne : name ≢ "") (h : IsIndexed r). (track-IsIndexed name slot r ne h).0,
)

release_owned-IsIndexed :
    (slot : String) (r : AsyncRegistry)
    → IsIndexed r
    → let r' = release_owned (truthy (lookup slot r.slot_owners)) slot r in
      IsIndexed r'
      × ((s : String)
          → lookup s r'.slot_owners ≡ (if slot === s then none else lookup s r.slot_owners))
release_owned-IsIndexed slot r h = elim (Option-cases (lookup slot r.slot_owners)) [
  | inl unowned ↦ rw unowned (h, λ s. ground (arith, unowned, ===_iff slot s))
  | inr (owner, e) ↦
      let named : truthy (lookup slot r.slot_owners) ≡ some owner =
        ground (arith, e, h.named slot, ===_iff owner "") in
      rw named
        (remove_tracked-IsIndexed owner slot r e h, λ s. owners-remove_tracked s owner slot r)
]

-- One of the six tables has the slot.
abbrev pub IsReferenced : String → AsyncRegistry → Type 0
IsReferenced slot r =
    (has_key slot r.inflight ≡ true)
    ⊎ (has_key slot r.request_version ≡ true)
    ⊎ (has_key slot r.request_sequence ≡ true)
    ⊎ (has_key slot r.cache_meta ≡ true)
    ⊎ (has_key slot r.rate_window_start ≡ true)
    ⊎ (has_key slot r.rate_count ≡ true)

references-IsReferenced :
    (slot : String) (r : AsyncRegistry) → has_slot_references slot r ≡ true → IsReferenced slot r
unfolding has_slot_references
references-IsReferenced slot r h = ground (arith, h)

IsReferenced-references :
    (slot : String) (r : AsyncRegistry)
    → is_forbidden_object_key slot ≡ false
    → IsReferenced slot r
    → has_slot_references slot r ≡ false
    → ⊥
unfolding has_slot_references
IsReferenced-references slot r ok i n = ground (arith, ok, i, n)

-- `releaseAsyncSlotIfOrphaned` keeps the index. A slot that one of the tables still has stays with its
-- owner and nothing changes; one that none of them has belongs to no store afterwards, and every
-- other slot is owned as it was. The slot is no forbidden key.
pub release-IsIndexed :
    (slot : String) (r : AsyncRegistry)
    → is_forbidden_object_key slot ≡ false
    → IsIndexed r
    → let r' = release_async_slot_if_orphaned slot r in
      IsIndexed r'
      × (IsReferenced slot r → r' ≡ r)
      × (¬ IsReferenced slot r
          → ((n : String) → has slot (slots_of n r') ≡ false)
            × ((s : String) → slot ≢ s → lookup s r'.slot_owners ≡ lookup s r.slot_owners))
unfolding release_async_slot_if_orphaned
release-IsIndexed slot r ok h = elim (Bool-cases (has_slot_references slot r)) [
  | inl y ↦ rw y (h, λ i. refl, λ out. absurd (out (references-IsReferenced slot r y)))
  | inr n ↦
      let (indexed, owners) = release_owned-IsIndexed slot r h in
      rw n (
        indexed,
        λ i. absurd (IsReferenced-references slot r ok i n),
        λ out. (
          λ m. ground (arith, indexed.agree slot m, owners slot, ===_iff slot slot),
          λ s apart. ground (arith, apart, ===_iff slot s, owners s),
        ),
      )
]
