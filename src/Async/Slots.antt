-- ===== src/Async/Slots.antt =====
-- The index of cache slots by store (src/async/cache.ts): which store owns a slot, and the set of
-- slots of each store.
pub mod Index
pub mod Frame
use stroid.Base.{
  ℕ, String, Bool, true, false, not, ◌&&◌, ◌||◌, Option, none, some, List, [], ◌∷◌, ◌===◌,
  if◌then◌else◌, or_else,
}
use stroid.Base.Dict.{Dict, lookup, has_key, insert, erase}
use stroid.Base.Names.{has, add, remove, truthy}
use stroid.Async.State.{AsyncRegistry}

-- `FORBIDDEN_OBJECT_KEYS.has(key)`
abbrev pub is_forbidden_object_key : String → Bool
is_forbidden_object_key key = key === "__proto__" || key === "constructor" || key === "prototype"

module _ {V : Type 0} where
  abbrev pub safe_delete_key : Dict V → String → Dict V
  safe_delete_key obj key = if is_forbidden_object_key key then obj else erase key obj

  abbrev pub safe_get_key : Dict V → String → Option V
  safe_get_key obj key = if is_forbidden_object_key key then none else lookup key obj

  abbrev pub safe_has_key : Dict V → String → Bool
  safe_has_key obj key = if is_forbidden_object_key key then false else has_key key obj

-- The sets by store, once the set of `name` has become `slots`.
abbrev set_or_delete : String → List String → Dict (List String) → Dict (List String)
set_or_delete name [] by_store = erase name by_store
set_or_delete name (s ∷ slots) by_store = insert name (s ∷ slots) by_store

abbrev without_slot :
    String → String → Option (List String) → Dict (List String) → Dict (List String)
without_slot name slot none by_store = by_store
without_slot name slot (some slots) by_store = set_or_delete name (remove slot slots) by_store

unfoldable pub remove_tracked_async_slot : String → String → AsyncRegistry → AsyncRegistry
remove_tracked_async_slot name slot r = record r {
  slots_by_store = without_slot name slot (lookup name r.slots_by_store) r.slots_by_store;
  slot_owners = erase slot r.slot_owners;
}

unfoldable pub has_slot_references : String → AsyncRegistry → Bool
has_slot_references slot r =
    safe_has_key r.inflight slot
    || safe_has_key r.request_version slot
    || safe_has_key r.request_sequence slot
    || safe_has_key r.cache_meta slot
    || safe_has_key r.rate_window_start slot
    || safe_has_key r.rate_count slot

abbrev drop_previous : Option String → String → String → AsyncRegistry → AsyncRegistry
drop_previous none name slot r = r
drop_previous (some previous) name slot r =
    if not (previous === name) then remove_tracked_async_slot previous slot r else r

abbrev set_owner : String → String → AsyncRegistry → AsyncRegistry
set_owner name slot r = record r {
  slot_owners = insert slot name r.slot_owners;
  slots_by_store =
      insert name (add slot (or_else (lookup name r.slots_by_store) [])) r.slots_by_store;
}

unfoldable pub track_async_slot : String → String → AsyncRegistry → AsyncRegistry
track_async_slot name slot r =
    set_owner name slot (drop_previous (truthy (lookup slot r.slot_owners)) name slot r)

-- `if (storeName) trackAsyncSlot(storeName, cacheSlot)`
abbrev track_named : Option String → String → AsyncRegistry → AsyncRegistry
track_named none slot r = r
track_named (some name) slot r = track_async_slot name slot r

unfoldable pub track_if_named : Option String → String → AsyncRegistry → AsyncRegistry
track_if_named store_name slot r = track_named (truthy store_name) slot r

abbrev release_owned : Option String → String → AsyncRegistry → AsyncRegistry
release_owned none slot r = r
release_owned (some owner) slot r = remove_tracked_async_slot owner slot r

pub release_async_slot_if_orphaned : String → AsyncRegistry → AsyncRegistry
release_async_slot_if_orphaned slot r =
    if has_slot_references slot r
    then r
    else release_owned (truthy (lookup slot r.slot_owners)) slot r
