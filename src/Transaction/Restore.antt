-- ===== src/Transaction/Restore.antt =====
-- What the restoring of a rollback snapshot gives back, entry by entry
-- (`restoreTransactionRollbackSnapshot` of src/core/store-transaction.ts).
use stroid.Base.{
  ℕ, String, false, not, ◌&&◌, Option, none, some, List, [], ◌∷◌, if◌then◌else◌, ◌≡◌, refl, ap, ◌∙◌,
  ◌===◌, ===_iff, inl, inr, arith, Option-cases,
}
use stroid.Base.Dict.{
  Dict, lookup, insert, erase, has_key, keys, lookup-insert, lookup-erase, has-keys,
}
use stroid.Base.Names.{has, remove, has-remove}
use stroid.Transaction.{
  MetaSnapshot, MetaEntry, StoreRegistry, RollbackSnapshot, set_all, without_names, erase_all,
  restore_entry, restore_meta, restore_transaction_rollback_snapshot, snapshot_meta,
  capture_transaction_rollback_snapshot,
}

-- No key twice, as in every JavaScript object.
abbrev pub IsUnique {ℓ} : {V : Type ℓ} → Dict V → Type 0
IsUnique [] = Unit
IsUnique ((k, v) ∷ m) = (has k (keys m) ≡ false) × IsUnique m

lookup-set_all :
    (j : String) (s m : Dict ℕ)
    → IsUnique s
    → lookup j (set_all s m) ≡ (if has_key j s then lookup j s else lookup j m)
unfolding set_all
lookup-set_all j [] m u = refl
lookup-set_all j ((k, v) ∷ s) m (fresh, u) =
    ground
      (arith, ===_iff k j, lookup-set_all j s (insert k v m) u, lookup-insert j k v m, has-keys k s)

has-without_names :
    (j : String) (ns names : List String)
    → has j (without_names ns names) ≡ (not (has j ns) && has j names)
unfolding without_names
has-without_names j [] names = refl
has-without_names j (n ∷ ns) names =
    ground (arith, has-without_names j ns (remove n names), has-remove j n names)

lookup-erase_all :
    (j : String) (ns : List String) (m : Dict ℕ)
    → lookup j (erase_all ns m) ≡ (if has j ns then none else lookup j m)
unfolding erase_all
lookup-erase_all j [] m = refl
lookup-erase_all j (n ∷ ns) m =
    ground (arith, lookup-erase_all j ns (erase n m), lookup-erase j n m)

restored_stores :
    (j : String) (snapshot : RollbackSnapshot) (r : StoreRegistry)
    → IsUnique snapshot.stores
    → lookup j (restore_transaction_rollback_snapshot snapshot r).stores ≡ lookup j snapshot.stores
unfolding restore_transaction_rollback_snapshot
restored_stores j snapshot r u = ground (
  arith,
  lookup-erase_all j (without_names (keys snapshot.stores) (keys r.stores))
      (set_all snapshot.stores r.stores),
  has-without_names j (keys snapshot.stores) (keys r.stores),
  lookup-set_all j snapshot.stores r.stores u,
  has-keys j snapshot.stores,
  has-keys j r.stores,
)

abbrev pub with_saved : Option MetaSnapshot → Option MetaEntry → Option MetaEntry
with_saved (some saved) (some entry) = some (record entry { saved = saved })
with_saved none entry = entry
with_saved (some saved) none = none

lookup-restore_entry :
    (j k : String) (saved : MetaSnapshot) (m : Dict MetaEntry)
    → lookup j (restore_entry k saved (lookup k m) m)
      ≡ (if k === j then with_saved (some saved) (lookup j m) else lookup j m)
lookup-restore_entry j k saved m = elim (Option-cases (lookup k m)) [
  | inl h ↦ ground (arith, ===_iff k j, h)
  | inr (e, h) ↦ ground (arith, ===_iff k j, h, lookup-insert j k (record e { saved = saved }) m)
]

lookup-restore_meta :
    (j : String) (s : Dict MetaSnapshot) (m : Dict MetaEntry)
    → IsUnique s
    → lookup j (restore_meta s m) ≡ with_saved (lookup j s) (lookup j m)
unfolding restore_meta
lookup-restore_meta j [] m u = refl
lookup-restore_meta j ((k, v) ∷ s) m (fresh, u) = ground (
  arith,
  ===_iff k j,
  lookup-restore_entry j k v m,
  has-keys k s,
  lookup-restore_meta j s (restore_entry k v (lookup k m) m) u,
)

abbrev saved_of : Option MetaEntry → Option MetaSnapshot
saved_of none = none
saved_of (some entry) = some entry.saved

lookup-snapshot_meta :
    (j : String) (m : Dict MetaEntry) → lookup j (snapshot_meta m) ≡ saved_of (lookup j m)
unfolding snapshot_meta
lookup-snapshot_meta j [] = refl
lookup-snapshot_meta j ((k, v) ∷ m) = ground (arith, lookup-snapshot_meta j m)

keys-snapshot_meta : (m : Dict MetaEntry) → keys (snapshot_meta m) ≡ keys m
unfolding snapshot_meta
keys-snapshot_meta [] = refl
keys-snapshot_meta ((k, v) ∷ m) = ap (λ ks. k ∷ ks) (keys-snapshot_meta m)

snapshot_meta-IsUnique : (m : Dict MetaEntry) → IsUnique m → IsUnique (snapshot_meta m)
unfolding snapshot_meta
snapshot_meta-IsUnique [] u = u
snapshot_meta-IsUnique ((k, v) ∷ m) (fresh, u) =
    (ap (has k) (keys-snapshot_meta m) ∙ fresh, snapshot_meta-IsUnique m u)

-- `after` has the values, the pending notifications and the patches of `before`, and what a snapshot
-- saves of each metadata entry that both have.
abbrev pub IsRestored : StoreRegistry → StoreRegistry → Type 0
IsRestored before after =
    ((name : String) → lookup name after.stores ≡ lookup name before.stores)
    × (after.pending_notifications ≡ before.pending_notifications)
    × (after.last_runtime_patches ≡ before.last_runtime_patches)
    × ((name : String) (old now : MetaEntry)
        → lookup name before.meta_entries ≡ some old
        → lookup name after.meta_entries ≡ some now
        → now.saved ≡ old.saved)

pub IsRestored-refl : (r : StoreRegistry) → IsRestored r r
IsRestored-refl r = (λ name. refl, refl, refl, λ name old now h h'. ground (arith, h, h'))

pub restore-IsRestored :
    (before r : StoreRegistry)
    → IsUnique before.stores
    → IsUnique before.meta_entries
    → IsRestored before
        (restore_transaction_rollback_snapshot (capture_transaction_rollback_snapshot before) r)
unfolding restore_transaction_rollback_snapshot capture_transaction_rollback_snapshot
restore-IsRestored before r u v = (
  λ name. restored_stores name (capture_transaction_rollback_snapshot before) r u,
  refl,
  refl,
  λ name old now h h'. ground (
    arith,
    h,
    h',
    lookup-restore_meta name (snapshot_meta before.meta_entries) r.meta_entries
        (snapshot_meta-IsUnique before.meta_entries v),
    lookup-snapshot_meta name before.meta_entries,
    Option-cases (lookup name r.meta_entries),
  ),
)
