-- ===== src/Async/Cache/Expiry.antt =====
-- When a cached result serves, and what a prune and a deletion remove.
use stroid.Base.{
  ℕ, ◌-◌, ◌<◌, ◌≤◌, ◌↔◌, String, true, false, Option, none, some, ===_iff, ◌≡◌, refl, arith,
  or_else, Option-cases, inl, inr,
}
use stroid.Base.Dict.{lookup, lookup-erase}
use stroid.Async.State.{AsyncRegistry, CacheMeta}
use stroid.Async.Slots.{is_forbidden_object_key, safe_delete_key}
use stroid.Async.Slots.Frame.{release-SameTables}
use stroid.Async.Cache.{should_use_cache, is_expired}

-- The slot has a cached result that is younger than `ttl` at `now` and has not reached its own time of
-- expiry.
abbrev pub IsFresh : ℕ → String → Option ℕ → AsyncRegistry → Type 0
IsFresh now slot ttl r =
    (m : CacheMeta) × (lookup slot r.cache_meta ≡ some m)
    × ((age : ℕ) × (ttl ≡ some age) × (now - m.timestamp < age))
    × ((at : ℕ) → m.expires_at ≡ some at → now < at)

used-IsFresh :
    (now : ℕ) (slot : String) (ttl : Option ℕ) (r : AsyncRegistry)
    → (should_use_cache now slot ttl r).0 ≡ true
    → IsFresh now slot ttl r × ((should_use_cache now slot ttl r).1 ≡ r)
unfolding should_use_cache
used-IsFresh now slot none r h = ground (arith, h)
used-IsFresh now slot (some age) r h = elim (Option-cases (lookup slot r.cache_meta)) [
  | inl e ↦ ground (arith, h, e)
  | inr (m, e) ↦ (
    (m, e, (age, refl, ground (arith, h, e)), λ at x. ground (arith, h, e, x)),
    ground (arith, h, e),
  )
]

fresh-used :
    (now : ℕ) (slot : String) (ttl : Option ℕ) (r : AsyncRegistry)
    → is_forbidden_object_key slot ≡ false
    → IsFresh now slot ttl r
    → (should_use_cache now slot ttl r).0 ≡ true
unfolding should_use_cache
fresh-used now slot ttl r ok (m, e, (age, t, young), early) = elim (Option-cases m.expires_at) [
  | inl x ↦ ground (arith, ok, e, t, young, x)
  | inr (at, x) ↦ ground (arith, ok, e, t, young, x, early at x)
]

-- `shouldUseCache` says yes for exactly the slots with a fresh cached result. Then it changes nothing;
-- a result that has reached its time of expiry is gone afterwards, where a time to live was given. The
-- slot is no forbidden key.
pub should_use_cache_iff :
    (now : ℕ) (slot : String) (ttl : Option ℕ) (r : AsyncRegistry)
    → is_forbidden_object_key slot ≡ false
    → ((should_use_cache now slot ttl r).0 ≡ true ↔ IsFresh now slot ttl r)
      × ((should_use_cache now slot ttl r).0 ≡ true → (should_use_cache now slot ttl r).1 ≡ r)
      × ((m : CacheMeta) (at : ℕ)
          → lookup slot r.cache_meta ≡ some m
          → m.expires_at ≡ some at
          → at ≤ now
          → 0 < or_else ttl 0
          → lookup slot (should_use_cache now slot ttl r).1.cache_meta ≡ none)
unfolding should_use_cache
should_use_cache_iff now slot ttl r ok = (
  (λ h. (used-IsFresh now slot ttl r h).0, fresh-used now slot ttl r ok),
  λ h. (used-IsFresh now slot ttl r h).1,
  λ m at e x due positive. ground (
    arith,
    ok,
    e,
    x,
    due,
    positive,
    ===_iff slot slot,
    lookup-erase slot slot r.cache_meta,
    release-SameTables slot (record r { cache_meta = safe_delete_key r.cache_meta slot }),
  ),
)

-- The tables of the slot are as they were.
abbrev SameAt : String → AsyncRegistry → AsyncRegistry → Type 0
SameAt slot r r' =
    (lookup slot r'.cache_meta ≡ lookup slot r.cache_meta)
    × (lookup slot r'.request_version ≡ lookup slot r.request_version)
    × (lookup slot r'.request_sequence ≡ lookup slot r.request_sequence)

abbrev EvictedAt : String → AsyncRegistry → Type 0
EvictedAt slot r =
    (lookup slot r.cache_meta ≡ none)
    × (lookup slot r.request_version ≡ none)
    × (lookup slot r.request_sequence ≡ none)

-- The slot has a cached result that has expired.
abbrev pub IsExpiredAt : ℕ → String → AsyncRegistry → Type 0
IsExpiredAt now slot r =
    (m : CacheMeta) × (lookup slot r.cache_meta ≡ some m) × (is_expired now m.expires_at ≡ true)
