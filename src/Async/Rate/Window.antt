-- ===== src/Async/Rate/Window.antt =====
-- How many hits a window lets through, whatever happens to other slots.
use stroid.Base.{
  ℕ, suc, ◌+◌, ◌-◌, ◌<◌, min, String, true, false, Option, some, List, [], ◌∷◌, ◌===◌, ===_iff, ◌≡◌,
  ◌≢◌, ◌∙◌, arith, if◌then◌else◌, ltb, Bool-cases, inl, inr,
}
use stroid.Base.Dict.{lookup, lookup-insert}
use stroid.Async.State.{AsyncRegistry}
use stroid.Async.Slots.Frame.{track_if_named-SameTables}
use stroid.Async.Rate.{register_rate_hit, count_of, rate_window_ms, is_live, rate_max}

-- A hit: its slot, its time and the store that it names.
pub record Hit : Type 0 where
  pub slot : String
  pub at : ℕ
  pub store_name : Option String

-- The hits of a run that the limiter lets through for one slot.
pub accepted : String → List Hit → AsyncRegistry → ℕ
accepted slot [] r = 0
accepted slot (h ∷ hs) r =
    let (refused, r') = register_rate_hit h.slot h.at h.store_name r in
    let rest = accepted slot hs r' in
    if h.slot === slot then (if refused then rest else suc rest) else rest

-- The hits of a run on one slot.
abbrev pub hits_on : String → List Hit → ℕ
hits_on slot [] = 0
hits_on slot (h ∷ hs) = let rest = hits_on slot hs in if h.slot === slot then suc rest else rest

-- All hits on the slot fall within the window that opened at `start`.
abbrev pub Within : String → ℕ → List Hit → Type 0
Within slot start [] = Unit
Within slot start (h ∷ hs) = (h.slot ≡ slot → h.at - start < rate_window_ms) × Within slot start hs

hit_other :
    (slot : String) (h : Hit) (r : AsyncRegistry)
    → h.slot ≢ slot
    → let r' = (register_rate_hit h.slot h.at h.store_name r).1 in
      (lookup slot r'.rate_window_start ≡ lookup slot r.rate_window_start)
      × (lookup slot r'.rate_count ≡ lookup slot r.rate_count)
unfolding register_rate_hit
hit_other slot h r ne = ground (
  arith,
  track_if_named-SameTables h.store_name h.slot r,
  ===_iff h.slot slot,
  lookup-insert slot h.slot h.at r.rate_window_start,
  lookup-insert slot h.slot 1 r.rate_count,
  lookup-insert slot h.slot (count_of h.slot r + 1) r.rate_count,
)

hit_live :
    (slot : String) (h : Hit) (r : AsyncRegistry) {start : ℕ}
    → h.slot ≡ slot
    → lookup slot r.rate_window_start ≡ some start
    → h.at - start < rate_window_ms
    → let (refused, r') = register_rate_hit h.slot h.at h.store_name r in
      (lookup slot r'.rate_window_start ≡ some start)
      × (refused ≡ (if ltb (count_of slot r) rate_max then false else true))
      × (count_of slot r'
          ≡ (if ltb (count_of slot r) rate_max then count_of slot r + 1 else count_of slot r))
unfolding register_rate_hit
hit_live slot h r same e w = rw same (
    ground (
      arith,
      track_if_named-SameTables h.store_name slot r,
      ===_iff slot slot,
      lookup-insert slot slot (count_of slot r + 1) r.rate_count,
    ))

-- The first hit after a window has run out opens the next one, and is let through.
hit_opens :
    (slot : String) (h : Hit) (r : AsyncRegistry)
    → h.slot ≡ slot
    → is_live h.at (lookup slot r.rate_window_start) ≡ false
    → let (refused, r') = register_rate_hit h.slot h.at h.store_name r in
      (lookup slot r'.rate_window_start ≡ some h.at) × (refused ≡ false) × (count_of slot r' ≡ 1)
unfolding register_rate_hit
hit_opens slot h r same stale = rw same (
    ground (
      arith,
      track_if_named-SameTables h.store_name slot r,
      ===_iff slot slot,
      lookup-insert slot slot h.at r.rate_window_start,
      lookup-insert slot slot 1 r.rate_count,
    ))

-- In an open window exactly the hits up to the limit are let through.
accepted_in_window :
    (slot : String) (hs : List Hit) (r : AsyncRegistry) {start : ℕ}
    → lookup slot r.rate_window_start ≡ some start
    → Within slot start hs
    → accepted slot hs r ≡ min (hits_on slot hs) (rate_max - count_of slot r)
unfolding accepted
accepted_in_window slot [] r e w = omega arith
accepted_in_window slot (h ∷ hs) r {start} e w =
    let (refused, r') = register_rate_hit h.slot h.at h.store_name r in
    elim (Bool-cases (h.slot === slot)) [
      | inl here ↦
          let same = (===_iff h.slot slot).0 here in
          let (opened, verdict, count) = hit_live slot h r same e (w.0 same) in
          let rest = accepted_in_window slot hs r' opened w.1 in ground arith
      | inr other ↦
          let (opened, count) =
            hit_other slot h r (λ same. cc (other, (===_iff h.slot slot).1 same)) in
          let rest = accepted_in_window slot hs r' (opened ∙ e) w.1 in ground arith
    ]

-- From the hit that opens a window on, while the hits on the slot fall within that window, the
-- limiter lets through exactly the first `RATE_MAX` of them; hits on other slots do not matter.
pub accepted-eq-min :
    (slot : String) (h : Hit) (hs : List Hit) (r : AsyncRegistry)
    → h.slot ≡ slot
    → is_live h.at (lookup slot r.rate_window_start) ≡ false
    → Within slot h.at hs
    → accepted slot (h ∷ hs) r ≡ min (suc (hits_on slot hs)) rate_max
unfolding accepted
accepted-eq-min slot h hs r same stale w =
    let (refused, r') = register_rate_hit h.slot h.at h.store_name r in
    let (opened, verdict, count) = hit_opens slot h r same stale in
    let rest = accepted_in_window slot hs r' opened w in ground (arith, ===_iff h.slot slot)
