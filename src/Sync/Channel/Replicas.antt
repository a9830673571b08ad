-- ===== src/Sync/Channel/Replicas.antt =====
-- Two tabs that receive the same updates end with the same value.
use stroid.Base.{
  ℕ, true, false, Option, none, some, or_else, List, [], ◌∷◌, if◌then◌else◌, map, All, ◌≡◌, ◌↔◌,
  ◌∙◌, refl, sym, ap, arith, In,
}
use stroid.Sync.Message.{
  SyncMessage, SyncOption, off, on, given, clock_of, source_of, compare_sync_order,
  is_valid_sync_message, resolve_loop_guard_ms, Conflict, Resolution,
}
use stroid.Sync.Order.{IsOrder, Stamp, newer}
use stroid.Sync.Session.{Env, Session, option_token, accept_incoming_sync_version}
use stroid.Sync.Session.Frame.{mark-SameState}
use stroid.Sync.Channel.{
  on_message, take_newer, take_stale, take_screened, screen_content, token_ok, newer_than_accepted,
  is_named, settle_conflict, write_incoming,
}
use stroid.Sync.Channel.Converge.{pick_all, pick_all_lem, pick_all_nil, pick_all_converges}

-- A message as it arrives: its time, the value that its content normalizes to, and the one that stands
-- in the store once it is written.
pub record Delivery (V : Type 0) : Type 0 where
  pub at : ℕ
  pub msg : SyncMessage V
  pub content : V
  pub value : V

module _ {V : Type 0} where
  abbrev resolver_of : SyncOption V → Option (Conflict V → Resolution V)
  resolver_of (given o) = o.conflict_resolver
  resolver_of _ = none

  abbrev pub IsLive : Session V → Type 0
  IsLive s = (s.is_open ≡ true) × (s.has_store ≡ true) × (s.has_meta ≡ true)

  -- An update of another tab that passes the checks of this one, and whose write is not deferred.
  pub record IsUpdate (env : Env V) (d : Delivery V) : Type 0 where
    pub from_other : is_named env.instance_id d.msg.source ≡ false
    pub named : is_named env.name d.msg.name ≡ true
    pub valid : is_valid_sync_message d.msg ≡ true
    pub token : token_ok (option_token env.option) d.msg.token ≡ true
    pub screened : screen_content env d.msg ≡ none
    pub no_request : is_named "sync-request" d.msg.kind ≡ false
    pub normal : env.normalize d.msg.content ≡ some d.content
    pub written : env.applied d.content ≡ some d.value

  -- The stamp and the value that stand in a store.
  abbrev pub entry : Session V → Stamp × V
  entry s = ((clock_of s.version, source_of s.version), s.value)

  abbrev pub entry_of : Delivery V → Stamp × V
  entry_of d = ((or_else d.msg.clock 0, or_else d.msg.source ""), d.value)

  pub receive : Env V → List (Delivery V) → Session V → Session V
  receive env [] s = s
  receive env (d ∷ ds) s = receive env ds (on_message d.at env d.msg s)

  settle_nothing :
      (now : ℕ) (env : Env V) (option : SyncOption V) (msg : SyncMessage V) (s : Session V)
      → resolver_of option ≡ none
      → settle_conflict now env option msg s ≡ s
  settle_nothing now env off msg s h = refl
  settle_nothing now env on msg s h = refl
  settle_nothing now env (given o) msg s h = rw h

  newer_than_accepted_lem :
      (env : Env V) (d : Delivery V) (s : Session V)
      → newer_than_accepted env d.msg s ≡ newer env.locale_compare (entry_of d).0 (entry s).0
  unfolding compare_sync_order newer
  newer_than_accepted_lem env d s = ground arith

  take_newer-entry :
      (env : Env V) (d : Delivery V) (s : Session V)
      → env.normalize d.msg.content ≡ some d.content
      → env.applied d.content ≡ some d.value
      → IsLive s
      → (entry (take_newer d.at env d.msg s) ≡ entry_of d) × IsLive (take_newer d.at env d.msg s)
  unfolding take_newer
  take_newer-entry env d s normal written live =
      let time = or_else d.msg.updated_at d.at in
      let taken =
        accept_incoming_sync_version time (or_else d.msg.clock 0) (or_else d.msg.source "")
          (write_incoming env d.content time s) in
      let same = mark-SameState d.at (resolve_loop_guard_ms env.option) taken in
      rw normal (ground (arith, written))

  take_screened-entry :
      (env : Env V) (d : Delivery V) (s : Session V)
      → IsUpdate env d
      → resolver_of env.option ≡ none
      → IsLive s
      → let t = take_screened d.at env d.msg s in
        (entry t
          ≡ (if newer env.locale_compare (entry_of d).0 (entry s).0 then entry_of d else entry s))
        × IsLive t
  unfolding take_screened take_stale
  take_screened-entry env d s u plain live =
      let (taken, kept) = take_newer-entry env d s u.normal u.written live in
      rw (u.no_request, newer_than_accepted_lem env d s)
        (ground (arith, settle_nothing d.at env env.option d.msg s plain))

  on_message-entry :
      (env : Env V) (d : Delivery V) (s : Session V)
      → IsUpdate env d
      → resolver_of env.option ≡ none
      → IsLive s
      → let t = on_message d.at env d.msg s in
        (entry t
          ≡ (if newer env.locale_compare (entry_of d).0 (entry s).0 then entry_of d else entry s))
        × IsLive t
  unfolding on_message
  on_message-entry env d s u plain live = ground (
    arith,
    take_screened-entry env d s u plain live,
    u.from_other,
    u.named,
    u.valid,
    u.token,
    u.screened,
  )

  receive-entry :
      (env : Env V) (ds : List (Delivery V)) (s : Session V)
      → All (IsUpdate env) ds
      → resolver_of env.option ≡ none
      → IsLive s
      → entry (receive env ds s) ≡ pick_all env.locale_compare (entry s) (map entry_of ds)
  unfolding receive
  receive-entry env [] s us plain live = sym (pick_all_nil env.locale_compare (entry s))
  receive-entry env (d ∷ ds) s (u, us) plain live =
      let (step, live') = on_message-entry env d s u plain live in
      receive-entry env ds (on_message d.at env d.msg s) us plain live'
      ∙ ap (λ e. pick_all env.locale_compare e (map entry_of ds)) step
      ∙ sym (pick_all_lem env.locale_compare (entry s) (entry_of d) (map entry_of ds))

  -- Two tabs start from the same accepted value. Each receives updates that pass its checks and have a
  -- natural number for a clock, hydration defers none of their writes, and neither tab resolves conflicts
  -- by a callback. If both receive the same stamped values, in whatever
  -- order, at whatever times and however often each, and a stamp names one value, then both end with
  -- the same stamp and the same value.
  pub tabs_converge :
      (a b : Env V) (ds es : List (Delivery V)) (s t : Session V)
      → IsOrder a.locale_compare
      → a.locale_compare ≡ b.locale_compare
      → resolver_of a.option ≡ none
      → resolver_of b.option ≡ none
      → All (IsUpdate a) ds
      → All (IsUpdate b) es
      → IsLive s
      → IsLive t
      → entry s ≡ entry t
      → ((m : Stamp × V) → In m (map entry_of ds) ↔ In m (map entry_of es))
      → ((m n : Stamp × V) → In m (map entry_of ds) → In n (map entry_of ds) → m.0 ≡ n.0 → m ≡ n)
      → entry (receive a ds s) ≡ entry (receive b es t)
  tabs_converge a b ds es s t order same_order plain_a plain_b us vs live_s live_t start same
        unique =
      rw
        (
          receive-entry a ds s us plain_a live_s,
          receive-entry b es t vs plain_b live_t,
          ← same_order,
          ← start,
        )
        (pick_all_converges a.locale_compare order (entry s) (map entry_of ds) (map entry_of es)
          same unique)
