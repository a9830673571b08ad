-- ===== src/Sync/Channel/Checks.antt =====
-- A message that fails a check changes nothing.
use stroid.Base.{
  ◌≢◌, ===_iff, ==_iff, some, false, Option, String, refl, ◌∙◌, ap, ℕ, true, ◌&&◌, none, ◌≡◌, ◌⊎◌,
  arith, Bool-cases, Option-cases, inl, inr,
}
use stroid.Sync.Message.{
  SyncMessage, SyncOptions, SyncOption, given, off, on, Verdict, is_valid_sync_message, verified,
  resolve_protocol_version,
}
use stroid.Sync.Session.{Env, Session, SyncError, report, option_token, checks_hash}
use stroid.Sync.Session.Frame.{SameState}
use stroid.Sync.Channel.{
  on_message, screen_content, is_for, token_ok, verdict_on, verifier, checksum_ok, is_state,
  has_protocol, report_token, is_named,
}

named-eq : (s : String) (o : Option String) → is_named s o ≡ true → o ≡ some s
named-eq s none h = ground (arith, h)
named-eq s (some t) h = ap some ((===_iff t s).0 h)

expected-eq :
    (expected token : Option String) (t : String)
    → expected ≡ some t
    → token_ok expected token ≡ true
    → token ≡ some t
expected-eq none token t e h = ground (arith, e)
expected-eq (some u) token t e h = named-eq u token h ∙ e

module _ {V : Type 0} where
  -- All that a message must be to reach the store: its source is another tab and its name this store's,
  -- while the channel, the store and its metadata are there; no field that is always sent is missing;
  -- its token is the one of the options, where they have one that is not empty; it is of this protocol;
  -- the `verify` of the options says yes; and the checksum of a state is its hash, unless the options
  -- turn that off.
  pub record Passes (env : Env V) (msg : SyncMessage V) (s : Session V) : Type 0 where
    pub from_other : msg.source ≢ some env.instance_id
    pub for_store : msg.name ≡ some env.name
    pub live : (s.is_open ≡ true) × (s.has_store ≡ true) × (s.has_meta ≡ true)
    pub whole :
        (msg.v ≢ none ⊎ msg.protocol ≢ none)
        × (msg.kind ≢ none)
        × (msg.clock ≢ none)
        × (msg.source ≢ none)
    pub token :
        (o : SyncOptions V) (t : String)
        → env.option ≡ given o
        → o.auth_token ≡ some t
        → t ≢ ""
        → msg.token ≡ some t
    pub protocol : (msg.v ≡ some 1) ⊎ ((msg.v ≡ none) × (msg.protocol ≡ some 1))
    pub verdict :
        (o : SyncOptions V) (f : SyncMessage V → Verdict)
        → env.option ≡ given o
        → o.verify ≡ some f
        → f msg ≡ verified
    pub checksum :
        msg.kind ≡ some "sync-state"
        → ((o : SyncOptions V) → env.option ≡ given o → o.without_checksum ≡ false)
        → msg.checksum ≡ some (env.hash_state msg.content)

  screen_passes :
      (env : Env V) (msg : SyncMessage V)
      → screen_content env msg ≡ none
      → (has_protocol (resolve_protocol_version msg) ≡ true)
        × (verdict_on (verifier env.option) msg ≡ verified)
        × ((is_state msg && checks_hash env.option) ≡ true → checksum_ok env msg ≡ true)
  unfolding screen_content
  screen_passes env msg h = (ground arith, ground arith, λ checked. ground arith)

  is_for-eq :
      (env : Env V) (msg : SyncMessage V) (s : Session V)
      → is_for env msg s ≡ true
      → (msg.source ≢ some env.instance_id)
        × (msg.name ≡ some env.name)
        × ((s.is_open ≡ true) × (s.has_store ≡ true) × (s.has_meta ≡ true))
  is_for-eq env msg s h = (
    λ e. ground (arith, h, e, ===_iff env.instance_id env.instance_id),
    named-eq env.name msg.name (ground (arith, h)),
    ground (arith, h),
  )

  valid-whole :
      (msg : SyncMessage V)
      → is_valid_sync_message msg ≡ true
      → (msg.v ≢ none ⊎ msg.protocol ≢ none)
        × (msg.kind ≢ none)
        × (msg.clock ≢ none)
        × (msg.source ≢ none)
  unfolding is_valid_sync_message
  valid-whole msg h = (
    elim (Option-cases msg.v) [
      | inl n ↦ inr (λ e. ground (arith, h, n, e))
      | inr (v, y) ↦ inl (λ e. ground (arith, y, e))
    ],
    λ e. ground (arith, h, e),
    λ e. ground (arith, h, e),
    λ e. ground (arith, h, e),
  )

  token_ok-eq :
      (option : SyncOption V) (token : Option String)
      → token_ok (option_token option) token ≡ true
      → (o : SyncOptions V) (t : String) → option ≡ given o
      → o.auth_token ≡ some t
      → t ≢ ""
      → token ≡ some t
  token_ok-eq option token h o t e a ne =
      expected-eq (option_token option) token t (ground (arith, e, a, ne, ===_iff t "")) h

  protocol-eq :
      (msg : SyncMessage V)
      → has_protocol (resolve_protocol_version msg) ≡ true
      → (msg.v ≡ some 1) ⊎ ((msg.v ≡ none) × (msg.protocol ≡ some 1))
  unfolding resolve_protocol_version
  protocol-eq msg h = elim (Option-cases msg.v) [
    | inl n ↦ elim (Option-cases msg.protocol) [
      | inl m ↦ ground (arith, h, n, m)
      | inr (w, y) ↦ inr (n, y ∙ ap some ((==_iff w 1).0 (ground (arith, h, n, y))))
    ]
    | inr (v, y) ↦ inl (y ∙ ap some ((==_iff v 1).0 (ground (arith, h, y))))
  ]

  verdict-eq :
      (option : SyncOption V) (msg : SyncMessage V)
      → verdict_on (verifier option) msg ≡ verified
      → (o : SyncOptions V) (f : SyncMessage V → Verdict) → option ≡ given o
      → o.verify ≡ some f
      → f msg ≡ verified
  verdict-eq option msg h o f e v = ground (arith, h, e, v)

  checks_hash-on :
      (option : SyncOption V)
      → ((o : SyncOptions V) → option ≡ given o → o.without_checksum ≡ false)
      → checks_hash option ≡ true
  checks_hash-on off h = refl
  checks_hash-on on h = refl
  checks_hash-on (given o) h = ground (arith, h o refl)

  checksum-eq :
      (env : Env V) (msg : SyncMessage V)
      → ((is_state msg && checks_hash env.option) ≡ true → checksum_ok env msg ≡ true)
      → msg.kind ≡ some "sync-state"
      → ((o : SyncOptions V) → env.option ≡ given o → o.without_checksum ≡ false)
      → msg.checksum ≡ some (env.hash_state msg.content)
  checksum-eq env msg h k o = elim (Option-cases msg.checksum) [
    | inl n ↦
        ground (arith, k, n, h, checks_hash-on env.option o, ===_iff "sync-state" "sync-state")
    | inr (c, y) ↦
        y
        ∙ ap some (
            (==_iff c (env.hash_state msg.content)).0 (
              ground
                (arith, k, y, h, checks_hash-on env.option o, ===_iff "sync-state" "sync-state")))
  ]

  unchanged : (s : Session V) → SameState s s
  unchanged s = ground arith

  report-SameState : (e : SyncError) (s : Session V) → SameState s (report e s)
  report-SameState e s = ground arith

  token-SameState : (s : Session V) → SameState s (report_token s)
  token-SameState s = ground arith

  -- A message changes the value, the accepted version or the clock of a store only if it is for this
  -- store and from another tab, has all fields that are always sent, has the token of the options where
  -- they have one, is of protocol 1, is verified where the options have a `verify`, and, as a state, has
  -- the hash of its content for a checksum where the options do not turn that off.
  pub changes_only_if_passed :
      (now : ℕ) (env : Env V) (msg : SyncMessage V) (s : Session V)
      → Passes env msg s ⊎ SameState s (on_message now env msg s)
  unfolding on_message
  changes_only_if_passed now env msg s = elim (Bool-cases (is_for env msg s)) [
    | inr other ↦ inr (rw other (unchanged s))
    | inl for_store ↦ elim (Bool-cases (is_valid_sync_message msg)) [
      | inr bad ↦ inr (rw (for_store, bad) (report-SameState SyncError.malformed s))
      | inl valid ↦ elim (Bool-cases (token_ok (option_token env.option) msg.token)) [
        | inr forged ↦ inr (rw (for_store, valid, forged) (token-SameState s))
        | inl token ↦ elim (Option-cases (screen_content env msg)) [
          | inr (e, screened) ↦ inr (rw (for_store, valid, token, screened) (report-SameState e s))
          | inl clear ↦
              let (protocol, verdict, checksum) = screen_passes env msg clear in
              inl (record {
                from_other = (is_for-eq env msg s for_store).0;
                for_store = (is_for-eq env msg s for_store).1;
                live = (is_for-eq env msg s for_store).2;
                whole = valid-whole msg valid;
                token = token_ok-eq env.option msg.token token;
                protocol = protocol-eq msg protocol;
                verdict = verdict-eq env.option msg verdict;
                checksum = checksum-eq env msg checksum;
              })
        ]
      ]
    ]
  ]
