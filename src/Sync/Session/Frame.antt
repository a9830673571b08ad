-- ===== src/Sync/Session/Frame.antt =====
-- What a broadcast and the loop guard leave alone.
use stroid.Base.{ℕ, Option, none, some, ◌≡◌, arith}
use stroid.Sync.Message.{SyncMessage, Signature, signed, unsigned, promised, sign_threw}
use stroid.Sync.Session.{
  Env, Session, broadcast_sync, payload, signer, sign_and_post, post, post_signed,
  should_suppress_broadcast, mark_loop_guard,
}

module _ {V : Type 0} where
  pub record SameState (s t : Session V) : Type 0 where
    pub value : t.value ≡ s.value
    pub updated_at : t.updated_at ≡ s.updated_at
    pub clock : t.clock ≡ s.clock
    pub version : t.version ≡ s.version
    pub is_open : t.is_open ≡ s.is_open
    pub has_store : t.has_store ≡ s.has_store
    pub has_meta : t.has_meta ≡ s.has_meta

  post-SameState :
      (env : Env V) (msg : SyncMessage V) (s : Session V) → SameState s (post env msg s)
  post-SameState env msg s = ground arith

  post_signed-SameState :
      (env : Env V) (msg : SyncMessage V) (g : Signature) (s : Session V)
      → SameState s (post_signed env msg g s)
  post_signed-SameState env msg (signed a) s = post-SameState env (record msg { auth = some a }) s
  post_signed-SameState env msg unsigned s = post-SameState env msg s
  post_signed-SameState env msg promised s = ground arith
  post_signed-SameState env msg sign_threw s = ground arith

  sign_and_post-SameState :
      (env : Env V) (msg : SyncMessage V) (sign : Option (SyncMessage V → Signature))
      (s : Session V)
      → SameState s (sign_and_post env msg sign s)
  sign_and_post-SameState env msg none s = post-SameState env msg s
  sign_and_post-SameState env msg (some sign) s = post_signed-SameState env msg (sign msg) s

  pub broadcast-SameState :
      (env : Env V) (at : ℕ) (value : V) (s : Session V)
      → SameState s (broadcast_sync env at value s)
  unfolding broadcast_sync
  broadcast-SameState env at value s =
      ground (arith, sign_and_post-SameState env (payload env at value s) (signer env.option) s)

  pub suppress-SameState :
      (now : ℕ) (ms : Option ℕ) (s : Session V) → SameState s (should_suppress_broadcast now ms s).1
  suppress-SameState now none s = ground arith
  suppress-SameState now (some ms) s = ground arith

  pub mark-SameState :
      (now : ℕ) (ms : Option ℕ) (s : Session V) → SameState s (mark_loop_guard now ms s)
  mark-SameState now none s = ground arith
  mark-SameState now (some ms) s = ground arith
