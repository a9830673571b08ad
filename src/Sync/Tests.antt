-- ===== src/Sync/Tests.antt =====
-- Two tabs of one store that exchange an update, with an order of ids by their characters.
use Prim.Native.Nat.{Ordering}
use Prim.Native.String.{compare as compare_text}
use stroid.Base.{
  ℕ, ◌+◌, String, true, false, none, some, [], ◌∷◌, In, ◌≡◌, ◌⊎◌, ◌↔◌, inl, inr, refl, sym, arith,
  ap, ◌∙◌, ===_iff,
}
use stroid.Sync.Message.{
  SyncMessage, on, clock_of, source_of, compare_sync_order, resolve_protocol_version,
  is_valid_sync_message,
}
use stroid.Sync.Alphabet.{compare_text-IsOrder}
use stroid.Sync.Order.{Stamp}
use stroid.Sync.Session.{Env, Session, clock_now}
use stroid.Sync.Session.Frame.{SameState}
use stroid.Sync.Channel.{on_message, on_store_write, screen_content}
use stroid.Sync.Channel.Clocks.{Advances, on_message-Advances, on_store_write_newer}
use stroid.Sync.Channel.Checks.{Passes, changes_only_if_passed}
use stroid.Sync.Channel.Replicas.{Delivery, IsUpdate, entry, receive, tabs_converge}

abbrev tab : String → Env ℕ
tab id = record {
  instance_id = id;
  name = "users";
  option = on;
  hash_state = λ v. 0;
  normalize = λ v. v;
  applied = λ v. some v;
  locale_compare = compare_text;
  payload_size = λ m. 10;
  can_post = λ m. true;
}

abbrev fresh : Session ℕ
fresh = record {
  is_open = true;
  has_store = true;
  has_meta = true;
  value = 5;
  updated_at = 0;
  clock = none;
  version = none;
  loop_guard_until = none;
  token_warned = false;
  loop_guard_warned = false;
  posted = [];
  errors = [];
  notified = 0;
}

abbrev update : String → ℕ → ℕ → SyncMessage ℕ
update source clock value = record {
  v = some 1;
  protocol = some 1;
  kind = some "sync-state";
  name = some "users";
  clock = some clock;
  source = some source;
  content = some value;
  checksum = some 0;
  updated_at = some 10;
  token = none;
  auth = none;
}

on_message-Advances_example : Advances fresh (on_message 20 (tab "a") (update "c" 3 8) fresh)
on_message-Advances_example = on_message-Advances 20 (tab "a") (update "c" 3 8) fresh (omega arith)

on_store_write_newer_example :
    let t = on_store_write 20 (tab "a") 6 fresh in
    Advances fresh t
    × (clock_now t ≡ clock_now fresh + 1)
    × (source_of t.version ≡ "a")
    × (compare_sync_order compare_text (some (clock_of t.version)) (some (source_of t.version)) none
        ≡ Ordering.gt)
on_store_write_newer_example = on_store_write_newer 20 (tab "a") 6 fresh (omega arith) refl refl

changes_only_if_passed_example :
    Passes (tab "a") (update "c" 3 8) fresh
    ⊎ SameState fresh (on_message 20 (tab "a") (update "c" 3 8) fresh)
changes_only_if_passed_example = changes_only_if_passed 20 (tab "a") (update "c" 3 8) fresh

abbrev first : Delivery ℕ
first = record { at = 20; msg = update "c" 3 8; content = 8; value = 8 }

abbrev second : Delivery ℕ
second = record { at = 30; msg = update "d" 3 9; content = 9; value = 9 }

first-IsUpdate : (id : String) → (id ≡ "a") ⊎ (id ≡ "b") → IsUpdate (tab id) first
unfolding screen_content resolve_protocol_version is_valid_sync_message
first-IsUpdate id h = record {
  from_other = ground (arith, h, ===_iff "c" id, ===_iff "c" "a", ===_iff "c" "b");
  named = refl;
  valid = refl;
  token = refl;
  screened = refl;
  no_request = refl;
  normal = refl;
  written = refl;
}

second-IsUpdate : (id : String) → (id ≡ "a") ⊎ (id ≡ "b") → IsUpdate (tab id) second
unfolding screen_content resolve_protocol_version is_valid_sync_message
second-IsUpdate id h = record {
  from_other = ground (arith, h, ===_iff "d" id, ===_iff "d" "a", ===_iff "d" "b");
  named = refl;
  valid = refl;
  token = refl;
  screened = refl;
  no_request = refl;
  normal = refl;
  written = refl;
}

abbrev eight : Stamp × ℕ
eight = ((3, "c"), 8)

abbrev nine : Stamp × ℕ
nine = ((3, "d"), 9)

same_pair : (m : Stamp × ℕ) → In m (eight ∷ nine ∷ []) ↔ In m (nine ∷ eight ∷ [])
same_pair m = (to eight nine, to nine eight)
  where
    to : (a b : Stamp × ℕ) → In m (a ∷ b ∷ []) → In m (b ∷ a ∷ [])
    to a b (inl e) = inr (inl e)
    to a b (inr (inl e)) = inl e
    to a b (inr (inr x)) = elim x [ ]

apart : {A : Type 0} → eight.0 ≡ nine.0 → A
apart e = ground (arith, ap (λ x. x.1) e, ===_iff "c" "d")

one_value :
    (m n : Stamp × ℕ) → In m (eight ∷ nine ∷ []) → In n (eight ∷ nine ∷ []) → m.0 ≡ n.0 → m ≡ n
one_value m n (inl a) (inl b) e = a ∙ sym b
one_value m n (inl a) (inr (inl b)) e = apart (ap (λ x. x.0) (sym a) ∙ e ∙ ap (λ x. x.0) b)
one_value m n (inr (inl a)) (inl b) e = apart (ap (λ x. x.0) (sym b) ∙ sym e ∙ ap (λ x. x.0) a)
one_value m n (inr (inl a)) (inr (inl b)) e = a ∙ sym b
one_value m n (inl a) (inr (inr x)) e = elim x [ ]
one_value m n (inr (inl a)) (inr (inr x)) e = elim x [ ]
one_value m n (inr (inr x)) _ e = elim x [ ]

tabs_converge_example :
    entry (receive (tab "a") (first ∷ second ∷ []) fresh)
    ≡ entry (receive (tab "b") (second ∷ first ∷ []) fresh)
tabs_converge_example =
    tabs_converge (tab "a") (tab "b") (first ∷ second ∷ []) (second ∷ first ∷ []) fresh fresh
      compare_text-IsOrder refl refl refl
      (first-IsUpdate "a" (inl refl), (second-IsUpdate "a" (inl refl), tt))
      (second-IsUpdate "b" (inr refl), (first-IsUpdate "b" (inr refl), tt)) (refl, refl, refl)
      (refl, refl, refl) refl same_pair one_value
