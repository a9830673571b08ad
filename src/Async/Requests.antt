-- ===== src/Async/Requests.antt =====
-- Request versions and requests in flight (src/async/inflight.ts). A request takes the next number
-- of its slot; only the request with the slot's current version may commit its result.
pub mod Versions
pub mod Dedupe
use stroid.Base.{
  ℕ, ◌+◌, String, Bool, true, false, not, ◌&&◌, ◌||◌, Option, none, some, ◌==◌, ◌===◌,
  if◌then◌else◌, or_else, is_some,
}
use stroid.Base.Dict.{Dict, lookup, insert, erase, has_key}
use stroid.Values.{Value, object, object_is, shallow_equal}
use stroid.Async.State.{
  AsyncRegistry, InflightEntry, InflightRequestContract, RequestKind, url, promise, factory,
  ResponseType, auto, json, text, array_buffer, blob, form_data, CloneResult, keep, shallow, deep,
}
use stroid.Async.Slots.{track_if_named, release_async_slot_if_orphaned}

unfoldable pub is_current_request : String → ℕ → AsyncRegistry → Bool
is_current_request slot version r = or_else (lookup slot r.request_version) 0 == version

abbrev pub next_version : String → AsyncRegistry → ℕ
next_version slot r = or_else (lookup slot r.request_sequence) 0 + 1

abbrev set_version : String → ℕ → AsyncRegistry → AsyncRegistry
set_version slot version r = record r {
  request_version = insert slot version r.request_version;
  request_sequence = insert slot version r.request_sequence;
}

unfoldable pub reserve_request_version : String → Option String → AsyncRegistry → ℕ × AsyncRegistry
reserve_request_version slot store_name r =
    let r' = track_if_named store_name slot r in
    (next_version slot r', set_version slot (next_version slot r') r')

abbrev is_version : ℕ → Option ℕ → Bool
is_version version none = false
is_version version (some v) = v == version

pub clear_request_version : String → ℕ → AsyncRegistry → AsyncRegistry
clear_request_version slot version r =
    if is_version version (lookup slot r.request_version)
    then release_async_slot_if_orphaned slot
        (record r { request_version = erase slot r.request_version })
    else r

pub set_inflight_entry : String → InflightEntry → Option String → AsyncRegistry → AsyncRegistry
set_inflight_entry slot entry store_name r =
    let r' = track_if_named store_name slot r in
    record r' { inflight = insert slot entry r'.inflight }

pub clear_inflight_entry : String → AsyncRegistry → AsyncRegistry
clear_inflight_entry slot r =
    release_async_slot_if_orphaned slot (record r { inflight = erase slot r.inflight })

pub has_inflight_entry : String → AsyncRegistry → Bool
has_inflight_entry slot r = has_key slot r.inflight

pub same_option_value : Value → Value → Bool
same_option_value a b = object_is a b || shallow_equal a b

abbrev same_kind : RequestKind → RequestKind → Bool
same_kind url url = true
same_kind promise promise = true
same_kind factory factory = true
same_kind _ _ = false

abbrev same_response_type : ResponseType → ResponseType → Bool
same_response_type auto auto = true
same_response_type json json = true
same_response_type text text = true
same_response_type array_buffer array_buffer = true
same_response_type blob blob = true
same_response_type form_data form_data = true
same_response_type _ _ = false

abbrev same_clone_result : CloneResult → CloneResult → Bool
same_clone_result keep keep = true
same_clone_result shallow shallow = true
same_clone_result deep deep = true
same_clone_result _ _ = false

-- `a === b` where each may be undefined
abbrev same_option {ℓ} : {A : Type ℓ} → (A → A → Bool) → Option A → Option A → Bool
same_option same none none = true
same_option same (some a) (some b) = same a b
same_option same _ _ = false

abbrev same_target : RequestKind → InflightRequestContract → InflightRequestContract → Bool
same_target url active next = same_option ◌===◌ active.url next.url
same_target _ active next = active.request_ref == next.request_ref

abbrev same_contracts : InflightRequestContract → InflightRequestContract → Bool
same_contracts active next =
    same_kind active.request_kind next.request_kind
    && same_target active.request_kind active next
    && same_option ◌===◌ active.method next.method
    && same_option same_response_type active.response_type next.response_type
    && same_option ◌==◌ active.state_adapter next.state_adapter
    && same_option_value active.headers next.headers
    && same_option_value active.body next.body

unfoldable pub same_request_contract :
    Option InflightRequestContract → Option InflightRequestContract → Bool
same_request_contract none next = true
same_request_contract (some active) none = true
same_request_contract (some active) (some next) = same_contracts active next

pub record DedupeRequest : Type 0 where
  pub contract : Option InflightRequestContract
  pub transform : Option ℕ
  pub clone_result : Option CloneResult

-- What the caller is given: `miss` is undefined, `conflict` null, `joined` the promise in flight.
pub data Deduped : Type 0 where
  miss conflict : Deduped
  joined : ℕ → Deduped

unfoldable pub same_result_contract : InflightEntry → DedupeRequest → Bool
same_result_contract active request =
    same_option ◌==◌ active.transform request.transform
    && same_option same_clone_result active.clone_result request.clone_result

abbrev dedupe_against : InflightEntry → DedupeRequest → Deduped
dedupe_against active request =
    if not (same_request_contract active.contract request.contract)
    then conflict
    else if not (same_result_contract active request)
    then conflict
    else joined active.promise

abbrev dedupe_entry : Option InflightEntry → DedupeRequest → Deduped
dedupe_entry none request = miss
dedupe_entry (some active) request = dedupe_against active request

-- The counters rise whenever there is something to join, also where the contracts conflict.
abbrev count_dedupe : Option InflightEntry → String → AsyncRegistry → AsyncRegistry
count_dedupe none name r = r
count_dedupe (some _) name r = record r {
  dedupes = r.dedupes + 1;
  store_dedupes = insert name (or_else (lookup name r.store_dedupes) 0 + 1) r.store_dedupes;
}

unfoldable pub try_dedupe_request :
    String → String → DedupeRequest → AsyncRegistry → Deduped × AsyncRegistry
try_dedupe_request name slot request r =
    (dedupe_entry (lookup slot r.inflight) request, count_dedupe (lookup slot r.inflight) name r)
