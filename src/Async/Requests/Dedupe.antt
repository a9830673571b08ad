-- ===== src/Async/Requests/Dedupe.antt =====
-- Joining a request in flight: only under the same contract, and on no other change of state.
use stroid.Base.{
  ℕ, ◌+◌, String, Bool, true, Option, none, some, ◌==◌, ◌===◌, ===_iff, ==_iff, &&-eq-true, ◌≡◌,
  ◌≢◌, refl, arith, ap, or_else, Option-cases, inl, inr,
}
use stroid.Base.Dict.{lookup, lookup-insert}
use stroid.Async.State.{
  AsyncRegistry, InflightEntry, InflightRequestContract, RequestKind, url, promise, factory,
  ResponseType, CloneResult,
}
use stroid.Async.Requests.{
  DedupeRequest, miss, joined, try_dedupe_request, same_request_contract, same_result_contract,
  same_contracts, same_option, same_kind, same_response_type, same_clone_result, same_target,
  dedupe_against, dedupe_entry,
}

same_option-eq {ℓ} :
    {A : Type ℓ} (same : A → A → Bool) (a b : Option A)
    → ((x y : A) → same x y ≡ true → x ≡ y)
    → same_option same a b ≡ true
    → a ≡ b
same_option-eq same none none h e = refl
same_option-eq same (some a) (some b) h e = ap some (h a b e)
same_option-eq same none (some b) h e = cc
same_option-eq same (some a) none h e = cc

same_kind-eq : (a b : RequestKind) → same_kind a b ≡ true → a ≡ b
same_kind-eq a b h = ground arith

same_response_type-eq : (a b : ResponseType) → same_response_type a b ≡ true → a ≡ b
same_response_type-eq a b h = ground arith

same_clone_result-eq : (a b : CloneResult) → same_clone_result a b ≡ true → a ≡ b
same_clone_result-eq a b h = ground arith

-- The parts of two request contracts that must be one for a request to be joined.
abbrev pub SameContract : Option InflightRequestContract → Option InflightRequestContract → Type 0
SameContract (some active) (some next) =
    (active.request_kind ≡ next.request_kind)
    × (active.request_kind ≡ url → active.url ≡ next.url)
    × (active.request_kind ≢ url → active.request_ref ≡ next.request_ref)
    × (active.method ≡ next.method)
    × (active.response_type ≡ next.response_type)
    × (active.state_adapter ≡ next.state_adapter)
SameContract _ _ = Unit

same_target-eq :
    (kind : RequestKind) (active next : InflightRequestContract)
    → same_target kind active next ≡ true
    → (kind ≡ url → active.url ≡ next.url) × (kind ≢ url → active.request_ref ≡ next.request_ref)
same_target-eq url active next h = (
  λ _. same_option-eq ◌===◌ active.url next.url (λ x y. (===_iff x y).0) h,
  λ other. absurd (other refl),
)
same_target-eq promise active next h =
    (λ e. cc, λ _. (==_iff active.request_ref next.request_ref).0 h)
same_target-eq factory active next h =
    (λ e. cc, λ _. (==_iff active.request_ref next.request_ref).0 h)

same_contracts-SameContract :
    (active next : InflightRequestContract)
    → same_contracts active next ≡ true
    → SameContract (some active) (some next)
same_contracts-SameContract active next h =
    let (h1, _) = &&-eq-true _ _ h in
    let (h2, _) = &&-eq-true _ _ h1 in
    let (h3, adapter) = &&-eq-true _ _ h2 in
    let (h4, response) = &&-eq-true _ _ h3 in
    let (h5, method) = &&-eq-true _ _ h4 in
    let (kind, target) = &&-eq-true _ _ h5 in
    let (by_url, by_ref) = same_target-eq active.request_kind active next target in
    (
      same_kind-eq _ _ kind,
      by_url,
      by_ref,
      same_option-eq ◌===◌ active.method next.method (λ x y. (===_iff x y).0) method,
      same_option-eq same_response_type active.response_type next.response_type
          same_response_type-eq response,
      same_option-eq ◌==◌ active.state_adapter next.state_adapter (λ x y. (==_iff x y).0) adapter,
    )

same_request-SameContract :
    (active next : Option InflightRequestContract)
    → same_request_contract active next ≡ true
    → SameContract active next
unfolding same_request_contract
same_request-SameContract none next h = tt
same_request-SameContract (some active) none h = tt
same_request-SameContract (some active) (some next) h = same_contracts-SameContract active next h

same_result-eq :
    (active : InflightEntry) (request : DedupeRequest)
    → same_result_contract active request ≡ true
    → (active.transform ≡ request.transform) × (active.clone_result ≡ request.clone_result)
unfolding same_result_contract
same_result-eq active request h =
    let (transform, clone) = &&-eq-true _ _ h in
    (
      same_option-eq ◌==◌ _ _ (λ x y. (==_iff x y).0) transform,
      same_option-eq same_clone_result _ _ same_clone_result-eq clone,
    )

joined_against :
    (active : InflightEntry) (request : DedupeRequest) (p : ℕ)
    → dedupe_against active request ≡ joined p
    → (same_request_contract active.contract request.contract ≡ true)
      × (same_result_contract active request ≡ true)
      × (active.promise ≡ p)
joined_against active request p h = ground arith

-- A caller is handed a promise only if it is the one in flight for the slot and was started under
-- the same transform, the same clone mode and, where both are known, the same target, method,
-- response type and state adapter.
pub joined-SameContract :
    (name slot : String) (request : DedupeRequest) (r : AsyncRegistry) (p : ℕ)
    → (try_dedupe_request name slot request r).0 ≡ joined p
    → (active : InflightEntry) × (lookup slot r.inflight ≡ some active)
      × (active.promise ≡ p)
      × (active.transform ≡ request.transform)
      × (active.clone_result ≡ request.clone_result)
      × SameContract active.contract request.contract
unfolding try_dedupe_request
joined-SameContract name slot request r p h = elim (Option-cases (lookup slot r.inflight)) [
  | inl idle ↦ ground arith
  | inr (active, e) ↦
      let (same, result, p_eq) =
        joined_against active request p (rw (← ap (λ o. dedupe_entry o request) e) h) in
      let (transform, clone) = same_result-eq active request result in
      (
        active,
        e,
        p_eq,
        transform,
        clone,
        same_request-SameContract active.contract request.contract same,
      )
]

-- With nothing in flight for the slot the caller goes on to fetch, and nothing is counted; with a
-- request in flight there is always a verdict, and both counters rise by one.
pub dedupe_counts :
    (name slot : String) (request : DedupeRequest) (r : AsyncRegistry)
    → let (verdict, r') = try_dedupe_request name slot request r in
      (lookup slot r.inflight ≡ none → (verdict ≡ miss) × (r' ≡ r))
      × (lookup slot r.inflight ≢ none
          → (verdict ≢ miss)
            × (r'.dedupes ≡ r.dedupes + 1)
            × (or_else (lookup name r'.store_dedupes) 0
                ≡ or_else (lookup name r.store_dedupes) 0 + 1))
unfolding try_dedupe_request
dedupe_counts name slot request r = elim (Option-cases (lookup slot r.inflight)) [
  | inl idle ↦ rw idle (λ _. (refl, refl), λ busy. absurd (busy refl))
  | inr (active, e) ↦ ground (
    arith,
    lookup-insert name name (or_else (lookup name r.store_dedupes) 0 + 1) r.store_dedupes,
    ===_iff name name,
  )
]
