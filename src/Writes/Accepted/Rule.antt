-- ===== src/Writes/Accepted/Rule.antt =====
-- What a store's validator lets through, apart from how the code asks it
-- (src/core/store-lifecycle/validation.ts).
use stroid.Base.{
  Option-cases, ℕ, Bool, true, Option, none, some, ◌≡◌, refl, ◌⊎◌, inl, inr, arith, Bool-cases,
  subst, ◌&&◌,
}
use stroid.Writes.{Validate, checker, schema, Checked, accepts, rejects, gives, throws, Host}
use stroid.Writes.Pipeline.{
  normalize_committed_state, sanitize_value, checked, parsed, run_validation,
}

-- A value that the sanitizer has made of some value, or that it may reuse.
abbrev pub IsClean : Host → ℕ → Type 0
IsClean host c = (host.can_reuse_sanitized c ≡ true) ⊎ ((raw : ℕ) × (host.sanitize raw ≡ some c))

-- What the validator makes of the sanitized value `c` is `v`: it accepts `c`, or gives `v` in its place.
abbrev pub Yields : Option Validate → ℕ → ℕ → Type 0
Yields none c v = c ≡ v
Yields (some (checker check)) c v = ((check c ≡ accepts) × (c ≡ v)) ⊎ (check c ≡ gives v)
Yields (some (schema parse)) c v = ((parse c ≡ some none) × (c ≡ v)) ⊎ (parse c ≡ some (some v))

-- A value that the validator `rule` has let through.
abbrev pub IsAccepted : Host → Option Validate → ℕ → Type 0
IsAccepted host rule v = (c : ℕ) × (IsClean host c × Yields rule c v)

sanitized-IsClean :
    (host : Host) (reuse : Bool) (raw c : ℕ)
    → sanitize_value host reuse raw ≡ some c
    → IsClean host c
unfolding sanitize_value
sanitized-IsClean host reuse raw c h = elim (Bool-cases (reuse && host.can_reuse_sanitized raw)) [
  | inl y ↦ inl (
      subst (λ c. host.can_reuse_sanitized c ≡ true) (some_injective (rw y at h))
        (ground (arith, y)))
  | inr n ↦ inr (raw, rw n at h)
]
  where
    some_injective : {a b : ℕ} → some a ≡ some b → a ≡ b
    some_injective e = ground (arith, e)

checked-Yields :
    (check : ℕ → Checked) (c v : ℕ) (r : Checked)
    → check c ≡ r
    → checked r c ≡ some v
    → Yields (some (checker check)) c v
checked-Yields check c v accepts e h = inl (e, ground (arith, h))
checked-Yields check c v rejects e h = ground (arith, h)
checked-Yields check c v (gives w) e h = inr (ground (arith, e, h))
checked-Yields check c v throws e h = ground (arith, h)

parsed-Yields :
    (parse : ℕ → Option (Option ℕ)) (c v : ℕ) (r : Option (Option ℕ))
    → parse c ≡ r
    → parsed r c ≡ some v
    → Yields (some (schema parse)) c v
parsed-Yields parse c v none e h = ground (arith, h)
parsed-Yields parse c v (some none) e h = inl (e, ground (arith, h))
parsed-Yields parse c v (some (some w)) e h = inr (ground (arith, e, h))

validated-Yields :
    (rule : Option Validate) (c v : ℕ) → run_validation rule c ≡ some v → Yields rule c v
unfolding run_validation
validated-Yields none c v h = ground (arith, h)
validated-Yields (some (checker check)) c v h = checked-Yields check c v (check c) refl h
validated-Yields (some (schema parse)) c v h = parsed-Yields parse c v (parse c) refl h

pub normalized-IsAccepted :
    (host : Host) (rule : Option Validate) (reuse : Bool) (raw v : ℕ)
    → normalize_committed_state host rule reuse raw ≡ some v
    → IsAccepted host rule v
unfolding normalize_committed_state
normalized-IsAccepted host rule reuse raw v h =
    elim (Option-cases (sanitize_value host reuse raw)) [
      | inl o ↦ ground (arith, h, o)
      | inr (c, o) ↦ (
        c,
        (sanitized-IsClean host reuse raw c o, validated-Yields rule c v (ground (arith, h, o))),
      )
    ]
