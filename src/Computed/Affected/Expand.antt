-- ===== src/Computed/Affected/Expand.antt =====
-- `expandComputedDeps` of src/computed/computed-graph.ts: the affected names grow by the registered
-- computed stores that they depend on.
use stroid.Base.{
  ℕ, zero, suc, ◌<◌, String, true, false, not, ◌&&◌, some, List, [], ◌∷◌, ◌===◌, ===_iff, ◌≡◌, refl,
  ◌∙◌, subst, arith, Bool-cases, ◌⊎◌, inl, inr,
}
use stroid.Base.Dict.{Dict, keys, has-keys, has_key}
use stroid.Base.Names.{has, add, has-add}
use stroid.Computed.{ComputedEntry, deps_of}
use stroid.Computed.Fuel.{unvisited, unvisited_le, unvisited_lt}
use stroid.Computed.Affected.{expand_deps, expand_all}
use stroid.Computed.Affected.Grows.{Keeps, Keeps-refl, Keeps-trans, Keeps-add}

module _ (entries : Dict ComputedEntry) where
  -- The registered computed stores among `deps` are in `names`.
  abbrev pub HoldsComputed : List String → List String → Type 0
  HoldsComputed names deps =
      (d : String) → has d deps ≡ true → has_key d entries ≡ true → has d names ≡ true

  -- `after` has the computed stores among `deps`, and those that its new names depend on.
  pub record Expands (deps before after : List String) : Type 0 where
    pub keeps : Keeps before after
    pub from_deps : HoldsComputed after deps
    pub from_new :
        (n : String)
        → has n after ≡ true
        → has n before ≡ false
        → HoldsComputed after (deps_of entries n)
    pub fresh : (n : String) → has n after ≡ true → has n before ≡ false → has_key n entries ≡ true

  abbrev HasFuel : ℕ → List String → List String → Type 0
  HasFuel fuel deps before = (deps ≡ []) ⊎ (unvisited (keys entries) before < fuel)

  HasFuel-below :
      (fuel : ℕ) (d : String) (before : List String)
      → (has_key d entries && not (has d before)) ≡ true
      → unvisited (keys entries) before < suc fuel
      → HasFuel fuel (deps_of entries d) (add d before)
  HasFuel-below fuel d before b h = inr (
      ground (
        arith,
        h,
        unvisited_lt (keys entries) d before (has-keys d entries ∙ ground (arith, b))
            (ground (arith, b)),
      ))

  less :
      (fuel : ℕ) (a b : List String)
      → Keeps a b
      → unvisited (keys entries) a < fuel
      → unvisited (keys entries) b < fuel
  less fuel a b k h = ground (arith, h, unvisited_le (keys entries) a b k.keeps)

  module _ (fuel : ℕ) (d : String) (deps before : List String) where
    expand-skip :
        (has_key d entries && not (has d before)) ≡ false
        → expand_deps entries (suc fuel) (d ∷ deps) before
          ≡ expand_deps entries (suc fuel) deps before
    unfolding expand_deps
    expand-skip b = ground (arith, b)

    expand-below :
        (after : List String)
        → (has_key d entries && not (has d before)) ≡ true
        → expand_deps entries fuel (deps_of entries d) (add d before) ≡ some after
        → expand_deps entries (suc fuel) (d ∷ deps) before
          ≡ expand_deps entries (suc fuel) deps after
    unfolding expand_deps
    expand-below after b e = ground (arith, b, e)

  known :
      (m : String) (before : List String)
      → (has_key m entries && not (has m before)) ≡ false
      → has_key m entries ≡ true
      → has m before ≡ true
  known m before b k = ground (arith, b, k)

  Expands-skip :
      (d : String) (deps before after : List String)
      → (has_key d entries && not (has d before)) ≡ false
      → Expands deps before after
      → Expands (d ∷ deps) before after
  Expands-skip d deps before after b h = record {
    keeps = h.keeps;
    from_deps = λ m e k. elim (Bool-cases (d === m)) [
      | inl y ↦ h.keeps.keeps m (
          known m before
            (subst (λ d. (has_key d entries && not (has d before)) ≡ false) ((===_iff d m).0 y) b)
            k)
      | inr o ↦ h.from_deps m (ground (arith, e, o)) k
    ];
    from_new = h.from_new;
    fresh = h.fresh;
  }

  Expands-below :
      (d : String) (deps before middle after : List String)
      → has_key d entries ≡ true
      → Expands (deps_of entries d) (add d before) middle
      → Expands deps middle after
      → Expands (d ∷ deps) before after
  Expands-below d deps before middle after known_d h k = record {
    keeps =
        Keeps-trans before middle after
          (Keeps-trans before (add d before) middle (Keeps-add d before) h.keeps) k.keeps;
    from_deps = λ m e r. ground (
      arith,
      e,
      ===_iff d m,
      has-add m d before,
      h.keeps.keeps m,
      k.keeps.keeps m,
      k.from_deps m,
      r,
    );
    from_new = λ n e f. elim (Bool-cases (has n middle)) [
      | inr out ↦ k.from_new n e out
      | inl inside ↦ elim (Bool-cases (d === n)) [
        | inl y ↦
            subst (λ m. HoldsComputed after (deps_of entries m)) ((===_iff d n).0 y)
              (λ m i r. k.keeps.keeps m (h.from_deps m i r))
        | inr o ↦ λ m i r.
            k.keeps.keeps m (h.from_new n inside (ground (arith, o, f, has-add n d before)) m i r)
      ]
    ];
    fresh = λ n e f. elim (Bool-cases (has n middle)) [
      | inr out ↦ k.fresh n e out
      | inl inside ↦ elim (Bool-cases (d === n)) [
        | inl y ↦ subst (λ m. has_key m entries ≡ true) ((===_iff d n).0 y) known_d
        | inr o ↦ h.fresh n inside (ground (arith, o, f, has-add n d before))
      ]
    ];
  }

  expand_deps-Expands :
      (fuel : ℕ) (deps before : List String)
      → HasFuel fuel deps before
      → (after : List String) × ((expand_deps entries fuel deps before ≡ some after)
          × Expands deps before after)
  unfolding expand_deps
  expand_deps-Expands fuel [] before h = (
    before,
    (
      refl,
      record {
        keeps = Keeps-refl before;
        from_deps = λ d e. ground (arith, e);
        from_new = λ n e f. ground (arith, e, f);
        fresh = λ n e f. ground (arith, e, f);
      },
    ),
  )
  expand_deps-Expands zero (d ∷ deps) before h = ground (arith, h)
  expand_deps-Expands (suc fuel) (d ∷ deps) before (inl h) = ground (arith, h)
  expand_deps-Expands (suc fuel) (d ∷ deps) before (inr h) =
      elim (Bool-cases (has_key d entries && not (has d before))) [
        | inl y ↦
            let (middle, (e, below)) =
              expand_deps-Expands fuel (deps_of entries d) (add d before)
                (HasFuel-below fuel d before y h) in
            let k = Keeps-trans before (add d before) middle (Keeps-add d before) below.keeps in
            let (after, (e', rest)) =
              expand_deps-Expands (suc fuel) deps middle
                (inr (less (suc fuel) before middle k h)) in
            (
              after,
              (
                expand-below fuel d deps before middle y e ∙ e',
                Expands-below d deps before middle after (ground (arith, y)) below rest,
              ),
            )
        | inr n ↦
            let (after, (e, rest)) = expand_deps-Expands (suc fuel) deps before (inr h) in
            (after, (expand-skip fuel d deps before n ∙ e, Expands-skip d deps before after n rest))
      ]

  expand_all-step :
      (fuel : ℕ) (name : String) (names before after : List String)
      → expand_deps entries fuel (deps_of entries name) before ≡ some after
      → expand_all entries fuel (name ∷ names) before ≡ expand_all entries fuel names after
  unfolding expand_all
  expand_all-step fuel name names before after e = ground (arith, e)

  -- `after` has the computed stores that `names` and its new names depend on.
  pub record ExpandsAll (names before after : List String) : Type 0 where
    pub keeps : Keeps before after
    pub from_names : (n : String) → has n names ≡ true → HoldsComputed after (deps_of entries n)
    pub from_new :
        (n : String)
        → has n after ≡ true
        → has n before ≡ false
        → HoldsComputed after (deps_of entries n)
    pub fresh : (n : String) → has n after ≡ true → has n before ≡ false → has_key n entries ≡ true

  pub expand_all-ExpandsAll :
      (fuel : ℕ) (names before : List String)
      → unvisited (keys entries) before < fuel
      → (after : List String) × ((expand_all entries fuel names before ≡ some after)
          × ExpandsAll names before after)
  unfolding expand_all
  expand_all-ExpandsAll fuel [] before h = (
    before,
    (
      refl,
      record {
        keeps = Keeps-refl before;
        from_names = λ n e. ground (arith, e);
        from_new = λ n e f. ground (arith, e, f);
        fresh = λ n e f. ground (arith, e, f);
      },
    ),
  )
  expand_all-ExpandsAll fuel (name ∷ names) before h =
      let (middle, (e, step)) = expand_deps-Expands fuel (deps_of entries name) before (inr h) in
      let (after, (e', rest)) =
        expand_all-ExpandsAll fuel names middle (less fuel before middle step.keeps h) in
      (
        after,
        (
          expand_all-step fuel name names before middle e ∙ e',
          record {
            keeps = Keeps-trans before middle after step.keeps rest.keeps;
            from_names = λ n i. elim (Bool-cases (name === n)) [
              | inl y ↦
                  subst (λ n. HoldsComputed after (deps_of entries n)) ((===_iff name n).0 y)
                    (λ d j k. rest.keeps.keeps d (step.from_deps d j k))
              | inr o ↦ rest.from_names n (ground (arith, i, o))
            ];
            from_new = λ n i f. elim (Bool-cases (has n middle)) [
              | inl y ↦ λ d j k. rest.keeps.keeps d (step.from_new n y f d j k)
              | inr o ↦ rest.from_new n i o
            ];
            fresh = λ n i f. elim (Bool-cases (has n middle)) [
              | inl y ↦ step.fresh n y f
              | inr o ↦ rest.fresh n i o
            ];
          },
        ),
      )
