-- ===== src/Computed/Topo/Kahn.antt =====
-- The loop over ready names keeps the degrees in step with what is sorted
-- (src/computed/computed-graph.ts).
use stroid.Base.{
  ℕ, suc, ◌+◌, ◌-◌, ◌≤◌, String, Bool, true, false, some, List, [], ◌∷◌, ◌++◌, ◌≡◌, refl, ◌===◌,
  ===_iff, ◌==◌, if◌then◌else◌, arith, length, inl, inr, ◌⊎◌, or_else, Bool-cases, if-both, ◌&&◌,
  ◌∙◌, sym, ap, subst,
}
use stroid.Base.Dict.{Dict, lookup, insert, lookup-insert}
use stroid.Base.Names.{has, IsDistinct, has-append}
use stroid.Computed.Topo.{insert_ready, relax}
use stroid.Computed.Topo.Degrees.{count}

-- How many of `ns` are not sorted yet.
abbrev pub missing : List String → List String → ℕ
missing [] sorted = 0
missing (d ∷ ds) sorted = let rest = missing ds sorted in if has d sorted then rest else suc rest

pub missing-nil : (ns : List String) → missing ns [] ≡ length ns
missing-nil [] = refl
missing-nil (d ∷ ds) = ground (arith, missing-nil ds)

pub missing-snoc :
    (ns sorted : List String) (n : String)
    → has n sorted ≡ false
    → missing ns (sorted ++ n ∷ []) + count n ns ≡ missing ns sorted
missing-snoc [] sorted n h = omega arith
missing-snoc (d ∷ ds) sorted n h =
    ground
      (arith, h, missing-snoc ds sorted n h, has-append d sorted (n ∷ []), ===_iff n d, ===_iff d n)

pub missing-zero :
    (ns sorted : List String) (d : String)
    → missing ns sorted ≡ 0
    → has d ns ≡ true
    → has d sorted ≡ true
missing-zero [] sorted d z h = ground (arith, h)
missing-zero (n ∷ ns) sorted d z h = ground (arith, z, h, ===_iff n d, missing-zero ns sorted d)

pub has-count : (x : String) (cs : List String) → has x cs ≡ true → 1 ≤ count x cs
has-count x [] h = ground (arith, h)
has-count x (c ∷ cs) h = ground (arith, h, has-count x cs)

module _ (before : String → String → Bool) where
  pub has-insert_ready :
      (x child : String) (ready : List String)
      → has x (insert_ready before child ready) ≡ has x (child ∷ ready)
  unfolding insert_ready
  has-insert_ready x child [] = refl
  has-insert_ready x child (n ∷ ns) = ground (arith, has-insert_ready x child ns)

  pub insert_ready-IsDistinct :
      (child : String) (ready : List String)
      → has child ready ≡ false
      → IsDistinct ready
      → IsDistinct (insert_ready before child ready)
  unfolding insert_ready
  insert_ready-IsDistinct child [] h u = (refl, tt)
  insert_ready-IsDistinct child (n ∷ ns) h (fresh, u) =
      let rest = insert_ready-IsDistinct child ns (ground (arith, h)) u in
      elim (Bool-cases (before child n)) [
        | inl y ↦
            subst (λ b. IsDistinct (if b then child ∷ n ∷ ns else n ∷ insert_ready before child ns))
              (sym y) (h, (fresh, u))
        | inr away ↦
            subst (λ b. IsDistinct (if b then child ∷ n ∷ ns else n ∷ insert_ready before child ns))
              (sym away)
              (
                ground (
                  arith,
                  h,
                  fresh,
                  has-insert_ready n child ns,
                  ===_iff child n,
                  ===_iff n child,
                ),
                rest,
              )
      ]

  -- The degrees `g` of the nodes `node`, after the edges to `cs` are taken away.
  pub record Relaxed (node : String → Bool) (g : String → ℕ) (cs ready : List String)
      (r : Dict ℕ × List String) : Type 0 where
    pub degrees : (x : String) → node x ≡ true → lookup x r.0 ≡ some (g x - count x cs)
    pub members :
        (x : String)
        → has x r.1 ≡ true
        → (has x ready ≡ true) ⊎ ((g x - count x cs ≡ 0) × ((1 ≤ g x) × (node x ≡ true)))
    pub distinct : IsDistinct r.1
    pub kept : (x : String) → has x ready ≡ true → has x r.1 ≡ true
    pub freed : (x : String) → node x ≡ true → 1 ≤ g x → g x - count x cs ≡ 0 → has x r.1 ≡ true

  abbrev lowered : String → (String → ℕ) → String → ℕ
  lowered child g x = if child === x then g x - 1 else g x

  -- The ready names after the degree of `child`, which was `k`, is lowered.
  abbrev next_ready : String → ℕ → List String → List String
  next_ready child k ready = if k == 1 then insert_ready before child ready else ready

  has-next_ready :
      (x child : String) (k : ℕ) (ready : List String)
      → has x (next_ready child k ready) ≡ (if k == 1 then has x (child ∷ ready) else has x ready)
  has-next_ready x child k ready = ground (arith, has-insert_ready x child ready)

  next_ready-IsDistinct :
      (child : String) (k : ℕ) (ready : List String)
      → has child ready ≡ false
      → IsDistinct ready
      → IsDistinct (next_ready child k ready)
  next_ready-IsDistinct child k ready h u =
      if-both IsDistinct (k == 1) (insert_ready before child ready) ready
        (insert_ready-IsDistinct child ready h u) u

  relax-step :
      (node : String → Bool) (child : String) (cs : List String) (g : String → ℕ)
      (ready : List String) (r : Dict ℕ × List String)
      → node child ≡ true
      → 1 ≤ g child
      → Relaxed node (lowered child g) cs (next_ready child (g child) ready) r
      → Relaxed node g (child ∷ cs) ready r
  relax-step node child cs g ready r here le rest = record {
    degrees = λ x h. rest.degrees x h ∙ ap some (lower x);
    members = λ x h. elim (rest.members x h) [
      | inl y ↦ elim (Bool-cases (has x ready)) [
        | inl old ↦ inl old
        | inr new ↦ inr (fresh x y new)
      ]
      | inr (z, (le', nx)) ↦ inr (sym (lower x) ∙ z, (ground (arith, le', ===_iff child x), nx))
    ];
    distinct = rest.distinct;
    kept = λ x h. rest.kept x (ground (arith, h, has-next_ready x child (g child) ready));
    freed = λ x h l z. elim (Bool-cases ((child === x) && (g child == 1))) [
      | inl y ↦ rest.kept x (ground (arith, y, has-next_ready x child (g child) ready))
      | inr n ↦
          rest.freed x h
            (elim (Bool-cases (child === x)) [
              | inl y ↦
                  subst (λ x. 1 ≤ lowered child g x) ((===_iff child x).0 y)
                    (ground (arith, n, y, le, ===_iff child child))
              | inr o ↦ ground (arith, l, o)
            ])
            (lower x ∙ z)
    ];
  }
    where
      lower : (x : String) → lowered child g x - count x cs ≡ g x - count x (child ∷ cs)
      lower x = ground arith

      fresh :
          (x : String)
          → has x (next_ready child (g child) ready) ≡ true
          → has x ready ≡ false
          → (g x - count x (child ∷ cs) ≡ 0) × ((1 ≤ g x) × (node x ≡ true))
      fresh x y new =
          let at : child === x ≡ true =
            ground (arith, y, new, has-next_ready x child (g child) ready) in
          let one : g child ≡ 1 = ground (arith, y, new, has-next_ready x child (g child) ready) in
          subst (λ x. (g x - count x (child ∷ cs) ≡ 0) × ((1 ≤ g x) × (node x ≡ true)))
            ((===_iff child x).0 at) (ground (arith, one, ===_iff child child), (le, here))

  pub relax-Relaxed :
      (node : String → Bool) (cs : List String) (g : String → ℕ) (degrees : Dict ℕ)
      (ready : List String)
      → ((x : String) → node x ≡ true → lookup x degrees ≡ some (g x))
      → ((x : String) → has x cs ≡ true → node x ≡ true)
      → ((x : String) → count x cs ≤ g x)
      → ((x : String) → has x ready ≡ true → g x ≡ 0)
      → IsDistinct ready
      → Relaxed node g cs ready (relax before cs (degrees, ready))
  unfolding relax
  relax-Relaxed node [] g degrees ready d n c z u = record {
    degrees = λ x h. ground (arith, d x h);
    members = λ x h. inl h;
    distinct = u;
    kept = λ x h. h;
    freed = λ x h l e. ground (arith, l, e);
  }
  relax-Relaxed node (child ∷ cs) g degrees ready d n c z u =
      let here : node child ≡ true = n child (ground (arith, ===_iff child child)) in
      let le : 1 ≤ g child = ground (arith, c child, ===_iff child child) in
      let new : has child ready ≡ false = ground (arith, le, z child) in
      let degree : or_else (lookup child degrees) 1 ≡ g child =
        ap (λ o. or_else o 1) (d child here) in
      subst
        (λ k.
          Relaxed node g (child ∷ cs) ready
            (relax before cs (insert child (k - 1) degrees, next_ready child k ready)))
        (sym degree)
        (relax-step node child cs g ready _ here le (
          relax-Relaxed node cs (lowered child g) (insert child (g child - 1) degrees)
            (next_ready child (g child) ready)
            (λ x h.
              ground (arith, d x h, ===_iff child x, lookup-insert x child (g child - 1) degrees))
            (λ x h. n x (ground (arith, h))) (λ x. ground (arith, c x))
            (λ x h.
              ground (arith, h, le, z x, ===_iff child x, has-next_ready x child (g child) ready))
            (next_ready-IsDistinct child (g child) ready new u)))
