-- ===== src/Helpers/Entities.antt =====
-- The ids and the entities of an entity store stay in step (src/helpers/index.ts).
use stroid.Base.{
  ℕ, String, none, true, false, List, [], ◌∷◌, ◌++◌, if◌then◌else◌, map, All, is_some, ◌≡◌, ◌===◌,
  ===_iff, refl, sym, subst, ◌∙◌, arith, Bool-cases, inl, inr,
}
use stroid.Base.Dict.{Dict, insert, erase, lookup, has_key, lookup-insert, lookup-erase}
use stroid.Base.Names.{has, remove, IsDistinct, has-append, has-remove}
use stroid.Path.Access.{is_forbidden}
use stroid.Helpers.{EntityStore, sanitize_entities, upsert, remove_entity, all_entities}

-- The ids are distinct, they are those of the entities, and none is a forbidden key.
pub record IsListed (s : EntityStore) : Type 0 where
  pub distinct : IsDistinct s.ids
  pub same : (id : String) → has id s.ids ≡ has_key id s.entities
  pub allowed : (id : String) → has id s.ids ≡ true → is_forbidden id ≡ false

lookup-sanitize_entities :
    (n : String) (m : Dict ℕ)
    → lookup n (sanitize_entities m) ≡ (if is_forbidden n then none else lookup n m)
unfolding sanitize_entities
lookup-sanitize_entities n [] = ground arith
lookup-sanitize_entities n ((k, e) ∷ m) = elim (Bool-cases (k === n)) [
  | inl y ↦ rw ((===_iff k n).0 y) (ground (arith, ===_iff n n, lookup-sanitize_entities n m))
  | inr o ↦ ground (arith, o, lookup-sanitize_entities n m)
]

push-IsDistinct :
    (ids : List String) (id : String)
    → has id ids ≡ false
    → IsDistinct ids
    → IsDistinct (ids ++ id ∷ [])
push-IsDistinct [] id h d = (refl, tt)
push-IsDistinct (n ∷ ids) id h (fresh, d) = (
  ground (arith, h, fresh, has-append n ids (id ∷ []), ===_iff n id, ===_iff id n),
  push-IsDistinct ids id (ground (arith, h)) d,
)

remove-IsDistinct : (ids : List String) (id : String) → IsDistinct ids → IsDistinct (remove id ids)
remove-IsDistinct [] id d = tt
remove-IsDistinct (n ∷ ids) id (fresh, d) = elim (Bool-cases (n === id)) [
  | inl y ↦
      subst (λ b. IsDistinct (if b then remove id ids else n ∷ remove id ids)) (sym y)
        (remove-IsDistinct ids id d)
  | inr y ↦
      subst (λ b. IsDistinct (if b then remove id ids else n ∷ remove id ids)) (sym y)
        (ground (arith, fresh, has-remove n id ids), remove-IsDistinct ids id d)
]

upsert-ids :
    (ids : List String) (id : String)
    → IsDistinct ids
    → IsDistinct (if has id ids then ids else ids ++ id ∷ [])
upsert-ids ids id d = elim (Bool-cases (has id ids)) [
  | inl y ↦ subst (λ b. IsDistinct (if b then ids else ids ++ id ∷ [])) (sym y) d
  | inr y ↦
      subst (λ b. IsDistinct (if b then ids else ids ++ id ∷ [])) (sym y)
        (push-IsDistinct ids id y d)
]

-- Inserting or replacing an entity whose id is no forbidden key keeps the ids distinct and those of the
-- entities.
upsert-IsListed :
    (id : String) (entity : ℕ) (s : EntityStore)
    → is_forbidden id ≡ false
    → IsListed s
    → IsListed (upsert id entity s)
unfolding upsert
upsert-IsListed id entity s ok h = record {
  distinct = upsert-ids s.ids id h.distinct;
  same = λ n. elim (Bool-cases (id === n)) [
    | inl y ↦
        subst
          (λ n.
            has n (if has id s.ids then s.ids else s.ids ++ id ∷ [])
            ≡ has_key n (sanitize_entities (insert id entity s.entities)))
          ((===_iff id n).0 y)
          (ground (
            arith,
            ok,
            ===_iff id id,
            has-append id s.ids (id ∷ []),
            lookup-sanitize_entities id (insert id entity s.entities),
            lookup-insert id id entity s.entities,
          ))
    | inr o ↦ other n o
  ];
  allowed = λ n i. elim (Bool-cases (id === n)) [
    | inl y ↦ subst (λ n. is_forbidden n ≡ false) ((===_iff id n).0 y) ok
    | inr o ↦ h.allowed n (ground (arith, i, o, has-append n s.ids (id ∷ [])))
  ];
}
  where
    other :
        (n : String)
        → (id === n) ≡ false
        → has n (if has id s.ids then s.ids else s.ids ++ id ∷ [])
          ≡ has_key n (sanitize_entities (insert id entity s.entities))
    other n o = elim (Bool-cases (is_forbidden n)) [
      | inl f ↦ ground (
        arith,
        f,
        o,
        h.allowed n,
        has-append n s.ids (id ∷ []),
        lookup-sanitize_entities n (insert id entity s.entities),
      )
      | inr a ↦ ground (
        arith,
        a,
        o,
        h.same n,
        has-append n s.ids (id ∷ []),
        lookup-sanitize_entities n (insert id entity s.entities),
        lookup-insert n id entity s.entities,
      )
    ]

-- Removing an entity keeps the ids distinct and those of the entities.
remove_entity-IsListed :
    (id : String) (s : EntityStore) → IsListed s → IsListed (remove_entity id s)
unfolding remove_entity
remove_entity-IsListed id s h = record {
  distinct = remove-IsDistinct s.ids id h.distinct;
  same = λ n. elim (Bool-cases (is_forbidden n)) [
    | inl f ↦ ground (
      arith,
      f,
      h.allowed n,
      has-remove n id s.ids,
      lookup-sanitize_entities n (erase id s.entities),
    )
    | inr a ↦ ground (
      arith,
      a,
      h.same n,
      ===_iff id n,
      has-remove n id s.ids,
      lookup-sanitize_entities n (erase id s.entities),
      lookup-erase n id s.entities,
    )
  ];
  allowed = λ n i. h.allowed n (ground (arith, i, has-remove n id s.ids));
}

present :
    (ids : List String) (m : Dict ℕ)
    → ((id : String) → has id ids ≡ true → has_key id m ≡ true)
    → All (λ e. is_some e ≡ true) (map (λ id. lookup id m) ids)
present [] m h = tt
present (n ∷ ids) m h =
    (h n (ground (arith, ===_iff n n)), present ids m (λ id e. h id (ground (arith, e))))

all_entities-some : (s : EntityStore) → IsListed s → All (λ e. is_some e ≡ true) (all_entities s)
unfolding all_entities
all_entities-some s h = present s.ids s.entities (λ id e. sym (h.same id) ∙ e)

-- The calls that change an entity store.
pub data Change : Type 0 where
  upserts : String → ℕ → Change
  removes : String → Change

abbrev pub change : Change → EntityStore → EntityStore
change (upserts id entity) s = upsert id entity s
change (removes id) s = remove_entity id s

abbrev pub change_all : List Change → EntityStore → EntityStore
change_all [] s = s
change_all (c ∷ cs) s = change_all cs (change c s)

-- What a change puts in has no forbidden key for its id.
abbrev pub IsAllowed : Change → Type 0
IsAllowed (upserts id entity) = is_forbidden id ≡ false
IsAllowed (removes id) = Unit

change-IsListed : (c : Change) (s : EntityStore) → IsAllowed c → IsListed s → IsListed (change c s)
change-IsListed (upserts id entity) s a h = upsert-IsListed id entity s a h
change-IsListed (removes id) s a h = remove_entity-IsListed id s h

-- Whatever entities are put into an entity store and removed, its ids stay distinct and are those of its
-- entities, and `all` gives no undefined entity. No id that is put in is a forbidden key, and the store has
-- no validator and no middleware.
pub changes-IsListed :
    (cs : List Change) (s : EntityStore)
    → All IsAllowed cs
    → IsListed s
    → IsListed (change_all cs s) × All (λ e. is_some e ≡ true) (all_entities (change_all cs s))
changes-IsListed [] s a h = (h, all_entities-some s h)
changes-IsListed (c ∷ cs) s (a, rest) h =
    changes-IsListed cs (change c s) rest (change-IsListed c s a h)
