-- ===== src/Helpers/Tests.antt =====
-- An entity store with one user.
use stroid.Path.Access.{is_forbidden}
use stroid.Base.{false, subst, ===_iff, String, List, true, [], ◌∷◌, All, is_some, ◌≡◌, refl, arith}
use stroid.Base.Dict.{has_key}
use stroid.Base.Names.{has}
use stroid.Helpers.{EntityStore, all_entities}
use stroid.Helpers.Entities.{IsListed, Change, upserts, removes, change_all, changes-IsListed}

abbrev one_user : EntityStore
one_user = record { entities = ("ann", 1) ∷ []; ids = "ann" ∷ [] }

one_user-IsListed : IsListed one_user
one_user-IsListed = record {
  distinct = (refl, tt);
  same = λ id. same_key id;
  allowed = λ id h. allowed_key id h;
}
  where
    same_key : (id : String) → has id one_user.ids ≡ has_key id one_user.entities
    same_key id = ground arith

    allowed_key : (id : String) → has id one_user.ids ≡ true → is_forbidden id ≡ false
    allowed_key id h =
        subst (λ id. is_forbidden id ≡ false) ((===_iff "ann" id).0 (ground (arith, h))) refl

abbrev changes : List Change
changes = upserts "bob" 2 ∷ removes "ann" ∷ upserts "bob" 3 ∷ []

changes-IsListed_example :
    IsListed (change_all changes one_user)
    × All (λ e. is_some e ≡ true) (all_entities (change_all changes one_user))
changes-IsListed_example =
    changes-IsListed changes one_user (refl, (tt, (refl, tt))) one_user-IsListed
