-- ===== src/Helpers.antt =====
-- The entity store of src/helpers/index.ts: entities by id, and the ids in the order of their first
-- insertion. The id that `upsert` falls back to comes from its caller, as does what an entity holds.
-- The options of the store are taken to have no validator and no middleware: of what `setStore` does with
-- a draft, the sanitizer (src/utils/validation.ts) stays, which drops the forbidden keys of an object. An
-- entity is one that it does not refuse.
pub mod Entities
mod Tests
use stroid.Base.{
  ℕ, String, Bool, true, false, Option, none, some, List, [], ◌∷◌, ◌++◌, if◌then◌else◌, map,
}
use stroid.Base.Dict.{Dict, lookup, insert, erase}
use stroid.Base.Names.{has, remove}
use stroid.Path.Access.{is_forbidden}

pub record EntityStore : Type 0 where
  pub entities : Dict ℕ
  pub ids : List String

-- The sanitized object: its own keys but the forbidden ones.
pub sanitize_entities : Dict ℕ → Dict ℕ
sanitize_entities [] = []
sanitize_entities ((key, entity) ∷ rest) =
    let clean = sanitize_entities rest in if is_forbidden key then clean else (key, entity) ∷ clean

-- What a draft becomes in the store.
abbrev pub committed : EntityStore → EntityStore
committed draft = record draft { entities = sanitize_entities draft.entities }

pub upsert : String → ℕ → EntityStore → EntityStore
upsert id entity s = committed (record {
  entities = insert id entity s.entities;
  ids = if has id s.ids then s.ids else s.ids ++ id ∷ [];
})

pub remove_entity : String → EntityStore → EntityStore
remove_entity id s = committed (record { entities = erase id s.entities; ids = remove id s.ids })

-- `all`: none stands for undefined
pub all_entities : EntityStore → List (Option ℕ)
all_entities s = map (λ id. lookup id s.entities) s.ids

pub get_entity : String → EntityStore → Option ℕ
get_entity id s = lookup id s.entities
