-- ===== src/Path/Tree.antt =====
-- Values as trees (src/utils/path.ts, `getType` of src/utils/validation.ts): an object is its own
-- properties, an array its elements. Dates, Maps and Sets, inherited properties and properties of an
-- array that are no elements are left out. Keys are texts as strings.
use stroid.Base.{
  ℕ, zero, suc, String, Bool, true, false, ◌&&◌, ◌≡◌, refl, if◌then◌else◌, ◌===◌, ◌==◌, ===_iff,
  arith, ===_ne, ◌≢◌, ap, ap₂, &&-eq-true, ==_iff,
}

-- The results of `typeof` for a value that is no object.
pub data Primitive : Type 0 where
  string : Primitive
  number : Primitive
  boolean : Primitive
  bigint : Primitive
  symbol : Primitive
  function : Primitive

mutual
  pub data Json : Type 0 where
    undefined : Json
    null : Json
    primitive : Primitive → ℕ → Json
    array : Items → Json
    object : Fields → Json

  pub data Items : Type 0 where
    nil : Items
    cons : Json → Items → Items

  pub data Fields : Type 0 where
    end : Fields
    field : String → Json → Fields → Fields

pub data SupportedType : Type 0 where
  null_type : SupportedType
  array_type : SupportedType
  object_type : SupportedType
  undefined_type : SupportedType
  primitive_type : Primitive → SupportedType

-- `getType`
abbrev pub get_type : Json → SupportedType
get_type undefined = undefined_type
get_type null = null_type
get_type (primitive p n) = primitive_type p
get_type (array xs) = array_type
get_type (object fs) = object_type

abbrev same_primitive : Primitive → Primitive → Bool
same_primitive string string = true
same_primitive number number = true
same_primitive boolean boolean = true
same_primitive bigint bigint = true
same_primitive symbol symbol = true
same_primitive function function = true
same_primitive _ _ = false

abbrev pub same_type : SupportedType → SupportedType → Bool
same_type null_type null_type = true
same_type array_type array_type = true
same_type object_type object_type = true
same_type undefined_type undefined_type = true
same_type (primitive_type p) (primitive_type q) = same_primitive p q
same_type _ _ = false

-- `Object.is`; two references are taken for different.
abbrev pub is_same : Json → Json → Bool
is_same undefined undefined = true
is_same null null = true
is_same (primitive p m) (primitive q n) = same_primitive p q && m == n
is_same _ _ = false

-- `fields[key]`
abbrev pub find : String → Fields → Json
find key end = undefined
find key (field k v fs) = if k === key then v else find key fs

-- `hasOwnProperty.call(fields, key)`
abbrev pub has_own : String → Fields → Bool
has_own key end = false
has_own key (field k v fs) = if k === key then true else has_own key fs

-- `fields[key] = value` on a copy
abbrev pub put : String → Json → Fields → Fields
put key value end = field key value end
put key value (field k v fs) =
    let rest = put key value fs in if k === key then field k value fs else field k v rest

-- `items[index]`
abbrev pub item_at : ℕ → Items → Json
item_at i nil = undefined
item_at zero (cons x xs) = x
item_at (suc i) (cons x xs) = item_at i xs

-- `items[index] = value` on a copy, which fills the places up to a new index with undefined
abbrev pub put_at : ℕ → Json → Items → Items
put_at zero value nil = cons value nil
put_at (suc i) value nil = cons undefined (put_at i value nil)
put_at zero value (cons x xs) = cons value xs
put_at (suc i) value (cons x xs) = cons x (put_at i value xs)

-- `items.length`
abbrev pub size : Items → ℕ
size nil = 0
size (cons x xs) = suc (size xs)

pub find-put : (key : String) (value : Json) (fs : Fields) → find key (put key value fs) ≡ value
find-put key value end = ground (arith, ===_iff key key)
find-put key value (field k v fs) = ground (arith, ===_iff key key, find-put key value fs)

pub find-put-other :
    (j key : String) (value : Json) (fs : Fields) → j ≢ key → find j (put key value fs) ≡ find j fs
find-put-other j key value end ne = ground (arith, ===_iff key j, ===_ne key j)
find-put-other j key value (field k v fs) ne =
    ground (arith, ===_iff k key, ===_iff k j, ===_iff key j, find-put-other j key value fs ne)

pub item_at-put_at : (i : ℕ) (value : Json) (xs : Items) → item_at i (put_at i value xs) ≡ value
item_at-put_at zero value nil = refl
item_at-put_at (suc i) value nil = item_at-put_at i value nil
item_at-put_at zero value (cons x xs) = refl
item_at-put_at (suc i) value (cons x xs) = item_at-put_at i value xs

pub item_at-put_at-other :
    (j i : ℕ) (value : Json) (xs : Items) → j ≢ i → item_at j (put_at i value xs) ≡ item_at j xs
item_at-put_at-other zero zero value nil ne = elim (ne refl) [ ]
item_at-put_at-other zero (suc i) value nil ne = refl
item_at-put_at-other (suc j) zero value nil ne = refl
item_at-put_at-other (suc j) (suc i) value nil ne =
    item_at-put_at-other j i value nil (λ e. ne (ap suc e))
item_at-put_at-other zero zero value (cons x xs) ne = elim (ne refl) [ ]
item_at-put_at-other zero (suc i) value (cons x xs) ne = refl
item_at-put_at-other (suc j) zero value (cons x xs) ne = refl
item_at-put_at-other (suc j) (suc i) value (cons x xs) ne =
    item_at-put_at-other j i value xs (λ e. ne (ap suc e))

same_primitive-eq : (p q : Primitive) → same_primitive p q ≡ true → p ≡ q
same_primitive-eq string string h = refl
same_primitive-eq string number h = ground (arith, h)
same_primitive-eq string boolean h = ground (arith, h)
same_primitive-eq string bigint h = ground (arith, h)
same_primitive-eq string symbol h = ground (arith, h)
same_primitive-eq string function h = ground (arith, h)
same_primitive-eq number string h = ground (arith, h)
same_primitive-eq number number h = refl
same_primitive-eq number boolean h = ground (arith, h)
same_primitive-eq number bigint h = ground (arith, h)
same_primitive-eq number symbol h = ground (arith, h)
same_primitive-eq number function h = ground (arith, h)
same_primitive-eq boolean string h = ground (arith, h)
same_primitive-eq boolean number h = ground (arith, h)
same_primitive-eq boolean boolean h = refl
same_primitive-eq boolean bigint h = ground (arith, h)
same_primitive-eq boolean symbol h = ground (arith, h)
same_primitive-eq boolean function h = ground (arith, h)
same_primitive-eq bigint string h = ground (arith, h)
same_primitive-eq bigint number h = ground (arith, h)
same_primitive-eq bigint boolean h = ground (arith, h)
same_primitive-eq bigint bigint h = refl
same_primitive-eq bigint symbol h = ground (arith, h)
same_primitive-eq bigint function h = ground (arith, h)
same_primitive-eq symbol string h = ground (arith, h)
same_primitive-eq symbol number h = ground (arith, h)
same_primitive-eq symbol boolean h = ground (arith, h)
same_primitive-eq symbol bigint h = ground (arith, h)
same_primitive-eq symbol symbol h = refl
same_primitive-eq symbol function h = ground (arith, h)
same_primitive-eq function string h = ground (arith, h)
same_primitive-eq function number h = ground (arith, h)
same_primitive-eq function boolean h = ground (arith, h)
same_primitive-eq function bigint h = ground (arith, h)
same_primitive-eq function symbol h = ground (arith, h)
same_primitive-eq function function h = refl

pub is_same-eq : (a b : Json) → is_same a b ≡ true → a ≡ b
is_same-eq undefined undefined h = refl
is_same-eq undefined null h = ground (arith, h)
is_same-eq undefined (primitive q n) h = ground (arith, h)
is_same-eq undefined (array ys) h = ground (arith, h)
is_same-eq undefined (object gs) h = ground (arith, h)
is_same-eq null undefined h = ground (arith, h)
is_same-eq null null h = refl
is_same-eq null (primitive q n) h = ground (arith, h)
is_same-eq null (array ys) h = ground (arith, h)
is_same-eq null (object gs) h = ground (arith, h)
is_same-eq (primitive p m) undefined h = ground (arith, h)
is_same-eq (primitive p m) null h = ground (arith, h)
is_same-eq (primitive p m) (primitive q n) h =
    let (pq, mn) = &&-eq-true (same_primitive p q) (m == n) h in
    ap₂ primitive (same_primitive-eq p q pq) (ground (arith, ==_iff m n, mn))
is_same-eq (primitive p m) (array ys) h = ground (arith, h)
is_same-eq (primitive p m) (object gs) h = ground (arith, h)
is_same-eq (array xs) undefined h = ground (arith, h)
is_same-eq (array xs) null h = ground (arith, h)
is_same-eq (array xs) (primitive q n) h = ground (arith, h)
is_same-eq (array xs) (array ys) h = ground (arith, h)
is_same-eq (array xs) (object gs) h = ground (arith, h)
is_same-eq (object fs) undefined h = ground (arith, h)
is_same-eq (object fs) null h = ground (arith, h)
is_same-eq (object fs) (primitive q n) h = ground (arith, h)
is_same-eq (object fs) (array ys) h = ground (arith, h)
is_same-eq (object fs) (object gs) h = ground (arith, h)
