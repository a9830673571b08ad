-- ===== src/Sync/Alphabet.antt =====
-- The order of texts by their characters is strict and total: one that a runtime may have for ids.
use Prim.Native.Nat.{Ordering}
use Prim.Native.String.compare as compare_text
use Prim.Native.String.{String, [], ◌∷◌, compare as compare_text}
use text.Mathlib.TextEquality.{path_by_compare}
use text.Mathlib.TextPositions.{compare_refl}
use stroid.Base.{◌≡◌, arith}
use stroid.Sync.Order.{IsOrder}

flip : (a b : String) → compare_text a b ≡ Ordering.lt → compare_text b a ≡ Ordering.gt
flip [] [] h = ground (arith, h, compare_text.nil-nil)
flip [] (d ∷ t) h = compare_text.cons-nil d t
flip (c ∷ s) [] h = ground (arith, h, compare_text.cons-nil c s)
flip (c ∷ s) (d ∷ t) h =
    ground (arith, h, compare_text.cons-cons c d s t, compare_text.cons-cons d c t s, flip s t)

trans :
    (a b c : String)
    → compare_text a b ≡ Ordering.gt
    → compare_text b c ≡ Ordering.gt
    → compare_text a c ≡ Ordering.gt
trans [] [] z h k = ground (arith, h, compare_text.nil-nil)
trans [] (d ∷ t) z h k = ground (arith, h, compare_text.nil-cons d t)
trans (c ∷ s) y [] h k = compare_text.cons-nil c s
trans (c ∷ s) [] (e ∷ u) h k = ground (arith, k, compare_text.nil-cons e u)
trans (c ∷ s) (d ∷ t) (e ∷ u) h k = ground (
  arith,
  h,
  k,
  compare_text.cons-cons c d s t,
  compare_text.cons-cons d e t u,
  compare_text.cons-cons c e s u,
  trans s t u,
)

pub compare_text-IsOrder : IsOrder compare_text
compare_text-IsOrder = record {
  same = compare_refl;
  flip = flip;
  trans = trans;
  apart = path_by_compare;
}
