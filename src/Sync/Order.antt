-- ===== src/Sync/Order.antt =====
-- The order of versions is total and strict if `localeCompare` is, as the runtime documents it to be
-- for ids of tabs.
use Prim.Native.Nat.{Ordering, compare}
use stroid.Base.{ℕ, String, Bool, true, false, ===_iff, ◌≡◌, ◌⊎◌, arith}
use stroid.Sync.Message.{compare_sources, order_then}

-- `a.localeCompare(b, "en", { sensitivity: "variant" })` is a strict total order.
pub record IsOrder (locale_compare : String → String → Ordering) : Type 0 where
  pub same : (a : String) → locale_compare a a ≡ Ordering.eq
  pub flip : (a b : String) → locale_compare a b ≡ Ordering.lt → locale_compare b a ≡ Ordering.gt
  pub trans :
      (a b c : String)
      → locale_compare a b ≡ Ordering.gt
      → locale_compare b c ≡ Ordering.gt
      → locale_compare a c ≡ Ordering.gt
  pub apart : (a b : String) → locale_compare a b ≡ Ordering.eq → a ≡ b

-- A clock and the tab that set it.
abbrev pub Stamp : Type 0
Stamp = ℕ × String

abbrev pub is_gt : Ordering → Bool
is_gt Ordering.gt = true
is_gt _ = false

module _ (locale_compare : String → String → Ordering) where
  unfoldable pub newer : Stamp → Stamp → Bool
  newer a b = is_gt (order_then (compare a.0 b.0) (compare_sources locale_compare a.1 b.1))

  sources_trans :
      IsOrder locale_compare
      → (a b c : String) → compare_sources locale_compare a b ≡ Ordering.gt
      → compare_sources locale_compare b c ≡ Ordering.gt
      → compare_sources locale_compare a c ≡ Ordering.gt
  sources_trans o a b c h k =
      ground (arith, ===_iff a b, ===_iff b c, ===_iff a c, o.trans a b c, o.same a)

  pub newer_trans :
      IsOrder locale_compare
      → (a b c : Stamp) → newer a b ≡ true
      → newer b c ≡ true
      → newer a c ≡ true
  unfolding newer
  newer_trans o a b c h k = ground (arith, sources_trans o a.1 b.1 c.1)

  sources-total :
      IsOrder locale_compare
      → (a b : String)
      → (a ≡ b)
        ⊎ (compare_sources locale_compare a b ≡ Ordering.gt)
        ⊎ (compare_sources locale_compare b a ≡ Ordering.gt)
  sources-total o a b = ground (arith, ===_iff a b, ===_iff b a, o.flip a b, o.apart a b)

  -- Of two stamps neither of which is newer than the other, each is the other.
  pub newer-total :
      IsOrder locale_compare → (a b : Stamp) → newer a b ≡ false → newer b a ≡ false → a ≡ b
  unfolding newer
  newer-total o a b h k =
      let clocks : a.0 ≡ b.0 = ground arith in
      let sources : a.1 ≡ b.1 = ground (arith, sources-total o a.1 b.1) in
      λ i. (clocks i, sources i)

  pub newer_irrefl : (a : Stamp) → newer a a ≡ false
  unfolding newer
  newer_irrefl a = ground (arith, ===_iff a.1 a.1)
