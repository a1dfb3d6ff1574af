-- ===== src/Align/Bounds.antt =====
-- What rounding does when the alignment is a power of two, as every page size is.
use il2cppapk2ios.Align.{align, floor}
use il2cppapk2ios.Common.{
  ℕ, ◌+◌, ◌-◌, ◌*◌, ◌/◌, ◌%◌, ◌^◌, ◌≤◌, ◌<◌, ◌≡◌, refl, ◌∙◌, arith, ap, dec_lt,
}
use il2cppapk2ios.Common.Bits.{bit_and_mask}
use native.Mathlib.Nat.{one-le-pow, div-add-mod, mod-lt, mul-mod_right, mul-le-mul_left}

pub pow_pos : (k : ℕ) → 1 ≤ 2 ^ k
pow_pos k = one-le-pow k 2 (omega arith)

-- Rounding down leaves the part above the remainder.
pub floor-eq : (k v : ℕ) → floor v (2 ^ k) ≡ v - v % 2 ^ k
unfolding floor
floor-eq k v = ground (arith, pow_pos k, bit_and_mask k v)

pub floor-eq_mul : (k v : ℕ) → floor v (2 ^ k) ≡ 2 ^ k * (v / 2 ^ k)
floor-eq_mul k v = omega (arith, floor-eq k v, div-add-mod v (2 ^ k))

-- Rounding down gives a multiple of the page that is at most the value and less than a page below it.
pub floor_bounds :
    (k v : ℕ)
    → (floor v (2 ^ k) % 2 ^ k ≡ 0) × (floor v (2 ^ k) ≤ v) × (v < floor v (2 ^ k) + 2 ^ k)
floor_bounds k v = (
  ap (λ (t : ℕ). t % 2 ^ k) (floor-eq_mul k v) ∙ mul-mod_right (2 ^ k) (v / 2 ^ k),
  omega (arith, floor-eq k v),
  omega (arith, floor-eq k v, mod-lt v (pow_pos k)),
)

align-floor : (v a : ℕ) → align v a ≡ floor (v + a - 1) a
unfolding align
align-floor v a = refl

-- A multiple of P less than a page above another is at most it.
mul_le_of_lt : (P q m : ℕ) → P * q < P * m + P → P * q ≤ P * m
mul_le_of_lt P q m h = elim (dec_lt m q) [
  | yes l ↦ absurd (omega (arith, mul-le-mul_left P l, h))
  | no n ↦ mul-le-mul_left P (omega arith)
]

-- For a page size that is a power of two, rounding up gives the least multiple of the page that
-- is not below the value: a multiple, at least the value, and at most every multiple that is.
pub align_least :
    (k v : ℕ)
    → (align v (2 ^ k) % 2 ^ k ≡ 0)
      × (v ≤ align v (2 ^ k))
      × (align v (2 ^ k) < v + 2 ^ k)
      × ((m : ℕ) → v ≤ 2 ^ k * m → align v (2 ^ k) ≤ 2 ^ k * m)
align_least k v = rw align-floor (
  (floor_bounds k (v + 2 ^ k - 1)).0,
  omega (arith, floor_bounds k (v + 2 ^ k - 1), pow_pos k),
  omega (arith, floor_bounds k (v + 2 ^ k - 1), pow_pos k),
  λ m h. rw floor-eq_mul (
      mul_le_of_lt (2 ^ k) ((v + 2 ^ k - 1) / 2 ^ k) m
        (omega (arith, floor-eq_mul k (v + 2 ^ k - 1), floor_bounds k (v + 2 ^ k - 1), pow_pos k))),
)
