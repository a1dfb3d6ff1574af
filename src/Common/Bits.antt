-- ===== src/Common/Bits.antt =====
-- Masks as arithmetic: a mask of k ones is the remainder by 2 ^ k, by induction on the digits of the
-- number that is masked; the operations on one byte are tables.
use Prim.Native.Nat.{
  ℕ, zero, suc, ◌+◌, ◌-◌, ◌*◌, ◌/◌, ◌%◌, ◌^◌, ◌≤◌, ◌<◌, min, bit_and, bit_or, digits,
  bit_and-bitwise,
}
use mathlib.Core.Path.{◌≡◌, refl, ◌∙◌}
use mathlib.Core.Bool.{Bool, true, false}
use native.Mathlib.Omega.{arith}
use native.Mathlib.Nat.{pow-suc, one-le-pow, div-add-mod}
use il2cppapk2ios.Common.Tests.{◌==◌, ltb, if◌then◌else◌}

-- The remainder by `m * 2` from the lowest digit.
mod_double : (a m : ℕ) → 0 < m → a % (m * 2) ≡ a / 2 % m * 2 + a % 2
mod_double a m h = grind (arith, div-add-mod (a / 2) m, div-add-mod a (m * 2), div-add-mod a 2)

pow_double : (k : ℕ) → (2 ^ suc k ≡ 2 ^ k * 2) × (0 < 2 ^ k)
pow_double k = (omega (arith, pow-suc 2 k), omega (arith, one-le-pow k 2 (omega arith)))

-- `digits` with `min` is the definition of `bit_and`; `fuel` bounds the number of digits.
ones_digits : (k fuel a : ℕ) → a ≤ fuel → digits (λ b. zero) min fuel a (2 ^ k - 1) ≡ a % 2 ^ k
ones_digits k zero a h = let e : a ≡ 0 = omega arith in rw e (omega (arith, pow_double k))
ones_digits k (suc fuel) zero h = omega (arith, pow_double k)
ones_digits zero (suc fuel) (suc a) h =
    let rest = ones_digits zero fuel (suc a / 2) (omega arith) in omega (arith, rest)
ones_digits (suc k) (suc fuel) (suc a) h =
    let (double, positive) = pow_double k in
    let half : (2 ^ suc k - 1) / 2 ≡ 2 ^ k - 1 = omega arith in
    let low : (2 ^ suc k - 1) % 2 ≡ 1 = omega arith in
    let rest = ones_digits k fuel (suc a / 2) (omega arith) in
    let split = mod_double (suc a) (2 ^ k) positive in
    rw (half, low, rest, double, split) (omega arith)

-- A mask of k ones is the remainder by 2 ^ k.
pub bit_and_mask : (k a : ℕ) → bit_and a (2 ^ k - 1) ≡ a % 2 ^ k
bit_and_mask k a = bit_and-bitwise a (2 ^ k - 1) ∙ ones_digits k a a (omega arith)

pub bit_and_0x7f : (a : ℕ) → bit_and a 0x7F ≡ a % 128
bit_and_0x7f a = bit_and_mask 7 a

-- A test of every number below a bound, which evaluation decides.
unfoldable pub holds_below : (ℕ → Bool) → ℕ → Bool
holds_below test zero = true
holds_below test (suc bound) = if test bound then holds_below test bound else false

pub holds_below-elim :
    (test : ℕ → Bool) (value bound : ℕ)
    → value < bound
    → holds_below test bound ≡ true
    → test value ≡ true
unfolding holds_below
holds_below-elim test value zero below all = absurd (omega arith)
holds_below-elim test value (suc bound) below all =
    ground (arith, holds_below-elim test value bound)

-- The continuation bit on a group of seven bits, and bit 6 of the group.
abbrev group_test : ℕ → Bool
group_test x =
    if bit_or x 0x80 == x + 128
    then (if ltb x 64 then bit_and x 0x40 == 0 else bit_and x 0x40 == 64)
    else false

group_table : holds_below group_test 128 ≡ true
unfolding holds_below
group_table = refl

pub set_top_bit : (x : ℕ) → x < 128 → bit_or x 0x80 ≡ x + 128
set_top_bit x h = let t = holds_below-elim group_test x 128 h group_table in ground arith

pub bit_six : (x : ℕ) → x < 128 → bit_and x 0x40 ≡ (if ltb x 64 then 0 else 64)
bit_six x h = let t = holds_below-elim group_test x 128 h group_table in ground arith
