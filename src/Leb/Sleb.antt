-- ===== src/Leb/Sleb.antt =====
-- What the bytes of `_sleb128` mean: a reader of the format gets the integer back.
use mathlib.Core.WellFounded.{Acc}
use mathlib.Core.Option
use il2cppapk2ios.Common.{
  ℕ, ◌+◌, ◌-◌, ◌*◌, ◌<◌, ◌≡◌, arith, ltb, [], ◌∷◌, ◌++◌, All, Option, none, some, inl, inr,
  if◌then◌else◌, bit_and, bit_or, true, false, Bool-cases,
}
use il2cppapk2ios.Common.Bits.{bit_and_0x7f, set_top_bit, bit_six}
use il2cppapk2ios.Common.Int.{ℤ, pos, negsuc, low7, shr7}
use il2cppapk2ios.Struct.{Bytes}
use il2cppapk2ios.Leb.{sleb_done, sleb_loop, sleb128, Smaller, shr7_Smaller, Smaller_acc}

-- 128 * value + group
abbrev pub shift_in : ℤ → ℕ → ℤ
shift_in (pos n) g = pos (128 * n + g)
shift_in (negsuc n) g = negsuc (128 * n + (127 - g))

-- The last group holds the sign in its bit 6.
abbrev pub sign_extend : ℕ → ℤ
sign_extend g = if ltb g 64 then pos g else negsuc (127 - g)

abbrev pub add_group : ℕ → ℤ × Bytes → ℤ × Bytes
add_group byte (m, rest) = (shift_in m (byte - 128), rest)

-- The SLEB128 format: groups of seven bits, lowest first; the last one is sign extended.
pub read_sleb : Bytes → Option (ℤ × Bytes)
read_sleb [] = none
read_sleb (b ∷ bs) =
    if ltb b 128 then some (sign_extend b, bs) else Option.map (add_group b) (read_sleb bs)

pub low7-lt : (a : ℤ) → low7 a < 128
unfolding low7
low7-lt (pos n) = omega (arith, bit_and_0x7f n)
low7-lt (negsuc n) = omega (arith, bit_and_0x7f n)

shift_in-shr7 : (a : ℤ) → shift_in (shr7 a) (low7 a) ≡ a
unfolding low7 shr7
shift_in-shr7 (pos n) = ground (arith, bit_and_0x7f n)
shift_in-shr7 (negsuc n) = ground (arith, bit_and_0x7f n)

-- When the loop stops, the sign extension of the last group is the value.
sign_extend-low7 : (a : ℤ) → sleb_done a ≡ true → sign_extend (low7 a) ≡ a
unfolding sleb_done
sign_extend-low7 (pos n) h = ground (arith, bit_and_0x7f n, bit_six (bit_and n 0x7F))
sign_extend-low7 (negsuc n) h = ground (arith, bit_and_0x7f n, bit_six (127 - bit_and n 0x7F))

module _ {ℓ} (P : ℤ → Bytes → Type ℓ) where
  sleb_loop_induction :
      ((a : ℤ) → sleb_done a ≡ true → P a (low7 a ∷ []))
      → ((a : ℤ) (bs : Bytes)
          → sleb_done a ≡ false
          → P (shr7 a) bs
          → P a (bit_or (low7 a) 0x80 ∷ bs))
      → (a : ℤ) (w : Acc Smaller a) → P a (sleb_loop a w)
  unfolding sleb_loop
  sleb_loop_induction last more a (Acc.intro _ smaller) =
      elim (Bool-cases (sleb_done a))
        as (λ d. P a (elim d [
          | inl _ ↦ low7 a ∷ []
          | inr h ↦ bit_or (low7 a) 0x80 ∷ sleb_loop (shr7 a) (smaller _ (shr7_Smaller a h))
        ])) [
          | inl h ↦ last a h
          | inr h ↦
              more a _ h (sleb_loop_induction last more (shr7 a) (smaller _ (shr7_Smaller a h)))
        ]

read_sleb_last :
    (a : ℤ) (rest : Bytes) → sleb_done a ≡ true → read_sleb (low7 a ∷ rest) ≡ some (a, rest)
unfolding read_sleb
read_sleb_last a rest h = ground (arith, low7-lt a, sign_extend-low7 a h)

read_sleb_more :
    (a : ℤ) (bs rest : Bytes)
    → read_sleb bs ≡ some (shr7 a, rest)
    → read_sleb (bit_or (low7 a) 0x80 ∷ bs) ≡ some (a, rest)
unfolding read_sleb
read_sleb_more a bs rest h =
    rw (set_top_bit (low7 a) (low7-lt a), h) (ground (arith, low7-lt a, shift_in-shr7 a))

-- Reading what `_sleb128` wrote gives back the integer, of either sign, and whatever follows it.
pub read_sleb-sleb128 : (a : ℤ) (rest : Bytes) → read_sleb (sleb128 a ++ rest) ≡ some (a, rest)
unfolding sleb128
read_sleb-sleb128 a rest =
    sleb_loop_induction (λ b bs. read_sleb (bs ++ rest) ≡ some (b, rest))
      (λ b h. read_sleb_last b rest h) (λ b bs h k. read_sleb_more b (bs ++ rest) rest k) a
      (Smaller_acc a)

pub sleb128-IsByte : (a : ℤ) → All (λ b. b < 256) (sleb128 a)
unfolding sleb128
sleb128-IsByte a =
    sleb_loop_induction (λ b bs. All (λ x. x < 256) bs) (λ b h. omega (arith, low7-lt b))
      (λ b bs h k. (omega (arith, set_top_bit (low7 b) (low7-lt b), low7-lt b), k)) a
      (Smaller_acc a)
