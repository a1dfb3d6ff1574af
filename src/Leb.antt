-- ===== src/Leb.antt =====
-- `_uleb128` and `_sleb128` of src/il2cppapk2ios/phase3.py.
-- The loops recur on the accessibility of the value.
pub mod Uleb
pub mod Sleb
pub mod Tests
use mathlib.Core.Logic.{dite}
use mathlib.Core.WellFounded.{Acc}
use il2cppapk2ios.Common.{
  ℕ, zero, suc, ◌+◌, ◌/◌, ◌<◌, ◌==◌, ltb, List, [], ◌∷◌, Bool, true, false, ◌&&◌, ◌||◌, not,
  if◌then◌else◌, arith, bit_and, bit_or, dec_lt, ◌≡◌, refl, Bool-cases, inl, inr,
}
use il2cppapk2ios.Common.Int.{ℤ, pos, negsuc, low7, shr7, is_zero, is_minus_one}
use il2cppapk2ios.Common.Order.{lt_wf}
use il2cppapk2ios.Struct.{Bytes}
use il2cppapk2ios.Common.Outcome.{Outcome, ok, err, uleb128_negative}

pub shrinks : (v : ℕ) → 0 < v / 128 → v / 128 < v
shrinks v h = omega arith

-- The `while True` loop on a value that is not negative.
pub uleb_loop : (value : ℕ) → Acc ◌<◌ value → Bytes
uleb_loop value (Acc.intro _ smaller) =
    let byte = bit_and value 0x7F in
    dite (dec_lt 0 (value / 128))
      (λ more. bit_or byte 0x80 ∷ uleb_loop (value / 128) (smaller _ (shrinks value more)))
      (λ _. byte ∷ [])

unfoldable pub uleb : ℕ → Bytes
unfolding uleb_loop lt_wf dec_lt
uleb value = uleb_loop value (lt_wf.apply value)

unfoldable pub uleb128 : ℤ → Outcome Bytes
unfolding uleb
uleb128 (pos value) = ok (uleb value)
uleb128 (negsuc value) = err uleb128_negative

-- The distance from the value to the end of the loop: the number under the sign.
abbrev pub magnitude : ℤ → ℕ
magnitude (pos n) = n
magnitude (negsuc n) = n

-- `byte & 0x40` as a test
abbrev pub sign_bit : ℕ → Bool
sign_bit byte = not (bit_and byte 0x40 == 0)

unfoldable pub sleb_done : ℤ → Bool
unfolding low7 shr7
sleb_done value =
    (is_zero (shr7 value) && not (sign_bit (low7 value)))
    || (is_minus_one (shr7 value) && sign_bit (low7 value))

abbrev pub Smaller : ℤ → ℤ → Type 0
Smaller a b = magnitude a < magnitude b

Smaller-below : (k : ℕ) (a : ℤ) → magnitude a < k → Acc Smaller a
Smaller-below zero a h = absurd (omega arith)
Smaller-below (suc k) a h = Acc.intro a (λ b hb. Smaller-below k b (omega arith))

unfoldable pub Smaller_acc : (a : ℤ) → Acc Smaller a
unfolding Smaller-below
Smaller_acc a = Smaller-below (suc (magnitude a)) a (omega arith)

-- While the loop goes on, the number under the sign shrinks.
pub shr7_Smaller : (a : ℤ) → sleb_done a ≡ false → Smaller (shr7 a) a
unfolding sleb_done
shr7_Smaller (pos zero) h = cc
shr7_Smaller (pos (suc n)) h = omega arith
shr7_Smaller (negsuc zero) h = cc
shr7_Smaller (negsuc (suc n)) h = omega arith

pub sleb_loop : (value : ℤ) → Acc Smaller value → Bytes
sleb_loop value (Acc.intro _ smaller) = elim (Bool-cases (sleb_done value)) [
  | inl last ↦ low7 value ∷ []
  | inr more ↦
      bit_or (low7 value) 0x80 ∷ sleb_loop (shr7 value) (smaller _ (shr7_Smaller value more))
]

unfoldable pub sleb128 : ℤ → Bytes
unfolding sleb_loop Smaller_acc sleb_done Bool-cases
sleb128 value = sleb_loop value (Smaller_acc value)

pub uleb128-pos : (v : ℕ) → uleb128 (pos v) ≡ ok (uleb v)
unfolding uleb128
uleb128-pos v = refl
