-- ===== src/Leb/Uleb.antt =====
-- What the bytes of `_uleb128` mean: a reader of the format gets the number back.
use mathlib.Core.WellFounded.{Acc}
use mathlib.Core.Option
use mathlib.Core.Path.{subst}
use mathlib.Core.Logic.{dite}
use native.Mathlib.Nat.{pow-succ'}
use il2cppapk2ios.Common.{
  ℕ, suc, ◌+◌, ◌-◌, ◌*◌, ◌/◌, ◌%◌, ◌^◌, ◌≤◌, ◌<◌, ◌≡◌, sym, arith, ltb, [], ◌∷◌, ◌++◌, length, All,
  Option, none, some, ◌⊎◌, inl, inr, ap, dec_lt, if◌then◌else◌, bit_and, bit_or,
}
use il2cppapk2ios.Common.Bits.{bit_and_0x7f, set_top_bit}
use il2cppapk2ios.Common.Order.{lt_wf}
use il2cppapk2ios.Struct.{Bytes}
use il2cppapk2ios.Leb.{uleb_loop, uleb, shrinks}

-- One more group of seven bits below the rest of the number.
abbrev pub add_group : ℕ → ℕ × Bytes → ℕ × Bytes
add_group byte (m, rest) = (byte - 128 + 128 * m, rest)

-- The ULEB128 format: groups of seven bits, lowest first; the top bit says that more follow.
unfoldable pub read_uleb : Bytes → Option (ℕ × Bytes)
read_uleb [] = none
read_uleb (b ∷ bs) = if ltb b 128 then some (b, bs) else Option.map (add_group b) (read_uleb bs)

-- The two ways in which a round of the loop ends, as an induction rule.
module _ {ℓ} (P : ℕ → Bytes → Type ℓ) where
  uleb_loop_induction :
      ((v : ℕ) → v < 128 → P v (bit_and v 0x7F ∷ []))
      → ((v : ℕ) (bs : Bytes) → 128 ≤ v → P (v / 128) bs → P v (bit_or (bit_and v 0x7F) 0x80 ∷ bs))
      → (v : ℕ) (w : Acc ◌<◌ v) → P v (uleb_loop v w)
  unfolding uleb_loop
  uleb_loop_induction last more v (Acc.intro _ smaller) =
      elim (dec_lt 0 (v / 128))
        as (λ d. P v (
          dite d (λ h. bit_or (bit_and v 0x7F) 0x80 ∷ uleb_loop (v / 128) (smaller _ (shrinks v h)))
            (λ _. bit_and v 0x7F ∷ []))) [
              | yes h ↦
                  more v _ (omega arith)
                    (uleb_loop_induction last more (v / 128) (smaller _ (shrinks v h)))
              | no h ↦ last v (omega arith)
            ]

pub uleb_induction {ℓ} :
    (P : ℕ → Bytes → Type ℓ)
    → ((v : ℕ) → v < 128 → P v (v ∷ []))
    → ((v : ℕ) (bs : Bytes) → 128 ≤ v → P (v / 128) bs → P v ((v % 128 + 128) ∷ bs))
    → (v : ℕ) → P v (uleb v)
unfolding uleb
uleb_induction P last more v =
    uleb_loop_induction P
      (λ n h. rw bit_and_0x7f (subst (λ b. P n (b ∷ [])) (omega arith) (last n h)))
      (λ n bs h k.
        rw bit_and_0x7f
          (subst (λ b. P n (b ∷ bs)) (sym (set_top_bit (n % 128) (omega arith))) (more n bs h k)))
      v (lt_wf.apply v)

-- Reading what `_uleb128` wrote gives back the number and whatever follows it.
pub read_uleb-uleb : (v : ℕ) (rest : Bytes) → read_uleb (uleb v ++ rest) ≡ some (v, rest)
unfolding read_uleb
read_uleb-uleb v rest =
    uleb_induction (λ n bs. read_uleb (bs ++ rest) ≡ some (n, rest)) (λ n h. ground arith)
      (λ n bs h k. ground arith) v

abbrev pub IsByte : ℕ → Type 0
IsByte b = b < 256

-- The bytes of a number: each is below 256, their count is the least that has room for it.
abbrev pub IsShortest : ℕ → Bytes → Type 0
IsShortest v bs =
    All IsByte bs
    × (1 ≤ length bs)
    × (v < 128 ^ length bs)
    × ((length bs ≡ 1) ⊎ (128 ^ length bs ≤ 128 * v))

-- 128 ^ length is at most 128 times the number, with one more group below.
pow_more :
    (n : ℕ) (bs : Bytes)
    → 128 ≤ n
    → (length bs ≡ 1) ⊎ (128 ^ length bs ≤ 128 * (n / 128))
    → 128 ^ suc (length bs) ≤ 128 * n
pow_more n bs h (inl e) = omega (arith, ap (λ (t : ℕ). 128 ^ suc t) e)
pow_more n bs h (inr l) = omega (arith, pow-succ' 128 (length bs))

-- The encoding consists of bytes, has at least one, and is the shortest with room for the number.
pub uleb-IsShortest : (v : ℕ) → IsShortest v (uleb v)
uleb-IsShortest =
    uleb_induction IsShortest (λ n h. omega arith)
      (λ n bs h k. (
        (omega arith, k.0),
        omega arith,
        omega (arith, pow-succ' 128 (length bs)),
        inr (pow_more n bs h k.3),
      ))
