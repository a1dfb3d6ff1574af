-- ===== src/Common/Digits.antt =====
-- Numbers written in a base, as `str` and the format `x` write them, and how they are read.
use mathlib.Core.Path.{◌≡◌, ap, ◌∙◌}
use mathlib.Core.Logic.{dite}
use mathlib.Core.Bool.{◌&&◌}
use mathlib.Core.List.{List, [], ◌∷◌, ◌++◌, append_assoc}
use mathlib.Core.Option.{Option, none, some}
use mathlib.Core.WellFounded.{Acc}
use native.Mathlib.Omega.{arith}
use native.Mathlib.Decide.{dec_lt}
use Prim.Native.Nat.{ℕ, ◌+◌, ◌-◌, ◌*◌, ◌/◌, ◌%◌, ◌<◌, ◌≤◌}
use il2cppapk2ios.Common.Order.{lt_wf}
use il2cppapk2ios.Common.Tests.{ltb, leb, if◌then◌else◌}

-- 0 to 9, then a to z
abbrev pub digit_char : ℕ → ℕ
digit_char d = if ltb d 10 then 48 + d else 87 + d

-- The digit that a character stands for in a base.
unfoldable pub digit_value : ℕ → ℕ → Option ℕ
digit_value base c =
    if leb 48 c && (leb c 57 && ltb c (48 + base))
    then some (c - 48)
    else if leb 97 c && ltb c (87 + base)
    then some (c - 87)
    else none

-- The number at the start of a text, after the digits read so far, and what follows it.
unfoldable pub read_number : ℕ → ℕ → List ℕ → ℕ × List ℕ
unfolding digit_value
read_number base value [] = (value, [])
read_number base value (c ∷ s) = elim (digit_value base c) [
  | some d ↦ read_number base (value * base + d) s
  | none ↦ (value, c ∷ s)
]

module _ (base : ℕ) (shrinks : (n : ℕ) → base ≤ n → n / base < n) where
  above : (n : ℕ) → ¬ (n < base) → n / base < n
  above n h = shrinks n (omega arith)

  digits_loop : (n : ℕ) → Acc ◌<◌ n → List ℕ
  digits_loop n (Acc.intro _ smaller) =
      dite (dec_lt n base) (λ _. digit_char n ∷ [])
        (λ more. digits_loop (n / base) (smaller _ (above n more)) ++ (digit_char (n % base) ∷ []))

  unfoldable pub digits : ℕ → List ℕ
  unfolding digits_loop lt_wf dec_lt above
  digits n = digits_loop n (lt_wf.apply n)

  module _ {ℓ} (P : ℕ → List ℕ → Type ℓ) (last : (n : ℕ) → n < base → P n (digit_char n ∷ []))
      (more : (n : ℕ) (s : List ℕ)
        → base ≤ n
        → P (n / base) s
        → P n (s ++ (digit_char (n % base) ∷ []))) where
    digits_loop_induction : (n : ℕ) (w : Acc ◌<◌ n) → P n (digits_loop n w)
    unfolding digits_loop
    digits_loop_induction n (Acc.intro _ smaller) =
        elim (dec_lt n base)
          as (λ d. P n (
            dite d (λ _. digit_char n ∷ [])
              (λ h.
                digits_loop (n / base) (smaller _ (above n h)) ++ (digit_char (n % base) ∷ [])))) [
                  | yes h ↦ last n h
                  | no h ↦
                      more n _ (omega arith)
                        (digits_loop_induction (n / base) (smaller _ (above n h)))
                ]

    pub digits_induction : (n : ℕ) → P n (digits n)
    unfolding digits
    digits_induction n = digits_loop_induction n (lt_wf.apply n)

pub tenth_shrinks : (n : ℕ) → 10 ≤ n → n / 10 < n
tenth_shrinks n h = omega arith

pub sixteenth_shrinks : (n : ℕ) → 16 ≤ n → n / 16 < n
sixteenth_shrinks n h = omega arith

-- str(n) of a number that is not negative
unfoldable pub decimal : ℕ → List ℕ
unfolding digits tenth_shrinks
decimal n = digits 10 tenth_shrinks n

-- f"{n:x}"
unfoldable pub hexadecimal : ℕ → List ℕ
unfolding digits sixteenth_shrinks
hexadecimal n = digits 16 sixteenth_shrinks n

read_digit10 :
    (d v : ℕ) (s : List ℕ)
    → d < 10
    → read_number 10 v (digit_char d ∷ s) ≡ read_number 10 (v * 10 + d) s
unfolding read_number digit_value
read_digit10 d v s h = ground arith

read_digit16 :
    (d v : ℕ) (s : List ℕ)
    → d < 16
    → read_number 16 v (digit_char d ∷ s) ≡ read_number 16 (v * 16 + d) s
unfolding read_number digit_value
read_digit16 d v s h = ground arith

-- How the digits of a base are read, from how one digit is read and how division goes on.
module _ (base : ℕ) (shrinks : (n : ℕ) → base ≤ n → n / base < n)
    (one : (d v : ℕ) (s : List ℕ)
      → d < base
      → read_number base v (digit_char d ∷ s) ≡ read_number base (v * base + d) s)
    (division : (n : ℕ) → (n / base * base + n % base ≡ n) × (n % base < base)) where
  read_number-digits :
      (n : ℕ) (rest : List ℕ)
      → read_number base 0 (digits base shrinks n ++ rest) ≡ read_number base n rest
  read_number-digits =
      digits_induction base shrinks
        (λ n s. (rest : List ℕ) → read_number base 0 (s ++ rest) ≡ read_number base n rest)
        (λ n h rest. one n 0 rest h ∙ ap (λ v. read_number base v rest) (omega arith))
        (λ n s h read rest.
          let (whole, small) = division n in
          let d = digit_char (n % base) in
          ap (read_number base 0) (append_assoc s (d ∷ []) rest)
          ∙ read (d ∷ rest)
          ∙ one (n % base) (n / base) rest small
          ∙ ap (λ v. read_number base v rest) whole)

-- A number is read from its digits, and the reading goes on with what follows them.
pub read_number-decimal :
    (n : ℕ) (rest : List ℕ) → read_number 10 0 (decimal n ++ rest) ≡ read_number 10 n rest
unfolding decimal
read_number-decimal =
    read_number-digits 10 tenth_shrinks read_digit10 λ n. (omega arith, omega arith)

pub read_number-hexadecimal :
    (n : ℕ) (rest : List ℕ) → read_number 16 0 (hexadecimal n ++ rest) ≡ read_number 16 n rest
unfolding hexadecimal
read_number-hexadecimal =
    read_number-digits 16 sixteenth_shrinks read_digit16 λ n. (omega arith, omega arith)
