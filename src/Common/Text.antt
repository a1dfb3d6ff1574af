-- ===== src/Common/Text.antt =====
-- Python's `str` as its code points: comparison, prefixes, decimal numbers, and UTF-8.
mod Utf8
unfoldable pub use il2cppapk2ios.Common.Digits.{decimal, hexadecimal}
unfoldable pub use Utf8.*
use Prim.Native.Char.{code}
use Prim.Native.String.{String}
use Prim.Native.Nat.{ℕ, zero, suc, ◌+◌, ◌/◌, ◌%◌, ◌<◌}
use mathlib.Core.Path.{◌≡◌, refl}
use mathlib.Core.Logic.{◌↔◌, dite}
use mathlib.Core.Bool.{Bool, true, false, ◌&&◌, ◌||◌}
use mathlib.Core.List.{List, [], ◌∷◌, ◌++◌}
use mathlib.Core.WellFounded.{Acc}
use native.Mathlib.Omega.{arith}
use native.Mathlib.Decide.{dec_lt}
use il2cppapk2ios.Common.Order.{lt_wf}
use il2cppapk2ios.Common.Sort.{insert}
use il2cppapk2ios.Common.Tests.{◌==◌, ltb, if◌then◌else◌}

-- A literal of the source.
abbrev pub codes : String → List ℕ
codes String.[] = []
codes (String.◌∷◌ c s) = code c ∷ codes s

unfoldable pub text_eq : List ℕ → List ℕ → Bool
text_eq [] [] = true
text_eq [] (y ∷ ys) = false
text_eq (x ∷ xs) [] = false
text_eq (x ∷ xs) (y ∷ ys) = (x == y) && text_eq xs ys

pub text_eq_iff : (s t : List ℕ) → (text_eq s t ≡ true) ↔ (s ≡ t)
unfolding text_eq
text_eq_iff [] [] = ground arith
text_eq_iff [] (y ∷ ys) = ground arith
text_eq_iff (x ∷ xs) [] = ground arith
text_eq_iff (x ∷ xs) (y ∷ ys) = ground (arith, text_eq_iff xs ys)

-- The order of `str`: by code points, a prefix before what it begins.
unfoldable pub text_le : List ℕ → List ℕ → Bool
text_le [] t = true
text_le (x ∷ xs) [] = false
text_le (x ∷ xs) (y ∷ ys) = ltb x y || ((x == y) && text_le xs ys)

unfoldable pub starts_with : List ℕ → List ℕ → Bool
starts_with [] t = true
starts_with (x ∷ xs) [] = false
starts_with (x ∷ xs) (y ∷ ys) = (x == y) && starts_with xs ys

-- `name in names`, `any(...)` and a list comprehension with a condition.
module _ {ℓ} {A : Type ℓ} where
  unfoldable pub any : (A → Bool) → List A → Bool
  any p [] = false
  any p (x ∷ xs) = p x || any p xs

  -- [x for x in xs if p(x)]
  unfoldable pub select : (A → Bool) → List A → List A
  select p [] = []
  select p (x ∷ xs) = let rest = select p xs in if p x then x ∷ rest else rest

unfoldable pub is_in : List ℕ → List (List ℕ) → Bool
unfolding any text_eq
is_in name = any (text_eq name)

-- `sorted(set(names))`: a name that is there already is not put in again.
unfoldable pub sorted_set : List (List ℕ) → List (List ℕ)
unfolding is_in insert text_le
sorted_set [] = []
sorted_set (x ∷ xs) =
    let rest = sorted_set xs in if is_in x rest then rest else insert text_le x rest
