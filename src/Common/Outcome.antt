-- ===== src/Common/Outcome.antt =====
-- What a call returns or raises. One type of errors for the whole program, with a constructor for
-- each `raise` of the source and for the exceptions of `struct` and `max` that it does not catch.
use Prim.Native.Nat.{ℕ}
use mathlib.Core.Path.{◌≡◌, refl, sym}
use mathlib.Core.Bool.{Bool, true, false}

pub data Error : Type 0 where
  not_an_apk missing_entry : Error
  not_an_elf_file only_elf64 only_little_endian : Error
  struct_error overflow_error unicode_error : Error
  bad_zip_file encrypted_entry : Error
  supports_aarch64_only expects_et_dyn no_pt_load first_pt_load_not_rx_at_zero : Error
  target_not_file_backed : ℕ → Error
  unsupported_relocation : ℕ → ℕ → Error
  bad_symbol_index : ℕ → Error
  uleb128_negative : Error
  too_many_segments bad_dylib_ordinal : Error
  load_commands_too_large : Error
  trie_too_wide trie_not_converged : Error

pub data Outcome {ℓ} (A : Type ℓ) : Type ℓ where
  ok : A → Outcome A
  err : Error → Outcome A

-- `if bad: raise error`
abbrev pub raise_if : Bool → Error → Outcome (Unit {0})
raise_if true e = err e
raise_if false e = ok tt

infixl 5 ◌>>◌ ◌>>=◌
abbrev pub ◌>>◌ {ℓ} : {B : Type ℓ} → Outcome (Unit {0}) → Outcome B → Outcome B
ok done >> next = next
err e >> next = err e

abbrev pub ◌>>=◌ {ℓ κ} : {A : Type ℓ} {B : Type κ} → Outcome A → (A → Outcome B) → Outcome B
err e >>= next = err e
ok a >>= next = next a

pub ok-injective {ℓ} : {A : Type ℓ} {a b : A} → ok a ≡ ok b → a ≡ b
ok-injective same = cc

-- A bind that succeeded: what its first part returned, and that the rest succeeded on it.
pub >>=-eq-ok {ℓ κ} :
    {A : Type ℓ} {B : Type κ} (first : Outcome A) (next : A → Outcome B) {result : B}
    → (first >>= next) ≡ ok result
    → (value : A) × (first ≡ ok value) × (next value ≡ ok result)
>>=-eq-ok (err e) next h = cc
>>=-eq-ok (ok value) next h = (value, refl, h)

-- A bind of two parts that succeeded, with the result that the parts make.
pub >>=₂-eq-ok {ℓ} :
    {A B C : Type ℓ} (m : Outcome A) (n : Outcome B) (f : A → B → C) {c : C}
    → (m >>= λ a. n >>= λ b. ok (f a b)) ≡ ok c
    → (a : A) × (b : B) × (m ≡ ok a) × (n ≡ ok b) × (c ≡ f a b)
>>=₂-eq-ok (ok a) (ok b) f h = (a, b, refl, refl, sym (ok-injective h))
>>=₂-eq-ok (ok a) (err e) f h = cc
>>=₂-eq-ok (err e) n f h = cc

-- What follows a test that did not raise.
pub >>-eq-ok {ℓ} :
    {B : Type ℓ} (test : Outcome (Unit {0})) (next : Outcome B) {result : B}
    → (test >> next) ≡ ok result
    → next ≡ ok result
>>-eq-ok (ok done) next h = h
>>-eq-ok (err e) next h = cc
