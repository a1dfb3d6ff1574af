-- ===== src/Struct/Laws.antt =====
-- Writing a field and reading it back, and what a write leaves alone.
use native.Mathlib.Nat.{pow-succ'}
use il2cppapk2ios.Common.{
  ℕ, zero, suc, ◌+◌, ◌-◌, ◌/◌, ◌^◌, ◌≤◌, ◌<◌, ◌≡◌, refl, sym, ap, ◌∙◌, arith, max, List, [], ◌∷◌,
  ◌++◌, take, drop, length, length-append, length-take, length-drop, ◌⊎◌, inl, inr,
}
use il2cppapk2ios.Common.Outcome.{ok}
use il2cppapk2ios.Struct.{Bytes, slice, splice, le_value, le_bytes, field, pack_into}

pub length-le_bytes : (w v : ℕ) → length (le_bytes w v) ≡ w
unfolding le_bytes
length-le_bytes zero v = refl
length-le_bytes (suc w) v = ap suc (length-le_bytes w (v / 256))

pub le_value-le_bytes : (w v : ℕ) → v < 256 ^ w → le_value (le_bytes w v) ≡ v
unfolding le_value le_bytes
le_value-le_bytes zero v h = omega arith
le_value-le_bytes (suc w) v h =
    omega (arith, le_value-le_bytes w (v / 256) (omega (arith, pow-succ' 256 w)))

pub length-splice :
    (image : Bytes) (a b : ℕ) (new : Bytes)
    → a ≤ b
    → b ≤ length image
    → length new ≡ b - a
    → length (splice image a b new) ≡ length image
unfolding splice
length-splice image a b new h k e = omega (
  arith,
  length-append (take a image) (new ++ drop (max a b) image),
  length-append new (drop (max a b) image),
  length-take a image,
  length-drop (max a b) image,
)

module _ {ℓ} {A : Type ℓ} where
  pub drop-append_length : (xs ys : List A) (n : ℕ) → length xs ≡ n → drop n (xs ++ ys) ≡ ys
  drop-append_length [] ys zero h = refl
  drop-append_length [] ys (suc n) h = absurd (omega arith)
  drop-append_length (x ∷ xs) ys zero h = absurd (omega arith)
  drop-append_length (x ∷ xs) ys (suc n) h = drop-append_length xs ys n (omega arith)

  pub take-append_length : (xs ys : List A) (n : ℕ) → length xs ≡ n → take n (xs ++ ys) ≡ xs
  take-append_length [] ys zero h = refl
  take-append_length [] ys (suc n) h = absurd (omega arith)
  take-append_length (x ∷ xs) ys zero h = absurd (omega arith)
  take-append_length (x ∷ xs) ys (suc n) h =
      ap (λ t. x ∷ t) (take-append_length xs ys n (omega arith))

  pub take-append_le : (xs ys : List A) (n : ℕ) → n ≤ length xs → take n (xs ++ ys) ≡ take n xs
  take-append_le xs ys zero h = refl
  take-append_le [] ys (suc n) h = absurd (omega arith)
  take-append_le (x ∷ xs) ys (suc n) h = ap (λ t. x ∷ t) (take-append_le xs ys n (omega arith))

  pub drop-append_le :
      (xs ys : List A) (n : ℕ) → n ≤ length xs → drop n (xs ++ ys) ≡ drop n xs ++ ys
  drop-append_le xs ys zero h = refl
  drop-append_le [] ys (suc n) h = absurd (omega arith)
  drop-append_le (x ∷ xs) ys (suc n) h = drop-append_le xs ys n (omega arith)

  pub drop-append_ge :
      (xs ys : List A) (n : ℕ) → length xs ≤ n → drop n (xs ++ ys) ≡ drop (n - length xs) ys
  drop-append_ge [] ys n h = ap (λ (t : ℕ). drop t ys) (omega arith)
  drop-append_ge (x ∷ xs) ys zero h = absurd (omega arith)
  drop-append_ge (x ∷ xs) ys (suc n) h =
      drop-append_ge xs ys n (omega arith) ∙ ap (λ (t : ℕ). drop t ys) (omega arith)

  drop-nil : (n : ℕ) → drop {A = A} n [] ≡ []
  drop-nil zero = refl
  drop-nil (suc n) = refl

  pub drop-drop : (a b : ℕ) (xs : List A) → drop a (drop b xs) ≡ drop (b + a) xs
  drop-drop a zero xs = ap (λ (t : ℕ). drop t xs) (omega arith)
  drop-drop zero (suc b) [] = sym (drop-nil (suc b + zero))
  drop-drop (suc a) (suc b) [] = sym (drop-nil (suc b + suc a))
  drop-drop a (suc b) (x ∷ xs) =
      let e : suc (b + a) ≡ suc b + a = omega arith in
      drop-drop a b xs ∙ ap (λ t. drop t (x ∷ xs)) e

  take-nil : (n : ℕ) → take {A = A} n [] ≡ []
  take-nil zero = refl
  take-nil (suc n) = refl

  pub drop-take : (a b : ℕ) (xs : List A) → drop a (take b xs) ≡ take (b - a) (drop a xs)
  drop-take zero b xs = ap (λ (t : ℕ). take t xs) (omega arith)
  drop-take (suc a) zero xs =
      let e : 0 ≡ 0 - suc a = omega arith in ap (λ t. take t (drop (suc a) xs)) e
  drop-take (suc a) (suc b) [] = sym (take-nil (suc b - suc a))
  drop-take (suc a) (suc b) (x ∷ xs) =
      let e : b - a ≡ suc b - suc a = omega arith in
      drop-take a b xs ∙ ap (λ t. take t (drop a xs)) e

  pub take-take : (a b : ℕ) (xs : List A) → a ≤ b → take a (take b xs) ≡ take a xs
  take-take zero b xs h = refl
  take-take (suc a) zero xs h = absurd (omega arith)
  take-take (suc a) (suc b) [] h = refl
  take-take (suc a) (suc b) (x ∷ xs) h = ap (λ t. x ∷ t) (take-take a b xs (omega arith))

-- A block of bytes that `splice` put into an image, with room for it.
module _ (image new : Bytes) (at : ℕ) (room : at + length new ≤ length image) where
  start_length : length (take at image) ≡ at
  start_length = omega (arith, length-take at image)

  pub length-splice_block : length (splice image at (at + length new) new) ≡ length image
  length-splice_block =
      length-splice image at (at + length new) new (omega arith) room (omega arith)

  -- It is read back whole.
  pub slice-splice_self : slice at (at + length new) (splice image at (at + length new) new) ≡ new
  unfolding slice splice
  slice-splice_self =
      rw (drop-append_length (take at image) _ at start_length)
        (take-append_length new _ (at + length new - at) (omega arith))

  -- What ends before the block is as it was.
  pub slice-splice_below :
      (start stop : ℕ)
      → start ≤ stop
      → stop ≤ at
      → slice start stop (splice image at (at + length new) new) ≡ slice start stop image
  unfolding slice splice
  slice-splice_below start stop h k =
      rw
        (drop-append_le (take at image) (new ++ drop (max at (at + length new)) image) start
          (omega (arith, start_length)))
        (take-append_le (drop start (take at image)) _ (stop - start)
            (omega (arith, length-drop start (take at image), start_length))
          ∙ ap (take (stop - start)) (drop-take start at image)
          ∙ take-take (stop - start) (at - start) (drop start image) (omega arith))

  -- What starts behind the block is as it was.
  pub slice-splice_above :
      (start stop : ℕ)
      → at + length new ≤ start
      → slice start stop (splice image at (at + length new) new) ≡ slice start stop image
  unfolding slice splice
  slice-splice_above start stop h = ap (take (stop - start)) (
      drop-append_ge (take at image) (new ++ drop (max at (at + length new)) image) start
        (omega (arith, start_length))
      ∙ drop-append_ge new (drop (max at (at + length new)) image) (start - length (take at image))
          (omega (arith, start_length))
      ∙ drop-drop (start - length (take at image) - length new) (max at (at + length new)) image
      ∙ ap (λ (t : ℕ). drop t image) (omega (arith, start_length)))

slice-splice_sized :
    (image new : Bytes) (at n : ℕ)
    → length new ≡ n
    → at + n ≤ length image
    → slice at (at + n) (splice image at (at + n) new) ≡ new
slice-splice_sized image new at n e h = rw (← e) (slice-splice_self image new at (omega arith))

-- `pack_into` with room for the field: the new image.
pub pack_into_room :
    (image : Bytes) (at v : ℕ)
    → at + 8 ≤ length image
    → pack_into image at v ≡ ok (splice image at (at + 8) (le_bytes 8 v))
unfolding pack_into
pack_into_room image at v h = ground arith

module _ (image image' : Bytes) (at v : ℕ) (h : pack_into image at v ≡ ok image') where
  -- A write that does not raise had room, and the image is a splice.
  pub pack_into_inv : (at + 8 ≤ length image) × (image' ≡ splice image at (at + 8) (le_bytes 8 v))
  unfolding pack_into
  pack_into_inv = ground arith

  eight : length (le_bytes 8 v) ≡ 8
  eight = length-le_bytes 8 v

  pub length-pack_into : length image' ≡ length image
  length-pack_into = rw (pack_into_inv.1) (
      length-splice image at (at + 8) (le_bytes 8 v) (omega arith) pack_into_inv.0
        (omega (arith, eight)))

  block : image' ≡ splice image at (at + length (le_bytes 8 v)) (le_bytes 8 v)
  block = rw eight pack_into_inv.1

  -- The field that was written reads as the value, if that fits.
  pub field-pack_into_self : v < 2 ^ 64 → field 8 image' at ≡ v
  unfolding field
  field-pack_into_self fits = rw pack_into_inv.1 (
      rw (slice-splice_sized image (le_bytes 8 v) at 8 eight pack_into_inv.0)
        (le_value-le_bytes 8 v fits))

  -- Bytes that the field does not cover are as they were.
  pub slice-pack_into_ne :
      (start stop : ℕ)
      → start ≤ stop
      → (stop ≤ at) ⊎ (at + 8 ≤ start)
      → slice start stop image' ≡ slice start stop image
  slice-pack_into_ne start stop o (inl below) = rw block (
      slice-splice_below image (le_bytes 8 v) at (omega (arith, eight, pack_into_inv)) start stop o
        below)
  slice-pack_into_ne start stop o (inr above) = rw block (
      slice-splice_above image (le_bytes 8 v) at (omega (arith, eight, pack_into_inv)) start stop
        (omega (arith, eight)))
