-- ===== src/Common/Sort.antt =====
-- Python's `sorted`: a stable sort, here by insertion, with an order given as a test.
use mathlib.Core.Logic.{inl, inr}
use mathlib.Core.Bool.{Bool}
use mathlib.Core.List.{List, [], ◌∷◌, Perm}
use mathlib.Core.List.Perm
use il2cppapk2ios.Common.Tests.{if◌then◌else◌, Bool-cases}
use il2cppapk2ios.Common.Lists.{All}

module _ {ℓ} {A : Type ℓ} (le : A → A → Bool) where
  -- `x` goes before the first item that it is not above.
  unfoldable pub insert : A → List A → List A
  insert x [] = x ∷ []
  insert x (y ∷ ys) = if le x y then x ∷ (y ∷ ys) else y ∷ insert x ys

  unfoldable pub sorted : List A → List A
  unfolding insert
  sorted [] = []
  sorted (x ∷ xs) = insert x (sorted xs)

  pub insert-perm : (x : A) (xs : List A) → Perm (insert x xs) (x ∷ xs)
  unfolding insert
  insert-perm x [] = Perm.refl _
  insert-perm x (y ∷ ys) = elim (Bool-cases (le x y)) [
    | inl h ↦ rw h (Perm.refl _)
    | inr h ↦ rw h (Perm.trans (Perm.cons y (insert-perm x ys)) (Perm.swap x y ys))
  ]

  -- Sorting keeps the items, each as often as it was there.
  pub sorted-perm : (xs : List A) → Perm (sorted xs) xs
  unfolding sorted
  sorted-perm [] = Perm.refl _
  sorted-perm (x ∷ xs) = Perm.trans (insert-perm x (sorted xs)) (Perm.cons x (sorted-perm xs))

  module _ {κ} (P : A → Type κ) where
    pub insert-All : (x : A) (xs : List A) → P x → All P xs → All P (insert x xs)
    unfolding insert
    insert-All x [] h k = (h, k)
    insert-All x (y ∷ ys) h k = elim (Bool-cases (le x y)) [
      | inl e ↦ rw e (h, k)
      | inr e ↦ rw e (k.0, insert-All x ys h k.1)
    ]

    pub sorted-All : (xs : List A) → All P xs → All P (sorted xs)
    unfolding sorted
    sorted-All [] h = h
    sorted-All (x ∷ xs) h = insert-All x (sorted xs) h.0 (sorted-All xs h.1)
