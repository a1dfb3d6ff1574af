-- ===== src/Common/SortedSet.antt =====
-- Laws of `sorted(set(...))` and of the order of `str`: the same names, each once, ascending.
use Prim.Native.Nat.{ℕ}
use mathlib.Core.Path.{◌≡◌, refl, sym, ap, ◌∙◌}
use mathlib.Core.Logic.{◌≢◌, ◌↔◌, ◌⊎◌, inl, inr}
use mathlib.Core.Bool.{Bool, true, false, ◌||◌, false≢true, true≢false}
use mathlib.Core.List.{List, [], ◌∷◌, ◌++◌}
use native.Mathlib.Omega.{arith}
use il2cppapk2ios.Common.Lists.{All}
use il2cppapk2ios.Common.Sort.{insert, insert-All}
use il2cppapk2ios.Common.Tests.{Bool-cases, ||-either}
use il2cppapk2ios.Common.Text.{text_eq, text_eq_iff, text_le, any, is_in, select, sorted_set}

module _ {ℓ} {A : Type ℓ} (p : A → Bool) where
  pub any-append : (xs ys : List A) → any p (xs ++ ys) ≡ (any p xs || any p ys)
  unfolding any
  any-append [] ys = refl
  any-append (x ∷ xs) ys = rw (any-append xs ys) (or_assoc (p x) (any p xs) (any p ys))
    where
      or_assoc : (a b c : Bool) → (a || (b || c)) ≡ ((a || b) || c)
      or_assoc true b c = refl
      or_assoc false b c = refl

is_in-insert :
    (name x : List ℕ) (xs : List (List ℕ))
    → is_in name (insert text_le x xs) ≡ (text_eq name x || is_in name xs)
unfolding is_in any insert
is_in-insert name x [] = refl
is_in-insert name x (y ∷ ys) =
    let rest = is_in-insert name x ys in
    elim (Bool-cases (text_le x y)) [
      | inl e ↦ rw e refl
      | inr e ↦ rw (e, rest) (swap (text_eq name y) (text_eq name x) (is_in name ys))
    ]
  where
    swap : (a b c : Bool) → (a || (b || c)) ≡ (b || (a || c))
    swap true true c = refl
    swap true false c = refl
    swap false b c = refl

-- A name that equals one that is there is there.
is_in-equal :
    (name x : List ℕ) (xs : List (List ℕ))
    → is_in x xs ≡ true
    → is_in name xs ≡ (text_eq name x || is_in name xs)
is_in-equal name x xs h = elim (Bool-cases (text_eq name x)) [
  | inl e ↦ rw ((text_eq_iff name x).0 e, h) (yes_either (text_eq x x))
  | inr e ↦ rw e refl
]
  where
    yes_either : (a : Bool) → true ≡ (a || true)
    yes_either true = refl
    yes_either false = refl

-- `sorted(set(names))` has the names of the list and no other.
pub is_in-sorted_set :
    (name : List ℕ) (xs : List (List ℕ)) → is_in name (sorted_set xs) ≡ is_in name xs
unfolding sorted_set
is_in-sorted_set name [] = refl
is_in-sorted_set name (x ∷ xs) =
    let rest = is_in-sorted_set name xs in
    (elim (Bool-cases (is_in x (sorted_set xs))) [
      | inl e ↦ rw e (is_in-equal name x (sorted_set xs) e)
      | inr e ↦ rw e (is_in-insert name x (sorted_set xs))
    ])
    ∙ ap (λ b. text_eq name x || b) rest
    ∙ (unfold is_in any in refl)

pub text_le_total : (s t : List ℕ) → text_le s t ≡ false → text_le t s ≡ true
unfolding text_le
text_le_total [] t h = cc
text_le_total (x ∷ xs) [] h = refl
text_le_total (x ∷ xs) (y ∷ ys) h = ground (arith, text_le_total xs ys)

pub text_le_trans : (s t u : List ℕ) → text_le s t ≡ true → text_le t u ≡ true → text_le s u ≡ true
unfolding text_le
text_le_trans [] t u h k = refl
text_le_trans (x ∷ xs) [] u h k = cc
text_le_trans (x ∷ xs) (y ∷ ys) [] h k = cc
text_le_trans (x ∷ xs) (y ∷ ys) (z ∷ zs) h k = ground (arith, text_le_trans xs ys zs)

-- Each name is below all that follow it and differs from them.
abbrev pub Below : List ℕ → List ℕ → Type 0
Below s t = (text_le s t ≡ true) × (s ≢ t)

abbrev pub Ascending : List (List ℕ) → Type 0
Ascending [] = Unit
Ascending (x ∷ xs) = All (Below x) xs × Ascending xs

absent-cons :
    {x y : List ℕ} (ys : List (List ℕ)) → is_in x (y ∷ ys) ≡ false → (x ≢ y) × (is_in x ys ≡ false)
unfolding is_in any
absent-cons {x} {y} ys h = elim (Bool-cases (text_eq x y)) [
  | inl e ↦ absurd (true≢false (rw (e) at h))
  | inr e ↦ (λ same. true≢false (sym ((text_eq_iff x y).1 same) ∙ e), rw (e) at h)
]

Below-Below :
    (x y : List ℕ) (ys : List (List ℕ))
    → text_le x y ≡ true
    → is_in x ys ≡ false
    → All (Below y) ys
    → All (Below x) ys
Below-Below x y [] h k b = tt
Below-Below x y (z ∷ zs) h k b =
    let (differs, k') = absent-cons zs k in
    ((text_le_trans x y z h b.0.0, differs), Below-Below x y zs h k' b.1)

insert-Ascending :
    (x : List ℕ) (xs : List (List ℕ))
    → is_in x xs ≡ false
    → Ascending xs
    → Ascending (insert text_le x xs)
unfolding insert
insert-Ascending x [] h a = (tt, tt)
insert-Ascending x (y ∷ ys) h a =
    let (differs, h') = absent-cons ys h in
    let rest = insert-Ascending x ys h' a.1 in
    elim (Bool-cases (text_le x y)) [
      | inl e ↦ rw e (((e, differs), Below-Below x y ys e h' a.0), a)
      | inr e ↦ rw e (
        insert-All text_le (Below y) x ys (text_le_total x y e, λ same. differs (sym same)) a.0,
        rest,
      )
    ]

-- The result of `sorted(set(...))` ascends, with no name twice.
pub sorted_set-Ascending : (xs : List (List ℕ)) → Ascending (sorted_set xs)
unfolding sorted_set
sorted_set-Ascending [] = tt
sorted_set-Ascending (x ∷ xs) =
    let rest = sorted_set-Ascending xs in
    elim (Bool-cases (is_in x (sorted_set xs))) [
      | inl e ↦ rw e rest
      | inr e ↦ rw e (insert-Ascending x (sorted_set xs) e rest)
    ]

pub or_yes : (a : Bool) {b : Bool} → b ≡ true → (a || b) ≡ true
or_yes true h = refl
or_yes false h = h

-- What holds of all names that are in a list.
pub All-is_in :
    {P : List ℕ → Type 0} (xs : List (List ℕ))
    → ((name : List ℕ) → is_in name xs ≡ true → P name)
    → All P xs
unfolding is_in any
All-is_in [] h = tt
All-is_in (x ∷ xs) h = (
  h x (rw ((text_eq_iff x x).1 refl) refl),
  All-is_in xs λ name k. h name (or_yes (text_eq name x) k),
)

module _ (p : List ℕ → Bool) where
  -- The names of a selection are those of the list that pass the test.
  pub is_in-select :
      (name : List ℕ) (xs : List (List ℕ))
      → (is_in name (select p xs) ≡ true) ↔ ((is_in name xs ≡ true) × (p name ≡ true))
  unfolding is_in any select
  is_in-select name [] = (λ h. absurd (false≢true h), λ h. h.0)
  is_in-select name (x ∷ xs) =
      let (there, back) = is_in-select name xs in
      elim (Bool-cases (p x)) [
        | inl e ↦ rw e (
          λ h. elim (||-either (text_eq name x) (is_in name (select p xs)) h) [
            | inl same ↦ rw same (refl, ap p ((text_eq_iff name x).0 same) ∙ e)
            | inr k ↦ let (k', passes) = there k in (or_yes (text_eq name x) k', passes)
          ],
          λ (h, passes). elim (||-either (text_eq name x) (is_in name xs) h) [
            | inl same ↦ rw same refl
            | inr k ↦ or_yes (text_eq name x) (back (k, passes))
          ],
        )
        | inr e ↦ rw e (
          λ h. let (k, passes) = there h in (or_yes (text_eq name x) k, passes),
          λ (h, passes). elim (||-either (text_eq name x) (is_in name xs) h) [
            | inl same ↦ absurd (true≢false (sym passes ∙ ap p ((text_eq_iff name x).0 same) ∙ e))
            | inr k ↦ back (k, passes)
          ],
        )
      ]

pub text_eq-ne : (s t : List ℕ) → s ≢ t → text_eq s t ≡ false
text_eq-ne s t differs = elim (Bool-cases (text_eq s t)) [
  | inl e ↦ absurd (differs ((text_eq_iff s t).0 e))
  | inr e ↦ e
]

pub is_in-cons :
    (name x : List ℕ) (xs : List (List ℕ))
    → is_in name (x ∷ xs) ≡ true
    → (name ≡ x) ⊎ (is_in name xs ≡ true)
unfolding is_in any
is_in-cons name x xs h = elim (||-either (text_eq name x) (is_in name xs) h) [
  | inl e ↦ inl ((text_eq_iff name x).0 e)
  | inr k ↦ inr k
]

pub is_in-append :
    (name : List ℕ) (xs ys : List (List ℕ))
    → (is_in name (xs ++ ys) ≡ true) ↔ ((is_in name xs ≡ true) ⊎ (is_in name ys ≡ true))
unfolding is_in
is_in-append name xs ys = rw (any-append (text_eq name) xs ys) (
  ||-either (is_in name xs) (is_in name ys),
  λ h. elim h [ inl k ↦ rw k refl | inr k ↦ or_yes (is_in name xs) k ],
)

pub is_in_self : (name : List ℕ) (xs : List (List ℕ)) → is_in name (name ∷ xs) ≡ true
unfolding is_in any
is_in_self name xs = rw ((text_eq_iff name name).1 refl) refl

pub is_in_later :
    (name x : List ℕ) (xs : List (List ℕ)) → is_in name xs ≡ true → is_in name (x ∷ xs) ≡ true
unfolding is_in any
is_in_later name x xs h = or_yes (text_eq name x) h
