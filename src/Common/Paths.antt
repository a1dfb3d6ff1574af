-- ===== src/Common/Paths.antt =====
-- `str.split` on one character, `str.endswith` and the last part of a path, with the laws that say
-- how a text falls into parts.
use Prim.Native.Nat.{ℕ}
use mathlib.Core.Path.{◌≡◌, refl, ap}
use mathlib.Core.Logic.{◌≢◌, ◌⊎◌, inl, inr}
use mathlib.Core.Bool.{Bool, true, false, false, ◌||◌}
use mathlib.Core.List.{List, [], ◌∷◌, ◌++◌}
use native.Mathlib.Omega.{arith}
use il2cppapk2ios.Common.Lists.{All}
use il2cppapk2ios.Common.Tests.{◌==◌, ==_iff, &&-both, ||-either, if◌then◌else◌, Bool-cases}
use il2cppapk2ios.Common.Text.{text_eq, text_eq_iff, starts_with}

unfoldable pub ends_with : List ℕ → List ℕ → Bool
unfolding text_eq
ends_with suffix [] = text_eq suffix []
ends_with suffix (c ∷ s) = text_eq suffix (c ∷ s) || ends_with suffix s

abbrev pub push_char : ℕ → List (List ℕ) → List (List ℕ)
push_char c [] = (c ∷ []) ∷ []
push_char c (part ∷ parts) = (c ∷ part) ∷ parts

unfoldable pub split : ℕ → List ℕ → List (List ℕ)
split sep [] = [] ∷ []
split sep (c ∷ s) = let rest = split sep s in if c == sep then [] ∷ rest else push_char c rest

unfoldable pub last_part : List (List ℕ) → List ℕ
last_part [] = []
last_part (part ∷ []) = part
last_part (part ∷ (next ∷ parts)) = last_part (next ∷ parts)

-- `Path(name).name` of a name that ends neither in a slash nor in a part that is a dot.
unfoldable pub base_name : List ℕ → List ℕ
unfolding last_part split
base_name name = last_part (split 47 name)

abbrev pub Without : ℕ → List ℕ → Type 0
Without sep s = All (λ c. c ≢ sep) s

-- To read off a literal that it has no separator.
unfoldable pub has_char : ℕ → List ℕ → Bool
has_char sep [] = false
has_char sep (c ∷ s) = (c == sep) || has_char sep s

pub without : (sep : ℕ) (s : List ℕ) → has_char sep s ≡ false → Without sep s
unfolding has_char
without sep [] h = tt
without sep (c ∷ s) h = ground (arith, without sep s)

module _ (sep : ℕ) where
  pub split-part :
      (part rest : List ℕ)
      → Without sep part
      → split sep (part ++ (sep ∷ rest)) ≡ part ∷ split sep rest
  unfolding split
  split-part [] rest h = ground arith
  split-part (c ∷ part) rest h = rw (split-part part rest h.1) (ground (arith, h.0))

  -- A text has no separator, or it is cut at the first.
  pub split-cases :
      (s : List ℕ)
      → (Without sep s × (split sep s ≡ s ∷ []))
        ⊎ ((part : List ℕ) × (rest : List ℕ) × Without sep part
            × (s ≡ part ++ (sep ∷ rest))
            × (split sep s ≡ part ∷ split sep rest))
  unfolding split
  split-cases [] = inl (tt, refl)
  split-cases (c ∷ s) = elim (Bool-cases (c == sep)) [
    | inl e ↦ inr ([], s, tt, ap (λ d. d ∷ s) ((==_iff c sep).0 e), rw e refl)
    | inr e ↦ elim (split-cases s) [
      | inl (w, h) ↦ inl ((λ same. ground arith, w), rw (e, h) refl)
      | inr (part, rest, w, h, k) ↦
          inr (c ∷ part, rest, (λ same. ground arith, w), ap (λ t. c ∷ t) h, rw (e, k) refl)
    ]
  ]

  -- There is at least one part.
  pub split-cons :
      (s : List ℕ) → (part : List ℕ) × (parts : List (List ℕ)) × (split sep s ≡ part ∷ parts)
  split-cons s = elim (split-cases s) [
    | inl (w, e) ↦ (s, [], e)
    | inr (part, rest, w, e, k) ↦ (part, split sep rest, k)
  ]

pub starts_with-append : (prefix rest : List ℕ) → starts_with prefix (prefix ++ rest) ≡ true
unfolding starts_with
starts_with-append [] rest = refl
starts_with-append (x ∷ xs) rest = ground (arith, starts_with-append xs rest)

-- What begins with a prefix is cut after it.
pub starts_with-cut :
    (prefix s : List ℕ) → starts_with prefix s ≡ true → (rest : List ℕ) × (s ≡ prefix ++ rest)
unfolding starts_with
starts_with-cut [] s h = (s, refl)
starts_with-cut (x ∷ xs) [] h = cc
starts_with-cut (x ∷ xs) (y ∷ ys) h =
    let (same, h') = &&-both (x == y) (starts_with xs ys) h in
    let (rest, e) = starts_with-cut xs ys h' in let same' = (==_iff x y).0 same in (rest, cc)

Without-cut : (sep : ℕ) (part rest : List ℕ) → ¬ Without sep (part ++ (sep ∷ rest))
Without-cut sep [] rest w = w.0 refl
Without-cut sep (c ∷ part) rest w = Without-cut sep part rest w.1

-- A character belongs to the last part, or the text goes on to a separator.
base_name-cases :
    (c : ℕ) (s : List ℕ)
    → (base_name (c ∷ s) ≡ c ∷ s) ⊎ ((base_name (c ∷ s) ≡ base_name s) × ¬ Without 47 (c ∷ s))
unfolding base_name split last_part
base_name-cases c s =
    let (part, parts, k) = split-cons 47 s in
    elim (Bool-cases (c == 47)) [
      | inl e ↦ inr (rw (e, k) refl, λ w. w.0 ((==_iff c 47).0 e))
      | inr e ↦ elim (split-cases 47 s) [
        | inl (w, h) ↦ inl (rw (e, h) refl)
        | inr (first, rest, w, h, h') ↦
            let (second, more, k') = split-cons 47 rest in
            inr (rw (e, h', k') refl, λ v. Without-cut 47 first rest (rw h at v.1))
      ]
    ]

-- A suffix without a slash is a suffix of the last part.
pub ends_with-base_name :
    (suffix name : List ℕ)
    → Without 47 suffix
    → ends_with suffix name ≡ true
    → ends_with suffix (base_name name) ≡ true
unfolding ends_with
ends_with-base_name suffix [] w h = unfold base_name split last_part in h
ends_with-base_name suffix (c ∷ s) w h =
    let later = ends_with-base_name suffix s w in
    elim (base_name-cases c s) [
      | inl whole ↦ rw whole h
      | inr (same, slash) ↦ elim (||-either (text_eq suffix (c ∷ s)) (ends_with suffix s) h) [
        | inl e ↦ absurd (slash (let same = (text_eq_iff suffix (c ∷ s)).0 e in rw same at w))
        | inr e ↦ rw same (later e)
      ]
    ]
