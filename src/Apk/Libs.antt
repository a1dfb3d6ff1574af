-- ===== src/Apk/Libs.antt =====
-- What `abis` and `native_libs` of src/il2cppapk2ios/apk.py find in an archive.
use il2cppapk2ios.Apk.{
  ZipEntry, names, abi_part, abi_parts, abis, NativeLib, lib_prefix, is_lib, native_lib, lib_le,
  native_libs,
}
use il2cppapk2ios.Common.{
  ℕ, arith, ◌≡◌, ◌≢◌, refl, sym, ap, ◌∙◌, ◌↔◌, inl, inr, Bool, true, false, false≢true, true≢false,
  drop-length, ◌&&◌, ◌||◌, &&-both, ||-either, List, [], ◌∷◌, ◌++◌, map, All, append_assoc,
  Bool-cases,
}
use il2cppapk2ios.Common.Sort.{insert, sorted, sorted-All}
use il2cppapk2ios.Common.Text.{codes, text_eq, text_eq_iff, starts_with, any, is_in, select}
use il2cppapk2ios.Common.Paths.{
  ends_with, split, Without, split-part, split-cases, split-cons, starts_with-append,
  starts_with-cut,
}
use il2cppapk2ios.Common.SortedSet.{any-append, is_in-sorted_set}

-- Membership in a list of one name.
is_in-one : {a b : List ℕ} → is_in a (b ∷ []) ≡ true → a ≡ b
unfolding is_in any
is_in-one {a} {b} h = elim (||-either (text_eq a b) false h) [
  | inl e ↦ (text_eq_iff a b).0 e
  | inr e ↦ cc
]

lib_whole : Without 47 (codes "lib")
lib_whole = (λ e. omega arith, (λ e. omega arith, (λ e. omega arith, tt)))

below_lib :
    (abi rest : List ℕ) → lib_prefix abi ++ rest ≡ codes "lib" ++ (47 ∷ (abi ++ (47 ∷ rest)))
below_lib abi rest = ap (λ t. codes "lib/" ++ t) (append_assoc abi (codes "/") rest)

one_is_in : {a b : List ℕ} → a ≡ b → is_in a (b ∷ []) ≡ true
unfolding is_in any
one_is_in {a} {b} same = rw ((text_eq_iff a b).1 same) refl

module _ (abi : List ℕ) (so : Bool) where
  -- What `abis` asks of a name with three parts or more.
  parts_iff :
      (first second rest : List ℕ)
      → (is_in abi (abi_part so (first ∷ (second ∷ split 47 rest))) ≡ true)
        ↔ ((first ≡ codes "lib") × (so ≡ true) × (abi ≡ second))
  unfolding abi_part is_in any
  parts_iff first second rest =
      let (third, more, e) = split-cons 47 rest in
      (
        λ h. elim (Bool-cases (text_eq first (codes "lib") && so)) [
          | inl k ↦
              let (is_lib, is_so) = &&-both (text_eq first (codes "lib")) so k in
              ((text_eq_iff first (codes "lib")).0 is_lib, is_so, is_in-one (rw (e, k) at h))
          | inr k ↦ absurd (false≢true (rw (e, k) at h))
        ],
        λ (is_lib, is_so, same).
            rw (e, (text_eq_iff first (codes "lib")).1 is_lib, is_so) (one_is_in same),
      )

  abi_part-below :
      (name : List ℕ)
      → is_in abi (abi_part so (split 47 name)) ≡ true
      → Without 47 abi × ((starts_with (lib_prefix abi) name && so) ≡ true)
  unfolding abi_part is_in any
  abi_part-below name h = elim (split-cases 47 name) [
    | inl (w, e) ↦ absurd (false≢true (rw e at h))
    | inr (first, rest, w, e, k) ↦ elim (split-cases 47 rest) [
      | inl (w', e') ↦ absurd (false≢true (rw (k, e') at h))
      | inr (second, rest', w', e', k') ↦
          let (is_lib, is_so, same) = (parts_iff first second rest').0 (rw (k, k') at h) in
          (
            rw same w',
            rw
                (
                  e,
                  is_lib,
                  e',
                  same,
                  sym (below_lib second rest'),
                  starts_with-append (lib_prefix second) rest',
                )
                is_so,
          )
    ]
  ]

  abi_part-of_below :
      (name : List ℕ)
      → Without 47 abi
      → (starts_with (lib_prefix abi) name && so) ≡ true
      → is_in abi (abi_part so (split 47 name)) ≡ true
  abi_part-of_below name w h =
      let (begins, is_so) = &&-both (starts_with (lib_prefix abi) name) so h in
      let (rest, e) = starts_with-cut (lib_prefix abi) name begins in
      let cut = e ∙ below_lib abi rest in
      rw (cut, split-part 47 (codes "lib") (abi ++ (47 ∷ rest)) lib_whole, split-part 47 abi rest w)
        ((parts_iff (codes "lib") abi rest).1 (refl, is_so, refl))

or_right : (a : Bool) {b : Bool} → b ≡ true → (a || b) ≡ true
or_right true h = refl
or_right false h = h

-- Two parts that are each described under one condition.
or_iff :
    {W : Type 0} (a b c d : Bool)
    → (a ≡ true) ↔ (W × (c ≡ true))
    → (b ≡ true) ↔ (W × (d ≡ true))
    → ((a || b) ≡ true) ↔ (W × ((c || d) ≡ true))
or_iff a b c d p q = (
  λ h. elim (||-either a b h) [
    | inl x ↦ let (w, y) = p.0 x in (w, rw y refl)
    | inr x ↦ let (w, y) = q.0 x in (w, or_right c y)
  ],
  λ (w, h). elim (||-either c d h) [
    | inl x ↦ rw (p.1 (w, x)) refl
    | inr x ↦ or_right a (q.1 (w, x))
  ],
)

-- A name is among the parts that `abis` takes exactly if some entry is a library below it.
abi_parts_iff :
    (abi : List ℕ) (entries : List ZipEntry)
    → (is_in abi (abi_parts (names entries)) ≡ true)
      ↔ (Without 47 abi × (any (is_lib abi) entries ≡ true))
unfolding abi_parts names is_in any is_lib
abi_parts_iff abi [] = (λ h. absurd (false≢true h), λ h. h.1)
abi_parts_iff abi (entry ∷ entries) =
    let name = entry.filename in
    let so = ends_with (codes ".so") name in
    rw (any-append (text_eq abi) (abi_part so (split 47 name)) (abi_parts (names entries))) (
      or_iff _ _ (is_lib abi entry) (any (is_lib abi) entries)
        (abi_part-below abi so name, λ (w, h). abi_part-of_below abi so name w h)
        (abi_parts_iff abi entries))

insert-cons :
    (le : NativeLib → NativeLib → Bool) (lib : NativeLib) (libs : List NativeLib)
    → insert le lib libs ≢ []
unfolding insert
insert-cons le lib [] h = cc
insert-cons le lib (next ∷ libs) h = elim (Bool-cases (le lib next)) [
  | inl e ↦ let h' = rw e at h in cc
  | inr e ↦ let h' = rw e at h in cc
]

sorted-absent :
    (le : NativeLib → NativeLib → Bool) (libs : List NativeLib)
    → (sorted le libs ≡ []) ↔ (libs ≡ [])
unfolding sorted
sorted-absent le [] = (λ h. h, λ h. h)
sorted-absent le (lib ∷ libs) = (λ h. absurd (insert-cons le lib (sorted le libs) h), λ h. cc)

found_libs : List ℕ → List ZipEntry → List NativeLib
unfolding select
found_libs abi entries = map (native_lib abi) (select (is_lib abi) entries)

found_libs-absent :
    (abi : List ℕ) (entries : List ZipEntry)
    → (found_libs abi entries ≡ []) ↔ (any (is_lib abi) entries ≡ false)
unfolding found_libs select any
found_libs-absent abi [] = (λ _. refl, λ _. refl)
found_libs-absent abi (entry ∷ entries) = elim (Bool-cases (is_lib abi entry)) [
  | inl e ↦ rw e (λ h. cc, λ h. absurd (true≢false h))
  | inr e ↦ rw e (found_libs-absent abi entries)
]

-- A library is found exactly if `native_libs` reports something.
native_libs_iff :
    (abi : List ℕ) (entries : List ZipEntry)
    → (any (is_lib abi) entries ≡ true) ↔ (native_libs abi entries ≢ [])
unfolding native_libs found_libs
native_libs_iff abi entries = (
  λ h none_found.
      let none_there = (sorted-absent lib_le (found_libs abi entries)).0 none_found in
      true≢false (sym h ∙ (found_libs-absent abi entries).0 none_there),
  λ some_found. elim (Bool-cases (any (is_lib abi) entries)) [
    | inl e ↦ e
    | inr e ↦ absurd (
        some_found
          ((sorted-absent lib_le (found_libs abi entries)).1 ((found_libs-absent abi entries).1 e)))
  ],
)

-- `abis` lists exactly the names without a slash for which `native_libs` finds a library.
pub abis-native_libs :
    (abi : List ℕ) (entries : List ZipEntry)
    → (is_in abi (abis entries) ≡ true) ↔ (Without 47 abi × (native_libs abi entries ≢ []))
unfolding abis
abis-native_libs abi entries =
    let (there, back) = abi_parts_iff abi entries in
    let (reported, found) = native_libs_iff abi entries in
    rw (is_in-sorted_set abi (abi_parts (names entries)))
      (λ h. let (w, k) = there h in (w, reported k), λ (w, k). back (w, found k))

-- The libraries of an ABI, as the report of `native_libs` shows them.
abbrev pub IsLibOf : List ℕ → NativeLib → Type 0
IsLibOf abi lib =
    (lib.path ≡ lib_prefix abi ++ lib.name) × (ends_with (codes ".so") lib.path ≡ true)

found_libs-IsLibOf :
    (abi : List ℕ) (entries : List ZipEntry) → All (IsLibOf abi) (found_libs abi entries)
unfolding found_libs select is_lib
found_libs-IsLibOf abi [] = tt
found_libs-IsLibOf abi (entry ∷ entries) =
    let rest = found_libs-IsLibOf abi entries in
    elim (Bool-cases (is_lib abi entry)) [
      | inl e ↦
          let (begins, is_so) = &&-both (starts_with (lib_prefix abi) entry.filename) _ e in
          let (name, whole) = starts_with-cut (lib_prefix abi) entry.filename begins in
          rw e ((rw (whole, drop-length (lib_prefix abi) name) refl, is_so), rest)
      | inr e ↦ rw e rest
    ]

-- Every library that `native_libs` reports has the path that its name has below `lib/<abi>/`.
pub native_libs-IsLibOf :
    (abi : List ℕ) (entries : List ZipEntry) → All (IsLibOf abi) (native_libs abi entries)
unfolding native_libs found_libs
native_libs-IsLibOf abi entries =
    sorted-All lib_le (IsLibOf abi) (found_libs abi entries) (found_libs-IsLibOf abi entries)
