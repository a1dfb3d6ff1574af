-- ===== src/Apk/Extract/Loop.antt =====
-- The loop of `extract_arm64` of src/il2cppapk2ios/apk.py over names that are in the archive.
use il2cppapk2ios.Apk.{ZipEntry, names, read_last, read, Files, write_file, extract_loop}
use il2cppapk2ios.Common.{
  ℕ, ◌≡◌, refl, sym, ◌∙◌, inl, inr, true, false, false≢true, true≢false, List, [], ◌∷◌, map, Option,
  none, some, All, if◌then◌else◌, Bool-cases, Option-cases,
}
use il2cppapk2ios.Common.Outcome.{ok, Outcome, err}
use il2cppapk2ios.Common.Text.{text_eq, text_eq_iff, any, is_in}
use il2cppapk2ios.Common.Paths.{base_name}
use il2cppapk2ios.Common.SortedSet.{or_yes}

unfoldable pub lookup : List ℕ → Files → Option (List ℕ)
lookup name [] = none
lookup name (file ∷ files) = if text_eq name file.0 then some file.1 else lookup name files

-- The last of the names that is written to a file.
unfoldable pub last_with : List ℕ → List (List ℕ) → Option (List ℕ)
last_with base [] = none
last_with base (name ∷ rest) = elim (last_with base rest) [
  | some later ↦ some later
  | none ↦ if text_eq base (base_name name) then some name else none
]

-- The content, where there is one.
abbrev pub content_of : Option (Outcome (List ℕ)) → Option (List ℕ)
content_of none = none
content_of (some (err e)) = none
content_of (some (ok content)) = some content

-- What a file holds after the names have been written, given what it held before.
abbrev pub holds_after : List ZipEntry → Option (List ℕ) → Option (List ℕ) → Option (List ℕ)
holds_after entries none before = before
holds_after entries (some name) before = content_of (read_last entries name)

other_target :
    (base target other : List ℕ)
    → text_eq target other ≡ false
    → text_eq base other ≡ true
    → text_eq base target ≡ false
other_target base target other differs same = elim (Bool-cases (text_eq base target)) [
  | inl e ↦
      let here = (text_eq_iff base target).0 e in
      let there = (text_eq_iff base other).0 same in
      absurd (true≢false (sym ((text_eq_iff target other).1 (sym here ∙ there)) ∙ differs))
  | inr e ↦ e
]

lookup-write_file :
    (base target content : List ℕ) (files : Files)
    → lookup base (write_file target content files)
      ≡ (if text_eq base target then some content else lookup base files)
unfolding lookup write_file
lookup-write_file base target content [] = refl
lookup-write_file base target content (file ∷ files) = elim (Bool-cases (text_eq target file.0)) [
  | inl e ↦
      let same = (text_eq_iff target file.0).0 e in
      elim (Bool-cases (text_eq base target)) [
        | inl k ↦ rw (e, k) refl
        | inr k ↦ rw (e, sym same, k) refl
      ]
  | inr e ↦ elim (Bool-cases (text_eq base file.0)) [
    | inl k ↦ rw (e, k, other_target base target file.0 e k) refl
    | inr k ↦ rw (e, k, lookup-write_file base target content files) refl
  ]
]

-- An entry with a listed name is found.
pub read-total :
    (entries : List ZipEntry) (name : List ℕ)
    → is_in name (names entries) ≡ true
    → (content : Outcome (List ℕ)) × (read_last entries name ≡ some content)
unfolding read_last names is_in any
read-total [] name h = absurd (false≢true h)
read-total (entry ∷ entries) name h = elim (Option-cases (read_last entries name)) [
  | inr (content, e) ↦ (content, rw e refl)
  | inl e ↦ elim (Bool-cases (text_eq name entry.filename)) [
    | inl k ↦ (entry.content, rw (e, k) refl)
    | inr k ↦ let (content, e') = read-total entries name (rw k at h) in cc
  ]
]

-- What is found is listed.
pub listed :
    (entries : List ZipEntry) (name : List ℕ) {content : Outcome (List ℕ)}
    → read_last entries name ≡ some content
    → is_in name (names entries) ≡ true
unfolding read_last names is_in any
listed [] name h = cc
listed (entry ∷ entries) name h = elim (Option-cases (read_last entries name)) [
  | inr (content, e) ↦ or_yes (text_eq name entry.filename) (listed entries name e)
  | inl e ↦ elim (Bool-cases (text_eq name entry.filename)) [
    | inl k ↦ rw k refl
    | inr k ↦ let h' = rw (e, k) at h in cc
  ]
]

-- The archive has an entry of the name, and reading it raises nothing.
abbrev pub IsReadable : List ZipEntry → List ℕ → Type 0
IsReadable entries name = (content : List ℕ) × (read_last entries name ≡ some (ok content))

-- A run of the loop over names that can be read: it raises nothing, returns the targets in
-- order, and leaves in each file what the last name written to it reads.
abbrev pub Extracted : List ZipEntry → List (List ℕ) → Files → Type 0
Extracted entries ns files =
    (after : Files) × (extract_loop entries ns files ≡ ok (map base_name ns, after))
    × ((base : List ℕ)
        → lookup base after ≡ holds_after entries (last_with base ns) (lookup base files))

pub extract_loop-Extracted :
    (entries : List ZipEntry) (ns : List (List ℕ)) (files : Files)
    → All (IsReadable entries) ns
    → Extracted entries ns files
unfolding extract_loop last_with read
extract_loop-Extracted entries [] files h = (files, refl, λ base. refl)
extract_loop-Extracted entries (n ∷ ns) files h =
    let (content, e) = h.0 in
    let (after, run, holds) =
      extract_loop-Extracted entries ns (write_file (base_name n) content files) h.1 in
    (
      after,
      rw (e, run) refl,
      λ base. elim (Option-cases (last_with base ns)) [
        | inr (later, k) ↦ holds base ∙ (rw k refl)
        | inl k ↦ elim (Bool-cases (text_eq base (base_name n))) [
          | inl b ↦
              rw (holds base, lookup-write_file base (base_name n) content files, k, b, e) refl
          | inr b ↦ rw (holds base, lookup-write_file base (base_name n) content files, k, b) refl
        ]
      ],
    )
