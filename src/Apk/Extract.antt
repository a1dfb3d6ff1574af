-- ===== src/Apk/Extract.antt =====
-- What `extract_arm64` of src/il2cppapk2ios/apk.py leaves in the output directory.
pub mod Loop
use il2cppapk2ios.Apk.{read, is_metadata, arm64_payload, wanted_names, write_file, extract_loop}
use il2cppapk2ios.Common.{
  ℕ, ◌≡◌, ◌↔◌, ◌⊎◌, inl, inr, true, List, ◌++◌, Option, if◌then◌else◌, Option-cases,
}
use il2cppapk2ios.Common.Text.{is_in, sorted_set, select}
use il2cppapk2ios.Common.SortedSet.{is_in-append, is_in-sorted_set, is_in-select, or_yes}
use il2cppapk2ios.Apk.Extract.Loop.{holds_after, read-total, Extracted}

wanted_of_iff :
    (name : List ℕ) (payload present : List (List ℕ))
    → (is_in name
          (sorted_set (select (λ n. is_in n present) (payload ++ select is_metadata present)))
        ≡ true)
      ↔ ((is_in name present ≡ true) × ((is_in name payload ≡ true) ⊎ (is_metadata name ≡ true)))
wanted_of_iff name payload present =
    let meta = is_in-select is_metadata name present in
    let both = is_in-append name payload (select is_metadata present) in
    let (there, back) =
      is_in-select (λ n. is_in n present) name (payload ++ select is_metadata present) in
    rw
      (is_in-sorted_set name
        (select (λ n. is_in n present) (payload ++ select is_metadata present)))
      (
        λ h.
            let (k, here) = there h in
            (here, elim (both.0 k) [ inl l ↦ inl l | inr m ↦ inr (meta.0 m).1 ]),
        λ (here, k).
            back (both.1 (elim k [ inl l ↦ inl l | inr m ↦ inr (meta.1 (here, m)) ]), here),
      )

-- The names that are extracted are those in the archive that are libraries of the payload or
-- metadata files.
pub wanted_names_iff :
    (name : List ℕ) (present : List (List ℕ))
    → (is_in name (wanted_names present) ≡ true) ↔ (
        (is_in name present ≡ true)
        × ((is_in name arm64_payload ≡ true) ⊎ (is_metadata name ≡ true)))
unfolding wanted_names
wanted_names_iff name present = wanted_of_iff name arm64_payload present
