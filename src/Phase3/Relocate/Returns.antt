-- ===== src/Phase3/Relocate/Returns.antt =====
-- When the relocation loop of phase3.py raises an error, and when it does not.
use il2cppapk2ios.Phase3.Relocate.Backed.{
  FirstBacked, location_from-FirstBacked, FirstBacked-location,
}
use il2cppapk2ios.Phase3.{Config, ImageSegment, Location, location}
use il2cppapk2ios.Phase3.Fixups.{
  Fixups, Patched, patch, fix_relative, fix_import, fix_defined, fix_symbolic, fix_one, fix_all,
  unpack_word, abs64, aarch64_relative, is_symbolic, count_relative, count_internal,
}
use il2cppapk2ios.Phase3.Relocate.Cases.{
  Branch, relative_branch, import_branch, defined_branch, fix_one-inv,
}
use il2cppapk2ios.Phase3.Relocate.Tally.{one-Accounts}
use il2cppapk2ios.Elf.{shn_undef}
use il2cppapk2ios.Elf.Symbols.{Symbol}
use il2cppapk2ios.Elf.Relocations.{Relocation}
use il2cppapk2ios.Common.{
  ℕ, ◌+◌, ◌-◌, ◌≤◌, ◌≡◌, ◌↔◌, ◌⊎◌, inl, inr, refl, ap, ◌∙◌, arith, List, [], ◌∷◌, All, length,
  get_elem?, some, true, if◌then◌else◌, ◌==◌, Bool-cases,
}
use il2cppapk2ios.Common.Int.{ℤ, wrap64}
use il2cppapk2ios.Common.Outcome.{Outcome, ok, err, ◌>>=◌, >>=-eq-ok, unsupported_relocation}
use il2cppapk2ios.Struct.{field, pack_into}
use il2cppapk2ios.Struct.Laws.{pack_into_room, pack_into_inv}

-- A call that returns a value.
abbrev pub Succeeds {ℓ} : {A : Type ℓ} → Outcome A → Type ℓ
Succeeds {A = A} m = (a : A) × (m ≡ ok a)

after {ℓ κ} :
    {A : Type ℓ} {B : Type κ} (m : Outcome A) (f : A → Outcome B) (a : A)
    → m ≡ ok a
    → Succeeds (f a)
    → Succeeds (m >>= f)
after m f a e (b, h) = (b, ap (λ n. n >>= f) e ∙ h)

-- A relocation that the loop can handle: its first byte is backed by a segment, its word lies in an
-- image of this size, its type is one of the four, and a symbolic one has a symbol at its index.
pub record IsFixable (segs : List ImageSegment) (symbols : List Symbol) (size : ℕ)
    (rel : Relocation) : Type 0 where
  pub seg : ImageSegment
  pub backed : FirstBacked rel.offset segs seg
  pub room : seg.data_fileoff + (rel.offset - seg.elf_vaddr) + 8 ≤ size
  pub supported :
      (rel.type ≡ aarch64_relative)
      ⊎ ((is_symbolic rel.type ≡ true)
          × ((symbol : Symbol) × (get_elem? symbols rel.symbol_index ≡ some symbol)))

module _ (at : Location) (st : Fixups) where
  patch-Succeeds :
      (value : ℤ) (patched : Patched)
      → at.output_offset + 8 ≤ length st.image
      → Succeeds (patch at value patched st)
  unfolding patch
  patch-Succeeds value patched room =
      after (pack_into st.image at.output_offset (wrap64 value)) _ _
        (pack_into_room st.image at.output_offset (wrap64 value) room) (_, refl)

  patch_room :
      (value : ℤ) (patched : Patched) (st' : Fixups)
      → patch at value patched st ≡ ok st'
      → at.output_offset + 8 ≤ length st.image
  unfolding patch
  patch_room value patched st' h =
      let (image, e, _) = >>=-eq-ok (pack_into st.image at.output_offset (wrap64 value)) _ h in
      (pack_into_inv st.image image at.output_offset (wrap64 value) e).0

  unpack-Succeeds :
      at.output_offset + 8 ≤ length st.image
      → unpack_word st.image at.output_offset ≡ ok (field 8 st.image at.output_offset)
  unfolding unpack_word
  unpack-Succeeds room = ground arith

  unpack_room :
      (word : ℕ)
      → unpack_word st.image at.output_offset ≡ ok word
      → at.output_offset + 8 ≤ length st.image
  unfolding unpack_word
  unpack_room word h = ground arith

module _ (c : Config) (symbols : List Symbol) (shim_prefix : List ℕ) (at : Location)
    (rel : Relocation) (st : Fixups) where
  -- The branches, with room for the word.
  module _ (room : at.output_offset + 8 ≤ length st.image) where
    relative-Succeeds : Succeeds (fix_relative c at rel st)
    unfolding fix_relative
    relative-Succeeds = patch-Succeeds at st _ (count_relative st.patched) room

    import-Succeeds : (symbol : Symbol) → Succeeds (fix_import shim_prefix at rel symbol st)
    unfolding fix_import
    import-Succeeds symbol =
        after (unpack_word st.image at.output_offset) _ _ (unpack-Succeeds at st room) (_, refl)

    word-Succeeds :
        Succeeds (if rel.type == abs64 then unpack_word st.image at.output_offset else ok 0)
    word-Succeeds = elim (Bool-cases (rel.type == abs64)) [
      | inl e ↦ rw e (_, unpack-Succeeds at st room)
      | inr e ↦ rw e (0, refl)
    ]

    defined-Succeeds : (symbol : Symbol) → Succeeds (fix_defined c at rel symbol st)
    unfolding fix_defined
    defined-Succeeds symbol =
        after (if rel.type == abs64 then unpack_word st.image at.output_offset else ok 0) _
          word-Succeeds.0 word-Succeeds.1
          (patch-Succeeds at st _ (count_internal rel.type st.patched) room)

    symbolic-Succeeds :
        (symbol : Symbol)
        → get_elem? symbols rel.symbol_index ≡ some symbol
        → Succeeds (fix_symbolic c symbols shim_prefix at rel st)
    unfolding fix_symbolic
    symbolic-Succeeds symbol found = elim (Bool-cases (symbol.shndx == shn_undef)) [
      | inl u ↦ rw (found, fix_symbolic, u) (import-Succeeds symbol)
      | inr d ↦ rw (found, fix_symbolic, d) (defined-Succeeds symbol)
    ]

    located-Succeeds :
        (rel.type ≡ aarch64_relative)
          ⊎ ((is_symbolic rel.type ≡ true)
              × ((symbol : Symbol) × (get_elem? symbols rel.symbol_index ≡ some symbol)))
        → Succeeds (
            if rel.type == aarch64_relative
            then fix_relative c at rel st
            else if is_symbolic rel.type
            then fix_symbolic c symbols shim_prefix at rel st
            else err (unsupported_relocation rel.type rel.offset))
    located-Succeeds supported = elim (Bool-cases (rel.type == aarch64_relative)) [
      | inl r ↦ rw r relative-Succeeds
      | inr n ↦ elim supported [
        | inl r ↦ absurd (ground (arith, n, r))
        | inr (s, (symbol, found)) ↦ rw (n, s) (symbolic-Succeeds symbol found)
      ]
    ]

  defined_room :
      (symbol : Symbol) (st' : Fixups)
      → fix_defined c at rel symbol st ≡ ok st'
      → at.output_offset + 8 ≤ length st.image
  unfolding fix_defined
  defined_room symbol st' h =
      let (existing, _, e) =
        >>=-eq-ok (if rel.type == abs64 then unpack_word st.image at.output_offset else ok 0) _ h in
      patch_room at st _ (count_internal rel.type st.patched) st' e

  import_room :
      (symbol : Symbol) (st' : Fixups)
      → fix_import shim_prefix at rel symbol st ≡ ok st'
      → at.output_offset + 8 ≤ length st.image
  unfolding fix_import
  import_room symbol st' h =
      let (existing, e, _) = >>=-eq-ok (unpack_word st.image at.output_offset) _ h in
      unpack_room at st existing e

  relative_room :
      (st' : Fixups) → fix_relative c at rel st ≡ ok st' → at.output_offset + 8 ≤ length st.image
  unfolding fix_relative
  relative_room st' h = patch_room at st _ (count_relative st.patched) st' h

module _ (c : Config) (segs : List ImageSegment) (symbols : List Symbol)
    (shim_prefix : List ℕ) where
  fix_one-Succeeds :
      (rel : Relocation) (st : Fixups)
      → IsFixable segs symbols (length st.image) rel
      → Succeeds (fix_one c segs symbols shim_prefix rel st)
  unfolding fix_one
  fix_one-Succeeds rel st f =
      let (at, e, o) = FirstBacked-location c segs rel.offset f.seg f.backed in
      let room = f.room in
      after (location c segs rel.offset) _ at e
        (located-Succeeds c symbols shim_prefix at rel st (omega arith) f.supported)

  placed-IsFixable :
      (rel : Relocation) (st : Fixups) (at : Location)
      → location c segs rel.offset ≡ ok at
      → at.output_offset + 8 ≤ length st.image
      → (rel.type ≡ aarch64_relative)
        ⊎ ((is_symbolic rel.type ≡ true)
            × ((symbol : Symbol) × (get_elem? symbols rel.symbol_index ≡ some symbol)))
      → IsFixable segs symbols (length st.image) rel
  placed-IsFixable rel st at e room supported =
      let (seg, first, o) =
        location_from-FirstBacked c 0 segs rel.offset at (unfold location in e) in
      record { seg = seg; backed = first; room = omega arith; supported = supported }

  branch-IsFixable :
      (rel : Relocation) (st st' : Fixups) (at : Location)
      → location c segs rel.offset ≡ ok at
      → Branch c symbols shim_prefix at rel st st'
      → IsFixable segs symbols (length st.image) rel
  branch-IsFixable rel st st' at e (relative_branch r h) =
      placed-IsFixable rel st at e (relative_room c symbols shim_prefix at rel st st' h) (inl r)
  branch-IsFixable rel st st' at e (import_branch symbol s f u h) =
      placed-IsFixable rel st at e (import_room c symbols shim_prefix at rel st symbol st' h)
        (inr (s, (symbol, f)))
  branch-IsFixable rel st st' at e (defined_branch symbol s f u h) =
      placed-IsFixable rel st at e (defined_room c symbols shim_prefix at rel st symbol st' h)
        (inr (s, (symbol, f)))

  fix_one-IsFixable :
      (rel : Relocation) (st st' : Fixups)
      → fix_one c segs symbols shim_prefix rel st ≡ ok st'
      → IsFixable segs symbols (length st.image) rel
  fix_one-IsFixable rel st st' h =
      let (at, e, b) = fix_one-inv c segs symbols shim_prefix rel st st' h in
      branch-IsFixable rel st st' at e b

  fix_all-Succeeds :
      (rels : List Relocation) (st : Fixups) (size : ℕ)
      → length st.image ≡ size
      → All (IsFixable segs symbols size) rels
      → Succeeds (fix_all c segs symbols shim_prefix rels st)
  unfolding fix_all
  fix_all-Succeeds [] st size n fs = (st, refl)
  fix_all-Succeeds (rel ∷ rels) st size n (f, fs) =
      let (next, e) = fix_one-Succeeds rel st (rw n f) in
      let kept = (one-Accounts c segs symbols shim_prefix rel st next e).same_length in
      after (fix_one c segs symbols shim_prefix rel st) _ next e
        (fix_all-Succeeds rels next size (kept ∙ n) fs)

  fix_all-IsFixable :
      (rels : List Relocation) (st st' : Fixups) (size : ℕ)
      → length st.image ≡ size
      → fix_all c segs symbols shim_prefix rels st ≡ ok st'
      → All (IsFixable segs symbols size) rels
  unfolding fix_all
  fix_all-IsFixable [] st st' size n h = tt
  fix_all-IsFixable (rel ∷ rels) st st' size n h =
      let (next, e, e') = >>=-eq-ok (fix_one c segs symbols shim_prefix rel st) _ h in
      let kept = (one-Accounts c segs symbols shim_prefix rel st next e).same_length in
      (
        rw (← n) (fix_one-IsFixable rel st next e),
        fix_all-IsFixable rels next st' size (kept ∙ n) e',
      )

  -- The loop raises no error exactly if every relocation has its first byte in the part of a segment
  -- that the file backs, has its word of eight bytes inside the image, counted from the data of the
  -- first such segment, is of one of the four types, and, where it is symbolic, has a symbol at its
  -- index.
  pub fix_all_succeeds_iff :
      (rels : List Relocation) (st : Fixups)
      → Succeeds (fix_all c segs symbols shim_prefix rels st)
        ↔ All (IsFixable segs symbols (length st.image)) rels
  fix_all_succeeds_iff rels st = (
    λ (st', h). fix_all-IsFixable rels st st' (length st.image) refl h,
    fix_all-Succeeds rels st (length st.image) refl,
  )
