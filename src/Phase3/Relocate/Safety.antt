-- ===== src/Phase3/Relocate/Safety.antt =====
-- What the relocation loop of phase3.py never writes to.
use il2cppapk2ios.Align.{align}
use il2cppapk2ios.Align.Bounds.{align_least}
use il2cppapk2ios.Elf.{ProgramHeader}
use il2cppapk2ios.Elf.Symbols.{Symbol}
use il2cppapk2ios.Elf.Relocations.{Relocation}
use il2cppapk2ios.Phase3.{
  Config, ImageSegment, Location, location_from, location, is_backed, text_segment, load_segment,
  load_segments, next_cursor, page_delta, layout_loads,
}
use il2cppapk2ios.Phase3.Fixups.{Fixups, fix_one, fix_all}
use il2cppapk2ios.Phase3.Layout.{layout_loads-inv}
use il2cppapk2ios.Phase3.Relocate.Words.{fix_one_word}
use il2cppapk2ios.Common.{
  ℕ, ◌+◌, ◌^◌, ◌≤◌, ◌≡◌, ◌⊎◌, inl, inr, sym, ap, ◌∙◌, arith, List, [], ◌∷◌, All, Bool-cases,
}
use il2cppapk2ios.Common.Outcome.{ok, ok-injective, >>=-eq-ok}
use il2cppapk2ios.Struct.{slice}

module _ (c : Config) (segs : List ImageSegment) (symbols : List Symbol)
    (shim_prefix : List ℕ) where
  -- A stretch of the image that the word of a relocation does not reach.
  abbrev pub IsApart : ℕ → ℕ → Relocation → Type 0
  IsApart start stop rel =
      (at : Location)
      → location c segs rel.offset ≡ ok at
      → (stop ≤ at.output_offset) ⊎ (at.output_offset + 8 ≤ start)

  one-apart :
      (start stop : ℕ) (rel : Relocation) (st st' : Fixups)
      → start ≤ stop
      → IsApart start stop rel
      → fix_one c segs symbols shim_prefix rel st ≡ ok st'
      → slice start stop st'.image ≡ slice start stop st.image
  one-apart start stop rel st st' o apart h =
      let (at, e, done) = fix_one_word c segs symbols shim_prefix rel st st' h in
      elim done [
        | inl patched ↦ patched.others start stop o (apart at e)
        | inr imported ↦ ap (slice start stop) imported.image
      ]

  -- The loop leaves every stretch of the image alone that no word of a relocation reaches.
  pub fix_all-apart :
      (start stop : ℕ) (rels : List Relocation) (st st' : Fixups)
      → start ≤ stop
      → All (IsApart start stop) rels
      → fix_all c segs symbols shim_prefix rels st ≡ ok st'
      → slice start stop st'.image ≡ slice start stop st.image
  unfolding fix_all
  fix_all-apart start stop [] st st' o apart h =
      ap (λ (s : Fixups). slice start stop s.image) (sym (ok-injective h))
  fix_all-apart start stop (rel ∷ rels) st st' o (apart, rest) h =
      let (next, e, e') = >>=-eq-ok (fix_one c segs symbols shim_prefix rel st) _ h in
      fix_all-apart start stop rels next st' o rest e' ∙ one-apart start stop rel st next o apart e

-- No place lies below the data of all segments.
location_from-above :
    (c : Config) (limit index : ℕ) (segs : List ImageSegment) (vaddr : ℕ) (at : Location)
    → All (λ s. limit ≤ s.data_fileoff) segs
    → location_from c index segs vaddr ≡ ok at
    → limit ≤ at.output_offset
unfolding location_from
location_from-above c limit index [] vaddr at hs h = cc
location_from-above c limit index (seg ∷ segs) vaddr at (low, hs) h =
    elim (Bool-cases (is_backed seg vaddr)) [
      | inl e ↦ let same = ok-injective (rw e at h) in rw (← same) (omega arith)
      | inr e ↦ location_from-above c limit (index + 1) segs vaddr at hs (rw e at h)
    ]

module _ (c : Config) (k : ℕ) (page : c.page_size ≡ 2 ^ k) where
  up : (v : ℕ) → v ≤ align v c.page_size
  up v = rw page (align_least k v).1

  load_segments-above :
      (limit index cursor : ℕ) (phs : List ProgramHeader)
      → limit ≤ cursor
      → All (λ s. limit ≤ s.data_fileoff) (load_segments c index cursor phs)
  unfolding load_segments load_segment next_cursor
  load_segments-above limit index cursor [] h = tt
  load_segments-above limit index cursor (ph ∷ phs) h = (
    omega (arith, up cursor),
    load_segments-above limit (index + 1) (next_cursor c cursor ph) phs
        (omega (arith, up cursor, up (align cursor c.page_size + page_delta c ph + ph.filesz))),
  )

  -- In an accepted layout the data of every segment stand behind the header reserve.
  pub layout-above :
      (loads : List ProgramHeader) (segs : List ImageSegment)
      → layout_loads c loads ≡ ok segs
      → All (λ s. c.header_reserve ≤ s.data_fileoff) segs
  layout-above [] segs h = unfold layout_loads in cc
  layout-above (first ∷ others) segs h =
      let (_, e) = layout_loads-inv c k page first others segs h in
      rw e (
        (unfold text_segment in omega arith),
        load_segments-above c.header_reserve 1 (align (c.header_reserve + first.filesz) c.page_size)
            others (omega (arith, up (c.header_reserve + first.filesz))),
      )

  -- In an accepted layout with a page size 2 ^ k, the relocation loop writes nothing below the end
  -- of the header reserve, where the header and the load commands go.
  pub fix_all-header :
      (loads : List ProgramHeader) (segs : List ImageSegment) (symbols : List Symbol)
      (shim_prefix : List ℕ) (rels : List Relocation) (st st' : Fixups)
      → layout_loads c loads ≡ ok segs
      → fix_all c segs symbols shim_prefix rels st ≡ ok st'
      → slice 0 c.header_reserve st'.image ≡ slice 0 c.header_reserve st.image
  fix_all-header loads segs symbols shim_prefix rels st st' l h =
      let above = layout-above loads segs l in
      fix_all-apart c segs symbols shim_prefix 0 c.header_reserve rels st st' (omega arith)
        (everywhere rels λ rel at e.
          inl (
            unfold location in location_from-above c c.header_reserve 0 segs rel.offset at above e))
        h
    where
      everywhere :
          (rels : List Relocation)
          → ((rel : Relocation) → IsApart c segs symbols shim_prefix 0 c.header_reserve rel)
          → All (IsApart c segs symbols shim_prefix 0 c.header_reserve) rels
      everywhere [] f = tt
      everywhere (rel ∷ rels) f = (f rel, everywhere rels f)
