-- ===== src/Phase2/Layout.antt =====
-- The layout of `_map_loads` and the places of `_vaddr_to_output_offset` (translate.py), with a page
-- size that is a power of two, 2 ^ k.
use il2cppapk2ios.Align.{align, floor}
use il2cppapk2ios.Align.Bounds.{align_least, floor_bounds}
use il2cppapk2ios.Elf.{Elf64, ProgramHeader}
use il2cppapk2ios.Phase2.{
  LoadConfig, MappedLoad, load_delta, map_load, map_from, map_loads, non_empty,
}
use il2cppapk2ios.Common.{
  ℕ, ◌+◌, ◌-◌, ◌%◌, ◌^◌, ◌≤◌, ◌<◌, ◌≡◌, refl, arith, ◌==◌, List, [], ◌∷◌, All, get_elem?, some,
  Bool-cases, inl, inr,
}
use il2cppapk2ios.Common.Outcome.{ok, ok-injective}

-- A load starts on a page in the file and in memory, its data stand `delta` behind both starts, at
-- the ELF address plus the slide, and fit into both ranges.
pub record IsMapped (c : LoadConfig) (seg : MappedLoad) : Type 0 where
  pub file_page : seg.fileoff % c.page_size ≡ 0
  pub vm_page : seg.vmaddr % c.page_size ≡ 0
  pub one_slide : seg.vmaddr + seg.delta ≡ c.slide + seg.elf_vaddr
  pub fills_file : seg.delta + seg.elf_filesz ≡ seg.filesize
  pub fits_memory : seg.delta + seg.elf_memsz ≤ seg.vmsize

-- From an offset on, every load lies behind the one before it in the file.
abbrev pub LoadsOrdered : ℕ → List MappedLoad → Type 0
LoadsOrdered start [] = Unit
LoadsOrdered start (seg ∷ segs) =
    (start ≤ seg.fileoff) × LoadsOrdered (seg.fileoff + seg.filesize) segs

module _ (c : LoadConfig) (k : ℕ) (page : c.page_size ≡ 2 ^ k) where
  align_page : (v : ℕ) → (align v c.page_size % c.page_size ≡ 0) × (v ≤ align v c.page_size)
  align_page v = rw page (let (a, b, _, _) = align_least k v in (a, b))

  floor_page : (v : ℕ) → (floor v c.page_size % c.page_size ≡ 0) × (floor v c.page_size ≤ v)
  floor_page v = rw page (let (a, b, _) = floor_bounds k v in (a, b))

  map_load-IsMapped :
      (index cursor : ℕ) (ph : ProgramHeader) → IsMapped c (map_load c index cursor ph)
  unfolding map_load load_delta
  map_load-IsMapped index cursor ph =
      let at = c.slide + ph.vaddr in
      let f = floor_page at in
      record {
        file_page = (align_page cursor).0;
        vm_page = f.0;
        one_slide = omega (arith, f);
        fills_file = refl;
        fits_memory = omega (arith, align_page (at - floor at c.page_size + ph.memsz));
      }

  map_from-IsMapped :
      (phs : List ProgramHeader) (index cursor start : ℕ)
      → start ≤ cursor
      → All (IsMapped c) (map_from c index cursor phs)
        × LoadsOrdered start (map_from c index cursor phs)
  unfolding map_from map_load
  map_from-IsMapped [] index cursor start h = (tt, tt)
  map_from-IsMapped (ph ∷ phs) index cursor start h =
      let next = align cursor c.page_size + load_delta c ph + ph.filesz in
      let skipped = map_from-IsMapped phs index cursor start h in
      let taken =
        map_from-IsMapped phs (index + 1) (align next c.page_size)
          (align cursor c.page_size + (load_delta c ph + ph.filesz))
          (omega (arith, align_page next)) in
      elim (Bool-cases (ph.p_type == 1)) [
        | inl e ↦ rw e (
          (map_load-IsMapped index cursor ph, taken.0),
          (omega (arith, align_page cursor), taken.1),
        )
        | inr e ↦ rw e skipped
      ]

  -- With a page size 2 ^ k, in a layout that is accepted every load is mapped so, all with the one slide, and the loads
  -- follow each other in the file from the end of the header page on.
  pub map_loads-IsMapped :
      (elf : Elf64) (loads : List MappedLoad)
      → map_loads c elf ≡ ok loads
      → All (IsMapped c) loads × LoadsOrdered c.page_size loads
  unfolding map_loads
  map_loads-IsMapped elf loads h =
      rw (← non_empty-ok (map_from c 0 c.page_size elf.program_headers) loads h)
        (map_from-IsMapped elf.program_headers 0 c.page_size c.page_size (omega arith))
    where
      non_empty-ok : (found loads : List MappedLoad) → non_empty found ≡ ok loads → found ≡ loads
      non_empty-ok [] loads h = cc
      non_empty-ok (load ∷ found) loads h = ok-injective h

-- The file offset of an address: a load that holds the address, in its file-backed part, starts
-- `inside` bytes before it both in the file and in memory.
pub record IsOffsetOf (c : LoadConfig) (loads : List MappedLoad) (vaddr dst : ℕ) : Type 0 where
  pub number : ℕ
  pub load : MappedLoad
  pub found : get_elem? loads number ≡ some load
  pub inside : ℕ
  pub file : load.fileoff + inside ≡ dst
  pub memory : load.vmaddr + inside ≡ c.slide + vaddr
  pub in_file : inside < load.filesize
