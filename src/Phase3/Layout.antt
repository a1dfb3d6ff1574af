-- ===== src/Phase3/Layout.antt =====
-- The layout of `_layout_segments` with a page size that is a power of two, 2 ^ k.
use il2cppapk2ios.Align.{align, floor}
use il2cppapk2ios.Align.Bounds.{align_least, floor_bounds, pow_pos}
use il2cppapk2ios.Elf.{ProgramHeader}
use il2cppapk2ios.Phase3.{
  Config, slide, ImageSegment, text_segment, load_segment, load_segments, page_delta, next_cursor,
  layout_loads,
}
use il2cppapk2ios.Common.{ℕ, ◌+◌, ◌-◌, ◌%◌, ◌^◌, ◌≤◌, ◌≡◌, refl, arith, List, [], ◌∷◌, All}
use il2cppapk2ios.Common.Outcome.{ok}

-- A segment starts on a page in the file and in memory, its data stand equally far behind both
-- starts and fit into both ranges, and the address of its data is the ELF address plus the slide.
pub record IsPlaced (c : Config) (seg : ImageSegment) : Type 0 where
  pub file_page : seg.fileoff % c.page_size ≡ 0
  pub vm_page : seg.vmaddr % c.page_size ≡ 0
  pub same_distance : seg.data_addr + seg.fileoff ≡ seg.vmaddr + seg.data_fileoff
  pub one_slide : seg.data_addr ≡ slide c + seg.elf_vaddr
  pub fills_file : seg.data_fileoff + seg.elf_filesz ≡ seg.fileoff + seg.filesize
  pub fits_memory : seg.data_addr + seg.elf_memsz ≤ seg.vmaddr + seg.vmsize
  pub starts_below : seg.fileoff ≤ seg.data_fileoff

-- From an offset on, every segment lies behind the one before it in the file.
abbrev pub FileOrdered : ℕ → List ImageSegment → Type 0
FileOrdered start [] = Unit
FileOrdered start (seg ∷ segs) =
    (start ≤ seg.fileoff) × FileOrdered (seg.fileoff + seg.filesize) segs

module _ (c : Config) (k : ℕ) (page : c.page_size ≡ 2 ^ k) where
  page_align : (v : ℕ) → (align v c.page_size % c.page_size ≡ 0) × (v ≤ align v c.page_size)
  page_align v = rw page (let (a, b, _, _) = align_least k v in (a, b))

  page_floor : (v : ℕ) → (floor v c.page_size % c.page_size ≡ 0) × (floor v c.page_size ≤ v)
  page_floor v = rw page (let (a, b, _) = floor_bounds k v in (a, b))

  load_segment-IsPlaced :
      (index cursor : ℕ) (ph : ProgramHeader) → IsPlaced c (load_segment c index cursor ph)
  unfolding load_segment page_delta
  load_segment-IsPlaced index cursor ph =
      let at = slide c + ph.vaddr in
      let f = page_floor at in
      let a = page_align cursor in
      record {
        file_page = a.0;
        vm_page = f.0;
        same_distance = omega (arith, f);
        one_slide = refl;
        fills_file = omega (arith, f);
        fits_memory = omega (arith, f, page_align (at - floor at c.page_size + ph.memsz));
        starts_below = omega arith;
      }

  load_segments-IsPlaced :
      (index cursor : ℕ) (phs : List ProgramHeader)
      → All (IsPlaced c) (load_segments c index cursor phs)
  unfolding load_segments
  load_segments-IsPlaced index cursor [] = tt
  load_segments-IsPlaced index cursor (ph ∷ phs) = (
    load_segment-IsPlaced index cursor ph,
    load_segments-IsPlaced (index + 1) (next_cursor c cursor ph) phs,
  )

  load_segments-FileOrdered :
      (index cursor start : ℕ) (phs : List ProgramHeader)
      → start ≤ cursor
      → FileOrdered start (load_segments c index cursor phs)
  unfolding load_segments load_segment next_cursor
  load_segments-FileOrdered index cursor start [] h = tt
  load_segments-FileOrdered index cursor start (ph ∷ phs) h = (
    omega (arith, page_align cursor),
    load_segments-FileOrdered (index + 1) (next_cursor c cursor ph) _ phs
        (omega (arith, page_align (align cursor c.page_size + page_delta c ph + ph.filesz))),
  )

  text_segment-IsPlaced :
      (first : ProgramHeader)
      → c.image_base % c.page_size ≡ 0
      → first.vaddr ≡ 0
      → IsPlaced c (text_segment c first)
  unfolding text_segment
  text_segment-IsPlaced first base low = record {
    file_page = rw page (omega (arith, pow_pos k));
    vm_page = base;
    same_distance = omega arith;
    one_slide = omega arith;
    fills_file = omega arith;
    fits_memory = omega (arith, page_align (c.header_reserve + first.memsz));
    starts_below = omega arith;
  }

  text_segment-end :
      (first : ProgramHeader)
      → (text_segment c first).fileoff + (text_segment c first).filesize
        ≡ c.header_reserve + first.filesz
  unfolding text_segment
  text_segment-end first = omega arith

  -- What a layout that is accepted consists of.
  pub layout_loads-inv :
      (first : ProgramHeader) (others : List ProgramHeader) (segs : List ImageSegment)
      → layout_loads c (first ∷ others) ≡ ok segs
      → (first.vaddr ≡ 0)
        × (segs
            ≡ text_segment c first
              ∷ load_segments c 1 (align (c.header_reserve + first.filesz) c.page_size) others)
  unfolding layout_loads
  layout_loads-inv first others segs h = ground arith

  -- With a page size of 2 ^ k and an image base on a page, every segment of an accepted layout is
  -- placed as `IsPlaced` says, and in the file each lies behind the one before it.
  pub layout-IsPlaced :
      (loads : List ProgramHeader) (segs : List ImageSegment)
      → c.image_base % c.page_size ≡ 0
      → layout_loads c loads ≡ ok segs
      → All (IsPlaced c) segs × FileOrdered 0 segs
  layout-IsPlaced [] segs base h = unfold layout_loads in cc
  layout-IsPlaced (first ∷ others) segs base h =
      let (low, e) = layout_loads-inv first others segs h in
      rw e (
        (text_segment-IsPlaced first base low, load_segments-IsPlaced 1 _ others),
        (
          omega arith,
          rw (text_segment-end first) (
              load_segments-FileOrdered 1 (align (c.header_reserve + first.filesz) c.page_size) _
                others (page_align (c.header_reserve + first.filesz)).1),
        ),
      )
