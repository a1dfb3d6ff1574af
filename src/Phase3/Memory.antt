-- ===== src/Phase3/Memory.antt =====
-- When the segments of a layout of phase3.py do not overlap in memory. The code does not test it.
use native.Mathlib.Nat.{div-add-mod, mul-sub}
use il2cppapk2ios.Align.{align, floor}
use il2cppapk2ios.Align.Bounds.{align_least, floor-eq_mul, floor_bounds}
use il2cppapk2ios.Elf.{ProgramHeader}
use il2cppapk2ios.Phase3.{
  Config, slide, ImageSegment, text_segment, load_segment, load_segments, page_delta, next_cursor,
  layout_loads,
}
use il2cppapk2ios.Phase3.Layout.{layout_loads-inv}
use il2cppapk2ios.Common.{
  ℕ, ◌+◌, ◌-◌, ◌*◌, ◌/◌, ◌%◌, ◌^◌, ◌≤◌, ◌≡◌, ◌↔◌, sym, ap, ◌∙◌, arith, List, [], ◌∷◌,
}
use il2cppapk2ios.Common.Outcome.{ok}

-- Every segment ends in memory before the next one starts.
abbrev pub MemoryOrdered : List ImageSegment → Type 0
MemoryOrdered [] = Unit
MemoryOrdered (seg ∷ []) = Unit
MemoryOrdered (seg ∷ (next ∷ segs)) =
    (seg.vmaddr + seg.vmsize ≤ next.vmaddr) × MemoryOrdered (next ∷ segs)

-- Every PT_LOAD ends before the page on which the next one starts.
abbrev pub PagesApart : Config → List ProgramHeader → Type 0
PagesApart c [] = Unit
PagesApart c (ph ∷ []) = Unit
PagesApart c (ph ∷ (next ∷ phs)) =
    (slide c + ph.vaddr + ph.memsz ≤ floor (slide c + next.vaddr) c.page_size)
    × PagesApart c (next ∷ phs)

-- Up to a page boundary, rounding up a size from a page boundary makes no difference.
round_up :
    (k q size p : ℕ) → (2 ^ k * q + align size (2 ^ k) ≤ 2 ^ k * p) ↔ (2 ^ k * q + size ≤ 2 ^ k * p)
round_up k q size p =
    let (_, up, _, least) = align_least k size in
    (
      λ h. omega (arith, up),
      λ h.
          let gap : 2 ^ k * (p - q) ≡ 2 ^ k * p - 2 ^ k * q = mul-sub (2 ^ k) p q in
          let bound = least (p - q) (omega (arith, gap, h)) in omega (arith, gap, bound, h),
    )

module _ (c : Config) (k : ℕ) (page : c.page_size ≡ 2 ^ k) where
  floor_page : (v : ℕ) → floor v c.page_size ≡ 2 ^ k * (v / 2 ^ k)
  floor_page v = ap (floor v) page ∙ floor-eq_mul k v

  floor-le : (v : ℕ) → floor v c.page_size ≤ v
  floor-le v = rw page (floor_bounds k v).1

  -- A size from a page boundary `start`, up to the page of an address `b`.
  end_page :
      (start size b : ℕ)
      → start ≡ 2 ^ k * (start / 2 ^ k)
      → (start + align size c.page_size ≤ floor b c.page_size)
        ↔ (start + size ≤ floor b c.page_size)
  end_page start size b e =
      let (to, back) = round_up k (start / 2 ^ k) size (b / 2 ^ k) in
      let fb = floor_page b in
      let al : align size c.page_size ≡ align size (2 ^ k) = ap (align size) page in
      (
        λ h. let r = to (omega (arith, e, fb, al, h)) in omega (arith, e, fb, r),
        λ h. let r = back (omega (arith, e, fb, h)) in omega (arith, e, fb, al, r),
      )

  floor_multiple : (v : ℕ) → floor v c.page_size ≡ 2 ^ k * (floor v c.page_size / 2 ^ k)
  floor_multiple v =
      let zero_rest : floor v c.page_size % 2 ^ k ≡ 0 = rw page (floor_bounds k v).0 in
      omega (arith, zero_rest, div-add-mod (floor v c.page_size) (2 ^ k))

  load_end :
      (index cursor b : ℕ) (ph : ProgramHeader)
      → ((load_segment c index cursor ph).vmaddr + (load_segment c index cursor ph).vmsize
          ≤ floor b c.page_size)
        ↔ (slide c + ph.vaddr + ph.memsz ≤ floor b c.page_size)
  unfolding load_segment page_delta
  load_end index cursor b ph =
      let a = slide c + ph.vaddr in
      let low = floor-le a in
      let (to, back) =
        end_page (floor a c.page_size) (a - floor a c.page_size + ph.memsz) b (floor_multiple a) in
      (λ h. let r = to h in omega (arith, low, r), λ h. back (omega (arith, low, h)))

  load_segments-MemoryOrdered :
      (phs : List ProgramHeader) (index cursor : ℕ)
      → MemoryOrdered (load_segments c index cursor phs) ↔ PagesApart c phs
  unfolding load_segments
  load_segments-MemoryOrdered [] index cursor = (λ h. tt, λ h. tt)
  load_segments-MemoryOrdered (ph ∷ []) index cursor = (λ h. tt, λ h. tt)
  load_segments-MemoryOrdered (ph ∷ (next ∷ phs)) index cursor =
      let one = load_end index cursor (slide c + next.vaddr) ph in
      let more = load_segments-MemoryOrdered (next ∷ phs) (index + 1) (next_cursor c cursor ph) in
      (λ h. (one.0 h.0, more.0 h.1), λ h. (one.1 h.0, more.1 h.1))

  text_end :
      (first : ProgramHeader) (b : ℕ)
      → c.image_base % c.page_size ≡ 0
      → first.vaddr ≡ 0
      → ((text_segment c first).vmaddr + (text_segment c first).vmsize ≤ floor b c.page_size)
        ↔ (slide c + first.vaddr + first.memsz ≤ floor b c.page_size)
  unfolding text_segment
  text_end first b base low =
      let zero_rest : c.image_base % 2 ^ k ≡ 0 = ap (λ m. c.image_base % m) (sym page) ∙ base in
      let e : c.image_base ≡ 2 ^ k * (c.image_base / 2 ^ k) =
        omega (arith, zero_rest, div-add-mod c.image_base (2 ^ k)) in
      let (to, back) = end_page c.image_base (c.header_reserve + first.memsz) b e in
      (λ h. let r = to h in omega (arith, low, r), λ h. back (omega (arith, low, h)))

  -- In an accepted layout with a page size 2 ^ k and the image base on a page, every segment ends in
  -- memory before the next one in the list starts exactly if every PT_LOAD ends before the page on
  -- which the next one starts.
  pub layout-MemoryOrdered :
      (loads : List ProgramHeader) (segs : List ImageSegment)
      → c.image_base % c.page_size ≡ 0
      → layout_loads c loads ≡ ok segs
      → MemoryOrdered segs ↔ PagesApart c loads
  layout-MemoryOrdered [] segs base h = unfold layout_loads in cc
  layout-MemoryOrdered (first ∷ []) segs base h =
      let (low, e) = layout_loads-inv c k page first [] segs h in
      rw e (unfold load_segments in (λ h. tt, λ h. tt))
  layout-MemoryOrdered (first ∷ (next ∷ phs)) segs base h =
      let (low, e) = layout_loads-inv c k page first (next ∷ phs) segs h in
      rw e (text_first first next phs base low)
    where
      text_first :
          (first next : ProgramHeader) (phs : List ProgramHeader)
          → c.image_base % c.page_size ≡ 0
          → first.vaddr ≡ 0
          → MemoryOrdered (
              text_segment c first
              ∷ load_segments c 1
                  (align (c.header_reserve + first.filesz) c.page_size)
                  (next ∷ phs))
            ↔ PagesApart c (first ∷ (next ∷ phs))
      text_first first next phs base low =
          unfold load_segments in
          let start = align (c.header_reserve + first.filesz) c.page_size in
          let one = text_end first (slide c + next.vaddr) base low in
          let more = load_segments-MemoryOrdered (next ∷ phs) 1 start in
          (λ h. (one.0 h.0, more.0 h.1), λ h. (one.1 h.0, more.1 h.1))
