-- ===== src/Phase3/Relocate/Backed.antt =====
-- The segment in which `_location` of phase3.py finds an address.
use il2cppapk2ios.Phase3.{Config, ImageSegment, Location, is_backed, location_from, location}
use il2cppapk2ios.Common.{
  ℕ, ◌+◌, ◌-◌, ◌≤◌, ◌<◌, ◌≡◌, ◌↔◌, ◌⊎◌, inl, inr, refl, sym, ap, arith, List, [], ◌∷◌, true, false,
  Bool-cases,
}
use il2cppapk2ios.Common.Outcome.{ok, ok-injective}

-- The first segment whose data in the file hold the byte of an address.
pub data FirstBacked (vaddr : ℕ) : List ImageSegment → ImageSegment → Type 0 where
  here :
      {seg : ImageSegment} {segs : List ImageSegment}
      → seg.elf_vaddr ≤ vaddr
      → vaddr < seg.elf_vaddr + seg.elf_filesz
      → FirstBacked vaddr (seg ∷ segs) seg
  there :
      {other seg : ImageSegment} {segs : List ImageSegment}
      → (vaddr < other.elf_vaddr) ⊎ (other.elf_vaddr + other.elf_filesz ≤ vaddr)
      → FirstBacked vaddr segs seg
      → FirstBacked vaddr (other ∷ segs) seg

backed_iff :
    (seg : ImageSegment) (vaddr : ℕ)
    → (is_backed seg vaddr ≡ true)
      ↔ ((seg.elf_vaddr ≤ vaddr) × (vaddr < seg.elf_vaddr + seg.elf_filesz))
backed_iff seg vaddr = (λ h. ((ground arith), (ground arith)), λ (low, high). ground arith)

outside_iff :
    (seg : ImageSegment) (vaddr : ℕ)
    → (is_backed seg vaddr ≡ false)
      ↔ ((vaddr < seg.elf_vaddr) ⊎ (seg.elf_vaddr + seg.elf_filesz ≤ vaddr))
outside_iff seg vaddr = (λ h. ground arith, λ h. ground arith)

-- Where the search for a place ends, and at which offset in the file.
pub location_from-FirstBacked :
    (c : Config) (index : ℕ) (segs : List ImageSegment) (vaddr : ℕ) (at : Location)
    → location_from c index segs vaddr ≡ ok at
    → (seg : ImageSegment) × FirstBacked vaddr segs seg
      × (at.output_offset ≡ seg.data_fileoff + (vaddr - seg.elf_vaddr))
unfolding location_from
location_from-FirstBacked c index [] vaddr at h = cc
location_from-FirstBacked c index (seg ∷ segs) vaddr at h =
    elim (Bool-cases (is_backed seg vaddr)) [
      | inl e ↦
          let (low, high) = (backed_iff seg vaddr).0 e in
          let same = ok-injective (rw e at h) in
          (seg, here low high, ap (λ (l : Location). l.output_offset) (sym same))
      | inr e ↦
          let (found, first, o) =
            location_from-FirstBacked c (index + 1) segs vaddr at (rw e at h) in
          (found, there ((outside_iff seg vaddr).0 e) first, o)
    ]

FirstBacked-location_from :
    (c : Config) (vaddr index : ℕ) (segs : List ImageSegment) (seg : ImageSegment)
    → FirstBacked vaddr segs seg
    → (at : Location) × (location_from c index segs vaddr ≡ ok at)
      × (at.output_offset ≡ seg.data_fileoff + (vaddr - seg.elf_vaddr))
unfolding location_from
FirstBacked-location_from c vaddr index _ _ (here {seg} low high) =
    rw ((backed_iff seg vaddr).1 (low, high)) (_, refl, refl)
FirstBacked-location_from c vaddr index _ _ (there {other} {seg} {segs} out first) =
    rw ((outside_iff other vaddr).1 out)
      (FirstBacked-location_from c vaddr (index + 1) segs seg first)

pub FirstBacked-location :
    (c : Config) (segs : List ImageSegment) (vaddr : ℕ) (seg : ImageSegment)
    → FirstBacked vaddr segs seg
    → (at : Location) × (location c segs vaddr ≡ ok at)
      × (at.output_offset ≡ seg.data_fileoff + (vaddr - seg.elf_vaddr))
unfolding location
FirstBacked-location c segs vaddr seg first = FirstBacked-location_from c vaddr 0 segs seg first
