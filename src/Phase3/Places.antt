-- ===== src/Phase3/Places.antt =====
-- `_location`: the file offset that is patched and the place that dyld is told are the same byte.
use il2cppapk2ios.Phase3.{Config, slide, ImageSegment, Location}
use il2cppapk2ios.Common.{ℕ, ◌+◌, ◌≤◌, ◌<◌, ◌≡◌, List, get_elem?, some}

-- The place `at` of an address: the segment with that number holds the address, in its file-backed
-- part, and both offsets lead to it.
pub record IsPlaceOf (c : Config) (segs : List ImageSegment) (vaddr : ℕ) (at : Location)
    : Type 0 where
  pub segment : ImageSegment
  pub found : get_elem? segs at.segment_index ≡ some segment
  pub from : segment.elf_vaddr ≤ vaddr
  pub below : vaddr < segment.elf_vaddr + segment.elf_filesz
  pub memory : segment.vmaddr + at.segment_offset ≡ slide c + vaddr
  pub file : segment.fileoff + at.segment_offset ≡ at.output_offset
  pub inside : at.output_offset < segment.fileoff + segment.filesize

-- The same with the segments numbered from `index` on.
record IsPlaceFrom (c : Config) (index : ℕ) (segs : List ImageSegment) (vaddr : ℕ) (at : Location)
    : Type 0 where
  number : ℕ
  numbered : at.segment_index ≡ index + number
  segment : ImageSegment
  found : get_elem? segs number ≡ some segment
  from : segment.elf_vaddr ≤ vaddr
  below : vaddr < segment.elf_vaddr + segment.elf_filesz
  memory : segment.vmaddr + at.segment_offset ≡ slide c + vaddr
  file : segment.fileoff + at.segment_offset ≡ at.output_offset
  inside : at.output_offset < segment.fileoff + segment.filesize
