-- ===== src/Phase3.antt =====
-- src/il2cppapk2ios/phase3.py: the layout of the Mach-O image and the places of addresses in it.
-- The children hold the load commands, the dyld streams, the relocation loop and the whole
-- translation.
pub mod Commands
pub mod Streams
pub mod Fixups
pub mod Translate
pub mod Layout
pub mod Memory
pub mod Places
pub mod Copies
pub mod Loadable
pub mod Named
pub mod Output
pub mod Rebase
pub mod Bind
pub mod Relocate
pub mod Shim
pub mod Tests
use il2cppapk2ios.Align.{align, floor}
use il2cppapk2ios.Elf.{Elf64, ProgramHeader, em_aarch64, et_dyn}
use il2cppapk2ios.Common.{
  ℕ, zero, suc, ◌+◌, ◌-◌, ltb, leb, ◌==◌, Bool, ◌&&◌, ◌||◌, not, List, [], ◌∷◌, ◌++◌, if◌then◌else◌,
  bit_and, bit_or, Option, none, some,
}
use il2cppapk2ios.Common.Outcome.{
  Outcome, ok, err, ◌>>=◌, ◌>>◌, raise_if, supports_aarch64_only, expects_et_dyn, no_pt_load,
  first_pt_load_not_rx_at_zero, target_not_file_backed,
}
use il2cppapk2ios.Common.Text.{codes, decimal, select}

-- The keyword arguments of the constructor.
pub record Config : Type 0 where
  pub image_base : ℕ
  pub header_reserve : ℕ
  pub page_size : ℕ

abbrev pub slide : Config → ℕ
slide c = c.image_base + c.header_reserve

-- IMAGE_BASE, HEADER_RESERVE and IOS_PAGE
abbrev pub default_config : Config
default_config = record { image_base = 0; header_reserve = 0x10000; page_size = 0x4000 }

pub record ImageSegment : Type 0 where
  pub name : List ℕ
  pub vmaddr : ℕ
  pub vmsize : ℕ
  pub fileoff : ℕ
  pub filesize : ℕ
  pub protection : ℕ
  pub elf_vaddr : ℕ
  pub elf_offset : ℕ
  pub elf_filesz : ℕ
  pub elf_memsz : ℕ
  pub data_addr : ℕ
  pub data_fileoff : ℕ
  pub data_size : ℕ
  pub section_name : List ℕ

abbrev pub has_flag : ℕ → ℕ → Bool
has_flag flags bit = not (bit_and flags bit == 0)

-- PF_R, PF_W and PF_X are 4, 2 and 1; VM_PROT_READ, VM_PROT_WRITE and VM_PROT_EXECUTE 1, 2 and 4.
unfoldable pub mach_prot : ℕ → ℕ
mach_prot flags =
    let read = if has_flag flags 4 then bit_or 0 1 else 0 in
    let write = if has_flag flags 2 then bit_or read 2 else read in
    if has_flag flags 1 then bit_or write 4 else write

unfoldable pub is_load : ProgramHeader → Bool
is_load ph = ph.p_type == 1

unfoldable pub text_segment : Config → ProgramHeader → ImageSegment
unfolding align
text_segment c first = record {
  name = codes "__TEXT";
  vmaddr = c.image_base;
  vmsize = align (c.header_reserve + first.memsz) c.page_size;
  fileoff = 0;
  filesize = c.header_reserve + first.filesz;
  protection = bit_or 1 4;
  elf_vaddr = first.vaddr;
  elf_offset = first.offset;
  elf_filesz = first.filesz;
  elf_memsz = first.memsz;
  data_addr = slide c;
  data_fileoff = c.header_reserve;
  data_size = first.filesz;
  section_name = codes "__elf_rx";
}

-- The distance from the start of its page to the new address of a PT_LOAD.
unfoldable pub page_delta : Config → ProgramHeader → ℕ
unfolding floor
page_delta c ph = slide c + ph.vaddr - floor (slide c + ph.vaddr) c.page_size

-- The segment for `loads[index]`, `index` not 0, from the file offset `cursor` on.
unfoldable pub load_segment : Config → ℕ → ℕ → ProgramHeader → ImageSegment
unfolding align floor page_delta mach_prot decimal
load_segment c index cursor ph = record {
  name = if has_flag ph.flags 2 then codes "__ELF_DATA" else codes "__ELF_" ++ decimal index;
  vmaddr = floor (slide c + ph.vaddr) c.page_size;
  vmsize = align (page_delta c ph + ph.memsz) c.page_size;
  fileoff = align cursor c.page_size;
  filesize = page_delta c ph + ph.filesz;
  protection = mach_prot ph.flags;
  elf_vaddr = ph.vaddr;
  elf_offset = ph.offset;
  elf_filesz = ph.filesz;
  elf_memsz = ph.memsz;
  data_addr = slide c + ph.vaddr;
  data_fileoff = align cursor c.page_size + page_delta c ph;
  data_size = ph.filesz;
  section_name = if has_flag ph.flags 2 then codes "__elf_rw" else codes "__elf_" ++ decimal index;
}

-- The cursor after a segment.
unfoldable pub next_cursor : Config → ℕ → ProgramHeader → ℕ
unfolding align page_delta
next_cursor c cursor ph = align (align cursor c.page_size + page_delta c ph + ph.filesz) c.page_size

unfoldable pub load_segments : Config → ℕ → ℕ → List ProgramHeader → List ImageSegment
unfolding load_segment next_cursor
load_segments c index cursor [] = []
load_segments c index cursor (ph ∷ phs) =
    load_segment c index cursor ph ∷ load_segments c (index + 1) (next_cursor c cursor ph) phs

unfoldable pub layout_loads : Config → List ProgramHeader → Outcome (List ImageSegment)
unfolding text_segment load_segments align
layout_loads c [] = err no_pt_load
layout_loads c (first ∷ others) = do
  raise_if (not (first.vaddr == 0) || not (has_flag first.flags 1)) first_pt_load_not_rx_at_zero
  ok (
      text_segment c first
      ∷ load_segments c 1 (align (c.header_reserve + first.filesz) c.page_size) others)

-- `_layout_segments`
unfoldable pub layout_segments : Config → Elf64 → Outcome (List ImageSegment)
unfolding layout_loads select is_load
layout_segments c elf = layout_loads c (select is_load elf.program_headers)

-- `Phase3Translator(elf, ...)`: the segments that it keeps.
unfoldable pub init : Config → Elf64 → Outcome (List ImageSegment)
unfolding layout_segments
init c elf = do
  raise_if (not (elf.header.e_machine == em_aarch64)) supports_aarch64_only
  raise_if (not (elf.header.e_type == et_dyn)) expects_et_dyn
  layout_segments c elf

pub record Location : Type 0 where
  pub segment_index : ℕ
  pub output_offset : ℕ
  pub segment_offset : ℕ

abbrev pub is_backed : ImageSegment → ℕ → Bool
is_backed seg vaddr = leb seg.elf_vaddr vaddr && ltb vaddr (seg.elf_vaddr + seg.elf_filesz)

-- The loop of `_location`, at the segment with number `index`. The difference does not go below 0
-- for the segments of a layout (Phase3/Places.antt).
unfoldable pub location_from : Config → ℕ → List ImageSegment → ℕ → Outcome Location
location_from c index [] vaddr = err (target_not_file_backed vaddr)
location_from c index (seg ∷ segs) vaddr =
    let rest = location_from c (index + 1) segs vaddr in
    if is_backed seg vaddr
    then ok (record {
      segment_index = index;
      output_offset = seg.data_fileoff + (vaddr - seg.elf_vaddr);
      segment_offset = slide c + vaddr - seg.vmaddr;
    })
    else rest

unfoldable pub location : Config → List ImageSegment → ℕ → Outcome Location
unfolding location_from
location c segments vaddr = location_from c 0 segments vaddr
