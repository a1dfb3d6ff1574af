-- ===== src/Phase2.antt =====
-- src/il2cppapk2ios/translate.py: the older translation, which leaves imports unresolved. This file
-- has the layout and the place of an address; the children hold the relocation loop and the image.
pub mod Loop
pub mod Translate
pub mod Layout
pub mod Words
pub mod Tests
use il2cppapk2ios.Align.{align, floor}
use il2cppapk2ios.Elf.{Elf64, ProgramHeader, em_aarch64, et_dyn}
use il2cppapk2ios.Phase3.{has_flag, mach_prot}
use il2cppapk2ios.Common.{
  ℕ, ◌+◌, ◌-◌, ltb, leb, ◌==◌, Bool, ◌&&◌, not, List, [], ◌∷◌, ◌++◌, if◌then◌else◌,
}
use il2cppapk2ios.Common.Outcome.{
  Outcome, ok, err, ◌>>=◌, ◌>>◌, raise_if, supports_aarch64_only, expects_et_dyn, no_pt_load,
  target_not_file_backed,
}
use il2cppapk2ios.Common.Text.{codes, decimal}

-- The keyword arguments of the constructor.
pub record LoadConfig : Type 0 where
  pub header_vm : ℕ
  pub slide : ℕ
  pub page_size : ℕ

-- HEADER_VM, ELF_SLIDE and IOS_PAGE
abbrev pub default_load_config : LoadConfig
default_load_config = record { header_vm = 0x100000000; slide = 0x100010000; page_size = 0x4000 }

pub record MappedLoad : Type 0 where
  pub name : List ℕ
  pub vmaddr : ℕ
  pub vmsize : ℕ
  pub fileoff : ℕ
  pub filesize : ℕ
  pub maxprot : ℕ
  pub initprot : ℕ
  pub delta : ℕ
  pub elf_vaddr : ℕ
  pub elf_offset : ℕ
  pub elf_filesz : ℕ
  pub elf_memsz : ℕ

-- new_vm - vm_floor
unfoldable pub load_delta : LoadConfig → ProgramHeader → ℕ
unfolding floor
load_delta c ph = c.slide + ph.vaddr - floor (c.slide + ph.vaddr) c.page_size

unfoldable pub load_name : ℕ → ℕ → List ℕ
unfolding decimal
load_name index flags =
    if has_flag flags 1
    then codes "__ELF_TEXT"
    else if has_flag flags 2
    then codes "__ELF_DATA"
    else codes "__ELF_" ++ decimal index

-- One PT_LOAD, from the file offset `cursor` on.
unfoldable pub map_load : LoadConfig → ℕ → ℕ → ProgramHeader → MappedLoad
unfolding align floor load_delta load_name mach_prot
map_load c index cursor ph = record {
  name = load_name index ph.flags;
  vmaddr = floor (c.slide + ph.vaddr) c.page_size;
  vmsize = align (load_delta c ph + ph.memsz) c.page_size;
  fileoff = align cursor c.page_size;
  filesize = load_delta c ph + ph.filesz;
  maxprot = mach_prot ph.flags;
  initprot = mach_prot ph.flags;
  delta = load_delta c ph;
  elf_vaddr = ph.vaddr;
  elf_offset = ph.offset;
  elf_filesz = ph.filesz;
  elf_memsz = ph.memsz;
}

-- The loop over the program headers; `index` counts the PT_LOADs only.
unfoldable pub map_from : LoadConfig → ℕ → ℕ → List ProgramHeader → List MappedLoad
unfolding map_load load_delta align
map_from c index cursor [] = []
map_from c index cursor (ph ∷ phs) =
    let skipped = map_from c index cursor phs in
    let taken =
      map_from c (index + 1)
        (align (align cursor c.page_size + load_delta c ph + ph.filesz) c.page_size) phs in
    if ph.p_type == 1 then map_load c index cursor ph ∷ taken else skipped

abbrev pub non_empty : List MappedLoad → Outcome (List MappedLoad)
non_empty [] = err no_pt_load
non_empty (load ∷ loads) = ok (load ∷ loads)

-- `_map_loads`
unfoldable pub map_loads : LoadConfig → Elf64 → Outcome (List MappedLoad)
unfolding map_from
map_loads c elf = non_empty (map_from c 0 c.page_size elf.program_headers)

-- `Phase2Translator(elf, ...)`
unfoldable pub init_phase2 : LoadConfig → Elf64 → Outcome (List MappedLoad)
unfolding map_loads
init_phase2 c elf = do
  raise_if (not (elf.header.e_machine == em_aarch64)) supports_aarch64_only
  raise_if (not (elf.header.e_type == et_dyn)) expects_et_dyn
  map_loads c elf

abbrev pub holds : MappedLoad → ℕ → Bool
holds seg vaddr = leb seg.elf_vaddr vaddr && ltb vaddr (seg.elf_vaddr + seg.elf_filesz)

-- `_vaddr_to_output_offset`
unfoldable pub output_offset_of : List MappedLoad → ℕ → Outcome ℕ
output_offset_of [] vaddr = err (target_not_file_backed vaddr)
output_offset_of (seg ∷ segs) vaddr =
    let rest = output_offset_of segs vaddr in
    if holds seg vaddr then ok (seg.fileoff + seg.delta + (vaddr - seg.elf_vaddr)) else rest
