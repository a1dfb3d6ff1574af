-- ===== src/Phase2/Translate.antt =====
-- `Phase2Translator.translate` of src/il2cppapk2ios/translate.py: the image, its commands and the
-- report. Writing the file is not modelled: the bytes are part of the result.
use il2cppapk2ios.Align.{align}
use il2cppapk2ios.Elf.{Elf64}
use il2cppapk2ios.Elf.Symbols.{dynamic_symbols}
use il2cppapk2ios.Elf.Relocations.{relocations}
use il2cppapk2ios.Phase2.{LoadConfig, MappedLoad}
use il2cppapk2ios.Phase2.Loop.{Relocated, Unresolved, relocate_all}
use il2cppapk2ios.Phase3.Commands.{Version, dylib_command, build_version_command}
use il2cppapk2ios.Phase3.Fixups.{Patched}
use il2cppapk2ios.Phase3.Translate.{no_patches, join}
use il2cppapk2ios.Common.{
  ℕ, ◌+◌, ◌-◌, max, ltb, Bool, true, false, List, [], ◌∷◌, ◌++◌, length, map,
}
use il2cppapk2ios.Common.Outcome.{
  Outcome, ok, ◌>>=◌, ◌>>◌, raise_if, struct_error, load_commands_too_large,
}
use il2cppapk2ios.Common.Text.{codes, sorted_set, select}
use il2cppapk2ios.Struct.{Bytes, slice, splice, zeros}
use il2cppapk2ios.Struct.Pack.{u32, i32, u64, s16, pack}

unfoldable pub loads_end : LoadConfig → List MappedLoad → ℕ
unfolding align
loads_end c [] = 0
loads_end c (seg ∷ segs) = max (align (seg.fileoff + seg.filesize) c.page_size) (loads_end c segs)

-- The copy of every PT_LOAD into the image.
unfoldable pub copy_loads : Bytes → List MappedLoad → Bytes → Bytes
unfolding slice splice
copy_loads bytes [] image = image
copy_loads bytes (seg ∷ segs) image =
    let dst = seg.fileoff + seg.delta in
    copy_loads bytes segs (
      splice image dst (dst + seg.elf_filesz)
        (slice seg.elf_offset (seg.elf_offset + seg.elf_filesz) bytes))

unfoldable pub start_image : LoadConfig → Elf64 → List MappedLoad → Relocated
unfolding copy_loads loads_end
start_image c elf loads = record {
  image = copy_loads elf.bytes loads (zeros (loads_end c loads));
  patched = no_patches;
  unresolved = [];
}

-- `_segment_command`; a segment name is ASCII, so its code points are its bytes.
unfoldable pub segment_command : MappedLoad → Outcome Bytes
unfolding pack
segment_command seg = pack (
    u32 0x19
    ∷ (u32 72
        ∷ (s16 seg.name
            ∷ (u64 seg.vmaddr
                ∷ (u64 seg.vmsize
                    ∷ (u64 seg.fileoff
                        ∷ (u64 seg.filesize
                            ∷ (i32 seg.maxprot ∷ (i32 seg.initprot ∷ (u32 0 ∷ (u32 0 ∷ [])))))))))))

unfoldable pub load_commands : List MappedLoad → Outcome (List Bytes)
unfolding segment_command
load_commands [] = ok []
load_commands (seg ∷ segs) = do
  head ← segment_command seg
  tail ← load_commands segs
  ok (head ∷ tail)

-- `header_seg`
abbrev pub header_load : LoadConfig → MappedLoad
header_load c = record {
  name = codes "__HEADER";
  vmaddr = c.header_vm;
  vmsize = c.slide - c.header_vm;
  fileoff = 0;
  filesize = c.page_size;
  maxprot = 1;
  initprot = 1;
  delta = 0;
  elf_vaddr = 0;
  elf_offset = 0;
  elf_filesz = 0;
  elf_memsz = 0;
}

-- A slide below the header makes the size negative, which the format Q refuses.
unfoldable pub command_list : LoadConfig → List ℕ → Version → List MappedLoad → Outcome (List Bytes)
unfolding segment_command load_commands dylib_command build_version_command
command_list c install_name min_ios loads = do
  raise_if (ltb c.slide c.header_vm) struct_error
  head ← segment_command (header_load c)
  segments ← load_commands loads
  id ← dylib_command 0x0D install_name
  version ← build_version_command min_ios
  ok (head ∷ (segments ++ (id ∷ (version ∷ []))))

-- MH_MAGIC_64, CPU_TYPE_ARM64, CPU_SUBTYPE_ARM64_ALL and MH_DYLIB, with no flags
unfoldable pub phase2_header : ℕ → ℕ → Outcome Bytes
unfolding pack
phase2_header ncmds sizeofcmds = pack (
    u32 0xFEEDFACF
    ∷ (i32 0x0100000C
        ∷ (i32 0 ∷ (u32 6 ∷ (u32 ncmds ∷ (u32 sizeofcmds ∷ (u32 0 ∷ (u32 0 ∷ []))))))))

-- The two slice assignments of the header page.
unfoldable pub place_header : Bytes → Bytes → Bytes → Bytes
unfolding splice
place_header header commands image =
    let with_header = splice image 0 (length header) header in
    splice with_header (length header) (length header + length commands) commands

abbrev pub is_named : List ℕ → Bool
is_named [] = false
is_named (c ∷ cs) = true

-- sorted({item["symbol"] for item in unresolved if item["symbol"]})
unfoldable pub unresolved_symbols : List Unresolved → List (List ℕ)
unfolding select sorted_set
unresolved_symbols items = sorted_set (select is_named (map (λ (u : Unresolved). u.symbol) items))

-- The file and what the report says of it.
pub record Phase2Translation : Type 0 where
  pub output : Bytes
  pub segments : List MappedLoad
  pub patched : Patched
  pub unresolved : List Unresolved
  pub unresolved_symbols : List (List ℕ)

unfoldable pub translate_phase2 :
    LoadConfig → List ℕ → Version → Elf64 → List MappedLoad → Outcome Phase2Translation
unfolding dynamic_symbols relocations relocate_all start_image command_list phase2_header join
    place_header unresolved_symbols
translate_phase2 c install_name min_ios elf loads = do
  done ← relocate_all c loads (dynamic_symbols elf) (relocations elf) (start_image c elf loads)
  commands ← command_list c install_name min_ios loads
  header ← phase2_header (length commands) (length (join commands))
  raise_if (ltb c.page_size (length header + length (join commands))) load_commands_too_large
  ok (record {
    output = place_header header (join commands) done.image;
    segments = loads;
    patched = done.patched;
    unresolved = done.unresolved;
    unresolved_symbols = unresolved_symbols done.unresolved;
  })
