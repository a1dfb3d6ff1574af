-- ===== src/Phase3/Tests/Loop.antt =====
-- The theorems on the layout and the relocation loop at a small shared object.
use il2cppapk2ios.Elf.{ProgramHeader}
use il2cppapk2ios.Elf.Relocations.{Relocation}
use il2cppapk2ios.Elf.Symbols.{Symbol}
use il2cppapk2ios.Phase3.{Config, ImageSegment, layout_loads}
use il2cppapk2ios.Phase3.Layout.{IsPlaced, FileOrdered, layout-IsPlaced}
use il2cppapk2ios.Phase3.Memory.{MemoryOrdered, PagesApart, layout-MemoryOrdered}
use il2cppapk2ios.Elf.Tests.{sample_elf}
use il2cppapk2ios.Phase3.Translate.{data_end, start_fixups}
use il2cppapk2ios.Phase3.Copies.{IsCopied, start_fixups-IsCopied}
use il2cppapk2ios.Phase3.Fixups.{Fixups, fix_all}
use il2cppapk2ios.Phase3.Relocate.{
  Succeeds, IsFixable, fix_all_succeeds_iff, Accounts, fix_all-Accounts, fix_all-header,
}
use il2cppapk2ios.Common.{◌≡◌, ◌↔◌, refl, List, [], ◌∷◌, All, replicate, ◌++◌, length, arith}
use il2cppapk2ios.Struct.{le_bytes, slice}
use il2cppapk2ios.Common.Int.{pos}
use il2cppapk2ios.Common.Outcome.{ok}
use il2cppapk2ios.Common.Text.{codes}

abbrev config : Config
config = record { image_base = 0; header_reserve = 16; page_size = 16 }

abbrev loads : List ProgramHeader
loads =
    record { p_type = 1; flags = 5; offset = 0; vaddr = 0; filesz = 20; memsz = 20; align = 16 }
    ∷ (record {
      p_type = 1;
      flags = 6;
      offset = 20;
      vaddr = 36;
      filesz = 24;
      memsz = 40;
      align = 16;
    }
        ∷ [])

abbrev text : ImageSegment
text = record {
  name = codes "__TEXT";
  vmaddr = 0;
  vmsize = 48;
  fileoff = 0;
  filesize = 36;
  protection = 5;
  elf_vaddr = 0;
  elf_offset = 0;
  elf_filesz = 20;
  elf_memsz = 20;
  data_addr = 16;
  data_fileoff = 16;
  data_size = 20;
  section_name = codes "__elf_rx";
}

abbrev data_segment : ImageSegment
data_segment = record {
  name = codes "__ELF_DATA";
  vmaddr = 48;
  vmsize = 48;
  fileoff = 48;
  filesize = 28;
  protection = 3;
  elf_vaddr = 36;
  elf_offset = 20;
  elf_filesz = 24;
  elf_memsz = 40;
  data_addr = 52;
  data_fileoff = 52;
  data_size = 24;
  section_name = codes "__elf_rw";
}

abbrev segments : List ImageSegment
segments = text ∷ (data_segment ∷ [])

layout_run : layout_loads config loads ≡ ok segments
unfolding layout_loads
layout_run = refl

layout-IsPlaced_example : All (IsPlaced config) segments × FileOrdered 0 segments
layout-IsPlaced_example = layout-IsPlaced config 4 refl loads segments refl layout_run

abbrev symbols : List Symbol
symbols =
    record { name = []; info = 0; other = 0; shndx = 0; value = 0; size = 0 }
    ∷ (record { name = codes "puts"; info = 18; other = 0; shndx = 0; value = 0; size = 0 }
        ∷ (record { name = codes "foo"; info = 18; other = 0; shndx = 1; value = 4; size = 8 }
            ∷ []))

abbrev rebased : Relocation
rebased = record { offset = 36; type = 257; symbol_index = 2; addend = pos 1 }

abbrev imported : Relocation
imported = record { offset = 44; type = 1026; symbol_index = 1; addend = pos 0 }

abbrev before : Fixups
before = record {
  image = replicate 80 0;
  rebases = [];
  bindings = [];
  patched = record {
    relative = 0;
    internal_abs64 = 0;
    internal_glob_dat = 0;
    internal_jump_slot = 0;
  };
}

abbrev between : Fixups
between = record before {
  image = replicate 52 0 ++ (21 ∷ replicate 27 0);
  rebases = (1, 4) ∷ [];
  patched = record {
    relative = 0;
    internal_abs64 = 1;
    internal_glob_dat = 0;
    internal_jump_slot = 0;
  };
}

abbrev after : Fixups
after = record between {
  bindings =
      record {
        offset = 44;
        type = 1026;
        symbol = codes "puts";
        shim_symbol = codes "_a2i_puts";
        symbol_type = 2;
        segment_index = 1;
        segment_offset = 12;
        addend = pos 0;
      }
      ∷ [];
}

all_run :
    fix_all config segments symbols (codes "_a2i_") (rebased ∷ (imported ∷ [])) before ≡ ok after
unfolding fix_all
all_run = refl

fix_all-Accounts_example : Accounts 2 before after
fix_all-Accounts_example =
    fix_all-Accounts config segments symbols (codes "_a2i_") (rebased ∷ (imported ∷ [])) before
      after all_run

start_fixups-IsCopied_example :
    (length (start_fixups config sample_elf segments).image ≡ data_end config segments)
    × All (IsCopied sample_elf.bytes (start_fixups config sample_elf segments).image) segments
unfolding le_bytes
start_fixups-IsCopied_example =
    start_fixups-IsCopied config 4 refl sample_elf segments layout-IsPlaced_example.0
      layout-IsPlaced_example.1 (omega arith, (omega arith, tt))

layout-MemoryOrdered_example : MemoryOrdered segments ↔ PagesApart config loads
layout-MemoryOrdered_example = layout-MemoryOrdered config 4 refl loads segments refl layout_run

fix_all-header_example : slice 0 16 after.image ≡ slice 0 16 before.image
fix_all-header_example =
    fix_all-header config 4 refl loads segments symbols (codes "_a2i_") (rebased ∷ (imported ∷ []))
      before after layout_run all_run

fix_all_succeeds_iff_example :
    Succeeds (fix_all config segments symbols (codes "_a2i_") (rebased ∷ (imported ∷ [])) before)
    ↔ All (IsFixable segments symbols (length before.image)) (rebased ∷ (imported ∷ []))
fix_all_succeeds_iff_example =
    fix_all_succeeds_iff config segments symbols (codes "_a2i_") (rebased ∷ (imported ∷ [])) before
