-- ===== src/Phase2/Tests.antt =====
-- The theorems on translate.py at a small shared object.
use il2cppapk2ios.Elf.{Elf64}
use il2cppapk2ios.Elf.Relocations.{Relocation}
use il2cppapk2ios.Elf.Symbols.{Symbol}
use il2cppapk2ios.Elf.Tests.{sample_elf}
use il2cppapk2ios.Phase2.{LoadConfig, MappedLoad, map_loads}
use il2cppapk2ios.Phase2.Layout.{IsMapped, LoadsOrdered, map_loads-IsMapped}
use il2cppapk2ios.Phase2.Loop.{Relocated, relocate_all}
use il2cppapk2ios.Phase2.Words.{relocate_all-total}
use il2cppapk2ios.Phase3.Relocate.{total}
use il2cppapk2ios.Common.{◌+◌, ◌≡◌, refl, List, [], ◌∷◌, All, replicate, ◌++◌, length}
use il2cppapk2ios.Common.Int.{pos}
use il2cppapk2ios.Common.Outcome.{ok}
use il2cppapk2ios.Common.Text.{codes}

abbrev load_config : LoadConfig
load_config = record { header_vm = 0; slide = 32; page_size = 16 }

abbrev two_loads : Elf64
two_loads = record sample_elf {
  program_headers =
      record { p_type = 6; flags = 4; offset = 0; vaddr = 0; filesz = 8; memsz = 8; align = 8 }
      ∷ (record {
        p_type = 1;
        flags = 5;
        offset = 0;
        vaddr = 0;
        filesz = 20;
        memsz = 20;
        align = 16;
      }
          ∷ (record {
            p_type = 1;
            flags = 6;
            offset = 20;
            vaddr = 36;
            filesz = 24;
            memsz = 40;
            align = 16;
          }
              ∷ []));
}

abbrev text_load : MappedLoad
text_load = record {
  name = codes "__ELF_TEXT";
  vmaddr = 32;
  vmsize = 32;
  fileoff = 16;
  filesize = 20;
  maxprot = 5;
  initprot = 5;
  delta = 0;
  elf_vaddr = 0;
  elf_offset = 0;
  elf_filesz = 20;
  elf_memsz = 20;
}

abbrev data_load : MappedLoad
data_load = record {
  name = codes "__ELF_DATA";
  vmaddr = 64;
  vmsize = 48;
  fileoff = 48;
  filesize = 28;
  maxprot = 3;
  initprot = 3;
  delta = 4;
  elf_vaddr = 36;
  elf_offset = 20;
  elf_filesz = 24;
  elf_memsz = 40;
}

abbrev loads : List MappedLoad
loads = text_load ∷ (data_load ∷ [])

map_run : map_loads load_config two_loads ≡ ok loads
unfolding map_loads
map_run = refl

map_loads-IsMapped_example : All (IsMapped load_config) loads × LoadsOrdered 16 loads
map_loads-IsMapped_example = map_loads-IsMapped load_config 4 refl two_loads loads map_run

abbrev symbols : List Symbol
symbols =
    record { name = codes "puts"; info = 18; other = 0; shndx = 0; value = 0; size = 0 }
    ∷ (record { name = codes "foo"; info = 18; other = 0; shndx = 1; value = 4; size = 8 } ∷ [])

abbrev defined : Relocation
defined = record { offset = 36; type = 1025; symbol_index = 1; addend = pos 1 }

abbrev left : Relocation
left = record { offset = 44; type = 1026; symbol_index = 0; addend = pos 0 }

abbrev blank : Relocated
blank = record {
  image = replicate 80 0;
  patched = record {
    relative = 0;
    internal_abs64 = 0;
    internal_glob_dat = 0;
    internal_jump_slot = 0;
  };
  unresolved = [];
}

abbrev written : Relocated
written = record blank {
  image = replicate 52 0 ++ (37 ∷ replicate 27 0);
  patched = record {
    relative = 0;
    internal_abs64 = 0;
    internal_glob_dat = 1;
    internal_jump_slot = 0;
  };
}

abbrev finished : Relocated
finished = record written {
  unresolved = record { offset = 44; type = 1026; symbol = codes "puts"; addend = pos 0 } ∷ [];
}

all_run : relocate_all load_config loads symbols (defined ∷ (left ∷ [])) blank ≡ ok finished
unfolding relocate_all
all_run = refl

relocate_all-total_example :
    (length finished.image ≡ length blank.image)
    × (total finished.patched + length finished.unresolved
        ≡ 2 + total blank.patched + length blank.unresolved)
relocate_all-total_example =
    relocate_all-total load_config loads symbols (defined ∷ (left ∷ [])) blank finished all_run
