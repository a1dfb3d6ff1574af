-- ===== src/Elf/Report.antt =====
-- `report` of src/il2cppapk2ios/elf.py. The entry point is kept as a number; `hex` formats it.
use mathlib.Core.Bool.{◌&&◌, not}
use il2cppapk2ios.Elf.{Elf64, em_aarch64, et_dyn}
use il2cppapk2ios.Elf.Relocations.{relocation_counts}
use il2cppapk2ios.Elf.Symbols.{undefined_symbols, needed_libraries, android_specific_imports}
use il2cppapk2ios.Common.{ℕ, ◌==◌, Bool, true, false, List, [], ◌∷◌, length, map}
use il2cppapk2ios.Common.Text.{is_in, codes, select}

pub record ElfReport : Type 0 where
  pub source : List ℕ
  pub elf64 : Bool
  pub machine : ℕ
  pub is_aarch64 : Bool
  pub type : ℕ
  pub is_shared_object : Bool
  pub entry : ℕ
  pub program_headers : ℕ
  pub sections : ℕ
  pub needed : List (List ℕ)
  pub undefined_import_count : ℕ
  pub android_specific_import_count : ℕ
  pub android_specific_imports : List (List ℕ)
  pub relocations : List (List ℕ × ℕ)
  pub unknown_relocation_types : List (List ℕ)
  pub phase1_candidate : Bool

-- AARCH64_RELOCS.values()
abbrev pub known_relocations : List (List ℕ)
known_relocations =
    codes "R_AARCH64_ABS64"
    ∷ (codes "R_AARCH64_GLOB_DAT"
        ∷ (codes "R_AARCH64_JUMP_SLOT" ∷ (codes "R_AARCH64_RELATIVE" ∷ [])))

unfoldable pub unknown_relocations : List (List ℕ × ℕ) → List (List ℕ)
unfolding select is_in
unknown_relocations counts =
    select (λ name. not (is_in name known_relocations)) (map (λ (c : List ℕ × ℕ). c.0) counts)

unfoldable pub no_names : List (List ℕ) → Bool
no_names [] = true
no_names (name ∷ names) = false

unfoldable pub report : Elf64 → ElfReport
unfolding undefined_symbols android_specific_imports relocation_counts unknown_relocations
    needed_libraries no_names
report elf =
    let counts = relocation_counts elf in
    let unknown = unknown_relocations counts in
    record {
      source = elf.source;
      elf64 = true;
      machine = elf.header.e_machine;
      is_aarch64 = elf.header.e_machine == em_aarch64;
      type = elf.header.e_type;
      is_shared_object = elf.header.e_type == et_dyn;
      entry = elf.header.e_entry;
      program_headers = length elf.program_headers;
      sections = length elf.sections;
      needed = needed_libraries elf;
      undefined_import_count = length (undefined_symbols elf);
      android_specific_import_count = length (android_specific_imports elf);
      android_specific_imports = android_specific_imports elf;
      relocations = counts;
      unknown_relocation_types = unknown;
      phase1_candidate =
          (elf.header.e_machine == em_aarch64)
          && ((elf.header.e_type == et_dyn) && no_names unknown);
    }
