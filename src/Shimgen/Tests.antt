-- ===== src/Shimgen/Tests.antt =====
-- The shim for the imports of a small shared object.
use il2cppapk2ios.Elf.{ProgramHeader}
use il2cppapk2ios.Elf.Tests.{sample_elf}
use il2cppapk2ios.Shimgen.{ShimRecord, records, direct_names, category_of, trap, direct}
use il2cppapk2ios.Shimgen.Traps.{escaped, read_quoted, read_quoted-escaped}
use il2cppapk2ios.Shimgen.Coverage.{IsImport, records_iff}
use il2cppapk2ios.Shimgen.Phdr.{c_entry, phdr_entry, read_parts, read_parts-phdr_entry}
use il2cppapk2ios.Shimgen.Manifest.{manifest}
use il2cppapk2ios.Shimgen.Manifest.Counts.{sum_of, number_of, sum_of-manifest}
use il2cppapk2ios.Common.{ℕ, ◌≡◌, ◌↔◌, true, refl, List, [], ◌∷◌, ◌++◌, map, some}
use il2cppapk2ios.Common.Digits.{decimal, hexadecimal}
use il2cppapk2ios.Common.Text.{codes, is_in, text_eq}
use il2cppapk2ios.Struct.{le_bytes}

-- `puts` is in none of the tables.
records-sample : direct_names (records sample_elf) ≡ []
unfolding direct_names records le_bytes
records-sample = refl

category_of-tables :
    map (λ (name : List ℕ). category_of name (codes "func")) (codes "malloc" ∷ (codes "puts" ∷ []))
    ≡ direct ∷ (trap ∷ [])
unfolding category_of
category_of-tables = refl

records_iff_example :
    (is_in (codes "puts") (map (λ (r : ShimRecord). r.name) (records sample_elf)) ≡ true)
    ↔ IsImport sample_elf (codes "puts")
records_iff_example = records_iff sample_elf (codes "puts")

-- A name with a quote and a backslash.
read_quoted-escaped_example :
    read_quoted (escaped (0x61 ∷ (0x22 ∷ (0x5C ∷ []))) ++ (0x22 ∷ (10 ∷ [])))
    ≡ some (0x61 ∷ (0x22 ∷ (0x5C ∷ [])), 10 ∷ [])
read_quoted-escaped_example = read_quoted-escaped (0x61 ∷ (0x22 ∷ (0x5C ∷ []))) (10 ∷ [])

abbrev code_load : ProgramHeader
code_load = record {
  p_type = 1;
  flags = 5;
  offset = 0;
  vaddr = 0;
  filesz = 432;
  memsz = 432;
  align = 4096;
}

phdr_entry-code_load :
    phdr_entry code_load
    ≡ codes "    {1u, 5u, 0x0ULL, 0x0ULL, 0x0ULL, 0x1b0ULL, 0x1b0ULL, 0x1000ULL},"
unfolding phdr_entry decimal hexadecimal
phdr_entry-code_load = refl

read_parts-phdr_entry_example :
    read_parts c_entry (phdr_entry code_load ++ (10 ∷ []))
    ≡ some (1 ∷ (5 ∷ (0 ∷ (0 ∷ (0 ∷ (432 ∷ (432 ∷ (4096 ∷ []))))))), 10 ∷ [])
read_parts-phdr_entry_example = read_parts-phdr_entry code_load (10 ∷ [])

sum_of-manifest_example :
    sum_of (text_eq (codes "trap")) (manifest (codes "in") sample_elf).counts
    ≡ number_of (text_eq (codes "trap")) (manifest (codes "in") sample_elf).imports
sum_of-manifest_example = sum_of-manifest (text_eq (codes "trap")) (codes "in") sample_elf
