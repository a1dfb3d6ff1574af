-- ===== src/Elf/Tests.antt =====
-- A small AArch64 shared object, and what the parser of src/il2cppapk2ios/elf.py reads from it.
use il2cppapk2ios.Elf.{Elf64, SectionHeader, parse, parse_header}
use il2cppapk2ios.Elf.Relocations.{relocation_at, scan, relocation_counts}
use il2cppapk2ios.Elf.Parsing.{IsParsed, parse-IsParsed, get_elem?-scan, parse_overrun}
use il2cppapk2ios.Elf.Symbols.{dynamic_symbols, undefined_symbols, names_of}
use il2cppapk2ios.Common.{
  ℕ, ◌+◌, ◌*◌, ◌^◌, ◌≡◌, refl, arith, [], ◌∷◌, ◌++◌, length, take, get_elem?, some, none, ltb, leb,
  ◌&&◌, if◌then◌else◌,
}
use il2cppapk2ios.Common.Outcome.{ok, err, not_an_elf_file, struct_error}
use il2cppapk2ios.Common.Text.{codes}
use il2cppapk2ios.Struct.{Bytes, le_bytes, zeros}

abbrev pub sample_header : Bytes
sample_header =
    (0x7F ∷ (0x45 ∷ (0x4C ∷ (0x46 ∷ (2 ∷ (1 ∷ (1 ∷ [])))))))
    ++ (zeros 9
        ++ (le_bytes 2 3
            ++ (le_bytes 2 183
                ++ (le_bytes 4 1
                    ++ (le_bytes 8 0
                        ++ (le_bytes 8 64
                            ++ (le_bytes 8 304
                                ++ (le_bytes 4 0
                                    ++ (le_bytes 2 64
                                        ++ (le_bytes 2 56
                                            ++ (le_bytes 2 1
                                                ++ (le_bytes 2 64
                                                    ++ (le_bytes 2 3 ++ le_bytes 2 99)))))))))))))

abbrev sample_load : Bytes
sample_load =
    le_bytes 4 1
    ++ (le_bytes 4 7 ++ (zeros 24 ++ (le_bytes 8 496 ++ (le_bytes 8 512 ++ le_bytes 8 16))))

abbrev sample_symbol : ℕ → ℕ → ℕ → ℕ → Bytes
sample_symbol name info shndx value =
    le_bytes 4 name ++ (info ∷ (0 ∷ (le_bytes 2 shndx ++ (le_bytes 8 value ++ le_bytes 8 8))))

abbrev sample_rela : ℕ → ℕ → ℕ → ℕ → Bytes
sample_rela offset symbol type addend =
    le_bytes 8 offset ++ (le_bytes 8 (symbol * 2 ^ 32 + type) ++ le_bytes 8 addend)

abbrev sample_section : ℕ → ℕ → ℕ → ℕ → ℕ → Bytes
sample_section type offset size link entsize =
    le_bytes 4 0
    ++ (le_bytes 4 type
        ++ (le_bytes 8 2
            ++ (le_bytes 8 offset
                ++ (le_bytes 8 offset
                    ++ (le_bytes 8 size
                        ++ (le_bytes 4 link
                            ++ (le_bytes 4 0 ++ (le_bytes 8 8 ++ le_bytes 8 entsize))))))))

-- Symbols `puts`, which is imported, and `foo`, which is defined; one relocation of each kind that
-- the translators accept.
abbrev pub sample : Bytes
sample =
    sample_header
    ++ (sample_load
        ++ (zeros 24
            ++ (sample_symbol 1 0x12 0 0
                ++ (sample_symbol 6 0x12 1 0x10
                    ++ ((0 ∷ (codes "puts" ++ (0 ∷ (codes "foo" ++ zeros 7))))
                        ++ (sample_rela 280 0 1027 0x10
                            ++ (sample_rela 288 1 1026 0
                                ++ (sample_rela 296 2 1025 4
                                    ++ (zeros 24
                                        ++ (sample_section 11 120 72 1 24
                                            ++ (sample_section 3 192 16 0 0
                                                ++ sample_section 4 208 72 0 24)))))))))))

abbrev pub sample_elf : Elf64
sample_elf = record {
  bytes = sample;
  source = [];
  header = record {
    e_type = 3;
    e_machine = 183;
    e_version = 1;
    e_entry = 0;
    e_phoff = 64;
    e_shoff = 304;
    e_flags = 0;
    e_ehsize = 64;
    e_phentsize = 56;
    e_phnum = 1;
    e_shentsize = 64;
    e_shnum = 3;
    e_shstrndx = 99;
  };
  program_headers =
      record { p_type = 1; flags = 7; offset = 0; vaddr = 0; filesz = 496; memsz = 512; align = 16 }
      ∷ [];
  sections =
      section_at 11 120 72 1 24 ∷ (section_at 3 192 16 0 0 ∷ (section_at 4 208 72 0 24 ∷ []));
}
  where
    section_at : ℕ → ℕ → ℕ → ℕ → ℕ → SectionHeader
    section_at type offset size link entsize = record {
      name_off = 0;
      sh_type = type;
      flags = 2;
      addr = offset;
      offset = offset;
      size = size;
      link = link;
      info = 0;
      addralign = 8;
      entsize = entsize;
      name = [];
    }

parse-sample : parse sample [] ≡ ok sample_elf
unfolding parse le_bytes
parse-sample = refl

parse_short : parse (0x7F ∷ (0x45 ∷ [])) [] ≡ err not_an_elf_file
unfolding parse le_bytes
parse_short = refl

symbols_of_sample : names_of (dynamic_symbols sample_elf) ≡ [] ∷ (codes "puts" ∷ (codes "foo" ∷ []))
unfolding dynamic_symbols names_of le_bytes
symbols_of_sample = refl

undefined_symbols-sample : undefined_symbols sample_elf ≡ codes "puts" ∷ []
unfolding undefined_symbols le_bytes
undefined_symbols-sample = refl

relocation_counts-sample :
    relocation_counts sample_elf
    ≡ (codes "R_AARCH64_GLOB_DAT", 1)
      ∷ ((codes "R_AARCH64_JUMP_SLOT", 1) ∷ ((codes "R_AARCH64_RELATIVE", 1) ∷ []))
unfolding relocation_counts le_bytes
relocation_counts-sample = refl

parse-IsParsed_example : IsParsed sample [] sample_elf
parse-IsParsed_example = parse-IsParsed sample [] sample_elf parse-sample

-- The relocation table holds three entries of 24 bytes at offset 208.
get_elem?-scan_example : get_elem? (scan relocation_at sample 24 24 3 208) 1 ≡ (
    if ltb 1 3 && leb (208 + 1 * 24 + 24) (length sample)
    then some (relocation_at sample (208 + 1 * 24))
    else none)
get_elem?-scan_example = get_elem?-scan relocation_at sample 24 24 3 208 1

-- The sample without all that follows its first 100 bytes: the first program header is cut off.
parse_overrun_example : parse (take 100 sample) [] ≡ err struct_error
unfolding parse_header le_bytes
parse_overrun_example =
    parse_overrun (take 100 sample) [] sample_elf.header 0 refl (omega arith) (omega arith)
      (omega arith)
