-- ===== src/Elf/Relocations.antt =====
-- The relocation entries of an ELF file: `_iter_relocations` of phase3.py (translate.py has the
-- same loop), and `relocation_counts` of elf.py.
use il2cppapk2ios.Elf.{Elf64, SectionHeader, sht_rela}
use il2cppapk2ios.Common.{
  ℕ, zero, suc, ◌+◌, ◌-◌, ◌/◌, ◌%◌, ◌^◌, ltb, ◌==◌, List, [], ◌∷◌, ◌++◌, length, if◌then◌else◌,
}
use il2cppapk2ios.Common.Int.{ℤ}
use il2cppapk2ios.Common.Text.{codes, decimal, text_eq, text_le}
use il2cppapk2ios.Struct.{Bytes, field, signed64}

-- The number of items of `range(off, off + size, entsize)`, with `sec.entsize or 24`.
abbrev pub entry_size : SectionHeader → ℕ
entry_size sec = if sec.entsize == 0 then 24 else sec.entsize

abbrev pub entry_count : SectionHeader → ℕ
entry_count sec = (sec.size + entry_size sec - 1) / entry_size sec

-- A table that is scanned up to the first entry of `width` bytes that the file does not hold.
module _ {A : Type 0} (read : Bytes → ℕ → A) (bytes : Bytes) (width step : ℕ) where
  unfoldable pub scan : ℕ → ℕ → List A
  scan zero off = []
  scan (suc count) off =
      let rest = scan count (off + step) in
      if ltb (length bytes) (off + width) then [] else read bytes off ∷ rest

pub record Relocation : Type 0 where
  pub offset : ℕ
  pub type : ℕ
  pub symbol_index : ℕ
  pub addend : ℤ

-- One entry in the format "<QQq".
unfoldable pub relocation_at : Bytes → ℕ → Relocation
unfolding field
relocation_at bytes off = record {
  offset = field 8 bytes off;
  type = field 8 bytes (off + 8) % 2 ^ 32;
  symbol_index = field 8 bytes (off + 8) / 2 ^ 32;
  addend = signed64 (field 8 bytes (off + 16));
}

unfoldable pub relocations_in : Bytes → List SectionHeader → List Relocation
unfolding scan relocation_at
relocations_in bytes [] = []
relocations_in bytes (sec ∷ secs) =
    (if sec.sh_type == sht_rela
      then scan relocation_at bytes 24 (entry_size sec) (entry_count sec) sec.offset
      else [])
    ++ relocations_in bytes secs

unfoldable pub relocations : Elf64 → List Relocation
unfolding relocations_in
relocations elf = relocations_in elf.bytes elf.sections

-- AARCH64_RELOCS.get(r_type, f"AARCH64_RELOC_{r_type}")
unfoldable pub relocation_name : ℕ → List ℕ
unfolding decimal
relocation_name r_type =
    if r_type == 257
    then codes "R_AARCH64_ABS64"
    else if r_type == 1025
    then codes "R_AARCH64_GLOB_DAT"
    else if r_type == 1026
    then codes "R_AARCH64_JUMP_SLOT"
    else if r_type == 1027
    then codes "R_AARCH64_RELATIVE"
    else codes "AARCH64_RELOC_" ++ decimal r_type

-- `counts[name] += 1` on a counter that is kept sorted by its names.
unfoldable pub count_name : List ℕ → List (List ℕ × ℕ) → List (List ℕ × ℕ)
unfolding text_eq text_le
count_name name [] = (name, 1) ∷ []
count_name name ((other, n) ∷ counts) =
    if text_eq name other
    then (other, n + 1) ∷ counts
    else if text_le name other
    then (name, 1) ∷ ((other, n) ∷ counts)
    else (other, n) ∷ count_name name counts

unfoldable pub count_names : List Relocation → List (List ℕ × ℕ)
unfolding count_name relocation_name
count_names [] = []
count_names (r ∷ rs) = count_name (relocation_name r.type) (count_names rs)

unfoldable pub relocation_counts : Elf64 → List (List ℕ × ℕ)
unfolding count_names relocations
relocation_counts elf = count_names (relocations elf)
