-- ===== src/Elf/Symbols.antt =====
-- The symbol and string tables: `section`, `dynamic_symbols`, `undefined_symbols`,
-- `needed_libraries` and `android_specific_imports` of elf.py.
use mathlib.Core.Bool.{not, ◌&&◌}
use il2cppapk2ios.Elf.{Elf64, SectionHeader, sht_dynsym, shn_undef, cstring, section_data}
use il2cppapk2ios.Elf.Relocations.{entry_size, entry_count, scan}
use il2cppapk2ios.Common.{
  ℕ, zero, suc, ◌+◌, ◌/◌, ltb, ◌==◌, Bool, true, false, List, [], ◌∷◌, length, get_elem?, Option,
  none, some, if◌then◌else◌,
}
use il2cppapk2ios.Common.Text.{codes, text_eq, sorted_set, starts_with, any, select}
use il2cppapk2ios.Struct.{Bytes, field}

module _ {ℓ} {A : Type ℓ} where
  -- next((x for x in xs if p(x)), None)
  unfoldable pub find_first : (A → Bool) → List A → Option A
  find_first p [] = none
  find_first p (x ∷ xs) = let rest = find_first p xs in if p x then some x else rest

unfoldable pub section : Elf64 → List ℕ → Option SectionHeader
unfolding find_first text_eq
section elf name = find_first (λ s. text_eq s.name name) elf.sections

pub record Symbol : Type 0 where
  pub name : List ℕ
  pub info : ℕ
  pub other : ℕ
  pub shndx : ℕ
  pub value : ℕ
  pub size : ℕ

-- One entry in the format "<IBBHQQ".
unfoldable pub symbol_at : Bytes → Bytes → ℕ → Symbol
unfolding field cstring
symbol_at strtab bytes off = record {
  name = cstring strtab (field 4 bytes off);
  info = field 1 bytes (off + 4);
  other = field 1 bytes (off + 5);
  shndx = field 2 bytes (off + 6);
  value = field 8 bytes (off + 8);
  size = field 8 bytes (off + 16);
}

abbrev symbols_of : Elf64 → SectionHeader → SectionHeader → List Symbol
symbols_of elf sec strings =
    scan (symbol_at (section_data elf.bytes strings)) elf.bytes 24 (entry_size sec)
      (entry_count sec) sec.offset

unfoldable pub dynamic_symbols : Elf64 → List Symbol
unfolding find_first symbol_at section_data scan
dynamic_symbols elf = elim (find_first (λ s. s.sh_type == sht_dynsym) elf.sections) [
  | none ↦ []
  | some sec ↦ elim (get_elem? elf.sections sec.link) [
    | none ↦ []
    | some strings ↦ symbols_of elf sec strings
  ]
]

unfoldable pub is_empty : List ℕ → Bool
is_empty [] = true
is_empty (c ∷ cs) = false

unfoldable pub names_of : List Symbol → List (List ℕ)
names_of [] = []
names_of (s ∷ ss) = s.name ∷ names_of ss

abbrev pub is_import : Symbol → Bool
is_import s = (s.shndx == shn_undef) && not (is_empty s.name)

unfoldable pub undefined_symbols : Elf64 → List (List ℕ)
unfolding sorted_set names_of select is_empty dynamic_symbols
undefined_symbols elf = sorted_set (names_of (select is_import (dynamic_symbols elf)))

-- Entries of 16 bytes up to the end of the section, of the file, or to the tag 0.
-- A tag of format q is 1 exactly if its 64 bits are the number 1.
unfoldable pub needed_from : Bytes → Bytes → ℕ → ℕ → List (List ℕ)
unfolding field cstring
needed_from strtab bytes zero off = []
needed_from strtab bytes (suc count) off =
    let rest = needed_from strtab bytes count (off + 16) in
    if ltb (length bytes) (off + 16)
    then []
    else if field 8 bytes off == 0
    then []
    else if field 8 bytes off == 1
    then cstring strtab (field 8 bytes (off + 8)) ∷ rest
    else rest

unfoldable pub needed_libraries : Elf64 → List (List ℕ)
unfolding section section_data needed_from
needed_libraries elf = elim (section elf (codes ".dynamic")) [
  | none ↦ []
  | some dyn ↦ elim (get_elem? elf.sections dyn.link) [
    | none ↦ []
    | some strings ↦
        needed_from (section_data elf.bytes strings) elf.bytes ((dyn.size + 15) / 16) dyn.offset
  ]
]

abbrev pub android_import_prefixes : List (List ℕ)
android_import_prefixes =
    codes "__android_"
    ∷ (codes "ANativeWindow_"
        ∷ (codes "ALooper_"
            ∷ (codes "AInput"
                ∷ (codes "AAsset"
                    ∷ (codes "AMotionEvent_" ∷ (codes "AKeyEvent_" ∷ (codes "android_" ∷ [])))))))

unfoldable pub is_android_specific : List ℕ → Bool
unfolding any starts_with
is_android_specific name = any (λ prefix. starts_with prefix name) android_import_prefixes

unfoldable pub android_specific_imports : Elf64 → List (List ℕ)
unfolding select is_android_specific undefined_symbols
android_specific_imports elf = select is_android_specific (undefined_symbols elf)
