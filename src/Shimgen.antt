-- ===== src/Shimgen.antt =====
-- The records of `generate_shim_scaffold` in src/il2cppapk2ios/shimgen.py: how each import of the ELF
-- file is provided, and the assembly of the imports that are passed on. The C templates are text.
pub mod Tables
pub mod Coverage
pub mod Traps
pub mod Phdr
pub mod Manifest
pub mod Tests
use il2cppapk2ios.Elf.{Elf64, shn_undef}
use il2cppapk2ios.Elf.Symbols.{Symbol, dynamic_symbols}
use il2cppapk2ios.Shimgen.Tables.{
  direct_symbols, special_symbols, posix_symbols, elf_signal_symbols, elf_runtime_symbols,
  runtime_symbols, network_symbols, pthread_symbols, stdio_symbols, object_symbols,
}
use il2cppapk2ios.Common.{
  ℕ, ◌%◌, ◌==◌, Bool, true, false, ◌&&◌, ◌||◌, not, List, [], ◌∷◌, ◌++◌, map, if◌then◌else◌,
}
use il2cppapk2ios.Common.Sort.{sorted}
use il2cppapk2ios.Common.Text.{codes, decimal, is_in, text_eq, text_le, select}

-- TYPE_NAMES.get(t, f"type_{t}")
unfoldable pub elf_type_of : ℕ → List ℕ
unfolding decimal
elf_type_of t =
    if t == 0
    then codes "notype"
    else if t == 1
    then codes "object"
    else if t == 2
    then codes "func"
    else codes "type_" ++ decimal t

pub record Import : Type 0 where
  pub name : List ℕ
  pub elf_type : List ℕ

-- imports[name] = {...}, with the order of a dict
unfoldable pub set_import : Import → List Import → List Import
unfolding text_eq
set_import i [] = i ∷ []
set_import i (j ∷ js) =
    let later = set_import i js in if text_eq j.name i.name then i ∷ js else j ∷ later

unfoldable pub is_imported : Symbol → Bool
is_imported symbol = (symbol.shndx == shn_undef) && not (text_eq symbol.name [])

abbrev pub import_of : Symbol → Import
import_of symbol = record { name = symbol.name; elf_type = elf_type_of (symbol.info % 16) }

unfoldable pub imports_from : List Symbol → List Import → List Import
unfolding is_imported set_import elf_type_of
imports_from [] found = found
imports_from (symbol ∷ symbols) found =
    imports_from symbols (if is_imported symbol then set_import (import_of symbol) found else found)

pub data Category : Type 0 where
  object stdio special pthread posix elf_runtime network runtime signal direct trap : Category

unfoldable pub category_of : List ℕ → List ℕ → Category
unfolding is_in text_eq direct_symbols special_symbols posix_symbols elf_signal_symbols
    elf_runtime_symbols runtime_symbols network_symbols pthread_symbols stdio_symbols object_symbols
category_of name elf_type =
    if is_in name object_symbols || text_eq elf_type (codes "object")
    then object
    else if is_in name stdio_symbols
    then stdio
    else if is_in name special_symbols
    then special
    else if is_in name pthread_symbols
    then pthread
    else if is_in name posix_symbols
    then posix
    else if is_in name elf_runtime_symbols
    then elf_runtime
    else if is_in name network_symbols
    then network
    else if is_in name runtime_symbols
    then runtime
    else if is_in name elf_signal_symbols
    then signal
    else if is_in name direct_symbols
        && (text_eq elf_type (codes "func") || text_eq elf_type (codes "notype"))
    then direct
    else trap

pub record ShimRecord : Type 0 where
  pub name : List ℕ
  pub shim_symbol : List ℕ
  pub elf_type : List ℕ
  pub category : Category

abbrev pub record_of : Import → ShimRecord
record_of i = record {
  name = i.name;
  shim_symbol = codes "_a2i_" ++ i.name;
  elf_type = i.elf_type;
  category = category_of i.name i.elf_type;
}

abbrev pub import_le : Import → Import → Bool
import_le i j = text_le i.name j.name

-- The loop over `sorted(imports)`.
unfoldable pub records : Elf64 → List ShimRecord
unfolding imports_from dynamic_symbols sorted category_of text_le
records elf = map record_of (sorted import_le (imports_from (dynamic_symbols elf) []))

abbrev pub is_direct : ShimRecord → Bool
is_direct r = elim r.category [ direct ↦ true | _ ↦ false ]

abbrev pub is_trap : ShimRecord → Bool
is_trap r = elim r.category [ trap ↦ not (text_eq r.elf_type (codes "object")) | _ ↦ false ]

unfoldable pub direct_names : List ShimRecord → List (List ℕ)
unfolding select
direct_names rs = map (λ (r : ShimRecord). r.name) (select is_direct rs)

unfoldable pub trap_names : List ShimRecord → List (List ℕ)
unfolding select text_eq
trap_names rs = map (λ (r : ShimRecord). r.name) (select is_trap rs)

-- `_asm_name(_shim_c_name(name))`
abbrev pub shim_label : List ℕ → List ℕ
shim_label name = codes "_" ++ (codes "a2i_" ++ name)

-- The four lines of `_direct_assembly` for one symbol.
unfoldable pub direct_lines : List (List ℕ) → List (List ℕ)
direct_lines [] = []
direct_lines (name ∷ names) =
    (codes ".globl " ++ shim_label name)
    ∷ ((shim_label name ++ codes ":")
        ∷ ((codes "    b " ++ (codes "_" ++ name)) ∷ ([] ∷ direct_lines names)))

-- "\n".join(lines)
unfoldable pub join_lines : List (List ℕ) → List ℕ
join_lines [] = []
join_lines (line ∷ []) = line
join_lines (line ∷ (next ∷ lines)) = line ++ (10 ∷ join_lines (next ∷ lines))

-- `_direct_assembly`
unfoldable pub direct_assembly : List (List ℕ) → List ℕ
unfolding direct_lines join_lines sorted text_le
direct_assembly symbols = join_lines (
    codes ".text"
    ∷ (codes ".p2align 2"
        ∷ ([]
            ∷ (codes "// ABI-compatible first-pass tail calls."
                ∷ ([] ∷ direct_lines (sorted text_le symbols))))))
