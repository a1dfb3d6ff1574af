-- ===== src/Phase4.antt =====
-- src/il2cppapk2ios/phase4.py: the exports of the dylib. The children hold the export trie.
pub mod Trie
pub mod Sections
pub mod Translate
pub mod Contiguous
pub mod Ending
pub mod Loadable
pub mod Whole
pub mod Pipeline
pub mod Names
pub mod Tests
use il2cppapk2ios.Elf.{Elf64, shn_undef}
use il2cppapk2ios.Elf.Symbols.{Symbol, dynamic_symbols}
use il2cppapk2ios.Phase3.{Config}
use il2cppapk2ios.Common.{
  ℕ, ◌+◌, ◌/◌, ◌%◌, ◌==◌, Bool, true, false, ◌&&◌, ◌||◌, not, List, [], ◌∷◌, ◌++◌, if◌then◌else◌,
}
use il2cppapk2ios.Common.Text.{text_eq}

abbrev pub is_empty_name : List ℕ → Bool
is_empty_name [] = true
is_empty_name (c ∷ cs) = false

-- The tests of `_exports`, in the code's order: STB_GLOBAL and STB_WEAK are 1 and 2, STT_FUNC and
-- STT_OBJECT 2 and 1.
unfoldable pub is_export : Symbol → Bool
is_export symbol =
    not ((symbol.shndx == shn_undef) || is_empty_name symbol.name)
    && (((symbol.info / 16 == 1) || (symbol.info / 16 == 2))
        && ((symbol.info % 16 == 2) || (symbol.info % 16 == 1)))

-- exports[name] = address, with the order of a dict
unfoldable pub set_export : List ℕ → ℕ → List (List ℕ × ℕ) → List (List ℕ × ℕ)
unfolding text_eq
set_export name address [] = (name, address) ∷ []
set_export name address ((n, a) ∷ rest) =
    let later = set_export name address rest in
    if text_eq n name then (n, address) ∷ rest else (n, a) ∷ later

-- "_" + name
abbrev pub export_name : Symbol → List ℕ
export_name symbol = 0x5F ∷ symbol.name

unfoldable pub exports_from : Config → List Symbol → List (List ℕ × ℕ) → List (List ℕ × ℕ)
unfolding is_export set_export
exports_from c [] found = found
exports_from c (symbol ∷ symbols) found = exports_from c symbols (
    if is_export symbol
    then set_export (export_name symbol) (c.header_reserve + symbol.value) found
    else found)

-- `_exports`
unfoldable pub exports : Config → Elf64 → List (List ℕ × ℕ)
unfolding exports_from dynamic_symbols
exports c elf = exports_from c (dynamic_symbols elf) []
