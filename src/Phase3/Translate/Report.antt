-- ===== src/Phase3/Translate/Report.antt =====
-- The list `shim_imports` of the report of src/il2cppapk2ios/phase3.py: one entry for each symbol.
use il2cppapk2ios.Phase3.Streams.{Binding}
use il2cppapk2ios.Common.{ℕ, ◌+◌, ◌==◌, List, [], ◌∷◌, ◌++◌, map, if◌then◌else◌}
use il2cppapk2ios.Common.Sort.{sorted}
use il2cppapk2ios.Common.Text.{codes, decimal, text_eq, text_le, sorted_set}

pub record ShimImport : Type 0 where
  pub symbol : List ℕ
  pub shim_symbol : List ℕ
  pub symbol_type : List ℕ
  pub relocation_count : ℕ

-- type_names.get(t, f"type_{t}")
unfoldable pub type_name : ℕ → List ℕ
unfolding decimal
type_name t =
    if t == 0
    then codes "notype"
    else if t == 1
    then codes "object"
    else if t == 2
    then codes "func"
    else codes "type_" ++ decimal t

abbrev pub first_import : Binding → ShimImport
first_import item = record {
  symbol = item.symbol;
  shim_symbol = item.shim_symbol;
  symbol_type = type_name item.symbol_type;
  relocation_count = 1;
}

-- by_symbol.setdefault(...) and entry["relocation_count"] += 1
unfoldable pub add_import : Binding → List ShimImport → List ShimImport
unfolding text_eq type_name
add_import item [] = first_import item ∷ []
add_import item (e ∷ es) =
    if text_eq e.symbol item.symbol
    then record e { relocation_count = e.relocation_count + 1 } ∷ es
    else e ∷ add_import item es

unfoldable pub collect_imports : List Binding → List ShimImport → List ShimImport
unfolding add_import
collect_imports [] found = found
collect_imports (item ∷ items) found = collect_imports items (add_import item found)

-- sorted({item["shim_symbol"] for item in bindings})
unfoldable pub shim_symbols : List Binding → List (List ℕ)
unfolding sorted_set
shim_symbols bindings = sorted_set (map (λ (b : Binding). b.shim_symbol) bindings)

unfoldable pub shim_imports : List Binding → List ShimImport
unfolding collect_imports sorted text_le
shim_imports bindings =
    sorted (λ (a b : ShimImport). text_le a.symbol b.symbol) (collect_imports bindings [])
