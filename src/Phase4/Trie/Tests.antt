-- ===== src/Phase4/Trie/Tests.antt =====
-- A trie with two exports, of which one name begins the other.
use il2cppapk2ios.Phase4.Trie.{visit, build_trie, build_export_trie, export_payload}
use il2cppapk2ios.Phase4.Trie.Names.{find, Distinct, find-build_trie}
use il2cppapk2ios.Phase4.Trie.Edges.{IsAscii}
use il2cppapk2ios.Phase4.Trie.Small.{IsEncodable, total_size}
use il2cppapk2ios.Phase4.Trie.Returns.{build_export_trie-returns}
use il2cppapk2ios.Phase4.Trie.Exports.{read_export, read_export-build_export_trie}
use il2cppapk2ios.Common.{
  ℕ, ◌≡◌, refl, arith, ◌≤◌, leb→le, length, List, [], ◌∷◌, get_elem?, some, none, All, false,
}
use il2cppapk2ios.Common.Outcome.{ok}
use il2cppapk2ios.Common.Text.{codes, text_eq}
use il2cppapk2ios.Struct.{Bytes}

abbrev two_exports : List (List ℕ × ℕ)
two_exports = (codes "_ab", 0x10004) ∷ ((codes "_a", 200) ∷ [])

abbrev two_trie : Bytes
two_trie =
    0
    ∷ (1
        ∷ (0x5F
            ∷ (0
                ∷ (5
                    ∷ (0
                        ∷ (1
                            ∷ (0x61
                                ∷ (0
                                    ∷ (10
                                        ∷ (3
                                            ∷ (0
                                                ∷ (200
                                                    ∷ (1
                                                        ∷ (1
                                                            ∷ (0x62
                                                            ∷ (0
                                                            ∷ (18
                                                            ∷ (4
                                                            ∷ (0
                                                            ∷ (132
                                                            ∷ (128
                                                            ∷ (4 ∷ (0 ∷ [])))))))))))))))))))))))

two_trie_run : build_export_trie two_exports ≡ ok two_trie
unfolding build_export_trie
two_trie_run = refl

two_exports-Distinct : Distinct two_exports
unfolding text_eq
two_exports-Distinct = ((refl, tt), (tt, tt))

read_export-build_export_trie_example :
    ((i : ℕ) (name : List ℕ) (address : ℕ)
      → get_elem? two_exports i ≡ some (name, address)
      → read_export two_trie name ≡ some (0, address))
    × ((name : List ℕ)
        → All (λ (y : List ℕ × ℕ). text_eq y.0 name ≡ false) two_exports
        → read_export two_trie name ≡ none)
read_export-build_export_trie_example =
    read_export-build_export_trie two_exports two_trie two_exports-Distinct ascii two_trie_run
  where
    ascii : All (λ (x : List ℕ × ℕ). All IsAscii x.0) two_exports
    ascii = (
      ((omega arith, omega arith), ((omega arith, omega arith), ((omega arith, omega arith), tt))),
      (((omega arith, omega arith), ((omega arith, omega arith), tt)), tt),
    )

find-build_trie_example :
    ((i : ℕ) (name : List ℕ) (address : ℕ)
      → get_elem? two_exports i ≡ some (name, address)
      → find (build_trie two_exports) name ≡ export_payload address)
    × ((name : List ℕ)
        → All (λ (y : List ℕ × ℕ). text_eq y.0 name ≡ false) two_exports
        → find (build_trie two_exports) name ≡ [])
find-build_trie_example = find-build_trie two_exports two_exports-Distinct

nodes-IsEncodable : All IsEncodable (visit (build_trie two_exports) 0)
unfolding build_trie visit
nodes-IsEncodable = (
  record { narrow = omega arith; ascii = ((omega arith, omega arith), tt) },
  (
    record { narrow = omega arith; ascii = ((omega arith, omega arith), tt) },
    (
      record { narrow = omega arith; ascii = ((omega arith, omega arith), tt) },
      (record { narrow = omega arith; ascii = tt }, tt),
    ),
  ),
)

nodes_fit : total_size (visit (build_trie two_exports) 0) ≤ 128
unfolding build_trie visit total_size
nodes_fit = leb→le (total_size (visit (build_trie two_exports) 0)) 128 refl

build_export_trie-returns_example :
    (trie : Bytes) × (build_export_trie two_exports ≡ ok trie)
    × (length trie ≡ total_size (visit (build_trie two_exports) 0))
build_export_trie-returns_example =
    build_export_trie-returns two_exports nodes-IsEncodable nodes_fit
