-- ===== src/Phase4/Trie/Exports.antt =====
-- The trie of `_build_export_trie`, read as dyld reads it.
use il2cppapk2ios.Phase4.Trie.{
  TrieNode, node, visit, build_trie, export_payload, layout_loop, build_export_trie,
}
use il2cppapk2ios.Phase4.Trie.Names.{find, Distinct, find-build_trie}
use il2cppapk2ios.Phase4.Trie.Edges.{IsAscii, build_trie-Ascii}
use il2cppapk2ios.Phase4.Trie.Visit.{visit-Holds}
use il2cppapk2ios.Phase4.Trie.Layout.{Settled, layout_loop-Settled}
use il2cppapk2ios.Phase4.Trie.Walk.{walk, walk-find}
use il2cppapk2ios.Leb.{uleb}
use il2cppapk2ios.Leb.Uleb.{read_uleb, read_uleb-uleb}
use il2cppapk2ios.Common.{
  ℕ, suc, ◌≡◌, refl, sym, ap, ◌∙◌, List, [], append-nil, length, get_or, get_elem?, replicate,
  Option, none, some, All, false,
}
use il2cppapk2ios.Common.Outcome.{ok, >>=-eq-ok}
use il2cppapk2ios.Common.Text.{text_eq}
use il2cppapk2ios.Struct.{Bytes}

-- The flags and the address in the terminal bytes of an export.
read_terminal : Option Bytes → Option (ℕ × ℕ)
read_terminal none = none
read_terminal (some payload) = elim (read_uleb payload) [
  | none ↦ none
  | some (flags, rest) ↦ elim (read_uleb rest) [
    | none ↦ none
    | some (address, others) ↦ some (flags, address)
  ]
]

-- What dyld finds for a symbol.
pub read_export : Bytes → Bytes → Option (ℕ × ℕ)
read_export trie name = read_terminal (walk (suc (length name)) trie 0 name)

terminal_parts :
    (payload rest others : Bytes) (flags address : ℕ)
    → read_uleb payload ≡ some (flags, rest)
    → read_uleb rest ≡ some (address, others)
    → read_terminal (some payload) ≡ some (flags, address)
unfolding read_terminal
terminal_parts payload rest others flags address h k = rw (h, k, read_terminal) refl

read_terminal-export_payload :
    (address : ℕ) → read_terminal (some (export_payload address)) ≡ some (0, address)
unfolding export_payload
read_terminal-export_payload address =
    terminal_parts _ (uleb address) [] 0 address (read_uleb-uleb 0 (uleb address))
      (ap read_uleb (sym (append-nil (uleb address))) ∙ read_uleb-uleb address [])

root_offset :
    (t : TrieNode) (offsets : List ℕ) → Settled offsets (visit t 0) 0 0 → get_or offsets 0 0 ≡ 0
unfolding visit Settled
root_offset (node terminal children) offsets s = s.0

-- For a dict with ASCII names, a trie that is built gives dyld the address of every export, with
-- the flags 0, and nothing for any other name.
pub read_export-build_export_trie :
    (exports : List (List ℕ × ℕ)) (trie : Bytes)
    → Distinct exports
    → All (λ (x : List ℕ × ℕ). All IsAscii x.0) exports
    → build_export_trie exports ≡ ok trie
    → ((i : ℕ) (name : List ℕ) (address : ℕ)
        → get_elem? exports i ≡ some (name, address)
        → read_export trie name ≡ some (0, address))
      × ((name : List ℕ)
          → All (λ (y : List ℕ × ℕ). text_eq y.0 name ≡ false) exports
          → read_export trie name ≡ none)
unfolding build_export_trie read_export read_uleb read_terminal
read_export-build_export_trie exports trie d ascii h =
    let tree = build_trie exports in
    let nodes = visit tree 0 in
    let (offsets, eo, ew) = >>=-eq-ok (layout_loop 32 nodes (replicate (length nodes) 0)) _ h in
    let settled = layout_loop-Settled 32 nodes (replicate (length nodes) 0) offsets eo in
    let walked : (name : List ℕ) → walk (suc (length name)) trie 0 name ≡ some (find tree name) =
      λ name.
        ap (λ o. walk (suc (length name)) trie o name) (sym (root_offset tree offsets settled))
        ∙ walk-find offsets nodes trie settled ew name 0 tree (visit-Holds tree)
            (build_trie-Ascii exports ascii) in
    let (present, absent) = find-build_trie exports d in
    (
      λ i name address g.
          ap read_terminal (walked name ∙ ap some (present i name address g))
          ∙ read_terminal-export_payload address,
      λ name g. ap read_terminal (walked name ∙ ap some (absent name g)),
    )
