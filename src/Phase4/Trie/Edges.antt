-- ===== src/Phase4/Trie/Edges.antt =====
-- The edges of the export trie: their order in the encoding, and which characters they bear.
use il2cppapk2ios.Phase4.Trie.{
  TrieNode, node, Children, no_child, child, chain, put, put_child, put_all, build_trie, export_le,
  export_payload, size, edges, edge_le,
}
use il2cppapk2ios.Common.{
  ℕ, suc, ◌+◌, ◌<◌, ◌≡◌, refl, ap, ◌∙◌, arith, ◌==◌, leb, false, List, [], ◌∷◌, length, All, Option,
  none, some, Bool-cases, inl, inr, if◌then◌else◌,
}
use il2cppapk2ios.Common.Sort.{insert, sorted, sorted-All}
use il2cppapk2ios.Struct.{Bytes}

-- The number of the child that a character leads to.
unfoldable pub find_edge : List (ℕ × ℕ) → ℕ → Option ℕ
find_edge [] c = none
find_edge ((edge, number) ∷ es) c =
    let later = find_edge es c in if edge == c then some number else later

find_edge-insert :
    (e : ℕ × ℕ) (es : List (ℕ × ℕ)) (c : ℕ)
    → find_edge (insert edge_le e es) c ≡ find_edge (e ∷ es) c
unfolding find_edge insert
find_edge-insert e [] c = refl
find_edge-insert (e, m) ((f, n) ∷ es) c =
    let rest = find_edge-insert (e, m) es c in
    elim (Bool-cases (leb e f)) [
      | inl le ↦ rw le refl
      | inr gt ↦ rw (gt, rest) (apart e f m n (find_edge es c) gt)
    ]
  where
    apart :
        (e f m n : ℕ) (later : Option ℕ)
        → leb e f ≡ false
        → (if f == c then some n else if e == c then some m else later)
          ≡ (if e == c then some m else if f == c then some n else later)
    apart e f m n later gt = ground arith

-- Sorting the edges does not change where a character leads, nor how many there are.
pub find_edge-sorted :
    (es : List (ℕ × ℕ)) (c : ℕ) → find_edge (sorted edge_le es) c ≡ find_edge es c
unfolding find_edge sorted
find_edge-sorted [] c = refl
find_edge-sorted ((e, m) ∷ es) c =
    find_edge-insert (e, m) (sorted edge_le es) c ∙ rw (find_edge-sorted es c) refl

length-insert : (e : ℕ × ℕ) (es : List (ℕ × ℕ)) → length (insert edge_le e es) ≡ suc (length es)
unfolding insert
length-insert e [] = refl
length-insert e (f ∷ es) = elim (Bool-cases (edge_le e f)) [
  | inl le ↦ rw le refl
  | inr gt ↦ rw gt (ap suc (length-insert e es))
]

pub length-sorted : (es : List (ℕ × ℕ)) → length (sorted edge_le es) ≡ length es
unfolding sorted
length-sorted [] = refl
length-sorted (e ∷ es) = length-insert e (sorted edge_le es) ∙ ap suc (length-sorted es)

abbrev pub IsAscii : ℕ → Type 0
IsAscii c = (0 < c) × (c < 128)

-- Every edge of the tree bears an ASCII character other than NUL.
unfoldable mutual
  pub AsciiNode : TrieNode → Type 0
  AsciiNode (node terminal children) = AsciiChildren children

  pub AsciiChildren : Children → Type 0
  AsciiChildren no_child = Unit
  AsciiChildren (child edge next rest) = IsAscii edge × AsciiNode next × AsciiChildren rest

chain-Ascii : (name : List ℕ) (payload : Bytes) → All IsAscii name → AsciiNode (chain name payload)
unfolding chain AsciiNode
chain-Ascii [] payload h = tt
chain-Ascii (ch ∷ name) payload (h, hs) = (h, chain-Ascii name payload hs, tt)

mutual
  unfolding put AsciiNode

  put-Ascii :
      (n : TrieNode) (name : List ℕ) (payload : Bytes)
      → AsciiNode n
      → All IsAscii name
      → AsciiNode (put n name payload)
  put-Ascii (node terminal children) [] payload a h = a
  put-Ascii (node terminal children) (ch ∷ name) payload a (h, hs) =
      put_child-Ascii children ch name payload a h hs

  put_child-Ascii :
      (cs : Children) (ch : ℕ) (name : List ℕ) (payload : Bytes)
      → AsciiChildren cs
      → IsAscii ch
      → All IsAscii name
      → AsciiChildren (put_child cs ch name payload)
  put_child-Ascii no_child ch name payload a h hs = (h, chain-Ascii name payload hs, tt)
  put_child-Ascii (child edge next rest) ch name payload (e, a, more) h hs =
      let inside = put-Ascii next name payload a hs in
      let later = put_child-Ascii rest ch name payload more h hs in
      elim (Bool-cases (edge == ch)) [ inl y ↦ rw y (e, inside, more) | inr n ↦ rw n (e, a, later) ]

put_all-Ascii :
    (exports : List (List ℕ × ℕ)) (root : TrieNode)
    → AsciiNode root
    → All (λ (x : List ℕ × ℕ). All IsAscii x.0) exports
    → AsciiNode (put_all exports root)
unfolding put_all
put_all-Ascii [] root a h = a
put_all-Ascii ((name, address) ∷ exports) root a (h, hs) =
    put_all-Ascii exports (put root name (export_payload address))
      (put-Ascii root name (export_payload address) a h) hs

pub build_trie-Ascii :
    (exports : List (List ℕ × ℕ))
    → All (λ (x : List ℕ × ℕ). All IsAscii x.0) exports
    → AsciiNode (build_trie exports)
unfolding build_trie
build_trie-Ascii exports h =
    put_all-Ascii (sorted export_le exports) (node [] no_child) (unfold AsciiNode in tt)
      (sorted-All export_le (λ (x : List ℕ × ℕ). All IsAscii x.0) exports h)

pub edges-IsAscii :
    (cs : Children) (number : ℕ)
    → AsciiChildren cs
    → All (λ (e : ℕ × ℕ). IsAscii e.0) (edges cs number)
unfolding edges AsciiNode
edges-IsAscii no_child number a = tt
edges-IsAscii (child edge next rest) number (e, a, more) =
    (e, edges-IsAscii rest (number + size next) more)
