-- ===== src/Phase4/Trie/Walk.antt =====
-- The walk of dyld through an export trie, and what it finds in the trie of `_build_export_trie`.
use il2cppapk2ios.Phase4.Trie.{
  TrieNode, node, Children, FlatNode, edges, edge_le, encode_edges, encode_node, encode_nodes,
}
use il2cppapk2ios.Phase4.Trie.Names.{find}
use il2cppapk2ios.Phase4.Trie.Edges.{
  IsAscii, AsciiNode, AsciiChildren, find_edge, find_edge-sorted, length-sorted, edges-IsAscii,
}
use il2cppapk2ios.Phase4.Trie.Visit.{Holds, find_edge-edges}
use il2cppapk2ios.Phase4.Trie.Layout.{Settled, encode_nodes-at}
use il2cppapk2ios.Leb.{uleb}
use il2cppapk2ios.Leb.Uleb.{read_uleb, read_uleb-uleb}
use il2cppapk2ios.Struct.Strings.{read_string, read_string-append}
use il2cppapk2ios.Common.{
  ℕ, zero, suc, ◌+◌, ◌-◌, ◌<◌, ◌≡◌, refl, sym, ap, ◌∙◌, arith, ◌==◌, ltb, List, [], ◌∷◌, ◌++◌,
  append_assoc, length, get_or, get_elem?, some, none, Option, take, drop, All, Bool-cases, inl,
  inr, if◌then◌else◌,
}
use il2cppapk2ios.Common.Outcome.{
  ok, raise_if, trie_too_wide, ok-injective, >>=-eq-ok, >>=₂-eq-ok, >>-eq-ok,
}
use il2cppapk2ios.Common.Sort.{sorted, sorted-All}
use il2cppapk2ios.Common.Text.{starts_with, encode}
use il2cppapk2ios.Struct.{Bytes}
use il2cppapk2ios.Struct.Laws.{take-append_length, drop-append_length}

-- An edge whose label begins the name leads to an offset, with the rest of the name.
pub data Step : Type 0 where
  broken missing : Step
  follow : Bytes → ℕ → Step

unfoldable pub edge_to : ℕ → Bytes → Bytes → Step
edge_to zero bytes name = missing
edge_to (suc count) bytes name = elim (read_string bytes) [
  | none ↦ broken
  | some (label, rest) ↦ elim (read_uleb rest) [
    | none ↦ broken
    | some (offset, others) ↦
        let later = edge_to count others name in
        if starts_with label name then follow (drop (length label) name) offset else later
  ]
]

abbrev go_on : (ℕ → Bytes → Option Bytes) → Step → Option Bytes
go_on walk_on broken = none
go_on walk_on missing = some []
go_on walk_on (follow name offset) = walk_on offset name

-- The terminal bytes at the end of a name: none where the trie is broken, empty where the name is
-- not in it. Every edge uses up at least one byte of the name, so its length bounds the steps.
unfoldable pub walk : ℕ → Bytes → ℕ → Bytes → Option Bytes
unfolding edge_to
walk zero trie offset name = none
walk (suc steps) trie offset [] = elim (read_uleb (drop offset trie)) [
  | none ↦ none
  | some (count, rest) ↦ some (take count rest)
]
walk (suc steps) trie offset (c ∷ cs) = elim (read_uleb (drop offset trie)) [
  | none ↦ none
  | some (count, rest) ↦ elim (drop count rest) [
    | [] ↦ none
    | children ∷ bytes ↦ go_on (walk steps trie) (edge_to children bytes (c ∷ cs))
  ]
]

abbrev step_of : List ℕ → Bytes → Option ℕ → Step
step_of offsets name none = missing
step_of offsets name (some number) = follow name (get_or offsets number 0)

encode-ascii : (c : ℕ) → c < 128 → encode (c ∷ []) ≡ ok (c ∷ [])
unfolding encode
encode-ascii c h = ground arith

edge_to-step :
    (count : ℕ) (bytes name label rest others : Bytes) (offset : ℕ)
    → read_string bytes ≡ some (label, rest)
    → read_uleb rest ≡ some (offset, others)
    → edge_to (suc count) bytes name ≡ (
        if starts_with label name
        then follow (drop (length label) name) offset
        else edge_to count others name)
unfolding edge_to
edge_to-step count bytes name label rest others offset s u = rw (s, u, edge_to) refl

edge_to-encode_edges :
    (offsets : List ℕ) (es : List (ℕ × ℕ)) (bytes rest : Bytes) (c : ℕ) (name : Bytes)
    → All (λ (e : ℕ × ℕ). IsAscii e.0) es
    → encode_edges offsets es ≡ ok bytes
    → edge_to (length es) (bytes ++ rest) (c ∷ name) ≡ step_of offsets name (find_edge es c)
unfolding encode_edges find_edge starts_with
edge_to-encode_edges offsets [] bytes rest c name hs h = unfold edge_to in refl
edge_to-encode_edges offsets ((edge, number) ∷ es) bytes rest c name (k, hs) h =
    let at = get_or offsets number 0 in
    let (label, tail, el, et, e) =
      >>=₂-eq-ok (encode (edge ∷ [])) (encode_edges offsets es)
        (λ label tail. label ++ (0 ∷ (uleb at ++ tail))) h in
    let one : label ≡ edge ∷ [] = ok-injective (sym el ∙ encode-ascii edge k.1) in
    let later = edge_to-encode_edges offsets es tail rest c name hs et in
    rw (e, one, append_assoc (uleb at) tail rest)
      (edge_to-step (length es) _ (c ∷ name) (edge ∷ []) (uleb at ++ (tail ++ rest)) (tail ++ rest)
          at (read_string-append (edge ∷ []) (uleb at ++ (tail ++ rest)) (k.0, tt))
          (read_uleb-uleb at (tail ++ rest))
        ∙ rw later (choose edge c number (find_edge es c)))
  where
    choose :
        (edge c number : ℕ) (found : Option ℕ)
        → (if starts_with (edge ∷ []) (c ∷ name)
            then follow name (get_or offsets number 0)
            else step_of offsets name found)
          ≡ step_of offsets name (if edge == c then some number else found)
    choose edge c number found = elim (Bool-cases (edge == c)) [
      | inl e ↦ rw e refl
      | inr e ↦ rw e refl
    ]

walk-end :
    (steps : ℕ) (trie : Bytes) (offset count : ℕ) (rest : Bytes)
    → read_uleb (drop offset trie) ≡ some (count, rest)
    → walk (suc steps) trie offset [] ≡ some (take count rest)
unfolding walk
walk-end steps trie offset count rest h = rw (h, walk) refl

walk-step :
    (steps : ℕ) (trie : Bytes) (offset count : ℕ) (rest : Bytes) (children c : ℕ) (bytes cs : Bytes)
    → read_uleb (drop offset trie) ≡ some (count, rest)
    → drop count rest ≡ children ∷ bytes
    → walk (suc steps) trie offset (c ∷ cs)
      ≡ go_on (walk steps trie) (edge_to children bytes (c ∷ cs))
unfolding walk
walk-step steps trie offset count rest children c bytes cs h g = rw (h, g, walk) refl

-- The bytes of a node where its offset says.
module _ (offsets : List ℕ) (nodes : List FlatNode) (trie : Bytes)
    (settled : Settled offsets nodes 0 0) (written : encode_nodes offsets nodes ≡ ok trie) where
  node_bytes :
      (number : ℕ) (terminal : Bytes) (es : List (ℕ × ℕ))
      → get_elem? nodes number ≡ some (record { terminal = terminal; children = es })
      → (edge_bytes : Bytes) × (rest : Bytes) × (encode_edges offsets (sorted edge_le es)
          ≡ ok edge_bytes)
        × (drop (get_or offsets number 0) trie
            ≡ uleb (length terminal) ++ (terminal ++ (length es ∷ (edge_bytes ++ rest))))
  unfolding encode_node
  node_bytes number terminal es g =
      let n : FlatNode = record { terminal = terminal; children = es } in
      let (body, rest, en, _, d) =
        encode_nodes-at offsets nodes 0 0 trie settled written number n g in
      let en' = >>-eq-ok (raise_if (ltb 255 (length es)) trie_too_wide) _ en in
      let (edge_bytes, ee, eb) = >>=-eq-ok (encode_edges offsets (sorted edge_le es)) _ en' in
      let start : get_or offsets number 0 ≡ get_or offsets (0 + number) 0 - 0 =
        let number_eq : number ≡ 0 + number = omega arith in
        ap (λ t. get_or offsets t 0) number_eq ∙ omega arith in
      (
        edge_bytes,
        rest,
        ee,
        ap (λ (t : ℕ). drop t trie) start
            ∙ d
            ∙ ap (λ t. t ++ rest) (sym (ok-injective eb))
            ∙ append_assoc (uleb (length terminal)) (terminal ++ (length es ∷ edge_bytes)) rest
            ∙ ap (λ t. uleb (length terminal) ++ t)
                (append_assoc terminal (length es ∷ edge_bytes) rest),
      )

  walk-nil :
      (steps number : ℕ) (t : TrieNode)
      → Holds nodes t number
      → walk (suc steps) trie (get_or offsets number 0) [] ≡ some (find t [])
  unfolding Holds find
  walk-nil steps number (node terminal cs) (g, hs) =
      let (edge_bytes, rest, ee, d) = node_bytes number terminal (edges cs (number + 1)) g in
      let tail = length (edges cs (number + 1)) ∷ (edge_bytes ++ rest) in
      walk-end steps trie (get_or offsets number 0) (length terminal) (terminal ++ tail)
        (ap read_uleb d ∙ read_uleb-uleb (length terminal) (terminal ++ tail))
      ∙ ap some (take-append_length terminal tail (length terminal) refl)

  walk-cons :
      (steps number c : ℕ) (name : Bytes) (terminal : Bytes) (cs : Children)
      → Holds nodes (node terminal cs) number
      → AsciiChildren cs
      → walk (suc steps) trie (get_or offsets number 0) (c ∷ name)
        ≡ go_on (walk steps trie) (step_of offsets name (find_edge (edges cs (number + 1)) c))
  unfolding Holds
  walk-cons steps number c name terminal cs (g, hs) a =
      let es = edges cs (number + 1) in
      let (edge_bytes, rest, ee, d) = node_bytes number terminal es g in
      let tail = length es ∷ (edge_bytes ++ rest) in
      let found : edge_to (length es) (edge_bytes ++ rest) (c ∷ name)
          ≡ step_of offsets name (find_edge es c) =
        ap (λ k. edge_to k (edge_bytes ++ rest) (c ∷ name)) (sym (length-sorted es))
        ∙ edge_to-encode_edges offsets (sorted edge_le es) edge_bytes rest c name
            (sorted-All edge_le (λ (e : ℕ × ℕ). IsAscii e.0) es (edges-IsAscii cs (number + 1) a))
            ee
        ∙ ap (step_of offsets name) (find_edge-sorted es c) in
      walk-step steps trie (get_or offsets number 0) (length terminal) (terminal ++ tail)
        (length es) c (edge_bytes ++ rest) name
        (ap read_uleb d ∙ read_uleb-uleb (length terminal) (terminal ++ tail))
        (drop-append_length terminal tail (length terminal) refl)
      ∙ ap (go_on (walk steps trie)) found

  -- From the offset of a node, the walk finds what the tree below the node has for the name.
  pub walk-find :
      (name : Bytes) (number : ℕ) (t : TrieNode)
      → Holds nodes t number
      → AsciiNode t
      → walk (suc (length name)) trie (get_or offsets number 0) name ≡ some (find t name)
  unfolding Holds AsciiNode find
  walk-find [] number t h a = walk-nil 0 number t h
  walk-find (c ∷ name) number (node terminal cs) h a =
      walk-cons (suc (length name)) number c name terminal cs h a
      ∙ elim (find_edge-edges nodes cs (number + 1) c h.1 a) [
        | inl (e, f) ↦ rw (e, f name) refl
        | inr (at, t, e, h', a', f) ↦ rw (e, f name) (walk-find name at t h' a')
      ]
