-- ===== src/Phase4/Trie.antt =====
-- `_build_export_trie` of src/il2cppapk2ios/phase4.py. The field `offset` of a node, which the layout
-- loop changes, is kept in a list of its own, at the number that `visit` gives the node.
pub mod Names
pub mod Edges
pub mod Visit
pub mod Layout
pub mod Walk
pub mod Exports
pub mod Small
pub mod Returns
pub mod Tests
use il2cppapk2ios.Common.{
  ℕ, zero, suc, ◌+◌, ◌==◌, ltb, leb, Bool, true, false, ◌||◌, not, List, [], ◌∷◌, ◌++◌, length, set,
  get_or, replicate, if◌then◌else◌,
}
use il2cppapk2ios.Common.Outcome.{
  Outcome, ok, err, ◌>>=◌, ◌>>◌, raise_if, trie_too_wide, trie_not_converged,
}
use il2cppapk2ios.Common.Sort.{sorted}
use il2cppapk2ios.Common.Text.{text_eq, text_le, encode}
use il2cppapk2ios.Leb.{uleb}
use il2cppapk2ios.Struct.{Bytes}

-- A node and the dict of its children, in the order in which they were put in.
mutual
  pub data TrieNode : Type 0 where
    node : Bytes → Children → TrieNode

  pub data Children : Type 0 where
    no_child : Children
    child : ℕ → TrieNode → Children → Children

-- New nodes for the rest of a name.
unfoldable pub chain : List ℕ → Bytes → TrieNode
chain [] payload = node payload no_child
chain (ch ∷ name) payload = node [] (child ch (chain name payload) no_child)

-- The walk along `name` with `setdefault`, and the write to the node it ends at.
unfoldable mutual
  unfolding chain

  pub put : TrieNode → List ℕ → Bytes → TrieNode
  put (node terminal children) [] payload = node payload children
  put (node terminal children) (ch ∷ name) payload =
      node terminal (put_child children ch name payload)

  pub put_child : Children → ℕ → List ℕ → Bytes → Children
  put_child no_child ch name payload = child ch (chain name payload) no_child
  put_child (child edge next rest) ch name payload =
      let inside = put next name payload in
      let later = put_child rest ch name payload in
      if edge == ch then child edge inside rest else child edge next later

-- _uleb128(0) + _uleb128(address)
unfoldable pub export_payload : ℕ → Bytes
unfolding uleb
export_payload address = uleb 0 ++ uleb address

unfoldable pub put_all : List (List ℕ × ℕ) → TrieNode → TrieNode
unfolding put export_payload
put_all [] root = root
put_all ((name, address) ∷ exports) root = put_all exports (put root name (export_payload address))

-- The order of the items of a dict with distinct names.
abbrev pub export_le : List ℕ × ℕ → List ℕ × ℕ → Bool
export_le a b = text_le a.0 b.0

unfoldable pub build_trie : List (List ℕ × ℕ) → TrieNode
unfolding put_all sorted text_le
build_trie exports = put_all (sorted export_le exports) (node [] no_child)

-- A node in the list `nodes`: its children are given by their numbers.
pub record FlatNode : Type 0 where
  pub terminal : Bytes
  pub children : List (ℕ × ℕ)

unfoldable mutual
  pub size : TrieNode → ℕ
  size (node terminal children) = 1 + sizes children

  pub sizes : Children → ℕ
  sizes no_child = 0
  sizes (child edge next rest) = size next + sizes rest

-- The edges of a node whose first child has the number `number`.
unfoldable pub edges : Children → ℕ → List (ℕ × ℕ)
unfolding size
edges no_child number = []
edges (child edge next rest) number = (edge, number) ∷ edges rest (number + size next)

-- `visit`, for a node with the number `number`
unfoldable mutual
  unfolding edges size

  pub visit : TrieNode → ℕ → List FlatNode
  visit (node terminal children) number =
      record { terminal = terminal; children = edges children (number + 1) }
      ∷ visit_children children (number + 1)

  pub visit_children : Children → ℕ → List FlatNode
  visit_children no_child number = []
  visit_children (child edge next rest) number =
      visit next number ++ visit_children rest (number + size next)

abbrev pub edge_le : ℕ × ℕ → ℕ × ℕ → Bool
edge_le a b = leb a.0 b.0

unfoldable pub encode_edges : List ℕ → List (ℕ × ℕ) → Outcome Bytes
unfolding encode uleb
encode_edges offsets [] = ok []
encode_edges offsets ((edge, number) ∷ rest) = do
  label ← encode (edge ∷ [])
  tail ← encode_edges offsets rest
  ok (label ++ (0 ∷ (uleb (get_or offsets number 0) ++ tail)))

unfoldable pub encode_node : List ℕ → FlatNode → Outcome Bytes
unfolding encode_edges sorted uleb
encode_node offsets n = do
  raise_if (ltb 255 (length n.children)) trie_too_wide
  edge_bytes ← encode_edges offsets (sorted edge_le n.children)
  ok (uleb (length n.terminal) ++ (n.terminal ++ (length n.children ∷ edge_bytes)))

-- One pass of the layout loop from the node with the number `index` on, with its new offsets and
-- `changed`.
unfoldable pub layout_pass : List FlatNode → ℕ → ℕ → List ℕ → Outcome (List ℕ × Bool)
unfolding encode_node
layout_pass [] index cursor offsets = ok (offsets, false)
layout_pass (n ∷ nodes) index cursor offsets = do
  let moved = set offsets index cursor
  body ← encode_node moved n
  rest ← layout_pass nodes (index + 1) (cursor + length body) moved
  ok (rest.0, not (get_or offsets index 0 == cursor) || rest.1)

-- `for _ in range(passes)` with its `else`
unfoldable pub layout_loop : ℕ → List FlatNode → List ℕ → Outcome (List ℕ)
unfolding layout_pass
layout_loop zero nodes offsets = err trie_not_converged
layout_loop (suc passes) nodes offsets = do
  result ← layout_pass nodes 0 0 offsets
  let again = layout_loop passes nodes result.0
  (if result.1 then again else ok result.0)

unfoldable pub encode_nodes : List ℕ → List FlatNode → Outcome Bytes
unfolding encode_node
encode_nodes offsets [] = ok []
encode_nodes offsets (n ∷ nodes) = do
  head ← encode_node offsets n
  tail ← encode_nodes offsets nodes
  ok (head ++ tail)

unfoldable pub build_export_trie : List (List ℕ × ℕ) → Outcome Bytes
unfolding build_trie visit layout_loop encode_nodes
build_export_trie exports = do
  let nodes = visit (build_trie exports) 0
  offsets ← layout_loop 32 nodes (replicate (length nodes) 0)
  encode_nodes offsets nodes
