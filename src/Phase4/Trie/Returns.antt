-- ===== src/Phase4/Trie/Returns.antt =====
-- A trie whose nodes need at most 128 bytes is built: two passes of the layout loop are enough.
use il2cppapk2ios.Phase4.Trie.{
  FlatNode, encode_nodes, layout_pass, layout_loop, build_trie, visit, build_export_trie,
}
use il2cppapk2ios.Phase4.Trie.Small.{
  IsSmall, IsEncodable, total_size, layout_pass-Passed, layout_pass-still, encode_node-small,
}
use il2cppapk2ios.Common.{
  ℕ, zero, suc, ◌≤◌, ◌≡◌, refl, ◌∙◌, arith, Bool, true, false, List, [], ◌∷◌, ◌++◌, length,
  length-append, length-replicate, replicate, All, if◌then◌else◌,
}
use il2cppapk2ios.Common.Outcome.{ok, Outcome}
use il2cppapk2ios.Struct.{Bytes}

zeros-IsSmall : (n : ℕ) → All IsSmall (replicate n 0)
zeros-IsSmall zero = tt
zeros-IsSmall (suc n) = (omega arith, zeros-IsSmall n)

loop_step :
    (passes : ℕ) (nodes : List FlatNode) (offsets offsets' : List ℕ) (changed : Bool)
    → layout_pass nodes 0 0 offsets ≡ ok (offsets', changed)
    → layout_loop (suc passes) nodes offsets
      ≡ (if changed then layout_loop passes nodes offsets' else ok offsets')
unfolding layout_loop
loop_step passes nodes offsets offsets' changed h = rw h refl

two_passes :
    (passes : ℕ) (nodes : List FlatNode)
    → All IsEncodable nodes
    → total_size nodes ≤ 128
    → (offsets : List ℕ) × (layout_loop (suc (suc passes)) nodes (replicate (length nodes) 0)
        ≡ ok offsets)
      × All IsSmall offsets
two_passes passes nodes p b =
    let start : List ℕ = replicate (length nodes) 0 in
    let (offsets, changed, e, done) =
      layout_pass-Passed nodes 0 0 start p (zeros-IsSmall (length nodes))
        (length-replicate (length nodes) 0 ∙ omega arith) (omega arith) in
    let still = layout_pass-still nodes 0 0 offsets p done.small done.positioned in
    let first = loop_step (suc passes) nodes start offsets changed e in
    let second : layout_loop (suc passes) nodes offsets ≡ ok offsets =
      loop_step passes nodes offsets offsets false still in
    (
      offsets,
      first ∙ either changed (layout_loop (suc passes) nodes offsets) offsets second,
      done.small,
    )
  where
    either :
        (changed : Bool) (again : Outcome (List ℕ)) (offsets : List ℕ)
        → again ≡ ok offsets
        → (if changed then again else ok offsets) ≡ ok offsets
    either true again offsets h = h
    either false again offsets h = refl

encode_nodes-small :
    (offsets : List ℕ) (nodes : List FlatNode)
    → All IsSmall offsets
    → All IsEncodable nodes
    → (out : Bytes) × (encode_nodes offsets nodes ≡ ok out) × (length out ≡ total_size nodes)
unfolding encode_nodes total_size
encode_nodes-small offsets [] s p = ([], refl, refl)
encode_nodes-small offsets (n ∷ nodes) s (p, ps) =
    let (body, e, l) = encode_node-small offsets n s p in
    let (rest, e', l') = encode_nodes-small offsets nodes s ps in
    (body ++ rest, rw (e, e') refl, length-append body rest ∙ omega (arith, l, l'))

-- If every node has at most 255 children with ASCII edges, and the nodes need at most 128 bytes with
-- one byte for each offset, the trie is built and has exactly that length.
pub build_export_trie-returns :
    (exports : List (List ℕ × ℕ))
    → All IsEncodable (visit (build_trie exports) 0)
    → total_size (visit (build_trie exports) 0) ≤ 128
    → (trie : Bytes) × (build_export_trie exports ≡ ok trie)
      × (length trie ≡ total_size (visit (build_trie exports) 0))
unfolding build_export_trie
build_export_trie-returns exports p b =
    let nodes = visit (build_trie exports) 0 in
    let (offsets, e, s) = two_passes 30 nodes p b in
    let (out, e', l) = encode_nodes-small offsets nodes s p in (out, rw e e', l)
