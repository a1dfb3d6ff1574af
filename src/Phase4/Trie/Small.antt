-- ===== src/Phase4/Trie/Small.antt =====
-- The layout loop of `_build_export_trie` ends after two passes when all offsets fit into one byte.
use native.Mathlib.Nat.{pow-suc, one-le-pow}
use il2cppapk2ios.Phase4.Trie.{FlatNode, edge_le, encode_edges, encode_node, layout_pass}
use il2cppapk2ios.Phase4.Trie.Edges.{IsAscii, length-sorted}
use il2cppapk2ios.Phase4.Trie.Layout.{set-get_or}
use il2cppapk2ios.Leb.{uleb}
use il2cppapk2ios.Leb.Uleb.{uleb-IsShortest}
use il2cppapk2ios.Common.{
  ℕ, zero, suc, ◌+◌, ◌*◌, ◌^◌, ◌≤◌, ◌<◌, ◌≡◌, ◌≢◌, refl, ap, ◌∙◌, arith, ◌==◌, ltb, Bool, false,
  ◌||◌, not, List, [], ◌∷◌, ◌++◌, length, length-append, length-set, set, get_or, All, ◌⊎◌,
}
use il2cppapk2ios.Common.Outcome.{ok}
use il2cppapk2ios.Common.Sort.{sorted, sorted-All}
use il2cppapk2ios.Common.Text.{encode}
use il2cppapk2ios.Struct.{Bytes}

abbrev pub IsSmall : ℕ → Type 0
IsSmall offset = offset < 128

length-uleb_small : (v : ℕ) → v < 128 → length (uleb v) ≡ 1
length-uleb_small v h =
    let (_, at_least, _, shortest) = uleb-IsShortest v in
    one_group (length (uleb v)) at_least shortest
  where
    one_group : (n : ℕ) → 1 ≤ n → (n ≡ 1) ⊎ (128 ^ n ≤ 128 * v) → n ≡ 1
    one_group zero a s = absurd (omega arith)
    one_group (suc zero) a s = refl
    one_group (suc (suc m)) a s =
        omega (arith, s, pow-suc 128 (suc m), pow-suc 128 m, one-le-pow m 128 (omega arith))

get_or-IsSmall : (offsets : List ℕ) (i : ℕ) → All IsSmall offsets → get_or offsets i 0 < 128
get_or-IsSmall [] i h = omega arith
get_or-IsSmall (x ∷ xs) zero (h, hs) = h
get_or-IsSmall (x ∷ xs) (suc i) (h, hs) = get_or-IsSmall xs i hs

set-IsSmall :
    (offsets : List ℕ) (i v : ℕ) → All IsSmall offsets → v < 128 → All IsSmall (set offsets i v)
set-IsSmall [] i v h k = tt
set-IsSmall (x ∷ xs) zero v (h, hs) k = (k, hs)
set-IsSmall (x ∷ xs) (suc i) v (h, hs) k = (h, set-IsSmall xs i v hs k)

-- The bytes of a node whose offsets are small.
abbrev pub node_size : FlatNode → ℕ
node_size n = length (uleb (length n.terminal)) + length n.terminal + 1 + 3 * length n.children

-- A node that can be encoded.
pub record IsEncodable (n : FlatNode) : Type 0 where
  pub narrow : length n.children ≤ 255
  pub ascii : All (λ (e : ℕ × ℕ). IsAscii e.0) n.children

ascii_edge :
    (offsets : List ℕ) (edge number : ℕ) (es : List (ℕ × ℕ)) (tail : Bytes)
    → edge < 128
    → encode_edges offsets es ≡ ok tail
    → encode_edges offsets ((edge, number) ∷ es)
      ≡ ok (edge ∷ (0 ∷ (uleb (get_or offsets number 0) ++ tail)))
unfolding encode_edges
ascii_edge offsets edge number es tail h e =
    let label : encode (edge ∷ []) ≡ ok (edge ∷ []) = encoded edge h in rw (label, e) refl
  where
    encoded : (edge : ℕ) → edge < 128 → encode (edge ∷ []) ≡ ok (edge ∷ [])
    encoded edge h = unfold encode in ground arith

encode_edges-small :
    (offsets : List ℕ) (es : List (ℕ × ℕ))
    → All IsSmall offsets
    → All (λ (e : ℕ × ℕ). IsAscii e.0) es
    → (bytes : Bytes) × (encode_edges offsets es ≡ ok bytes) × (length bytes ≡ 3 * length es)
encode_edges-small offsets [] s h = ([], unfold encode_edges in refl, refl)
encode_edges-small offsets ((edge, number) ∷ es) s (h, hs) =
    let (tail, e, n) = encode_edges-small offsets es s hs in
    let one = length-uleb_small (get_or offsets number 0) (get_or-IsSmall offsets number s) in
    (
      _,
      ascii_edge offsets edge number es tail h.1 e,
      omega (arith, n, one, length-append (uleb (get_or offsets number 0)) tail),
    )

pub encode_node-small :
    (offsets : List ℕ) (n : FlatNode)
    → All IsSmall offsets
    → IsEncodable n
    → (body : Bytes) × (encode_node offsets n ≡ ok body) × (length body ≡ node_size n)
unfolding encode_node
encode_node-small offsets n s p =
    let (edge_bytes, e, l) =
      encode_edges-small offsets (sorted edge_le n.children) s
        (sorted-All edge_le (λ (e : ℕ × ℕ). IsAscii e.0) n.children p.ascii) in
    let narrow : ltb 255 (length n.children) ≡ false = ground (arith, p.narrow) in
    let size = length (uleb (length n.terminal)) in
    (
      uleb (length n.terminal) ++ (n.terminal ++ (length n.children ∷ edge_bytes)),
      rw (narrow, e) refl,
      omega (
        arith,
        l,
        length-sorted n.children,
        length-append (uleb (length n.terminal)) (n.terminal ++ (length n.children ∷ edge_bytes)),
        length-append n.terminal (length n.children ∷ edge_bytes),
      ),
    )

unfoldable pub total_size : List FlatNode → ℕ
total_size [] = 0
total_size (n ∷ nodes) = node_size n + total_size nodes

-- From a number and a position on, every node has the position that its size and those before give.
pub Positioned : List ℕ → List FlatNode → ℕ → ℕ → Type 0
Positioned offsets [] index cursor = Unit
Positioned offsets (n ∷ nodes) index cursor =
    (get_or offsets index 0 ≡ cursor) × Positioned offsets nodes (index + 1) (cursor + node_size n)

get_or-set_self :
    (offsets : List ℕ) (i v : ℕ) → i < length offsets → get_or (set offsets i v) i 0 ≡ v
get_or-set_self [] i v h = absurd (omega arith)
get_or-set_self (x ∷ xs) zero v h = refl
get_or-set_self (x ∷ xs) (suc i) v h = get_or-set_self xs i v (omega arith)

get_or-set_ne :
    (offsets : List ℕ) (i j v : ℕ) → i ≢ j → get_or (set offsets i v) j 0 ≡ get_or offsets j 0
get_or-set_ne [] i j v h = refl
get_or-set_ne (x ∷ xs) zero zero v h = absurd (h refl)
get_or-set_ne (x ∷ xs) zero (suc j) v h = refl
get_or-set_ne (x ∷ xs) (suc i) zero v h = refl
get_or-set_ne (x ∷ xs) (suc i) (suc j) v h = get_or-set_ne xs i j v (λ e. h (ap suc e))

-- What a pass from small offsets gives: small offsets at the positions, below which nothing moved.
pub record Passed (nodes : List FlatNode) (index cursor : ℕ) (offsets offsets' : List ℕ)
    : Type 0 where
  pub small : All IsSmall offsets'
  pub positioned : Positioned offsets' nodes index cursor
  pub kept : (j : ℕ) → j < index → get_or offsets' j 0 ≡ get_or offsets j 0

pass_step :
    (n : FlatNode) (nodes : List FlatNode) (index cursor : ℕ) (offsets offsets' : List ℕ)
    (body : Bytes) (changed : Bool)
    → encode_node (set offsets index cursor) n ≡ ok body
    → layout_pass nodes (index + 1) (cursor + length body) (set offsets index cursor)
      ≡ ok (offsets', changed)
    → layout_pass (n ∷ nodes) index cursor offsets
      ≡ ok (offsets', not (get_or offsets index 0 == cursor) || changed)
unfolding layout_pass
pass_step n nodes index cursor offsets offsets' body changed e r = rw (e, r) refl

pub layout_pass-Passed :
    (nodes : List FlatNode) (index cursor : ℕ) (offsets : List ℕ)
    → All IsEncodable nodes
    → All IsSmall offsets
    → length offsets ≡ index + length nodes
    → cursor + total_size nodes ≤ 128
    → (offsets' : List ℕ) × (changed : Bool) × (layout_pass nodes index cursor offsets
        ≡ ok (offsets', changed))
      × Passed nodes index cursor offsets offsets'
unfolding total_size Positioned
layout_pass-Passed [] index cursor offsets p s l b = (
  offsets,
  false,
  unfold layout_pass in refl,
  record { small = s; positioned = tt; kept = λ j h. refl },
)
layout_pass-Passed (n ∷ nodes) index cursor offsets (p, ps) s l b =
    let moved = set offsets index cursor in
    let moved_small = set-IsSmall offsets index cursor s (omega arith) in
    let (body, e, size) = encode_node-small moved n moved_small p in
    let at : cursor + length body ≡ cursor + node_size n = ap (λ (t : ℕ). cursor + t) size in
    let moved_length : length moved ≡ index + 1 + length nodes =
      length-set offsets index cursor ∙ omega arith in
    let (offsets', changed, r, done) =
      layout_pass-Passed nodes (index + 1) (cursor + node_size n) moved ps moved_small moved_length
        (omega arith) in
    let r' : layout_pass nodes (index + 1) (cursor + length body) moved ≡ ok (offsets', changed) =
      ap (λ (t : ℕ). layout_pass nodes (index + 1) t moved) at ∙ r in
    (
      offsets',
      not (get_or offsets index 0 == cursor) || changed,
      pass_step n nodes index cursor offsets offsets' body changed e r',
      record {
        small = done.small;
        positioned = (
          done.kept index (omega arith) ∙ get_or-set_self offsets index cursor (omega arith),
          done.positioned,
        );
        kept = λ j h.
            done.kept j (omega arith)
            ∙ get_or-set_ne offsets index j cursor (λ e'. absurd (omega arith));
      },
    )

-- A pass from the positions changes nothing.
pub layout_pass-still :
    (nodes : List FlatNode) (index cursor : ℕ) (offsets : List ℕ)
    → All IsEncodable nodes
    → All IsSmall offsets
    → Positioned offsets nodes index cursor
    → layout_pass nodes index cursor offsets ≡ ok (offsets, false)
unfolding Positioned
layout_pass-still [] index cursor offsets p s q = unfold layout_pass in refl
layout_pass-still (n ∷ nodes) index cursor offsets (p, ps) s (q, qs) =
    let keep = set-get_or offsets index cursor q in
    let (body, e, size) = encode_node-small offsets n s p in
    let rest = layout_pass-still nodes (index + 1) (cursor + node_size n) offsets ps s qs in
    let e' : encode_node (set offsets index cursor) n ≡ ok body =
      ap (λ o. encode_node o n) keep ∙ e in
    let rest' : layout_pass nodes (index + 1) (cursor + length body) (set offsets index cursor)
        ≡ ok (offsets, false) =
      ap (layout_pass nodes (index + 1) (cursor + length body)) keep
      ∙ ap (λ (t : ℕ). layout_pass nodes (index + 1) (cursor + t) offsets) size
      ∙ rest in
    let quiet : (not (get_or offsets index 0 == cursor) || false) ≡ false = ground arith in
    pass_step n nodes index cursor offsets offsets body false e' rest'
    ∙ ap (λ b. ok (offsets, b)) quiet
