-- ===== src/Phase4/Trie/Layout.antt =====
-- The layout loop of `_build_export_trie`: what its last pass, which changes nothing, establishes.
use il2cppapk2ios.Phase4.Trie.{FlatNode, encode_node, encode_nodes, layout_pass, layout_loop}
use il2cppapk2ios.Common.{
  ℕ, zero, suc, ◌+◌, ◌-◌, ◌≤◌, ◌≡◌, refl, sym, ap, ◌∙◌, arith, ◌==◌, Bool, false, ◌||◌, not, List,
  [], ◌∷◌, ◌++◌, length, set, get_or, get_elem?, some, drop, Bool-cases, inl, inr,
}
use il2cppapk2ios.Common.Outcome.{ok, ok-injective, >>=-eq-ok, >>=₂-eq-ok}
use il2cppapk2ios.Struct.{Bytes}
use il2cppapk2ios.Struct.Laws.{drop-append_ge}

-- From a number and a position on, every node has the position at which it will stand.
unfoldable pub Settled : List ℕ → List FlatNode → ℕ → ℕ → Type 0
Settled offsets [] index cursor = Unit
Settled offsets (n ∷ nodes) index cursor =
    (get_or offsets index 0 ≡ cursor)
    × ((body : Bytes) × (encode_node offsets n ≡ ok body)
        × Settled offsets nodes (index + 1) (cursor + length body))

pub set-get_or :
    (offsets : List ℕ) (index value : ℕ)
    → get_or offsets index 0 ≡ value
    → set offsets index value ≡ offsets
set-get_or [] index value h = refl
set-get_or (x ∷ xs) zero value h = ap (λ t. t ∷ xs) (sym h)
set-get_or (x ∷ xs) (suc index) value h = ap (λ t. x ∷ t) (set-get_or xs index value h)

layout_pass-Settled :
    (nodes : List FlatNode) (index cursor : ℕ) (offsets offsets' : List ℕ)
    → layout_pass nodes index cursor offsets ≡ ok (offsets', false)
    → (offsets' ≡ offsets) × Settled offsets nodes index cursor
unfolding layout_pass Settled
layout_pass-Settled [] index cursor offsets offsets' h = (cc, tt)
layout_pass-Settled (n ∷ nodes) index cursor offsets offsets' h =
    let moved = set offsets index cursor in
    let (body, eb, h') = >>=-eq-ok (encode_node moved n) _ h in
    let (rest, er, e) =
      >>=-eq-ok (layout_pass nodes (index + 1) (cursor + length body) moved) _ h' in
    let same : rest.0 ≡ offsets' = ap (λ (p : List ℕ × Bool). p.0) (ok-injective e) in
    let quiet : (not (get_or offsets index 0 == cursor) || rest.1) ≡ false =
      ap (λ (p : List ℕ × Bool). p.1) (ok-injective e) in
    let at : get_or offsets index 0 ≡ cursor = ground arith in
    let still : rest.1 ≡ false = ground arith in
    let keep = set-get_or offsets index cursor at in
    let er' : layout_pass nodes (index + 1) (cursor + length body) offsets ≡ ok (rest.0, false) =
      ap (layout_pass nodes (index + 1) (cursor + length body)) (sym keep)
      ∙ er
      ∙ ap (λ b. ok (rest.0, b)) still in
    let (kept, settled) =
      layout_pass-Settled nodes (index + 1) (cursor + length body) offsets rest.0 er' in
    (sym same ∙ kept, (at, (body, ap (λ o. encode_node o n) (sym keep) ∙ eb, settled)))

-- Offsets that the loop returns are the positions of the nodes.
pub layout_loop-Settled :
    (passes : ℕ) (nodes : List FlatNode) (offsets offsets' : List ℕ)
    → layout_loop passes nodes offsets ≡ ok offsets'
    → Settled offsets' nodes 0 0
unfolding layout_loop
layout_loop-Settled zero nodes offsets offsets' h = cc
layout_loop-Settled (suc passes) nodes offsets offsets' h =
    let (result, er, e) = >>=-eq-ok (layout_pass nodes 0 0 offsets) _ h in
    elim (Bool-cases result.1) [
      | inl again ↦ layout_loop-Settled passes nodes result.0 offsets' (rw again at e)
      | inr still ↦
          let er' : layout_pass nodes 0 0 offsets ≡ ok (result.0, false) = rw (← still) er in
          let (kept, settled) = layout_pass-Settled nodes 0 0 offsets result.0 er' in
          let last : result.0 ≡ offsets' = ok-injective (rw still at e) in
          rw (sym last ∙ kept) settled
    ]

-- Where a node stands: its encoding begins at its offset.
pub encode_nodes-at :
    (offsets : List ℕ) (nodes : List FlatNode) (index cursor : ℕ) (out : Bytes)
    → Settled offsets nodes index cursor
    → encode_nodes offsets nodes ≡ ok out
    → (i : ℕ) (n : FlatNode) → get_elem? nodes i ≡ some n
    → (body : Bytes) × (rest : Bytes) × (encode_node offsets n ≡ ok body)
      × (cursor ≤ get_or offsets (index + i) 0)
      × (drop (get_or offsets (index + i) 0 - cursor) out ≡ body ++ rest)
unfolding encode_nodes Settled
encode_nodes-at offsets [] index cursor out s h i n g = cc
encode_nodes-at offsets (m ∷ nodes) index cursor out (at, (body, eb, s)) h zero n g =
    let (head, tail, eh, et, e) =
      >>=₂-eq-ok (encode_node offsets m) (encode_nodes offsets nodes) ◌++◌ h in
    let e0 : index + 0 ≡ index = omega arith in
    let em : m ≡ n = cc in
    let zero_gap : cursor - cursor ≡ 0 = omega arith in
    let en : encode_node offsets n ≡ ok head = ap (encode_node offsets) (sym em) ∙ eh in
    rw (e0, at, zero_gap, e) (head, tail, en, omega arith, refl)
encode_nodes-at offsets (m ∷ nodes) index cursor out (at, (body, eb, s)) h (suc i) n g =
    let (head, tail, eh, et, e) =
      >>=₂-eq-ok (encode_node offsets m) (encode_nodes offsets nodes) ◌++◌ h in
    let same : head ≡ body = ok-injective (sym eh ∙ eb) in
    let (b, rest, en, le, d) =
      encode_nodes-at offsets nodes (index + 1) (cursor + length body) tail s et i n g in
    let e1 : index + suc i ≡ index + 1 + i = omega arith in
    let gap : get_or offsets (index + 1 + i) 0 - cursor - length body
        ≡ get_or offsets (index + 1 + i) 0 - (cursor + length body) =
      omega arith in
    rw (e1, e, same)
      (
        b,
        rest,
        en,
        omega arith,
        drop-append_ge body tail (get_or offsets (index + 1 + i) 0 - cursor) (omega arith)
            ∙ rw gap d,
      )
