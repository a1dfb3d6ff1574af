-- ===== src/Phase4/Trie/Visit.antt =====
-- The list `nodes` that `visit` fills: every node of the tree stands at its number.
use mathlib.Core.Path.{subst}
use il2cppapk2ios.Phase4.Trie.{
  TrieNode, node, Children, no_child, child, FlatNode, size, sizes, edges, visit, visit_children,
}
use il2cppapk2ios.Phase4.Trie.Names.{find, find_child}
use il2cppapk2ios.Phase4.Trie.Edges.{find_edge, AsciiNode, AsciiChildren}
use il2cppapk2ios.Common.{
  ℕ, zero, suc, ◌+◌, ◌≡◌, refl, sym, ap, ◌∙◌, arith, ◌==◌, List, [], ◌∷◌, ◌++◌, append_assoc,
  length, length-append, get_elem?, none, some, Bool-cases, inl, inr, ◌⊎◌, append-nil,
}
use il2cppapk2ios.Struct.{Bytes}

-- `nodes` has the tree with its root at `number`.
unfoldable mutual
  pub Holds : List FlatNode → TrieNode → ℕ → Type 0
  Holds nodes (node terminal children) number =
      (get_elem? nodes number
        ≡ some (record { terminal = terminal; children = edges children (number + 1) }))
      × HoldsChildren nodes children (number + 1)

  pub HoldsChildren : List FlatNode → Children → ℕ → Type 0
  HoldsChildren nodes no_child number = Unit
  HoldsChildren nodes (child edge next rest) number =
      Holds nodes next number × HoldsChildren nodes rest (number + size next)

mutual
  unfolding visit size

  length-visit : (t : TrieNode) (number : ℕ) → length (visit t number) ≡ size t
  length-visit (node terminal children) number =
      omega (arith, length-visit_children children (number + 1))

  length-visit_children :
      (cs : Children) (number : ℕ) → length (visit_children cs number) ≡ sizes cs
  length-visit_children no_child number = refl
  length-visit_children (child edge next rest) number = omega (
    arith,
    length-append (visit next number) (visit_children rest (number + size next)),
    length-visit next number,
    length-visit_children rest (number + size next),
  )

get_elem?-append_here :
    {A : Type 0} (pre : List A) (a : A) (post : List A) (number : ℕ)
    → length pre ≡ number
    → get_elem? (pre ++ (a ∷ post)) number ≡ some a
get_elem?-append_here [] a post zero h = refl
get_elem?-append_here [] a post (suc number) h = absurd (omega arith)
get_elem?-append_here (x ∷ pre) a post zero h = absurd (omega arith)
get_elem?-append_here (x ∷ pre) a post (suc number) h =
    get_elem?-append_here pre a post number (omega arith)

-- The same list with the part in front of a node made longer.
abbrev flat : Bytes → Children → ℕ → FlatNode
flat terminal children number = record {
  terminal = terminal;
  children = edges children (number + 1);
}

mutual
  unfolding visit Holds

  visit-Holds_within :
      (t : TrieNode) (pre post : List FlatNode) (number : ℕ)
      → length pre ≡ number
      → Holds (pre ++ (visit t number ++ post)) t number
  visit-Holds_within (node terminal children) pre post number h = (
    get_elem?-append_here pre _ _ number h,
    subst (λ ns. HoldsChildren ns children (number + 1))
        (append_assoc pre (flat terminal children number ∷ [])
          (visit_children children (number + 1) ++ post))
        (children-Holds_within children (pre ++ (flat terminal children number ∷ [])) post
          (number + 1) (length-append pre (flat terminal children number ∷ []) ∙ omega arith)),
  )

  children-Holds_within :
      (cs : Children) (pre post : List FlatNode) (number : ℕ)
      → length pre ≡ number
      → HoldsChildren (pre ++ (visit_children cs number ++ post)) cs number
  children-Holds_within no_child pre post number h = tt
  children-Holds_within (child edge next rest) pre post number h =
      let first = visit next number in
      let others = visit_children rest (number + size next) in
      let e : pre ++ ((first ++ others) ++ post) ≡ pre ++ (first ++ (others ++ post)) =
        ap (λ t. pre ++ t) (append_assoc first others post) in
      (
        subst (λ ns. Holds ns next number) (sym e)
            (visit-Holds_within next pre (others ++ post) number h),
        subst (λ ns. HoldsChildren ns rest (number + size next))
            (append_assoc pre first (others ++ post) ∙ sym e)
            (children-Holds_within rest (pre ++ first) post (number + size next)
              (omega (arith, length-append pre first, length-visit next number))),
      )

-- The whole list has the whole tree, with the root at 0.
pub visit-Holds : (t : TrieNode) → Holds (visit t 0) t 0
visit-Holds t =
    subst (λ ns. Holds ns t 0) (append-nil (visit t 0)) (visit-Holds_within t [] [] 0 refl)

-- Where a character leads from a node: to the tree in which the rest of the name is looked up.
pub find_edge-edges :
    (nodes : List FlatNode) (cs : Children) (number c : ℕ)
    → HoldsChildren nodes cs number
    → AsciiChildren cs
    → ((find_edge (edges cs number) c ≡ none) × ((name : List ℕ) → find_child cs c name ≡ []))
      ⊎ ((at : ℕ) × (t : TrieNode) × (find_edge (edges cs number) c ≡ some at)
          × Holds nodes t at
          × AsciiNode t
          × ((name : List ℕ) → find_child cs c name ≡ find t name))
unfolding find_edge edges find Holds AsciiNode
find_edge-edges nodes no_child number c h a = inl (refl, λ name. refl)
find_edge-edges nodes (child edge next rest) number c (h, hs) (k, a, more) =
    elim (Bool-cases (edge == c)) [
      | inl e ↦ rw e (inr (number, next, refl, h, a, λ name. refl))
      | inr e ↦ rw e (find_edge-edges nodes rest (number + size next) c hs more)
    ]
