-- ===== src/Phase4/Trie/Names.antt =====
-- The names in the tree that `_build_export_trie` builds from a dict.
use il2cppapk2ios.Phase4.Trie.{
  TrieNode, node, Children, no_child, child, chain, put, put_child, put_all, export_payload,
  export_le, build_trie,
}
use il2cppapk2ios.Common.{
  ℕ, zero, suc, ◌≡◌, refl, ◌∙◌, arith, ◌==◌, false, ◌&&◌, List, [], ◌∷◌, All, some, get_elem?,
  if◌then◌else◌, Bool-cases, inl, inr,
}
use il2cppapk2ios.Common.Sort.{insert, sorted, sorted-All}
use il2cppapk2ios.Common.Text.{text_eq, text_eq_iff}
use il2cppapk2ios.Struct.{Bytes}

-- The terminal of the node at the end of a name; a node that is missing has none.
unfoldable mutual
  pub find : TrieNode → List ℕ → Bytes
  find (node terminal children) [] = terminal
  find (node terminal children) (ch ∷ name) = find_child children ch name

  pub find_child : Children → ℕ → List ℕ → Bytes
  find_child no_child ch name = []
  find_child (child edge next rest) ch name =
      let inside = find next name in
      let later = find_child rest ch name in if edge == ch then inside else later

find-chain :
    (name : List ℕ) (payload : Bytes) (other : List ℕ)
    → find (chain name payload) other ≡ (if text_eq name other then payload else [])
unfolding find chain text_eq
find-chain [] payload [] = refl
find-chain [] payload (c ∷ other) = refl
find-chain (ch ∷ name) payload [] = refl
find-chain (ch ∷ name) payload (c ∷ other) = ground (arith, find-chain name payload other)

mutual
  unfolding find put text_eq

  find-put :
      (n : TrieNode) (name : List ℕ) (payload : Bytes) (other : List ℕ)
      → find (put n name payload) other ≡ (if text_eq name other then payload else find n other)
  find-put (node terminal children) [] payload [] = refl
  find-put (node terminal children) [] payload (c ∷ other) = refl
  find-put (node terminal children) (ch ∷ name) payload [] = refl
  find-put (node terminal children) (ch ∷ name) payload (c ∷ other) =
      find-put_child children ch name payload c other

  find-put_child :
      (cs : Children) (ch : ℕ) (name : List ℕ) (payload : Bytes) (c : ℕ) (other : List ℕ)
      → find_child (put_child cs ch name payload) c other
        ≡ (if (ch == c) && text_eq name other then payload else find_child cs c other)
  find-put_child no_child ch name payload c other = ground (arith, find-chain name payload other)
  find-put_child (child edge next rest) ch name payload c other =
      let inside = find-put next name payload other in
      let later = find-put_child rest ch name payload c other in ground arith

-- What the terminal of a name becomes when exports are put in one after the other.
payload_of : List (List ℕ × ℕ) → List ℕ → Bytes → Bytes
payload_of [] name before = before
payload_of ((n, a) ∷ exports) name before =
    payload_of exports name (if text_eq n name then export_payload a else before)

find-put_all :
    (exports : List (List ℕ × ℕ)) (root : TrieNode) (name : List ℕ)
    → find (put_all exports root) name ≡ payload_of exports name (find root name)
unfolding put_all payload_of
find-put_all [] root name = refl
find-put_all ((n, a) ∷ exports) root name =
    let e = find-put root n (export_payload a) name in
    rw (← e) (find-put_all exports (put root n (export_payload a)) name)

-- The names of a dict.
abbrev pub Distinct : List (List ℕ × ℕ) → Type 0
Distinct [] = Unit
Distinct (e ∷ es) = All (λ (y : List ℕ × ℕ). text_eq e.0 y.0 ≡ false) es × Distinct es

never_both :
    (x y name : List ℕ) (px py before : Bytes)
    → text_eq x y ≡ false
    → (if text_eq x name then px else if text_eq y name then py else before)
      ≡ (if text_eq y name then py else if text_eq x name then px else before)
never_both x y name px py before h =
    ground (arith, text_eq_iff x name, text_eq_iff y name, text_eq_iff x y)

payload_of-insert :
    (x : List ℕ × ℕ) (ys : List (List ℕ × ℕ)) (name : List ℕ) (before : Bytes)
    → All (λ (y : List ℕ × ℕ). text_eq x.0 y.0 ≡ false) ys
    → payload_of (insert export_le x ys) name before ≡ payload_of (x ∷ ys) name before
unfolding payload_of insert
payload_of-insert x [] name before h = refl
payload_of-insert x (y ∷ ys) name before (h, hs) = elim (Bool-cases (export_le x y)) [
  | inl e ↦ rw e refl
  | inr e ↦
      rw
        (
          e,
          payload_of-insert x ys name (if text_eq y.0 name then export_payload y.1 else before) hs,
          never_both x.0 y.0 name (export_payload x.1) (export_payload y.1) before h,
        )
        refl
]

payload_of-sorted :
    (exports : List (List ℕ × ℕ)) (name : List ℕ) (before : Bytes)
    → Distinct exports
    → payload_of (sorted export_le exports) name before ≡ payload_of exports name before
unfolding payload_of sorted
payload_of-sorted [] name before h = refl
payload_of-sorted (x ∷ xs) name before (h, hs) =
    payload_of-insert x (sorted export_le xs) name before
      (sorted-All export_le (λ (y : List ℕ × ℕ). text_eq x.0 y.0 ≡ false) xs h)
    ∙ payload_of-sorted xs name _ hs

payload_of-other :
    (exports : List (List ℕ × ℕ)) (name : List ℕ) (before : Bytes)
    → All (λ (y : List ℕ × ℕ). text_eq y.0 name ≡ false) exports
    → payload_of exports name before ≡ before
unfolding payload_of
payload_of-other [] name before h = refl
payload_of-other (x ∷ xs) name before (h, hs) = rw h (payload_of-other xs name before hs)

flip-All :
    (name : List ℕ) (xs : List (List ℕ × ℕ))
    → All (λ (y : List ℕ × ℕ). text_eq name y.0 ≡ false) xs
    → All (λ (y : List ℕ × ℕ). text_eq y.0 name ≡ false) xs
flip-All name [] h = tt
flip-All name (x ∷ xs) (h, hs) =
    (ground (arith, text_eq_iff name x.0, text_eq_iff x.0 name), flip-All name xs hs)

payload_of-get :
    (exports : List (List ℕ × ℕ)) (i : ℕ) (name : List ℕ) (address : ℕ) (before : Bytes)
    → Distinct exports
    → get_elem? exports i ≡ some (name, address)
    → payload_of exports name before ≡ export_payload address
unfolding payload_of
payload_of-get [] i name address before d h = cc
payload_of-get ((n, a) ∷ xs) zero name address before (d, ds) h =
    let e : n ≡ name = cc in
    let e' : a ≡ address = cc in
    let same = (text_eq_iff n name).1 e in
    rw same
      (payload_of-other xs name (export_payload a) (flip-All name xs (rw (← e) d)) ∙ rw e' refl)
payload_of-get ((n, a) ∷ xs) (suc i) name address before (d, ds) h =
    payload_of-get xs i name address _ ds h

-- For a dict, the tree has the payload of each export at the end of its name, and nothing at any
-- other name.
pub find-build_trie :
    (exports : List (List ℕ × ℕ))
    → Distinct exports
    → ((i : ℕ) (name : List ℕ) (address : ℕ)
        → get_elem? exports i ≡ some (name, address)
        → find (build_trie exports) name ≡ export_payload address)
      × ((name : List ℕ)
          → All (λ (y : List ℕ × ℕ). text_eq y.0 name ≡ false) exports
          → find (build_trie exports) name ≡ [])
unfolding build_trie
find-build_trie exports d = (
  λ i name address h. at name ∙ payload_of-get exports i name address [] d h,
  λ name h. at name ∙ payload_of-other exports name [] h,
)
  where
    blank : (name : List ℕ) → find (node [] no_child) name ≡ []
    blank [] = unfold find in refl
    blank (c ∷ name) = unfold find in refl

    at : (name : List ℕ) → find (build_trie exports) name ≡ payload_of exports name []
    at name =
        find-put_all (sorted export_le exports) (node [] no_child) name
        ∙ rw (blank name) (payload_of-sorted exports name [] d)
