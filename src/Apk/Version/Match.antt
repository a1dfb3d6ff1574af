-- ===== src/Apk/Version/Match.antt =====
-- What it means for a text to match an expression, with no order of search in it, and that the
-- search of `unity_version` finds the first text that matches.
use il2cppapk2ios.Apk.Version.{
  Item, one, many, with_byte, or_else, match_many, match_one, match_at, search_re,
}
use il2cppapk2ios.Common.{
  ℕ, suc, ◌≤◌, arith, ◌≡◌, ◌≢◌, refl, sym, ap, ◌∙◌, inl, inr, ◌⊎◌, Bool, true, List, [], ◌∷◌, ◌++◌,
  Option, none, some, length, Bool-cases, Option-cases, false,
}

pub data Matches : List Item → List ℕ → Type 0 where
  end : Matches [] []
  byte :
      {test : ℕ → Bool} {items : List Item} {c : ℕ} {s : List ℕ}
      → test c ≡ true
      → Matches items s
      → Matches (one test ∷ items) (c ∷ s)
  last :
      {test : ℕ → Bool} {items : List Item} {c : ℕ} {s : List ℕ}
      → test c ≡ true
      → Matches items s
      → Matches (many test ∷ items) (c ∷ s)
  more :
      {test : ℕ → Bool} {items : List Item} {c : ℕ} {s : List ℕ}
      → test c ≡ true
      → Matches (many test ∷ items) s
      → Matches (many test ∷ items) (c ∷ s)

-- A matcher takes a start of the data, and what it takes and leaves stand in a relation.
abbrev Takes : (List ℕ → List ℕ → Type 0) → (List ℕ → Option (List ℕ)) → Type 0
Takes R matcher = (s m : List ℕ) → matcher s ≡ some m → (rest : List ℕ) × (s ≡ m ++ rest) × R m rest

tails : {a b : ℕ} {s t : List ℕ} → a ∷ s ≡ b ∷ t → s ≡ t
tails same = cc

pub some-injective : {a b : List ℕ} → some a ≡ some b → a ≡ b
some-injective same = cc

-- What a round that succeeded took.
with_byte-some :
    (c : ℕ) (o : Option (List ℕ)) {m : List ℕ}
    → with_byte c o ≡ some m
    → (m' : List ℕ) × (o ≡ some m') × (m ≡ c ∷ m')
with_byte-some c none h = cc
with_byte-some c (some m') h = (m', refl, cc)

or_else-some :
    (first second : Option (List ℕ)) {m : List ℕ}
    → or_else first second ≡ some m
    → (first ≡ some m) ⊎ ((first ≡ none) × (second ≡ some m))
or_else-some none second h = inr (refl, h)
or_else-some (some m) second h = inl h

module _ (test : ℕ → Bool) (Q R : List ℕ → List ℕ → Type 0) where
  match_one-Takes :
      (next : List ℕ → Option (List ℕ))
      → ((c : ℕ) (m rest : List ℕ) → test c ≡ true → Q m rest → R (c ∷ m) rest)
      → Takes Q next
      → Takes R (match_one test next)
  unfolding match_one
  match_one-Takes next base takes [] m h = cc
  match_one-Takes next base takes (c ∷ s) m h = elim (Bool-cases (test c)) [
    | inr e ↦ let h' = rw e at h in cc
    | inl e ↦
        let (m', k, whole) = with_byte-some c (next s) (rw e at h) in
        let (rest, cut, q) = takes s m' k in
        (rest, rw (whole, cut) refl, rw whole (base c m' rest e q))
  ]

  match_many-Takes :
      (next : List ℕ → Option (List ℕ))
      → ((c : ℕ) (m rest : List ℕ) → test c ≡ true → Q m rest → R (c ∷ m) rest)
      → ((c : ℕ) (m rest : List ℕ) → test c ≡ true → R m rest → R (c ∷ m) rest)
      → Takes Q next
      → Takes R (match_many test next)
  unfolding match_many
  match_many-Takes next base step takes [] m h = cc
  match_many-Takes next base step takes (c ∷ s) m h =
      let later = match_many-Takes next base step takes s in
      elim (Bool-cases (test c)) [
        | inr e ↦ let h' = rw e at h in cc
        | inl e ↦
            let (m', k, whole) =
              with_byte-some c (or_else (match_many test next s) (next s)) (rw e at h) in
            elim (or_else-some (match_many test next s) (next s) k) [
              | inl k' ↦
                  let (rest, cut, r) = later m' k' in
                  (rest, rw (whole, cut) refl, rw whole (step c m' rest e r))
              | inr (_, k') ↦
                  let (rest, cut, q) = takes s m' k' in
                  (rest, rw (whole, cut) refl, rw whole (base c m' rest e q))
            ]
      ]

-- The data go on with no byte that passes the test.
abbrev pub Stops : (ℕ → Bool) → List ℕ → Type 0
Stops test [] = Unit {0}
Stops test (c ∷ s) = test c ≡ false

-- The last item of an expression takes many bytes.
pub data EndsIn (test : ℕ → Bool) : List Item → Type 0 where
  final : EndsIn test (many test ∷ [])
  after : (item : Item) (items : List Item) → EndsIn test items → EndsIn test (item ∷ items)

-- What is taken matches the expression, and it could not have gone on.
abbrev Matched : (ℕ → Bool) → List Item → List ℕ → List ℕ → Type 0
Matched test items m rest = Matches items m × Stops test rest

no_match-Stops :
    (test : ℕ → Bool) (s : List ℕ) → match_many test (match_at []) s ≡ none → Stops test s
unfolding match_many match_at
no_match-Stops test [] h = tt
no_match-Stops test (c ∷ s) h = elim (Bool-cases (test c)) [
  | inr e ↦ e
  | inl e ↦ elim (Option-cases (match_many test (match_at []) s)) [
    | inl k ↦ let h' = rw (e, k) at h in cc
    | inr (m, k) ↦ let h' = rw (e, k) at h in cc
  ]
]

final-Takes :
    (test : ℕ → Bool) → Takes (Matched test (many test ∷ [])) (match_many test (match_at []))
unfolding match_many match_at
final-Takes test [] m h = cc
final-Takes test (c ∷ s) m h =
    let later = final-Takes test s in
    elim (Bool-cases (test c)) [
      | inr e ↦ let h' = rw e at h in cc
      | inl e ↦ elim (Option-cases (match_many test (match_at []) s)) [
        | inr (m', k) ↦
            let whole : c ∷ m' ≡ m = some-injective (rw (e, k) at h) in
            let (rest, cut, (d, stop)) = later m' k in
            (rest, rw (← whole, cut) refl, rw (← whole) (more e d, stop))
        | inl k ↦
            let whole : c ∷ [] ≡ m = some-injective (rw (e, k) at h) in
            (s, rw (← whole) refl, rw (← whole) (last e end, no_match-Stops test s k))
      ]
    ]

match_at-Takes :
    (stop : ℕ → Bool) (items : List Item)
    → EndsIn stop items
    → Takes (Matched stop items) (match_at items)
unfolding match_at
match_at-Takes stop _ final s m h = final-Takes stop s m h
match_at-Takes stop _ (after (one test) items ends) s m h =
    match_one-Takes test (Matched stop items) (Matched stop (one test ∷ items)) (match_at items)
      (λ c m rest e q. (byte e q.0, q.1)) (match_at-Takes stop items ends) s m h
match_at-Takes stop _ (after (many test) items ends) s m h =
    match_many-Takes test (Matched stop items) (Matched stop (many test ∷ items)) (match_at items)
      (λ c m rest e q. (last e q.0, q.1)) (λ c m rest e r. (more e r.0, r.1))
      (match_at-Takes stop items ends) s m h

-- The data that an expression matches at the start is taken.
match_at_complete :
    (items : List Item) (m rest : List ℕ) → Matches items m → match_at items (m ++ rest) ≢ none
unfolding match_at match_one match_many
match_at_complete _ _ rest end h = cc
match_at_complete _ _ rest (byte {items} {c} {s} passes d) h =
    elim (Option-cases (match_at items (s ++ rest))) [
      | inl k ↦ match_at_complete items s rest d k
      | inr (m, k) ↦ let h' = rw (passes, k) at h in cc
    ]
match_at_complete _ _ rest (last {test} {items} {c} {s} passes d) h =
    elim (Option-cases (match_many test (match_at items) (s ++ rest))) [
      | inr (m, k) ↦ let h' = rw (passes, k) at h in cc
      | inl k ↦ elim (Option-cases (match_at items (s ++ rest))) [
        | inl k' ↦ match_at_complete items s rest d k'
        | inr (m, k') ↦ let h' = rw (passes, k, k') at h in cc
      ]
    ]
match_at_complete _ _ rest (more {test} {items} {c} {s} passes d) h =
    elim (Option-cases (match_many test (match_at items) (s ++ rest))) [
      | inr (m, k) ↦ let h' = rw (passes, k) at h in cc
      | inl k ↦ match_at_complete (many test ∷ items) s rest d k
    ]

-- The data are searched from the left: what is found matches, no match begins before it, and it ends
-- where the bytes that the last item takes end.
abbrev pub Finds : (ℕ → Bool) → List Item → List ℕ → Option (List ℕ) → Type 0
Finds stop items s none = (before m rest : List ℕ) → s ≡ before ++ (m ++ rest) → ¬ Matches items m
Finds stop items s (some m) =
    (before : List ℕ) × (rest : List ℕ) × (s ≡ before ++ (m ++ rest))
    × Matches items m
    × Stops stop rest
    × ((before' m' rest' : List ℕ)
        → s ≡ before' ++ (m' ++ rest')
        → Matches items m'
        → length before ≤ length before')

module _ (stop : ℕ → Bool) (items : List Item) (ends : EndsIn stop items) where
  not_here : (s m rest : List ℕ) → match_at items s ≡ none → s ≡ m ++ rest → ¬ Matches items m
  not_here s m rest e cut d = match_at_complete items m rest d (ap (match_at items) (sym cut) ∙ e)

  found_here : (s m : List ℕ) → match_at items s ≡ some m → Finds stop items s (some m)
  found_here s m e =
      let (rest, cut, (d, stops)) = match_at-Takes stop items ends s m e in
      ([], rest, cut, d, stops, λ before' m' rest' cut' d'. omega arith)

  not_at_end : match_at items [] ≡ none → Finds stop items [] none
  not_at_end e [] m rest cut d = not_here [] m rest e cut d
  not_at_end e (b ∷ before) m rest cut d = cc

  module _ (c : ℕ) (s : List ℕ) (e : match_at items (c ∷ s) ≡ none) where
    none_later : Finds stop items s none → Finds stop items (c ∷ s) none
    none_later f [] m rest cut d = not_here (c ∷ s) m rest e cut d
    none_later f (b ∷ before) m rest cut d = f before m rest (tails cut) d

    first_later :
        (before : List ℕ)
        → ((before' m' rest' : List ℕ)
            → s ≡ before' ++ (m' ++ rest')
            → Matches items m'
            → length before ≤ length before')
        → (before' m' rest' : List ℕ) → c ∷ s ≡ before' ++ (m' ++ rest')
        → Matches items m'
        → suc (length before) ≤ length before'
    first_later before f [] m' rest' cut d = absurd (not_here (c ∷ s) m' rest' e cut d)
    first_later before f (b ∷ before') m' rest' cut d =
        let earlier = f before' m' rest' (tails cut) d in omega arith

    Finds-later : (o : Option (List ℕ)) → Finds stop items s o → Finds stop items (c ∷ s) o
    Finds-later none f = none_later f
    Finds-later (some m) (before, rest, cut, d, stops, first) =
        (c ∷ before, rest, ap (λ t. c ∷ t) cut, d, stops, first_later before first)

-- `search` finds the first text that matches, or there is none.
pub search_re-Finds :
    (stop : ℕ → Bool) (items : List Item)
    → EndsIn stop items
    → (s : List ℕ) → Finds stop items s (search_re items s)
unfolding search_re
search_re-Finds stop items ends [] = elim (Option-cases (match_at items [])) [
  | inl e ↦ rw e (not_at_end stop items ends e)
  | inr (m, e) ↦ rw e (found_here stop items ends [] m e)
]
search_re-Finds stop items ends (c ∷ s) = elim (Option-cases (match_at items (c ∷ s))) [
  | inr (m, e) ↦ rw e (found_here stop items ends (c ∷ s) m e)
  | inl e ↦
      rw e
        (Finds-later stop items ends c s e (search_re items s) (search_re-Finds stop items ends s))
]
