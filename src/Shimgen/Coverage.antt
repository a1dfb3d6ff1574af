-- ===== src/Shimgen/Coverage.antt =====
-- Which names `generate_shim_scaffold` makes records for.
use il2cppapk2ios.Elf.{Elf64, shn_undef}
use il2cppapk2ios.Elf.Symbols.{Symbol, dynamic_symbols}
use il2cppapk2ios.Shimgen.{
  Import, set_import, is_imported, import_of, imports_from, ShimRecord, record_of, import_le,
  records,
}
use il2cppapk2ios.Common.{
  ℕ, zero, suc, ◌==◌, ◌≡◌, ◌≢◌, ◌↔◌, refl, sym, ap, ◌∙◌, arith, Bool, true, false, false≢true,
  true≢false, not, ◌&&◌, &&-both, ◌||◌, List, [], ◌∷◌, map, get_elem?, some, Bool-cases, inl, inr,
}
use il2cppapk2ios.Common.Sort.{insert, sorted}
use il2cppapk2ios.Common.SortedSet.{or_yes}
use il2cppapk2ios.Common.Text.{any, is_in, text_eq, text_eq_iff}

has : List ℕ → List Import → Bool
has name imports = any (λ (i : Import). text_eq name i.name) imports

text_eq-replace : (name a b : List ℕ) → text_eq a b ≡ true → text_eq name a ≡ text_eq name b
text_eq-replace name a b h = ap (text_eq name) ((text_eq_iff a b).0 h)

has-set_import :
    (name : List ℕ) (i : Import) (js : List Import)
    → has name (set_import i js) ≡ (text_eq name i.name || has name js)
unfolding has any set_import
has-set_import name i [] = refl
has-set_import name i (j ∷ js) =
    let rest = has-set_import name i js in
    elim (Bool-cases (text_eq j.name i.name)) [
      | inl e ↦
          rw (e, text_eq-replace name j.name i.name e) (twice (text_eq name i.name) (has name js))
      | inr e ↦ rw (e, rest) (swap (text_eq name j.name) (text_eq name i.name) (has name js))
    ]
  where
    twice : (a b : Bool) → (a || b) ≡ (a || (a || b))
    twice true b = refl
    twice false b = refl

    swap : (a b c : Bool) → (a || (b || c)) ≡ (b || (a || c))
    swap true true c = refl
    swap true false c = refl
    swap false b c = refl

has-insert :
    (name : List ℕ) (i : Import) (js : List Import)
    → has name (insert import_le i js) ≡ (text_eq name i.name || has name js)
unfolding has any insert
has-insert name i [] = refl
has-insert name i (j ∷ js) =
    let rest = has-insert name i js in
    elim (Bool-cases (import_le i j)) [
      | inl e ↦ rw e refl
      | inr e ↦ rw (e, rest) (swap (text_eq name j.name) (text_eq name i.name) (has name js))
    ]
  where
    swap : (a b c : Bool) → (a || (b || c)) ≡ (b || (a || c))
    swap true true c = refl
    swap true false c = refl
    swap false b c = refl

has-sorted : (name : List ℕ) (js : List Import) → has name (sorted import_le js) ≡ has name js
unfolding has any sorted
has-sorted name [] = refl
has-sorted name (j ∷ js) =
    has-insert name j (sorted import_le js)
    ∙ ap (λ b. text_eq name j.name || b) (has-sorted name js)

-- A symbol that the file imports under a name.
abbrev pub imports_as : List ℕ → Symbol → Bool
imports_as name symbol = is_imported symbol && text_eq name symbol.name

has-imports_from :
    (name : List ℕ) (symbols : List Symbol) (found : List Import)
    → has name (imports_from symbols found) ≡ (any (imports_as name) symbols || has name found)
unfolding imports_from any
has-imports_from name [] found = refl
has-imports_from name (symbol ∷ symbols) found = elim (Bool-cases (is_imported symbol)) [
  | inl e ↦ rw e (
      has-imports_from name symbols (set_import (import_of symbol) found)
      ∙ ap (λ b. any (imports_as name) symbols || b) (has-set_import name (import_of symbol) found)
      ∙ move (any (imports_as name) symbols) (text_eq name symbol.name) (has name found))
  | inr e ↦ rw e (has-imports_from name symbols found)
]
  where
    move : (a b c : Bool) → (a || (b || c)) ≡ ((b || a) || c)
    move true true c = refl
    move true false c = refl
    move false true c = refl
    move false false c = refl

names-has :
    (name : List ℕ) (js : List Import)
    → is_in name (map (λ (r : ShimRecord). r.name) (map record_of js)) ≡ has name js
unfolding is_in any has
names-has name [] = refl
names-has name (j ∷ js) = ap (λ b. text_eq name j.name || b) (names-has name js)

-- The names of the records are those under which a symbol passes the test of the loop.
pub records-cover :
    (elf : Elf64) (name : List ℕ)
    → is_in name (map (λ (r : ShimRecord). r.name) (records elf))
      ≡ any (imports_as name) (dynamic_symbols elf)
unfolding records
records-cover elf name =
    names-has name (sorted import_le (imports_from (dynamic_symbols elf) []))
    ∙ has-sorted name (imports_from (dynamic_symbols elf) [])
    ∙ has-imports_from name (dynamic_symbols elf) []
    ∙ (unfold has any in or_false (any (imports_as name) (dynamic_symbols elf)))
  where
    or_false : (b : Bool) → (b || false) ≡ b
    or_false true = refl
    or_false false = refl

pub any-get_elem? {ℓ} :
    {A : Type ℓ} (p : A → Bool) (xs : List A) (i : ℕ) (x : A)
    → get_elem? xs i ≡ some x
    → p x ≡ true
    → any p xs ≡ true
unfolding any
any-get_elem? p [] i x e h = cc
any-get_elem? p (y ∷ ys) zero x e h = let same : y ≡ x = cc in rw (same, h) refl
any-get_elem? p (y ∷ ys) (suc i) x e h = or_yes (p y) (any-get_elem? p ys i x e h)

get_elem?-any {ℓ} :
    {A : Type ℓ} (p : A → Bool) (xs : List A)
    → any p xs ≡ true
    → (i : ℕ) × (x : A) × (get_elem? xs i ≡ some x) × (p x ≡ true)
unfolding any
get_elem?-any p [] h = absurd (false≢true h)
get_elem?-any p (x ∷ xs) h = elim (Bool-cases (p x)) [
  | inl e ↦ (0, x, refl, e)
  | inr e ↦ let (i, y, found, k) = get_elem?-any p xs (rw e at h) in (suc i, y, found, k)
]

-- The file has an undefined dynamic symbol of a name, and the name is not empty.
abbrev pub IsImport : Elf64 → List ℕ → Type 0
IsImport elf name =
    (name ≢ [])
    × (i : ℕ) × (s : Symbol) × (get_elem? (dynamic_symbols elf) i ≡ some s)
    × (s.shndx ≡ 0)
    × (s.name ≡ name)

imports_as_iff :
    (name : List ℕ) (s : Symbol)
    → (imports_as name s ≡ true) ↔ ((name ≢ []) × (s.shndx ≡ 0) × (s.name ≡ name))
unfolding is_imported
imports_as_iff name s = (
  λ h.
      let (imported, same) = &&-both (is_imported s) (text_eq name s.name) h in
      let (undefined, filled) =
        &&-both (s.shndx == shn_undef) (not (text_eq s.name [])) (unfold is_imported in imported) in
      let e = (text_eq_iff name s.name).0 same in
      (
        λ empty. not_true (text_eq s.name []) filled ((text_eq_iff s.name []).1 (sym e ∙ empty)),
        (ground (arith, undefined)),
        sym e,
      ),
  λ (filled, undefined, same).
      let named : text_eq s.name [] ≡ false = elim (Bool-cases (text_eq s.name [])) [
        | inl e ↦ absurd (filled (sym same ∙ (text_eq_iff s.name []).0 e))
        | inr e ↦ e
      ] in
      rw (named, (text_eq_iff name s.name).1 (sym same)) (ground (arith, undefined)),
)
  where
    not_true : (b : Bool) → not b ≡ true → b ≢ true
    not_true true h k = true≢false (sym h)
    not_true false h k = true≢false (sym k)

-- There is a record for a name exactly if the name is not empty and the file has an undefined dynamic
-- symbol of that name.
pub records_iff :
    (elf : Elf64) (name : List ℕ)
    → (is_in name (map (λ (r : ShimRecord). r.name) (records elf)) ≡ true) ↔ IsImport elf name
records_iff elf name = (
  λ h.
      let (i, s, found, k) =
        get_elem?-any (imports_as name) (dynamic_symbols elf) (sym (records-cover elf name) ∙ h) in
      let (filled, undefined, same) = (imports_as_iff name s).0 k in
      (filled, i, s, found, undefined, same),
  λ (filled, i, s, found, undefined, same).
      records-cover elf name
      ∙ any-get_elem? (imports_as name) (dynamic_symbols elf) i s found
          ((imports_as_iff name s).1 (filled, undefined, same)),
)
