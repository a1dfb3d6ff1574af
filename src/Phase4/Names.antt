-- ===== src/Phase4/Names.antt =====
-- The dict that `_exports` of phase4.py returns: no name twice, and every exported symbol is there.
use il2cppapk2ios.Elf.{Elf64, shn_undef}
use il2cppapk2ios.Elf.Symbols.{Symbol, dynamic_symbols}
use il2cppapk2ios.Phase3.{Config}
use il2cppapk2ios.Phase4.{is_empty_name, set_export, exports_from, exports, is_export, export_name}
use il2cppapk2ios.Phase4.Trie.Names.{Distinct}
use il2cppapk2ios.Common.{
  ℕ, suc, ◌+◌, ◌/◌, ◌%◌, ◌≡◌, ◌≢◌, ◌⊎◌, refl, arith, List, [], ◌∷◌, ◌++◌, All, true, false, not,
  ◌||◌, ◌==◌, Bool-cases, inl, inr, &&-both, get_elem?, some, map, zero, sym, true≢false,
}
use il2cppapk2ios.Common.Text.{text_eq, text_eq_iff, codes, is_in, any}
use il2cppapk2ios.Common.SortedSet.{or_yes}

set_export-apart :
    (other name : List ℕ) (address : ℕ) (es : List (List ℕ × ℕ))
    → text_eq other name ≡ false
    → All (λ (y : List ℕ × ℕ). text_eq other y.0 ≡ false) es
    → All (λ (y : List ℕ × ℕ). text_eq other y.0 ≡ false) (set_export name address es)
unfolding set_export
set_export-apart other name address [] h hs = (h, tt)
set_export-apart other name address ((n, a) ∷ es) h (k, hs) =
    let later = set_export-apart other name address es h hs in
    elim (Bool-cases (text_eq n name)) [ inl e ↦ rw e (k, hs) | inr e ↦ rw e (k, later) ]

set_export-Distinct :
    (name : List ℕ) (address : ℕ) (es : List (List ℕ × ℕ))
    → Distinct es
    → Distinct (set_export name address es)
unfolding set_export
set_export-Distinct name address [] d = (tt, tt)
set_export-Distinct name address ((n, a) ∷ es) (d, ds) =
    let later = set_export-Distinct name address es ds in
    elim (Bool-cases (text_eq n name)) [
      | inl e ↦ rw e (d, ds)
      | inr e ↦ rw e (set_export-apart n name address es e d, later)
    ]

exports_from-Distinct :
    (c : Config) (symbols : List Symbol) (found : List (List ℕ × ℕ))
    → Distinct found
    → Distinct (exports_from c symbols found)
unfolding exports_from
exports_from-Distinct c [] found d = d
exports_from-Distinct c (symbol ∷ symbols) found d = elim (Bool-cases (is_export symbol)) [
  | inl e ↦ rw e (
      exports_from-Distinct c symbols _
        (set_export-Distinct (export_name symbol) (c.header_reserve + symbol.value) found d))
  | inr e ↦ rw e (exports_from-Distinct c symbols found d)
]

-- The exports of an ELF file have distinct names.
pub exports-Distinct : (c : Config) (elf : Elf64) → Distinct (exports c elf)
unfolding exports
exports-Distinct c elf = exports_from-Distinct c (dynamic_symbols elf) [] tt

-- Where an export comes from: a function or object with a name that the file defines with global or
-- weak binding. It is exported under the name that C gives it, at its place behind the reserve.
pub record IsDefinition (c : Config) (symbols : List Symbol) (e : List ℕ × ℕ) : Type 0 where
  pub index : ℕ
  pub symbol : Symbol
  pub found : get_elem? symbols index ≡ some symbol
  pub defined : symbol.shndx ≢ 0
  pub named : symbol.name ≢ []
  pub binding : (symbol.info / 16 ≡ 1) ⊎ (symbol.info / 16 ≡ 2)
  pub kind : (symbol.info % 16 ≡ 1) ⊎ (symbol.info % 16 ≡ 2)
  pub name_eq : e.0 ≡ codes "_" ++ symbol.name
  pub address_eq : e.1 ≡ c.header_reserve + symbol.value

set_export-All :
    (P : List ℕ × ℕ → Type 0) (name : List ℕ) (address : ℕ) (es : List (List ℕ × ℕ))
    → P (name, address)
    → All P es
    → All P (set_export name address es)
unfolding set_export
set_export-All P name address [] p ps = (p, tt)
set_export-All P name address ((n, a) ∷ es) p (q, qs) =
    let later = set_export-All P name address es p qs in
    elim (Bool-cases (text_eq n name)) [
      | inl e ↦ let same : n ≡ name = (text_eq_iff n name).0 e in rw (e, same) (p, qs)
      | inr e ↦ rw e (q, later)
    ]

exports_from-All :
    (c : Config) (P : List ℕ × ℕ → Type 0) (symbols : List Symbol) (found : List (List ℕ × ℕ))
    → ((i : ℕ) (s : Symbol)
        → get_elem? symbols i ≡ some s
        → is_export s ≡ true
        → P (export_name s, c.header_reserve + s.value))
    → All P found
    → All P (exports_from c symbols found)
unfolding exports_from
exports_from-All c P [] found f ps = ps
exports_from-All c P (s ∷ symbols) found f ps = elim (Bool-cases (is_export s)) [
  | inl e ↦ rw e (
      exports_from-All c P symbols _ (λ i t g x. f (suc i) t g x)
        (set_export-All P (export_name s) (c.header_reserve + s.value) found (f 0 s refl e) ps))
  | inr e ↦ rw e (exports_from-All c P symbols found (λ i t g x. f (suc i) t g x) ps)
]

is_export-IsDefinition :
    (c : Config) (symbols : List Symbol) (i : ℕ) (s : Symbol)
    → get_elem? symbols i ≡ some s
    → is_export s ≡ true
    → IsDefinition c symbols (export_name s, c.header_reserve + s.value)
unfolding is_export
is_export-IsDefinition c symbols i s g h =
    let (kept, rest) = &&-both (not ((s.shndx == shn_undef) || is_empty_name s.name)) _ h in
    let (bound, typed) = &&-both ((s.info / 16 == 1) || (s.info / 16 == 2)) _ rest in
    record {
      index = i;
      symbol = s;
      found = g;
      defined = ground (arith, kept);
      named = λ e. absurd (ground (arith, rw e at kept));
      binding = ground (arith, bound);
      kind = ground (arith, typed);
      name_eq = refl;
      address_eq = refl;
    }

-- The dict has a key.
abbrev pub HasName : List ℕ → List (List ℕ × ℕ) → Type 0
HasName name es = is_in name (map (λ (e : List ℕ × ℕ). e.0) es) ≡ true

set_export-HasName :
    (name : List ℕ) (address : ℕ) (es : List (List ℕ × ℕ))
    → HasName name (set_export name address es)
unfolding is_in any set_export
set_export-HasName name address [] = rw ((text_eq_iff name name).1 refl) refl
set_export-HasName name address ((n, a) ∷ es) =
    let later = set_export-HasName name address es in
    elim (Bool-cases (text_eq n name)) [
      | inl e ↦
          let same : n ≡ name = (text_eq_iff n name).0 e in
          rw (e, same, (text_eq_iff name name).1 refl) refl
      | inr e ↦ rw e (or_yes (text_eq name n) later)
    ]

set_export-keeps :
    (other name : List ℕ) (address : ℕ) (es : List (List ℕ × ℕ))
    → HasName other es
    → HasName other (set_export name address es)
unfolding is_in any set_export
set_export-keeps other name address [] h = absurd (true≢false (sym h))
set_export-keeps other name address ((n, a) ∷ es) h = elim (Bool-cases (text_eq n name)) [
  | inl e ↦ rw e h
  | inr e ↦ elim (Bool-cases (text_eq other n)) [
    | inl k ↦ rw (e, k) refl
    | inr k ↦ rw (e, k) (set_export-keeps other name address es (rw k at h))
  ]
]

exports_from-keeps :
    (c : Config) (name : List ℕ) (symbols : List Symbol) (found : List (List ℕ × ℕ))
    → HasName name found
    → HasName name (exports_from c symbols found)
unfolding exports_from
exports_from-keeps c name [] found h = h
exports_from-keeps c name (s ∷ symbols) found h = elim (Bool-cases (is_export s)) [
  | inl e ↦ rw e (
      exports_from-keeps c name symbols _
        (set_export-keeps name (export_name s) (c.header_reserve + s.value) found h))
  | inr e ↦ rw e (exports_from-keeps c name symbols found h)
]

exports_from-HasName :
    (c : Config) (symbols : List Symbol) (found : List (List ℕ × ℕ)) (i : ℕ) (s : Symbol)
    → get_elem? symbols i ≡ some s
    → is_export s ≡ true
    → HasName (export_name s) (exports_from c symbols found)
unfolding exports_from
exports_from-HasName c [] found i s g h = cc
exports_from-HasName c (t ∷ symbols) found zero s g h =
    let same : t ≡ s = cc in
    rw (same, h)
      (exports_from-keeps c (export_name s) symbols _
        (set_export-HasName (export_name s) (c.header_reserve + s.value) found))
exports_from-HasName c (t ∷ symbols) found (suc i) s g h = elim (Bool-cases (is_export t)) [
  | inl e ↦ rw e (exports_from-HasName c symbols _ i s g h)
  | inr e ↦ rw e (exports_from-HasName c symbols found i s g h)
]

is_empty_name-false : (name : List ℕ) → name ≢ [] → is_empty_name name ≡ false
is_empty_name-false [] h = absurd (h refl)
is_empty_name-false (x ∷ xs) h = refl

IsDefinition-is_export :
    (c : Config) (symbols : List Symbol) (e : List ℕ × ℕ) (d : IsDefinition c symbols e)
    → is_export d.symbol ≡ true
unfolding is_export
IsDefinition-is_export c symbols e d =
    let filled = is_empty_name-false d.symbol.name d.named in
    let defined = d.defined in
    let binding = d.binding in let kind = d.kind in ground (arith, filled, defined, binding, kind)

-- The exports of an ELF file have distinct names, and each is a function or object with a name that
-- the file defines with global or weak binding, under its name with an underscore before it, at its
-- value behind the header reserve. Every such function or object has its name among the exports.
pub exports-AreDefined :
    (c : Config) (elf : Elf64)
    → Distinct (exports c elf)
      × All (IsDefinition c (dynamic_symbols elf)) (exports c elf)
      × ((e : List ℕ × ℕ) → IsDefinition c (dynamic_symbols elf) e → HasName e.0 (exports c elf))
unfolding exports
exports-AreDefined c elf = (
  exports-Distinct c elf,
  exports_from-All c (IsDefinition c (dynamic_symbols elf)) (dynamic_symbols elf) []
      (is_export-IsDefinition c (dynamic_symbols elf)) tt,
  λ e d. rw d.name_eq (
      exports_from-HasName c (dynamic_symbols elf) [] d.index d.symbol d.found
        (IsDefinition-is_export c (dynamic_symbols elf) e d)),
)
