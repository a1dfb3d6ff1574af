-- ===== src/Phase3/Shim.antt =====
-- The symbols that phase3.py binds to, and the shim whose records shimgen.py makes from the same file.
use il2cppapk2ios.Elf.{Elf64, shn_undef}
use il2cppapk2ios.Elf.Symbols.{Symbol, dynamic_symbols}
use il2cppapk2ios.Elf.Relocations.{Relocation, relocations}
use il2cppapk2ios.Phase3.{Config, ImageSegment}
use il2cppapk2ios.Phase3.Fixups.{Fixups, fix_one, fix_all}
use il2cppapk2ios.Phase3.Output.Streams.{translate-fixups}
use il2cppapk2ios.Phase3.Relocate.{fix_one_word}
use il2cppapk2ios.Phase3.Streams.{Binding}
use il2cppapk2ios.Phase3.Translate.{Options, Translation, translate, start_fixups}
use il2cppapk2ios.Shimgen.{
  Import, is_imported, ShimRecord, record_of, records, imports_from, import_le,
}
use il2cppapk2ios.Shimgen.Coverage.{any-get_elem?, imports_as, records-cover}
use il2cppapk2ios.Common.{
  ℕ, ◌≡◌, ◌⊎◌, inl, inr, refl, ◌∙◌, arith, true, false, List, [], ◌∷◌, ◌++◌, All, All-append, map,
  get_elem?, some, Bool-cases, false≢true,
}
use il2cppapk2ios.Common.Outcome.{ok, ok-injective, >>=-eq-ok}
use il2cppapk2ios.Common.Sort.{sorted}
use il2cppapk2ios.Common.SortedSet.{is_in-cons, is_in_self, is_in_later}
use il2cppapk2ios.Common.Text.{codes, text_eq, text_eq_iff, any, is_in}

-- The names that the records give to the symbols of the shim.
abbrev pub shim_names : Elf64 → List (List ℕ)
shim_names elf = map (λ (r : ShimRecord). r.shim_symbol) (records elf)

-- A record of a name is a record of the shim's symbol for it.
prefixed :
    (name : List ℕ) (js : List Import)
    → is_in name (map (λ (r : ShimRecord). r.name) (map record_of js)) ≡ true
    → is_in (codes "_a2i_" ++ name) (map (λ (r : ShimRecord). r.shim_symbol) (map record_of js))
      ≡ true
prefixed name [] h = absurd (false≢true (unfold is_in any in h))
prefixed name (j ∷ js) h = elim (is_in-cons name j.name _ h) [
  | inl same ↦ rw same (is_in_self (codes "_a2i_" ++ j.name) _)
  | inr later ↦
      is_in_later (codes "_a2i_" ++ name) (codes "_a2i_" ++ j.name) _ (prefixed name js later)
]

-- A binding names a symbol of the shim, unless the symbol that it imports has no name.
abbrev pub IsProvided : Elf64 → Binding → Type 0
IsProvided elf b = (b.symbol ≡ []) ⊎ (is_in b.shim_symbol (shim_names elf) ≡ true)

imported_under :
    (s : Symbol) → s.shndx ≡ shn_undef → text_eq s.name [] ≡ false → imports_as s.name s ≡ true
unfolding is_imported
imported_under s undefined named =
    rw (named, (text_eq_iff s.name s.name).1 refl) (ground (arith, undefined))

records-provide :
    (elf : Elf64) (name : List ℕ)
    → any (imports_as name) (dynamic_symbols elf) ≡ true
    → is_in (codes "_a2i_" ++ name) (shim_names elf) ≡ true
unfolding records
records-provide elf name h =
    prefixed name (sorted import_le (imports_from (dynamic_symbols elf) []))
      (records-cover elf name ∙ h)

imported-IsProvided :
    (elf : Elf64) (s : Symbol) (index : ℕ)
    → get_elem? (dynamic_symbols elf) index ≡ some s
    → s.shndx ≡ shn_undef
    → (s.name ≡ []) ⊎ (is_in (codes "_a2i_" ++ s.name) (shim_names elf) ≡ true)
imported-IsProvided elf s index found undefined = elim (Bool-cases (text_eq s.name [])) [
  | inl e ↦ inl ((text_eq_iff s.name []).0 e)
  | inr named ↦ inr (
      records-provide elf s.name (
        any-get_elem? (imports_as s.name) (dynamic_symbols elf) index s found
          (imported_under s undefined named)))
]

module _ (c : Config) (segs : List ImageSegment) (elf : Elf64) where
  fix_one-IsProvided :
      (rel : Relocation) (st st' : Fixups)
      → fix_one c segs (dynamic_symbols elf) (codes "_a2i_") rel st ≡ ok st'
      → All (IsProvided elf) st.bindings
      → All (IsProvided elf) st'.bindings
  fix_one-IsProvided rel st st' h before =
      let (at, _, done) = fix_one_word c segs (dynamic_symbols elf) (codes "_a2i_") rel st st' h in
      elim done [
        | inl patched ↦ rw patched.bindings before
        | inr i ↦ rw i.bound (
            All-append (IsProvided elf) st.bindings _ before
              (imported-IsProvided elf i.symbol rel.symbol_index i.found i.undefined, tt))
      ]

  fix_all-IsProvided :
      (rels : List Relocation) (st st' : Fixups)
      → fix_all c segs (dynamic_symbols elf) (codes "_a2i_") rels st ≡ ok st'
      → All (IsProvided elf) st.bindings
      → All (IsProvided elf) st'.bindings
  unfolding fix_all
  fix_all-IsProvided [] st st' h before = rw (← ok-injective h) before
  fix_all-IsProvided (rel ∷ rels) st st' h before =
      let one = fix_one c segs (dynamic_symbols elf) (codes "_a2i_") rel st in
      let (next, e, e') = >>=-eq-ok one _ h in
      fix_all-IsProvided rels next st' e' (fix_one-IsProvided rel st next e before)

-- With the prefix of the shim, every symbol that a translation binds to is one that the shim of the
-- same file has a record for, unless the import that it stands for has an empty name.
pub translate-IsProvided :
    (c : Config) (o : Options) (elf : Elf64) (segments : List ImageSegment) (t : Translation)
    → o.shim_prefix ≡ codes "_a2i_"
    → translate c o elf segments ≡ ok t
    → All (IsProvided elf) t.fixups.bindings
unfolding start_fixups
translate-IsProvided c o elf segments t prefix h =
    fix_all-IsProvided c segments elf (relocations elf) (start_fixups c elf segments) t.fixups
      (rw prefix at (translate-fixups c o elf segments t h)) tt
