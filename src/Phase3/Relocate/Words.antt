-- ===== src/Phase3/Relocate/Words.antt =====
-- What one relocation means for the bytes of the image.
use il2cppapk2ios.Phase3.{Config, slide, ImageSegment, Location, location}
use il2cppapk2ios.Phase3.Fixups.{
  Fixups, Patched, patch, fix_relative, fix_import, fix_defined, fix_one, unpack_word, abs64,
  aarch64_relative, is_symbolic,
}
use il2cppapk2ios.Phase3.Relocate.Cases.{
  Branch, relative_branch, import_branch, defined_branch, fix_one-inv,
}
use il2cppapk2ios.Elf.{shn_undef}
use il2cppapk2ios.Elf.Symbols.{Symbol}
use il2cppapk2ios.Elf.Relocations.{Relocation}
use il2cppapk2ios.Common.{
  ℕ, ◌+◌, ◌%◌, ◌≤◌, ◌≡◌, ◌≢◌, ◌⊎◌, inl, inr, refl, ap, ◌∙◌, arith, List, [], ◌∷◌, ◌++◌, get_elem?,
  none, some, true, if◌then◌else◌, ◌==◌,
}
use il2cppapk2ios.Common.Int.{ℤ, pos, ◌+ℤ◌, wrap64, wrap64-lt, +ℤ_parts, eq_of_parts}
use il2cppapk2ios.Common.Outcome.{ok, ok-injective, >>=-eq-ok}
use il2cppapk2ios.Struct.{Bytes, slice, field, pack_into}
use il2cppapk2ios.Struct.Laws.{field-pack_into_self, slice-pack_into_ne}

-- The value of a symbol in the ELF file, by its index.
abbrev pub value_of : List Symbol → ℕ → ℕ
value_of symbols index = elim (get_elem? symbols index) [ none ↦ 0 | some s ↦ s.value ]

-- The pointer that a relocation asks for, with the slide as the base of the image: the base and the
-- addend for RELATIVE, the symbol and the addend for the others, and for ABS64 also `word`, what the
-- image holds, by the rule of Bionic.
unfoldable pub target : Config → List Symbol → Relocation → ℕ → ℤ
target c symbols rel word =
    if rel.type == aarch64_relative
    then pos (slide c) +ℤ rel.addend
    else if rel.type == abs64
    then pos (slide c + value_of symbols rel.symbol_index) +ℤ rel.addend +ℤ pos word
    else pos (slide c + value_of symbols rel.symbol_index) +ℤ rel.addend

-- A relocation against the base of the image, or against a symbol that the file defines.
abbrev pub IsInternal : List Symbol → Relocation → Type 0
IsInternal symbols rel =
    (rel.type ≡ aarch64_relative)
    ⊎ ((is_symbolic rel.type ≡ true)
        × (symbol : Symbol) × (get_elem? symbols rel.symbol_index ≡ some symbol)
        × (symbol.shndx ≢ shn_undef))

-- The relocation is internal: the pointer has been written at its place, which is recorded, and nothing else has changed.
pub record IsPatched (c : Config) (symbols : List Symbol) (rel : Relocation) (at : Location)
    (st st' : Fixups) : Type 0 where
  pub internal : IsInternal symbols rel
  pub word :
      field 8 st'.image at.output_offset
      ≡ wrap64 (target c symbols rel (field 8 st.image at.output_offset))
  pub others :
      (start stop : ℕ)
      → start ≤ stop
      → (stop ≤ at.output_offset) ⊎ (at.output_offset + 8 ≤ start)
      → slice start stop st'.image ≡ slice start stop st.image
  pub rebased : st'.rebases ≡ st.rebases ++ ((at.segment_index, at.segment_offset) ∷ [])
  pub bindings : st'.bindings ≡ st.bindings

-- The import has been recorded with its place and its addend, and nothing else has changed.
pub record IsImported (symbols : List Symbol) (shim_prefix : List ℕ) (rel : Relocation)
    (at : Location) (st st' : Fixups) : Type 0 where
  pub symbol : Symbol
  pub found : get_elem? symbols rel.symbol_index ≡ some symbol
  pub undefined : symbol.shndx ≡ shn_undef
  pub image : st'.image ≡ st.image
  pub rebases : st'.rebases ≡ st.rebases
  pub bound :
      st'.bindings
      ≡ st.bindings
        ++ (record {
          offset = rel.offset;
          type = rel.type;
          symbol = symbol.name;
          shim_symbol = shim_prefix ++ symbol.name;
          symbol_type = symbol.info % 16;
          segment_index = at.segment_index;
          segment_offset = at.segment_offset;
          addend =
              if rel.type == abs64
              then rel.addend +ℤ pos (field 8 st.image at.output_offset)
              else rel.addend;
        }
            ∷ [])

pub +ℤ_zero : (a : ℤ) → a +ℤ pos 0 ≡ a
+ℤ_zero a = eq_of_parts (a +ℤ pos 0) a (omega (arith, +ℤ_parts a (pos 0)))

pub unpack_word-eq :
    (image : Bytes) (at word : ℕ) → unpack_word image at ≡ ok word → word ≡ field 8 image at
unfolding unpack_word
unpack_word-eq image at word h = ground arith

module _ (c : Config) (symbols : List Symbol) (shim_prefix : List ℕ) (rel : Relocation)
    (at : Location) (st st' : Fixups) where
  patch-IsPatched :
      (value : ℤ) (patched : Patched)
      → IsInternal symbols rel
      → value ≡ target c symbols rel (field 8 st.image at.output_offset)
      → patch at value patched st ≡ ok st'
      → IsPatched c symbols rel at st st'
  unfolding patch
  patch-IsPatched value patched i v h =
      let o = at.output_offset in
      let (image, e, e') = >>=-eq-ok (pack_into st.image o (wrap64 value)) _ h in
      rw (← ok-injective e') (record {
        internal = i;
        word =
            field-pack_into_self st.image image o (wrap64 value) e (wrap64-lt value) ∙ ap wrap64 v;
        others = slice-pack_into_ne st.image image o (wrap64 value) e;
        rebased = refl;
        bindings = refl;
      })

  relative_lem :
      rel.type ≡ aarch64_relative
      → fix_relative c at rel st ≡ ok st'
      → IsPatched c symbols rel at st st'
  unfolding fix_relative target
  relative_lem r h = patch-IsPatched _ _ (inl r) (unfold target in ground arith) h

  defined_lem :
      (symbol : Symbol)
      → is_symbolic rel.type ≡ true
      → get_elem? symbols rel.symbol_index ≡ some symbol
      → symbol.shndx ≢ shn_undef
      → fix_defined c at rel symbol st ≡ ok st'
      → IsPatched c symbols rel at st st'
  unfolding fix_defined target
  defined_lem symbol s f d h =
      let (existing, e, e') =
        >>=-eq-ok (if rel.type == abs64 then unpack_word st.image at.output_offset else ok 0) _ h in
      patch-IsPatched _ _ (inr (s, symbol, f, d))
        (ground (
          arith,
          e,
          f,
          unpack_word-eq st.image at.output_offset existing,
          +ℤ_zero (pos (slide c + symbol.value) +ℤ rel.addend),
        ))
        e'

  import_lem :
      (symbol : Symbol)
      → get_elem? symbols rel.symbol_index ≡ some symbol
      → symbol.shndx ≡ shn_undef
      → fix_import shim_prefix at rel symbol st ≡ ok st'
      → IsImported symbols shim_prefix rel at st st'
  unfolding fix_import
  import_lem symbol f u h =
      let (existing, e, e') = >>=-eq-ok (unpack_word st.image at.output_offset) _ h in
      rw (← ok-injective e') (record {
        symbol = symbol;
        found = f;
        undefined = u;
        image = refl;
        rebases = refl;
        bound = rw (unpack_word-eq st.image at.output_offset existing e);
      })

  branch_lem :
      Branch c symbols shim_prefix at rel st st'
      → IsPatched c symbols rel at st st' ⊎ IsImported symbols shim_prefix rel at st st'
  branch_lem (relative_branch r h) = inl (relative_lem r h)
  branch_lem (import_branch symbol s f u h) = inr (import_lem symbol f u h)
  branch_lem (defined_branch symbol s f u h) = inl (defined_lem symbol s f u h)

pub fix_one_word :
    (c : Config) (segs : List ImageSegment) (symbols : List Symbol) (shim_prefix : List ℕ)
    (rel : Relocation) (st st' : Fixups)
    → fix_one c segs symbols shim_prefix rel st ≡ ok st'
    → (at : Location) × (location c segs rel.offset ≡ ok at)
      × (IsPatched c symbols rel at st st' ⊎ IsImported symbols shim_prefix rel at st st')
fix_one_word c segs symbols shim_prefix rel st st' h =
    let (at, e, b) = fix_one-inv c segs symbols shim_prefix rel st st' h in
    (at, e, branch_lem c symbols shim_prefix rel at st st' b)
