-- ===== src/Phase2/Words.antt =====
-- What a round of the relocation loop of translate.py does to the image, and the sums of the loop.
use il2cppapk2ios.Phase2.{LoadConfig, MappedLoad, output_offset_of}
use il2cppapk2ios.Phase2.Loop.{
  Relocated, write_word, relocate_relative, leave_import, relocate_defined, relocate_symbolic,
  relocate_one, relocate_all,
}
use il2cppapk2ios.Phase3.{Config}
use il2cppapk2ios.Phase3.Fixups.{
  Patched, unpack_word, is_symbolic, count_relative, count_internal, abs64, aarch64_relative,
}
use il2cppapk2ios.Phase3.Relocate.{
  IsInternal, target, total, total-count_internal, unpack_word-eq, +ℤ_zero,
}
use il2cppapk2ios.Elf.{shn_undef}
use il2cppapk2ios.Elf.Symbols.{Symbol}
use il2cppapk2ios.Elf.Relocations.{Relocation}
use il2cppapk2ios.Common.{
  ℕ, ◌+◌, ◌≤◌, ◌≡◌, ◌≢◌, ◌⊎◌, inl, inr, refl, ap, ◌∙◌, arith, List, [], ◌∷◌, ◌++◌, length,
  length-append, get_elem?, some, true, Bool-cases, Option-cases, if◌then◌else◌, ◌==◌,
}
use il2cppapk2ios.Common.Int.{ℤ, pos, ◌+ℤ◌, wrap64, wrap64-lt}
use il2cppapk2ios.Common.Outcome.{ok, err, ok-injective, >>=-eq-ok, unsupported_relocation}
use il2cppapk2ios.Struct.{slice, field, pack_into}
use il2cppapk2ios.Struct.Laws.{field-pack_into_self, slice-pack_into_ne, length-pack_into}

-- The configuration of the other translator with the same slide.
abbrev same_slide : LoadConfig → Config
same_slide c = record { image_base = 0; header_reserve = c.slide; page_size = c.page_size }

-- The relocation is internal: its pointer has been written, and nothing else has changed but its counter.
pub record IsWritten (c : LoadConfig) (symbols : List Symbol) (rel : Relocation) (dst : ℕ)
    (st st' : Relocated) : Type 0 where
  pub internal : IsInternal symbols rel
  pub word :
      field 8 st'.image dst ≡ wrap64 (target (same_slide c) symbols rel (field 8 st.image dst))
  pub others :
      (start stop : ℕ)
      → start ≤ stop
      → (stop ≤ dst) ⊎ (dst + 8 ≤ start)
      → slice start stop st'.image ≡ slice start stop st.image
  pub same_length : length st'.image ≡ length st.image
  pub counted : total st'.patched ≡ total st.patched + 1
  pub unresolved : st'.unresolved ≡ st.unresolved

-- The import has been left to the next phase, and nothing else has changed.
pub record IsLeft (symbols : List Symbol) (rel : Relocation) (st st' : Relocated) : Type 0 where
  pub symbol : Symbol
  pub found : get_elem? symbols rel.symbol_index ≡ some symbol
  pub undefined : symbol.shndx ≡ shn_undef
  pub image : st'.image ≡ st.image
  pub patched : st'.patched ≡ st.patched
  pub left :
      st'.unresolved
      ≡ st.unresolved
        ++ (record {
          offset = rel.offset;
          type = rel.type;
          symbol = symbol.name;
          addend = rel.addend;
        }
            ∷ [])

module _ (c : LoadConfig) (symbols : List Symbol) (rel : Relocation) (dst : ℕ)
    (st st' : Relocated) where
  write_word-IsWritten :
      (value : ℤ) (patched : Patched)
      → IsInternal symbols rel
      → value ≡ target (same_slide c) symbols rel (field 8 st.image dst)
      → total patched ≡ total st.patched + 1
      → write_word dst value patched st ≡ ok st'
      → IsWritten c symbols rel dst st st'
  unfolding write_word
  write_word-IsWritten value patched i v t h =
      let (image, e, e') = >>=-eq-ok (pack_into st.image dst (wrap64 value)) _ h in
      rw (← ok-injective e') (record {
        internal = i;
        word =
            field-pack_into_self st.image image dst (wrap64 value) e (wrap64-lt value)
            ∙ ap wrap64 v;
        others = slice-pack_into_ne st.image image dst (wrap64 value) e;
        same_length = length-pack_into st.image image dst (wrap64 value) e;
        counted = t;
        unresolved = refl;
      })

  Result : Type 0
  Result = IsWritten c symbols rel dst st st' ⊎ IsLeft symbols rel st st'

  relative-IsWritten :
      rel.type ≡ aarch64_relative
      → relocate_relative c dst rel st ≡ ok st'
      → IsWritten c symbols rel dst st st'
  unfolding relocate_relative target
  relative-IsWritten r h =
      write_word-IsWritten _ (count_relative st.patched) (inl r) (unfold target in ground arith)
        (omega arith) h

  defined-IsWritten :
      (symbol : Symbol)
      → is_symbolic rel.type ≡ true
      → get_elem? symbols rel.symbol_index ≡ some symbol
      → symbol.shndx ≢ shn_undef
      → relocate_defined c dst rel symbol st ≡ ok st'
      → IsWritten c symbols rel dst st st'
  unfolding relocate_defined target
  defined-IsWritten symbol s f d h =
      let (current, e, e') =
        >>=-eq-ok (if rel.type == abs64 then unpack_word st.image dst else ok 0) _ h in
      write_word-IsWritten _ (count_internal rel.type st.patched) (inr (s, symbol, f, d))
        (ground (
          arith,
          e,
          f,
          unpack_word-eq st.image dst current,
          +ℤ_zero (pos (c.slide + symbol.value) +ℤ rel.addend),
        ))
        (total-count_internal rel.type st.patched) e'

  import-IsLeft :
      (symbol : Symbol)
      → get_elem? symbols rel.symbol_index ≡ some symbol
      → symbol.shndx ≡ shn_undef
      → leave_import rel symbol st ≡ ok st'
      → IsLeft symbols rel st st'
  unfolding leave_import
  import-IsLeft symbol f u h = rw (← ok-injective h) (record {
    symbol = symbol;
    found = f;
    undefined = u;
    image = refl;
    patched = refl;
    left = refl;
  })

  symbolic_result :
      is_symbolic rel.type ≡ true → relocate_symbolic c symbols dst rel st ≡ ok st' → Result
  unfolding relocate_symbolic Result
  symbolic_result s h = elim (Option-cases (get_elem? symbols rel.symbol_index)) [
    | inl e ↦ absurd (cc (rw (e, relocate_symbolic) at h))
    | inr (symbol, e) ↦ elim (Bool-cases (symbol.shndx == shn_undef)) [
      | inl u ↦ inr (import-IsLeft symbol e (ground arith) (rw (e, relocate_symbolic, u) at h))
      | inr d ↦
          inl (defined-IsWritten symbol s e (ground arith) (rw (e, relocate_symbolic, d) at h))
    ]
  ]

  located_result :
      (if rel.type == aarch64_relative
          then relocate_relative c dst rel st
          else if is_symbolic rel.type
          then relocate_symbolic c symbols dst rel st
          else err (unsupported_relocation rel.type rel.offset))
        ≡ ok st'
      → Result
  unfolding Result
  located_result h = elim (Bool-cases (rel.type == aarch64_relative)) [
    | inl r ↦ inl (relative-IsWritten (ground arith) (rw r at h))
    | inr n ↦ elim (Bool-cases (is_symbolic rel.type)) [
      | inl s ↦ symbolic_result s (rw (n, s) at h)
      | inr t ↦ absurd (cc (rw (n, t) at h))
    ]
  ]

module _ (c : LoadConfig) (loads : List MappedLoad) (symbols : List Symbol) where
  pub relocate_one_word :
      (rel : Relocation) (st st' : Relocated)
      → relocate_one c loads symbols rel st ≡ ok st'
      → (dst : ℕ) × (output_offset_of loads rel.offset ≡ ok dst)
        × (IsWritten c symbols rel dst st st' ⊎ IsLeft symbols rel st st')
  unfolding relocate_one Result
  relocate_one_word rel st st' h =
      let (dst, e, e') = >>=-eq-ok (output_offset_of loads rel.offset) _ h in
      (dst, e, located_result c symbols rel dst st st' e')

  one_sum :
      (rel : Relocation) (st st' : Relocated)
      → relocate_one c loads symbols rel st ≡ ok st'
      → (length st'.image ≡ length st.image)
        × (total st'.patched + length st'.unresolved ≡ 1 + total st.patched + length st.unresolved)
  one_sum rel st st' h =
      let (dst, e, result) = relocate_one_word rel st st' h in
      elim result [
        | inl w ↦ (w.same_length, rw w.unresolved (omega (arith, w.counted)))
        | inr l ↦ (ap length l.image, rw (l.patched, l.left, length-append) (omega arith))
      ]

  -- When the loop ends without an error, each relocation has been counted as patched or recorded as
  -- unresolved, and the image is as long as before.
  pub relocate_all-total :
      (rels : List Relocation) (st st' : Relocated)
      → relocate_all c loads symbols rels st ≡ ok st'
      → (length st'.image ≡ length st.image)
        × (total st'.patched + length st'.unresolved
            ≡ length rels + total st.patched + length st.unresolved)
  unfolding relocate_all
  relocate_all-total [] st st' h = rw (← ok-injective h) (refl, omega arith)
  relocate_all-total (rel ∷ rels) st st' h =
      let (next, e, e') = >>=-eq-ok (relocate_one c loads symbols rel st) _ h in
      let (n, s) = one_sum rel st next e in
      let (n', s') = relocate_all-total rels next st' e' in (n' ∙ n, omega arith)
