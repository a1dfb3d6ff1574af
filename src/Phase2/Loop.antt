-- ===== src/Phase2/Loop.antt =====
-- The relocation loop of `Phase2Translator.translate` (src/il2cppapk2ios/translate.py).
use il2cppapk2ios.Phase2.{LoadConfig, MappedLoad, output_offset_of}
use il2cppapk2ios.Phase3.Fixups.{
  Patched, unpack_word, is_symbolic, count_relative, count_internal, abs64, aarch64_relative,
}
use il2cppapk2ios.Elf.{shn_undef}
use il2cppapk2ios.Elf.Symbols.{Symbol}
use il2cppapk2ios.Elf.Relocations.{Relocation}
use il2cppapk2ios.Common.{ℕ, ◌+◌, ◌==◌, List, [], ◌∷◌, ◌++◌, get_elem?, none, some, if◌then◌else◌}
use il2cppapk2ios.Common.Int.{ℤ, pos, ◌+ℤ◌, wrap64}
use il2cppapk2ios.Common.Outcome.{Outcome, ok, err, ◌>>=◌, unsupported_relocation, bad_symbol_index}
use il2cppapk2ios.Struct.{Bytes, pack_into}

-- An import that the next phase has to resolve.
pub record Unresolved : Type 0 where
  pub offset : ℕ
  pub type : ℕ
  pub symbol : List ℕ
  pub addend : ℤ

-- The variables that the loop changes.
pub record Relocated : Type 0 where
  pub image : Bytes
  pub patched : Patched
  pub unresolved : List Unresolved

unfoldable pub write_word : ℕ → ℤ → Patched → Relocated → Outcome Relocated
unfolding pack_into wrap64
write_word dst value patched st = do
  image ← pack_into st.image dst (wrap64 value)
  ok (record st { image = image; patched = patched })

unfoldable pub relocate_relative : LoadConfig → ℕ → Relocation → Relocated → Outcome Relocated
unfolding write_word ◌+ℤ◌
relocate_relative c dst rel st =
    write_word dst (pos c.slide +ℤ rel.addend) (count_relative st.patched) st

unfoldable pub leave_import : Relocation → Symbol → Relocated → Outcome Relocated
leave_import rel symbol st = ok (record st {
  unresolved =
      st.unresolved
      ++ (record { offset = rel.offset; type = rel.type; symbol = symbol.name; addend = rel.addend }
          ∷ []);
})

-- Only ABS64 is added to the word that is there.
unfoldable pub relocate_defined :
    LoadConfig → ℕ → Relocation → Symbol → Relocated → Outcome Relocated
unfolding write_word unpack_word ◌+ℤ◌
relocate_defined c dst rel symbol st = do
  current ← if rel.type == abs64 then unpack_word st.image dst else ok 0
  write_word dst (pos (c.slide + symbol.value) +ℤ rel.addend +ℤ pos current)
      (count_internal rel.type st.patched) st

unfoldable pub relocate_symbolic :
    LoadConfig → List Symbol → ℕ → Relocation → Relocated → Outcome Relocated
unfolding leave_import relocate_defined
relocate_symbolic c symbols dst rel st = elim (get_elem? symbols rel.symbol_index) [
  | none ↦ err (bad_symbol_index rel.symbol_index)
  | some symbol ↦
      if symbol.shndx == shn_undef
      then leave_import rel symbol st
      else relocate_defined c dst rel symbol st
]

-- One round of the loop.
unfoldable pub relocate_one :
    LoadConfig → List MappedLoad → List Symbol → Relocation → Relocated → Outcome Relocated
unfolding output_offset_of relocate_relative relocate_symbolic
relocate_one c loads symbols rel st = do
  dst ← output_offset_of loads rel.offset
  (if rel.type == aarch64_relative
      then relocate_relative c dst rel st
      else if is_symbolic rel.type
      then relocate_symbolic c symbols dst rel st
      else err (unsupported_relocation rel.type rel.offset))

unfoldable pub relocate_all :
    LoadConfig → List MappedLoad → List Symbol → List Relocation → Relocated → Outcome Relocated
unfolding relocate_one
relocate_all c loads symbols [] st = ok st
relocate_all c loads symbols (rel ∷ rels) st = do
  next ← relocate_one c loads symbols rel st
  relocate_all c loads symbols rels next
