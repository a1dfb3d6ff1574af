-- ===== src/Phase3/Fixups.antt =====
-- The relocation loop of `Phase3Translator.translate` (src/il2cppapk2ios/phase3.py): every entry
-- patches the image and is recorded as a rebase, or is recorded as a binding.
use il2cppapk2ios.Phase3.{Config, slide, ImageSegment, Location, location}
use il2cppapk2ios.Phase3.Streams.{Binding}
use il2cppapk2ios.Elf.{shn_undef}
use il2cppapk2ios.Elf.Symbols.{Symbol}
use il2cppapk2ios.Elf.Relocations.{Relocation}
use il2cppapk2ios.Common.{
  ℕ, ◌+◌, ◌%◌, leb, ◌==◌, ◌||◌, Bool, List, [], ◌∷◌, ◌++◌, length, get_elem?, none, some,
  if◌then◌else◌,
}
use il2cppapk2ios.Common.Int.{ℤ, pos, ◌+ℤ◌, wrap64}
use il2cppapk2ios.Common.Outcome.{
  Outcome, ok, err, ◌>>=◌, struct_error, unsupported_relocation, bad_symbol_index,
}
use il2cppapk2ios.Struct.{Bytes, field, pack_into}

abbrev pub abs64 : ℕ
abs64 = 257

abbrev pub glob_dat : ℕ
glob_dat = 1025

abbrev pub jump_slot : ℕ
jump_slot = 1026

abbrev pub aarch64_relative : ℕ
aarch64_relative = 1027

-- The counters of the report.
pub record Patched : Type 0 where
  pub relative : ℕ
  pub internal_abs64 : ℕ
  pub internal_glob_dat : ℕ
  pub internal_jump_slot : ℕ

-- The variables that the loop changes.
pub record Fixups : Type 0 where
  pub image : Bytes
  pub rebases : List (ℕ × ℕ)
  pub bindings : List Binding
  pub patched : Patched

-- struct.unpack_from("<Q", image, dst)[0]
unfoldable pub unpack_word : Bytes → ℕ → Outcome ℕ
unfolding field
unpack_word image dst =
    if leb (dst + 8) (length image) then ok (field 8 image dst) else err struct_error

abbrev pub is_symbolic : ℕ → Bool
is_symbolic type = (type == abs64) || ((type == glob_dat) || (type == jump_slot))

-- Write a pointer into the image and record its place.
unfoldable pub patch : Location → ℤ → Patched → Fixups → Outcome Fixups
unfolding pack_into wrap64
patch at value patched st = do
  image ← pack_into st.image at.output_offset (wrap64 value)
  ok (record st {
    image = image;
    rebases = st.rebases ++ ((at.segment_index, at.segment_offset) ∷ []);
    patched = patched;
  })

abbrev pub count_relative : Patched → Patched
count_relative p = record p { relative = p.relative + 1 }

abbrev pub count_internal : ℕ → Patched → Patched
count_internal type p =
    if type == abs64
    then record p { internal_abs64 = p.internal_abs64 + 1 }
    else if type == glob_dat
    then record p { internal_glob_dat = p.internal_glob_dat + 1 }
    else record p { internal_jump_slot = p.internal_jump_slot + 1 }

-- R_AARCH64_RELATIVE
unfoldable pub fix_relative : Config → Location → Relocation → Fixups → Outcome Fixups
unfolding patch ◌+ℤ◌
fix_relative c at rel st = patch at (pos (slide c) +ℤ rel.addend) (count_relative st.patched) st

-- A symbol that the file does not define.
unfoldable pub fix_import : List ℕ → Location → Relocation → Symbol → Fixups → Outcome Fixups
unfolding unpack_word ◌+ℤ◌
fix_import shim_prefix at rel symbol st = do
  existing ← unpack_word st.image at.output_offset
  let binding : Binding = record {
    offset = rel.offset;
    type = rel.type;
    symbol = symbol.name;
    shim_symbol = shim_prefix ++ symbol.name;
    symbol_type = symbol.info % 16;
    segment_index = at.segment_index;
    segment_offset = at.segment_offset;
    addend = if rel.type == abs64 then rel.addend +ℤ pos existing else rel.addend;
  }
  ok (record st { bindings = st.bindings ++ (binding ∷ []) })

-- A symbol that the file defines. Only ABS64 reads the word that is there.
unfoldable pub fix_defined : Config → Location → Relocation → Symbol → Fixups → Outcome Fixups
unfolding patch unpack_word ◌+ℤ◌
fix_defined c at rel symbol st = do
  existing ← if rel.type == abs64 then unpack_word st.image at.output_offset else ok 0
  patch at (pos (slide c + symbol.value) +ℤ rel.addend +ℤ pos existing)
      (count_internal rel.type st.patched) st

unfoldable pub fix_symbolic :
    Config → List Symbol → List ℕ → Location → Relocation → Fixups → Outcome Fixups
unfolding fix_import fix_defined
fix_symbolic c symbols shim_prefix at rel st = elim (get_elem? symbols rel.symbol_index) [
  | none ↦ err (bad_symbol_index rel.symbol_index)
  | some symbol ↦
      if symbol.shndx == shn_undef
      then fix_import shim_prefix at rel symbol st
      else fix_defined c at rel symbol st
]

-- One round of the loop.
unfoldable pub fix_one :
    Config → List ImageSegment → List Symbol → List ℕ → Relocation → Fixups → Outcome Fixups
unfolding location fix_relative fix_symbolic
fix_one c segments symbols shim_prefix rel st = do
  at ← location c segments rel.offset
  (if rel.type == aarch64_relative
      then fix_relative c at rel st
      else if is_symbolic rel.type
      then fix_symbolic c symbols shim_prefix at rel st
      else err (unsupported_relocation rel.type rel.offset))

unfoldable pub fix_all :
    Config → List ImageSegment → List Symbol → List ℕ → List Relocation → Fixups → Outcome Fixups
unfolding fix_one
fix_all c segments symbols shim_prefix [] st = ok st
fix_all c segments symbols shim_prefix (rel ∷ rels) st = do
  next ← fix_one c segments symbols shim_prefix rel st
  fix_all c segments symbols shim_prefix rels next
