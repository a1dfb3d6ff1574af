-- ===== src/Phase3/Streams.antt =====
-- `_rebase_stream` and `_bind_stream` of src/il2cppapk2ios/phase3.py: the opcodes for dyld.
use il2cppapk2ios.Common.{
  ℕ, ltb, leb, ◌==◌, Bool, ◌&&◌, ◌||◌, not, List, [], ◌∷◌, ◌++◌, if◌then◌else◌, bit_or,
}
use il2cppapk2ios.Common.Int.{ℤ, pos, is_zero}
use il2cppapk2ios.Common.Outcome.{
  Outcome, ok, ◌>>=◌, ◌>>◌, raise_if, too_many_segments, bad_dylib_ordinal,
}
use il2cppapk2ios.Common.Sort.{sorted}
use il2cppapk2ios.Common.Text.{encode}
use il2cppapk2ios.Leb.{uleb128, sleb128}
use il2cppapk2ios.Struct.{Bytes}

-- The order of tuples (segment index, segment offset).
abbrev pub place_le : ℕ × ℕ → ℕ × ℕ → Bool
place_le (i, a) (j, b) = ltb i j || ((i == j) && leb a b)

-- SET_SEGMENT_AND_OFFSET_ULEB and DO_REBASE_IMM_TIMES for one place.
unfoldable pub rebase_one : ℕ × ℕ → Outcome Bytes
unfolding uleb128
rebase_one (segment_index, segment_offset) = do
  raise_if (ltb 15 segment_index) too_many_segments
  offset ← uleb128 (pos segment_offset)
  ok (bit_or 0x20 segment_index ∷ (offset ++ (bit_or 0x50 1 ∷ [])))

unfoldable pub rebase_each : List (ℕ × ℕ) → Outcome Bytes
unfolding rebase_one
rebase_each [] = ok []
rebase_each (l ∷ ls) = do head ← rebase_one l; tail ← rebase_each ls; ok (head ++ tail)

unfoldable pub rebase_stream : List (ℕ × ℕ) → Outcome Bytes
unfolding rebase_each sorted
rebase_stream locations = do
  body ← rebase_each (sorted place_le locations)
  ok (bit_or 0x10 1 ∷ (body ++ (0x00 ∷ [])))

pub record Binding : Type 0 where
  pub offset : ℕ
  pub type : ℕ
  pub symbol : List ℕ
  pub shim_symbol : List ℕ
  pub symbol_type : ℕ
  pub segment_index : ℕ
  pub segment_offset : ℕ
  pub addend : ℤ

abbrev pub binding_le : Binding → Binding → Bool
binding_le a b = place_le (a.segment_index, a.segment_offset) (b.segment_index, b.segment_offset)

-- SET_ADDEND_SLEB, which the code leaves out for the addend 0.
unfoldable pub addend_opcode : ℤ → Bytes
unfolding sleb128
addend_opcode addend = if is_zero addend then [] else 0x60 ∷ sleb128 addend

-- SET_SYMBOL_TRAILING_FLAGS_IMM, the addend, SET_SEGMENT_AND_OFFSET_ULEB and DO_BIND for one import.
unfoldable pub bind_one : Binding → Outcome Bytes
unfolding addend_opcode uleb128
bind_one item = do
  raise_if (ltb 15 item.segment_index) too_many_segments
  name ← encode item.shim_symbol
  offset ← uleb128 (pos item.segment_offset)
  ok (
      0x40
      ∷ (name
          ++ (0
              ∷ (addend_opcode item.addend
                  ++ (bit_or 0x70 item.segment_index ∷ (offset ++ (0x90 ∷ [])))))))

unfoldable pub bind_each : List Binding → Outcome Bytes
unfolding bind_one
bind_each [] = ok []
bind_each (b ∷ bs) = do head ← bind_one b; tail ← bind_each bs; ok (head ++ tail)

unfoldable pub bind_stream : ℕ → List Binding → Outcome Bytes
unfolding bind_each sorted
bind_stream shim_ordinal bindings = do
  raise_if (not (leb 1 shim_ordinal && leb shim_ordinal 15)) bad_dylib_ordinal
  body ← bind_each (sorted binding_le bindings)
  ok (bit_or 0x10 shim_ordinal ∷ (bit_or 0x50 1 ∷ (body ++ (0x00 ∷ []))))
