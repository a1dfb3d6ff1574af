-- ===== src/Phase3/Tests/Streams.antt =====
-- The theorems on the dyld streams at concrete places and imports.
use mathlib.Core.List.{Perm}
use il2cppapk2ios.Phase3.Streams.{Binding, place_le, binding_le, rebase_stream, bind_stream}
use il2cppapk2ios.Phase3.Rebase.{read_rebases, read_rebases-rebase_stream}
use il2cppapk2ios.Phase3.Bind.{
  read_binds, IsPlain, as_written, as_meant, read_binds-bind_stream, AddendsKept, binds_meant_iff,
}
use il2cppapk2ios.Common.{ℕ, ◌≡◌, ◌↔◌, refl, arith, List, [], ◌∷◌, some}
use il2cppapk2ios.Common.Int.{pos, ℤ}
use il2cppapk2ios.Common.Outcome.{ok}
use il2cppapk2ios.Common.Sort.{sorted}
use il2cppapk2ios.Common.Text.{codes, encode}
use il2cppapk2ios.Struct.{Bytes}

abbrev two_places : List (ℕ × ℕ)
two_places = (1, 8) ∷ ((0, 0x1000) ∷ [])

read_rebases-rebase_stream_example :
    (stream : Bytes) × (rebase_stream two_places ≡ ok stream)
    × (read_rebases stream ≡ some (sorted place_le two_places))
    × Perm (sorted place_le two_places) two_places
read_rebases-rebase_stream_example = read_rebases-rebase_stream two_places (omega arith)

abbrev import_at : ℕ → ℤ → Binding
import_at offset addend = record {
  offset = 0;
  type = 257;
  symbol = codes "f";
  shim_symbol = codes "_f";
  symbol_type = 2;
  segment_index = 1;
  segment_offset = offset;
  addend = addend;
}

import_at-IsPlain : (offset : ℕ) (addend : ℤ) → IsPlain (import_at offset addend)
unfolding encode
import_at-IsPlain offset addend = record {
  bytes = codes "_f";
  encodes = refl;
  no_nul = omega arith;
  small = omega arith;
}

-- The second import has the addend 0 and stands behind one with the addend 16.
abbrev lost_addend : List Binding
lost_addend = import_at 8 (pos 16) ∷ (import_at 24 (pos 0) ∷ [])

abbrev lost_addend_stream : Bytes
lost_addend_stream =
    0x11
    ∷ (0x51
        ∷ (0x40
            ∷ (0x5F
                ∷ (0x66
                    ∷ (0
                        ∷ (0x60
                            ∷ (0x10
                                ∷ (0x71
                                    ∷ (8
                                        ∷ (0x90
                                            ∷ (0x40
                                                ∷ (0x5F
                                                    ∷ (0x66
                                                        ∷ (0
                                                            ∷ (0x71
                                                            ∷ (24
                                                            ∷ (0x90 ∷ (0 ∷ []))))))))))))))))))

lost_addend_run : bind_stream 1 lost_addend ≡ ok lost_addend_stream
unfolding bind_stream encode
lost_addend_run = refl

read_binds-bind_stream_example :
    (stream : Bytes) × (bind_stream 1 lost_addend ≡ ok stream)
    × (read_binds stream ≡ some (as_written 1 (pos 0) (sorted binding_le lost_addend)))
    × Perm (sorted binding_le lost_addend) lost_addend
read_binds-bind_stream_example =
    read_binds-bind_stream 1 lost_addend (omega arith) (omega arith)
      (import_at-IsPlain 8 (pos 16), (import_at-IsPlain 24 (pos 0), tt))

binds_meant_iff_example :
    (read_binds lost_addend_stream ≡ some (as_meant 1 (sorted binding_le lost_addend)))
    ↔ AddendsKept (pos 0) (sorted binding_le lost_addend)
binds_meant_iff_example =
    binds_meant_iff 1 lost_addend lost_addend_stream (omega arith) (omega arith)
      (import_at-IsPlain 8 (pos 16), (import_at-IsPlain 24 (pos 0), tt)) lost_addend_run

-- So the second import of this list is bound with the wrong addend.
lost_addend_bug :
    ¬ (read_binds lost_addend_stream ≡ some (as_meant 1 (sorted binding_le lost_addend)))
unfolding sorted
lost_addend_bug h = cc ((binds_meant_iff_example.0 h).1.0)
