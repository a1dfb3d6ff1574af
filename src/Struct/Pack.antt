-- ===== src/Struct/Pack.antt =====
-- `struct.pack` with the formats I, i, Q and 16s.
pub mod Sizes
use il2cppapk2ios.Struct.{Bytes, pack_unsigned, pack_i32, zeros}
use il2cppapk2ios.Common.{ℕ, ◌-◌, List, [], ◌∷◌, ◌++◌, length, take}
use il2cppapk2ios.Common.Outcome.{Outcome, ok, ◌>>=◌}

pub data Field : Type 0 where
  u32 : ℕ → Field
  i32 : ℕ → Field
  u64 : ℕ → Field
  s16 : Bytes → Field

-- name[:16].ljust(16, b"\0")
unfoldable pub fixed16 : Bytes → Bytes
fixed16 name = take 16 name ++ zeros (16 - length name)

unfoldable pub pack_field : Field → Outcome Bytes
unfolding pack_unsigned pack_i32 fixed16
pack_field (u32 value) = pack_unsigned 4 value
pack_field (i32 value) = pack_i32 value
pack_field (u64 value) = pack_unsigned 8 value
pack_field (s16 name) = ok (fixed16 name)

unfoldable pub pack : List Field → Outcome Bytes
unfolding pack_field
pack [] = ok []
pack (f ∷ fs) = do head ← pack_field f; tail ← pack fs; ok (head ++ tail)
