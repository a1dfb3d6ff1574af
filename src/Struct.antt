-- ===== src/Struct.antt =====
-- Byte strings as the sources use them: Python's slices, slice assignment on a bytearray, and the
-- little-endian formats of `struct`.
pub mod Laws
pub mod Copy
pub mod Pack
pub mod Strings
use il2cppapk2ios.Common.{
  ℕ, zero, suc, ◌+◌, ◌-◌, ◌*◌, ◌/◌, ◌%◌, ◌^◌, max, ltb, leb, List, [], ◌∷◌, ◌++◌, take, drop,
  length, replicate, if◌then◌else◌,
}
use il2cppapk2ios.Common.Int.{ℤ, pos, negsuc}
use il2cppapk2ios.Common.Outcome.{Outcome, ok, err, struct_error}

abbrev pub Bytes : Type 0
Bytes = List ℕ

-- data[start:stop] for indices that are not negative
unfoldable pub slice : ℕ → ℕ → Bytes → Bytes
slice start stop bytes = take (stop - start) (drop start bytes)

-- image[start:stop] = new, which changes the length where the two lengths differ
unfoldable pub splice : Bytes → ℕ → ℕ → Bytes → Bytes
splice image start stop new = take start image ++ (new ++ drop (max start stop) image)

-- The number that bytes stand for, lowest byte first.
unfoldable pub le_value : Bytes → ℕ
le_value [] = 0
le_value (b ∷ bs) = b + 256 * le_value bs

-- The lowest `width` bytes of a number.
unfoldable pub le_bytes : ℕ → ℕ → Bytes
le_bytes zero value = []
le_bytes (suc width) value = value % 256 ∷ le_bytes width (value / 256)

-- One unsigned field of `struct.unpack_from`, whose bounds the caller has tested.
unfoldable pub field : ℕ → Bytes → ℕ → ℕ
unfolding slice le_value
field width bytes offset = le_value (slice offset (offset + width) bytes)

-- A field of format q: the number that 64 bits stand for.
abbrev pub signed64 : ℕ → ℤ
signed64 word = if ltb word (2 ^ 63) then pos word else negsuc (2 ^ 64 - word - 1)

-- Formats B, H, I and Q of `struct.pack` raise on a value that does not fit.
unfoldable pub pack_unsigned : ℕ → ℕ → Outcome Bytes
unfolding le_bytes
pack_unsigned width value =
    if ltb value (256 ^ width) then ok (le_bytes width value) else err struct_error

-- Format i, for a value that is not negative.
unfoldable pub pack_i32 : ℕ → Outcome Bytes
unfolding le_bytes
pack_i32 value = if ltb value (2 ^ 31) then ok (le_bytes 4 value) else err struct_error

-- struct.pack_into("<Q", image, offset, value) for a value below 2 ^ 64
unfoldable pub pack_into : Bytes → ℕ → ℕ → Outcome Bytes
unfolding splice le_bytes
pack_into image offset value =
    if leb (offset + 8) (length image)
    then ok (splice image offset (offset + 8) (le_bytes 8 value))
    else err struct_error

-- b"\0" * count
abbrev pub zeros : ℕ → Bytes
zeros count = replicate count 0
