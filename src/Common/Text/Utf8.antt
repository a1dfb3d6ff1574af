-- ===== src/Common/Text/Utf8.antt =====
-- `bytes.decode("utf-8", "replace")` and `str.encode("utf-8")`.
use Prim.Native.Nat.{ℕ, ◌+◌, ◌-◌, ◌*◌, ◌/◌, ◌%◌, ◌<◌}
use mathlib.Core.Path.{◌≡◌}
use native.Mathlib.Omega.{arith}
use il2cppapk2ios.Common.Lists.{All, All-append}
use mathlib.Core.Bool.{◌&&◌}
use mathlib.Core.List.{List, [], ◌∷◌, ◌++◌}
use il2cppapk2ios.Common.Outcome.{Outcome, ok, err, ◌>>=◌, ok-injective, >>=₂-eq-ok, unicode_error}
use il2cppapk2ios.Common.Tests.{ltb, leb, ◌==◌, if◌then◌else◌}

-- A sequence that has begun: the continuation bytes still wanted, the bits read so far, and the
-- range in which the next byte must lie.
pub data Decoder : Type 0 where
  idle : Decoder
  pending : ℕ → ℕ → ℕ → ℕ → Decoder

abbrev pub replacement : ℕ
replacement = 0xFFFD

-- The first byte of a sequence.
unfoldable pub lead : ℕ → List ℕ × Decoder
lead b =
    if ltb b 0x80
    then (b ∷ [], idle)
    else if leb 0xC2 b && leb b 0xDF
    then ([], pending 1 (b - 0xC0) 0x80 0xBF)
    else if b == 0xE0
    then ([], pending 2 0 0xA0 0xBF)
    else if b == 0xED
    then ([], pending 2 13 0x80 0x9F)
    else if leb 0xE1 b && leb b 0xEF
    then ([], pending 2 (b - 0xE0) 0x80 0xBF)
    else if b == 0xF0
    then ([], pending 3 0 0x90 0xBF)
    else if b == 0xF4
    then ([], pending 3 4 0x80 0x8F)
    else if leb 0xF1 b && leb b 0xF3
    then ([], pending 3 (b - 0xF0) 0x80 0xBF)
    else (replacement ∷ [], idle)

abbrev replaced : List ℕ × Decoder → List ℕ × Decoder
replaced (out, state) = (replacement ∷ out, state)

-- A byte out of range ends the sequence with a replacement character and is read again.
unfoldable pub feed : Decoder → ℕ → List ℕ × Decoder
unfolding lead
feed idle b = lead b
feed (pending wanted bits low high) b =
    if leb low b && leb b high
    then (if wanted == 1
        then ((bits * 64 + (b - 0x80)) ∷ [], idle)
        else ([], pending (wanted - 1) (bits * 64 + (b - 0x80)) 0x80 0xBF))
    else replaced (lead b)

unfoldable pub decode_from : Decoder → List ℕ → List ℕ
unfolding feed
decode_from idle [] = []
decode_from (pending wanted bits low high) [] = replacement ∷ []
decode_from state (b ∷ bs) = (feed state b).0 ++ decode_from (feed state b).1 bs

unfoldable pub decode : List ℕ → List ℕ
unfolding decode_from
decode = decode_from idle

-- Surrogates, which `decode` never yields, raise an exception.
unfoldable pub encode_char : ℕ → Outcome (List ℕ)
encode_char c =
    if ltb c 0x80
    then ok (c ∷ [])
    else if ltb c 0x800
    then ok ((0xC0 + c / 64) ∷ ((0x80 + c % 64) ∷ []))
    else if leb 0xD800 c && leb c 0xDFFF
    then err unicode_error
    else if ltb c 0x10000
    then ok ((0xE0 + c / 4096) ∷ ((0x80 + c / 64 % 64) ∷ ((0x80 + c % 64) ∷ [])))
    else ok (
        (0xF0 + c / 262144)
        ∷ ((0x80 + c / 4096 % 64) ∷ ((0x80 + c / 64 % 64) ∷ ((0x80 + c % 64) ∷ []))))

unfoldable pub encode : List ℕ → Outcome (List ℕ)
unfolding encode_char
encode [] = ok []
encode (c ∷ cs) = do head ← encode_char c; tail ← encode cs; ok (head ++ tail)

-- A character other than NUL is encoded without a NUL byte.
encode_char_nonzero :
    (c : ℕ) (bytes : List ℕ) → 0 < c → encode_char c ≡ ok bytes → All (λ b. 0 < b) bytes
unfolding encode_char
encode_char_nonzero c bytes h e = ground arith

pub encode_nonzero :
    (s bytes : List ℕ) → All (λ c. 0 < c) s → encode s ≡ ok bytes → All (λ b. 0 < b) bytes
unfolding encode
encode_nonzero [] bytes h e = rw (← ok-injective e) tt
encode_nonzero (c ∷ cs) bytes h e =
    let (head, tail, eh, et, e') = >>=₂-eq-ok (encode_char c) (encode cs) ◌++◌ e in
    rw e'
      (All-append _ head tail (encode_char_nonzero c head h.0 eh) (encode_nonzero cs tail h.1 et))
