-- ===== src/Struct/Strings.antt =====
-- A NUL-terminated string in the streams that dyld reads.
use il2cppapk2ios.Common.{
  ◌<◌, ◌≡◌, refl, arith, ◌==◌, [], ◌∷◌, ◌++◌, All, Option, none, some, if◌then◌else◌,
}
use mathlib.Core.Option
use il2cppapk2ios.Struct.{Bytes}

-- A string up to the NUL that ends it.
unfoldable pub read_string : Bytes → Option (Bytes × Bytes)
read_string [] = none
read_string (b ∷ bs) =
    if b == 0 then some ([], bs) else Option.map (λ (s, rest). (b ∷ s, rest)) (read_string bs)

pub read_string-append :
    (name rest : Bytes)
    → All (λ b. 0 < b) name
    → read_string (name ++ (0 ∷ rest)) ≡ some (name, rest)
unfolding read_string
read_string-append [] rest h = refl
read_string-append (b ∷ bs) rest h = ground (arith, read_string-append bs rest)
