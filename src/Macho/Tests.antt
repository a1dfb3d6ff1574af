-- ===== src/Macho/Tests.antt =====
-- The skeleton as a loader reads it.
use il2cppapk2ios.Macho.{build_arm64_macho_skeleton, page}
use il2cppapk2ios.Macho.Reader.{read_load_commands}
use il2cppapk2ios.Common.{ℕ, ◌+◌, ◌≡◌, refl, List, [], ◌∷◌, map, Option, none, some, length}
use il2cppapk2ios.Common.Outcome.{Outcome, ok, err}
use il2cppapk2ios.Struct.{Bytes, field, le_bytes}

abbrev numbers_and_sizes : Option (List Bytes) → List (ℕ × ℕ)
numbers_and_sizes none = []
numbers_and_sizes (some cs) = map (λ (c : Bytes). (field 4 c 0, field 4 c 4)) cs

abbrev loaded : Outcome Bytes → ℕ × List (ℕ × ℕ)
loaded (err e) = (0, [])
loaded (ok image) = (length image, numbers_and_sizes (read_load_commands image))

-- LC_SEGMENT_64 and LC_MAIN, in a file that ends with the code behind its first page.
skeleton-loaded :
    loaded build_arm64_macho_skeleton ≡ (page + 8, (0x19, 152) ∷ ((0x80000028, 24) ∷ []))
unfolding build_arm64_macho_skeleton read_load_commands le_bytes
skeleton-loaded = refl
