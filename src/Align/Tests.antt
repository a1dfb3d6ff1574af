-- ===== src/Align/Tests.antt =====
-- Runs of the rounding functions, and the theorem on them at a page of 16 KB.
use il2cppapk2ios.Align.{align, floor}
use il2cppapk2ios.Align.Bounds.{align_least}
use il2cppapk2ios.Common.{ℕ, ◌+◌, ◌*◌, ◌%◌, ◌^◌, ◌≤◌, ◌<◌, ◌≡◌, refl}

align_run : align 0x4001 0x4000 ≡ 0x8000
unfolding align
align_run = refl

floor_run : floor 0x7FFF 0x4000 ≡ 0x4000
unfolding floor
floor_run = refl

align_least_example :
    (align 0x4001 (2 ^ 14) % 2 ^ 14 ≡ 0)
    × (0x4001 ≤ align 0x4001 (2 ^ 14))
    × (align 0x4001 (2 ^ 14) < 0x4001 + 2 ^ 14)
    × ((m : ℕ) → 0x4001 ≤ 2 ^ 14 * m → align 0x4001 (2 ^ 14) ≤ 2 ^ 14 * m)
align_least_example = align_least 14 0x4001
