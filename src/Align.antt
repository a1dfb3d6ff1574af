-- ===== src/Align.antt =====
-- `_align` and `_floor` of src/il2cppapk2ios/phase3.py; translate.py has the same two functions.
-- For integers of Python, `x & ~m` is `x - (x & m)`, and `~(0 - 1)` is 0.
pub mod Bounds
pub mod Tests
use il2cppapk2ios.Common.{ℕ, ◌+◌, ◌-◌, ◌==◌, bit_and, if◌then◌else◌}

-- value & ~(alignment - 1)
unfoldable pub floor : ℕ → ℕ → ℕ
floor value alignment = if alignment == 0 then 0 else value - bit_and value (alignment - 1)

-- (value + alignment - 1) & ~(alignment - 1)
unfoldable pub align : ℕ → ℕ → ℕ
unfolding floor
align value alignment = floor (value + alignment - 1) alignment
