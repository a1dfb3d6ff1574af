-- ===== src/Phase4/Tests/Whole.antt =====
-- The theorems on the whole file of phase4.py at a small shared object.
use il2cppapk2ios.Elf.Tests.{sample_elf}
use il2cppapk2ios.Phase3.{init}
use il2cppapk2ios.Phase3.Tests.{small_config, options}
use il2cppapk2ios.Phase3.Tests.Whole.{is_ok, value_of, segments}
use il2cppapk2ios.Phase4.Translate.{Phase4Translation, translate_phase4}
use il2cppapk2ios.Common.{◌≡◌, refl, true}
use il2cppapk2ios.Struct.{le_bytes}

translate_phase4_returns : is_ok (translate_phase4 small_config options sample_elf segments) ≡ true
unfolding segments value_of init translate_phase4 le_bytes
translate_phase4_returns = refl

result4 : Phase4Translation
result4 =
    value_of (translate_phase4 small_config options sample_elf segments) translate_phase4_returns
