-- ===== src/Leb/Tests.antt =====
-- Runs of the encoders.
use il2cppapk2ios.Leb.{uleb, sleb128}
use il2cppapk2ios.Leb.Uleb.{read_uleb, read_uleb-uleb, IsShortest, uleb-IsShortest}
use il2cppapk2ios.Leb.Sleb.{read_sleb, read_sleb-sleb128}
use il2cppapk2ios.Common.{◌≡◌, refl, [], ◌∷◌, ◌++◌, some}
use il2cppapk2ios.Common.Int.{pos, negsuc}

uleb_624485 : uleb 624485 ≡ 0xE5 ∷ 0x8E ∷ 0x26 ∷ []
unfolding uleb
uleb_624485 = refl

sleb_minus_123456 : sleb128 (negsuc 123455) ≡ 0xC0 ∷ 0xBB ∷ 0x78 ∷ []
unfolding sleb128
sleb_minus_123456 = refl

sleb_64 : sleb128 (pos 64) ≡ 0xC0 ∷ 0x00 ∷ []
unfolding sleb128
sleb_64 = refl

read_uleb-uleb_example : read_uleb (uleb 624485 ++ (7 ∷ [])) ≡ some (624485, 7 ∷ [])
read_uleb-uleb_example = read_uleb-uleb 624485 (7 ∷ [])

uleb-IsShortest_example : IsShortest 624485 (uleb 624485)
uleb-IsShortest_example = uleb-IsShortest 624485

read_sleb-sleb128_example :
    read_sleb (sleb128 (negsuc 123455) ++ (7 ∷ [])) ≡ some (negsuc 123455, 7 ∷ [])
read_sleb-sleb128_example = read_sleb-sleb128 (negsuc 123455) (7 ∷ [])
