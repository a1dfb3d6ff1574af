-- ===== src/Apk/Tests.antt =====
-- A small archive.
use il2cppapk2ios.Apk.{ZipEntry, abis, NativeLib, native_libs, extract_arm64}
use il2cppapk2ios.Apk.Libs.{abis-native_libs}
use il2cppapk2ios.Apk.Version.{unity_version}
use il2cppapk2ios.Apk.Version.Report.{Reports, unity_version-Reports, version_entries}
use il2cppapk2ios.Common.{ℕ, ◌≡◌, ◌≢◌, ◌↔◌, refl, true, List, [], ◌∷◌, map, some}
use il2cppapk2ios.Common.Outcome.{ok}
use il2cppapk2ios.Common.Text.{codes, is_in}
use il2cppapk2ios.Common.Paths.{Without}

abbrev entry : List ℕ → List ℕ → ZipEntry
entry filename content = record { filename = filename; file_size = 3; content = ok content }

abbrev sample : List ZipEntry
sample =
    entry (codes "lib/arm64-v8a/libunity.so") (codes "unity")
    ∷ (entry (codes "lib/arm64-v8a/libil2cpp.so") (codes "il2cpp")
        ∷ (entry (codes "lib/x86/old/libmain.so") (codes "x86")
            ∷ (entry (codes "assets/bin/Data/globalgamemanagers") (codes "..2021.x 2021.3.15f1 ")
                ∷ (entry (codes "assets/Managed/Metadata/global-metadata.dat") (codes "meta")
                    ∷ []))))

abis-sample : abis sample ≡ codes "arm64-v8a" ∷ (codes "x86" ∷ [])
unfolding abis
abis-sample = refl

native_libs-sample :
    map (λ (lib : NativeLib). lib.name) (native_libs (codes "arm64-v8a") sample)
    ≡ codes "libil2cpp.so" ∷ (codes "libunity.so" ∷ [])
unfolding native_libs
native_libs-sample = refl

unity_version-sample : unity_version sample ≡ ok (some (codes "2021.3.15f1"))
unfolding unity_version
unity_version-sample = refl

abis-native_libs_example :
    (is_in (codes "x86") (abis sample) ≡ true)
    ↔ (Without 47 (codes "x86") × (native_libs (codes "x86") sample ≢ []))
abis-native_libs_example = abis-native_libs (codes "x86") sample

unity_version-Reports_example : Reports 4194304 sample version_entries (unity_version sample)
unity_version-Reports_example = unity_version-Reports sample

-- Two metadata files in different directories are written to one file, and both targets are named.
two_metadata :
    extract_arm64
      (entry (codes "a/global-metadata.dat") (codes "first")
        ∷ (entry (codes "b/global-metadata.dat") (codes "second") ∷ []))
      []
    ≡ ok (
      codes "global-metadata.dat" ∷ (codes "global-metadata.dat" ∷ []),
      (codes "global-metadata.dat", codes "second") ∷ [],
    )
unfolding extract_arm64
two_metadata = refl
