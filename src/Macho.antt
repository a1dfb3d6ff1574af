-- ===== src/Macho.antt =====
-- The skeleton of src/il2cppapk2ios/macho.py, and how a loader reads the load commands of a file.
pub mod Reader
pub mod DyldInfo
pub mod Tests
use il2cppapk2ios.Common.{ℕ, ◌+◌, ◌-◌, ◌^◌, List, [], ◌∷◌, ◌++◌, length}
use il2cppapk2ios.Common.Outcome.{Outcome, ok, ◌>>=◌}
use il2cppapk2ios.Common.Text.{codes}
use il2cppapk2ios.Struct.{Bytes, zeros}
use il2cppapk2ios.Struct.Pack.{Field, u32, i32, u64, s16, pack}

abbrev pub page : ℕ
page = 0x4000

-- mov w0, #0; ret
abbrev pub code : Bytes
code = 0x00 ∷ (0x00 ∷ (0x80 ∷ (0x52 ∷ (0xC0 ∷ (0x03 ∷ (0x5F ∷ (0xD6 ∷ [])))))))

abbrev pub skeleton_segment : List Field
skeleton_segment =
    u32 0x19
    ∷ (u32 (72 + 80)
        ∷ (s16 (codes "__TEXT")
            ∷ (u64 0x100000000
                ∷ (u64 (page + length code)
                    ∷ (u64 0
                        ∷ (u64 (page + length code)
                            ∷ (i32 5 ∷ (i32 5 ∷ (u32 1 ∷ (u32 0 ∷ []))))))))))

abbrev pub skeleton_section : List Field
skeleton_section =
    s16 (codes "__text")
    ∷ (s16 (codes "__TEXT")
        ∷ (u64 (0x100000000 + page)
            ∷ (u64 (length code)
                ∷ (u32 page
                    ∷ (u32 2
                        ∷ (u32 0
                            ∷ (u32 0 ∷ (u32 0x80000400 ∷ (u32 0 ∷ (u32 0 ∷ (u32 0 ∷ [])))))))))))

abbrev pub skeleton_main : List Field
skeleton_main = u32 0x80000028 ∷ (u32 24 ∷ (u64 page ∷ (u64 0 ∷ [])))

-- MH_MAGIC_64, CPU_TYPE_ARM64, CPU_SUBTYPE_ARM64_ALL, MH_EXECUTE
abbrev pub skeleton_header : Bytes → List Field
skeleton_header commands =
    u32 0xFEEDFACF
    ∷ (i32 0x0100000C
        ∷ (i32 0 ∷ (u32 2 ∷ (u32 2 ∷ (u32 (length commands) ∷ (u32 0 ∷ (u32 0 ∷ [])))))))

-- `build_arm64_macho_skeleton`, up to the write of the file
unfoldable pub build_arm64_macho_skeleton : Outcome Bytes
unfolding pack
build_arm64_macho_skeleton = do
  segment ← pack skeleton_segment
  section ← pack skeleton_section
  entry ← pack skeleton_main
  let commands = segment ++ (section ++ entry)
  header ← pack (skeleton_header commands)
  let image = header ++ commands
  ok (image ++ (zeros (page - length image) ++ code))
