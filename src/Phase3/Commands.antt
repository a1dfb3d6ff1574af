-- ===== src/Phase3/Commands.antt =====
-- The load commands and the Mach-O header of src/il2cppapk2ios/phase3.py.
use il2cppapk2ios.Phase3.{ImageSegment}
use il2cppapk2ios.Align.{align}
use il2cppapk2ios.Common.{ℕ, ◌+◌, ◌-◌, ◌*◌, ◌^◌, List, [], ◌∷◌, ◌++◌, length, bit_or}
use il2cppapk2ios.Common.Outcome.{Outcome, ok, ◌>>=◌}
use il2cppapk2ios.Common.Text.{codes, encode}
use il2cppapk2ios.Struct.{Bytes, zeros}
use il2cppapk2ios.Struct.Pack.{Field, u32, i32, u64, s16, pack}

unfoldable pub dylib_size : Bytes → ℕ
unfolding align
dylib_size raw = align (24 + length raw) 8

abbrev pub dylib_fields : ℕ → Bytes → List Field
dylib_fields command raw =
    u32 command ∷ (u32 (dylib_size raw) ∷ (u32 24 ∷ (u32 0 ∷ (u32 0x10000 ∷ (u32 0x10000 ∷ [])))))

-- `_dylib_command`
unfoldable pub dylib_command : ℕ → List ℕ → Outcome Bytes
unfolding encode pack dylib_size
dylib_command command name = do
  encoded ← encode name
  let raw = encoded ++ (0 ∷ [])
  head ← pack (dylib_fields command raw)
  ok (head ++ (raw ++ zeros (dylib_size raw - 24 - length raw)))

abbrev pub no_section_fields : List ℕ → ℕ → ℕ → ℕ → ℕ → ℕ → List Field
no_section_fields name vmaddr vmsize fileoff filesize protection =
    u32 0x19
    ∷ (u32 72
        ∷ (s16 name
            ∷ (u64 vmaddr
                ∷ (u64 vmsize
                    ∷ (u64 fileoff
                        ∷ (u64 filesize
                            ∷ (i32 protection ∷ (i32 protection ∷ (u32 0 ∷ (u32 0 ∷ []))))))))))

-- `_segment_no_sections`; a segment name is ASCII, so its code points are its bytes.
unfoldable pub segment_no_sections : List ℕ → ℕ → ℕ → ℕ → ℕ → ℕ → Outcome Bytes
unfolding pack
segment_no_sections name vmaddr vmsize fileoff filesize protection =
    pack (no_section_fields name vmaddr vmsize fileoff filesize protection)

abbrev pub segment_fields : ImageSegment → List Field
segment_fields seg =
    u32 0x19
    ∷ (u32 (72 + 80 * 2)
        ∷ (s16 seg.name
            ∷ (u64 seg.vmaddr
                ∷ (u64 seg.vmsize
                    ∷ (u64 seg.fileoff
                        ∷ (u64 seg.filesize
                            ∷ (i32 seg.protection
                                ∷ (i32 seg.protection ∷ (u32 2 ∷ (u32 0 ∷ []))))))))))

-- The eight last fields of "<16s16sQQIIIIIIII", of which the first two vary.
abbrev pub section_fields : Bytes → Bytes → ℕ → ℕ → ℕ → ℕ → List Field
section_fields section segment addr size offset align =
    s16 section
    ∷ (s16 segment
        ∷ (u64 addr
            ∷ (u64 size
                ∷ (u32 offset
                    ∷ (u32 align
                        ∷ (u32 0 ∷ (u32 0 ∷ (u32 0 ∷ (u32 0 ∷ (u32 0 ∷ (u32 0 ∷ [])))))))))))

-- `_segment_with_data_section`
unfoldable pub segment_with_data_section : ImageSegment → Outcome Bytes
unfolding pack
segment_with_data_section seg = do
  command ← pack (segment_fields seg)
  sentinel ← pack (section_fields (codes "__segstart") seg.name seg.vmaddr 0 seg.fileoff 0)
  data_section ←
      pack (section_fields seg.section_name seg.name seg.data_addr seg.data_size seg.data_fileoff 3)
  ok (command ++ (sentinel ++ data_section))

-- min_ios: (major, minor, patch)
pub record Version : Type 0 where
  pub major : ℕ
  pub minor : ℕ
  pub patch : ℕ

unfoldable pub encode_version : Version → ℕ
encode_version v = bit_or (bit_or (v.major * 2 ^ 16) (v.minor * 2 ^ 8)) v.patch

abbrev pub build_version_fields : Version → List Field
build_version_fields v =
    u32 0x32
    ∷ (u32 24 ∷ (u32 2 ∷ (u32 (encode_version v) ∷ (u32 (encode_version v) ∷ (u32 0 ∷ [])))))

-- `_build_version_command`
unfoldable pub build_version_command : Version → Outcome Bytes
unfolding encode_version pack
build_version_command v = pack (build_version_fields v)

abbrev pub dyld_info_fields : ℕ → ℕ → ℕ → ℕ → ℕ → ℕ → List Field
dyld_info_fields rebase_off rebase_size bind_off bind_size export_off export_size =
    u32 0x80000022
    ∷ (u32 48
        ∷ (u32 rebase_off
            ∷ (u32 rebase_size
                ∷ (u32 bind_off
                    ∷ (u32 bind_size
                        ∷ (u32 0
                            ∷ (u32 0
                                ∷ (u32 0
                                    ∷ (u32 0 ∷ (u32 export_off ∷ (u32 export_size ∷ [])))))))))))

-- LC_DYLD_INFO_ONLY
unfoldable pub dyld_info_command : ℕ → ℕ → ℕ → ℕ → ℕ → ℕ → Outcome Bytes
unfolding pack
dyld_info_command rebase_off rebase_size bind_off bind_size export_off export_size =
    pack (dyld_info_fields rebase_off rebase_size bind_off bind_size export_off export_size)

-- MH_MAGIC_64, CPU_TYPE_ARM64, CPU_SUBTYPE_ARM64_ALL, MH_DYLIB, and MH_DYLDLINK | MH_TWOLEVEL
abbrev pub mach_header_fields : ℕ → ℕ → List Field
mach_header_fields ncmds sizeofcmds =
    u32 0xFEEDFACF
    ∷ (i32 0x0100000C
        ∷ (i32 0
            ∷ (u32 6 ∷ (u32 ncmds ∷ (u32 sizeofcmds ∷ (u32 (bit_or 0x4 0x80) ∷ (u32 0 ∷ [])))))))

unfoldable pub mach_header : ℕ → ℕ → Outcome Bytes
unfolding pack
mach_header ncmds sizeofcmds = pack (mach_header_fields ncmds sizeofcmds)
