-- ===== src/Macho/DyldInfo.antt =====
-- What a loader takes from the load commands of a file: the first command of a kind, the offsets and
-- sizes in LC_DYLD_INFO_ONLY, and the name in a dylib command.
use il2cppapk2ios.Macho.Reader.{read_load_commands}
use il2cppapk2ios.Common.{
  ℕ, ◌+◌, ◌≡◌, refl, ◌∙◌, arith, ◌==◌, false, List, [], ◌∷◌, ◌++◌, Option, none, some,
  if◌then◌else◌, length,
}
use il2cppapk2ios.Common.Outcome.{Outcome, ok}
use il2cppapk2ios.Common.Text.{encode}
use il2cppapk2ios.Struct.{Bytes, slice, field}
use il2cppapk2ios.Struct.Pack.{Field, u32, pack}
use il2cppapk2ios.Struct.Pack.Sizes.{length-pack, field-append_left, field-pack_u32}

unfoldable pub find_command : ℕ → List Bytes → Option Bytes
unfolding field
find_command kind [] = none
find_command kind (c ∷ cs) =
    let later = find_command kind cs in if field 4 c 0 == kind then some c else later

pub record DyldInfo : Type 0 where
  pub rebase_off : ℕ
  pub rebase_size : ℕ
  pub bind_off : ℕ
  pub bind_size : ℕ
  pub export_off : ℕ
  pub export_size : ℕ

abbrev pub dyld_info_of : Bytes → DyldInfo
dyld_info_of c = record {
  rebase_off = field 4 c 8;
  rebase_size = field 4 c 12;
  bind_off = field 4 c 16;
  bind_size = field 4 c 20;
  export_off = field 4 c 40;
  export_size = field 4 c 44;
}

-- The file has a load command of a kind, and no earlier one of it.
abbrev pub HasCommand : ℕ → Bytes → Bytes → Type 0
HasCommand kind file c =
    (cs : List Bytes) × (read_load_commands file ≡ some cs) × (find_command kind cs ≡ some c)

-- A stream has been made, and is in the file where an offset and a size say.
abbrev pub HoldsAt : Outcome Bytes → ℕ → ℕ → Bytes → Type 0
HoldsAt made off size file =
    (stream : Bytes) × (made ≡ ok stream)
    × (size ≡ length stream)
    × (slice off (off + size) file ≡ stream)

-- The LC_DYLD_INFO_ONLY of the file says where the three streams of dyld are.
pub record NamesStreams (rebases binds exports : Outcome Bytes) (file : Bytes) : Type 0 where
  pub info : Bytes
  pub read : HasCommand 0x80000022 file info
  pub rebase_there :
      HoldsAt rebases (dyld_info_of info).rebase_off (dyld_info_of info).rebase_size file
  pub bind_there : HoldsAt binds (dyld_info_of info).bind_off (dyld_info_of info).bind_size file
  pub exports_there :
      HoldsAt exports (dyld_info_of info).export_off (dyld_info_of info).export_size file

-- The dylib command of a kind has the name behind its fixed part, in UTF-8 with a NUL at its end.
abbrev pub NamesDylib : ℕ → Bytes → List ℕ → Type 0
NamesDylib kind file name =
    (c : Bytes) × HasCommand kind file c
    × (encoded : Bytes) × (encode name ≡ ok encoded)
    × (field 4 c 8 ≡ 24)
    × (slice 24 (24 + length (encoded ++ (0 ∷ []))) c ≡ encoded ++ (0 ∷ []))

pub find_command-skip :
    (k kind : ℕ) (c : Bytes) (cs : List Bytes)
    → field 4 c 0 ≡ kind
    → (kind == k) ≡ false
    → find_command k (c ∷ cs) ≡ find_command k cs
unfolding find_command
find_command-skip k kind c cs h other = rw (h, other) refl

pub find_command-here :
    (kind : ℕ) (c : Bytes) (cs : List Bytes)
    → field 4 c 0 ≡ kind
    → find_command kind (c ∷ cs) ≡ some c
unfolding find_command
find_command-here kind c cs h = ground (arith, h)

-- The number that a packed command begins with.
pub packed_kind :
    (kind : ℕ) (fs : List Field) (bytes behind : Bytes)
    → pack (u32 kind ∷ fs) ≡ ok bytes
    → field 4 (bytes ++ behind) 0 ≡ kind
packed_kind kind fs bytes behind h =
    let size = length-pack (u32 kind ∷ fs) bytes h in
    field-append_left 4 bytes behind 0 (omega arith) ∙ field-pack_u32 [] kind fs bytes h
