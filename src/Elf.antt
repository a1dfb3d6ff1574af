-- ===== src/Elf.antt =====
-- `Elf64` of src/il2cppapk2ios/elf.py: the header and the two tables that the constructor reads.
-- The children hold the methods. `from_path` is in Cli.antt, with the file system that it reads.
pub mod Symbols
pub mod Relocations
pub mod Report
pub mod Tables
pub mod Entries
pub mod Parsing
pub mod Tests
use il2cppapk2ios.Common.{
  ℕ, zero, suc, ◌+◌, ◌-◌, ◌*◌, ◌/◌, ◌^◌, ltb, leb, ◌==◌, Bool, List, [], ◌∷◌, length, drop,
  get_elem?, map, Option, none, some, if◌then◌else◌, not, ◌||◌,
}
use il2cppapk2ios.Common.Outcome.{
  Outcome, ok, err, ◌>>=◌, ◌>>◌, raise_if, overflow_error, not_an_elf_file, only_elf64,
  only_little_endian, struct_error,
}
use il2cppapk2ios.Common.Text.{text_eq, decode}
use il2cppapk2ios.Struct.{Bytes, slice, field}

pub record ProgramHeader : Type 0 where
  pub p_type : ℕ
  pub flags : ℕ
  pub offset : ℕ
  pub vaddr : ℕ
  pub filesz : ℕ
  pub memsz : ℕ
  pub align : ℕ

pub record SectionHeader : Type 0 where
  pub name_off : ℕ
  pub sh_type : ℕ
  pub flags : ℕ
  pub addr : ℕ
  pub offset : ℕ
  pub size : ℕ
  pub link : ℕ
  pub info : ℕ
  pub addralign : ℕ
  pub entsize : ℕ
  pub name : List ℕ

-- The fields that `_parse_header` sets.
pub record Header : Type 0 where
  pub e_type : ℕ
  pub e_machine : ℕ
  pub e_version : ℕ
  pub e_entry : ℕ
  pub e_phoff : ℕ
  pub e_shoff : ℕ
  pub e_flags : ℕ
  pub e_ehsize : ℕ
  pub e_phentsize : ℕ
  pub e_phnum : ℕ
  pub e_shentsize : ℕ
  pub e_shnum : ℕ
  pub e_shstrndx : ℕ

pub record Elf64 : Type 0 where
  pub bytes : Bytes
  pub source : List ℕ
  pub header : Header
  pub program_headers : List ProgramHeader
  pub sections : List SectionHeader

abbrev pub em_aarch64 : ℕ
em_aarch64 = 183

abbrev pub et_dyn : ℕ
et_dyn = 3

abbrev pub sht_dynsym : ℕ
sht_dynsym = 11

abbrev pub sht_rela : ℕ
sht_rela = 4

abbrev pub shn_undef : ℕ
shn_undef = 0

abbrev pub elf_magic : Bytes
elf_magic = 0x7F ∷ (0x45 ∷ (0x4C ∷ (0x46 ∷ [])))

-- The fields of "<16sHHIQQQIHHHHHH" at offset 0.
abbrev header_fields : Bytes → Header
header_fields bytes = record {
  e_type = field 2 bytes 16;
  e_machine = field 2 bytes 18;
  e_version = field 4 bytes 20;
  e_entry = field 8 bytes 24;
  e_phoff = field 8 bytes 32;
  e_shoff = field 8 bytes 40;
  e_flags = field 4 bytes 48;
  e_ehsize = field 2 bytes 52;
  e_phentsize = field 2 bytes 54;
  e_phnum = field 2 bytes 56;
  e_shentsize = field 2 bytes 58;
  e_shnum = field 2 bytes 60;
  e_shstrndx = field 2 bytes 62;
}

unfoldable pub parse_header : Bytes → Outcome Header
unfolding field slice text_eq
parse_header bytes = do
  raise_if (ltb (length bytes) 64 || not (text_eq (slice 0 4 bytes) elf_magic)) not_an_elf_file
  raise_if (not (field 1 bytes 4 == 2)) only_elf64
  raise_if (not (field 1 bytes 5 == 1)) only_little_endian
  ok (header_fields bytes)

-- `struct.unpack_from` of `width` bytes: an offset of 2 ^ 63 or more does not fit into its argument.
abbrev pub raise_outside : Bytes → ℕ → ℕ → Outcome (Unit {0})
raise_outside bytes off width =
    if leb (2 ^ 63) off
    then err overflow_error
    else raise_if (ltb (length bytes) (off + width)) struct_error

-- One entry in the format "<IIQQQQQQ"; the field p_paddr is not kept.
unfoldable pub program_header_at : Bytes → ℕ → Outcome ProgramHeader
unfolding field
program_header_at bytes off = do
  raise_outside bytes off 56
  ok (record {
    p_type = field 4 bytes off;
    flags = field 4 bytes (off + 4);
    offset = field 8 bytes (off + 8);
    vaddr = field 8 bytes (off + 16);
    filesz = field 8 bytes (off + 32);
    memsz = field 8 bytes (off + 40);
    align = field 8 bytes (off + 48);
  })

-- `for i in range(count)`: `start` is the offset of the entry that comes next.
module _ {A : Type 0} (entry_at : ℕ → Outcome A) (entsize : ℕ) where
  unfoldable pub read_table : ℕ → ℕ → Outcome (List A)
  read_table zero start = ok []
  read_table (suc count) start = do
    entry ← entry_at start
    rest ← read_table count (start + entsize)
    ok (entry ∷ rest)

unfoldable pub parse_program_headers : Bytes → Header → Outcome (List ProgramHeader)
unfolding read_table program_header_at
parse_program_headers bytes h =
    read_table (program_header_at bytes) h.e_phentsize h.e_phnum h.e_phoff

-- One entry in the format "<IIQQQQIIQQ"; its name is still empty.
unfoldable pub section_header_at : Bytes → ℕ → Outcome SectionHeader
unfolding field
section_header_at bytes off = do
  raise_outside bytes off 64
  ok (record {
    name_off = field 4 bytes off;
    sh_type = field 4 bytes (off + 4);
    flags = field 8 bytes (off + 8);
    addr = field 8 bytes (off + 16);
    offset = field 8 bytes (off + 24);
    size = field 8 bytes (off + 32);
    link = field 4 bytes (off + 40);
    info = field 4 bytes (off + 44);
    addralign = field 8 bytes (off + 48);
    entsize = field 8 bytes (off + 56);
    name = [];
  })

unfoldable pub raw_sections : Bytes → Header → Outcome (List SectionHeader)
unfolding read_table section_header_at
raw_sections bytes h = read_table (section_header_at bytes) h.e_shentsize h.e_shnum h.e_shoff

-- The bytes before the first NUL, or all of them.
unfoldable pub until_nul : Bytes → Bytes
until_nul [] = []
until_nul (b ∷ bs) = if b == 0 then [] else b ∷ until_nul bs

-- Past the end of the buffer the string is empty.
unfoldable pub cstring : Bytes → ℕ → List ℕ
unfolding until_nul decode
cstring buf off = decode (until_nul (drop off buf))

unfoldable pub section_data : Bytes → SectionHeader → Bytes
unfolding slice
section_data bytes sec = slice sec.offset (sec.offset + sec.size) bytes

abbrev pub name_section : Bytes → SectionHeader → SectionHeader
name_section names s = record s { name = cstring names s.name_off }

-- An index of the name table that is out of range leaves all names empty.
unfoldable pub name_sections : Bytes → ℕ → List SectionHeader → List SectionHeader
unfolding section_data cstring
name_sections bytes shstrndx raw = elim (get_elem? raw shstrndx) [
  | none ↦ raw
  | some shstr ↦ map (name_section (section_data bytes shstr)) raw
]

-- `Elf64(data, source)`
unfoldable pub parse : Bytes → List ℕ → Outcome Elf64
unfolding parse_header parse_program_headers raw_sections name_sections
parse bytes source = do
  header ← parse_header bytes
  program_headers ← parse_program_headers bytes header
  raw ← raw_sections bytes header
  ok (record {
    bytes = bytes;
    source = source;
    header = header;
    program_headers = program_headers;
    sections = name_sections bytes header.e_shstrndx raw;
  })
