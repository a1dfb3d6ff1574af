-- ===== src/Elf/Parsing.antt =====
-- What the constructor of `Elf64` and the scan of a table of src/il2cppapk2ios/elf.py return.
use il2cppapk2ios.Elf.Entries.{
  IsLoadAt, IsSectionAt, program_header_at-IsLoadAt, section_header_at-IsSectionAt,
  program_header_at-total, program_header_at-overrun,
}
use il2cppapk2ios.Elf.Tables.{read_table-get, read_table-err}
use il2cppapk2ios.Elf.{
  Elf64, Header, ProgramHeader, SectionHeader, parse, parse_header, parse_program_headers,
  raw_sections, program_header_at, section_header_at, name_sections, cstring, section_data,
  name_section, elf_magic,
}
use il2cppapk2ios.Elf.Relocations.{scan}
use il2cppapk2ios.Common.{
  ℕ, zero, suc, ◌+◌, ◌*◌, ◌^◌, ◌<◌, ◌≤◌, ◌≡◌, refl, sym, ap, ◌∙◌, arith, ltb, leb, ◌&&◌, List, [],
  ◌∷◌, length, length-map, map, get_elem?, Option, none, some, if◌then◌else◌, Bool, true, false,
  not, ◌||◌, ◌==◌, true≢false, Option-cases, inl, inr,
}
use il2cppapk2ios.Common.Outcome.{
  Outcome, ok, err, Error, raise_if, ◌>>◌, ok-injective, >>=-eq-ok, struct_error,
}
use il2cppapk2ios.Common.Text.{codes, text_eq, text_eq_iff}
use il2cppapk2ios.Struct.{Bytes, field, slice}

-- The name of a section: the C string at its offset in the section of names, if there is one.
abbrev pub name_of : Bytes → Option SectionHeader → ℕ → List ℕ
name_of bytes none off = []
name_of bytes (some names) off = cstring (slice names.offset (names.offset + names.size) bytes) off

-- The bytes of the file are those of an Elf64_Ehdr with these fields.
pub record IsHeader (bytes : Bytes) (h : Header) : Type 0 where
  pub inside : 64 ≤ length bytes
  pub magic : slice 0 4 bytes ≡ 0x7F ∷ codes "ELF"
  pub class : field 1 bytes 4 ≡ 2
  pub encoding : field 1 bytes 5 ≡ 1
  pub e_type : h.e_type ≡ field 2 bytes 16
  pub e_machine : h.e_machine ≡ field 2 bytes 18
  pub e_version : h.e_version ≡ field 4 bytes 20
  pub e_entry : h.e_entry ≡ field 8 bytes 24
  pub e_flags : h.e_flags ≡ field 4 bytes 48
  pub e_ehsize : h.e_ehsize ≡ field 2 bytes 52
  pub e_phoff : h.e_phoff ≡ field 8 bytes 32
  pub e_shoff : h.e_shoff ≡ field 8 bytes 40
  pub e_phentsize : h.e_phentsize ≡ field 2 bytes 54
  pub e_phnum : h.e_phnum ≡ field 2 bytes 56
  pub e_shentsize : h.e_shentsize ≡ field 2 bytes 58
  pub e_shnum : h.e_shnum ≡ field 2 bytes 60
  pub e_shstrndx : h.e_shstrndx ≡ field 2 bytes 62

-- What an accepted file consists of: a header, and two tables with the lengths that the header gives
-- and the entries at the offsets that it gives. The names of the sections are in one of them.
pub record IsParsed (bytes : Bytes) (source : List ℕ) (elf : Elf64) : Type 0 where
  pub same_bytes : elf.bytes ≡ bytes
  pub same_source : elf.source ≡ source
  pub header : IsHeader bytes elf.header
  pub load_count : length elf.program_headers ≡ elf.header.e_phnum
  pub load :
      (i : ℕ)
      → i < elf.header.e_phnum
      → (ph : ProgramHeader) × (get_elem? elf.program_headers i ≡ some ph)
        × IsLoadAt bytes (elf.header.e_phoff + i * elf.header.e_phentsize) ph
  pub section_count : length elf.sections ≡ elf.header.e_shnum
  pub section :
      (i : ℕ)
      → i < elf.header.e_shnum
      → (s : SectionHeader) × (get_elem? elf.sections i ≡ some s)
        × IsSectionAt bytes (elf.header.e_shoff + i * elf.header.e_shentsize) s
        × (s.name ≡ name_of bytes (get_elem? elf.sections elf.header.e_shstrndx) s.name_off)

passed {ℓ} :
    {A : Type ℓ} {a : A} (bad : Bool) (e : Error) (next : Outcome A)
    → (raise_if bad e >> next) ≡ ok a
    → (bad ≡ false) × (next ≡ ok a)
passed true e next h = cc
passed false e next h = (refl, h)

same_number : (a b : ℕ) → not (a == b) ≡ false → a ≡ b
same_number a b h = ground arith

at_least : (a b : ℕ) → ltb a b ≡ false → b ≤ a
at_least a b h = ground arith

neither : (a b : Bool) → (a || not b) ≡ false → (a ≡ false) × (b ≡ true)
neither true b h = absurd (true≢false h)
neither false true h = (refl, refl)
neither false false h = absurd (true≢false h)

parse_header-IsHeader : (bytes : Bytes) (h : Header) → parse_header bytes ≡ ok h → IsHeader bytes h
unfolding parse_header
parse_header-IsHeader bytes h e =
    let (plain, e1) =
      passed (ltb (length bytes) 64 || not (text_eq (slice 0 4 bytes) elf_magic)) _ _ e in
    let (wide, e2) = passed (not (field 1 bytes 4 == 2)) _ _ e1 in
    let (little, e3) = passed (not (field 1 bytes 5 == 1)) _ _ e2 in
    let (long, magic) = neither (ltb (length bytes) 64) _ plain in
    rw (← ok-injective e3) (record {
      inside = at_least (length bytes) 64 long;
      magic = (text_eq_iff (slice 0 4 bytes) elf_magic).0 magic;
      class = same_number (field 1 bytes 4) 2 wide;
      encoding = same_number (field 1 bytes 5) 1 little;
      e_type = refl;
      e_machine = refl;
      e_version = refl;
      e_entry = refl;
      e_flags = refl;
      e_ehsize = refl;
      e_phoff = refl;
      e_shoff = refl;
      e_phentsize = refl;
      e_phnum = refl;
      e_shentsize = refl;
      e_shnum = refl;
      e_shstrndx = refl;
    })

get_elem?-map :
    {A B : Type 0} (f : A → B) (xs : List A) (i : ℕ) (a : A)
    → get_elem? xs i ≡ some a
    → get_elem? (map f xs) i ≡ some (f a)
get_elem?-map f [] i a h = cc
get_elem?-map f (x ∷ xs) zero a h = cc
get_elem?-map f (x ∷ xs) (suc i) a h = get_elem?-map f xs i a h

-- The section that is read, with the name that it gets.
abbrev named : Bytes → Option SectionHeader → SectionHeader → SectionHeader
named bytes names raw = record raw { name = name_of bytes names raw.name_off }

renamed :
    (bytes : Bytes) (off : ℕ) (s : SectionHeader) (name : List ℕ)
    → IsSectionAt bytes off s
    → IsSectionAt bytes off (record s { name = name })
renamed bytes off s name at = record {
  inside = at.inside;
  name_off = at.name_off;
  sh_type = at.sh_type;
  flags = at.flags;
  addr = at.addr;
  offset = at.offset;
  size = at.size;
  link = at.link;
  info = at.info;
  addralign = at.addralign;
  entsize = at.entsize;
}

name_sections-get :
    (bytes : Bytes) (n : ℕ) (raws : List SectionHeader)
    → (length (name_sections bytes n raws) ≡ length raws)
      × ((i : ℕ) (raw : SectionHeader)
          → get_elem? raws i ≡ some raw
          → raw.name ≡ []
          → get_elem? (name_sections bytes n raws) i
            ≡ some (named bytes (get_elem? (name_sections bytes n raws) n) raw))
unfolding name_sections section_data
name_sections-get bytes n raws = elim (Option-cases (get_elem? raws n)) [
  | inl e ↦
      rw (e, name_sections)
        (
          refl,
          λ i raw h blank.
              h
              ∙ ap (λ (n : List ℕ). some (record raw { name = n }))
                  (blank ∙ ap (λ o. name_of bytes o raw.name_off) (sym e)),
        )
  | inr (strings, e) ↦
      rw (e, name_sections)
        (
          length-map raws _,
          λ i raw h blank.
              let f = name_section (section_data bytes strings) in
              get_elem?-map f raws i raw h
              ∙ ap (λ (n : List ℕ). some (record raw { name = n }))
                  (ap (λ o. name_of bytes o raw.name_off) (sym (get_elem?-map f raws n strings e))),
        )
]

-- A file that the constructor accepts starts with the bytes of a 64-bit little-endian ELF header with
-- the fields that are kept. Both tables have the lengths that the header gives, and their entries have
-- the fields of the bytes at the offsets that it gives, inside the file. The name of a section is the
-- C string at its offset in the section of names, and empty if there is no such section.
pub parse-IsParsed :
    (bytes : Bytes) (source : List ℕ) (elf : Elf64)
    → parse bytes source ≡ ok elf
    → IsParsed bytes source elf
unfolding parse parse_program_headers raw_sections
parse-IsParsed bytes source elf h =
    let (header, eh, h') = >>=-eq-ok (parse_header bytes) _ h in
    let (loads, el, h'') = >>=-eq-ok (parse_program_headers bytes header) _ h' in
    let (raws, er, e) = >>=-eq-ok (raw_sections bytes header) _ h'' in
    let (load_count, load) =
      read_table-get (program_header_at bytes) header.e_phentsize header.e_phnum header.e_phoff
        loads el in
    let (raw_count, raw) =
      read_table-get (section_header_at bytes) header.e_shentsize header.e_shnum header.e_shoff raws
        er in
    let (named_count, named_at) = name_sections-get bytes header.e_shstrndx raws in
    rw (← ok-injective e) (record {
      same_bytes = refl;
      same_source = refl;
      header = parse_header-IsHeader bytes header eh;
      load_count = load_count;
      load = λ i l. let (ph, g, at) = load i l in (ph, g, program_header_at-IsLoadAt bytes _ ph at);
      section_count = named_count ∙ raw_count;
      section = λ i l.
          let (r, g, at) = raw i l in
          let (placed, blank) = section_header_at-IsSectionAt bytes _ r at in
          (
            named bytes (get_elem? (name_sections bytes header.e_shstrndx raws) header.e_shstrndx)
                r,
            named_at i r g blank,
            renamed bytes _ r _ placed,
            refl,
          );
    })

-- The scan of a table returns exactly the entries that the count allows and the file holds whole.
pub get_elem?-scan :
    {A : Type 0} (read : Bytes → ℕ → A) (bytes : Bytes) (width step count off i : ℕ)
    → get_elem? (scan read bytes width step count off) i ≡ (
        if ltb i count && leb (off + i * step + width) (length bytes)
        then some (read bytes (off + i * step))
        else none)
unfolding scan
get_elem?-scan read bytes width step zero off i = ground arith
get_elem?-scan read bytes width step (suc count) off zero =
    let e : off + 0 * step ≡ off = omega arith in rw e (ground arith)
get_elem?-scan read bytes width step (suc count) off (suc i) =
    let e : off + suc i * step ≡ off + step + i * step = grind arith in
    let rest = get_elem?-scan read bytes width step count (off + step) i in rw e (ground arith)

-- A header that places an entry of the program header table past the end of the file, at an offset
-- below 2 ^ 63, makes the constructor raise the error of `struct`.
pub parse_overrun :
    (bytes : Bytes) (source : List ℕ) (header : Header) (i : ℕ)
    → parse_header bytes ≡ ok header
    → i < header.e_phnum
    → header.e_phoff + i * header.e_phentsize < 2 ^ 63
    → length bytes < header.e_phoff + i * header.e_phentsize + 56
    → parse bytes source ≡ err struct_error
unfolding parse parse_program_headers
parse_overrun bytes source header i h l small past =
    let raises : program_header_at bytes (header.e_phoff + i * header.e_phentsize)
        ≡ err struct_error =
      program_header_at-overrun bytes (header.e_phoff + i * header.e_phentsize) small past in
    let table =
      read_table-err (program_header_at bytes) header.e_phentsize header.e_phnum header.e_phoff i
        (λ off o. program_header_at-total bytes off (omega arith)) l raises in
    rw (h, table) refl
