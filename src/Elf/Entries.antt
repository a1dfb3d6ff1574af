-- ===== src/Elf/Entries.antt =====
-- The bytes of an Elf64_Phdr and of an Elf64_Shdr, and what the reading of one returns.
use il2cppapk2ios.Elf.{
  ProgramHeader, SectionHeader, raise_outside, program_header_at, section_header_at,
}
use il2cppapk2ios.Common.{
  ℕ, ◌+◌, ◌^◌, ◌<◌, ◌≤◌, ◌≡◌, refl, arith, ltb, leb, [], length, true, false, Bool-cases, ◌⊎◌, inl,
  inr,
}
use il2cppapk2ios.Common.Outcome.{Outcome, ok, err, ◌>>◌, ok-injective, struct_error}
use il2cppapk2ios.Struct.{Bytes, field}

inside_eq-ok {ℓ} :
    {A : Type ℓ} (bytes : Bytes) (off width : ℕ) (next : Outcome A) {a : A}
    → (raise_outside bytes off width >> next) ≡ ok a
    → (off + width ≤ length bytes) × (next ≡ ok a)
inside_eq-ok bytes off width next h = elim (Bool-cases (leb (2 ^ 63) off)) [
  | inl e ↦ absurd (cc (rw e at h))
  | inr e ↦ elim (Bool-cases (ltb (length bytes) (off + width))) [
    | inl k ↦ absurd (cc (rw (e, k) at h))
    | inr k ↦ (ground (arith, k), rw (e, k) at h)
  ]
]

-- The bytes at an offset are those of an Elf64_Phdr with these fields, inside the file.
pub record IsLoadAt (bytes : Bytes) (off : ℕ) (ph : ProgramHeader) : Type 0 where
  pub inside : off + 56 ≤ length bytes
  pub p_type : ph.p_type ≡ field 4 bytes off
  pub flags : ph.flags ≡ field 4 bytes (off + 4)
  pub offset : ph.offset ≡ field 8 bytes (off + 8)
  pub vaddr : ph.vaddr ≡ field 8 bytes (off + 16)
  pub filesz : ph.filesz ≡ field 8 bytes (off + 32)
  pub memsz : ph.memsz ≡ field 8 bytes (off + 40)
  pub align : ph.align ≡ field 8 bytes (off + 48)

-- The bytes at an offset are those of an Elf64_Shdr with these fields, inside the file.
pub record IsSectionAt (bytes : Bytes) (off : ℕ) (s : SectionHeader) : Type 0 where
  pub inside : off + 64 ≤ length bytes
  pub name_off : s.name_off ≡ field 4 bytes off
  pub sh_type : s.sh_type ≡ field 4 bytes (off + 4)
  pub flags : s.flags ≡ field 8 bytes (off + 8)
  pub addr : s.addr ≡ field 8 bytes (off + 16)
  pub offset : s.offset ≡ field 8 bytes (off + 24)
  pub size : s.size ≡ field 8 bytes (off + 32)
  pub link : s.link ≡ field 4 bytes (off + 40)
  pub info : s.info ≡ field 4 bytes (off + 44)
  pub addralign : s.addralign ≡ field 8 bytes (off + 48)
  pub entsize : s.entsize ≡ field 8 bytes (off + 56)

pub program_header_at-IsLoadAt :
    (bytes : Bytes) (off : ℕ) (ph : ProgramHeader)
    → program_header_at bytes off ≡ ok ph
    → IsLoadAt bytes off ph
unfolding program_header_at
program_header_at-IsLoadAt bytes off ph h =
    let (inside, e) = inside_eq-ok bytes off 56 _ h in
    rw (← ok-injective e) (record {
      inside = inside;
      p_type = refl;
      flags = refl;
      offset = refl;
      vaddr = refl;
      filesz = refl;
      memsz = refl;
      align = refl;
    })

pub section_header_at-IsSectionAt :
    (bytes : Bytes) (off : ℕ) (s : SectionHeader)
    → section_header_at bytes off ≡ ok s
    → IsSectionAt bytes off s × (s.name ≡ [])
unfolding section_header_at
section_header_at-IsSectionAt bytes off s h =
    let (inside, e) = inside_eq-ok bytes off 64 _ h in
    rw (← ok-injective e) (
      record {
        inside = inside;
        name_off = refl;
        sh_type = refl;
        flags = refl;
        addr = refl;
        offset = refl;
        size = refl;
        link = refl;
        info = refl;
        addralign = refl;
        entsize = refl;
      },
      refl,
    )

pub program_header_at-total :
    (bytes : Bytes) (off : ℕ)
    → off < 2 ^ 63
    → ((a : ProgramHeader) × (program_header_at bytes off ≡ ok a))
      ⊎ (program_header_at bytes off ≡ err struct_error)
unfolding program_header_at
program_header_at-total bytes off small =
    let e : leb (2 ^ 63) off ≡ false = ground arith in
    elim (Bool-cases (ltb (length bytes) (off + 56))) [
      | inl k ↦ rw (e, k) (inr refl)
      | inr k ↦ rw (e, k) (inl (_, refl))
    ]

pub program_header_at-overrun :
    (bytes : Bytes) (off : ℕ)
    → off < 2 ^ 63
    → length bytes < off + 56
    → program_header_at bytes off ≡ err struct_error
unfolding program_header_at
program_header_at-overrun bytes off small past =
    let e : leb (2 ^ 63) off ≡ false = ground arith in
    let k : ltb (length bytes) (off + 56) ≡ true = ground arith in rw (e, k) refl
