-- ===== src/Shimgen/Phdr.antt =====
-- `_elf_phdr_compat_source` of src/il2cppapk2ios/shimgen.py: the program headers of the ELF file as the
-- initialiser of a C array. The C text around the array is the child's.
pub mod Source
use il2cppapk2ios.Elf.{Elf64, ProgramHeader}
use il2cppapk2ios.Shimgen.{join_lines}
use il2cppapk2ios.Common.{
  ℕ, Bool, true, false, ◌≡◌, refl, sym, ap, ◌∙◌, arith, List, [], ◌∷◌, ◌++◌, map, Option, none,
  some, if◌then◌else◌, length, drop, drop-length, append_assoc, append-nil, Bool-cases,
  Option-cases, inl, inr,
}
use il2cppapk2ios.Common.Digits.{
  digit_value, read_number, decimal, hexadecimal, read_number-decimal, read_number-hexadecimal,
}
use il2cppapk2ios.Common.Paths.{starts_with-append}
use il2cppapk2ios.Common.Text.{codes, starts_with}

-- A part of an f-string: text, {n} or {n:x}.
pub data Part : Type 0 where
  text : List ℕ → Part
  dec : ℕ → Part
  hex : ℕ → Part

unfoldable pub print : List Part → List ℕ
print [] = []
print (text t ∷ parts) = t ++ print parts
print (dec n ∷ parts) = decimal n ++ print parts
print (hex n ∷ parts) = hexadecimal n ++ print parts

abbrev pub phdr_parts : ProgramHeader → List Part
phdr_parts ph =
    text (codes "    {")
    ∷ (dec ph.p_type
        ∷ (text (codes "u, ")
            ∷ (dec ph.flags
                ∷ (text (codes "u, 0x")
                    ∷ (hex ph.offset
                        ∷ (text (codes "ULL, 0x")
                            ∷ (hex ph.vaddr
                                ∷ (text (codes "ULL, 0x")
                                    ∷ (hex ph.vaddr
                                        ∷ (text (codes "ULL, 0x")
                                            ∷ (hex ph.filesz
                                                ∷ (text (codes "ULL, 0x")
                                                    ∷ (hex ph.memsz
                                                        ∷ (text (codes "ULL, 0x")
                                                            ∷ (hex ph.align
                                                            ∷ (text (codes "ULL},")
                                                            ∷ []))))))))))))))))

unfoldable pub phdr_entry : ProgramHeader → List ℕ
unfolding print
phdr_entry ph = print (phdr_parts ph)

-- "\n".join(entries)
unfoldable pub phdr_table : Elf64 → List ℕ
unfolding phdr_entry join_lines
phdr_table elf = join_lines (map phdr_entry elf.program_headers)

-- How the parts are read again: the text is expected as it is, and a number ends at the first
-- character that is no digit of its base.
abbrev pub with_number : ℕ → Option (List ℕ × List ℕ) → Option (List ℕ × List ℕ)
with_number n none = none
with_number n (some (ns, rest)) = some (n ∷ ns, rest)

unfoldable pub read_parts : List Part → List ℕ → Option (List ℕ × List ℕ)
unfolding starts_with
read_parts [] s = some ([], s)
read_parts (text t ∷ parts) s =
    let rest = read_parts parts (drop (length t) s) in if starts_with t s then rest else none
read_parts (dec _ ∷ parts) s =
    with_number (read_number 10 0 s).0 (read_parts parts (read_number 10 0 s).1)
read_parts (hex _ ∷ parts) s =
    with_number (read_number 16 0 s).0 (read_parts parts (read_number 16 0 s).1)

abbrev pub numbers : List Part → List ℕ
numbers [] = []
numbers (text t ∷ parts) = numbers parts
numbers (dec n ∷ parts) = n ∷ numbers parts
numbers (hex n ∷ parts) = n ∷ numbers parts

-- The parts have the same texts and the same bases.
abbrev pub blank : Part → Part
blank (text t) = text t
blank (dec n) = dec 0
blank (hex n) = hex 0

-- Every number is followed by a text that starts with no digit of its base.
unfoldable pub is_spaced : List Part → Bool
unfolding digit_value
is_spaced [] = true
is_spaced (text t ∷ parts) = is_spaced parts
is_spaced (dec n ∷ (text (c ∷ t) ∷ parts)) = elim (digit_value 10 c) [
  | some d ↦ false
  | none ↦ is_spaced parts
]
is_spaced (hex n ∷ (text (c ∷ t) ∷ parts)) = elim (digit_value 16 c) [
  | some d ↦ false
  | none ↦ is_spaced parts
]
is_spaced (dec n ∷ _) = false
is_spaced (hex n ∷ _) = false

-- A number is read up to a character that is no digit of its base.
module _ (base : ℕ) (digits : ℕ → List ℕ)
    (read_digits : (n : ℕ) (rest : List ℕ)
      → read_number base 0 (digits n ++ rest) ≡ read_number base n rest) where
  read_stops :
      (n c : ℕ) (s : List ℕ)
      → digit_value base c ≡ none
      → read_number base 0 (digits n ++ (c ∷ s)) ≡ (n, c ∷ s)
  unfolding read_number
  read_stops n c s stop = read_digits n (c ∷ s) ∙ (rw (stop, read_number) refl)

  -- One number of an entry, given how what follows it is read.
  number_step :
      (n c : ℕ) (s printed rest : List ℕ) (ns : List ℕ) (next : List ℕ → Option (List ℕ × List ℕ))
      → printed ++ rest ≡ c ∷ s
      → digit_value base c ≡ none
      → next (printed ++ rest) ≡ some (ns, rest)
      → with_number
          (read_number base 0 ((digits n ++ printed) ++ rest)).0
          (next (read_number base 0 ((digits n ++ printed) ++ rest)).1)
        ≡ some (n ∷ ns, rest)
  number_step n c s printed rest ns next begins stop h =
      let whole : read_number base 0 ((digits n ++ printed) ++ rest) ≡ (n, printed ++ rest) =
        ap (read_number base 0)
          (append_assoc (digits n) printed rest ∙ ap (λ t. digits n ++ t) begins)
        ∙ read_stops n c s stop
        ∙ ap (λ t. (n, t)) (sym begins) in
      rw (whole, h) refl

spaced-dec :
    (n c : ℕ) (t : List ℕ) (parts : List Part)
    → is_spaced (dec n ∷ (text (c ∷ t) ∷ parts)) ≡ true
    → (digit_value 10 c ≡ none) × (is_spaced parts ≡ true)
unfolding is_spaced
spaced-dec n c t parts h = elim (Option-cases (digit_value 10 c)) [
  | inl e ↦ (e, rw (e, is_spaced) at h)
  | inr (d, e) ↦ let h' = rw (e, is_spaced) at h in cc
]

spaced-hex :
    (n c : ℕ) (t : List ℕ) (parts : List Part)
    → is_spaced (hex n ∷ (text (c ∷ t) ∷ parts)) ≡ true
    → (digit_value 16 c ≡ none) × (is_spaced parts ≡ true)
unfolding is_spaced
spaced-hex n c t parts h = elim (Option-cases (digit_value 16 c)) [
  | inl e ↦ (e, rw (e, is_spaced) at h)
  | inr (d, e) ↦ let h' = rw (e, is_spaced) at h in cc
]

-- What is printed is read back, and what follows it is left.
pub read_parts-print :
    (parts : List Part) (rest : List ℕ)
    → is_spaced parts ≡ true
    → read_parts (map blank parts) (print parts ++ rest) ≡ some (numbers parts, rest)
unfolding read_parts print is_spaced
read_parts-print [] rest h = refl
read_parts-print (text t ∷ parts) rest h =
    let cut = append_assoc t (print parts) rest in
    rw (cut, starts_with-append t (print parts ++ rest), drop-length t (print parts ++ rest))
      (read_parts-print parts rest h)
read_parts-print (dec n ∷ (text (c ∷ t) ∷ parts)) rest h =
    let (stop, more) = spaced-dec n c t parts h in
    number_step 10 decimal read_number-decimal n c _ (print (text (c ∷ t) ∷ parts)) rest
      (numbers parts) (read_parts (map blank (text (c ∷ t) ∷ parts))) refl stop
      (read_parts-print (text (c ∷ t) ∷ parts) rest more)
read_parts-print (hex n ∷ (text (c ∷ t) ∷ parts)) rest h =
    let (stop, more) = spaced-hex n c t parts h in
    number_step 16 hexadecimal read_number-hexadecimal n c _ (print (text (c ∷ t) ∷ parts)) rest
      (numbers parts) (read_parts (map blank (text (c ∷ t) ∷ parts))) refl stop
      (read_parts-print (text (c ∷ t) ∷ parts) rest more)
read_parts-print (dec n ∷ []) rest h = cc
read_parts-print (hex n ∷ []) rest h = cc
read_parts-print (dec n ∷ (text [] ∷ parts)) rest h = cc
read_parts-print (hex n ∷ (text [] ∷ parts)) rest h = cc
read_parts-print (dec n ∷ (dec m ∷ parts)) rest h = cc
read_parts-print (dec n ∷ (hex m ∷ parts)) rest h = cc
read_parts-print (hex n ∷ (dec m ∷ parts)) rest h = cc
read_parts-print (hex n ∷ (hex m ∷ parts)) rest h = cc

-- An entry in C, with a 0 for each number: in braces two decimal numbers with the suffix u and six
-- hexadecimal ones with the prefix 0x and the suffix ULL, with commas between and behind.
abbrev pub c_entry : List Part
c_entry =
    text (codes "    {")
    ∷ (dec 0
        ∷ (text (codes "u, ")
            ∷ (dec 0
                ∷ (text (codes "u, 0x")
                    ∷ (hex 0
                        ∷ (text (codes "ULL, 0x")
                            ∷ (hex 0
                                ∷ (text (codes "ULL, 0x")
                                    ∷ (hex 0
                                        ∷ (text (codes "ULL, 0x")
                                            ∷ (hex 0
                                                ∷ (text (codes "ULL, 0x")
                                                    ∷ (hex 0
                                                        ∷ (text (codes "ULL, 0x")
                                                            ∷ (hex 0
                                                            ∷ (text (codes "ULL},")
                                                            ∷ []))))))))))))))))

-- The entry of a program header has the form of an entry in C, and its numbers are the type, the
-- flags, the offset, the address twice, the two sizes and the alignment.
pub read_parts-phdr_entry :
    (ph : ProgramHeader) (rest : List ℕ)
    → read_parts c_entry (phdr_entry ph ++ rest)
      ≡ some (
        ph.p_type
            ∷ (ph.flags
                ∷ (ph.offset
                    ∷ (ph.vaddr ∷ (ph.vaddr ∷ (ph.filesz ∷ (ph.memsz ∷ (ph.align ∷ []))))))),
        rest,
      )
unfolding phdr_entry is_spaced
read_parts-phdr_entry ph rest = read_parts-print (phdr_parts ph) rest refl
