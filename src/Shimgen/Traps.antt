-- ===== src/Shimgen/Traps.antt =====
-- `_trap_assembly` of src/il2cppapk2ios/shimgen.py, and how an assembler reads its strings.
use mathlib.Core.Option
use il2cppapk2ios.Shimgen.{shim_label, join_lines}
use il2cppapk2ios.Common.{
  ℕ, ◌+◌, ◌≡◌, refl, ap, ◌∙◌, arith, ◌==◌, Bool-cases, inl, inr, List, [], ◌∷◌, ◌++◌, Option, none,
  some, false, if◌then◌else◌,
}
use il2cppapk2ios.Common.Sort.{sorted}
use il2cppapk2ios.Common.Text.{codes, decimal, text_le}

-- name.replace("\\", "\\\\").replace('"', '\\"')
unfoldable pub escaped : List ℕ → List ℕ
escaped [] = []
escaped (c ∷ cs) =
    let rest = escaped cs in
    if c == 0x5C then 0x5C ∷ (0x5C ∷ rest) else if c == 0x22 then 0x5C ∷ (0x22 ∷ rest) else c ∷ rest

abbrev pub trap_label : ℕ → List ℕ
trap_label index = codes "L_a2i_name_" ++ decimal index

-- The lines of the code for the names from the number `index` on.
unfoldable pub trap_lines : ℕ → List (List ℕ) → List (List ℕ)
unfolding decimal
trap_lines index [] = []
trap_lines index (name ∷ names) =
    (codes ".globl " ++ shim_label name)
    ∷ ((shim_label name ++ codes ":")
        ∷ ((codes "    adrp x0, " ++ (trap_label index ++ codes "@PAGE"))
            ∷ ((codes "    add x0, x0, " ++ (trap_label index ++ codes "@PAGEOFF"))
                ∷ (codes "    b _a2i_unimplemented" ∷ ([] ∷ trap_lines (index + 1) names)))))

-- The lines of their strings.
unfoldable pub string_lines : ℕ → List (List ℕ) → List (List ℕ)
unfolding decimal escaped
string_lines index [] = []
string_lines index (name ∷ names) =
    (trap_label index ++ codes ":")
    ∷ ((codes "    .asciz " ++ (0x22 ∷ (escaped name ++ (0x22 ∷ []))))
        ∷ ([] ∷ string_lines (index + 1) names))

-- `_trap_assembly`
unfoldable pub trap_assembly : List (List ℕ) → List ℕ
unfolding trap_lines string_lines join_lines sorted text_le
trap_assembly symbols =
    let names = sorted text_le symbols in
    join_lines (
      (codes ".text"
        ∷ (codes ".p2align 2"
            ∷ ([]
                ∷ (codes "// Unsupported imports fail fast and print their symbol name."
                    ∷ ([] ∷ trap_lines 0 names)))))
      ++ (codes ".section __TEXT,__cstring,cstring_literals" ∷ ([] ∷ string_lines 0 names)))

abbrev put_first : ℕ → List ℕ × List ℕ → List ℕ × List ℕ
put_first c (s, rest) = (c ∷ s, rest)

-- The string up to the quote that ends it; a backslash makes the next character stand for itself.
unfoldable pub read_quoted : List ℕ → Option (List ℕ × List ℕ)
read_quoted [] = none
read_quoted (c ∷ []) = if c == 0x22 then some ([], []) else none
read_quoted (c ∷ (d ∷ ds)) =
    let plain = read_quoted (d ∷ ds) in
    let after = read_quoted ds in
    if c == 0x22
    then some ([], d ∷ ds)
    else if c == 0x5C
    then Option.map (put_first d) after
    else Option.map (put_first c) plain

plain_step :
    (c : ℕ) (s rest : List ℕ)
    → (c == 0x22) ≡ false
    → (c == 0x5C) ≡ false
    → read_quoted (c ∷ (s ++ (0x22 ∷ rest)))
      ≡ Option.map (put_first c) (read_quoted (s ++ (0x22 ∷ rest)))
unfolding read_quoted
plain_step c [] rest h k = rw (h, k) refl
plain_step c (d ∷ s) rest h k = rw (h, k) refl

escape_step :
    (d : ℕ) (s : List ℕ) → read_quoted (0x5C ∷ (d ∷ s)) ≡ Option.map (put_first d) (read_quoted s)
unfolding read_quoted
escape_step d s = refl

-- An assembler that knows the escapes of backslash and quote reads back the name.
pub read_quoted-escaped :
    (name rest : List ℕ) → read_quoted (escaped name ++ (0x22 ∷ rest)) ≡ some (name, rest)
unfolding escaped
read_quoted-escaped [] [] = unfold read_quoted in refl
read_quoted-escaped [] (r ∷ rest) = unfold read_quoted in refl
read_quoted-escaped (c ∷ cs) rest =
    let later = read_quoted-escaped cs rest in
    elim (Bool-cases (c == 0x5C)) [
      | inl e ↦
          let same : c ≡ 0x5C = ground arith in
          rw same (
            escape_step 0x5C (escaped cs ++ (0x22 ∷ rest)) ∙ ap (Option.map (put_first 0x5C)) later)
      | inr e ↦ elim (Bool-cases (c == 0x22)) [
        | inl f ↦
            let same : c ≡ 0x22 = ground arith in
            rw same (
              escape_step 0x22 (escaped cs ++ (0x22 ∷ rest))
              ∙ ap (Option.map (put_first 0x22)) later)
        | inr f ↦ rw (e, f, plain_step c (escaped cs) rest f e, later) refl
      ]
    ]
