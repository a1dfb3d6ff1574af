-- ===== src/Macho/Reader.antt =====
-- How a loader reads load commands: `ncmds` of them behind the header, each as long as it says, and
-- together as long as the header says.
use il2cppapk2ios.Phase3.Commands.{mach_header, mach_header_fields}
use il2cppapk2ios.Phase3.Translate.{join, header_and_commands}
use il2cppapk2ios.Common.{
  ℕ, zero, suc, ◌+◌, ◌-◌, ◌≤◌, ◌≡◌, refl, sym, ap, ◌∙◌, arith, ltb, ◌==◌, ◌||◌, false, List, [],
  ◌∷◌, ◌++◌, bit_or, append-nil, Option, none, some, if◌then◌else◌, length, length-append, All,
  take, Bool-cases, inl, inr, append_assoc,
}
use il2cppapk2ios.Common.Outcome.{ok, ok-injective, >>=-eq-ok}
use il2cppapk2ios.Struct.{Bytes, slice, field}
use il2cppapk2ios.Struct.Laws.{drop-append_length, take-append_length}
use il2cppapk2ios.Struct.Pack.{Field, u32, i32, pack}
use il2cppapk2ios.Struct.Pack.Sizes.{
  total_width, length-pack, field-append_left, field-append_right, field-pack_u32,
}

abbrev pub cons_command : Bytes → Option (List Bytes × ℕ) → Option (List Bytes × ℕ)
cons_command c none = none
cons_command c (some (cs, stop)) = some (c ∷ cs, stop)

-- `count` commands from an offset on, and the offset behind them. A command that is shorter than its
-- two first fields or leaves the file is refused.
unfoldable pub read_commands : ℕ → ℕ → Bytes → Option (List Bytes × ℕ)
unfolding field slice
read_commands zero at file = some ([], at)
read_commands (suc count) at file =
    let size = field 4 file (at + 4) in
    let rest = read_commands count (at + size) file in
    if ltb size 8 || ltb (length file) (at + size)
    then none
    else cons_command (slice at (at + size) file) rest

abbrev pub if_filled : ℕ → Option (List Bytes × ℕ) → Option (List Bytes)
if_filled stop none = none
if_filled stop (some (cs, reached)) = if reached == stop then some cs else none

unfoldable pub read_load_commands : Bytes → Option (List Bytes)
unfolding field read_commands
read_load_commands file =
    if field 4 file 0 == 0xFEEDFACF
    then if_filled (32 + field 4 file 20) (read_commands (field 4 file 16) 32 file)
    else none

-- A command that has the length that it says.
abbrev pub IsSized : Bytes → Type 0
IsSized c = (8 ≤ length c) × (field 4 c 4 ≡ length c)

-- One round of the reader, on a command that stands at the offset.
read_commands-one :
    (before c behind : Bytes) (count : ℕ)
    → 8 ≤ length c
    → field 4 c 4 ≡ length c
    → read_commands (suc count) (length before) (before ++ (c ++ behind))
      ≡ cons_command c (read_commands count (length before + length c) (before ++ (c ++ behind)))
unfolding read_commands slice
read_commands-one before c behind count eight size =
    let file = before ++ (c ++ behind) in
    let at = length before in
    let here : field 4 file (at + 4) ≡ length c =
      field-append_right 4 before (c ++ behind) at 4 refl
      ∙ field-append_left 4 c behind 4 (omega arith)
      ∙ size in
    let quiet : (ltb (length c) 8 || ltb (length file) (at + length c)) ≡ false =
      ground (arith, length-append before (c ++ behind), length-append c behind) in
    let taken : slice at (at + length c) file ≡ c =
      ap (take (at + length c - at)) (drop-append_length before (c ++ behind) at refl)
      ∙ take-append_length c behind (at + length c - at) (omega arith) in
    rw (here, quiet, taken) refl

same_end : (n : ℕ) (cs : List Bytes) → if_filled n (some (cs, n)) ≡ some cs
same_end n cs = ground arith

read_commands-join :
    (before rest : Bytes) (cs : List Bytes)
    → All IsSized cs
    → read_commands (length cs) (length before) (before ++ (join cs ++ rest))
      ≡ some (cs, length before + length (join cs))
unfolding read_commands join
read_commands-join before rest [] h = ap (λ n. some ([], n)) (omega arith)
read_commands-join before rest (c ∷ cs) ((eight, size), h) =
    let behind = join cs ++ rest in
    let at = length before in
    let assoc : before ++ ((c ++ join cs) ++ rest) ≡ before ++ (c ++ behind) =
      ap (λ t. before ++ t) (append_assoc c (join cs) rest) in
    let next = append_assoc before c behind in
    let later =
      ap (λ n. read_commands (length cs) n (before ++ (c ++ behind))) (sym (length-append before c))
      ∙ ap (read_commands (length cs) (length (before ++ c))) (sym next)
      ∙ read_commands-join (before ++ c) rest cs h in
    let total : length (before ++ c) + length (join cs) ≡ at + length (c ++ join cs) =
      omega (arith, length-append before c, length-append c (join cs)) in
    ap (read_commands (suc (length cs)) at) assoc
    ∙ read_commands-one before c behind (length cs) eight size
    ∙ ap (cons_command c) later
    ∙ ap (λ n. some (c ∷ cs, n)) total

-- The magic number, the count and the size that the header names.
mach_header-reads :
    (ncmds sizeofcmds : ℕ) (header behind : Bytes)
    → mach_header ncmds sizeofcmds ≡ ok header
    → (length header ≡ 32)
      × (field 4 (header ++ behind) 0 ≡ 0xFEEDFACF)
      × (field 4 (header ++ behind) 16 ≡ ncmds)
      × (field 4 (header ++ behind) 20 ≡ sizeofcmds)
unfolding mach_header
mach_header-reads ncmds sizeofcmds header behind h =
    let size = length-pack (mach_header_fields ncmds sizeofcmds) header h in
    let flags = u32 (bit_or 0x4 0x80) ∷ (u32 0 ∷ []) in
    let kind = i32 0x0100000C ∷ (i32 0 ∷ (u32 6 ∷ [])) in
    let sizes = u32 ncmds ∷ (u32 sizeofcmds ∷ flags) in
    let magic = u32 0xFEEDFACF in
    (
      size,
      field-append_left 4 header behind 0 (omega arith)
          ∙ field-pack_u32 [] 0xFEEDFACF (kind ++ sizes) header h,
      field-append_left 4 header behind 16 (omega arith)
          ∙ field-pack_u32 (magic ∷ kind) ncmds (u32 sizeofcmds ∷ flags) header h,
      field-append_left 4 header behind 20 (omega arith)
          ∙ field-pack_u32 (magic ∷ (kind ++ (u32 ncmds ∷ []))) sizeofcmds flags header h,
    )

-- Commands that are as long as they say are read back from behind the header that was written for
-- them, whatever follows.
pub read_load_commands-header_and_commands :
    (reserve : ℕ) (cs : List Bytes) (head rest : Bytes)
    → header_and_commands reserve cs ≡ ok head
    → All IsSized cs
    → read_load_commands (head ++ rest) ≡ some cs
unfolding header_and_commands read_load_commands
read_load_commands-header_and_commands reserve cs head rest h sized =
    let (header, eh, e) = >>=-eq-ok (mach_header (length cs) (length (join cs))) _ h in
    elim (Bool-cases (ltb reserve (length header + length (join cs)))) [
      | inl over ↦ absurd (cc (rw over at e))
      | inr fits ↦
          let whole : header ++ join cs ≡ head = ok-injective (rw fits at e) in
          let cut = ap (λ t. t ++ rest) (sym whole) ∙ append_assoc header (join cs) rest in
          let (size, magic, count, total) =
            mach_header-reads (length cs) (length (join cs)) header (join cs ++ rest) eh in
          let read = read_commands-join header rest cs sized in
          rw (cut, magic, count, total, ← size, read)
            (same_end (length header + length (join cs)) cs)
    ]

-- A structure that starts with a command's number and the size of it and of what follows.
pub packed-IsSized :
    (kind size : ℕ) (fs : List Field) (bytes behind : Bytes)
    → pack (u32 kind ∷ (u32 size ∷ fs)) ≡ ok bytes
    → 8 + total_width fs + length behind ≡ size
    → IsSized (bytes ++ behind)
packed-IsSized kind size fs bytes behind h total =
    let l = length-pack (u32 kind ∷ (u32 size ∷ fs)) bytes h in
    let whole = length-append bytes behind in
    (
      omega arith,
      field-append_left 4 bytes behind 4 (omega arith)
          ∙ field-pack_u32 (u32 kind ∷ []) size fs bytes h
          ∙ omega arith,
    )

pub whole-IsSized :
    (kind size : ℕ) (fs : List Field) (bytes : Bytes)
    → pack (u32 kind ∷ (u32 size ∷ fs)) ≡ ok bytes
    → 8 + total_width fs ≡ size
    → IsSized bytes
whole-IsSized kind size fs bytes h total =
    rw (append-nil bytes) at (packed-IsSized kind size fs bytes [] h (omega arith))
