-- ===== src/Phase4/Sections.antt =====
-- The section metadata of src/il2cppapk2ios/phase4.py: `_section_align`, `_section_command`,
-- `_segment_with_sections` and `_special_sections`, which its `translate` does not call.
use native.Mathlib.Nat.{pow-suc, one-le-pow, mod_self}
use il2cppapk2ios.Common.Bits.{bit_and_mask}
use il2cppapk2ios.Elf.{SectionHeader}
use il2cppapk2ios.Phase3.{Config, slide, ImageSegment, location, is_backed}
use il2cppapk2ios.Phase3.Translate.{join}
use il2cppapk2ios.Common.{
  ℕ, zero, suc, ◌+◌, ◌-◌, ◌*◌, ◌/◌, ◌^◌, ◌<◌, ◌≡◌, ◌∙◌, arith, ltb, leb, ◌==◌, not, ◌||◌, List, [],
  ◌∷◌, ◌++◌, length, Option, none, some, bit_and, bit_or, if◌then◌else◌,
}
use il2cppapk2ios.Common.Outcome.{Outcome, ok, err, ◌>>=◌}
use il2cppapk2ios.Common.Text.{codes, text_eq}
use il2cppapk2ios.Struct.{Bytes}
use il2cppapk2ios.Struct.Pack.{u32, i32, u64, s16, pack}

-- int(math.log2(value)); a value above 1 has fewer bits than its size, which bounds the steps.
unfoldable log2_steps : ℕ → ℕ → ℕ
log2_steps zero value = 0
log2_steps (suc steps) value =
    let rest = log2_steps steps (value / 2) in if ltb value 2 then 0 else 1 + rest

-- `_section_align`
unfoldable pub section_align : ℕ → ℕ
unfolding log2_steps
section_align addralign =
    if leb addralign 1
    then 0
    else if not (bit_and addralign (addralign - 1) == 0)
    then 0
    else log2_steps addralign addralign

-- `_section_command`
unfoldable pub section_command : List ℕ → List ℕ → ℕ → ℕ → ℕ → ℕ → ℕ → Outcome Bytes
unfolding pack
section_command sectname segname addr size offset align flags = pack (
    s16 sectname
    ∷ (s16 segname
        ∷ (u64 addr
            ∷ (u64 size
                ∷ (u32 offset
                    ∷ (u32 align
                        ∷ (u32 0 ∷ (u32 0 ∷ (u32 flags ∷ (u32 0 ∷ (u32 0 ∷ (u32 0 ∷ []))))))))))))

-- `_segment_with_sections`
unfoldable pub segment_with_sections : ImageSegment → List Bytes → Outcome Bytes
unfolding pack section_command join
segment_with_sections seg sections = do
  sentinel ← section_command (codes "__segstart") seg.name seg.vmaddr 0 seg.fileoff 0 0
  let all_sections = sentinel ∷ sections
  header ← pack (
      u32 0x19
      ∷ (u32 (72 + 80 * length all_sections)
          ∷ (s16 seg.name
              ∷ (u64 seg.vmaddr
                  ∷ (u64 seg.vmsize
                      ∷ (u64 seg.fileoff
                          ∷ (u64 seg.filesize
                              ∷ (i32 seg.protection
                                  ∷ (i32 seg.protection
                                      ∷ (u32 (length all_sections) ∷ (u32 0 ∷ [])))))))))))
  ok (header ++ join all_sections)

-- SECTION_MAP.get(name)
unfoldable pub section_map : List ℕ → Option (List ℕ × ℕ)
unfolding text_eq
section_map name =
    if text_eq name (codes ".text")
    then some (codes "__text", bit_or 0x80000000 0x400)
    else if text_eq name (codes ".rodata")
    then some (codes "__const", 0)
    else if text_eq name (codes ".eh_frame")
    then some (codes "__eh_frame", 0)
    else if text_eq name (codes ".gcc_except_table")
    then some (codes "__gcc_except_tab", 0)
    else if text_eq name (codes ".init_array")
    then some (codes "__mod_init_func", 0x9)
    else if text_eq name (codes ".fini_array")
    then some (codes "__mod_term_func", 0xA)
    else none

-- One round of the loop of `_special_sections`: the command for a section, if it gets one. The
-- error of `_location` is caught.
unfoldable pub special_section :
    Config → List ImageSegment → ImageSegment → SectionHeader → Outcome (List Bytes)
unfolding section_map location section_command section_align
special_section c segments seg sec = elim (section_map sec.name) [
  | none ↦ ok []
  | some (sectname, flags) ↦
      if (sec.size == 0) || not (is_backed seg sec.addr)
      then ok []
      else elim (location c segments sec.addr) [
        | err e ↦ ok []
        | ok at ↦ do
          command ←
              section_command sectname seg.name (slide c + sec.addr) sec.size at.output_offset
                (section_align sec.addralign) flags
          ok (command ∷ [])
      ]
]

unfoldable pub special_sections :
    Config → List ImageSegment → ImageSegment → List SectionHeader → Outcome (List Bytes)
unfolding special_section
special_sections c segments seg [] = ok []
special_sections c segments seg (sec ∷ secs) = do
  here ← special_section c segments seg sec
  later ← special_sections c segments seg secs
  ok (here ++ later)

log2_steps-pow : (k steps : ℕ) → k < steps → log2_steps steps (2 ^ k) ≡ k
unfolding log2_steps
log2_steps-pow k zero h = absurd (omega arith)
log2_steps-pow zero (suc steps) h = ground arith
log2_steps-pow (suc k) (suc steps) h =
    let double : 2 ^ suc k ≡ 2 ^ k * 2 = omega (arith, pow-suc 2 k) in
    let half : 2 ^ suc k / 2 ≡ 2 ^ k = omega arith in
    let positive = one-le-pow k 2 (omega arith) in
    rw (half, log2_steps-pow k steps (omega arith)) (ground arith)

lt_pow : (k : ℕ) → k < 2 ^ k
lt_pow zero = omega arith
lt_pow (suc k) = omega (arith, lt_pow k, pow-suc 2 k)

-- An alignment that is a power of two gets its exponent, which Mach-O asks for.
pub section_align-pow : (k : ℕ) → section_align (2 ^ k) ≡ k
unfolding section_align
section_align-pow k =
    let masked : bit_and (2 ^ k) (2 ^ k - 1) ≡ 0 = bit_and_mask k (2 ^ k) ∙ mod_self (2 ^ k) in
    let exponent = log2_steps-pow k (2 ^ k) (lt_pow k) in ground (arith, lt_pow k)
