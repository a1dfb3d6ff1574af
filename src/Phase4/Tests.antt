-- ===== src/Phase4/Tests.antt =====
-- The translation of a small shared object by phase4.py, and the theorems at concrete inputs.
pub mod Whole
use il2cppapk2ios.Elf.Tests.{sample_elf}
use il2cppapk2ios.Elf.Symbols.{dynamic_symbols}
use il2cppapk2ios.Phase3.{ImageSegment, init}
use il2cppapk2ios.Phase3.Translate.{Linkedit}
use il2cppapk2ios.Phase3.Tests.{small_config, options}
use il2cppapk2ios.Phase4.{exports}
use il2cppapk2ios.Phase4.Translate.{
  place_exports, command_segments, Phase4Translation, translate_phase4,
}
use il2cppapk2ios.Phase4.Contiguous.{Contiguous, unsized, command_segments-Contiguous}
use il2cppapk2ios.Phase4.Ending.{IsFinal, final, bind_end, place_exports-IsFinal}
use il2cppapk2ios.Phase4.Names.{IsDefinition, HasName, exports-AreDefined}
use il2cppapk2ios.Phase4.Sections.{section_align, section_align-pow}
use il2cppapk2ios.Phase4.Trie.Names.{Distinct}
use il2cppapk2ios.Common.{ℕ, ◌^◌, ◌≡◌, refl, arith, List, [], ◌∷◌, length, map, replicate, All}
use il2cppapk2ios.Common.Outcome.{Outcome, ok, err, ◌>>=◌}
use il2cppapk2ios.Common.Text.{codes}
use il2cppapk2ios.Align.{align}
use il2cppapk2ios.Struct.{Bytes, le_bytes}

abbrev sizes4 : Outcome Phase4Translation → List ℕ
sizes4 (ok t) = length t.output ∷ (length t.export_list ∷ (t.export_stream_size ∷ []))
sizes4 (err e) = []

translate_phase4-sample :
    sizes4 (init small_config sample_elf >>= translate_phase4 small_config options sample_elf)
    ≡ 1602 ∷ (1 ∷ (25 ∷ []))
unfolding init translate_phase4 le_bytes
translate_phase4-sample = refl

exports-sample : exports small_config sample_elf ≡ (codes "_foo", 0x410) ∷ []
unfolding exports le_bytes
exports-sample = refl

exports-AreDefined_example :
    Distinct (exports small_config sample_elf)
    × All (IsDefinition small_config (dynamic_symbols sample_elf)) (exports small_config sample_elf)
    × ((e : List ℕ × ℕ)
        → IsDefinition small_config (dynamic_symbols sample_elf) e
        → HasName e.0 (exports small_config sample_elf))
exports-AreDefined_example = exports-AreDefined small_config sample_elf

abbrev segment_at : ℕ → ℕ → ImageSegment
segment_at fileoff vmaddr = record {
  name = codes "__TEXT";
  vmaddr = vmaddr;
  vmsize = 16;
  fileoff = fileoff;
  filesize = 10;
  protection = 5;
  elf_vaddr = vmaddr;
  elf_offset = 0;
  elf_filesz = 10;
  elf_memsz = 10;
  data_addr = vmaddr;
  data_fileoff = fileoff;
  data_size = 10;
  section_name = codes "__elf_rx";
}

abbrev gapped : List ImageSegment
gapped = segment_at 0 0 ∷ (segment_at 16 32 ∷ [])

command_segments-Contiguous_example :
    (out : List ImageSegment) × (command_segments gapped 48 64 ≡ ok out)
    × Contiguous out 48 64
    × (map unsized out ≡ map unsized gapped)
command_segments-Contiguous_example =
    command_segments-Contiguous gapped 48 64 (omega arith, omega arith, (omega arith, omega arith))

abbrev link : Linkedit
link = record {
  vmaddr = 64;
  fileoff = 16;
  size = 24;
  rebase_off = 16;
  bind_off = 24;
  final_size = 48;
}

abbrev trie_bytes : Bytes
trie_bytes = 1 ∷ (2 ∷ [])

abbrev last_file : Bytes
last_file = replicate 48 7

place_exports-IsFinal_example :
    IsFinal
      (final link 5 3 trie_bytes last_file)
      last_file
      trie_bytes
      (place_exports (final link 5 3 trie_bytes last_file) trie_bytes last_file)
      (bind_end link 5 3 trie_bytes last_file)
unfolding align
place_exports-IsFinal_example = place_exports-IsFinal link 5 3 trie_bytes last_file (omega arith)
