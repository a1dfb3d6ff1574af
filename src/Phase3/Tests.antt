-- ===== src/Phase3/Tests.antt =====
-- The translation of a small shared object, and the theorems at concrete inputs.
mod Streams
mod Loop
pub mod Whole
use mathlib.Core.List.{Perm}
use il2cppapk2ios.Elf.{Elf64}
use il2cppapk2ios.Elf.Relocations.{Relocation}
use il2cppapk2ios.Elf.Symbols.{Symbol, dynamic_symbols}
use il2cppapk2ios.Elf.Tests.{sample_elf}
use il2cppapk2ios.Phase3.{Config, ImageSegment, Location, init, text_segment}
use il2cppapk2ios.Phase3.Commands.{Version}
use il2cppapk2ios.Phase3.Fixups.{Fixups, fix_all}
use il2cppapk2ios.Phase3.Translate.{Options, Translation, translate}
use il2cppapk2ios.Common.{ℕ, ◌+◌, ◌≡◌, refl, List, [], ◌∷◌, length, map}
use il2cppapk2ios.Common.Outcome.{Outcome, ok, err, ◌>>=◌}
use il2cppapk2ios.Common.Text.{codes}
use il2cppapk2ios.Struct.{Bytes, le_bytes, field, slice}

abbrev pub small_config : Config
small_config = record { image_base = 0; header_reserve = 1024; page_size = 256 }

abbrev pub options : Options
options = record {
  shim_install_name = codes "s";
  install_name = codes "i";
  shim_prefix = codes "_a2i_";
  min_ios = record { major = 12; minor = 0; patch = 0 };
}

abbrev sizes : Outcome Translation → List ℕ
sizes (ok t) =
    length t.output
    ∷ (length t.fixups.rebases
        ∷ (length t.fixups.bindings ∷ (t.rebase_stream_size ∷ (t.bind_stream_size ∷ []))))
sizes (err e) = []

translate-sample :
    sizes (init small_config sample_elf >>= translate small_config options sample_elf)
    ≡ 1792 ∷ (2 ∷ (1 ∷ (10 ∷ (18 ∷ []))))
unfolding init translate le_bytes
translate-sample = refl
