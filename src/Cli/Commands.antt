-- ===== src/Cli/Commands.antt =====
-- What the commands of src/il2cppapk2ios/cli.py that translate leave behind.
use il2cppapk2ios.Common.Text.{codes}
use il2cppapk2ios.Cli.{Run, at_path, dumped, phase4_dict}
use il2cppapk2ios.Elf.{Elf64}
use il2cppapk2ios.Phase3.{default_config, ImageSegment}
use il2cppapk2ios.Phase3.Translate.{Options}
use il2cppapk2ios.Phase4.Pipeline.{IsDylib}
use il2cppapk2ios.Phase4.Translate.{Phase4Translation, translate_phase4}
use il2cppapk2ios.Shimgen.Manifest.{Manifest}
use il2cppapk2ios.Common.{ℕ, ◌≡◌, Bool, List, Option, none, some}
use il2cppapk2ios.Common.Outcome.{Outcome, ok}

-- The value of an option: the one that is given, or the default.
pub data IsChosen (default_value : List ℕ) : Option (List ℕ) → List ℕ → Type 0 where
  default : IsChosen default_value none default_value
  given : {name : List ℕ} → IsChosen default_value (some name) name

-- The options of a run: the names that are chosen, the prefix of the shim and iOS 12.0.0.
pub record IsChoice (shim_install install : Option (List ℕ)) (o : Options) : Type 0 where
  pub shim : IsChosen (codes "@rpath/libbionic_shim.dylib") shim_install o.shim_install_name
  pub dylib : IsChosen (codes "@rpath/libil2cpp_ported.dylib") install o.install_name
  pub prefix : o.shim_prefix ≡ codes "_a2i_"
  pub min_ios : o.min_ios ≡ record { major = 12; minor = 0; patch = 0 }

-- The run wrote one file, at the output, with the bytes of a translation of the segments under the
-- chosen options, which is a dylib, and printed the report of that translation.
pub record IsPhase4Run (shim_install install : Option (List ℕ)) (elf : Elf64)
    (segments : List ImageSegment) (output : List ℕ) (as_json : Bool) (run : Run) : Type 0 where
  pub o : Options
  pub choice : IsChoice shim_install install o
  pub translation : Phase4Translation
  pub translated : translate_phase4 default_config o elf segments ≡ ok translation
  pub is_dylib : IsDylib default_config o elf segments translation
  pub run_eq : run ≡ at_path output translation.output (dumped (phase4_dict translation) as_json)
