-- ===== src/Cli.antt =====
-- `main` of src/il2cppapk2ios/cli.py after `parse_args`, and the three functions that a translation
-- command calls. The file system is a parameter: what a path reads as, and the entries of an archive.
-- What is written to it is part of the result, and so is what is printed, before it is formatted.
pub mod Commands
pub mod Tests
use il2cppapk2ios.Apk.{ZipEntry, UnityApk, ApkReport, open_archive, Files, extract_arm64}
use il2cppapk2ios.Apk.Version.{apk_report}
use il2cppapk2ios.Elf.{Elf64, parse}
use il2cppapk2ios.Elf.Report.{ElfReport, report}
use il2cppapk2ios.Macho.{build_arm64_macho_skeleton}
use il2cppapk2ios.Phase2.{default_load_config, init_phase2}
use il2cppapk2ios.Phase2.Translate.{Phase2Translation, translate_phase2}
use il2cppapk2ios.Phase3.{default_config, init}
use il2cppapk2ios.Phase3.Commands.{Version}
use il2cppapk2ios.Phase3.Translate.{Options, Translation, translate}
use il2cppapk2ios.Phase4.Translate.{Phase4Translation, translate_phase4}
use il2cppapk2ios.Shimgen.Manifest.{Manifest, Texts, Written, manifest, generated_files}
use il2cppapk2ios.Common.{ℕ, Bool, List, [], ◌∷◌, Option, none, some}
use il2cppapk2ios.Common.Outcome.{Outcome, ok, ◌>>=◌}
use il2cppapk2ios.Common.Text.{codes}
use il2cppapk2ios.Struct.{Bytes}

-- The namespace that `parse_args` returns, by its subcommand. An option that is not given is `none`.
pub data Args : Type 0 where
  apk_report_args : List ℕ → Bool → Args
  elf_report_args : List ℕ → Bool → Args
  extract_args : List ℕ → List ℕ → Args
  macho_smoke_args : List ℕ → Args
  phase2_args : List ℕ → List ℕ → Bool → Option (List ℕ) → Args
  phase3_args : List ℕ → List ℕ → Bool → Option (List ℕ) → Option (List ℕ) → Args
  phase4_args : List ℕ → List ℕ → Bool → Option (List ℕ) → Option (List ℕ) → Args
  generate_shim_args : List ℕ → List ℕ → Bool → Args

abbrev pub given_or : List ℕ → Option (List ℕ) → List ℕ
given_or default_value none = default_value
given_or default_value (some value) = value

abbrev pub default_install_name : List ℕ
default_install_name = codes "@rpath/libil2cpp_ported.dylib"

abbrev pub default_shim_install_name : List ℕ
default_shim_install_name = codes "@rpath/libbionic_shim.dylib"

-- min_ios=(12, 0, 0)
abbrev pub default_min_ios : Version
default_min_ios = record { major = 12; minor = 0; patch = 0 }

-- The keyword arguments of `translate` in phase3.py and phase4.py. No command gives the prefix.
abbrev pub options_of : Option (List ℕ) → Option (List ℕ) → Options
options_of shim_install install = record {
  shim_install_name = given_or default_shim_install_name shim_install;
  install_name = given_or default_install_name install;
  shim_prefix = codes "_a2i_";
  min_ios = default_min_ios;
}

-- The argument of `dump`.
pub data Report : Type 0 where
  apk_dict : ApkReport → Report
  elf_dict : ElfReport → Report
  phase2_dict : Phase2Translation → Report
  phase3_dict : Translation → Report
  phase4_dict : Phase4Translation → Report
  shim_dict : Manifest → Report

-- What is printed: a report, as JSON or not, or paths, one on a line.
pub data Printed : Type 0 where
  dumped : Report → Bool → Printed
  paths : List (List ℕ) → Printed

-- What a command leaves: the directory or file it was given, the files written below or at it, and
-- what it prints. A file at the path itself has the empty name.
pub record Run : Type 0 where
  pub place : List ℕ
  pub written : List Written
  pub printed : Printed

abbrev pub at_path : List ℕ → Bytes → Printed → Run
at_path path bytes printed = record { place = path; written = ([], bytes) ∷ []; printed = printed }

abbrev pub only_printed : Printed → Run
only_printed printed = record { place = []; written = []; printed = printed }

module _ (read_bytes : List ℕ → Outcome Bytes) where
  -- Elf64.from_path
  unfoldable pub from_path : List ℕ → Outcome Elf64
  unfolding parse
  from_path path = read_bytes path >>= λ bytes. parse bytes path

  -- `translate_phase2`, `translate_phase3` and `translate_phase4`
  unfoldable pub run_phase2 : List ℕ → List ℕ → Outcome Phase2Translation
  unfolding from_path init_phase2 translate_phase2
  run_phase2 input install_name = do
    elf ← from_path input
    loads ← init_phase2 default_load_config elf
    translate_phase2 default_load_config install_name default_min_ios elf loads

  unfoldable pub run_phase3 : List ℕ → Options → Outcome Translation
  unfolding from_path init translate
  run_phase3 input o = do
    elf ← from_path input
    segments ← init default_config elf
    translate default_config o elf segments

  unfoldable pub run_phase4 : List ℕ → Options → Outcome Phase4Translation
  unfolding from_path init translate_phase4
  run_phase4 input o = do
    elf ← from_path input
    segments ← init default_config elf
    translate_phase4 default_config o elf segments

module _ (read_bytes : List ℕ → Outcome Bytes) (zip_entries : List ℕ → Option (List ZipEntry))
    (file_size : List ℕ → ℕ) (files_in : List ℕ → Files) (texts : Texts)
    (dumps : Manifest → List ℕ) where
  -- The dispatch on `args.cmd`.
  unfoldable pub main : Args → Outcome Run
  unfolding open_archive apk_report from_path report extract_arm64 build_arm64_macho_skeleton
      run_phase2 run_phase3 run_phase4 manifest generated_files
  main (apk_report_args path as_json) = do
    archive ← open_archive path (zip_entries path)
    found ← apk_report archive (file_size path)
    ok (only_printed (dumped (apk_dict found) as_json))
  main (elf_report_args path as_json) = do
    elf ← from_path read_bytes path
    ok (only_printed (dumped (elf_dict (report elf)) as_json))
  main (extract_args path output) = do
    archive ← open_archive path (zip_entries path)
    extracted ← extract_arm64 archive.entries (files_in output)
    ok (record { place = output; written = extracted.1; printed = paths extracted.0 })
  main (macho_smoke_args output) = do
    image ← build_arm64_macho_skeleton
    ok (at_path output image (paths (output ∷ [])))
  main (phase2_args input output as_json install) = do
    t ← run_phase2 read_bytes input (given_or default_install_name install)
    ok (at_path output t.output (dumped (phase2_dict t) as_json))
  main (phase3_args input output as_json shim_install install) = do
    t ← run_phase3 read_bytes input (options_of shim_install install)
    ok (at_path output t.output (dumped (phase3_dict t) as_json))
  main (phase4_args input output as_json shim_install install) = do
    t ← run_phase4 read_bytes input (options_of shim_install install)
    ok (at_path output t.output (dumped (phase4_dict t) as_json))
  main (generate_shim_args input output as_json) = do
    elf ← from_path read_bytes input
    ok (record {
      place = output;
      written = generated_files texts dumps input elf;
      printed = dumped (shim_dict (manifest input elf)) as_json;
    })
