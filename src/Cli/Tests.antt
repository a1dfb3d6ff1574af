-- ===== src/Cli/Tests.antt =====
-- A command at a file system that holds a small shared object.
use il2cppapk2ios.Cli.{phase4_args, Run, main}
use il2cppapk2ios.Elf.{Elf64}
use il2cppapk2ios.Elf.Tests.{sample, sample_elf}
use il2cppapk2ios.Phase3.{ImageSegment, default_config, init}
use il2cppapk2ios.Phase3.Tests.Whole.{is_ok, value_of}
use il2cppapk2ios.Shimgen.Manifest.{Texts}
use il2cppapk2ios.Common.{◌≡◌, refl, true, false, List, [], none}
use il2cppapk2ios.Common.Outcome.{Outcome, ok}
use il2cppapk2ios.Common.Text.{codes}
use il2cppapk2ios.Struct.{le_bytes}

abbrev texts : Texts
texts = record {
  objects_asm = [];
  objects_compat = [];
  stdio_compat = [];
  special_c = [];
  pthread_compat = [];
  posix_compat = [];
  network_compat = [];
  runtime_c = [];
  runtime_s = [];
  signal_compat = [];
  build_sh = [];
  readme_template = [];
}

abbrev sample_main : Outcome Run
sample_main =
    main (λ path. ok sample) (λ path. none) (λ path. 432) (λ path. []) texts (λ m. [])
      (phase4_args (codes "in") (codes "out") false none none)

abbrev elf : Elf64
elf = record sample_elf { source = codes "in" }

init_returns : is_ok (init default_config elf) ≡ true
unfolding init le_bytes
init_returns = refl

segments : List ImageSegment
segments = value_of (init default_config elf) init_returns
