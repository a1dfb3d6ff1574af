-- ===== src/Shimgen/Manifest.antt =====
-- The counts, the manifest and the files that `generate_shim_scaffold` of src/il2cppapk2ios/shimgen.py
-- writes. The texts that it copies and `json.dumps` are parameters.
pub mod Counts
use il2cppapk2ios.Elf.{Elf64}
use il2cppapk2ios.Shimgen.{
  Category, object, stdio, special, pthread, posix, elf_runtime, network, runtime, signal, direct,
  trap, ShimRecord, records, direct_names, trap_names, direct_assembly,
}
use il2cppapk2ios.Shimgen.Phdr.Source.{elf_phdr_compat_source}
use il2cppapk2ios.Shimgen.Traps.{trap_assembly}
use il2cppapk2ios.Common.{ℕ, ◌+◌, Bool, List, [], ◌∷◌, ◌++◌, if◌then◌else◌, length}
use il2cppapk2ios.Common.Sort.{sorted}
use il2cppapk2ios.Common.Text.{codes, text_eq, text_le}

abbrev pub category_name : Category → List ℕ
category_name object = codes "object"
category_name stdio = codes "stdio"
category_name special = codes "special"
category_name pthread = codes "pthread"
category_name posix = codes "posix"
category_name elf_runtime = codes "elf-runtime"
category_name network = codes "network"
category_name runtime = codes "runtime"
category_name signal = codes "signal"
category_name direct = codes "direct"
category_name trap = codes "trap"

-- A key of the counter with its count.
abbrev pub Count : Type 0
Count = List ℕ × ℕ

-- counts[name] += 1
unfoldable pub add_count : List ℕ → List Count → List Count
unfolding text_eq
add_count name [] = (name, 1) ∷ []
add_count name (count ∷ counts) =
    let later = add_count name counts in
    if text_eq name count.0 then (count.0, count.1 + 1) ∷ counts else count ∷ later

-- Counter(x["category"] for x in records)
unfoldable pub counter : List ShimRecord → List Count → List Count
unfolding add_count
counter [] counts = counts
counter (r ∷ rs) counts = counter rs (add_count (category_name r.category) counts)

abbrev pub count_le : Count → Count → Bool
count_le a b = text_le a.0 b.0

unfoldable pub sorted_counts : List ShimRecord → List Count
unfolding counter sorted text_le
sorted_counts rs = sorted count_le (counter rs [])

pub record Manifest : Type 0 where
  pub source : List ℕ
  pub total_imports : ℕ
  pub counts : List Count
  pub imports : List ShimRecord
  pub warning : List ℕ

unfoldable pub manifest : List ℕ → Elf64 → Manifest
unfolding records sorted_counts
manifest source elf = record {
  source = source;
  total_imports = length (records elf);
  counts = sorted_counts (records elf);
  imports = records elf;
  warning =
      codes "direct means suitable for the first ABI probe, not guaranteed "
      ++ (codes "semantic compatibility. object and trap entries remain blockers "
          ++ codes "if execution reaches them.");
}

-- The constant texts of the module and the files beside it in templates/.
pub record Texts : Type 0 where
  pub objects_asm : List ℕ
  pub objects_compat : List ℕ
  pub stdio_compat : List ℕ
  pub special_c : List ℕ
  pub pthread_compat : List ℕ
  pub posix_compat : List ℕ
  pub network_compat : List ℕ
  pub runtime_c : List ℕ
  pub runtime_s : List ℕ
  pub signal_compat : List ℕ
  pub build_sh : List ℕ
  pub readme_template : List ℕ

-- A file that is written: its name in the output directory and its text.
abbrev pub Written : Type 0
Written = List ℕ × List ℕ

module _ (texts : Texts) (dumps : Manifest → List ℕ) where
  -- The writes from elf_phdr_compat.c on, in their order.
  unfoldable pub later_files : List ℕ → Elf64 → List Written
  unfolding manifest elf_phdr_compat_source
  later_files source elf =
      (codes "elf_phdr_compat.c", elf_phdr_compat_source elf)
      ∷ ((codes "network_compat.c", texts.network_compat)
          ∷ ((codes "runtime_compat.c", texts.runtime_c)
              ∷ ((codes "runtime_compat.S", texts.runtime_s)
                  ∷ ((codes "signal_compat.c", texts.signal_compat)
                      ∷ ((codes "build.sh", texts.build_sh)
                          ∷ ((codes "README.md", texts.readme_template)
                              ∷ ((codes "manifest.json", dumps (manifest source elf) ++ (10 ∷ []))
                                  ∷ [])))))))

  -- All writes of `generate_shim_scaffold`.
  unfoldable pub generated_files : List ℕ → Elf64 → List Written
  unfolding later_files records direct_names trap_names direct_assembly trap_assembly
  generated_files source elf =
      (codes "direct.S", direct_assembly (direct_names (records elf)))
      ∷ ((codes "trap.S", trap_assembly (trap_names (records elf)))
          ∷ ((codes "objects.S", texts.objects_asm)
              ∷ ((codes "objects_compat.c", texts.objects_compat)
                  ∷ ((codes "stdio_compat.c", texts.stdio_compat)
                      ∷ ((codes "special.c", texts.special_c)
                          ∷ ((codes "pthread_compat.c", texts.pthread_compat)
                              ∷ ((codes "posix_compat.c", texts.posix_compat)
                                  ∷ later_files source elf)))))))
