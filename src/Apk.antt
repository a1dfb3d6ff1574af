-- ===== src/Apk.antt =====
-- `UnityApk` of src/il2cppapk2ios/apk.py, on the entries of a ZIP archive in their order. The
-- directory that `extract_arm64` writes into is a list of files under their names.
pub mod Version
pub mod Libs
pub mod Extract
pub mod Tests
use il2cppapk2ios.Common.{
  ℕ, Bool, ◌&&◌, List, [], ◌∷◌, ◌++◌, Option, none, some, map, if◌then◌else◌, length, drop,
}
use il2cppapk2ios.Common.Outcome.{Outcome, ok, err, not_an_apk, missing_entry, ◌>>=◌}
use il2cppapk2ios.Common.Sort.{sorted}
use il2cppapk2ios.Common.Text.{codes, text_eq, text_le, starts_with, is_in, sorted_set, select}
use il2cppapk2ios.Common.Paths.{ends_with, split, base_name}

-- `zipfile.ZipInfo`, with what reading the entry returns or raises: its content, or an error where it
-- is encrypted or its checksum is wrong.
pub record ZipEntry : Type 0 where
  pub filename : List ℕ
  pub file_size : ℕ
  pub content : Outcome (List ℕ)

-- `namelist`
unfoldable pub names : List ZipEntry → List (List ℕ)
names = map (λ (entry : ZipEntry). entry.filename)

-- `ZipFile.read`: of two entries with one name, the later one counts.
unfoldable pub read_last : List ZipEntry → List ℕ → Option (Outcome (List ℕ))
unfolding text_eq
read_last [] name = none
read_last (entry ∷ entries) name = elim (read_last entries name) [
  | some content ↦ some content
  | none ↦ if text_eq name entry.filename then some entry.content else none
]

abbrev pub or_key_error : Option (Outcome (List ℕ)) → Outcome (List ℕ)
or_key_error none = err missing_entry
or_key_error (some content) = content

unfoldable pub read : List ZipEntry → List ℕ → Outcome (List ℕ)
unfolding read_last
read entries name = or_key_error (read_last entries name)

pub record UnityApk : Type 0 where
  pub path : List ℕ
  pub entries : List ZipEntry

-- `__init__`. The archive is `none` where `zipfile.is_zipfile` answers no.
unfoldable pub open_archive : List ℕ → Option (List ZipEntry) → Outcome UnityApk
open_archive path none = err not_an_apk
open_archive path (some entries) = ok (record { path = path; entries = entries })

-- The part that `abis` takes of a name: the second of at least three, below `lib`.
unfoldable pub abi_part : Bool → List (List ℕ) → List (List ℕ)
unfolding text_eq
abi_part is_so (first ∷ (abi ∷ (third ∷ rest))) =
    if text_eq first (codes "lib") && is_so then abi ∷ [] else []
abi_part is_so _ = []

unfoldable pub abi_parts : List (List ℕ) → List (List ℕ)
unfolding abi_part split ends_with
abi_parts [] = []
abi_parts (name ∷ rest) = abi_part (ends_with (codes ".so") name) (split 47 name) ++ abi_parts rest

unfoldable pub abis : List ZipEntry → List (List ℕ)
unfolding abi_parts names sorted_set
abis entries = sorted_set (abi_parts (names entries))

pub record NativeLib : Type 0 where
  pub name : List ℕ
  pub size : ℕ
  pub path : List ℕ

abbrev pub lib_prefix : List ℕ → List ℕ
lib_prefix abi = codes "lib/" ++ (abi ++ codes "/")

unfoldable pub is_lib : List ℕ → ZipEntry → Bool
unfolding starts_with ends_with
is_lib abi entry =
    starts_with (lib_prefix abi) entry.filename && ends_with (codes ".so") entry.filename

abbrev pub native_lib : List ℕ → ZipEntry → NativeLib
native_lib abi entry = record {
  name = drop (length (lib_prefix abi)) entry.filename;
  size = entry.file_size;
  path = entry.filename;
}

abbrev pub lib_le : NativeLib → NativeLib → Bool
lib_le a b = text_le a.name b.name

unfoldable pub native_libs : List ℕ → List ZipEntry → List NativeLib
unfolding is_lib select sorted text_le
native_libs abi entries = sorted lib_le (map (native_lib abi) (select (is_lib abi) entries))

pub record MetadataEntry : Type 0 where
  pub path : List ℕ
  pub size : ℕ

unfoldable pub is_metadata : List ℕ → Bool
unfolding ends_with
is_metadata name = ends_with (codes "global-metadata.dat") name

unfoldable pub metadata_entries : List ZipEntry → List MetadataEntry
unfolding is_metadata select
metadata_entries entries =
    map (λ (entry : ZipEntry). record { path = entry.filename; size = entry.file_size })
      (select (λ (entry : ZipEntry). is_metadata entry.filename) entries)

abbrev pub arm64_payload : List (List ℕ)
arm64_payload =
    codes "lib/arm64-v8a/libil2cpp.so"
    ∷ (codes "lib/arm64-v8a/libunity.so" ∷ (codes "lib/arm64-v8a/libmain.so" ∷ []))

-- `sorted(wanted & names)`
unfoldable pub wanted_names : List (List ℕ) → List (List ℕ)
unfolding is_metadata select is_in sorted_set
wanted_names present =
    sorted_set (select (λ name. is_in name present) (arm64_payload ++ select is_metadata present))

-- A file of the output directory: its name and its content.
abbrev pub Files : Type 0
Files = List (List ℕ × List ℕ)

-- `target.write_bytes`
unfoldable pub write_file : List ℕ → List ℕ → Files → Files
unfolding text_eq
write_file target content [] = (target, content) ∷ []
write_file target content (file ∷ files) =
    let later = write_file target content files in
    if text_eq target file.0 then (target, content) ∷ files else file ∷ later

-- The loop of `extract_arm64`. It returns the targets in the order of their writes.
unfoldable pub extract_loop :
    List ZipEntry → List (List ℕ) → Files → Outcome (List (List ℕ) × Files)
unfolding read base_name write_file
extract_loop entries [] files = ok ([], files)
extract_loop entries (name ∷ rest) files = read entries name >>= λ content.
    extract_loop entries rest (write_file (base_name name) content files) >>= λ done.
    ok (base_name name ∷ done.0, done.1)

unfoldable pub extract_arm64 : List ZipEntry → Files → Outcome (List (List ℕ) × Files)
unfolding extract_loop wanted_names names
extract_arm64 entries files = extract_loop entries (wanted_names (names entries)) files

pub record ApkReport : Type 0 where
  pub apk : List ℕ
  pub size : ℕ
  pub unity_version : Option (List ℕ)
  pub abis : List (List ℕ)
  pub arm64_libs : List NativeLib
  pub metadata : List MetadataEntry
