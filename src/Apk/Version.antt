-- ===== src/Apk/Version.antt =====
-- `unity_version` of src/il2cppapk2ios/apk.py, and the search for its regular expression as Python's
-- `re` does it: from the left, greedy, with backtracking.
pub mod Match
pub mod Report
use il2cppapk2ios.Apk.{
  ZipEntry, UnityApk, ApkReport, names, read, abis, native_libs, metadata_entries,
}
use il2cppapk2ios.Common.{
  ℕ, ◌*◌, Bool, ◌&&◌, ◌||◌, ◌==◌, leb, List, [], ◌∷◌, Option, none, some, take, if◌then◌else◌,
}
use il2cppapk2ios.Common.Outcome.{Outcome, ok, ◌>>=◌}
use il2cppapk2ios.Common.Text.{codes, is_in}

-- One byte that passes a test, or such bytes, at least one.
pub data Item : Type 0 where
  one : (ℕ → Bool) → Item
  many : (ℕ → Bool) → Item

abbrev pub is_digit : ℕ → Bool
is_digit c = leb 48 c && leb c 57

-- [abfp]
abbrev pub is_release : ℕ → Bool
is_release c = (c == 97) || ((c == 98) || ((c == 102) || (c == 112)))

-- 20\d\d\.\d+\.\d+[abfp]\d+
abbrev pub unity_version_re : List Item
unity_version_re =
    one (λ c. c == 50)
    ∷ (one (λ c. c == 48)
        ∷ (one is_digit
            ∷ (one is_digit
                ∷ (one (λ c. c == 46)
                    ∷ (many is_digit
                        ∷ (one (λ c. c == 46)
                            ∷ (many is_digit ∷ (one is_release ∷ (many is_digit ∷ [])))))))))

abbrev pub with_byte : ℕ → Option (List ℕ) → Option (List ℕ)
with_byte c none = none
with_byte c (some m) = some (c ∷ m)

abbrev pub or_else : Option (List ℕ) → Option (List ℕ) → Option (List ℕ)
or_else none second = second
or_else (some m) second = some m

-- The bytes that one item takes before `next` goes on. `many` takes another byte first, and goes on
-- only where that fails.
unfoldable pub match_many : (ℕ → Bool) → (List ℕ → Option (List ℕ)) → List ℕ → Option (List ℕ)
match_many test next [] = none
match_many test next (c ∷ s) =
    let more = match_many test next s in
    if test c then with_byte c (or_else more (next s)) else none

unfoldable pub match_one : (ℕ → Bool) → (List ℕ → Option (List ℕ)) → List ℕ → Option (List ℕ)
match_one test next [] = none
match_one test next (c ∷ s) = if test c then with_byte c (next s) else none

-- The text that the expression takes at the start of the data.
unfoldable pub match_at : List Item → List ℕ → Option (List ℕ)
unfolding match_one match_many
match_at [] s = some []
match_at (one test ∷ items) s = match_one test (match_at items) s
match_at (many test ∷ items) s = match_many test (match_at items) s

-- `search`: the first place where the expression matches.
unfoldable pub search_re : List Item → List ℕ → Option (List ℕ)
unfolding match_at
search_re items [] = match_at items []
search_re items (c ∷ s) = or_else (match_at items (c ∷ s)) (search_re items s)

abbrev pub candidates : List (List ℕ)
candidates =
    codes "assets/bin/Data/globalgamemanagers"
    ∷ (codes "assets/bin/Data/data.unity3d"
        ∷ (codes "assets/bin/Data/Resources/unity default resources" ∷ []))

abbrev pub head_size : ℕ
head_size = 4 * (1024 * 1024)

-- `if match: return match.group().decode("ascii")`
abbrev pub version_or : Option (List ℕ) → Outcome (Option (List ℕ)) → Outcome (Option (List ℕ))
version_or none later = later
version_or (some version) later = ok (some version)

-- The loop over the candidates, with the size of the head that is searched.
unfoldable pub version_in : ℕ → List ZipEntry → List (List ℕ) → Outcome (Option (List ℕ))
unfolding search_re read names is_in
version_in size entries [] = ok none
version_in size entries (name ∷ rest) =
    let later = version_in size entries rest in
    if is_in name (names entries)
    then (read entries name >>= λ content.
        version_or (search_re unity_version_re (take size content)) later)
    else later

unfoldable pub unity_version : List ZipEntry → Outcome (Option (List ℕ))
unfolding version_in
unity_version entries = version_in head_size entries candidates

-- `report`. The size of the archive's own file is asked of the file system.
unfoldable pub apk_report : UnityApk → ℕ → Outcome ApkReport
unfolding unity_version abis native_libs metadata_entries
apk_report apk file_size = unity_version apk.entries >>= λ version. ok (record {
  apk = apk.path;
  size = file_size;
  unity_version = version;
  abis = abis apk.entries;
  arm64_libs = native_libs (codes "arm64-v8a") apk.entries;
  metadata = metadata_entries apk.entries;
})
