-- ===== src/Apk/Version/Report.antt =====
-- What `unity_version` of src/il2cppapk2ios/apk.py answers about an archive.
use il2cppapk2ios.Apk.{ZipEntry, names, read_last, read}
use il2cppapk2ios.Apk.Extract.Loop.{read-total, listed}
use il2cppapk2ios.Apk.Version.{search_re, version_in, unity_version, Item, one, many}
use il2cppapk2ios.Apk.Version.Match.{Finds, search_re-Finds, EndsIn, final, after}
use il2cppapk2ios.Common.{
  ℕ, ◌≡◌, refl, inl, inr, true, false, List, [], ◌∷◌, Option, none, some, take, Bool-cases,
  true≢false, Option-cases, ◌∙◌, sym, Bool, leb, ◌&&◌, ◌||◌, ◌==◌,
}
use il2cppapk2ios.Common.Outcome.{ok, Outcome, err, Error}
use il2cppapk2ios.Common.Text.{is_in, codes}

abbrev pub decimal_digit : ℕ → Bool
decimal_digit c = leb 48 c && leb c 57

abbrev pub exactly : ℕ → Item
exactly byte_value = one (λ c. c == byte_value)

-- A version of Unity: 20, two digits, a point, digits, a point, digits, one of a, b, f and p, digits.
abbrev pub version_form : List Item
version_form =
    exactly 50
    ∷ (exactly 48
        ∷ (one decimal_digit
            ∷ (one decimal_digit
                ∷ (exactly 46
                    ∷ (many decimal_digit
                        ∷ (exactly 46
                            ∷ (many decimal_digit
                                ∷ (one (λ c. (c == 97) || ((c == 98) || ((c == 102) || (c == 112))))
                                    ∷ (many decimal_digit ∷ [])))))))))

version_form-EndsIn : EndsIn decimal_digit version_form
version_form-EndsIn = after _ _ (
    after _ _
      (after _ _ (after _ _ (after _ _ (after _ _ (after _ _ (after _ _ (after _ _ final))))))))

-- The answer over the names that are asked for, in their order: the first version in the head of the
-- first entry that has one, past those that have none and those that the archive does not have, or the
-- error of the first of these entries that cannot be read.
pub data Reports (size : ℕ) (entries : List ZipEntry)
    : List (List ℕ) → Outcome (Option (List ℕ)) → Type 0 where
  nowhere : Reports size entries [] (ok none)
  here :
      {name content version : List ℕ} {asked : List (List ℕ)}
      → read_last entries name ≡ some (ok content)
      → Finds decimal_digit version_form (take size content) (some version)
      → Reports size entries (name ∷ asked) (ok (some version))
  past :
      {name content : List ℕ} {asked : List (List ℕ)} {o : Outcome (Option (List ℕ))}
      → read_last entries name ≡ some (ok content)
      → Finds decimal_digit version_form (take size content) none
      → Reports size entries asked o
      → Reports size entries (name ∷ asked) o
  missing :
      {name : List ℕ} {asked : List (List ℕ)} {o : Outcome (Option (List ℕ))}
      → read_last entries name ≡ none
      → Reports size entries asked o
      → Reports size entries (name ∷ asked) o
  unreadable :
      {name : List ℕ} {asked : List (List ℕ)} {e : Error}
      → read_last entries name ≡ some (err e)
      → Reports size entries (name ∷ asked) (err e)

module _ (size : ℕ) (entries : List ZipEntry) where
  read_eq :
      (name : List ℕ) (content : Outcome (List ℕ))
      → read_last entries name ≡ some content
      → read entries name ≡ content
  unfolding read
  read_eq name content there = rw there refl

  unlisted : (name : List ℕ) → is_in name (names entries) ≡ false → read_last entries name ≡ none
  unlisted name e = elim (Option-cases (read_last entries name)) [
    | inl absent ↦ absent
    | inr (content, there) ↦ absurd (true≢false (sym (listed entries name there) ∙ e))
  ]

  abbrev Answers : List (List ℕ) → Type 0
  Answers asked = Reports size entries asked (version_in size entries asked)

  -- A round of the loop on a name that the archive has.
  searched :
      (name : List ℕ) (asked : List (List ℕ)) (content : Outcome (List ℕ))
      → is_in name (names entries) ≡ true
      → read_last entries name ≡ some content
      → Answers asked
      → Answers (name ∷ asked)
  unfolding version_in
  searched name asked (err x) e there r = rw (e, read_eq name (err x) there) (unreadable there)
  searched name asked (ok content) e there r =
      let finds =
        search_re-Finds decimal_digit version_form version_form-EndsIn (take size content) in
      elim (Option-cases (search_re version_form (take size content))) [
        | inr (version, k) ↦ rw (e, read_eq name (ok content) there, k) (here there (rw k at finds))
        | inl k ↦ rw (e, read_eq name (ok content) there, k) (past there (rw k at finds) r)
      ]

  version_in-Reports : (asked : List (List ℕ)) → Answers asked
  unfolding version_in
  version_in-Reports [] = nowhere
  version_in-Reports (name ∷ asked) =
      let r = version_in-Reports asked in
      elim (Bool-cases (is_in name (names entries))) [
        | inr e ↦ rw e (missing (unlisted name e) r)
        | inl e ↦
            let (content, there) = read-total entries name e in
            searched name asked content e there r
      ]

-- The entries that are asked for.
abbrev pub version_entries : List (List ℕ)
version_entries =
    codes "assets/bin/Data/globalgamemanagers"
    ∷ (codes "assets/bin/Data/data.unity3d"
        ∷ (codes "assets/bin/Data/Resources/unity default resources" ∷ []))

-- `unity_version` answers with the first version, as long as its digits go on, in the first 4 MiB of
-- the first of globalgamemanagers, data.unity3d and unity default resources that has one, or that none
-- of those in the archive has one. It raises the error of the first of them that cannot be read, if no
-- earlier one has a version.
pub unity_version-Reports :
    (entries : List ZipEntry) → Reports 4194304 entries version_entries (unity_version entries)
unfolding unity_version
unity_version-Reports entries = version_in-Reports 4194304 entries version_entries
