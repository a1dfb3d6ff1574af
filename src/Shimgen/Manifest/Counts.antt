-- ===== src/Shimgen/Manifest/Counts.antt =====
-- What the counts of the manifest add up to.
use il2cppapk2ios.Elf.{Elf64}
use il2cppapk2ios.Shimgen.{ShimRecord, records}
use il2cppapk2ios.Shimgen.Manifest.{
  category_name, Count, add_count, counter, count_le, sorted_counts, manifest,
}
use il2cppapk2ios.Common.{
  ℕ, ◌+◌, ◌≡◌, refl, ◌∙◌, arith, Bool, List, [], ◌∷◌, if◌then◌else◌, Bool-cases, inl, inr,
}
use il2cppapk2ios.Common.Sort.{insert, sorted}
use il2cppapk2ios.Common.Text.{text_eq, text_eq_iff}

-- The sum of the counts whose key passes a test.
abbrev pub sum_of : (List ℕ → Bool) → List Count → ℕ
sum_of test [] = 0
sum_of test (count ∷ counts) = (if test count.0 then count.1 else 0) + sum_of test counts

-- The number of records whose category passes the test.
abbrev pub number_of : (List ℕ → Bool) → List ShimRecord → ℕ
number_of test [] = 0
number_of test (r ∷ rs) = (if test (category_name r.category) then 1 else 0) + number_of test rs

module _ (test : List ℕ → Bool) where
  sum_of-add_count :
      (name : List ℕ) (counts : List Count)
      → sum_of test (add_count name counts) ≡ (if test name then 1 else 0) + sum_of test counts
  unfolding add_count
  sum_of-add_count name [] = refl
  sum_of-add_count name (count ∷ counts) =
      let rest = sum_of-add_count name counts in
      elim (Bool-cases (text_eq name count.0)) [
        | inl e ↦ let same = (text_eq_iff name count.0).0 e in rw (e, same) (ground arith)
        | inr e ↦ rw e (omega arith)
      ]

  sum_of-counter :
      (rs : List ShimRecord) (counts : List Count)
      → sum_of test (counter rs counts) ≡ number_of test rs + sum_of test counts
  unfolding counter
  sum_of-counter [] counts = omega arith
  sum_of-counter (r ∷ rs) counts = omega (
    arith,
    sum_of-counter rs (add_count (category_name r.category) counts),
    sum_of-add_count (category_name r.category) counts,
  )

  sum_of-insert :
      (count : Count) (counts : List Count)
      → sum_of test (insert count_le count counts) ≡ sum_of test (count ∷ counts)
  unfolding insert
  sum_of-insert count [] = refl
  sum_of-insert count (next ∷ counts) =
      let rest = sum_of-insert count counts in
      elim (Bool-cases (count_le count next)) [ inl e ↦ rw e refl | inr e ↦ rw e (omega arith) ]

  sum_of-sorted : (counts : List Count) → sum_of test (sorted count_le counts) ≡ sum_of test counts
  unfolding sorted
  sum_of-sorted [] = refl
  sum_of-sorted (count ∷ counts) =
      omega (arith, sum_of-insert count (sorted count_le counts), sum_of-sorted counts)

  -- The counts of the categories that pass a test sum up to the number of the imports in them.
  pub sum_of-manifest :
      (source : List ℕ) (elf : Elf64)
      → sum_of test (manifest source elf).counts ≡ number_of test (manifest source elf).imports
  unfolding manifest sorted_counts
  sum_of-manifest source elf =
      sum_of-sorted (counter (records elf) []) ∙ sum_of-counter (records elf) [] ∙ omega arith
