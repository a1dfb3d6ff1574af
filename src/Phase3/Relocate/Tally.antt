-- ===== src/Phase3/Relocate/Tally.antt =====
-- The loop accounts for every relocation, and never changes the length of the image.
use il2cppapk2ios.Phase3.{Config, ImageSegment, Location}
use il2cppapk2ios.Phase3.Fixups.{
  Fixups, Patched, patch, fix_relative, fix_import, fix_defined, fix_one, fix_all, unpack_word,
  count_relative, count_internal, abs64,
}
use il2cppapk2ios.Phase3.Relocate.Cases.{
  Branch, relative_branch, import_branch, defined_branch, fix_one-inv,
}
use il2cppapk2ios.Elf.Symbols.{Symbol}
use il2cppapk2ios.Elf.Relocations.{Relocation}
use il2cppapk2ios.Common.{
  ℕ, ◌+◌, ◌≡◌, refl, arith, List, [], ◌∷◌, length, length-append, if◌then◌else◌, ◌==◌,
}
use il2cppapk2ios.Common.Int.{ℤ, wrap64}
use il2cppapk2ios.Common.Outcome.{ok, ok-injective, >>=-eq-ok}
use il2cppapk2ios.Struct.{pack_into}
use il2cppapk2ios.Struct.Laws.{length-pack_into}

-- The sum of the four counters: `patched_total`.
abbrev pub total : Patched → ℕ
total p = p.relative + p.internal_abs64 + p.internal_glob_dat + p.internal_jump_slot

-- From one state to a later one: the image has kept its length, `count` relocations have been
-- recorded, and each rebase has been counted.
pub record Accounts (count : ℕ) (st st' : Fixups) : Type 0 where
  pub same_length : length st'.image ≡ length st.image
  pub recorded :
      length st'.rebases + length st'.bindings ≡ count + length st.rebases + length st.bindings
  pub counted : length st'.rebases + total st.patched ≡ length st.rebases + total st'.patched

patch-inv :
    (at : Location) (value : ℤ) (patched : Patched) (st st' : Fixups)
    → patch at value patched st ≡ ok st'
    → (length st'.image ≡ length st.image)
      × (length st'.rebases ≡ length st.rebases + 1)
      × (st'.bindings ≡ st.bindings)
      × (st'.patched ≡ patched)
unfolding patch
patch-inv at value patched st st' h =
    let (image, e, e') = >>=-eq-ok (pack_into st.image at.output_offset (wrap64 value)) _ h in
    let n = length-append st.rebases ((at.segment_index, at.segment_offset) ∷ []) in
    rw (← ok-injective e')
      (length-pack_into st.image image at.output_offset (wrap64 value) e, n, refl, refl)

pub total-count_internal : (type : ℕ) (p : Patched) → total (count_internal type p) ≡ total p + 1
total-count_internal type p = ground arith

module _ (c : Config) (shim_prefix : List ℕ) (at : Location) (rel : Relocation)
    (st st' : Fixups) where
  patch-Accounts :
      (value : ℤ) (patched : Patched)
      → total patched ≡ total st.patched + 1
      → patch at value patched st ≡ ok st'
      → Accounts 1 st st'
  patch-Accounts value patched t h =
      let (a, b, d, e) = patch-inv at value patched st st' h in
      record {
        same_length = a;
        recorded = rw d (omega (arith, b));
        counted = rw e (omega (arith, b, t));
      }

  relative-Accounts : fix_relative c at rel st ≡ ok st' → Accounts 1 st st'
  unfolding fix_relative
  relative-Accounts h = patch-Accounts _ (count_relative st.patched) (omega arith) h

  import-Accounts :
      (symbol : Symbol) → fix_import shim_prefix at rel symbol st ≡ ok st' → Accounts 1 st st'
  unfolding fix_import
  import-Accounts symbol h =
      let (existing, e, e') = >>=-eq-ok (unpack_word st.image at.output_offset) _ h in
      rw (← ok-injective e') (record {
        same_length = refl;
        recorded = rw length-append (omega arith);
        counted = omega arith;
      })

  defined-Accounts : (symbol : Symbol) → fix_defined c at rel symbol st ≡ ok st' → Accounts 1 st st'
  unfolding fix_defined
  defined-Accounts symbol h =
      let (existing, e, e') =
        >>=-eq-ok (if rel.type == abs64 then unpack_word st.image at.output_offset else ok 0) _ h in
      patch-Accounts _ (count_internal rel.type st.patched)
        (total-count_internal rel.type st.patched) e'

module _ (c : Config) (segs : List ImageSegment) (symbols : List Symbol)
    (shim_prefix : List ℕ) where
  branch-Accounts :
      (at : Location) (rel : Relocation) (st st' : Fixups)
      → Branch c symbols shim_prefix at rel st st'
      → Accounts 1 st st'
  branch-Accounts at rel st st' (relative_branch _ h) =
      relative-Accounts c shim_prefix at rel st st' h
  branch-Accounts at rel st st' (import_branch symbol _ _ _ h) =
      import-Accounts c shim_prefix at rel st st' symbol h
  branch-Accounts at rel st st' (defined_branch symbol _ _ _ h) =
      defined-Accounts c shim_prefix at rel st st' symbol h

  pub one-Accounts :
      (rel : Relocation) (st st' : Fixups)
      → fix_one c segs symbols shim_prefix rel st ≡ ok st'
      → Accounts 1 st st'
  one-Accounts rel st st' h =
      let (at, _, b) = fix_one-inv c segs symbols shim_prefix rel st st' h in
      branch-Accounts at rel st st' b

  -- When the loop ends without an error, every relocation has become exactly one rebase or one
  -- binding, the four counters have grown by the number of rebases, and the image is as long as
  -- before.
  pub fix_all-Accounts :
      (rels : List Relocation) (st st' : Fixups)
      → fix_all c segs symbols shim_prefix rels st ≡ ok st'
      → Accounts (length rels) st st'
  unfolding fix_all
  fix_all-Accounts [] st st' h =
      rw (← ok-injective h) (record { same_length = refl; recorded = omega arith; counted = refl })
  fix_all-Accounts (rel ∷ rels) st st' h =
      let (next, e, e') = >>=-eq-ok (fix_one c segs symbols shim_prefix rel st) _ h in
      let one = one-Accounts rel st next e in
      let more = fix_all-Accounts rels next st' e' in
      record {
        same_length = omega (arith, one, more);
        recorded = omega (arith, one, more);
        counted = omega (arith, one, more);
      }
