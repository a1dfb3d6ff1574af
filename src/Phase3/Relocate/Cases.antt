-- ===== src/Phase3/Relocate/Cases.antt =====
-- The ways in which one round of the relocation loop of phase3.py can succeed.
use il2cppapk2ios.Phase3.{Config, ImageSegment, Location, location}
use il2cppapk2ios.Phase3.Fixups.{
  Fixups, fix_relative, fix_import, fix_defined, fix_symbolic, fix_one, aarch64_relative,
  is_symbolic,
}
use il2cppapk2ios.Elf.{shn_undef}
use il2cppapk2ios.Elf.Symbols.{Symbol}
use il2cppapk2ios.Elf.Relocations.{Relocation}
use il2cppapk2ios.Common.{
  ℕ, ◌≡◌, ◌≢◌, arith, List, get_elem?, Option-cases, Bool-cases, inl, inr, some, true,
  if◌then◌else◌, ◌==◌,
}
use il2cppapk2ios.Common.Outcome.{ok, err, >>=-eq-ok, unsupported_relocation}

module _ (c : Config) (symbols : List Symbol) (shim_prefix : List ℕ) (at : Location)
    (rel : Relocation) (st st' : Fixups) where
  -- The branch that a relocation took.
  pub data Branch : Type 0 where
    relative_branch : rel.type ≡ aarch64_relative → fix_relative c at rel st ≡ ok st' → Branch
    import_branch :
        (symbol : Symbol)
        → is_symbolic rel.type ≡ true
        → get_elem? symbols rel.symbol_index ≡ some symbol
        → symbol.shndx ≡ shn_undef
        → fix_import shim_prefix at rel symbol st ≡ ok st'
        → Branch
    defined_branch :
        (symbol : Symbol)
        → is_symbolic rel.type ≡ true
        → get_elem? symbols rel.symbol_index ≡ some symbol
        → symbol.shndx ≢ shn_undef
        → fix_defined c at rel symbol st ≡ ok st'
        → Branch

  symbol_branch :
      (symbol : Symbol)
      → is_symbolic rel.type ≡ true
      → get_elem? symbols rel.symbol_index ≡ some symbol
      → (if symbol.shndx == shn_undef
          then fix_import shim_prefix at rel symbol st
          else fix_defined c at rel symbol st)
        ≡ ok st'
      → Branch
  symbol_branch symbol s e h = elim (Bool-cases (symbol.shndx == shn_undef)) [
    | inl u ↦ import_branch symbol s e (ground arith) (rw u at h)
    | inr d ↦ defined_branch symbol s e (ground arith) (rw d at h)
  ]

  symbolic_branch :
      is_symbolic rel.type ≡ true → fix_symbolic c symbols shim_prefix at rel st ≡ ok st' → Branch
  unfolding fix_symbolic
  symbolic_branch s h = elim (Option-cases (get_elem? symbols rel.symbol_index)) [
    | inl e ↦ absurd (cc (rw (e, fix_symbolic) at h))
    | inr (symbol, e) ↦ symbol_branch symbol s e (rw (e, fix_symbolic) at h)
  ]

  located_branch :
      (if rel.type == aarch64_relative
          then fix_relative c at rel st
          else if is_symbolic rel.type
          then fix_symbolic c symbols shim_prefix at rel st
          else err (unsupported_relocation rel.type rel.offset))
        ≡ ok st'
      → Branch
  located_branch h = elim (Bool-cases (rel.type == aarch64_relative)) [
    | inl r ↦ relative_branch (ground arith) (rw r at h)
    | inr n ↦ elim (Bool-cases (is_symbolic rel.type)) [
      | inl s ↦ symbolic_branch s (rw (n, s) at h)
      | inr t ↦ absurd (cc (rw (n, t) at h))
    ]
  ]

-- A round that succeeds has found the place of its relocation and has taken a branch.
pub fix_one-inv :
    (c : Config) (segs : List ImageSegment) (symbols : List Symbol) (shim_prefix : List ℕ)
    (rel : Relocation) (st st' : Fixups)
    → fix_one c segs symbols shim_prefix rel st ≡ ok st'
    → (at : Location) × (location c segs rel.offset ≡ ok at)
      × Branch c symbols shim_prefix at rel st st'
unfolding fix_one
fix_one-inv c segs symbols shim_prefix rel st st' h =
    let (at, e, e') = >>=-eq-ok (location c segs rel.offset) _ h in
    (at, e, located_branch c symbols shim_prefix at rel st st' e')
