-- ===== src/Phase4/Contiguous.antt =====
-- The file that phase4.py leaves for codesign: segments without gaps, and __LINKEDIT up to the end.
use il2cppapk2ios.Phase3.{ImageSegment}
use il2cppapk2ios.Phase4.Translate.{stretch, command_segments}
use il2cppapk2ios.Common.{
  ℕ, ◌+◌, ◌-◌, ◌≤◌, ◌≡◌, refl, sym, ap, ◌∙◌, arith, ltb, ◌||◌, List, [], ◌∷◌, map, false,
}
use il2cppapk2ios.Common.Outcome.{ok}

-- Every segment ends where the next one starts, in the file and in memory, and the last one where
-- __LINKEDIT does.
abbrev pub Contiguous : List ImageSegment → ℕ → ℕ → Type 0
Contiguous [] fileoff vmaddr = Unit
Contiguous (seg ∷ []) fileoff vmaddr =
    (seg.fileoff + seg.filesize ≡ fileoff) × (seg.vmaddr + seg.vmsize ≡ vmaddr)
Contiguous (seg ∷ (next ∷ segs)) fileoff vmaddr =
    (seg.fileoff + seg.filesize ≡ next.fileoff)
    × (seg.vmaddr + seg.vmsize ≡ next.vmaddr)
    × Contiguous (next ∷ segs) fileoff vmaddr

-- A segment without its two sizes.
abbrev pub unsized : ImageSegment → ImageSegment
unsized seg = record seg { filesize = 0; vmsize = 0 }

-- Segments in ascending order up to __LINKEDIT, in the file and in memory.
abbrev pub Ascends : List ImageSegment → ℕ → ℕ → Type 0
Ascends [] fileoff vmaddr = Unit
Ascends (seg ∷ []) fileoff vmaddr = (seg.fileoff ≤ fileoff) × (seg.vmaddr ≤ vmaddr)
Ascends (seg ∷ (next ∷ segs)) fileoff vmaddr =
    (seg.fileoff ≤ next.fileoff) × (seg.vmaddr ≤ next.vmaddr) × Ascends (next ∷ segs) fileoff vmaddr

abbrev stretched : ImageSegment → ℕ → ℕ → ImageSegment
stretched seg fileoff vmaddr = record seg {
  filesize = fileoff - seg.fileoff;
  vmsize = vmaddr - seg.vmaddr;
}

stretch-ok :
    (seg : ImageSegment) (fileoff vmaddr : ℕ)
    → seg.fileoff ≤ fileoff
    → seg.vmaddr ≤ vmaddr
    → stretch seg fileoff vmaddr ≡ ok (stretched seg fileoff vmaddr)
unfolding stretch
stretch-ok seg fileoff vmaddr h k =
    let quiet : (ltb fileoff seg.fileoff || ltb vmaddr seg.vmaddr) ≡ false = ground arith in
    rw quiet refl

-- Segments in ascending order get commands that leave no gap and differ from the segments in their
-- sizes only.
pub command_segments-Contiguous :
    (segs : List ImageSegment) (fileoff vmaddr : ℕ)
    → Ascends segs fileoff vmaddr
    → (out : List ImageSegment) × (command_segments segs fileoff vmaddr ≡ ok out)
      × Contiguous out fileoff vmaddr
      × (map unsized out ≡ map unsized segs)
unfolding command_segments
command_segments-Contiguous [] fileoff vmaddr h = ([], refl, tt, refl)
command_segments-Contiguous (seg ∷ []) fileoff vmaddr (h, k) =
    rw (stretch-ok seg fileoff vmaddr h k)
      (stretched seg fileoff vmaddr ∷ [], refl, (omega arith, omega arith), refl)
command_segments-Contiguous (seg ∷ (next ∷ segs)) fileoff vmaddr (h, k, more) =
    let this = stretched seg next.fileoff next.vmaddr in
    let (out, e, c, m) = command_segments-Contiguous (next ∷ segs) fileoff vmaddr more in
    rw (stretch-ok seg next.fileoff next.vmaddr h k, e)
      (
        this ∷ out,
        refl,
        joined this next segs out fileoff vmaddr m (omega arith) (omega arith) c,
        ap (λ t. unsized seg ∷ t) m,
      )
  where
    joined :
        (this next : ImageSegment) (segs out : List ImageSegment) (fileoff vmaddr : ℕ)
        → map unsized out ≡ map unsized (next ∷ segs)
        → this.fileoff + this.filesize ≡ next.fileoff
        → this.vmaddr + this.vmsize ≡ next.vmaddr
        → Contiguous out fileoff vmaddr
        → Contiguous (this ∷ out) fileoff vmaddr
    joined this next segs [] fileoff vmaddr m f v c = cc
    joined this next segs (o ∷ out) fileoff vmaddr m f v c =
        let same : unsized o ≡ unsized next = cc in
        (
          f ∙ sym (ap (λ (s : ImageSegment). s.fileoff) same),
          v ∙ sym (ap (λ (s : ImageSegment). s.vmaddr) same),
          c,
        )
