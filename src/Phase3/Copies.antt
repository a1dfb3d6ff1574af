-- ===== src/Phase3/Copies.antt =====
-- The image of src/il2cppapk2ios/phase3.py before the relocation loop holds the data of every segment.
use il2cppapk2ios.Align.{align}
use il2cppapk2ios.Align.Bounds.{align_least}
use il2cppapk2ios.Elf.{Elf64}
use il2cppapk2ios.Phase3.{Config, ImageSegment}
use il2cppapk2ios.Phase3.Layout.{IsPlaced, FileOrdered}
use il2cppapk2ios.Phase3.Translate.{data_end, max_of, copy_segments, start_fixups}
use il2cppapk2ios.Common.{
  ℕ, ◌+◌, ◌^◌, ◌≤◌, ◌≡◌, refl, ◌∙◌, arith, List, [], ◌∷◌, All, length, map, length-replicate,
}
use il2cppapk2ios.Struct.{Bytes, slice, zeros}
use il2cppapk2ios.Struct.Copy.{Piece, copy_pieces, Ascending, copy_pieces-Copied, block}

abbrev piece : ImageSegment → Piece
piece seg = record { to = seg.data_fileoff; from = seg.elf_offset; size = seg.elf_filesz }

-- The data of a segment stand in the image as they stand in the file.
abbrev pub IsCopied : Bytes → Bytes → ImageSegment → Type 0
IsCopied bytes image seg =
    slice seg.data_fileoff (seg.data_fileoff + seg.elf_filesz) image
    ≡ slice seg.elf_offset (seg.elf_offset + seg.elf_filesz) bytes

copy_segments-pieces :
    (bytes : Bytes) (segs : List ImageSegment) (image : Bytes)
    → copy_segments bytes segs image ≡ copy_pieces bytes (map piece segs) image
unfolding copy_segments copy_pieces
copy_segments-pieces bytes [] image = refl
copy_segments-pieces bytes (seg ∷ segs) image = copy_segments-pieces bytes segs _

pieces-Ascending :
    (c : Config) (segs : List ImageSegment) (start : ℕ)
    → All (IsPlaced c) segs
    → FileOrdered start segs
    → Ascending start (map piece segs)
pieces-Ascending c [] start ps os = tt
pieces-Ascending c (seg ∷ segs) start (p, ps) (o, os) =
    let e : seg.data_fileoff + seg.elf_filesz ≡ seg.fileoff + seg.filesize = p.fills_file in
    (
      omega (arith, p.starts_below),
      rw e (pieces-Ascending c segs (seg.fileoff + seg.filesize) ps os),
    )

sources :
    (bytes : Bytes) (segs : List ImageSegment)
    → All (λ seg. seg.elf_offset + seg.elf_filesz ≤ length bytes) segs
    → All (λ p. p.from + p.size ≤ length bytes) (map piece segs)
sources bytes [] hs = tt
sources bytes (seg ∷ segs) (h, hs) = (h, sources bytes segs hs)

module _ (c : Config) (k : ℕ) (page : c.page_size ≡ 2 ^ k) where
  rooms :
      (limit : ℕ) (segs : List ImageSegment)
      → data_end c segs ≤ limit
      → All (IsPlaced c) segs
      → All (λ p. p.to + p.size ≤ limit) (map piece segs)
  unfolding data_end max_of
  rooms limit [] h ps = tt
  rooms limit (seg ∷ segs) h (p, ps) =
      let up : seg.fileoff + seg.filesize ≤ align (seg.fileoff + seg.filesize) c.page_size =
        rw page (align_least k (seg.fileoff + seg.filesize)).1 in
      (omega (arith, p.fills_file), rooms limit segs (omega arith) ps)

  -- With a page size 2 ^ k, in a layout whose segments are placed and ordered, and whose data the file
  -- holds whole, the image before the relocation loop has the length of the layout and holds the data of every
  -- segment.
  pub start_fixups-IsCopied :
      (elf : Elf64) (segs : List ImageSegment)
      → All (IsPlaced c) segs
      → FileOrdered 0 segs
      → All (λ seg. seg.elf_offset + seg.elf_filesz ≤ length elf.bytes) segs
      → (length (start_fixups c elf segs).image ≡ data_end c segs)
        × All (IsCopied elf.bytes (start_fixups c elf segs).image) segs
  unfolding start_fixups
  start_fixups-IsCopied elf segs ps os hs =
      let zero_length : length (zeros (data_end c segs)) ≡ data_end c segs = length-replicate _ _ in
      let done =
        copy_pieces-Copied elf.bytes (data_end c segs) 0 (map piece segs) (zeros (data_end c segs))
          zero_length (pieces-Ascending c segs 0 ps os) (sources elf.bytes segs hs)
          (rooms (data_end c segs) segs (omega arith) ps) in
      rw (copy_segments-pieces elf.bytes segs (zeros (data_end c segs)))
        (done.same_length ∙ zero_length, back segs _ done.blocks)
    where
      back :
          (segs : List ImageSegment) (image : Bytes)
          → All (λ p. slice p.to (p.to + p.size) image ≡ block elf.bytes p) (map piece segs)
          → All (IsCopied elf.bytes image) segs
      back [] image hs = tt
      back (seg ∷ segs) image (h, hs) = (h, back segs image hs)
