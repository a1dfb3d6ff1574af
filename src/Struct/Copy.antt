-- ===== src/Struct/Copy.antt =====
-- Blocks of one byte string that are copied into another, in ascending order.
use il2cppapk2ios.Common.{
  ℕ, ◌+◌, ◌-◌, ◌≤◌, ◌≡◌, refl, ◌∙◌, arith, List, [], ◌∷◌, All, length, length-take, length-drop,
  drop,
}
use il2cppapk2ios.Struct.{Bytes, slice, splice}
use il2cppapk2ios.Struct.Laws.{
  length-splice_block, slice-splice_self, slice-splice_below, slice-splice_above,
}

pub record Piece : Type 0 where
  pub to : ℕ
  pub from : ℕ
  pub size : ℕ

-- The bytes that a piece is copied from.
abbrev pub block : Bytes → Piece → Bytes
block bytes p = slice p.from (p.from + p.size) bytes

-- image[to:to + size] = bytes[from:from + size], for one piece after the other
unfoldable pub copy_pieces : Bytes → List Piece → Bytes → Bytes
unfolding slice splice
copy_pieces bytes [] image = image
copy_pieces bytes (p ∷ ps) image =
    copy_pieces bytes ps (splice image p.to (p.to + p.size) (block bytes p))

-- Every piece starts behind the one before it, and the first one not below `start`.
abbrev pub Ascending : ℕ → List Piece → Type 0
Ascending start [] = Unit
Ascending start (p ∷ ps) = (start ≤ p.to) × Ascending (p.to + p.size) ps

-- The image has kept its length and the bytes below `start`, and holds every piece.
pub record Copied (bytes : Bytes) (start : ℕ) (pieces : List Piece) (image image' : Bytes)
    : Type 0 where
  pub same_length : length image' ≡ length image
  pub below : (a b : ℕ) → a ≤ b → b ≤ start → slice a b image' ≡ slice a b image
  pub blocks : All (λ p. slice p.to (p.to + p.size) image' ≡ block bytes p) pieces

pub length-slice :
    (bytes : Bytes) (a b : ℕ) → a ≤ b → b ≤ length bytes → length (slice a b bytes) ≡ b - a
unfolding slice
length-slice bytes a b h k = omega (arith, length-take (b - a) (drop a bytes), length-drop a bytes)

-- `splice` with the width of the block given as a number.
module _ (image new : Bytes) (at n : ℕ) (e : length new ≡ n) (room : at + n ≤ length image) where
  pub length-splice_sized : length (splice image at (at + n) new) ≡ length image
  length-splice_sized = rw (← e) (length-splice_block image new at (omega arith))

  pub slice-splice_whole : slice at (at + n) (splice image at (at + n) new) ≡ new
  slice-splice_whole = rw (← e) (slice-splice_self image new at (omega arith))

  pub slice-splice_before :
      (a b : ℕ) → a ≤ b → b ≤ at → slice a b (splice image at (at + n) new) ≡ slice a b image
  slice-splice_before a b h k = rw (← e) (slice-splice_below image new at (omega arith) a b h k)

  pub slice-splice_after :
      (a b : ℕ) → at + n ≤ a → slice a b (splice image at (at + n) new) ≡ slice a b image
  slice-splice_after a b h =
      rw (← e) (slice-splice_above image new at (omega arith) a b (omega arith))

module _ (bytes : Bytes) (limit : ℕ) where
  pub copy_pieces-Copied :
      (start : ℕ) (pieces : List Piece) (image : Bytes)
      → length image ≡ limit
      → Ascending start pieces
      → All (λ p. p.from + p.size ≤ length bytes) pieces
      → All (λ p. p.to + p.size ≤ limit) pieces
      → Copied bytes start pieces image (copy_pieces bytes pieces image)
  unfolding copy_pieces
  copy_pieces-Copied start [] image n asc source room = record {
    same_length = refl;
    below = λ a b h k. refl;
    blocks = tt;
  }
  copy_pieces-Copied start (p ∷ ps) image n (low, asc) (s, source) (r, room) =
      let e : length (block bytes p) ≡ p.size =
        length-slice bytes p.from (p.from + p.size) (omega arith) s ∙ omega arith in
      let fits : p.to + p.size ≤ length image = omega arith in
      let same = length-splice_sized image (block bytes p) p.to p.size e fits in
      let rest =
        copy_pieces-Copied (p.to + p.size) ps (splice image p.to (p.to + p.size) (block bytes p))
          (same ∙ n) asc source room in
      record {
        same_length = rest.same_length ∙ same;
        below = λ a b h k.
            rest.below a b h (omega arith)
            ∙ slice-splice_before image (block bytes p) p.to p.size e fits a b h (omega arith);
        blocks = (
          rest.below p.to (p.to + p.size) (omega arith) (omega arith)
              ∙ slice-splice_whole image (block bytes p) p.to p.size e fits,
          rest.blocks,
        );
      }
