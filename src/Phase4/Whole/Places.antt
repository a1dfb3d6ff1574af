-- ===== src/Phase4/Whole/Places.antt =====
-- Where the parts of phase 3 stand in its file, and what phase4.py writes over its header page.
use native.Mathlib.Nat.{le_trans}
use il2cppapk2ios.Align.{align}
use il2cppapk2ios.Phase3.{Config, ImageSegment}
use il2cppapk2ios.Phase3.Output.{
  linkedit-InOrder, length-splice_front, slice-splice_beyond, IsWrittenOut,
}
use il2cppapk2ios.Phase3.Output.Streams.{HasStreams}
use il2cppapk2ios.Phase3.Translate.{Translation, Linkedit, linkedit}
use il2cppapk2ios.Phase4.Translate.{place_commands}
use il2cppapk2ios.Common.{
  ℕ, ◌+◌, ◌^◌, ◌≤◌, ◌≡◌, sym, ap, ◌∙◌, arith, List, length, length-replicate,
}
use il2cppapk2ios.Common.Outcome.{Outcome, ok, ok-injective}
use il2cppapk2ios.Struct.{Bytes, slice, splice, zeros}

-- Commands that fit into the reserve leave what stands behind it.
module _ (reserve : ℕ) (head bytes : Bytes) (fits : length head ≤ reserve)
    (room : reserve ≤ length bytes) where
  blank_length : length (zeros reserve) ≡ reserve
  blank_length = length-replicate {A = ℕ} reserve 0

  cleared_length : length (splice bytes 0 reserve (zeros reserve)) ≡ length bytes
  cleared_length =
      ap (λ n. length (splice bytes 0 n (zeros reserve))) (sym blank_length)
      ∙ length-splice_front bytes (zeros reserve) (omega (arith, blank_length))

  pub length-place_commands : length (place_commands reserve head bytes) ≡ length bytes
  unfolding place_commands
  length-place_commands =
      length-splice_front (splice bytes 0 reserve (zeros reserve)) head
        (omega (arith, cleared_length))
      ∙ cleared_length

  pub slice-place_commands :
      (start stop : ℕ)
      → reserve ≤ start
      → slice start stop (place_commands reserve head bytes) ≡ slice start stop bytes
  unfolding place_commands
  slice-place_commands start stop low =
      slice-splice_beyond (splice bytes 0 reserve (zeros reserve)) head
        (omega (arith, cleared_length)) start stop (le_trans fits low)
      ∙ ap (λ n. slice start stop (splice bytes 0 n (zeros reserve))) (sym blank_length)
      ∙ slice-splice_beyond bytes (zeros reserve) (omega (arith, blank_length)) start stop
          (omega (arith, blank_length))

-- Where phase 3 has put its parts, in the terms of its own file.
pub record Positions (t : Translation) : Type 0 where
  pub image_first : length t.fixups.image ≤ t.linkedit.fileoff
  pub same_start : t.linkedit.rebase_off ≡ t.linkedit.fileoff
  pub bind_start : align (t.linkedit.fileoff + t.rebase_stream_size) 8 ≡ t.linkedit.bind_off
  pub rebase_end : t.linkedit.fileoff + t.rebase_stream_size ≤ t.linkedit.bind_off
  pub bind_inside : t.linkedit.bind_off + t.bind_stream_size ≤ length t.output

pub streams-Positions :
    (c : Config) (k : ℕ) (segments : List ImageSegment) (t : Translation)
    → c.page_size ≡ 2 ^ k
    → HasStreams c segments t
    → IsWrittenOut c t
    → Positions t
unfolding linkedit
streams-Positions c k segments t page s w =
    let n = length t.fixups.image in
    let r = length s.rebase in
    let b = length s.bind in
    let l = linkedit c segments n r b in
    let order = linkedit-InOrder c k segments n r b page in
    let same = s.placed in
    let off = ap (λ (x : Linkedit). x.fileoff) same in
    let bind_off = ap (λ (x : Linkedit). x.bind_off) same in
    let rebase_off = ap (λ (x : Linkedit). x.rebase_off) same in
    let end = ap (λ (x : Linkedit). x.final_size) same in
    record {
      image_first = rw off order.image_first;
      same_start = rebase_off ∙ sym off;
      bind_start = ap (λ (x : ℕ). align x 8) (omega (arith, off, s.rebase_size)) ∙ sym bind_off;
      rebase_end = rw (off, bind_off, s.rebase_size) order.rebase_next;
      bind_inside = rw (bind_off, s.bind_size, w.size, end) order.bind_last;
    }

-- What is made twice in one way is the same.
pub same_stream : {a b : Bytes} {m : Outcome Bytes} → m ≡ ok a → m ≡ ok b → a ≡ b
same_stream h k = ok-injective (sym h ∙ k)

pub same_size :
    {a b : Bytes} {m : Outcome Bytes} {n : ℕ} → n ≡ length a → m ≡ ok a → m ≡ ok b → length b ≡ n
same_size size h k = ap length (same_stream k h) ∙ sym size
