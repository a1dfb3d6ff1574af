-- ===== src/Phase3/Output.antt =====
-- The file that phase3.py writes: what the relocation loop left, the two streams, and the header.
pub mod Streams
pub mod Named
use mathlib.Core.Path.{subst}
use native.Mathlib.Nat.{le_trans}
use il2cppapk2ios.Align.{align}
use il2cppapk2ios.Align.Bounds.{align_least}
use il2cppapk2ios.Elf.{Elf64}
use il2cppapk2ios.Elf.Symbols.{dynamic_symbols}
use il2cppapk2ios.Elf.Relocations.{relocations}
use il2cppapk2ios.Phase3.{Config, ImageSegment}
use il2cppapk2ios.Phase3.Commands.{mach_header}
use il2cppapk2ios.Phase3.Fixups.{fix_all}
use il2cppapk2ios.Phase3.Streams.{rebase_stream, bind_stream}
use il2cppapk2ios.Phase3.Translate.{
  Options, Translation, Linkedit, linkedit, translate, commands, header_and_commands, place_parts,
  start_fixups, join,
}
use il2cppapk2ios.Common.{
  ℕ, ◌+◌, ◌-◌, ◌^◌, ◌≤◌, ◌≡◌, refl, sym, ap, ◌∙◌, arith, ltb, List, ◌++◌, length, length-append,
  length-replicate, Bool-cases, inl, inr, take, drop, max, length-drop,
}
use il2cppapk2ios.Common.Outcome.{Outcome, ok, ok-injective, >>=-eq-ok}
use il2cppapk2ios.Struct.{Bytes, slice, splice, zeros}
use il2cppapk2ios.Struct.Laws.{length-splice, drop-append_le, take-append_le}
use il2cppapk2ios.Struct.Copy.{
  length-splice_sized, slice-splice_whole, slice-splice_before, slice-splice_after,
}

-- The header and its commands fit into the reserve.
pub header_and_commands-le :
    (reserve : ℕ) (cs : List Bytes) (head : Bytes)
    → header_and_commands reserve cs ≡ ok head
    → length head ≤ reserve
unfolding header_and_commands
header_and_commands-le reserve cs head h =
    let (header, eh, e) = >>=-eq-ok (mach_header (length cs) (length (join cs))) _ h in
    elim (Bool-cases (ltb reserve (length header + length (join cs)))) [
      | inl over ↦ absurd (cc (rw over at e))
      | inr fits ↦
          let whole : header ++ join cs ≡ head = ok-injective (rw fits at e) in
          let total : length head ≡ length header + length (join cs) =
            ap length (sym whole) ∙ length-append header (join cs) in
          ground arith
    ]

-- The places of the parts in the file, for a page size that is a power of two.
pub record InOrder (l : Linkedit) (image_size rebase_size bind_size : ℕ) : Type 0 where
  pub image_first : image_size ≤ l.rebase_off
  pub rebase_next : l.rebase_off + rebase_size ≤ l.bind_off
  pub bind_last : l.bind_off + bind_size ≤ l.final_size

pub linkedit-InOrder :
    (c : Config) (k : ℕ) (segs : List ImageSegment) (image_size rebase_size bind_size : ℕ)
    → c.page_size ≡ 2 ^ k
    → InOrder (linkedit c segs image_size rebase_size bind_size) image_size rebase_size bind_size
unfolding linkedit
linkedit-InOrder c k segs image_size rebase_size bind_size page =
    let up : (v : ℕ) → v ≤ align v c.page_size = λ v. rw page ((align_least k v).1) in
    let fileoff = align image_size c.page_size in
    let (_, eight, _, _) = align_least 3 (fileoff + rebase_size) in
    let bind_off = align (fileoff + rebase_size) 8 in
    record {
      image_first = up image_size;
      rebase_next = eight;
      bind_last = omega (arith, eight, up (fileoff + (bind_off - fileoff + bind_size)));
    }

-- A block at the start of an image, with room for it.
module _ (image new : Bytes) (room : length new ≤ length image) where
  pub length-splice_front : length (splice image 0 (length new) new) ≡ length image
  length-splice_front = length-splice image 0 (length new) new (omega arith) room (omega arith)

  slice-splice_inside :
      (start stop : ℕ)
      → start ≤ stop
      → stop ≤ length new
      → slice start stop (splice image 0 (length new) new) ≡ slice start stop new
  unfolding slice splice
  slice-splice_inside start stop h k =
      ap (take (stop - start))
        (drop-append_le new (drop (max 0 (length new)) image) start (omega arith))
      ∙ take-append_le (drop start new) (drop (max 0 (length new)) image) (stop - start)
          (omega (arith, length-drop start new))

  pub slice-splice_beyond :
      (start stop : ℕ)
      → length new ≤ start
      → slice start stop (splice image 0 (length new) new) ≡ slice start stop image
  slice-splice_beyond start stop h =
      let e : length new ≡ 0 + length new = omega arith in
      ap (λ m. slice start stop (splice image 0 m new)) e
      ∙ slice-splice_after image new 0 (length new) refl (omega arith) start stop (omega arith)

-- The parts in the file before the header is written.
record Holding (l : Linkedit) (image rebase bind file : Bytes) : Type 0 where
  size : length file ≡ l.final_size
  image_kept :
      (start stop : ℕ)
      → start ≤ stop
      → stop ≤ length image
      → slice start stop file ≡ slice start stop image
  rebase_there : slice l.rebase_off (l.rebase_off + length rebase) file ≡ rebase
  bind_there : slice l.bind_off (l.bind_off + length bind) file ≡ bind

place_parts-Holding :
    (l : Linkedit) (image rebase bind : Bytes)
    → InOrder l (length image) (length rebase) (length bind)
    → Holding l image rebase bind (place_parts l image rebase bind)
unfolding place_parts
place_parts-Holding l image rebase bind p =
    let n = length image in
    let r = length rebase in
    let b = length bind in
    let base = zeros l.final_size in
    let base_length : length base ≡ l.final_size = length-replicate _ _ in
    let room : n ≤ length base = omega (arith, p) in
    let blank = splice base 0 n image in
    let blank_length = length-splice_front base image room in
    let room_r : l.rebase_off + r ≤ length blank = omega (arith, p) in
    let rebased = splice blank l.rebase_off (l.rebase_off + r) rebase in
    let rebased_length = length-splice_sized blank rebase l.rebase_off r refl room_r in
    let room_b : l.bind_off + b ≤ length rebased = omega (arith, p) in
    let bound_length = length-splice_sized rebased bind l.bind_off b refl room_b in
    record {
      size = bound_length ∙ rebased_length ∙ blank_length ∙ base_length;
      image_kept = λ start stop h k.
          slice-splice_before rebased bind l.bind_off b refl room_b start stop h (omega (arith, p))
          ∙ slice-splice_before blank rebase l.rebase_off r refl room_r start stop h
              (omega (arith, p))
          ∙ slice-splice_inside base image room start stop h k;
      rebase_there =
          slice-splice_before rebased bind l.bind_off b refl room_b l.rebase_off (l.rebase_off + r)
            (omega arith) (omega (arith, p))
          ∙ slice-splice_whole blank rebase l.rebase_off r refl room_r;
      bind_there = slice-splice_whole rebased bind l.bind_off b refl room_b;
    }

-- The header that is written over the start leaves the parts alone.
header_first :
    (l : Linkedit) (image rebase bind head file : Bytes)
    → Holding l image rebase bind file
    → InOrder l (length image) (length rebase) (length bind)
    → length head ≤ length image
    → (length (splice file 0 (length head) head) ≡ l.final_size)
      × ((start stop : ℕ)
          → length head ≤ start
          → slice start stop (splice file 0 (length head) head) ≡ slice start stop file)
      × (slice l.rebase_off (l.rebase_off + length rebase) (splice file 0 (length head) head)
          ≡ rebase)
      × (slice l.bind_off (l.bind_off + length bind) (splice file 0 (length head) head) ≡ bind)
header_first l image rebase bind head file held order fits =
    let room : length head ≤ length file = omega (arith, held.size, order) in
    let beyond = slice-splice_beyond file head room in
    let before_rebase : length head ≤ l.rebase_off = omega (arith, order) in
    let before_bind : length head ≤ l.bind_off = omega (arith, order) in
    (
      length-splice_front file head room ∙ held.size,
      beyond,
      beyond l.rebase_off (l.rebase_off + length rebase) before_rebase ∙ held.rebase_there,
      beyond l.bind_off (l.bind_off + length bind) before_bind ∙ held.bind_there,
    )

-- A stream has been made, and is in the file at an offset.
abbrev pub HoldsStream : Outcome Bytes → ℕ → Bytes → Type 0
HoldsStream made at file =
    (stream : Bytes) × (made ≡ ok stream) × (slice at (at + length stream) file ≡ stream)

-- What a translation that succeeds has written.
pub record IsWrittenOut (c : Config) (t : Translation) : Type 0 where
  pub size : length t.output ≡ t.linkedit.final_size
  pub image_kept :
      (start stop : ℕ)
      → c.header_reserve ≤ start
      → start ≤ stop
      → stop ≤ length t.fixups.image
      → slice start stop t.output ≡ slice start stop t.fixups.image
  pub rebase_there : HoldsStream (rebase_stream t.fixups.rebases) t.linkedit.rebase_off t.output
  pub bind_there : HoldsStream (bind_stream 1 t.fixups.bindings) t.linkedit.bind_off t.output

-- With the header reserve inside the image and a page size 2 ^ k, a translation that succeeds has
-- left the image as it was behind the reserve, and has the two streams at the offsets of its
-- `linkedit`.
pub translate-IsWrittenOut :
    (c : Config) (k : ℕ) (o : Options) (elf : Elf64) (segments : List ImageSegment)
    (t : Translation)
    → c.page_size ≡ 2 ^ k
    → translate c o elf segments ≡ ok t
    → c.header_reserve ≤ length t.fixups.image
    → IsWrittenOut c t
unfolding translate
translate-IsWrittenOut c k o elf segments t page h inside =
    let (done, ed, h1) =
      >>=-eq-ok
        (fix_all c segments (dynamic_symbols elf) o.shim_prefix (relocations elf)
          (start_fixups c elf segments))
        _ h in
    let (rebase, er, h2) = >>=-eq-ok (rebase_stream done.rebases) _ h1 in
    let (bind, eb, h3) = >>=-eq-ok (bind_stream 1 done.bindings) _ h2 in
    let l = linkedit c segments (length done.image) (length rebase) (length bind) in
    let (cs, ec, h4) = >>=-eq-ok (commands c o segments l (length rebase) (length bind)) _ h3 in
    let (head, eh, h5) = >>=-eq-ok (header_and_commands c.header_reserve cs) _ h4 in
    let same = ok-injective h5 in
    let reserve : c.header_reserve ≤ length done.image = rw (← same) at inside in
    let order =
      linkedit-InOrder c k segments (length done.image) (length rebase) (length bind) page in
    let file = place_parts l done.image rebase bind in
    let held = place_parts-Holding l done.image rebase bind order in
    let fits = header_and_commands-le c.header_reserve cs head eh in
    let output = splice file 0 (length head) head in
    let inside_image : length head ≤ length done.image = le_trans fits reserve in
    let (size, beyond, rebase_at, bind_at) =
      header_first l done.image rebase bind head file held order inside_image in
    rw (← same) (record {
      size = size;
      image_kept = λ start stop low h m.
          beyond start stop (le_trans fits low) ∙ held.image_kept start stop h m;
      rebase_there = (rebase, er, rebase_at);
      bind_there = (bind, eb, bind_at);
    })
