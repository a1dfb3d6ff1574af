-- ===== src/Phase4/Whole.antt =====
-- The whole file of phase4.py: the image of phase 3 behind the header, the three streams of dyld, and
-- the end of __LINKEDIT.
mod Places
use mathlib.Core.Path.{subst}
use native.Mathlib.Nat.{le_trans}
use il2cppapk2ios.Align.{align}
use il2cppapk2ios.Elf.{Elf64}
use il2cppapk2ios.Phase3.{Config, ImageSegment}
use il2cppapk2ios.Phase3.Output.{
  linkedit-InOrder, header_and_commands-le, length-splice_front, slice-splice_beyond, HoldsStream,
  IsWrittenOut, translate-IsWrittenOut,
}
use il2cppapk2ios.Phase3.Output.Streams.{HasStreams, translate-HasStreams}
use il2cppapk2ios.Phase3.Streams.{rebase_stream, bind_stream}
use il2cppapk2ios.Phase3.Translate.{
  Options, Translation, Linkedit, linkedit, translate, header_and_commands,
}
use il2cppapk2ios.Phase4.{exports}
use il2cppapk2ios.Phase4.Ending.{IsFinal, place_exports-IsFinal}
use il2cppapk2ios.Phase4.Trie.{build_export_trie}
use il2cppapk2ios.Phase4.Translate.{
  Linkedit4, linkedit4, place_exports, commands4, place_commands, Phase4Translation,
  translate_phase4,
}
use il2cppapk2ios.Common.{
  ℕ, ◌+◌, ◌^◌, ◌≤◌, ◌≡◌, sym, ap, ◌∙◌, arith, List, length, length-replicate,
}
use il2cppapk2ios.Common.Outcome.{Outcome, ok, ok-injective, >>=-eq-ok}
use il2cppapk2ios.Struct.{Bytes, slice, splice, zeros}
use il2cppapk2ios.Phase4.Whole.Places.{
  length-place_commands, slice-place_commands, Positions, streams-Positions, same_size,
}

pub record IsWhole (c : Config) (elf : Elf64) (t : Phase4Translation) : Type 0 where
  pub ends : length t.output ≡ t.linkedit.fileoff + t.linkedit.size
  pub image_kept :
      (start stop : ℕ)
      → c.header_reserve ≤ start
      → start ≤ stop
      → stop ≤ length t.phase3.fixups.image
      → slice start stop t.output ≡ slice start stop t.phase3.fixups.image
  pub rebase_there : HoldsStream (rebase_stream t.phase3.fixups.rebases) t.linkedit.fileoff t.output
  pub bind_there : HoldsStream (bind_stream 1 t.phase3.fixups.bindings) t.linkedit.bind_off t.output
  pub exports_there : HoldsStream (build_export_trie (exports c elf)) t.linkedit.export_off t.output

-- The file of phase 4 from that of phase 3: the parts stay where they are.
module _ (c : Config) (t : Translation) (stream head : Bytes) (written : IsWrittenOut c t)
    (p : Positions t) (fits : length head ≤ c.header_reserve)
    (reserve : c.header_reserve ≤ length t.fixups.image) where
  abbrev new_linkedit : Linkedit4
  new_linkedit = linkedit4 t.linkedit t.rebase_stream_size t.bind_stream_size (length stream)

  abbrev with_exports : Bytes
  with_exports = place_exports new_linkedit stream t.output

  abbrev file : Bytes
  file = place_commands c.header_reserve head with_exports

  ending :
      IsFinal new_linkedit t.output stream with_exports (t.linkedit.bind_off + t.bind_stream_size)
  ending = rw p.bind_start at (
      place_exports-IsFinal t.linkedit t.rebase_stream_size t.bind_stream_size stream t.output
        (rw p.bind_start p.bind_inside))

  room : c.header_reserve ≤ length with_exports
  unfolding linkedit4
  room =
      let ends : length with_exports ≡ t.linkedit.fileoff + new_linkedit.size = ending.ends in
      let first = p.image_first in omega arith

  -- What phase 3 has put behind the reserve is in the new file.
  kept :
      (start stop : ℕ)
      → c.header_reserve ≤ start
      → start ≤ stop
      → stop ≤ t.linkedit.bind_off + t.bind_stream_size
      → slice start stop file ≡ slice start stop t.output
  kept start stop low h k =
      slice-place_commands c.header_reserve head with_exports fits room start stop low
      ∙ ending.others start stop h k

  -- A stream of phase 3 that lies between the reserve and the end of the bind stream.
  stream_kept :
      (at : ℕ) (part : Bytes)
      → c.header_reserve ≤ at
      → at + length part ≤ t.linkedit.bind_off + t.bind_stream_size
      → slice at (at + length part) t.output ≡ part
      → slice at (at + length part) file ≡ part
  stream_kept at part low h there = kept at (at + length part) low (omega arith) h ∙ there

  rebase_kept :
      (made : Bytes)
      → length made ≡ t.rebase_stream_size
      → slice t.linkedit.rebase_off (t.linkedit.rebase_off + length made) t.output ≡ made
      → slice t.linkedit.fileoff (t.linkedit.fileoff + length made) file ≡ made
  rebase_kept made size there =
      let first = p.image_first in
      let rebase_end = p.rebase_end in
      stream_kept t.linkedit.fileoff made (omega arith) (omega arith)
        (subst (λ n. slice n (n + length made) t.output ≡ made) p.same_start there)

  bind_kept :
      (made : Bytes)
      → length made ≡ t.bind_stream_size
      → slice t.linkedit.bind_off (t.linkedit.bind_off + length made) t.output ≡ made
      → slice t.linkedit.bind_off (t.linkedit.bind_off + length made) file ≡ made
  bind_kept made size there =
      let first = p.image_first in
      let rebase_end = p.rebase_end in
      stream_kept t.linkedit.bind_off made (omega arith) (omega arith) there

  exports_kept :
      slice new_linkedit.export_off (new_linkedit.export_off + length stream) file ≡ stream
  exports_kept =
      slice-place_commands c.header_reserve head with_exports fits room new_linkedit.export_off
        (new_linkedit.export_off + length stream) low
      ∙ ending.exports_there
    where
      low : c.header_reserve ≤ new_linkedit.export_off
      low =
          let first = p.image_first in
          let behind = ending.behind_binds in let rebase_first = p.rebase_end in omega arith

  -- A translation whose file and places are these is whole.
  file-IsWhole :
      (elf : Elf64) (segments : List ImageSegment) (r : Phase4Translation)
      → HasStreams c segments t
      → build_export_trie (exports c elf) ≡ ok stream
      → r.phase3 ≡ t
      → r.linkedit ≡ new_linkedit
      → r.output ≡ file
      → IsWhole c elf r
  unfolding linkedit4
  file-IsWhole elf segments r s made e el eo =
      let first = p.image_first in
      let rebase_end = p.rebase_end in
      record {
        ends =
            rw (eo, el)
              (length-place_commands c.header_reserve head with_exports fits room ∙ ending.ends);
        image_kept =
            rw (eo, e)
              (λ start stop low h k.
                kept start stop low h (omega arith) ∙ written.image_kept start stop low h k);
        rebase_there =
            let (made_stream, m, there) = written.rebase_there in
            rw (eo, el, e)
              (
                made_stream,
                m,
                rebase_kept made_stream (same_size s.rebase_size s.rebase_made m) there,
              );
        bind_there =
            let (made_stream, m, there) = written.bind_there in
            rw (eo, el, e)
              (
                made_stream,
                m,
                subst (λ n. slice n (n + length made_stream) file ≡ made_stream) (sym p.bind_start)
                    (bind_kept made_stream (same_size s.bind_size s.bind_made m) there),
              );
        exports_there = rw (eo, el) (stream, made, exports_kept);
      }

-- With a page size 2 ^ k and the header reserve inside the image, the file of a translation that
-- succeeds ends with __LINKEDIT, is the image of phase 3 behind the reserve, and holds the rebase
-- stream, the bind stream and the export trie at the offsets of its `linkedit`.
pub translate_phase4-IsWhole :
    (c : Config) (k : ℕ) (o : Options) (elf : Elf64) (segments : List ImageSegment)
    (t : Phase4Translation)
    → c.page_size ≡ 2 ^ k
    → translate_phase4 c o elf segments ≡ ok t
    → c.header_reserve ≤ length t.phase3.fixups.image
    → IsWhole c elf t
unfolding translate_phase4 linkedit4
translate_phase4-IsWhole c k o elf segments t page h inside =
    let (t3, e3, h1) = >>=-eq-ok (translate c o elf segments) _ h in
    let (stream, es, h2) = >>=-eq-ok (build_export_trie (exports c elf)) _ h1 in
    let l = linkedit4 t3.linkedit t3.rebase_stream_size t3.bind_stream_size (length stream) in
    let (cs, ec, h3) =
      >>=-eq-ok (commands4 c o segments l t3.rebase_stream_size t3.bind_stream_size (length stream))
        _ h2 in
    let (head, eh, h4) = >>=-eq-ok (header_and_commands c.header_reserve cs) _ h3 in
    let same = ok-injective h4 in
    let reserve : c.header_reserve ≤ length t3.fixups.image = rw (← same) at inside in
    let s = translate-HasStreams c o elf segments t3 e3 in
    let written = translate-IsWrittenOut c k o elf segments t3 page e3 reserve in
    let p = streams-Positions c k segments t3 page s written in
    let fits = header_and_commands-le c.header_reserve cs head eh in
    file-IsWhole c t3 stream head written p fits reserve elf segments t s es
      (ap (λ (r : Phase4Translation). r.phase3) (sym same))
      (ap (λ (r : Phase4Translation). r.linkedit) (sym same))
      (ap (λ (r : Phase4Translation). r.output) (sym same))
