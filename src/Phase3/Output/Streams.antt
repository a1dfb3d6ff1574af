-- ===== src/Phase3/Output/Streams.antt =====
-- What `translate` of phase3.py returns beside the file: the fixups and the two streams.
use il2cppapk2ios.Elf.{Elf64}
use il2cppapk2ios.Elf.Symbols.{dynamic_symbols}
use il2cppapk2ios.Elf.Relocations.{relocations}
use il2cppapk2ios.Phase3.{Config, ImageSegment}
use il2cppapk2ios.Phase3.Fixups.{fix_all}
use il2cppapk2ios.Phase3.Streams.{rebase_stream, bind_stream}
use il2cppapk2ios.Phase3.Translate.{
  Options, Translation, linkedit, translate, commands, header_and_commands, start_fixups,
}
use il2cppapk2ios.Common.{◌≡◌, refl, List, length}
use il2cppapk2ios.Common.Outcome.{ok, ok-injective, >>=-eq-ok}
use il2cppapk2ios.Struct.{Bytes}

-- The streams of a translation that succeeded, with the sizes that its report gives, and where the
-- parts of __LINKEDIT are.
pub record HasStreams (c : Config) (segments : List ImageSegment) (t : Translation) : Type 0 where
  pub rebase : Bytes
  pub bind : Bytes
  pub rebase_made : rebase_stream t.fixups.rebases ≡ ok rebase
  pub bind_made : bind_stream 1 t.fixups.bindings ≡ ok bind
  pub rebase_size : t.rebase_stream_size ≡ length rebase
  pub bind_size : t.bind_stream_size ≡ length bind
  pub placed :
      t.linkedit ≡ linkedit c segments (length t.fixups.image) (length rebase) (length bind)

pub translate-HasStreams :
    (c : Config) (o : Options) (elf : Elf64) (segments : List ImageSegment) (t : Translation)
    → translate c o elf segments ≡ ok t
    → HasStreams c segments t
unfolding translate
translate-HasStreams c o elf segments t h =
    let (done, ed, h1) =
      >>=-eq-ok
        (fix_all c segments (dynamic_symbols elf) o.shim_prefix (relocations elf)
          (start_fixups c elf segments))
        _ h in
    let (rebase, er, h2) = >>=-eq-ok (rebase_stream done.rebases) _ h1 in
    let (bind, eb, h3) = >>=-eq-ok (bind_stream 1 done.bindings) _ h2 in
    let l = linkedit c segments (length done.image) (length rebase) (length bind) in
    let (cs, ec, h4) = >>=-eq-ok (commands c o segments l (length rebase) (length bind)) _ h3 in
    let (head, eh, h5) = >>=-eq-ok (header_and_commands c.header_reserve cs) _ h4 in
    rw (← ok-injective h5) (record {
      rebase = rebase;
      bind = bind;
      rebase_made = er;
      bind_made = eb;
      rebase_size = refl;
      bind_size = refl;
      placed = refl;
    })

-- The fixups of a translation that succeeded are what its relocation loop returned.
pub translate-fixups :
    (c : Config) (o : Options) (elf : Elf64) (segments : List ImageSegment) (t : Translation)
    → translate c o elf segments ≡ ok t
    → fix_all c segments
        (dynamic_symbols elf)
        o.shim_prefix
        (relocations elf)
        (start_fixups c elf segments)
      ≡ ok t.fixups
unfolding translate
translate-fixups c o elf segments t h =
    let start = start_fixups c elf segments in
    let loop = fix_all c segments (dynamic_symbols elf) o.shim_prefix (relocations elf) start in
    let (done, ed, h1) = >>=-eq-ok loop _ h in
    let (rebase, er, h2) = >>=-eq-ok (rebase_stream done.rebases) _ h1 in
    let (bind, eb, h3) = >>=-eq-ok (bind_stream 1 done.bindings) _ h2 in
    let l = linkedit c segments (length done.image) (length rebase) (length bind) in
    let (cs, ec, h4) = >>=-eq-ok (commands c o segments l (length rebase) (length bind)) _ h3 in
    let (head, eh, h5) = >>=-eq-ok (header_and_commands c.header_reserve cs) _ h4 in
    rw (← ok-injective h5) ed
