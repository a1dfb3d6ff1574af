-- ===== src/Phase3/Output/Named.antt =====
-- The streams in the file of phase3.py, at the offsets that a loader reads from the file.
use il2cppapk2ios.Align.{align}
use il2cppapk2ios.Macho.DyldInfo.{NamesStreams}
use il2cppapk2ios.Elf.{Elf64}
use il2cppapk2ios.Phase3.{Config, ImageSegment}
use il2cppapk2ios.Phase3.Commands.{
  segment_no_sections, dylib_command, build_version_command, dyld_info_command,
}
use il2cppapk2ios.Phase3.Loadable.{translate-IsLoadable}
use il2cppapk2ios.Phase3.Named.{Finds, commands-Finds, Finds-NamesStreams}
use il2cppapk2ios.Phase3.Output.{HoldsStream, IsWrittenOut, translate-IsWrittenOut}
use il2cppapk2ios.Phase3.Output.Streams.{translate-HasStreams}
use il2cppapk2ios.Phase3.Streams.{rebase_stream, bind_stream}
use il2cppapk2ios.Phase3.Translate.{
  Options, Translation, Linkedit, translate, segment_commands, commands,
}
use il2cppapk2ios.Common.{ℕ, ◌^◌, ◌≤◌, ◌≡◌, refl, sym, ap, ◌∙◌, List, [], length}
use il2cppapk2ios.Common.Outcome.{ok, ok-injective, >>=-eq-ok}
use il2cppapk2ios.Common.Text.{codes}
use il2cppapk2ios.Struct.{Bytes, slice}

dylib_commands-Finds :
    (c : Config) (o : Options) (segs : List ImageSegment) (l : Linkedit) (rebase_size bind_size : ℕ)
    (cs : List Bytes)
    → commands c o segs l rebase_size bind_size ≡ ok cs
    → Finds o l.rebase_off rebase_size l.bind_off bind_size 0 0 cs
unfolding commands
dylib_commands-Finds c o segs l rebase_size bind_size cs h =
    let (list, e1, h1) = >>=-eq-ok (segment_commands segs) _ h in
    let size = align l.size c.page_size in
    let name = codes "__LINKEDIT" in
    let (link, e2, h2) =
      >>=-eq-ok (segment_no_sections name l.vmaddr size l.fileoff l.size 1) _ h1 in
    let (load, e3, h3) = >>=-eq-ok (dylib_command 0x0C o.shim_install_name) _ h2 in
    let (id, e4, h4) = >>=-eq-ok (dylib_command 0x0D o.install_name) _ h3 in
    let (version, e5, h5) = >>=-eq-ok (build_version_command o.min_ios) _ h4 in
    let (info, e6, h6) =
      >>=-eq-ok (dyld_info_command l.rebase_off rebase_size l.bind_off bind_size 0 0) _ h5 in
    rw (← ok-injective h6) (
      commands-Finds o l.rebase_off rebase_size l.bind_off bind_size 0 0 segs name l.vmaddr size
        l.fileoff l.size 1 list link load id version info [] e1 e2 e3 e4 e5 e6)

nothing : (file : Bytes) → HoldsStream (ok []) 0 file
unfolding slice
nothing file = ([], refl, refl)

-- With the header reserve inside the image and a page size 2 ^ k, a translation that succeeds has
-- left the image as it was behind the reserve, and the LC_DYLD_INFO_ONLY that a loader reads from the
-- file gives the offset and the size of the rebase stream and of the bind stream in it, and no exports.
pub translate-NamesStreams :
    (c : Config) (k : ℕ) (o : Options) (elf : Elf64) (segments : List ImageSegment)
    (t : Translation)
    → c.page_size ≡ 2 ^ k
    → translate c o elf segments ≡ ok t
    → c.header_reserve ≤ length t.fixups.image
    → IsWrittenOut c t
      × NamesStreams
          (rebase_stream t.fixups.rebases)
          (bind_stream 1 t.fixups.bindings)
          (ok [])
          t.output
translate-NamesStreams c k o elf segments t page h inside =
    let written = translate-IsWrittenOut c k o elf segments t page h inside in
    let s = translate-HasStreams c o elf segments t h in
    let (cs, made, read) = translate-IsLoadable c o elf segments t h in
    let l = t.linkedit in
    let found =
      dylib_commands-Finds c o segments l t.rebase_stream_size t.bind_stream_size cs made in
    (
      written,
      Finds-NamesStreams o l.rebase_off t.rebase_stream_size l.bind_off t.bind_stream_size 0 0 cs
          (rebase_stream t.fixups.rebases) (bind_stream 1 t.fixups.bindings) (ok []) t.output read
          found written.rebase_there
          (λ x m. s.rebase_size ∙ ap length (ok-injective (sym s.rebase_made ∙ m)))
          written.bind_there (λ x m. s.bind_size ∙ ap length (ok-injective (sym s.bind_made ∙ m)))
          (nothing t.output) (λ x m. ap length (ok-injective m)),
    )
