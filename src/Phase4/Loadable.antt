-- ===== src/Phase4/Loadable.antt =====
-- The load commands in the file of phase4.py, as a loader reads them, and the parts of the file.
use il2cppapk2ios.Align.{align}
use il2cppapk2ios.Macho.Reader.{IsSized, read_load_commands, whole-IsSized}
use il2cppapk2ios.Elf.{Elf64}
use il2cppapk2ios.Phase3.{Config, ImageSegment}
use il2cppapk2ios.Phase3.Commands.{
  dylib_command, segment_no_sections, build_version_command, dyld_info_command,
}
use il2cppapk2ios.Phase3.Loadable.{
  segment_no_sections-IsSized, build_version_command-IsSized, dyld_info_command-IsSized,
  dylib_command-IsSized, segment_commands-IsSized, read-splice_head,
}
use il2cppapk2ios.Phase3.Translate.{Options, translate, segment_commands, header_and_commands}
use il2cppapk2ios.Phase4.{exports}
use il2cppapk2ios.Phase4.Trie.{build_export_trie}
use il2cppapk2ios.Phase4.Translate.{
  Linkedit4, linkedit4, place_exports, command_segments, symtab_command, commands4, place_commands,
  Phase4Translation, translate_phase4,
}
use il2cppapk2ios.Common.{ℕ, ◌≡◌, refl, List, [], ◌∷◌, length, All, All-append, some}
use il2cppapk2ios.Common.Outcome.{ok, ok-injective, >>=-eq-ok}
use il2cppapk2ios.Common.Text.{codes}
use il2cppapk2ios.Struct.{Bytes, splice, zeros}
use il2cppapk2ios.Struct.Pack.{u32}

symtab_command-IsSized : (str_off : ℕ) (c : Bytes) → symtab_command str_off ≡ ok c → IsSized c
unfolding symtab_command
symtab_command-IsSized str_off c h =
    whole-IsSized 0x2 24 (u32 str_off ∷ (u32 0 ∷ (u32 str_off ∷ (u32 1 ∷ [])))) c h refl

commands4-IsSized :
    (c : Config) (o : Options) (segs : List ImageSegment) (l : Linkedit4)
    (rebase_size bind_size export_size : ℕ) (cs : List Bytes)
    → commands4 c o segs l rebase_size bind_size export_size ≡ ok cs
    → All IsSized cs
unfolding commands4
commands4-IsSized c o segs l rebase_size bind_size export_size cs h =
    let (stretched, e0, h0) = >>=-eq-ok (command_segments segs l.fileoff l.vmaddr) _ h in
    let (list, e1, h1) = >>=-eq-ok (segment_commands stretched) _ h0 in
    let size = align l.size c.page_size in
    let (link, e2, h2) =
      >>=-eq-ok (segment_no_sections (codes "__LINKEDIT") l.vmaddr size l.fileoff l.size 1) _ h1 in
    let (load, e3, h3) = >>=-eq-ok (dylib_command 0x0C o.shim_install_name) _ h2 in
    let (id, e4, h4) = >>=-eq-ok (dylib_command 0x0D o.install_name) _ h3 in
    let (version, e5, h5) = >>=-eq-ok (build_version_command o.min_ios) _ h4 in
    let (info, e6, h6) =
      >>=-eq-ok
        (dyld_info_command l.fileoff rebase_size l.bind_off bind_size l.export_off export_size) _
        h5 in
    let (symtab, e7, h7) = >>=-eq-ok (symtab_command l.str_off) _ h6 in
    rw (← ok-injective h7) (
      All-append IsSized list _ (segment_commands-IsSized stretched list e1) (
        segment_no_sections-IsSized (codes "__LINKEDIT") l.vmaddr size l.fileoff l.size 1 link e2,
        (
          dylib_command-IsSized 0x0C o.shim_install_name load e3,
          (
            dylib_command-IsSized 0x0D o.install_name id e4,
            (
              build_version_command-IsSized o.min_ios version e5,
              (
                dyld_info_command-IsSized l.fileoff rebase_size l.bind_off bind_size l.export_off
                    export_size info e6,
                (symtab_command-IsSized l.str_off symtab e7, tt),
              ),
            ),
          ),
        ),
      ))

-- A translation of phase 4 that succeeds has made load commands, __LINKEDIT and LC_SYMTAB among
-- them, that a loader reads back from the file.
pub translate_phase4-IsLoadable :
    (c : Config) (o : Options) (elf : Elf64) (segments : List ImageSegment) (t : Phase4Translation)
    → translate_phase4 c o elf segments ≡ ok t
    → (cs : List Bytes) × (commands4 c o segments t.linkedit t.phase3.rebase_stream_size
          t.phase3.bind_stream_size t.export_stream_size
        ≡ ok cs)
      × (read_load_commands t.output ≡ some cs)
unfolding translate_phase4 place_commands
translate_phase4-IsLoadable c o elf segments t h =
    let (t3, e3, h1) = >>=-eq-ok (translate c o elf segments) _ h in
    let (stream, es, h2) = >>=-eq-ok (build_export_trie (exports c elf)) _ h1 in
    let l = linkedit4 t3.linkedit t3.rebase_stream_size t3.bind_stream_size (length stream) in
    let (cs, ec, h3) =
      >>=-eq-ok (commands4 c o segments l t3.rebase_stream_size t3.bind_stream_size (length stream))
        _ h2 in
    let (head, eh, h4) = >>=-eq-ok (header_and_commands c.header_reserve cs) _ h3 in
    let sized =
      commands4-IsSized c o segments l t3.rebase_stream_size t3.bind_stream_size (length stream) cs
        ec in
    let page =
      splice (place_exports l stream t3.output) 0 c.header_reserve (zeros c.header_reserve) in
    rw (← ok-injective h4) (cs, ec, read-splice_head c.header_reserve cs head page eh sized)
