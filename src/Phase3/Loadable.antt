-- ===== src/Phase3/Loadable.antt =====
-- The load commands in the file of phase3.py are those that the translator made, as a loader reads
-- them.
use il2cppapk2ios.Align.{align}
use il2cppapk2ios.Align.Bounds.{align_least}
use il2cppapk2ios.Macho.Reader.{
  IsSized, read_load_commands, read_load_commands-header_and_commands, packed-IsSized,
  whole-IsSized,
}
use il2cppapk2ios.Elf.{Elf64}
use il2cppapk2ios.Elf.Symbols.{dynamic_symbols}
use il2cppapk2ios.Elf.Relocations.{relocations}
use il2cppapk2ios.Phase3.{Config, ImageSegment}
use il2cppapk2ios.Phase3.Commands.{
  dylib_size, dylib_fields, dylib_command, no_section_fields, segment_no_sections, segment_fields,
  section_fields, segment_with_data_section, Version, build_version_command, build_version_fields,
  dyld_info_fields, dyld_info_command,
}
use il2cppapk2ios.Phase3.Fixups.{fix_all}
use il2cppapk2ios.Phase3.Streams.{rebase_stream, bind_stream}
use il2cppapk2ios.Phase3.Translate.{
  Options, Translation, Linkedit, linkedit, translate, segment_commands, commands,
  header_and_commands, place_parts, start_fixups,
}
use il2cppapk2ios.Common.{
  ℕ, ◌+◌, ◌-◌, ◌≤◌, ◌*◌, ◌≡◌, refl, arith, List, [], ◌∷◌, ◌++◌, length, length-append, All,
  All-append, length-replicate, some,
}
use il2cppapk2ios.Common.Outcome.{ok, ok-injective, >>=-eq-ok, >>=₂-eq-ok}
use il2cppapk2ios.Common.Text.{codes, encode}
use il2cppapk2ios.Struct.{Bytes, zeros, splice}
use il2cppapk2ios.Struct.Pack.{Field, pack}
use il2cppapk2ios.Struct.Pack.Sizes.{length-pack}

-- The fields behind the number and the size of a command.
abbrev tail_of : List Field → List Field
tail_of (kind ∷ (size ∷ fs)) = fs
tail_of fs = []

pub segment_no_sections-IsSized :
    (name : List ℕ) (vmaddr vmsize fileoff filesize protection : ℕ) (c : Bytes)
    → segment_no_sections name vmaddr vmsize fileoff filesize protection ≡ ok c
    → IsSized c
unfolding segment_no_sections
segment_no_sections-IsSized name vmaddr vmsize fileoff filesize protection c h =
    whole-IsSized 0x19 72
      (tail_of (no_section_fields name vmaddr vmsize fileoff filesize protection)) c h refl

pub build_version_command-IsSized :
    (v : Version) (c : Bytes) → build_version_command v ≡ ok c → IsSized c
unfolding build_version_command
build_version_command-IsSized v c h =
    whole-IsSized 0x32 24 (tail_of (build_version_fields v)) c h refl

pub dyld_info_command-IsSized :
    (a b d e f g : ℕ) (c : Bytes) → dyld_info_command a b d e f g ≡ ok c → IsSized c
unfolding dyld_info_command
dyld_info_command-IsSized a b d e f g c h =
    whole-IsSized 0x80000022 48 (tail_of (dyld_info_fields a b d e f g)) c h refl

pub dylib_command-IsSized :
    (kind : ℕ) (name : List ℕ) (c : Bytes) → dylib_command kind name ≡ ok c → IsSized c
unfolding dylib_command
dylib_command-IsSized kind name c h =
    let (encoded, _, h1) = >>=-eq-ok (encode name) _ h in
    let raw = encoded ++ (0 ∷ []) in
    let (head, eh, h2) = >>=-eq-ok (pack (dylib_fields kind raw)) _ h1 in
    let filled = zeros (dylib_size raw - 24 - length raw) in
    let room : 24 + length raw ≤ dylib_size raw =
      unfold dylib_size in (align_least 3 (24 + length raw)).1 in
    let total : 8 + 16 + length (raw ++ filled) ≡ dylib_size raw = omega (
      arith,
      length-append raw filled,
      length-replicate {A = ℕ} (dylib_size raw - 24 - length raw) 0,
    ) in
    rw (← ok-injective h2) (
      packed-IsSized kind (dylib_size raw) (tail_of (dylib_fields kind raw)) head (raw ++ filled) eh
        total)

pub segment_with_data_section-IsSized :
    (seg : ImageSegment) (c : Bytes) → segment_with_data_section seg ≡ ok c → IsSized c
unfolding segment_with_data_section
segment_with_data_section-IsSized seg c h =
    let (command, ec, h1) = >>=-eq-ok (pack (segment_fields seg)) _ h in
    let sentinel_fields = section_fields (codes "__segstart") seg.name seg.vmaddr 0 seg.fileoff 0 in
    let data_fields =
      section_fields seg.section_name seg.name seg.data_addr seg.data_size seg.data_fileoff 3 in
    let (sentinel, es, h2) = >>=-eq-ok (pack sentinel_fields) _ h1 in
    let (data_section, ed, h3) = >>=-eq-ok (pack data_fields) _ h2 in
    let total : 8 + 64 + length (sentinel ++ data_section) ≡ 72 + 80 * 2 = omega (
      arith,
      length-append sentinel data_section,
      length-pack sentinel_fields sentinel es,
      length-pack data_fields data_section ed,
    ) in
    rw (← ok-injective h3) (
      packed-IsSized 0x19 (72 + 80 * 2) (tail_of (segment_fields seg)) command
        (sentinel ++ data_section) ec total)

pub segment_commands-IsSized :
    (segs : List ImageSegment) (cs : List Bytes) → segment_commands segs ≡ ok cs → All IsSized cs
unfolding segment_commands
segment_commands-IsSized [] cs h = rw (← ok-injective h) tt
segment_commands-IsSized (seg ∷ segs) cs h =
    let (head, tail, eh, et, e) =
      >>=₂-eq-ok (segment_with_data_section seg) (segment_commands segs) (λ a b. a ∷ b) h in
    rw e (segment_with_data_section-IsSized seg head eh, segment_commands-IsSized segs tail et)

pub commands-IsSized :
    (c : Config) (o : Options) (segs : List ImageSegment) (l : Linkedit) (rebase_size bind_size : ℕ)
    (cs : List Bytes)
    → commands c o segs l rebase_size bind_size ≡ ok cs
    → All IsSized cs
unfolding commands
commands-IsSized c o segs l rebase_size bind_size cs h =
    let (list, e1, h1) = >>=-eq-ok (segment_commands segs) _ h in
    let size = align l.size c.page_size in
    let (link, e2, h2) =
      >>=-eq-ok (segment_no_sections (codes "__LINKEDIT") l.vmaddr size l.fileoff l.size 1) _ h1 in
    let (load, e3, h3) = >>=-eq-ok (dylib_command 0x0C o.shim_install_name) _ h2 in
    let (id, e4, h4) = >>=-eq-ok (dylib_command 0x0D o.install_name) _ h3 in
    let (version, e5, h5) = >>=-eq-ok (build_version_command o.min_ios) _ h4 in
    let (info, e6, h6) =
      >>=-eq-ok (dyld_info_command l.rebase_off rebase_size l.bind_off bind_size 0 0) _ h5 in
    rw (← ok-injective h6) (
      All-append IsSized list _ (segment_commands-IsSized segs list e1) (
        segment_no_sections-IsSized (codes "__LINKEDIT") l.vmaddr size l.fileoff l.size 1 link e2,
        (
          dylib_command-IsSized 0x0C o.shim_install_name load e3,
          (
            dylib_command-IsSized 0x0D o.install_name id e4,
            (
              build_version_command-IsSized o.min_ios version e5,
              (
                dyld_info_command-IsSized l.rebase_off rebase_size l.bind_off bind_size 0 0 info e6,
                tt,
              ),
            ),
          ),
        ),
      ))

-- A header at the start of a file is read as a prefix of it.
pub read-splice_head :
    (reserve : ℕ) (cs : List Bytes) (head file : Bytes)
    → header_and_commands reserve cs ≡ ok head
    → All IsSized cs
    → read_load_commands (splice file 0 (length head) head) ≡ some cs
unfolding splice
read-splice_head reserve cs head file h sized =
    read_load_commands-header_and_commands reserve cs head _ h sized

-- A translation that succeeds has made load commands that a loader reads back from the file: as many
-- as the header says, each as long as it says, and nothing else in the space that they take.
pub translate-IsLoadable :
    (c : Config) (o : Options) (elf : Elf64) (segments : List ImageSegment) (t : Translation)
    → translate c o elf segments ≡ ok t
    → (cs : List Bytes) × (commands c o segments t.linkedit t.rebase_stream_size t.bind_stream_size
        ≡ ok cs)
      × (read_load_commands t.output ≡ some cs)
unfolding translate
translate-IsLoadable c o elf segments t h =
    let (done, ed, h1) =
      >>=-eq-ok
        (fix_all c segments (dynamic_symbols elf) o.shim_prefix (relocations elf)
          (start_fixups c elf segments))
        _ h in
    let (rebase, er, h2) = >>=-eq-ok (rebase_stream done.rebases) _ h1 in
    let (bind, eb, h3) = >>=-eq-ok (bind_stream 1 done.bindings) _ h2 in
    let l = linkedit c segments (length done.image) (length rebase) (length bind) in
    let (cs, ec, h4) = >>=-eq-ok (commands c o segments l (length rebase) (length bind)) _ h3 in
    let (head, eh, h5) = >>=-eq-ok (header_and_commands c.header_reserve cs) _ h4 in
    let sized = commands-IsSized c o segments l (length rebase) (length bind) cs ec in
    rw (← ok-injective h5) (
      cs,
      ec,
      read-splice_head c.header_reserve cs head (place_parts l done.image rebase bind) eh sized,
    )
