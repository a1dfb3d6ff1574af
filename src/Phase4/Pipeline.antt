-- ===== src/Phase4/Pipeline.antt =====
-- From an ELF file that the constructor accepts to the whole file of phase4.py.
use il2cppapk2ios.Phase3.Streams.{rebase_stream, bind_stream}
use il2cppapk2ios.Macho.DyldInfo.{NamesStreams, NamesDylib}
use il2cppapk2ios.Align.{align}
use il2cppapk2ios.Align.Bounds.{align_least}
use il2cppapk2ios.Elf.{Elf64, ProgramHeader}
use il2cppapk2ios.Elf.Symbols.{dynamic_symbols}
use il2cppapk2ios.Elf.Relocations.{relocations}
use il2cppapk2ios.Macho.Reader.{read_load_commands}
use il2cppapk2ios.Phase3.{Config, ImageSegment, is_load, layout_loads, layout_segments, init}
use il2cppapk2ios.Phase3.Copies.{start_fixups-IsCopied}
use il2cppapk2ios.Phase3.Layout.{IsPlaced, layout_loads-inv, layout-IsPlaced}
use il2cppapk2ios.Phase3.Output.Streams.{translate-fixups}
use il2cppapk2ios.Phase3.Relocate.{fix_all-Accounts, layout-above}
use il2cppapk2ios.Phase3.Translate.{Options, Translation, translate, start_fixups, data_end, max_of}
use il2cppapk2ios.Phase4.{exports}
use il2cppapk2ios.Phase4.Trie.{build_export_trie}
use il2cppapk2ios.Phase4.Translate.{Phase4Translation, commands4}
use il2cppapk2ios.Phase4.Whole.{IsWhole}
use il2cppapk2ios.Common.{ℕ, ◌+◌, ◌%◌, ◌^◌, ◌≤◌, ◌≡◌, arith, List, [], ◌∷◌, All, length, some}
use il2cppapk2ios.Common.Outcome.{ok, >>-eq-ok}
use il2cppapk2ios.Common.Text.{select}
use il2cppapk2ios.Struct.{Bytes}

-- The file holds the data of a segment whole.
abbrev pub HoldsData : Elf64 → ImageSegment → Type 0
HoldsData elf seg = seg.elf_offset + seg.elf_filesz ≤ length elf.bytes

init-layout :
    (c : Config) (elf : Elf64) (segs : List ImageSegment)
    → init c elf ≡ ok segs
    → layout_loads c (select is_load elf.program_headers) ≡ ok segs
unfolding init layout_segments
init-layout c elf segs h = >>-eq-ok _ _ (>>-eq-ok _ _ h)

-- The data of the first segment stand behind the reserve, so the image has room for it.
reserve-data_end :
    (c : Config) (k : ℕ) (segs : List ImageSegment) (loads : List ProgramHeader)
    → c.page_size ≡ 2 ^ k
    → All (IsPlaced c) segs
    → All (λ s. c.header_reserve ≤ s.data_fileoff) segs
    → layout_loads c loads ≡ ok segs
    → c.header_reserve ≤ data_end c segs
unfolding data_end max_of
reserve-data_end c k [] [] page ps bs h = unfold layout_loads in cc
reserve-data_end c k [] (first ∷ loads) page ps bs h =
    let (_, e) = layout_loads-inv c k page first loads [] h in cc
reserve-data_end c k (seg ∷ segs) loads page (p, ps) (above, bs) h =
    let up : seg.fileoff + seg.filesize ≤ align (seg.fileoff + seg.filesize) c.page_size =
      rw page (align_least k (seg.fileoff + seg.filesize)).1 in
    let fills = p.fills_file in omega arith

translate-length :
    (c : Config) (o : Options) (elf : Elf64) (segs : List ImageSegment) (t : Translation)
    → translate c o elf segs ≡ ok t
    → length t.fixups.image ≡ length (start_fixups c elf segs).image
translate-length c o elf segs t h =
    (fix_all-Accounts c segs (dynamic_symbols elf) o.shim_prefix (relocations elf)
      (start_fixups c elf segs) t.fixups (translate-fixups c o elf segs t h)).same_length

-- An image of a layout whose data the file holds has room for the header.
pub reserve-inside :
    (c : Config) (k : ℕ) (o : Options) (elf : Elf64) (segs : List ImageSegment) (t : Translation)
    → c.page_size ≡ 2 ^ k
    → c.image_base % c.page_size ≡ 0
    → init c elf ≡ ok segs
    → All (HoldsData elf) segs
    → translate c o elf segs ≡ ok t
    → c.header_reserve ≤ length t.fixups.image
reserve-inside c k o elf segs t page base h held h' =
    let loads = select is_load elf.program_headers in
    let l = init-layout c elf segs h in
    let (placed, ordered) = layout-IsPlaced c k page loads segs base l in
    let room = reserve-data_end c k segs loads page placed (layout-above c k page loads segs l) l in
    let copied = (start_fixups-IsCopied c k page elf segs placed ordered held).0 in
    let same = translate-length c o elf segs t h' in omega arith

-- What the file of a translation is: whole, and loadable with the commands that were made for it,
-- which name the streams where they are, the shim that is loaded and the dylib itself.
pub record IsDylib (c : Config) (o : Options) (elf : Elf64) (segs : List ImageSegment)
    (t : Phase4Translation) : Type 0 where
  pub whole : IsWhole c elf t
  pub loadable :
      (cs : List Bytes) × (commands4 c o segs t.linkedit t.phase3.rebase_stream_size
          t.phase3.bind_stream_size t.export_stream_size
        ≡ ok cs)
      × (read_load_commands t.output ≡ some cs)
  pub names :
      NamesStreams
        (rebase_stream t.phase3.fixups.rebases)
        (bind_stream 1 t.phase3.fixups.bindings)
        (build_export_trie (exports c elf))
        t.output
  pub shim_named : NamesDylib 0x0C t.output o.shim_install_name
  pub dylib_named : NamesDylib 0x0D t.output o.install_name
