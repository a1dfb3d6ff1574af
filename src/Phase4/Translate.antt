-- ===== src/Phase4/Translate.antt =====
-- `Phase4Translator.translate` of src/il2cppapk2ios/phase4.py: the export trie and a string table at the
-- end of the file, and new commands for contiguous segments. The temporary file between the two
-- phases is not modelled: its bytes are passed on.
use il2cppapk2ios.Align.{align}
use il2cppapk2ios.Elf.{Elf64}
use il2cppapk2ios.Elf.Symbols.{section}
use il2cppapk2ios.Phase3.{Config, ImageSegment}
use il2cppapk2ios.Phase3.Commands.{
  dylib_command, segment_no_sections, build_version_command, dyld_info_command,
}
use il2cppapk2ios.Phase3.Translate.{
  Options, Translation, Linkedit, translate, segment_commands, header_and_commands,
}
use il2cppapk2ios.Phase4.{exports}
use il2cppapk2ios.Phase4.Trie.{build_export_trie}
use il2cppapk2ios.Common.{
  ℕ, ◌+◌, ◌-◌, ◌/◌, ltb, ◌||◌, Bool, map, none, some, List, [], ◌∷◌, ◌++◌, length, take,
  if◌then◌else◌,
}
use il2cppapk2ios.Common.Outcome.{Outcome, ok, ◌>>=◌, ◌>>◌, raise_if, struct_error}
use il2cppapk2ios.Common.Text.{codes, is_in}
use il2cppapk2ios.Struct.{Bytes, splice, zeros}
use il2cppapk2ios.Struct.Pack.{Field, u32, pack}

-- Where the parts of the new __LINKEDIT go.
pub record Linkedit4 : Type 0 where
  pub vmaddr : ℕ
  pub fileoff : ℕ
  pub size : ℕ
  pub bind_off : ℕ
  pub export_off : ℕ
  pub str_off : ℕ
  pub final_size : ℕ

unfoldable pub linkedit4 : Linkedit → ℕ → ℕ → ℕ → Linkedit4
unfolding align
linkedit4 l rebase_size bind_size export_size =
    let bind_off = align (l.fileoff + rebase_size) 8 in
    let export_off = align (bind_off + bind_size) 8 in
    let str_off = export_off + export_size in
    record {
      vmaddr = l.vmaddr;
      fileoff = l.fileoff;
      size = str_off - l.fileoff + 1;
      bind_off = bind_off;
      export_off = export_off;
      str_off = str_off;
      final_size = l.fileoff + (str_off - l.fileoff + 1);
    }

-- The file is cut or filled up with zeros, so that it ends with __LINKEDIT.
unfoldable pub resize : ℕ → Bytes → Bytes
resize final_size bytes =
    if ltb (length bytes) final_size
    then bytes ++ zeros (final_size - length bytes)
    else take final_size bytes

unfoldable pub place_exports : Linkedit4 → Bytes → Bytes → Bytes
unfolding resize splice
place_exports l export_stream bytes =
    let with_exports =
      splice (resize l.final_size bytes) l.export_off (l.export_off + length export_stream)
        export_stream in
    splice with_exports l.str_off (l.str_off + 1) (0 ∷ [])

-- A segment that reaches up to the next one. A size below 0, which the format Q refuses, raises.
unfoldable pub stretch : ImageSegment → ℕ → ℕ → Outcome ImageSegment
stretch seg next_fileoff next_vmaddr = do
  raise_if (ltb next_fileoff seg.fileoff || ltb next_vmaddr seg.vmaddr) struct_error
  ok (record seg { filesize = next_fileoff - seg.fileoff; vmsize = next_vmaddr - seg.vmaddr })

unfoldable pub command_segments : List ImageSegment → ℕ → ℕ → Outcome (List ImageSegment)
unfolding stretch
command_segments [] link_fileoff link_vmaddr = ok []
command_segments (seg ∷ []) link_fileoff link_vmaddr = do
  last ← stretch seg link_fileoff link_vmaddr
  ok (last ∷ [])
command_segments (seg ∷ (next ∷ segs)) link_fileoff link_vmaddr = do
  this ← stretch seg next.fileoff next.vmaddr
  rest ← command_segments (next ∷ segs) link_fileoff link_vmaddr
  ok (this ∷ rest)

abbrev pub symtab_fields : ℕ → List Field
symtab_fields str_off = u32 0x2 ∷ (u32 24 ∷ (u32 str_off ∷ (u32 0 ∷ (u32 str_off ∷ (u32 1 ∷ [])))))

-- LC_SYMTAB: no symbols and a string table of one byte
unfoldable pub symtab_command : ℕ → Outcome Bytes
unfolding pack
symtab_command str_off = pack (symtab_fields str_off)

unfoldable pub commands4 :
    Config → Options → List ImageSegment → Linkedit4 → ℕ → ℕ → ℕ → Outcome (List Bytes)
unfolding command_segments segment_commands segment_no_sections dylib_command build_version_command
    dyld_info_command symtab_command align
commands4 c o segments l rebase_size bind_size export_size = do
  stretched ← command_segments segments l.fileoff l.vmaddr
  segment_list ← segment_commands stretched
  link ←
      segment_no_sections (codes "__LINKEDIT") l.vmaddr (align l.size c.page_size) l.fileoff l.size
        1
  load ← dylib_command 0x0C o.shim_install_name
  id ← dylib_command 0x0D o.install_name
  version ← build_version_command o.min_ios
  info ← dyld_info_command l.fileoff rebase_size l.bind_off bind_size l.export_off export_size
  symtab ← symtab_command l.str_off
  ok (segment_list ++ (link ∷ (load ∷ (id ∷ (version ∷ (info ∷ (symtab ∷ [])))))))

-- The header page is cleared, then the header and the commands are written.
unfoldable pub place_commands : ℕ → Bytes → Bytes → Bytes
unfolding splice
place_commands reserve head bytes =
    splice (splice bytes 0 reserve (zeros reserve)) 0 (length head) head

-- 0 if section is None else section.size
unfoldable pub section_size : Elf64 → List ℕ → ℕ
unfolding section
section_size elf name = elim (section elf name) [ none ↦ 0 | some sec ↦ sec.size ]

-- The file, and what the report adds to that of phase 3.
pub record Phase4Translation : Type 0 where
  pub output : Bytes
  pub phase3 : Translation
  pub export_list : List (List ℕ × ℕ)
  pub export_stream_size : ℕ
  pub linkedit : Linkedit4
  pub has_il2cpp_init : Bool
  pub init_array_entries : ℕ
  pub fini_array_entries : ℕ
  pub eh_frame_size : ℕ

unfoldable pub translate_phase4 :
    Config → Options → Elf64 → List ImageSegment → Outcome Phase4Translation
unfolding translate exports build_export_trie linkedit4 place_exports commands4 header_and_commands
    place_commands section_size is_in
translate_phase4 c o elf segments = do
  t ← translate c o elf segments
  export_stream ← build_export_trie (exports c elf)
  let l = linkedit4 t.linkedit t.rebase_stream_size t.bind_stream_size (length export_stream)
  command_list ←
      commands4 c o segments l t.rebase_stream_size t.bind_stream_size (length export_stream)
  head ← header_and_commands c.header_reserve command_list
  ok (record {
    output = place_commands c.header_reserve head (place_exports l export_stream t.output);
    phase3 = t;
    export_list = exports c elf;
    export_stream_size = length export_stream;
    linkedit = l;
    has_il2cpp_init = is_in (codes "_il2cpp_init") (map (λ (e : List ℕ × ℕ). e.0) (exports c elf));
    init_array_entries = section_size elf (codes ".init_array") / 8;
    fini_array_entries = section_size elf (codes ".fini_array") / 8;
    eh_frame_size = section_size elf (codes ".eh_frame");
  })
