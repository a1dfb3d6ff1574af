-- ===== src/Phase3/Translate.antt =====
-- `Phase3Translator.translate` of src/il2cppapk2ios/phase3.py: the image, the link-edit data, the load
-- commands, and the report. Writing the file is not modelled: the bytes are part of the result.
mod Report
pub use Report.{ShimImport}
unfoldable pub use Report.{shim_symbols, shim_imports}
use il2cppapk2ios.Align.{align}
use il2cppapk2ios.Elf.{Elf64}
use il2cppapk2ios.Elf.Symbols.{dynamic_symbols}
use il2cppapk2ios.Elf.Relocations.{relocations}
use il2cppapk2ios.Phase3.{Config, ImageSegment}
use il2cppapk2ios.Phase3.Commands.{
  Version, dylib_command, segment_no_sections, segment_with_data_section, build_version_command,
  dyld_info_command, mach_header,
}
use il2cppapk2ios.Phase3.Fixups.{Fixups, Patched, fix_all}
use il2cppapk2ios.Phase3.Streams.{rebase_stream, bind_stream, Binding}
use il2cppapk2ios.Common.{ℕ, ◌+◌, ◌-◌, max, ltb, List, [], ◌∷◌, ◌++◌, length, if◌then◌else◌}
use il2cppapk2ios.Common.Outcome.{Outcome, ok, err, ◌>>=◌, ◌>>◌, raise_if, load_commands_too_large}
use il2cppapk2ios.Common.Text.{codes}
use il2cppapk2ios.Struct.{Bytes, slice, splice, zeros}

-- The keyword arguments of `translate`.
pub record Options : Type 0 where
  pub shim_install_name : List ℕ
  pub install_name : List ℕ
  pub shim_prefix : List ℕ
  pub min_ios : Version

-- max(f(x) for x in segments) of a list that is not empty
unfoldable pub max_of : (ImageSegment → ℕ) → List ImageSegment → ℕ
max_of f [] = 0
max_of f (seg ∷ segs) = max (f seg) (max_of f segs)

unfoldable pub data_end : Config → List ImageSegment → ℕ
unfolding max_of align
data_end c segments = max_of (λ x. align (x.fileoff + x.filesize) c.page_size) segments

-- The copy of every PT_LOAD into the image.
unfoldable pub copy_segments : Bytes → List ImageSegment → Bytes → Bytes
unfolding slice splice
copy_segments bytes [] image = image
copy_segments bytes (seg ∷ segs) image = copy_segments bytes segs (
    splice image seg.data_fileoff (seg.data_fileoff + seg.elf_filesz)
      (slice seg.elf_offset (seg.elf_offset + seg.elf_filesz) bytes))

abbrev pub no_patches : Patched
no_patches = record {
  relative = 0;
  internal_abs64 = 0;
  internal_glob_dat = 0;
  internal_jump_slot = 0;
}

-- The image before the relocation loop.
unfoldable pub start_fixups : Config → Elf64 → List ImageSegment → Fixups
unfolding copy_segments data_end
start_fixups c elf segments = record {
  image = copy_segments elf.bytes segments (zeros (data_end c segments));
  rebases = [];
  bindings = [];
  patched = no_patches;
}

-- Where the parts of __LINKEDIT go, from the sizes of the image and of the two streams.
pub record Linkedit : Type 0 where
  pub vmaddr : ℕ
  pub fileoff : ℕ
  pub size : ℕ
  pub rebase_off : ℕ
  pub bind_off : ℕ
  pub final_size : ℕ

unfoldable pub linkedit : Config → List ImageSegment → ℕ → ℕ → ℕ → Linkedit
unfolding align max_of
linkedit c segments image_size rebase_size bind_size =
    let fileoff = align image_size c.page_size in
    let bind_off = align (fileoff + rebase_size) 8 in
    let size = bind_off - fileoff + bind_size in
    record {
      vmaddr = align (max_of (λ x. x.vmaddr + x.vmsize) segments) c.page_size;
      fileoff = fileoff;
      size = size;
      rebase_off = fileoff;
      bind_off = bind_off;
      final_size = align (fileoff + size) c.page_size;
    }

unfoldable pub segment_commands : List ImageSegment → Outcome (List Bytes)
unfolding segment_with_data_section
segment_commands [] = ok []
segment_commands (seg ∷ segs) = do
  head ← segment_with_data_section seg
  tail ← segment_commands segs
  ok (head ∷ tail)

-- b"".join(commands)
unfoldable pub join : List Bytes → Bytes
join [] = []
join (b ∷ bs) = b ++ join bs

unfoldable pub commands :
    Config → Options → List ImageSegment → Linkedit → ℕ → ℕ → Outcome (List Bytes)
unfolding segment_commands segment_no_sections dylib_command build_version_command dyld_info_command
commands c o segments l rebase_size bind_size = do
  segment_list ← segment_commands segments
  link ←
      segment_no_sections (codes "__LINKEDIT") l.vmaddr (align l.size c.page_size) l.fileoff l.size
        1
  load ← dylib_command 0x0C o.shim_install_name
  id ← dylib_command 0x0D o.install_name
  version ← build_version_command o.min_ios
  info ← dyld_info_command l.rebase_off rebase_size l.bind_off bind_size 0 0
  ok (segment_list ++ (link ∷ (load ∷ (id ∷ (version ∷ (info ∷ []))))))

-- The header and the load commands, with the test that they fit into the reserve.
unfoldable pub header_and_commands : ℕ → List Bytes → Outcome Bytes
unfolding mach_header join
header_and_commands reserve commands = do
  let load_commands = join commands
  header ← mach_header (length commands) (length load_commands)
  raise_if (ltb reserve (length header + length load_commands)) load_commands_too_large
  ok (header ++ load_commands)

-- final[0:] = image, then the two streams at their offsets
unfoldable pub place_parts : Linkedit → Bytes → Bytes → Bytes → Bytes
unfolding splice
place_parts l image rebase bind =
    let blank = splice (zeros l.final_size) 0 (length image) image in
    let rebased = splice blank l.rebase_off (l.rebase_off + length rebase) rebase in
    splice rebased l.bind_off (l.bind_off + length bind) bind

-- The file and what the report says of it.
pub record Translation : Type 0 where
  pub output : Bytes
  pub fixups : Fixups
  pub rebase_stream_size : ℕ
  pub bind_stream_size : ℕ
  pub shim_symbols : List (List ℕ)
  pub shim_imports : List ShimImport
  pub segments : List ImageSegment
  pub linkedit : Linkedit

unfoldable pub translate : Config → Options → Elf64 → List ImageSegment → Outcome Translation
unfolding dynamic_symbols relocations fix_all rebase_stream bind_stream linkedit commands
    header_and_commands place_parts splice start_fixups shim_symbols shim_imports
translate c o elf segments = do
  done ←
      fix_all c segments (dynamic_symbols elf) o.shim_prefix (relocations elf)
        (start_fixups c elf segments)
  rebase ← rebase_stream done.rebases
  bind ← bind_stream 1 done.bindings
  let l = linkedit c segments (length done.image) (length rebase) (length bind)
  command_list ← commands c o segments l (length rebase) (length bind)
  head ← header_and_commands c.header_reserve command_list
  ok (record {
    output = splice (place_parts l done.image rebase bind) 0 (length head) head;
    fixups = done;
    rebase_stream_size = length rebase;
    bind_stream_size = length bind;
    shim_symbols = shim_symbols done.bindings;
    shim_imports = shim_imports done.bindings;
    segments = segments;
    linkedit = l;
  })
