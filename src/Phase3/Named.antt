-- ===== src/Phase3/Named.antt =====
-- What the load commands of phase3.py and phase4.py name: the streams of dyld, the shim and the dylib.
use il2cppapk2ios.Macho.DyldInfo.{
  find_command, HoldsAt, NamesStreams, NamesDylib, find_command-skip, find_command-here,
  packed_kind,
}
use il2cppapk2ios.Macho.Reader.{read_load_commands}
use il2cppapk2ios.Phase3.{ImageSegment}
use il2cppapk2ios.Phase3.Commands.{
  dylib_size, dylib_fields, dylib_command, no_section_fields, segment_no_sections, segment_fields,
  section_fields, segment_with_data_section, Version, build_version_command, build_version_fields,
  dyld_info_fields, dyld_info_command,
}
use il2cppapk2ios.Phase3.Output.{HoldsStream}
use il2cppapk2ios.Phase3.Translate.{Options, segment_commands}
use il2cppapk2ios.Common.{
  ℕ, ◌+◌, ◌-◌, ◌≡◌, refl, sym, ap, ◌∙◌, arith, ◌==◌, false, List, [], ◌∷◌, ◌++◌, length, append-nil,
  some, take,
}
use il2cppapk2ios.Common.Outcome.{Outcome, ok, ok-injective, >>=-eq-ok, >>=₂-eq-ok}
use il2cppapk2ios.Common.Text.{codes, encode}
use il2cppapk2ios.Struct.{Bytes, zeros, slice, field}
use il2cppapk2ios.Struct.Laws.{drop-append_length, take-append_length}
use il2cppapk2ios.Struct.Pack.{Field, u32, pack}
use il2cppapk2ios.Struct.Pack.Sizes.{length-pack, field-append_left, field-pack_u32}

-- The fields behind the number of a command.
abbrev after_kind : List Field → List Field
after_kind [] = []
after_kind (kind ∷ fs) = fs

whole_kind :
    (kind : ℕ) (fs : List Field) (bytes : Bytes)
    → pack (u32 kind ∷ fs) ≡ ok bytes
    → field 4 bytes 0 ≡ kind
whole_kind kind fs bytes h =
    ap (λ b. field 4 b 0) (sym (append-nil bytes)) ∙ packed_kind kind fs bytes [] h

segment_no_sections_kind :
    (name : List ℕ) (vmaddr vmsize fileoff filesize protection : ℕ) (c : Bytes)
    → segment_no_sections name vmaddr vmsize fileoff filesize protection ≡ ok c
    → field 4 c 0 ≡ 0x19
unfolding segment_no_sections
segment_no_sections_kind name vmaddr vmsize fileoff filesize protection c h =
    whole_kind 0x19 (after_kind (no_section_fields name vmaddr vmsize fileoff filesize protection))
      c h

build_version_command_kind :
    (v : Version) (c : Bytes) → build_version_command v ≡ ok c → field 4 c 0 ≡ 0x32
unfolding build_version_command
build_version_command_kind v c h = whole_kind 0x32 (after_kind (build_version_fields v)) c h

dyld_info_command_kind :
    (a b d e f g : ℕ) (c : Bytes) → dyld_info_command a b d e f g ≡ ok c → field 4 c 0 ≡ 0x80000022
unfolding dyld_info_command
dyld_info_command_kind a b d e f g c h =
    whole_kind 0x80000022 (after_kind (dyld_info_fields a b d e f g)) c h

dylib_command_kind :
    (kind : ℕ) (name : List ℕ) (c : Bytes) → dylib_command kind name ≡ ok c → field 4 c 0 ≡ kind
unfolding dylib_command
dylib_command_kind kind name c h =
    let (encoded, _, h1) = >>=-eq-ok (encode name) _ h in
    let raw = encoded ++ (0 ∷ []) in
    let (head, eh, h2) = >>=-eq-ok (pack (dylib_fields kind raw)) _ h1 in
    let behind = raw ++ zeros (dylib_size raw - 24 - length raw) in
    ap (λ b. field 4 b 0) (sym (ok-injective h2))
    ∙ packed_kind kind (after_kind (dylib_fields kind raw)) head behind eh

segment_with_data_section_kind :
    (seg : ImageSegment) (c : Bytes) → segment_with_data_section seg ≡ ok c → field 4 c 0 ≡ 0x19
unfolding segment_with_data_section
segment_with_data_section_kind seg c h =
    let (command, ec, h1) = >>=-eq-ok (pack (segment_fields seg)) _ h in
    let sentinel_fields = section_fields (codes "__segstart") seg.name seg.vmaddr 0 seg.fileoff 0 in
    let data_fields =
      section_fields seg.section_name seg.name seg.data_addr seg.data_size seg.data_fileoff 3 in
    let (sentinel, es, h2) = >>=-eq-ok (pack sentinel_fields) _ h1 in
    let (data_section, ed, h3) = >>=-eq-ok (pack data_fields) _ h2 in
    ap (λ b. field 4 b 0) (sym (ok-injective h3))
    ∙ packed_kind 0x19 (after_kind (segment_fields seg)) command (sentinel ++ data_section) ec

-- The commands of the segments are none of another kind.
find_command-segments :
    (k : ℕ) (segs : List ImageSegment) (list rest : List Bytes)
    → (0x19 == k) ≡ false
    → segment_commands segs ≡ ok list
    → find_command k (list ++ rest) ≡ find_command k rest
unfolding segment_commands
find_command-segments k [] list rest other h =
    ap (λ l. find_command k (l ++ rest)) (sym (ok-injective h))
find_command-segments k (seg ∷ segs) list rest other h =
    let (head, tail, eh, et, e) =
      >>=₂-eq-ok (segment_with_data_section seg) (segment_commands segs) (λ a b. a ∷ b) h in
    ap (λ l. find_command k (l ++ rest)) e
    ∙ find_command-skip k 0x19 head (tail ++ rest) (segment_with_data_section_kind seg head eh)
        other
    ∙ find_command-segments k segs tail rest other et

-- What a loader finds in a list of commands.
pub record Finds (o : Options) (a b d e f g : ℕ) (cs : List Bytes) : Type 0 where
  pub info : Bytes
  pub info_found : find_command 0x80000022 cs ≡ some info
  pub info_made : dyld_info_command a b d e f g ≡ ok info
  pub load : Bytes
  pub load_found : find_command 0x0C cs ≡ some load
  pub load_made : dylib_command 0x0C o.shim_install_name ≡ ok load
  pub id : Bytes
  pub id_found : find_command 0x0D cs ≡ some id
  pub id_made : dylib_command 0x0D o.install_name ≡ ok id

-- The commands of both phases have these in this order, and may have more behind.
pub commands-Finds :
    (o : Options) (a b d e f g : ℕ) (segs : List ImageSegment) (name : List ℕ)
    (vmaddr vmsize fileoff filesize protection : ℕ) (list : List Bytes)
    (link load id version info : Bytes) (rest : List Bytes)
    → segment_commands segs ≡ ok list
    → segment_no_sections name vmaddr vmsize fileoff filesize protection ≡ ok link
    → dylib_command 0x0C o.shim_install_name ≡ ok load
    → dylib_command 0x0D o.install_name ≡ ok id
    → build_version_command o.min_ios ≡ ok version
    → dyld_info_command a b d e f g ≡ ok info
    → Finds o a b d e f g (list ++ (link ∷ (load ∷ (id ∷ (version ∷ (info ∷ rest))))))
commands-Finds o a b d e f g segs name vmaddr vmsize fileoff filesize protection list link load id
      version info rest h1 h2 h3 h4 h5 h6 =
    let k2 = segment_no_sections_kind name vmaddr vmsize fileoff filesize protection link h2 in
    let k3 = dylib_command_kind 0x0C o.shim_install_name load h3 in
    let k4 = dylib_command_kind 0x0D o.install_name id h4 in
    let k5 = build_version_command_kind o.min_ios version h5 in
    let k6 = dyld_info_command_kind a b d e f g info h6 in
    let r5 = info ∷ rest in
    let r4 = version ∷ r5 in
    let r3 = id ∷ r4 in
    let r2 = load ∷ r3 in
    record {
      info = info;
      info_found =
          find_command-segments 0x80000022 segs list (link ∷ r2) refl h1
          ∙ find_command-skip 0x80000022 0x19 link r2 k2 refl
          ∙ find_command-skip 0x80000022 0x0C load r3 k3 refl
          ∙ find_command-skip 0x80000022 0x0D id r4 k4 refl
          ∙ find_command-skip 0x80000022 0x32 version r5 k5 refl
          ∙ find_command-here 0x80000022 info rest k6;
      info_made = h6;
      load = load;
      load_found =
          find_command-segments 0x0C segs list (link ∷ r2) refl h1
          ∙ find_command-skip 0x0C 0x19 link r2 k2 refl
          ∙ find_command-here 0x0C load r3 k3;
      load_made = h3;
      id = id;
      id_found =
          find_command-segments 0x0D segs list (link ∷ r2) refl h1
          ∙ find_command-skip 0x0D 0x19 link r2 k2 refl
          ∙ find_command-skip 0x0D 0x0C load r3 k3 refl
          ∙ find_command-here 0x0D id r4 k4;
      id_made = h4;
    }

-- The offsets and sizes are read back from the command.
pub dyld_info_command-reads :
    (a b d e f g : ℕ) (c : Bytes)
    → dyld_info_command a b d e f g ≡ ok c
    → (field 4 c 8 ≡ a)
      × (field 4 c 12 ≡ b)
      × (field 4 c 16 ≡ d)
      × (field 4 c 20 ≡ e)
      × (field 4 c 40 ≡ f)
      × (field 4 c 44 ≡ g)
unfolding dyld_info_command
dyld_info_command-reads a b d e f g c h =
    let zero_fields = u32 0 ∷ (u32 0 ∷ (u32 0 ∷ (u32 0 ∷ []))) in
    let p0 = u32 0x80000022 ∷ (u32 48 ∷ []) in
    let p1 = p0 ++ (u32 a ∷ []) in
    let p2 = p1 ++ (u32 b ∷ []) in
    let p3 = p2 ++ (u32 d ∷ []) in
    let p4 = p3 ++ (u32 e ∷ zero_fields) in
    let t5 = u32 f ∷ (u32 g ∷ []) in
    let t4 = u32 e ∷ (zero_fields ++ t5) in
    (
      field-pack_u32 p0 a (u32 b ∷ (u32 d ∷ t4)) c h,
      field-pack_u32 p1 b (u32 d ∷ t4) c h,
      field-pack_u32 p2 d t4 c h,
      field-pack_u32 p3 e (zero_fields ++ t5) c h,
      field-pack_u32 p4 f (u32 g ∷ []) c h,
      field-pack_u32 (p4 ++ (u32 f ∷ [])) g [] c h,
    )

-- The name is read back from a dylib command.
pub dylib_command-NamesDylib :
    (kind : ℕ) (name : List ℕ) (c file : Bytes) (cs : List Bytes)
    → read_load_commands file ≡ some cs
    → find_command kind cs ≡ some c
    → dylib_command kind name ≡ ok c
    → NamesDylib kind file name
unfolding dylib_command slice
dylib_command-NamesDylib kind name c file cs read found h =
    let (encoded, ee, h1) = >>=-eq-ok (encode name) _ h in
    let raw = encoded ++ (0 ∷ []) in
    let fs = dylib_fields kind raw in
    let (head, eh, h2) = >>=-eq-ok (pack fs) _ h1 in
    let filled = zeros (dylib_size raw - 24 - length raw) in
    let same = ok-injective h2 in
    let size : length head ≡ 24 = length-pack fs head eh in
    (
      c,
      (cs, read, found),
      encoded,
      ee,
      ap (λ b. field 4 b 8) (sym same)
          ∙ field-append_left 4 head (raw ++ filled) 8 (omega arith)
          ∙ field-pack_u32 (u32 kind ∷ (u32 (dylib_size raw) ∷ [])) 24
              (u32 0 ∷ (u32 0x10000 ∷ (u32 0x10000 ∷ []))) head eh,
      ap (slice 24 (24 + length raw)) (sym same)
          ∙ ap (take (24 + length raw - 24)) (drop-append_length head (raw ++ filled) 24 size)
          ∙ take-append_length raw filled (24 + length raw - 24) (omega arith),
    )

-- A stream at an offset, with its size, is where other names for both say.
at_info :
    (made : Outcome Bytes) (at n off size : ℕ) (file : Bytes)
    → HoldsStream made at file
    → ((s : Bytes) → made ≡ ok s → n ≡ length s)
    → off ≡ at
    → size ≡ n
    → HoldsAt made off size file
at_info made at n off size file (stream, m, there) sized o z =
    (stream, m, z ∙ sized stream m, (rw (o, z, sized stream m) there))

-- What a loader takes from a file with such commands and streams.
pub Finds-NamesStreams :
    (o : Options) (a b d e f g : ℕ) (cs : List Bytes) (rebases binds exports : Outcome Bytes)
    (file : Bytes)
    → read_load_commands file ≡ some cs
    → Finds o a b d e f g cs
    → HoldsStream rebases a file
    → ((s : Bytes) → rebases ≡ ok s → b ≡ length s)
    → HoldsStream binds d file
    → ((s : Bytes) → binds ≡ ok s → e ≡ length s)
    → HoldsStream exports f file
    → ((s : Bytes) → exports ≡ ok s → g ≡ length s)
    → NamesStreams rebases binds exports file
Finds-NamesStreams o a b d e f g cs rebases binds exports file read found r rs k ks x xs =
    let (e1, e2, e3, e4, e5, e6) = dyld_info_command-reads a b d e f g found.info found.info_made in
    record {
      info = found.info;
      read = (cs, read, found.info_found);
      rebase_there =
          at_info rebases a b (field 4 found.info 8) (field 4 found.info 12) file r rs e1 e2;
      bind_there =
          at_info binds d e (field 4 found.info 16) (field 4 found.info 20) file k ks e3 e4;
      exports_there =
          at_info exports f g (field 4 found.info 40) (field 4 found.info 44) file x xs e5 e6;
    }
