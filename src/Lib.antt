-- ===== src/Lib.antt =====
-- Verification library of il2cppapk2ios, which turns an AArch64 Android shared object (ELF) into
-- an iOS dylib (Mach-O).
--
-- The program's parts. `Elf64` (src/il2cppapk2ios/elf.py) parses the file. A translator takes its
-- program headers and its relocations: `Phase2Translator` (src/il2cppapk2ios/translate.py) leaves
-- imports unresolved; `Phase3Translator` (src/il2cppapk2ios/phase3.py) also writes the rebase and
-- bind streams by which dyld fixes pointers; `Phase4Translator` (src/il2cppapk2ios/phase4.py)
-- takes the file of phase 3, adds an export trie and a string table and writes new load commands.
-- One call of `translate` is a loop over relocations that changes the image, the list of rebases,
-- the list of bindings and the counters, and then a sequence of writes into the image. The imports
-- that a binding names are defined by the shim whose sources src/il2cppapk2ios/shimgen.py
-- generates. src/il2cppapk2ios/apk.py takes the shared object out of an APK,
-- src/il2cppapk2ios/macho.py writes a minimal executable, and `main` of src/il2cppapk2ios/cli.py
-- calls one of these parts and writes and prints what it returns.
--
-- The files.
--   Common: names of the libraries that are passed on, the Boolean tests, lists with native lengths
--     (Lists), integers and their two's complement (Int), masks as arithmetic (Bits), exceptions as
--     values (Outcome), `sorted` (Sort), sorted sets (SortedSet), `str` as a list of code points with
--     UTF-8 (Text), its numerals (Digits), its parts between slashes (Paths).
--   Struct: `bytes` as lists of numbers, slices and slice assignment, `struct.pack` and
--     `struct.unpack_from`; Laws and Copy have the facts on what a write leaves alone.
--   Align: `_align` and `_floor` of phase3.py and translate.py.
--   Leb: `_uleb128` and `_sleb128` of phase3.py; `_uleb128` of phase4.py is the same loop.
--   Elf: elf.py. `parse` is the constructor; Symbols, Relocations and Report have the methods, of
--     which phase3.py and translate.py share the loop of `_iter_relocations`.
--   Phase2: translate.py. `init_phase2` and `map_loads` are the constructor, Loop the relocation
--     loop, Translate the rest of `translate`.
--   Phase3: phase3.py. `init` and `layout_segments` are the constructor, `location` is `_location`,
--     Commands has the load commands, Streams `_rebase_stream` and `_bind_stream`, Fixups the
--     relocation loop with its variables as the record `Fixups`, Translate the rest of `translate`.
--     Rebase and Bind have interpreters of the dyld opcodes as specifications of the streams.
--   Phase4: phase4.py. `exports` is `_exports`, Trie is `_build_export_trie` with dyld's walk as its
--     specification, Sections the section metadata, Translate the rest of `translate`.
--   Shimgen: src/il2cppapk2ios/shimgen.py. Tables has the symbol sets, `records` is the list that
--     `generate_shim_scaffold` makes, Traps is `_trap_assembly` with a reader of its strings, Phdr is
--     `_elf_phdr_compat_source` with a reader of its entries, Manifest the counts and the files.
--   Apk: apk.py, on the entries of the archive. Version has `unity_version` and the search for its
--     regular expression, with a relation that says what matches as its specification.
--   Macho: macho.py; Reader, which reads the load commands of a file as a loader does; and DyldInfo,
--     which takes from them the offsets of the streams of dyld and the names of dylibs.
--   Cli: cli.py. `main` dispatches on the parsed arguments; its result holds the files that a command
--     writes and what it prints.
--
-- The model. An exception is a value `err e` with one constructor for each `raise`, and
-- `struct_error` for the exceptions of `struct`, which the program does not catch. `overflow_error`
-- is what `struct` raises at an offset of 2 ^ 63 or more. Numbers are
-- natural numbers, and integers where the code has negative ones (the addends); `&
-- 0xFFFFFFFFFFFFFFFF` is `wrap64`. Slice assignment changes the length of the image where the two
-- lengths differ, as in Python. The loop of `_uleb128` recurs on the accessibility of its value,
-- that of `_sleb128` on the accessibility of the number under the sign: both end for every
-- integer. `range(32)` of the layout loop of the export trie is fuel 32 with the code's error at
-- its end. The interpreters of the specifications have fuel: those of the streams as many steps as
-- the stream has bytes, since every opcode takes at least one; dyld's walk one more than the name
-- has bytes, since every edge takes at least one. `int(math.log2(x))` takes at most x halvings.
--
-- The offset that the export trie stores in each node is kept in a list at the number of the node
-- in `nodes`; the nodes of the tree are not shared.
--
-- Parameters. What a path reads as, the entries of an archive as zipfile lists them with what reading
-- them returns or raises, the size of a file and the files of a directory are arguments of `main`. The constant C
-- and assembly texts of shimgen.py with its templates are the record `Texts`, and json.dumps is a
-- function of the manifest.
--
-- Not modelled: the creation of directories, the temporary file between phases 3 and 4, the parsing
-- of the command line, and the formatting of the reports that are printed with their hexadecimal
-- strings, which are input and output; what a command has already written when it raises; the C and
-- assembly templates, the host application and the scripts, which are not Python. Of the dyld
-- formats only the opcodes that the program writes are interpreted. The note strings of the reports
-- are text and are left out.
pub mod Common
pub mod Align
pub mod Struct
pub mod Leb
pub mod Elf
pub mod Phase2
pub mod Phase3
pub mod Phase4
pub mod Shimgen
pub mod Apk
pub mod Macho
pub mod Cli
