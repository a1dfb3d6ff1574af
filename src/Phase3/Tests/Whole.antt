-- ===== src/Phase3/Tests/Whole.antt =====
-- The theorem on the whole of `translate` at a small shared object.
use il2cppapk2ios.Elf.Tests.{sample_elf}
use il2cppapk2ios.Phase3.{ImageSegment, init}
use il2cppapk2ios.Phase3.Output.{IsWrittenOut}
use il2cppapk2ios.Phase3.Output.Named.{translate-NamesStreams}
use il2cppapk2ios.Phase3.Streams.{rebase_stream, bind_stream}
use il2cppapk2ios.Macho.DyldInfo.{NamesStreams}
use il2cppapk2ios.Phase3.Shim.{IsProvided, translate-IsProvided}
use il2cppapk2ios.Phase3.Tests.{small_config, options}
use il2cppapk2ios.Macho.Reader.{read_load_commands}
use il2cppapk2ios.Phase3.Loadable.{translate-IsLoadable}
use il2cppapk2ios.Phase3.Translate.{Translation, translate, commands}
use il2cppapk2ios.Common.{◌≡◌, ◌≤◌, refl, Bool, true, false, leb→le, List, [], All, length, some}
use il2cppapk2ios.Common.Outcome.{Outcome, ok, err}
use il2cppapk2ios.Struct.{Bytes, le_bytes}

-- What a call returns that has been seen to return.
abbrev pub is_ok {ℓ} : {A : Type ℓ} → Outcome A → Bool
is_ok (ok a) = true
is_ok (err e) = false

unfoldable pub value_of {ℓ} : {A : Type ℓ} (m : Outcome A) → is_ok m ≡ true → A
value_of (ok a) h = a
value_of (err e) h = cc

pub value_of-ok {ℓ} : {A : Type ℓ} (m : Outcome A) (h : is_ok m ≡ true) → m ≡ ok (value_of m h)
unfolding value_of
value_of-ok (ok a) h = refl
value_of-ok (err e) h = cc

pub init_returns : is_ok (init small_config sample_elf) ≡ true
unfolding init le_bytes
init_returns = refl

unfoldable pub segments : List ImageSegment
segments = value_of (init small_config sample_elf) init_returns

pub segments_run : init small_config sample_elf ≡ ok segments
unfolding segments
segments_run = value_of-ok (init small_config sample_elf) init_returns

translate_returns : is_ok (translate small_config options sample_elf segments) ≡ true
unfolding segments value_of init translate le_bytes
translate_returns = refl

result : Translation
result = value_of (translate small_config options sample_elf segments) translate_returns

reserve_inside : 1024 ≤ length result.fixups.image
unfolding result segments value_of init translate le_bytes
reserve_inside = leb→le 1024 (length result.fixups.image) refl

translate-IsLoadable_example :
    (cs : List Bytes) × (commands small_config options segments result.linkedit
        result.rebase_stream_size result.bind_stream_size
      ≡ ok cs)
    × (read_load_commands result.output ≡ some cs)
unfolding result
translate-IsLoadable_example =
    translate-IsLoadable small_config options sample_elf segments result
      (value_of-ok (translate small_config options sample_elf segments) translate_returns)

translate-NamesStreams_example :
    IsWrittenOut small_config result
    × NamesStreams
        (rebase_stream result.fixups.rebases)
        (bind_stream 1 result.fixups.bindings)
        (ok [])
        result.output
unfolding result
translate-NamesStreams_example =
    translate-NamesStreams small_config 8 options sample_elf segments result refl
      (value_of-ok (translate small_config options sample_elf segments) translate_returns)
      reserve_inside

translate-IsProvided_example : All (IsProvided sample_elf) result.fixups.bindings
unfolding result
translate-IsProvided_example =
    translate-IsProvided small_config options sample_elf segments result refl
      (value_of-ok (translate small_config options sample_elf segments) translate_returns)
