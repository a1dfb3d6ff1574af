-- ===== src/Phase3/Bind/Stream.antt =====
-- The stream of `_bind_stream` as a whole, and when it means what the relocations mean.
use mathlib.Core.List.{Perm}
use il2cppapk2ios.Phase3.Streams.{Binding, binding_le, bind_stream}
use il2cppapk2ios.Phase3.Bind.Opcodes.{
  Bound, Registers, ready, blank, go, run_go, read_binds, bind_step, operands,
}
use il2cppapk2ios.Phase3.Bind.Meaning.{
  IsPlain, as_written, as_meant, register_addend, stream_bytes, bind_each-bytes, run-stream,
  length-stream_bytes,
}
use il2cppapk2ios.Common.{
  ℕ, suc, ◌+◌, ◌≤◌, ◌≡◌, ◌↔◌, refl, sym, ap, ◌∙◌, arith, List, [], ◌∷◌, length, All, some,
}
use il2cppapk2ios.Common.Int.{ℤ, pos}
use il2cppapk2ios.Common.Outcome.{ok, ok-injective}
use il2cppapk2ios.Common.Sort.{sorted, sorted-perm, sorted-All}
use il2cppapk2ios.Struct.{Bytes}

abbrev numbered : ℕ → Registers
numbered o = record {
  type = 0;
  next = record { ordinal = o; symbol = []; addend = pos 0; segment = 0; offset = 0 };
}

step-ordinal :
    (o : ℕ) (rest : Bytes) → o ≤ 15 → bind_step (0x10 + o) blank rest ≡ go (numbered o) rest
unfolding bind_step
step-ordinal o rest h = ground arith

step-type :
    (o : ℕ) (rest : Bytes) → bind_step 0x51 (numbered o) rest ≡ go (ready o [] (pos 0) 0 0) rest
unfolding bind_step
step-type o rest = refl

read_binds-bytes :
    (o : ℕ) (items : List Binding)
    → o ≤ 15
    → All IsPlain items
    → read_binds ((0x10 + o) ∷ (0x51 ∷ stream_bytes items (0 ∷ [])))
      ≡ some (as_written o (pos 0) items)
unfolding read_binds
read_binds-bytes o items h ps =
    let rest = stream_bytes items (0 ∷ []) in
    run_go (suc (length rest)) (0x10 + o) blank (numbered o) (0x51 ∷ rest) (0x51 ∷ rest)
      (step-ordinal o (0x51 ∷ rest) h)
    ∙ run_go (length rest) 0x51 (numbered o) (ready o [] (pos 0) 0 0) rest rest (step-type o rest)
    ∙ run-stream items (length rest) o [] (pos 0) 0 0 ps
        (omega (arith, length-stream_bytes items (0 ∷ [])))

bind_stream-bytes :
    (o : ℕ) (items : List Binding)
    → 1 ≤ o
    → o ≤ 15
    → All IsPlain items
    → bind_stream o items
      ≡ ok ((0x10 + o) ∷ (0x51 ∷ stream_bytes (sorted binding_le items) (0 ∷ [])))
unfolding bind_stream
bind_stream-bytes o items lo hi ps =
    let (body, e, more) =
      bind_each-bytes (sorted binding_le items) (sorted-All binding_le IsPlain items ps) in
    ground (arith, e, more (0 ∷ []), operands o)

-- With an ordinal from 1 to 15, and imports with encodable names without NUL in the first 16
-- segments, the stream is written, and an interpreter of the opcodes binds the recorded places,
-- each as often as it was recorded, in ascending order; a binding with the addend 0 gets the addend
-- of the last one before it that has another.
pub read_binds-bind_stream :
    (ordinal : ℕ) (items : List Binding)
    → 1 ≤ ordinal
    → ordinal ≤ 15
    → All IsPlain items
    → (stream : Bytes) × (bind_stream ordinal items ≡ ok stream)
      × (read_binds stream ≡ some (as_written ordinal (pos 0) (sorted binding_le items)))
      × Perm (sorted binding_le items) items
read_binds-bind_stream o items lo hi ps = (
  (0x10 + o) ∷ (0x51 ∷ stream_bytes (sorted binding_le items) (0 ∷ [])),
  bind_stream-bytes o items lo hi ps,
  read_binds-bytes o (sorted binding_le items) hi (sorted-All binding_le IsPlain items ps),
  sorted-perm binding_le items,
)

-- No import with the addend 0 stands behind one with another addend, nor follows `before`.
abbrev pub AddendsKept : ℤ → List Binding → Type 0
AddendsKept before [] = Unit
AddendsKept before (item ∷ items) =
    (register_addend before item ≡ item.addend) × AddendsKept item.addend items

kept→eq :
    (o : ℕ) (before : ℤ) (items : List Binding)
    → AddendsKept before items
    → as_written o before items ≡ as_meant o items
unfolding as_written as_meant
kept→eq o before [] h = refl
kept→eq o before (item ∷ items) (e, h) = rw (e, kept→eq o item.addend items h)

eq→kept :
    (o : ℕ) (before : ℤ) (items : List Binding)
    → as_written o before items ≡ as_meant o items
    → AddendsKept before items
unfolding as_written as_meant
eq→kept o before [] h = tt
eq→kept o before (item ∷ items) h =
    let e : register_addend before item ≡ item.addend = ap first_addend h in
    (e, eq→kept o item.addend items (rw e at (ap behind h)))
  where
    first_addend : List Bound → ℤ
    first_addend [] = pos 0
    first_addend (b ∷ bs) = b.addend

    behind : List Bound → List Bound
    behind [] = []
    behind (b ∷ bs) = bs

some_same : {A : Type 0} {a b : A} → some a ≡ some b → a ≡ b
some_same h = cc

-- Under the same conditions, every place is bound with the addend of its own relocation exactly
-- if, in ascending order, no import with the addend 0 stands behind one with another addend.
pub binds_meant_iff :
    (ordinal : ℕ) (items : List Binding) (stream : Bytes)
    → 1 ≤ ordinal
    → ordinal ≤ 15
    → All IsPlain items
    → bind_stream ordinal items ≡ ok stream
    → (read_binds stream ≡ some (as_meant ordinal (sorted binding_le items)))
      ↔ AddendsKept (pos 0) (sorted binding_le items)
binds_meant_iff o items stream lo hi ps h =
    let sorts = sorted binding_le items in
    let read : read_binds stream ≡ some (as_written o (pos 0) sorts) =
      rw (← ok-injective (sym (bind_stream-bytes o items lo hi ps) ∙ h))
        (read_binds-bytes o sorts hi (sorted-All binding_le IsPlain items ps)) in
    (
      λ meant. eq→kept o (pos 0) sorts (some_same (sym read ∙ meant)),
      λ kept. read ∙ ap some (kept→eq o (pos 0) sorts kept),
    )
