-- ===== src/Phase3/Bind/Meaning.antt =====
-- What the interpreter binds when it reads the stream of `_bind_stream`.
use mathlib.Core.Option
use il2cppapk2ios.Phase3.Streams.{Binding, addend_opcode, bind_one, bind_each}
use il2cppapk2ios.Phase3.Bind.Opcodes.{
  Bound, Registers, ready, run, run_go, run_bind, run_stop, operands, step-symbol, step-addend,
  step-place, step-bind,
}
use il2cppapk2ios.Common.{
  ℕ, zero, suc, ◌+◌, ◌*◌, ◌≤◌, ◌<◌, ◌≡◌, refl, ap, ◌∙◌, arith, true, false, List, [], ◌∷◌, ◌++◌,
  append_assoc, length, length-append, All, some, if◌then◌else◌, Bool-cases, inl, inr,
}
use il2cppapk2ios.Common.Int.{ℤ, is_zero}
use il2cppapk2ios.Common.Outcome.{ok, err}
use il2cppapk2ios.Common.Text.{encode, encode_nonzero}
use il2cppapk2ios.Leb.{uleb, uleb128-pos}
use il2cppapk2ios.Struct.{Bytes}

-- The bytes of a name, where it can be encoded.
pub encoded : List ℕ → Bytes
encoded name = elim (encode name) [ ok bytes ↦ bytes | err e ↦ [] ]

encoded-ok : (name bytes : Bytes) → encode name ≡ ok bytes → encoded name ≡ bytes
unfolding encoded
encoded-ok name bytes h = rw (h, encoded)

-- The addend that the register holds when a binding is made.
abbrev pub register_addend : ℤ → Binding → ℤ
register_addend before item = if is_zero item.addend then before else item.addend

abbrev pub bound_to : ℕ → ℤ → Binding → Bound
bound_to ordinal addend item = record {
  ordinal = ordinal;
  symbol = encoded item.shim_symbol;
  addend = addend;
  segment = item.segment_index;
  offset = item.segment_offset;
}

-- The pointers as the stream says them: an addend 0 is left out, so the last other one stays.
unfoldable pub as_written : ℕ → ℤ → List Binding → List Bound
as_written ordinal before [] = []
as_written ordinal before (item ∷ items) =
    bound_to ordinal (register_addend before item) item
    ∷ as_written ordinal (register_addend before item) items

-- The pointers as the relocations mean them.
unfoldable pub as_meant : ℕ → List Binding → List Bound
as_meant ordinal [] = []
as_meant ordinal (item ∷ items) = bound_to ordinal item.addend item ∷ as_meant ordinal items

-- The name of an import can be encoded and holds no NUL, and its segment is one of the first 16.
pub record IsPlain (item : Binding) : Type 0 where
  pub bytes : Bytes
  pub encodes : encode item.shim_symbol ≡ ok bytes
  pub no_nul : All (λ c. 0 < c) item.shim_symbol
  pub small : item.segment_index ≤ 15

-- The bytes for one import, with what follows them.
abbrev pub item_bytes : Binding → Bytes → Bytes
item_bytes item rest =
    0x40
    ∷ (encoded item.shim_symbol
        ++ (0
            ∷ (addend_opcode item.addend
                ++ ((0x70 + item.segment_index) ∷ (uleb item.segment_offset ++ (0x90 ∷ rest))))))

bind_one-bytes : (item : Binding) → IsPlain item → bind_one item ≡ ok (item_bytes item [])
unfolding bind_one
bind_one-bytes item p = ground (
  arith,
  p.encodes,
  p.small,
  encoded-ok item.shim_symbol p.bytes p.encodes,
  uleb128-pos item.segment_offset,
  operands item.segment_index,
)

item_bytes-append :
    (item : Binding) (rest : Bytes) → item_bytes item [] ++ rest ≡ item_bytes item rest
item_bytes-append item rest = simp append_assoc

-- The opcodes behind the addend.
run-place :
    (fuel o : ℕ) (s : Bytes) (a : ℤ) (g f i at : ℕ) (rest : Bytes)
    → i ≤ 15
    → run (suc (suc fuel)) (ready o s a g f) ((0x70 + i) ∷ (uleb at ++ (0x90 ∷ rest)))
      ≡ Option.map
          (λ later.
            record { ordinal = o; symbol = s; addend = a; segment = i; offset = at } ∷ later)
          (run fuel (ready o s a i (at + 8)) rest)
run-place fuel o s a g f i at rest h =
    run_go (suc fuel) (0x70 + i) _ (ready o s a i at) _ (0x90 ∷ rest)
      (step-place o s a g f i at (0x90 ∷ rest) h)
    ∙ run_bind fuel 0x90 (ready o s a i at) _ _ rest rest (step-bind o s a i at rest)

-- The registers after an import.
abbrev after : ℕ → ℤ → Binding → Registers
after o addend item =
    ready o (encoded item.shim_symbol) addend item.segment_index (item.segment_offset + 8)

module _ (fuel o : ℕ) (s : Bytes) (before : ℤ) (g f : ℕ) (item : Binding) (p : IsPlain item) where
  run-symbol :
      (more : Bytes)
      → run (suc fuel) (ready o s before g f) (0x40 ∷ (encoded item.shim_symbol ++ (0 ∷ more)))
        ≡ run fuel (ready o (encoded item.shim_symbol) before g f) more
  run-symbol more = run_go fuel 0x40 _ _ _ more (
      step-symbol o s before g f (encoded item.shim_symbol) more (
        rw (encoded-ok item.shim_symbol p.bytes p.encodes)
          (encode_nonzero item.shim_symbol p.bytes p.no_nul p.encodes)))

module _ (fuel o : ℕ) (s : Bytes) (before : ℤ) (g f : ℕ) (item : Binding) (p : IsPlain item)
    (rest : Bytes) where
  -- One import whose addend is 0, and one with another addend.
  run-zero :
      is_zero item.addend ≡ true
      → run (suc (suc (suc fuel))) (ready o s before g f) (item_bytes item rest)
        ≡ Option.map (λ later. bound_to o before item ∷ later) (run fuel (after o before item) rest)
  unfolding addend_opcode
  run-zero z = rw z (
      run-symbol (suc (suc fuel)) o s before g f item p _
      ∙ run-place fuel o _ before g f item.segment_index item.segment_offset rest p.small)

  run-other :
      is_zero item.addend ≡ false
      → run (suc (suc (suc (suc fuel)))) (ready o s before g f) (item_bytes item rest)
        ≡ Option.map
            (λ later. bound_to o item.addend item ∷ later)
            (run fuel (after o item.addend item) rest)
  unfolding addend_opcode
  run-other z = rw z (
      run-symbol (suc (suc (suc fuel))) o s before g f item p _
      ∙ run_go (suc (suc fuel)) 0x60 _ _ _ _ (step-addend o _ before g f item.addend _)
      ∙ run-place fuel o _ item.addend g f item.segment_index item.segment_offset rest p.small)

-- The bytes for all imports, with what follows them.
abbrev pub stream_bytes : List Binding → Bytes → Bytes
stream_bytes [] rest = rest
stream_bytes (item ∷ items) rest = item_bytes item (stream_bytes items rest)

pub bind_each-bytes :
    (items : List Binding)
    → All IsPlain items
    → (bytes : Bytes) × (bind_each items ≡ ok bytes)
      × ((rest : Bytes) → bytes ++ rest ≡ stream_bytes items rest)
unfolding bind_each
bind_each-bytes [] h = ([], refl, λ rest. refl)
bind_each-bytes (item ∷ items) (p, ps) =
    let (tail, e, more) = bind_each-bytes items ps in
    (
      item_bytes item [] ++ tail,
      rw (bind_one-bytes item p, e),
      λ rest.
          append_assoc (item_bytes item []) tail rest
          ∙ item_bytes-append item (tail ++ rest)
          ∙ ap (item_bytes item) (more rest),
    )

length-item_bytes :
    (item : Binding) (rest : Bytes) → 4 + length rest ≤ length (item_bytes item rest)
length-item_bytes item rest = omega (
  arith,
  length-append (encoded item.shim_symbol) (
      0
      ∷ (addend_opcode item.addend
          ++ ((0x70 + item.segment_index) ∷ (uleb item.segment_offset ++ (0x90 ∷ rest))))),
  length-append (addend_opcode item.addend)
      ((0x70 + item.segment_index) ∷ (uleb item.segment_offset ++ (0x90 ∷ rest))),
  length-append (uleb item.segment_offset) (0x90 ∷ rest),
)

pub length-stream_bytes :
    (items : List Binding) (rest : Bytes)
    → 4 * length items + length rest ≤ length (stream_bytes items rest)
length-stream_bytes [] rest = omega arith
length-stream_bytes (item ∷ items) rest =
    omega (arith, length-stream_bytes items rest, length-item_bytes item (stream_bytes items rest))

-- The loop over the imports, with what stops the interpreter behind them.
pub run-stream :
    (items : List Binding) (fuel o : ℕ) (s : Bytes) (before : ℤ) (g f : ℕ)
    → All IsPlain items
    → 4 * length items < fuel
    → run fuel (ready o s before g f) (stream_bytes items (0 ∷ []))
      ≡ some (as_written o before items)
unfolding as_written
run-stream [] zero o s before g f h k = absurd (omega arith)
run-stream [] (suc fuel) o s before g f h k = run_stop fuel _
run-stream (item ∷ items) (suc (suc (suc (suc fuel)))) o s before g f (p, ps) k =
    elim (Bool-cases (is_zero item.addend)) [
      | inl z ↦
          run-zero (suc fuel) o s before g f item p (stream_bytes items (0 ∷ [])) z
          ∙ rw z (
              ap (Option.map (λ later. bound_to o before item ∷ later))
                (run-stream items (suc fuel) o _ before _ _ ps (omega arith)))
      | inr z ↦
          run-other fuel o s before g f item p (stream_bytes items (0 ∷ [])) z
          ∙ rw z (
              ap (Option.map (λ later. bound_to o item.addend item ∷ later))
                (run-stream items fuel o _ item.addend _ _ ps (omega arith)))
    ]
run-stream (item ∷ items) fuel o s before g f h k = absurd (omega arith)
