-- ===== src/Phase3/Bind/Opcodes.antt =====
-- An interpreter of the bind opcodes that the program uses, and its steps on what `bind_one` wrote.
use mathlib.Core.Option
use il2cppapk2ios.Common.{
  ℕ, zero, suc, ◌+◌, ◌-◌, ◌%◌, ◌≤◌, ◌<◌, ◌≡◌, refl, arith, ◌==◌, List, [], ◌∷◌, ◌++◌, length, All,
  Option, none, some, if◌then◌else◌, bit_or, true,
}
use il2cppapk2ios.Common.Bits.{holds_below, holds_below-elim}
use il2cppapk2ios.Common.Int.{ℤ, pos}
use il2cppapk2ios.Leb.{uleb, sleb128}
use il2cppapk2ios.Leb.Uleb.{read_uleb, read_uleb-uleb}
use il2cppapk2ios.Leb.Sleb.{read_sleb, read_sleb-sleb128}
use il2cppapk2ios.Struct.{Bytes}
use il2cppapk2ios.Struct.Strings.{read_string, read_string-append}

-- A pointer that dyld binds: to a symbol of the dylib with a number, plus an addend.
pub record Bound : Type 0 where
  pub ordinal : ℕ
  pub symbol : Bytes
  pub addend : ℤ
  pub segment : ℕ
  pub offset : ℕ

pub record Registers : Type 0 where
  pub type : ℕ
  pub next : Bound

-- What one opcode does: stop, fail, go on, or bind a pointer and go on.
pub data Next : Type 0 where
  stop fail : Next
  go : Registers → Bytes → Next
  bind : Bound → Registers → Bytes → Next

set_symbol : Registers → Option (Bytes × Bytes) → Next
set_symbol r none = fail
set_symbol r (some (name, rest)) =
    let next = r.next in go (record r { next = record next { symbol = name } }) rest

set_addend : Registers → Option (ℤ × Bytes) → Next
set_addend r none = fail
set_addend r (some (value, rest)) =
    let next = r.next in go (record r { next = record next { addend = value } }) rest

set_place : ℕ → Registers → Option (ℕ × Bytes) → Next
set_place segment r none = fail
set_place segment r (some (value, rest)) =
    let next = r.next in
    go (record r { next = record next { segment = segment; offset = value } }) rest

do_bind : Registers → Bytes → Next
do_bind r rest =
    let next = r.next in
    if r.type == 1
    then bind next (record r { next = record next { offset = next.offset + 8 } }) rest
    else fail

-- The opcode is in the upper half of the byte, its operand in the lower one.
unfoldable pub bind_step : ℕ → Registers → Bytes → Next
unfolding set_symbol set_addend set_place do_bind read_string
bind_step b r bs =
    let next = r.next in
    if b == 0
    then stop
    else if b - b % 16 == 0x10
    then go (record r { next = record next { ordinal = b % 16 } }) bs
    else if b == 0x40
    then set_symbol r (read_string bs)
    else if b - b % 16 == 0x50
    then go (record r { type = b % 16 }) bs
    else if b == 0x60
    then set_addend r (read_sleb bs)
    else if b - b % 16 == 0x70
    then set_place (b % 16) r (read_uleb bs)
    else if b == 0x90
    then do_bind r bs
    else fail

unfoldable pub run : ℕ → Registers → Bytes → Option (List Bound)
unfolding bind_step
run zero r bytes = none
run (suc fuel) r [] = none
run (suc fuel) r (b ∷ bs) = elim (bind_step b r bs) [
  | stop ↦ some []
  | fail ↦ none
  | go next rest ↦ run fuel next rest
  | bind bound next rest ↦ Option.map (λ later. bound ∷ later) (run fuel next rest)
]

abbrev pub blank : Registers
blank = record {
  type = 0;
  next = record { ordinal = 0; symbol = []; addend = pos 0; segment = 0; offset = 0 };
}

-- Each opcode takes a byte at least, so the length of the stream is fuel enough.
unfoldable pub read_binds : Bytes → Option (List Bound)
unfolding run
read_binds bytes = run (length bytes) blank bytes

pub run_go :
    (fuel b : ℕ) (r next : Registers) (bs rest : Bytes)
    → bind_step b r bs ≡ go next rest
    → run (suc fuel) r (b ∷ bs) ≡ run fuel next rest
unfolding run
run_go fuel b r next bs rest h = rw (h, run)

pub run_bind :
    (fuel b : ℕ) (r next : Registers) (bound : Bound) (bs rest : Bytes)
    → bind_step b r bs ≡ bind bound next rest
    → run (suc fuel) r (b ∷ bs) ≡ Option.map (λ later. bound ∷ later) (run fuel next rest)
unfolding run
run_bind fuel b r next bound bs rest h = rw (h, run)

pub run_stop : (fuel : ℕ) (r : Registers) → run (suc fuel) r (0 ∷ []) ≡ some []
unfolding run bind_step
run_stop fuel r = refl

-- The opcodes with an operand in the lower half.
operand_table :
    holds_below (λ i. if bit_or 0x70 i == 0x70 + i then bit_or 0x10 i == 0x10 + i else (0 == 1)) 16
    ≡ true
unfolding holds_below
operand_table = refl

pub operands : (i : ℕ) → i ≤ 15 → (bit_or 0x70 i ≡ 0x70 + i) × (bit_or 0x10 i ≡ 0x10 + i)
operands i h = ground (
  arith,
  holds_below-elim (λ i. if bit_or 0x70 i == 0x70 + i then bit_or 0x10 i == 0x10 + i else (0 == 1))
      i 16 (omega arith) operand_table,
)

-- The registers with a bind of pointers under way.
abbrev pub ready : ℕ → Bytes → ℤ → ℕ → ℕ → Registers
ready ordinal symbol addend segment offset = record {
  type = 1;
  next = record {
    ordinal = ordinal;
    symbol = symbol;
    addend = addend;
    segment = segment;
    offset = offset;
  };
}

module _ (o : ℕ) (s : Bytes) (a : ℤ) (g f : ℕ) where
  pub step-symbol :
      (name rest : Bytes)
      → All (λ b. 0 < b) name
      → bind_step 0x40 (ready o s a g f) (name ++ (0 ∷ rest)) ≡ go (ready o name a g f) rest
  unfolding bind_step set_symbol
  step-symbol name rest h = rw (read_string-append name rest h)

  pub step-addend :
      (value : ℤ) (rest : Bytes)
      → bind_step 0x60 (ready o s a g f) (sleb128 value ++ rest) ≡ go (ready o s value g f) rest
  unfolding bind_step set_addend
  step-addend value rest = rw (read_sleb-sleb128 value rest)

  pub step-place :
      (segment offset : ℕ) (rest : Bytes)
      → segment ≤ 15
      → bind_step (0x70 + segment) (ready o s a g f) (uleb offset ++ rest)
        ≡ go (ready o s a segment offset) rest
  unfolding bind_step set_place
  step-place segment offset rest h = ground (arith, read_uleb-uleb offset rest)

  pub step-bind :
      (rest : Bytes)
      → bind_step 0x90 (ready o s a g f) rest
        ≡ bind
            (record { ordinal = o; symbol = s; addend = a; segment = g; offset = f })
            (ready o s a g (f + 8))
            rest
  unfolding bind_step do_bind
  step-bind rest = refl
