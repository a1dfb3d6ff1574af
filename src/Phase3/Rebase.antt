-- ===== src/Phase3/Rebase.antt =====
-- The meaning of the rebase stream: an interpreter of the opcodes, as the Mach-O headers document
-- them, visits the places that the translation recorded.
use mathlib.Core.Option
use mathlib.Core.List.{Perm}
use il2cppapk2ios.Phase3.Streams.{place_le, rebase_one, rebase_each, rebase_stream}
use il2cppapk2ios.Common.{
  ℕ, zero, suc, ◌+◌, ◌-◌, ◌*◌, ◌%◌, ◌≤◌, ◌<◌, ◌≡◌, refl, ◌∙◌, ap, arith, ◌==◌, true, List, [], ◌∷◌,
  ◌++◌, append_assoc, length, length-append, All, Option, none, some, if◌then◌else◌, bit_or,
}
use il2cppapk2ios.Common.Bits.{holds_below, holds_below-elim}
use il2cppapk2ios.Common.Outcome.{ok, ok-injective, >>=₂-eq-ok}
use il2cppapk2ios.Common.Sort.{sorted, sorted-perm, sorted-All}
use il2cppapk2ios.Leb.{uleb, uleb128-pos}
use il2cppapk2ios.Leb.Uleb.{read_uleb, read_uleb-uleb}
use il2cppapk2ios.Struct.{Bytes}

-- The registers of the interpreter.
pub record Registers : Type 0 where
  pub type : ℕ
  pub segment : ℕ
  pub offset : ℕ

-- What one opcode does: stop, go on with what is left and the places that it rebases, or fail.
pub data Next : Type 0 where
  stop fail : Next
  go : List (ℕ × ℕ) → Registers → Bytes → Next

-- `count` pointers from an offset on; those of another type than a pointer are not read.
pub places : ℕ → Registers → List (ℕ × ℕ)
places zero r = []
places (suc count) r = (r.segment, r.offset) ∷ places count (record r { offset = r.offset + 8 })

set_place : ℕ → Registers → Option (ℕ × Bytes) → Next
set_place segment r none = fail
set_place segment r (some (offset, rest)) =
    go [] (record r { segment = segment; offset = offset }) rest

-- The opcode is in the upper half of the byte, its operand in the lower one.
-- Opcodes that the program does not use fail.
rebase_step : ℕ → Registers → Bytes → Next
rebase_step b r bs =
    if b == 0
    then stop
    else if b - b % 16 == 0x10
    then go [] (record r { type = b % 16 }) bs
    else if b - b % 16 == 0x20
    then set_place (b % 16) r (read_uleb bs)
    else if (b - b % 16 == 0x50)
    then (if r.type == 1
        then go (places (b % 16) r) (record r { offset = r.offset + 8 * (b % 16) }) bs
        else fail)
    else fail

run : ℕ → Registers → Bytes → Option (List (ℕ × ℕ))
run zero r bytes = none
run (suc fuel) r [] = none
run (suc fuel) r (b ∷ bs) = elim (rebase_step b r bs) [
  | stop ↦ some []
  | fail ↦ none
  | go out next rest ↦ Option.map (λ later. out ++ later) (run fuel next rest)
]

-- Each opcode takes a byte at least, so the length of the stream is fuel enough.
pub read_rebases : Bytes → Option (List (ℕ × ℕ))
read_rebases bytes = run (length bytes) (record { type = 0; segment = 0; offset = 0 }) bytes

-- The opcode with a segment index in its lower half.
set_segment_table :
    holds_below (λ i. if bit_or 0x20 i % 16 == i then bit_or 0x20 i - i == 0x20 else (0 == 1)) 16
    ≡ true
unfolding holds_below
set_segment_table = refl

set_segment : (i : ℕ) → i ≤ 15 → (bit_or 0x20 i % 16 ≡ i) × (bit_or 0x20 i ≡ 0x20 + i)
set_segment i h = ground (
  arith,
  holds_below-elim (λ i. if bit_or 0x20 i % 16 == i then bit_or 0x20 i - i == 0x20 else (0 == 1)) i
      16 (omega arith) set_segment_table,
)

abbrev pointer_at : ℕ → ℕ → Registers
pointer_at segment offset = record { type = 1; segment = segment; offset = offset }

-- The bytes for one place.
rebase_one-bytes :
    (i a : ℕ) (bytes : Bytes)
    → rebase_one (i, a) ≡ ok bytes
    → (i ≤ 15) × (bytes ≡ (0x20 + i) ∷ (uleb a ++ (0x51 ∷ [])))
unfolding rebase_one
rebase_one-bytes i a bytes h = ground (arith, uleb128-pos a, set_segment i)

step-set :
    (i a segment offset : ℕ) (rest : Bytes)
    → i ≤ 15
    → rebase_step (0x20 + i) (pointer_at segment offset) (uleb a ++ rest)
      ≡ go [] (pointer_at i a) rest
unfolding rebase_step set_place
step-set i a segment offset rest h = ground (arith, read_uleb-uleb a rest)

step-do :
    (i a : ℕ) (rest : Bytes)
    → rebase_step 0x51 (pointer_at i a) rest ≡ go ((i, a) ∷ []) (pointer_at i (a + 8)) rest
unfolding rebase_step places
step-do i a rest = refl

run_go :
    (fuel b : ℕ) (r next : Registers) (out : List (ℕ × ℕ)) (bs rest : Bytes)
    → rebase_step b r bs ≡ go out next rest
    → run (suc fuel) r (b ∷ bs) ≡ Option.map (λ later. out ++ later) (run fuel next rest)
unfolding run
run_go fuel b r next out bs rest h = rw (h, run)

skip_nothing : (o : Option (List (ℕ × ℕ))) → Option.map (λ l. [] ++ l) o ≡ o
skip_nothing none = refl
skip_nothing (some l) = refl

-- The opcodes for one place, in any state of the registers with the pointer type.
run-rebase_one :
    (fuel segment offset i a : ℕ) (bytes rest : Bytes)
    → rebase_one (i, a) ≡ ok bytes
    → run (suc (suc fuel)) (pointer_at segment offset) (bytes ++ rest)
      ≡ Option.map (λ later. (i, a) ∷ later) (run fuel (pointer_at i (a + 8)) rest)
run-rebase_one fuel segment offset i a bytes rest h =
    let (small, e) = rebase_one-bytes i a bytes h in
    rw (e, append_assoc)
      (run_go (suc fuel) (0x20 + i) _ (pointer_at i a) [] _ (0x51 ∷ rest)
          (step-set i a segment offset (0x51 ∷ rest) small)
        ∙ skip_nothing _
        ∙ run_go fuel 0x51 (pointer_at i a) _ _ rest rest (step-do i a rest))

-- The opcodes for all places, with what stops the interpreter behind them.
run-rebase_each :
    (ls : List (ℕ × ℕ)) (fuel segment offset : ℕ) (bytes : Bytes)
    → rebase_each ls ≡ ok bytes
    → 2 * length ls < fuel
    → run fuel (pointer_at segment offset) (bytes ++ (0 ∷ [])) ≡ some ls
unfolding rebase_each
run-rebase_each [] zero segment offset bytes h f = absurd (omega arith)
run-rebase_each [] (suc fuel) segment offset bytes h f =
    rw (← ok-injective h) (unfold run rebase_step in refl)
run-rebase_each (l ∷ ls) zero segment offset bytes h f = absurd (omega arith)
run-rebase_each (l ∷ ls) (suc zero) segment offset bytes h f = absurd (omega arith)
run-rebase_each ((i, a) ∷ ls) (suc (suc fuel)) segment offset bytes h f =
    let (head, tail, eh, et, e) = >>=₂-eq-ok (rebase_one (i, a)) (rebase_each ls) ◌++◌ h in
    rw (e, append_assoc)
      (run-rebase_one fuel segment offset i a head (tail ++ (0 ∷ [])) eh
        ∙ ap (Option.map (λ later. (i, a) ∷ later))
            (run-rebase_each ls fuel i (a + 8) tail et (omega arith)))

-- Every place takes two opcodes, so more than twice as many bytes.
length-rebase_each :
    (ls : List (ℕ × ℕ)) (bytes : Bytes) → rebase_each ls ≡ ok bytes → 2 * length ls ≤ length bytes
unfolding rebase_each
length-rebase_each [] bytes h = omega arith
length-rebase_each ((i, a) ∷ ls) bytes h =
    let (head, tail, eh, et, e) = >>=₂-eq-ok (rebase_one (i, a)) (rebase_each ls) ◌++◌ h in
    let (small, eb) = rebase_one-bytes i a head eh in
    omega (
      arith,
      length-rebase_each ls tail et,
      ap length e,
      ap length eb,
      length-append head tail,
      length-append (uleb a) (0x51 ∷ []),
    )

rebase_each_total :
    (ls : List (ℕ × ℕ))
    → All (λ (l : ℕ × ℕ). l.0 ≤ 15) ls
    → (bytes : Bytes) × (rebase_each ls ≡ ok bytes)
unfolding rebase_each rebase_one
rebase_each_total [] h = ([], refl)
rebase_each_total ((i, a) ∷ ls) (small, later) =
    let (tail, e) = rebase_each_total ls later in
    ((bit_or 0x20 i ∷ (uleb a ++ (0x51 ∷ []))) ++ tail, ground (arith, uleb128-pos a, e))

step-type :
    (rest : Bytes)
    → rebase_step 0x11 (record { type = 0; segment = 0; offset = 0 }) rest
      ≡ go [] (pointer_at 0 0) rest
unfolding rebase_step
step-type rest = refl

read_rebases_body :
    (ls : List (ℕ × ℕ)) (body : Bytes)
    → rebase_each ls ≡ ok body
    → read_rebases (0x11 ∷ (body ++ (0 ∷ []))) ≡ some ls
unfolding read_rebases
read_rebases_body ls body e =
    let rest = body ++ (0 ∷ []) in
    run_go (length rest) 0x11 _ (pointer_at 0 0) [] rest rest (step-type rest)
    ∙ skip_nothing _
    ∙ run-rebase_each ls (length rest) 0 0 body e
        (omega (arith, length-rebase_each ls body e, length-append body (0 ∷ [])))

-- If every place lies in one of the first 16 segments, the stream is written, and an interpreter
-- of the opcodes rebases exactly the recorded places, each as often as it was recorded, in
-- ascending order.
pub read_rebases-rebase_stream :
    (locations : List (ℕ × ℕ))
    → All (λ (l : ℕ × ℕ). l.0 ≤ 15) locations
    → (stream : Bytes) × (rebase_stream locations ≡ ok stream)
      × (read_rebases stream ≡ some (sorted place_le locations))
      × Perm (sorted place_le locations) locations
unfolding rebase_stream
read_rebases-rebase_stream locations h =
    let ls = sorted place_le locations in
    let (body, e) = rebase_each_total ls (sorted-All place_le _ locations h) in
    (0x11 ∷ (body ++ (0 ∷ [])), rw e, read_rebases_body ls body e, sorted-perm place_le locations)
