-- ===== src/Struct/Pack/Sizes.antt =====
-- How long a packed structure is, and what its fields read as.
use il2cppapk2ios.Struct.{Bytes, slice, field, le_value, le_bytes, pack_unsigned, pack_i32, zeros}
use il2cppapk2ios.Struct.Laws.{
  length-le_bytes, le_value-le_bytes, take-append_le, take-append_length, drop-append_le,
  drop-append_ge,
}
use il2cppapk2ios.Struct.Pack.{Field, u32, i32, u64, s16, fixed16, pack_field, pack}
use il2cppapk2ios.Common.{
  ℕ, ◌+◌, ◌-◌, ◌^◌, ◌<◌, ◌≤◌, ◌≡◌, refl, sym, ap, ◌∙◌, arith, ltb, ltb→lt, List, [], ◌∷◌, ◌++◌,
  length, take, drop, length-append, length-take, length-drop, length-replicate, Bool-cases, inl,
  inr,
}
use il2cppapk2ios.Common.Outcome.{ok, ok-injective, >>=₂-eq-ok}

abbrev pub width : Field → ℕ
width (u32 value) = 4
width (i32 value) = 4
width (u64 value) = 8
width (s16 name) = 16

abbrev pub total_width : List Field → ℕ
total_width [] = 0
total_width (f ∷ fs) = width f + total_width fs

pack_unsigned-inv :
    (w v : ℕ) (bytes : Bytes)
    → pack_unsigned w v ≡ ok bytes
    → (v < 256 ^ w) × (bytes ≡ le_bytes w v)
unfolding pack_unsigned
pack_unsigned-inv w v bytes h = elim (Bool-cases (ltb v (256 ^ w))) [
  | inl e ↦ (ltb→lt v (256 ^ w) e, sym (ok-injective (rw e at h)))
  | inr e ↦ cc (rw e at h)
]

pack_i32-inv : (v : ℕ) (bytes : Bytes) → pack_i32 v ≡ ok bytes → bytes ≡ le_bytes 4 v
unfolding pack_i32
pack_i32-inv v bytes h = elim (Bool-cases (ltb v (2 ^ 31))) [
  | inl e ↦ sym (ok-injective (rw e at h))
  | inr e ↦ cc (rw e at h)
]

length-fixed16 : (name : Bytes) → length (fixed16 name) ≡ 16
unfolding fixed16
length-fixed16 name = omega (
  arith,
  length-append (take 16 name) (zeros (16 - length name)),
  length-take 16 name,
  length-replicate {A = ℕ} (16 - length name) 0,
)

length-pack_field : (f : Field) (bytes : Bytes) → pack_field f ≡ ok bytes → length bytes ≡ width f
unfolding pack_field
length-pack_field (u32 v) bytes h =
    ap length (pack_unsigned-inv 4 v bytes h).1 ∙ length-le_bytes 4 v
length-pack_field (i32 v) bytes h = ap length (pack_i32-inv v bytes h) ∙ length-le_bytes 4 v
length-pack_field (u64 v) bytes h =
    ap length (pack_unsigned-inv 8 v bytes h).1 ∙ length-le_bytes 8 v
length-pack_field (s16 name) bytes h = ap length (sym (ok-injective h)) ∙ length-fixed16 name

pub length-pack :
    (fs : List Field) (bytes : Bytes) → pack fs ≡ ok bytes → length bytes ≡ total_width fs
unfolding pack
length-pack [] bytes h = ap length (sym (ok-injective h))
length-pack (f ∷ fs) bytes h =
    let (head, tail, eh, et, e) = >>=₂-eq-ok (pack_field f) (pack fs) (λ a b. a ++ b) h in
    ap length e
    ∙ length-append head tail
    ∙ (rw (length-pack_field f head eh, length-pack fs tail et) refl)

-- A field read in two byte strings that follow each other.
module _ (w : ℕ) (before after : Bytes) where
  pub field-append_left :
      (i : ℕ) → i + w ≤ length before → field w (before ++ after) i ≡ field w before i
  unfolding field slice
  field-append_left i h = ap le_value (
      ap (take (i + w - i)) (drop-append_le before after i (omega arith))
      ∙ take-append_le (drop i before) after (i + w - i) (omega (arith, length-drop i before)))

  pub field-append_right :
      (at i : ℕ) → length before ≡ at → field w (before ++ after) (at + i) ≡ field w after i
  unfolding field slice
  field-append_right at i h = ap le_value (
      ap (take (at + i + w - (at + i))) (
        drop-append_ge before after (at + i) (omega arith)
        ∙ ap (λ (n : ℕ). drop n after) (omega arith))
      ∙ ap (λ (n : ℕ). take n (drop i after)) (omega arith))

-- A number that was packed as I is read back at its place.
pub field-pack_u32 :
    (before : List Field) (v : ℕ) (after : List Field) (bytes : Bytes)
    → pack (before ++ (u32 v ∷ after)) ≡ ok bytes
    → field 4 bytes (total_width before) ≡ v
unfolding pack field slice
field-pack_u32 [] v after bytes h =
    let (head, tail, eh, et, e) = >>=₂-eq-ok (pack_field (u32 v)) (pack after) (λ a b. a ++ b) h in
    let (small, whole) = pack_unsigned-inv 4 v head (unfold pack_field in eh) in
    let front = take-append_length head tail 4 (length-pack_field (u32 v) head eh) in
    rw (e) (ap le_value front ∙ ap le_value whole ∙ le_value-le_bytes 4 v small)
field-pack_u32 (f ∷ fs) v after bytes h =
    let (head, tail, eh, et, e) =
      >>=₂-eq-ok (pack_field f) (pack (fs ++ (u32 v ∷ after))) (λ a b. a ++ b) h in
    rw e (
      field-append_right 4 head tail (width f) (total_width fs) (length-pack_field f head eh)
      ∙ field-pack_u32 fs v after tail et)
