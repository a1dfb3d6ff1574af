-- ===== src/Phase4/Ending.antt =====
-- The end of the file of phase4.py: the export trie, the string table, and nothing behind them.
use il2cppapk2ios.Align.{align}
use il2cppapk2ios.Align.Bounds.{align_least}
use il2cppapk2ios.Phase3.Translate.{Linkedit}
use il2cppapk2ios.Phase4.Translate.{Linkedit4, linkedit4, resize, place_exports}
use il2cppapk2ios.Common.{
  ℕ, ◌+◌, ◌-◌, ◌≤◌, ◌≡◌, refl, sym, ap, ◌∙◌, arith, ltb, [], ◌∷◌, length, length-append,
  length-take, length-drop, length-replicate, take, drop, Bool-cases, inl, inr,
}
use il2cppapk2ios.Struct.{Bytes, slice, splice, zeros}
use il2cppapk2ios.Struct.Copy.{length-splice_sized, slice-splice_whole, slice-splice_before}
use il2cppapk2ios.Struct.Laws.{take-append_le, drop-append_le, drop-take, take-take}

length-resize : (n : ℕ) (bytes : Bytes) → length (resize n bytes) ≡ n
unfolding resize
length-resize n bytes = elim (Bool-cases (ltb (length bytes) n)) [
  | inl e ↦ rw e (
      ground (
        arith,
        e,
        length-append bytes (zeros (n - length bytes)),
        length-replicate {A = ℕ} (n - length bytes) 0,
      ))
  | inr e ↦ rw e (ground (arith, e, length-take n bytes))
]

-- What stands below both ends is as it was.
slice-resize :
    (n start stop : ℕ) (bytes : Bytes)
    → start ≤ stop
    → stop ≤ n
    → stop ≤ length bytes
    → slice start stop (resize n bytes) ≡ slice start stop bytes
unfolding resize slice
slice-resize n start stop bytes h k m = elim (Bool-cases (ltb (length bytes) n)) [
  | inl e ↦ rw e (
      ap (take (stop - start)) (drop-append_le bytes (zeros (n - length bytes)) start (omega arith))
      ∙ take-append_le (drop start bytes) (zeros (n - length bytes)) (stop - start)
          (omega (arith, length-drop start bytes)))
  | inr e ↦ rw e (
      ap (take (stop - start)) (drop-take start n bytes)
      ∙ take-take (stop - start) (n - start) (drop start bytes) (omega arith))
]

-- The parts of __LINKEDIT follow each other, and the last one ends with the file.
pub record IsFinal (l : Linkedit4) (before export_stream after : Bytes) (bind_end : ℕ)
    : Type 0 where
  pub ends : length after ≡ l.fileoff + l.size
  pub symbols_last : l.str_off + 1 ≡ length after
  pub behind_binds : bind_end ≤ l.export_off
  pub exports_there : slice l.export_off (l.export_off + length export_stream) after ≡ export_stream
  pub string_table : slice l.str_off (l.str_off + 1) after ≡ 0 ∷ []
  pub others :
      (start stop : ℕ)
      → start ≤ stop
      → stop ≤ bind_end
      → slice start stop after ≡ slice start stop before

module _ (l : Linkedit) (rebase_size bind_size : ℕ) (export_stream before : Bytes) where
  abbrev pub final : Linkedit4
  final = linkedit4 l rebase_size bind_size (length export_stream)

  abbrev pub bind_end : ℕ
  bind_end = align (l.fileoff + rebase_size) 8 + bind_size

  final_parts :
      (bind_end ≤ final.export_off)
      × (final.str_off ≡ final.export_off + length export_stream)
      × (final.final_size ≡ final.str_off + 1)
      × (final.fileoff + final.size ≡ final.final_size)
  unfolding linkedit4
  final_parts =
      let (_, up, _, _) = align_least 3 (l.fileoff + rebase_size) in
      let (_, up', _, _) = align_least 3 (align (l.fileoff + rebase_size) 8 + bind_size) in
      (omega (arith, up'), refl, omega (arith, up, up'), refl)

  -- If the file of phase 3 reaches the end of its bind stream, the new file ends with __LINKEDIT and
  -- the string table, has the export trie at its offset, and is unchanged up to the bind stream's
  -- end.
  pub place_exports-IsFinal :
      bind_end ≤ length before
      → IsFinal final before export_stream (place_exports final export_stream before) bind_end
  unfolding place_exports
  place_exports-IsFinal h =
      let (low, str, size, ending) = final_parts in
      let n = length export_stream in
      let base = resize final.final_size before in
      let base_length = length-resize final.final_size before in
      let room : final.export_off + n ≤ length base = omega arith in
      let with_exports = splice base final.export_off (final.export_off + n) export_stream in
      let exports_length = length-splice_sized base export_stream final.export_off n refl room in
      let room' : final.str_off + 1 ≤ length with_exports = omega arith in
      record {
        ends = length-splice_sized with_exports (0 ∷ []) final.str_off 1 refl room' ∙ omega arith;
        symbols_last =
            sym
              (length-splice_sized with_exports (0 ∷ []) final.str_off 1 refl room' ∙ omega arith);
        behind_binds = low;
        exports_there =
            slice-splice_before with_exports (0 ∷ []) final.str_off 1 refl room' final.export_off
              (final.export_off + n) (omega arith) (omega arith)
            ∙ slice-splice_whole base export_stream final.export_off n refl room;
        string_table = slice-splice_whole with_exports (0 ∷ []) final.str_off 1 refl room';
        others = λ start stop a b.
            slice-splice_before with_exports (0 ∷ []) final.str_off 1 refl room' start stop a
              (omega arith)
            ∙ slice-splice_before base export_stream final.export_off n refl room start stop a
                (omega arith)
            ∙ slice-resize final.final_size start stop before a (omega arith) (omega arith);
      }
