-- ===== src/Elf/Tables.antt =====
-- What the reading of a table of entries returns, for the two tables of src/il2cppapk2ios/elf.py.
use il2cppapk2ios.Elf.{read_table}
use il2cppapk2ios.Common.{
  ℕ, zero, suc, ◌+◌, ◌*◌, ◌<◌, ◌≤◌, ◌≡◌, refl, sym, ap, ◌∙◌, arith, List, ◌∷◌, length, get_elem?,
  some, ◌⊎◌, inl, inr,
}
use il2cppapk2ios.Common.Outcome.{Outcome, ok, err, ok-injective, >>=₂-eq-ok, struct_error}

-- The entry with each number stands where the table says.
module _ {A : Type 0} (entry_at : ℕ → Outcome A) (entsize : ℕ) where
  pub read_table-get :
      (count start : ℕ) (entries : List A)
      → read_table entry_at entsize count start ≡ ok entries
      → (length entries ≡ count)
        × ((i : ℕ)
            → i < count
            → (a : A) × (get_elem? entries i ≡ some a) × (entry_at (start + i * entsize) ≡ ok a))
  unfolding read_table
  read_table-get zero start entries h = rw (← ok-injective h) (refl, λ i l. absurd (omega arith))
  read_table-get (suc count) start entries h =
      let (a, rest, ea, er, e) =
        >>=₂-eq-ok (entry_at start) (read_table entry_at entsize count (start + entsize)) ◌∷◌ h in
      let (n, more) = read_table-get count (start + entsize) rest er in
      rw e (ap suc n, entry a rest ea more)
    where
      entry :
          (a : A) (rest : List A)
          → entry_at start ≡ ok a
          → ((i : ℕ)
              → i < count
              → (b : A) × (get_elem? rest i ≡ some b)
                × (entry_at (start + entsize + i * entsize) ≡ ok b))
          → (i : ℕ) → i < suc count
          → (b : A) × (get_elem? (a ∷ rest) i ≡ some b) × (entry_at (start + i * entsize) ≡ ok b)
      entry a rest ea more zero l =
          let e : start + 0 * entsize ≡ start = omega arith in (a, refl, rw e ea)
      entry a rest ea more (suc i) l =
          let (b, g, eb) = more i (omega arith) in
          let e : start + suc i * entsize ≡ start + entsize + i * entsize = grind arith in
          (b, g, rw e eb)

-- An entry that raises makes the table raise, if all entries up to it raise the same error or none.
pub read_table-err :
    {A : Type 0} (entry_at : ℕ → Outcome A) (entsize count start i : ℕ)
    → ((off : ℕ)
        → off ≤ start + i * entsize
        → ((a : A) × (entry_at off ≡ ok a)) ⊎ (entry_at off ≡ err struct_error))
    → i < count
    → entry_at (start + i * entsize) ≡ err struct_error
    → read_table entry_at entsize count start ≡ err struct_error
unfolding read_table
read_table-err entry_at entsize zero start i total l h = absurd (omega arith)
read_table-err entry_at entsize (suc count) start zero total l h =
    let e : start + 0 * entsize ≡ start = omega arith in
    let h' : entry_at start ≡ err struct_error = ap entry_at (sym e) ∙ h in rw h' refl
read_table-err entry_at entsize (suc count) start (suc i) total l h =
    let e : start + suc i * entsize ≡ start + entsize + i * entsize = grind arith in
    let rest =
      read_table-err entry_at entsize count (start + entsize) i (λ off l'. total off (omega arith))
        (omega arith) (ap entry_at (sym e) ∙ h) in
    elim (total start (omega arith)) [ inr e' ↦ rw e' refl | inl (a, e') ↦ rw (e', rest) refl ]
