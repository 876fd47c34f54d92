-- ===== src/Tracker/Ranges/Wins.antt =====
-- When `set_mapping_bits` of src/superpage_tracker.h succeeds: the tables still hold what the
-- caller expects, and the middle cells are zeros.
use givy.Base.{
  ℕ, zero, suc, ◌+◌, ◌-◌, ◌≤◌, ◌<◌, ◌≡◌, refl, ◌∙◌, arith, ◌==◌, bit_or, true, set, get_or-set_ne,
  ◌⊎◌, Bool-cases, inl, inr, eq→==,
}
use givy.BitMask.{window_bound, zeros, ones}
use givy.Tracker.Ranges.Clear.{last_bits_pos}
use givy.Tracker.{Table, word_bits, Index, load, claim_cells, claim_last, set_mapping_bits}

-- Cells `lo` up to `hi` are zeros.
abbrev pub ZeroCells : Table → ℕ → ℕ → Type 0
ZeroCells t lo hi = (j : ℕ) → lo ≤ j → j < hi → load t j ≡ 0

claim_cells_all :
    (left i : ℕ) (t : Table)
    → ZeroCells t i (i + left)
    → ((claim_cells left i t).0 ≡ i + left)
      × ((j : ℕ) → i + left ≤ j → load (claim_cells left i t).1 j ≡ load t j)
unfolding claim_cells
claim_cells_all zero i t h = (omega arith, λ j le. refl)
claim_cells_all (suc left) i t h =
    let t' = set t i (ones word_bits) in
    let keep = λ (j : ℕ) (lt : i < j). get_or-set_ne t i j (ones word_bits) 0 (omega arith) in
    let rest =
      claim_cells_all left (i + 1) t'
        (λ j lo hi. keep j (omega arith) ∙ h j (omega arith) (omega arith)) in
    rw (eq→== (load t i) zeros (h i (omega arith) (omega arith)))
      (omega (arith, rest.0), λ j le. rest.1 j (omega arith) ∙ keep j (omega arith))

claim_last_wins :
    (t : Table) (s e : Index) (xe w idx : ℕ)
    → idx ≡ e.array_idx
    → (e.bit_idx ≡ 0) ⊎ (load t e.array_idx ≡ xe)
    → (claim_last t s e xe w idx).0 ≡ true
unfolding claim_last
claim_last_wins t s e xe w idx here last =
    elim (Bool-cases (window_bound word_bits 0 e.bit_idx == zeros)) [
      | inl empty ↦ rw (eq→== _ _ here, empty) refl
      | inr more ↦ elim last [
        | inl at_start ↦ absurd (omega (arith, last_bits_pos e.bit_idx more))
        | inr read ↦ rw (eq→== _ _ here, more, eq→== _ _ read) refl
      ]
    ]

-- `set_mapping_bits` returns true where the expected words are those that the table holds and the
-- middle cells are zeros. The last word does not count where the range ends with a cell.
pub set_mapping_bits_wins :
    (t : Table) (s e : Index) (xs xe : ℕ)
    → s.array_idx ≤ e.array_idx
    → load t s.array_idx ≡ xs
    → ZeroCells t (s.array_idx + 1) e.array_idx
    → (s.array_idx ≡ e.array_idx) ⊎ ((e.bit_idx ≡ 0) ⊎ (load t e.array_idx ≡ xe))
    → (set_mapping_bits t s xs e xe).0 ≡ true
unfolding set_mapping_bits
set_mapping_bits_wins t s e xs xe le read middle last =
    elim (Bool-cases (s.array_idx == e.array_idx)) [
      | inl one ↦ rw (one, eq→== _ _ read) refl
      | inr wide ↦
          let lt : s.array_idx < e.array_idx = ground arith in
          let all =
            claim_cells_all (e.array_idx - (s.array_idx + 1)) (s.array_idx + 1) first
              (λ j lo hi. keep j (omega arith) ∙ middle j (omega arith) (omega arith)) in
          rw (wide, eq→== _ _ read)
            (claim_last_wins _ s e xe _ _ (omega (arith, all.0)) (elim last [
              | inl one ↦ absurd (omega arith)
              | inr (inl at_start) ↦ inl at_start
              | inr (inr here) ↦ inr (all.1 e.array_idx (omega arith) ∙ keep e.array_idx lt ∙ here)
            ]))
    ]
  where
    first : Table
    first = set t s.array_idx (bit_or xs (window_bound word_bits s.bit_idx word_bits))

    keep : (j : ℕ) → s.array_idx < j → load first j ≡ load t j
    keep j lt = get_or-set_ne t s.array_idx j _ 0 (omega arith)
