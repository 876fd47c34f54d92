-- ===== src/Tracker/Ranges/Middle.antt =====
-- The steps of `set_mapping_bits` of src/superpage_tracker.h: one cell by its exchange, the cells in
-- the middle, and what is taken back after a lost exchange.
use givy.Base.{
  ℕ, zero, suc, ◌+◌, ◌-◌, ◌*◌, ◌%◌, ◌≤◌, ◌<◌, ◌≡◌, refl, ◌∙◌, arith, ◌==◌, if◌then◌else◌, bit_or,
  true, length, set, length-set, Bool-cases, inl, inr,
}
use givy.Bits.{bit, bit-zero, bit-ones}
use givy.BitMask.{window_bound, zeros, ones}
use givy.Tracker.{
  Table, word_bits, Index, superpage_num, load, store_cells, claim_cells, undo_claim,
}
use givy.Tracker.Ranges.Cells.{
  bit_at, within, bit_at-set, bit_at-clear_cell, bit_at-set_cell, bit_at-store_cells,
  length-store_cells,
}

-- All bits of the range are 0.
abbrev pub IsFree : Table → ℕ → ℕ → Type 0
IsFree t lo hi = (n : ℕ) → within lo hi n ≡ true → bit_at t n ≡ 0

-- `t'` is `t` with the bits of the range set.
abbrev pub IsSetIn : ℕ → ℕ → Table → Table → Type 0
IsSetIn lo hi t t' = (n : ℕ) → bit_at t' n ≡ (if within lo hi n then 1 else bit_at t n)

-- The result of claiming the middle cells from `i`.
pub record Claimed (i left : ℕ) (t : Table) (idx : ℕ) (t' : Table) : Type 0 where
  pub from : i ≤ idx
  pub up_to : idx ≤ i + left
  pub same_length : length t' ≡ length t
  pub free : IsFree t (i * word_bits) (idx * word_bits)
  pub claimed : IsSetIn (i * word_bits) (idx * word_bits) t t'

pub claim_cells-Claimed :
    (left i : ℕ) (t : Table)
    → i + left ≤ length t
    → Claimed i left t (claim_cells left i t).0 (claim_cells left i t).1
unfolding claim_cells
claim_cells-Claimed zero i t h = record {
  from = omega arith;
  up_to = omega arith;
  same_length = refl;
  free = λ n e. ground arith;
  claimed = λ n. ground arith;
}
claim_cells-Claimed (suc left) i t h = elim (Bool-cases (load t i == zeros)) [
  | inl won ↦ rw won (
      let rest =
        claim_cells-Claimed left (i + 1) (set t i (ones word_bits))
          (rw (length-set t i (ones word_bits)) (omega arith)) in
      let cell = λ (n : ℕ). bit_at-set t i (ones word_bits) n (omega arith) in
      record {
        from = omega (arith, rest.from);
        up_to = omega (arith, rest.up_to);
        same_length = rest.same_length ∙ length-set t i (ones word_bits);
        free = λ n e. ground (arith, rest.free n, cell n, bit-zero (n % word_bits), rest.from);
        claimed = λ n.
            ground (arith, rest.claimed n, cell n, bit-ones word_bits (n % word_bits), rest.from);
      })
  | inr stop ↦ rw stop (record {
    from = omega arith;
    up_to = omega arith;
    same_length = refl;
    free = λ n e. ground arith;
    claimed = λ n. ground arith;
  })
]

-- A successful exchange of the mask into one cell.
pub IsSet-exchange :
    (t : Table) (a x lo hi : ℕ)
    → load t a ≡ x
    → a < length t
    → lo ≤ hi
    → hi ≤ word_bits
    → IsSetIn
        (a * word_bits + lo)
        (a * word_bits + hi)
        t
        (set t a (bit_or x (window_bound word_bits lo hi)))
IsSet-exchange t a x lo hi e h k l n = rw (← e) (bit_at-set_cell t a lo hi n h k l)

pub IsFree-of_expected :
    (t : Table) (a x lo hi : ℕ)
    → load t a ≡ x
    → ((i : ℕ) → lo ≤ i → i < hi → bit x i ≡ 0)
    → hi ≤ word_bits
    → IsFree t (a * word_bits + lo) (a * word_bits + hi)
IsFree-of_expected t a x lo hi e run l n h = ground (arith, run (n % word_bits))

pub bit_at-undo_claim :
    (t : Table) (s : Index) (idx n : ℕ)
    → s.bit_idx < word_bits
    → s.array_idx < idx
    → idx ≤ length t
    → bit_at (undo_claim t s (window_bound word_bits s.bit_idx word_bits) idx) n
      ≡ (if within (superpage_num s) (idx * word_bits) n then 0 else bit_at t n)
unfolding undo_claim
bit_at-undo_claim t s idx n h lt le = ground (
  arith,
  bit-zero (n % word_bits),
  bit_at-store_cells zeros (idx - (s.array_idx + 1)) (s.array_idx + 1) t n (omega arith),
  bit_at-clear_cell (store_cells zeros (idx - (s.array_idx + 1)) (s.array_idx + 1) t) s.array_idx
      s.bit_idx word_bits n
      (rw (length-store_cells zeros (idx - (s.array_idx + 1)) (s.array_idx + 1) t) (omega arith))
      (omega arith) (omega arith),
)

pub length-undo_claim :
    (t : Table) (s : Index) (w idx : ℕ) → length (undo_claim t s w idx) ≡ length t
unfolding undo_claim
length-undo_claim t s w idx =
    length-set (store_cells zeros (idx - (s.array_idx + 1)) (s.array_idx + 1) t) s.array_idx _
    ∙ length-store_cells zeros (idx - (s.array_idx + 1)) (s.array_idx + 1) t
