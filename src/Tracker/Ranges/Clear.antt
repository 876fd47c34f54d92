-- ===== src/Tracker/Ranges/Clear.antt =====
-- Clearing, and setting without a test: `clear_mapping_bits`, `clear_sequence_bits` and
-- `set_sequence_bits` of src/superpage_tracker.h, over one cell or several.
use givy.Base.{
  ℕ, zero, suc, ◌+◌, ◌-◌, ◌*◌, ◌%◌, ◌≤◌, ◌<◌, ◌≡◌, ◌∙◌, arith, ltb, ◌==◌, if◌then◌else◌, false,
  length, length-set, Bool-cases, inl, inr, ==→eq, ltb→lt,
}
use givy.Bits.{bit, bit-zero, bit-ones}
use givy.BitMask.{lsb_ones, window_size, window_bound, complement, zeros, ones}
use givy.BitMask.Windows.{bit-window_bound}
use givy.Tracker.{
  Table, word_bits, Index, superpage_num, fetch_and, fetch_or, store_cells, clear_mapping_bits,
  clear_sequence_bits, set_sequence_bits,
}
use givy.Tracker.Ranges.Cells.{
  bit_at, Span, within, bit_at-clear_cell, bit_at-set_cell, bit_at-store_cells, length-store_cells,
}

-- The mask of the last cell is zero only if the span ends at the cell's first bit.
pub last_bits_zero : (hi : ℕ) → hi ≤ word_bits → window_bound word_bits 0 hi ≡ zeros → hi ≡ 0
last_bits_zero hi h e = ground (arith, bit-window_bound word_bits 0 hi 0, bit-zero 0)

-- The branch for several cells, which the two clearing functions share.
abbrev clear_wide : Table → Index → Index → Table
clear_wide t s e =
    let first_cell_bits = window_bound word_bits s.bit_idx word_bits in
    let last_cell_bits = window_bound word_bits 0 e.bit_idx in
    let first = s.array_idx + 1 in
    let t' = fetch_and t s.array_idx (complement word_bits first_cell_bits) in
    let t'' = store_cells zeros (e.array_idx - first) first t' in
    if last_cell_bits == zeros
    then t''
    else fetch_and t'' e.array_idx (complement word_bits last_cell_bits)

abbrev set_wide : Table → Index → Index → Table
set_wide t s e =
    let first_cell_bits = window_bound word_bits s.bit_idx word_bits in
    let last_cell_bits = window_bound word_bits 0 e.bit_idx in
    let first = s.array_idx + 1 in
    let t' = fetch_or t s.array_idx first_cell_bits in
    let t'' = store_cells (ones word_bits) (e.array_idx - first) first t' in
    if last_cell_bits == zeros then t'' else fetch_or t'' e.array_idx last_cell_bits

pub last_bits_pos : (hi : ℕ) → (window_bound word_bits 0 hi == zeros) ≡ false → 0 < hi
unfolding window_bound window_size lsb_ones
last_bits_pos zero e = cc
last_bits_pos (suc hi) e = omega arith

-- First cell, whole cells, last cell: the three writes make one range.
wide_range :
    (b n : ℕ) (s e : Index) (x x' x'' y : ℕ)
    → s.array_idx < e.array_idx
    → s.bit_idx < word_bits
    → e.bit_idx ≤ word_bits
    → x' ≡ (if within (superpage_num s) (s.array_idx * word_bits + word_bits) n then b else x)
    → x'' ≡ (if within ((s.array_idx + 1) * word_bits) (e.array_idx * word_bits) n then b else x')
    → y ≡ (if within (e.array_idx * word_bits) (superpage_num e) n then b else x'')
    → y ≡ (if within (superpage_num s) (superpage_num e) n then b else x)
wide_range b n s e x x' x'' y lt h k p q r = ground arith

module _ (t : Table) (s e : Index) (span : Span t s e) (n : ℕ)
    (lt : s.array_idx < e.array_idx) where
  abbrev middle : ℕ → Table → Table
  middle v t' = store_cells v (e.array_idx - (s.array_idx + 1)) (s.array_idx + 1) t'

  head_in : s.array_idx < length t
  head_in = omega (arith, span.inside, span.cells)

  last_in : 0 < e.bit_idx → e.array_idx < length t
  last_in pos = omega (arith, span.inside)

  length-middle : (v : ℕ) (t' : Table) → length t' ≡ length t → length (middle v t') ≡ length t
  length-middle v t' same =
      length-store_cells v (e.array_idx - (s.array_idx + 1)) (s.array_idx + 1) t' ∙ same

  bit_at-middle :
      (v b : ℕ) (t' : Table)
      → length t' ≡ length t
      → bit v (n % word_bits) ≡ b
      → bit_at (middle v t') n ≡ (
          if within ((s.array_idx + 1) * word_bits) (e.array_idx * word_bits) n
          then b
          else bit_at t' n)
  bit_at-middle v b t' same digits = ground (
    arith,
    bit_at-store_cells v (e.array_idx - (s.array_idx + 1)) (s.array_idx + 1) t' n
        (omega (arith, span.inside)),
  )

  bit_at-clear_last :
      (t' : Table)
      → length t' ≡ length t
      → bit_at
          (if window_bound word_bits 0 e.bit_idx == zeros
            then t'
            else fetch_and t' e.array_idx
                (complement word_bits (window_bound word_bits 0 e.bit_idx)))
          n
        ≡ (if within (e.array_idx * word_bits) (superpage_num e) n then 0 else bit_at t' n)
  bit_at-clear_last t' same = elim (Bool-cases (window_bound word_bits 0 e.bit_idx == zeros)) [
    | inl empty ↦ rw empty (ground (arith, last_bits_zero e.bit_idx span.end_in (==→eq _ _ empty)))
    | inr more ↦ rw more (
        ground (
          arith,
          bit_at-clear_cell t' e.array_idx 0 e.bit_idx n
              (rw same (last_in (last_bits_pos e.bit_idx more))) (omega arith) span.end_in,
        ))
  ]

  bit_at-set_last :
      (t' : Table)
      → length t' ≡ length t
      → bit_at
          (if window_bound word_bits 0 e.bit_idx == zeros
            then t'
            else fetch_or t' e.array_idx (window_bound word_bits 0 e.bit_idx))
          n
        ≡ (if within (e.array_idx * word_bits) (superpage_num e) n then 1 else bit_at t' n)
  bit_at-set_last t' same = elim (Bool-cases (window_bound word_bits 0 e.bit_idx == zeros)) [
    | inl empty ↦ rw empty (ground (arith, last_bits_zero e.bit_idx span.end_in (==→eq _ _ empty)))
    | inr more ↦ rw more (
        ground (
          arith,
          bit_at-set_cell t' e.array_idx 0 e.bit_idx n
              (rw same (last_in (last_bits_pos e.bit_idx more))) (omega arith) span.end_in,
        ))
  ]

  bit_at-clear_wide :
      bit_at (clear_wide t s e) n
      ≡ (if within (superpage_num s) (superpage_num e) n then 0 else bit_at t n)
  bit_at-clear_wide =
      wide_range 0 n s e _ _ _ _ lt span.start_in span.end_in
        (bit_at-clear_cell t s.array_idx s.bit_idx word_bits n head_in
          (omega (arith, span.start_in)) (omega arith))
        (bit_at-middle zeros 0 _ (length-set t s.array_idx _) (bit-zero (n % word_bits)))
        (bit_at-clear_last _ (length-middle zeros _ (length-set t s.array_idx _)))

  bit_at-set_wide :
      bit_at (set_wide t s e) n
      ≡ (if within (superpage_num s) (superpage_num e) n then 1 else bit_at t n)
  bit_at-set_wide =
      wide_range 1 n s e _ _ _ _ lt span.start_in span.end_in
        (bit_at-set_cell t s.array_idx s.bit_idx word_bits n head_in (omega (arith, span.start_in))
          (omega arith))
        (bit_at-middle (ones word_bits) 1 _ (length-set t s.array_idx _)
          (ground (arith, bit-ones word_bits (n % word_bits))))
        (bit_at-set_last _ (length-middle (ones word_bits) _ (length-set t s.array_idx _)))

module _ (t : Table) (s e : Index) (span : Span t s e) (n : ℕ) where
  bit_at-clear_one :
      s.array_idx ≡ e.array_idx
      → s.bit_idx < e.bit_idx
      → bit_at
          (fetch_and t s.array_idx
            (complement word_bits (window_bound word_bits s.bit_idx e.bit_idx)))
          n
        ≡ (if within (superpage_num s) (superpage_num e) n then 0 else bit_at t n)
  bit_at-clear_one same lt = ground (
    arith,
    bit_at-clear_cell t s.array_idx s.bit_idx e.bit_idx n (omega (arith, span.inside)) (omega arith)
        span.end_in,
  )

  bit_at-set_one :
      s.array_idx ≡ e.array_idx
      → s.bit_idx < e.bit_idx
      → bit_at (fetch_or t s.array_idx (window_bound word_bits s.bit_idx e.bit_idx)) n
        ≡ (if within (superpage_num s) (superpage_num e) n then 1 else bit_at t n)
  bit_at-set_one same lt = ground (
    arith,
    bit_at-set_cell t s.array_idx s.bit_idx e.bit_idx n (omega (arith, span.inside)) (omega arith)
        span.end_in,
  )

  -- For a span of one superpage or more inside the table, `clear_mapping_bits` clears every bit of
  -- the span, and no other bit changes.
  pub bit_at-clear_mapping_bits :
      superpage_num s < superpage_num e
      → bit_at (clear_mapping_bits t s e) n
        ≡ (if within (superpage_num s) (superpage_num e) n then 0 else bit_at t n)
  unfolding clear_mapping_bits
  bit_at-clear_mapping_bits lt = elim (Bool-cases (s.array_idx == e.array_idx)) [
    | inl same ↦ rw same (bit_at-clear_one (==→eq _ _ same) (omega (arith, ==→eq _ _ same)))
    | inr other ↦ rw other (bit_at-clear_wide t s e span n (ground (arith, span.cells)))
  ]

  -- For a span inside the table, which may be empty, `clear_sequence_bits` clears every bit of the
  -- span, and no other bit changes.
  pub bit_at-clear_sequence_bits :
      bit_at (clear_sequence_bits t s e) n
      ≡ (if within (superpage_num s) (superpage_num e) n then 0 else bit_at t n)
  unfolding clear_sequence_bits
  bit_at-clear_sequence_bits = elim (Bool-cases (s.array_idx == e.array_idx)) [
    | inl same ↦ rw same (elim (Bool-cases (ltb s.bit_idx e.bit_idx)) [
      | inl more ↦ rw more (bit_at-clear_one (==→eq _ _ same) (ltb→lt _ _ more))
      | inr empty ↦ rw empty (ground arith)
    ])
    | inr other ↦ rw other (bit_at-clear_wide t s e span n (ground (arith, span.cells)))
  ]

  -- For a span inside the table, which may be empty, `set_sequence_bits` sets every bit of the
  -- span, and no other bit changes.
  pub bit_at-set_sequence_bits :
      bit_at (set_sequence_bits t s e) n
      ≡ (if within (superpage_num s) (superpage_num e) n then 1 else bit_at t n)
  unfolding set_sequence_bits
  bit_at-set_sequence_bits = elim (Bool-cases (s.array_idx == e.array_idx)) [
    | inl same ↦ rw same (elim (Bool-cases (ltb s.bit_idx e.bit_idx)) [
      | inl more ↦ rw more (bit_at-set_one (==→eq _ _ same) (ltb→lt _ _ more))
      | inr empty ↦ rw empty (ground arith)
    ])
    | inr other ↦ rw other (bit_at-set_wide t s e span n (ground (arith, span.cells)))
  ]
