-- ===== src/Tracker/Start.antt =====
-- `get_sequence_start_num` of src/superpage_tracker.h: from a superpage back to the first one of
-- its sequence.
use mathlib.Core.Path.{ap₂, subst}
use native.Mathlib.Numerals.{add-one}
use givy.Base.{
  ℕ, zero, suc, ◌+◌, ◌-◌, ◌*◌, ◌/◌, ◌%◌, ◌^◌, ◌≤◌, ◌<◌, ◌≡◌, refl, ap, ◌∙◌, arith, ltb, ◌==◌, some,
  ◌⊎◌, Bool-cases, inl, inr, ==→ne, eq→==, ne→==, ltb→lt, ltb→le, length,
}
use givy.Bits.{bit}
use givy.BitMask.{find_previous_zero}
use givy.BitMask.Search.{LastZero, find_previous_zero-LastZero}
use givy.Tracker.{
  Table, Tracker, word_bits, at, index, load, prev_array_cell_last_bit, sequence_start_loop,
  get_sequence_start_num,
}
use givy.Tracker.Ranges.{bit_at}

bit_at_cell :
    (t : Table) (a i : ℕ) → i < word_bits → bit_at t (a * word_bits + i) ≡ bit (load t a) i
bit_at_cell t a i h = ap₂ (λ j k. bit (load t j) k) {y = a} {v = i} (omega arith) (omega arith)

module _ (a b start : ℕ) (t : Table) (h : b < word_bits) (le : start ≤ a * word_bits + b)
    (zero_at : bit_at t start ≡ 0)
    (ones_above : (m : ℕ) → start < m → m ≤ a * word_bits + b → bit_at t m ≡ 1) where
  -- The last 0 of cell `a` at or below `b` is the start, or the start is in a cell before.
  cell_cases :
      (r : ℕ)
      → LastZero word_bits (load t a) b r
      → ((r ≡ word_bits) × (start < a * word_bits))
        ⊎ ((a * word_bits + r ≡ start) × (r < word_bits))
  cell_cases r (LastZero.at below clear_at above) =
      elim (Bool-cases (ltb start (a * word_bits + r))) [
        | inl before ↦ absurd (
            omega (
              arith,
              ltb→lt _ _ before,
              bit_at_cell t a r (omega arith),
              ones_above (a * word_bits + r) (ltb→lt _ _ before) (omega arith),
            ))
        | inr not_before ↦ elim (Bool-cases (start == a * word_bits + r)) [
          | inl here ↦ inr (ground arith, omega arith)
          | inr after ↦ absurd (
              omega (
                arith,
                ltb→le _ _ not_before,
                ==→ne _ _ after,
                subst (λ k. bit_at t k ≡ bit (load t a) (start - a * word_bits)) {y = start}
                    (omega (arith, ltb→le _ _ not_before))
                    (bit_at_cell t a (start - a * word_bits) (omega arith)),
                above (start - a * word_bits)
                    (omega (arith, ltb→le _ _ not_before, ==→ne _ _ after)) (omega arith),
              ))
        ]
      ]
  cell_cases r (LastZero.none_below e all) = elim (Bool-cases (ltb start (a * word_bits))) [
    | inl before ↦ inl (e, ltb→lt _ _ before)
    | inr inside ↦ absurd (
        omega (
          arith,
          subst (λ k. bit_at t k ≡ bit (load t a) (start - a * word_bits)) {y = start}
              (omega (arith, ltb→le _ _ inside))
              (bit_at_cell t a (start - a * word_bits) (omega arith)),
          all (start - a * word_bits) (omega arith),
        ))
  ]

module _ (fuel : ℕ) (t : Table) (a b : ℕ) where
  loop_found :
      (r : ℕ)
      → find_previous_zero word_bits (load t a) b ≡ r
      → r < word_bits
      → sequence_start_loop (suc fuel) t (at a b) ≡ some (a * word_bits + r)
  unfolding sequence_start_loop
  loop_found r e lt =
      rw (ne→== (find_previous_zero word_bits (load t a) b) word_bits (omega arith))
        (ap (λ k. some (a * word_bits + k)) e)

  loop_back :
      find_previous_zero word_bits (load t a) b ≡ word_bits
      → sequence_start_loop (suc fuel) t (at a b)
        ≡ sequence_start_loop fuel t (prev_array_cell_last_bit (at a b))
  unfolding sequence_start_loop
  loop_back e = rw (eq→== _ _ e)

sequence_start_loop_lem :
    (a b start : ℕ) (t : Table)
    → a < 2 ^ 58
    → b < word_bits
    → start ≤ a * word_bits + b
    → bit_at t start ≡ 0
    → ((m : ℕ) → start < m → m ≤ a * word_bits + b → bit_at t m ≡ 1)
    → sequence_start_loop (suc a) t (at a b) ≡ some start
sequence_start_loop_lem zero b start t small h le zero_at ones_above =
    elim (cell_cases zero b start t h le zero_at ones_above _
      (find_previous_zero-LastZero word_bits (load t zero) b h)) [
        | inl before ↦ absurd (omega (arith, before))
        | inr here ↦ loop_found zero t zero b _ refl here.1 ∙ ap some here.0
      ]
sequence_start_loop_lem (suc a) b start t small h le zero_at ones_above =
    elim (cell_cases (suc a) b start t h le zero_at ones_above _
      (find_previous_zero-LastZero word_bits (load t (suc a)) b h)) [
        | inl before ↦
            loop_back (suc a) t (suc a) b before.0
            ∙ ap (λ k. sequence_start_loop (suc a) t (at k 63)) {y = a} (omega arith)
            ∙ sequence_start_loop_lem a 63 start t (omega arith) (omega arith)
                (omega (arith, before.1)) zero_at (λ m lo hi. ones_above m lo (omega arith))
        | inr here ↦ loop_found (suc a) t (suc a) b _ refl here.1 ∙ ap some here.0
      ]

-- Where the sequence bit of `start` is 0 and those of the superpages after it, up to `n`, are 1,
-- with `n` in the table and below 2 ^ 64, `get_sequence_start_num` ends at `n` with the answer `start`, over however
-- many cells that is.
pub get_sequence_start_num_lem :
    (s : Tracker) (start n : ℕ)
    → n < word_bits * length s.sequence_table
    → n < 2 ^ 64
    → start ≤ n
    → bit_at s.sequence_table start ≡ 0
    → ((m : ℕ) → start < m → m ≤ n → bit_at s.sequence_table m ≡ 1)
    → get_sequence_start_num s n ≡ some start
unfolding get_sequence_start_num index
get_sequence_start_num_lem s start n in_table small le zero_at ones_above = rw add-one (
    sequence_start_loop_lem (n / word_bits) (n % word_bits) start s.sequence_table (omega arith)
      (omega arith) (omega arith) zero_at λ m lo hi. ones_above m lo (omega arith))
