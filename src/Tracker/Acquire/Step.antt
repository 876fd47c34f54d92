-- ===== src/Tracker/Acquire/Step.antt =====
-- One pass of the loop of `acquire`, branch by branch.
use mathlib.Core.Path.{subst}
use givy.Base.{
  ℕ, ==→ne, ◌%◌, ◌+◌, ◌*◌, ◌%◌, ◌^◌, ◌≤◌, ◌<◌, ◌≡◌, refl, sym, arith, if◌then◌else◌, true, length,
  ◌⊎◌, inl, inr, ltb, leb, ◌==◌, ◌&&◌, Bool-cases, ==→eq,
}
use givy.Bits.{bit-le, bit-ones, bit, bit-zero}
use givy.BitMask.{zeros, ones, find_zero_subsequence}
use givy.BitMask.Search.{FirstRun, found, not_found, find_zero_subsequence-FirstRun}
use givy.Tracker.{Table, Tracker, Index, at, word_bits, next, superpage_num, load, index_lt}
use givy.Tracker.Ranges.{Span}
use givy.Tracker.Sequences.{HasCells}
use givy.Tracker.Acquire.{reserve, cell_step}
use givy.Tracker.Acquire.Reserve.{Pass, forward, reserve-Pass}
use givy.Tracker.Acquire.Multicell.{NoZero, NoZero-AllUsed, multicell-Pass}

-- The table, and the size of the search.
module _ (s : Tracker) (cells nb : ℕ) (search_end : Index) (has : HasCells cells s)
    (words : (j : ℕ) → load s.mapping_table j < 2 ^ 64) (pos_nb : 0 < nb)
    (end_bit : search_end.bit_idx < word_bits)
    (inside : superpage_num search_end ≤ word_bits * cells)
    (no_wrap : word_bits * cells + nb < 2 ^ 64) where
  pub cell_step-Pass :
      (loc : Index) (c : ℕ)
      → loc.bit_idx < word_bits
      → index_lt loc search_end ≡ true
      → c ≡ load s.mapping_table loc.array_idx
      → Pass s nb search_end (superpage_num loc) (cell_step s nb search_end loc c)
  unfolding cell_step
  cell_step-Pass loc c h before read = elim (Bool-cases (c == ones word_bits)) [
    | inl full ↦ rw full (
        forward (omega arith) (omega arith) λ one.
          NoZero-AllUsed s cells nb search_end has words pos_nb end_bit inside no_wrap loc c read
            λ i lo hi lt. rw (==→eq _ _ full) (ground (arith, bit-ones word_bits i)))
    | inr not_full ↦
        rw (not_full, no_carry)
          (elim (Bool-cases (leb (loc.bit_idx + nb) limit && ltb pos word_bits)) [
            | inl hit ↦ rw hit (
                in_cell (ground arith) _
                  (find_zero_subsequence-FirstRun word_bits c nb loc.bit_idx limit (ground arith)
                    (ground arith))
                  (ground arith))
            | inr miss ↦ rw miss (
                multicell-Pass s cells nb search_end has words pos_nb end_bit inside no_wrap loc c h
                  before read
                  λ one.
                    one_missed one (ground arith) _
                      (find_zero_subsequence-FirstRun word_bits c nb loc.bit_idx limit
                        (ground arith) (ground arith))
                      (ground arith))
          ])
  ]
    where
      limit : ℕ
      limit = if loc.array_idx == search_end.array_idx then search_end.bit_idx else word_bits

      pos : ℕ
      pos = find_zero_subsequence word_bits c nb loc.bit_idx limit

      no_carry : (loc.bit_idx + nb) % 2 ^ 64 ≡ loc.bit_idx + nb
      no_carry =
          let in_table : superpage_num loc < superpage_num search_end = ground arith in
          omega (arith, in_table)

      one_missed :
          nb ≡ 1
          → loc.bit_idx + nb ≤ limit
          → (p : ℕ) → FirstRun word_bits c nb loc.bit_idx limit p
          → word_bits ≤ p
          → NoZero s cells nb search_end has words pos_nb end_bit inside no_wrap loc c
      one_missed one room p (found lo hi run first) le = absurd (ground arith)
      one_missed one room p (not_found e all) le = λ i lo lt end. elim (Bool-cases (bit c i == 0)) [
        | inl free ↦ absurd (
            all i lo (ground arith)
              λ j above below. subst (λ k. bit c k ≡ 0) {y = j} (omega arith) (==→eq _ _ free))
        | inr used ↦ omega (arith, bit-le c i, ==→ne _ _ used)
      ]

      in_cell :
          loc.bit_idx + nb ≤ limit
          → (p : ℕ) → FirstRun word_bits c nb loc.bit_idx limit p
          → p < word_bits
          → Pass s nb search_end
              (superpage_num loc)
              (reserve s (at loc.array_idx p) c (at loc.array_idx ((p + nb) % 2 ^ 64)) zeros loc)
      in_cell room p (not_found e all) lt = absurd (omega arith)
      in_cell room p (found lo hi run first) lt =
          let inner : (p + nb) % 2 ^ 64 ≡ p + nb = omega (arith, found_in) in
          subst
            (λ k.
              Pass s nb search_end (superpage_num loc)
                (reserve s (at loc.array_idx p) c (at loc.array_idx k) zeros loc))
            (sym inner)
            (reserve-Pass s nb search_end (superpage_num loc) b e (bounds s.mapping_table has.0)
              (omega arith) marks (omega arith) (ground arith) (inl (omega (arith, found_in))) c
              zeros loc (omega arith) (λ i le below before_end. run i le (omega arith))
              (λ i below. bit-zero i) (sym read) (λ j above below. absurd (omega arith)) (inl refl))
        where
          b : Index
          b = at loc.array_idx p

          e : Index
          e = at loc.array_idx (p + nb)

          found_in : p + nb ≤ word_bits
          found_in = ground arith

          bounds : (t : Table) → length t ≡ cells → Span t b e
          bounds t same = record {
            start_in = lt;
            end_in = ground arith;
            cells = omega arith;
            order = omega arith;
            inside = ground arith;
          }

          marks : ((nb ≡ 1) × (superpage_num b % word_bits ≡ 63)) ⊎ Span s.sequence_table (next b) e
          marks = elim (Bool-cases (p == 63)) [
            | inl last ↦ inl (ground arith, ground arith)
            | inr other ↦ inr (
                unfold next in
                record {
                  start_in = ground arith;
                  end_in = ground arith;
                  cells = ground arith;
                  order = ground arith;
                  inside = ground arith;
                })
          ]
