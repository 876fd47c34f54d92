-- ===== src/Tracker/Acquire/Multicell.antt =====
-- The part of a pass of the loop of `acquire` that looks for a sequence over several cells.
use mathlib.Core.Path.{subst}
use givy.Base.{
  ℕ, ◌≢◌, ◌/◌, ◌%◌, ◌+◌, ◌-◌, ◌*◌, ◌%◌, ◌^◌, min, ◌≤◌, ◌<◌, ◌≡◌, refl, sym, arith, bit_and, true,
  length, ◌⊎◌, inl, inr, ltb, ◌==◌, if◌then◌else◌, Bool-cases, ltb→lt, ==→eq,
}
use givy.Bits.{bit}
use givy.BitMask.{zeros, window_bound, count_msb_zeros}
use givy.BitMask.Windows.{bit-window_bound}
use givy.BitMask.Counts.{count_msb_zeros_high}
use givy.BitMask.Search.{mask_full}
use givy.Tracker.{
  next_array_cell_first_bit, Table, Tracker, Index, at, index, word_bits, next, superpage_num, load,
  index_lt,
}
use givy.Tracker.Ranges.{Span, FreeEnd, ZeroCells, last_bits_zero}
use givy.Tracker.Sequences.{index_lem, HasCells}
use givy.Tracker.Acquire.{
  Jump, again, no_load, give_up, Scan, blocked, clear, scan_cells, reserve, last_cell, multicell,
}
use givy.Tracker.Acquire.Reserve.{AllUsed, Pass, forward, reloaded, stopped, reserve-Pass}
use givy.Tracker.Acquire.Middle.{Scanned, blocked_at, all_clear, scan_cells-Scanned}

Span-to_index :
    (t : Table) (b : Index) (hi : ℕ)
    → b.bit_idx < word_bits
    → superpage_num b < hi
    → hi ≤ word_bits * length t
    → Span t b (index hi) × Span t (next b) (index hi)
unfolding index next
Span-to_index t b hi h lt inside = (omega arith, ground arith)

-- The table, and the size of the search.
module _ (s : Tracker) (cells nb : ℕ) (search_end : Index) (has : HasCells cells s)
    (words : (j : ℕ) → load s.mapping_table j < 2 ^ 64) (pos_nb : 0 < nb)
    (end_bit : search_end.bit_idx < word_bits)
    (inside : superpage_num search_end ≤ word_bits * cells)
    (no_wrap : word_bits * cells + nb < 2 ^ 64) where
  module _ (b : Index) (h : b.bit_idx < word_bits) (x : ℕ) where
    last_cell-Pass :
        (place c : ℕ)
        → load s.mapping_table b.array_idx ≡ x
        → place ≤ superpage_num b
        → nb ≢ 1
        → ((i : ℕ) → b.bit_idx ≤ i → i < word_bits → bit x i ≡ 0)
        → index_lt (index (superpage_num b + nb)) search_end ≡ true
        → ZeroCells s.mapping_table (b.array_idx + 1) (index (superpage_num b + nb)).array_idx
        → Pass s nb search_end place (last_cell s b x (index (superpage_num b + nb)) c)
    unfolding last_cell
    last_cell-Pass place c read le several free before middle =
        elim (Bool-cases (window_bound word_bits 0 e.bit_idx == zeros)) [
          | inl empty ↦ rw empty (
              let at_start = last_bits_zero e.bit_idx (omega (arith, e_num)) (==→eq _ _ empty) in
              take c (λ i lt. absurd (omega arith)) (inl at_start))
          | inr more ↦
              rw more
                (elim (Bool-cases (bit_and c' (window_bound word_bits 0 e.bit_idx) == zeros)) [
                  | inl clear_end ↦ rw clear_end (take c' (run (==→eq _ _ clear_end)) (inr refl))
                  | inr used ↦
                      rw used
                        (reloaded (omega (arith, e_num)) (omega (arith, e_num)) before refl several)
                ])
        ]
      where
        e : Index
        e = index (superpage_num b + nb)

        e_num : (superpage_num e ≡ superpage_num b + nb) × (e.bit_idx < word_bits)
        e_num = index_lem (superpage_num b + nb)

        c' : ℕ
        c' = load s.mapping_table e.array_idx

        end_lt : superpage_num e < superpage_num search_end
        end_lt = ground (arith, e_num)

        run : bit_and c' (window_bound word_bits 0 e.bit_idx) ≡ 0 → FreeEnd e c'
        run e0 i lt =
            mask_full word_bits c' (window_bound word_bits 0 e.bit_idx) 0 e.bit_idx
              (λ j. ground (arith, e_num, bit-window_bound word_bits 0 e.bit_idx j)) e0 i
              (omega arith) (omega arith)

        take :
            (xe : ℕ)
            → FreeEnd e xe
            → (e.bit_idx ≡ 0) ⊎ (load s.mapping_table e.array_idx ≡ xe)
            → Pass s nb search_end place (reserve s b x e xe b)
        take xe free_end last =
            let spans = λ (t : Table) (same : length t ≡ cells).
              Span-to_index t b (superpage_num b + nb) h (omega arith)
                (omega (arith, e_num, end_lt)) in
            reserve-Pass s nb search_end place b e (spans s.mapping_table has.0).0 e_num.0
              (inr (spans s.sequence_table has.1).1) le (omega (arith, end_lt)) (inr end_lt) x xe b
              (omega (arith, e_num)) (λ i lo hi lt. free i lo hi) free_end read middle (inr last)

  -- `c` is the word of the cell of `loc`, with no zero from there to the end of the search.
  abbrev pub NoZero : Index → ℕ → Type 0
  NoZero loc c =
      (i : ℕ)
      → loc.bit_idx ≤ i
      → i < word_bits
      → loc.array_idx * word_bits + i < superpage_num search_end
      → bit c i ≡ 1

  pub NoZero-AllUsed :
      (loc : Index) (c : ℕ)
      → c ≡ load s.mapping_table loc.array_idx
      → NoZero loc c
      → AllUsed s
          (superpage_num search_end)
          (superpage_num loc)
          (superpage_num (next_array_cell_first_bit loc))
  NoZero-AllUsed loc c read used n lo hi lt =
      let e : n / word_bits ≡ loc.array_idx = omega arith in
      rw e (rw (sym read) (used (n % word_bits) (omega arith) (omega arith) (omega arith)))

  pub multicell-Pass :
      (loc : Index) (c : ℕ)
      → loc.bit_idx < word_bits
      → index_lt loc search_end ≡ true
      → c ≡ load s.mapping_table loc.array_idx
      → (nb ≡ 1 → NoZero loc c)
      → Pass s nb search_end (superpage_num loc) (multicell s nb search_end loc c)
  unfolding multicell
  multicell-Pass loc c h before read used =
      subst (λ k. Pass s nb search_end (superpage_num loc) (to_end (index k))) (sym no_carry)
        (elim (Bool-cases (ltb 0 msb)) [
          | inl some_zeros ↦ rw some_zeros (elim (Bool-cases (index_lt e search_end)) [
            | inl fits ↦ rw fits (
                after_scan (ltb→lt _ _ some_zeros) fits _ (
                  scan_cells-Scanned s.mapping_table (e.array_idx - (loc.array_idx + 1))
                    (loc.array_idx + 1) c))
            | inr too_far ↦ rw too_far (
                stopped λ one n lo hi lt.
                  NoZero-AllUsed loc c read (used one) n lo (ground (arith, e_num)) lt)
          ])
          | inr no_zeros ↦
              rw no_zeros
                (forward (omega arith) (omega arith) λ one. NoZero-AllUsed loc c read (used one))
        ])
    where
      msb : ℕ
      msb = min (count_msb_zeros word_bits c) (word_bits - loc.bit_idx)

      b : Index
      b = at loc.array_idx (word_bits - msb)

      -- The body of `multicell`, for the end of the sequence.
      to_end : Index → Jump
      to_end loc_end =
          if ltb 0 msb
          then if index_lt loc_end search_end
            then elim (scan_cells s.mapping_table (loc_end.array_idx - (loc.array_idx + 1))
                (loc.array_idx + 1) c) [
                  | blocked idx c' ↦ no_load (at idx 0) c' s
                  | clear c' ↦ last_cell s b c loc_end c'
                ]
            else give_up s
          else again (next_array_cell_first_bit loc) s

      e : Index
      e = index (superpage_num b + nb)

      no_carry : (superpage_num b + nb) % 2 ^ 64 ≡ superpage_num b + nb
      no_carry =
          let in_table : superpage_num loc < superpage_num search_end = ground arith in
          omega (arith, in_table)

      e_num : (superpage_num e ≡ superpage_num b + nb) × (e.bit_idx < word_bits)
      e_num = index_lem (superpage_num b + nb)

      small : c < 2 ^ 64
      small = rw read (words loc.array_idx)

      several : 0 < msb → index_lt e search_end ≡ true → nb ≢ 1
      several pos fits one = omega (
        arith,
        used one (word_bits - msb) (omega arith) (omega arith) (ground (arith, e_num)),
        count_msb_zeros_high word_bits c (word_bits - msb) small (omega arith),
      )

      after_scan :
          0 < msb
          → index_lt e search_end ≡ true
          → (r : Scan)
          → Scanned s.mapping_table
              (loc.array_idx + 1)
              (loc.array_idx + 1 + (e.array_idx - (loc.array_idx + 1)))
              r
          → Pass s nb search_end (superpage_num loc) (elim r [
            | blocked idx c' ↦ no_load (at idx 0) c' s
            | clear c' ↦ last_cell s b c e c'
          ])
      after_scan pos fits r (blocked_at {idx} lo hi same) =
          reloaded (omega arith) (omega arith) (ground arith) same (several pos fits)
      after_scan pos fits r (all_clear {c = c'} free) =
          last_cell-Pass b (omega arith) c (superpage_num loc) c' (sym read) (omega arith)
            (several pos fits) (λ i lo hi. count_msb_zeros_high word_bits c i small (omega arith))
            fits (λ j lo hi. free j lo (omega arith))
