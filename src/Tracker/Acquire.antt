-- ===== src/Tracker/Acquire.antt =====
-- `SuperpageTracker::acquire` of src/superpage_tracker.h. One pass from the label
-- `continue_no_load` to the next jump is the function `cell_step`; `search` makes the jumps.
pub mod Reserve
mod Middle
mod Multicell
mod Step
pub mod Laws
use givy.Base.{
  ℕ, zero, suc, ◌+◌, ◌-◌, ◌*◌, ◌%◌, ◌^◌, min, bit_and, Bool, true, false, ◌&&◌, Option, none, some,
  ltb, leb, ◌==◌, if◌then◌else◌,
}
use givy.BitMask.{zeros, ones, count_msb_zeros, find_zero_subsequence, window_bound}
use givy.Tracker.{
  Table, Tracker, Index, at, index, superpage_num, word_bits, load, index_lt, set_bits,
  next_array_cell_first_bit,
}

-- How a pass ends: `continue`, `goto continue_no_load` with the word at hand, `return`, `break`.
pub data Jump : Type 0 where
  again : Index → Tracker → Jump
  no_load : Index → ℕ → Tracker → Jump
  reserved : ℕ → Tracker → Jump
  give_up : Tracker → Jump

-- How a middle scan ends: at a cell that is not zeros, or with all of them zeros. Both carry `c`.
pub data Scan : Type 0 where
  blocked : ℕ → ℕ → Scan
  clear : ℕ → Scan

-- `for (idx = loc_start.array_idx + 1; idx < loc_end.array_idx; ++idx)`, `left` cells to go.
unfoldable pub scan_cells : Table → ℕ → ℕ → ℕ → Scan
scan_cells t zero idx c = clear c
scan_cells t (suc left) idx c =
    let c' = load t idx in
    let rest = scan_cells t left (idx + 1) c' in if c' == zeros then rest else blocked idx c'

-- The calls of `set_bits`, and what follows either answer.
unfoldable pub reserve : Tracker → Index → ℕ → Index → ℕ → Index → Jump
reserve s loc_start expected_start loc_end expected_end restart =
    let (won, s') = set_bits s loc_start expected_start loc_end expected_end in
    if won then reserved (superpage_num loc_start) s' else again restart s'

-- Behind the middle scan, which left the word `c`.
unfoldable pub last_cell : Tracker → Index → ℕ → Index → ℕ → Jump
last_cell s loc_start first_cell_expected_value loc_end c =
    let last_cell_bits = window_bound word_bits 0 loc_end.bit_idx in
    let c' = load s.mapping_table loc_end.array_idx in
    if last_cell_bits == zeros
    then reserve s loc_start first_cell_expected_value loc_end c loc_start
    else if bit_and c' last_cell_bits == zeros
    then reserve s loc_start first_cell_expected_value loc_end c' loc_start
    else no_load loc_end c' s

-- "Look for the start of a multicell sequence".
unfoldable pub multicell : Tracker → ℕ → Index → Index → ℕ → Jump
multicell s superpage_nb search_end search_at c =
    let msb_zeros = min (count_msb_zeros word_bits c) (word_bits - search_at.bit_idx) in
    let loc_start = at search_at.array_idx (word_bits - msb_zeros) in
    let loc_end = index ((superpage_num loc_start + superpage_nb) % 2 ^ 64) in
    let first = loc_start.array_idx + 1 in
    if ltb 0 msb_zeros
    then if index_lt loc_end search_end
      then elim (scan_cells s.mapping_table (loc_end.array_idx - first) first c) [
        | blocked idx c' ↦ no_load (at idx 0) c' s
        | clear c' ↦ last_cell s loc_start c loc_end c'
      ]
      else give_up s
    else again (next_array_cell_first_bit search_at) s

-- One pass, with `c` the word of the cell at `search_at`.
unfoldable pub cell_step : Tracker → ℕ → Index → Index → ℕ → Jump
cell_step s superpage_nb search_end search_at c =
    let limit =
      if search_at.array_idx == search_end.array_idx then search_end.bit_idx else word_bits in
    let pos = find_zero_subsequence word_bits c superpage_nb search_at.bit_idx limit in
    if c == ones word_bits
    then again (next_array_cell_first_bit search_at) s
    else if leb ((search_at.bit_idx + superpage_nb) % 2 ^ 64) limit && ltb pos word_bits
    then reserve s (at search_at.array_idx pos) c
        (at search_at.array_idx ((pos + superpage_nb) % 2 ^ 64)) zeros search_at
    else multicell s superpage_nb search_end search_at c

-- `oom` is `ASSERT_STD_FAIL`, which ends the program (and returns 0 where it is compiled out).
pub data Answer : Type 0 where
  acquired : ℕ → Tracker → Answer
  oom : Tracker → Answer
  out_of_fuel : Answer

-- `none` stands for the test of the `while` loop, `some c` for the label behind the load.
unfoldable pub search : ℕ → ℕ → Index → Tracker → Index → Option ℕ → Answer
search zero superpage_nb search_end s search_at c = out_of_fuel
search (suc fuel) superpage_nb search_end s search_at none =
    let rest =
      search fuel superpage_nb search_end s search_at
        (some (load s.mapping_table search_at.array_idx)) in
    if index_lt search_at search_end then rest else oom s
search (suc fuel) superpage_nb search_end s search_at (some c) =
    elim (cell_step s superpage_nb search_end search_at c) [
      | again loc s' ↦ search fuel superpage_nb search_end s' loc none
      | no_load loc c' s' ↦ search fuel superpage_nb search_end s' loc (some c')
      | reserved n s' ↦ acquired n s'
      | give_up s' ↦ oom s'
    ]

-- Every pass moves the place of the search forward, and takes two rounds at most.
abbrev pub search_fuel : ℕ → ℕ → ℕ
search_fuel first last = 2 * (last - first) + 2

unfoldable pub acquire : Tracker → ℕ → ℕ → ℕ → Answer
acquire s superpage_nb first last =
    search (search_fuel first last) superpage_nb (index last) s (index first) none
