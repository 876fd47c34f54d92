-- ===== src/Tracker.antt =====
-- `SuperpageTracker` of src/superpage_tracker.h: its state, `Index`, and the bit manipulators.
-- `IntType` is uintmax_t, of 64 bits. The two tables are lists of words; a manipulator that touches
-- one table takes that table and returns the new one. The atomic operations are taken one after
-- the other: `expected` arguments are free, so a lost compare-exchange is in the model, but no
-- other thread writes between two operations of one call.
-- A read out of the table gives 0 and a write out of it is dropped; the source leaves both
-- undefined, and the theorems ask for places inside the table.
pub mod Acquire
pub mod Ranges
pub mod Sequences
pub mod Start
pub mod RoundTrip
pub mod Print
mod Tests
use givy.Base.{
  ℕ, zero, suc, ◌+◌, ◌-◌, ◌*◌, ◌/◌, ◌%◌, ◌^◌, bit_and, bit_or, Bool, true, false, ◌&&◌, ◌||◌, List,
  Option, none, some, get_or, set, replicate, ltb, leb, ◌==◌, if◌then◌else◌,
}
use givy.BitMask.{zeros, ones, complement, window_bound, find_previous_zero}

-- `BitArray::bits`.
abbrev pub word_bits : ℕ
word_bits = 64

abbrev pub Table : Type 0
Table = List ℕ

pub record Tracker : Type 0 where
  pub table_size : ℕ
  pub mapping_table : Table
  pub sequence_table : Table

-- `Math::divide_up`, without its wrap-around: a table that fits memory is far below 2 ^ 64.
unfoldable pub create : ℕ → Tracker
create superpage_nb =
    let size = (superpage_nb + word_bits - 1) / word_bits in
    record {
      table_size = size;
      mapping_table = replicate size zeros;
      sequence_table = replicate size zeros;
    }

-- Operations of `std::atomic<IntType>` on one cell.
abbrev pub load : Table → ℕ → ℕ
load t i = get_or t i 0

abbrev pub store : Table → ℕ → ℕ → Table
store t i v = set t i v

abbrev pub fetch_and : Table → ℕ → ℕ → Table
fetch_and t i m = set t i (bit_and (load t i) m)

abbrev pub fetch_or : Table → ℕ → ℕ → Table
fetch_or t i m = set t i (bit_or (load t i) m)

abbrev pub compare_exchange : Table → ℕ → ℕ → ℕ → Bool × Table
compare_exchange t i expected desired =
    if load t i == expected then (true, set t i desired) else (false, t)

pub record Index : Type 0 where
  pub array_idx : ℕ
  pub bit_idx : ℕ

abbrev pub at : ℕ → ℕ → Index
at a b = record { array_idx = a; bit_idx = b }

unfoldable pub index : ℕ → Index
index n = at (n / word_bits) (n % word_bits)

abbrev pub superpage_num : Index → ℕ
superpage_num i = i.array_idx * word_bits + i.bit_idx

unfoldable pub next : Index → Index
next i =
    if i.bit_idx == word_bits - 1 then at (i.array_idx + 1) 0 else at i.array_idx (i.bit_idx + 1)

abbrev pub next_array_cell_first_bit : Index → Index
next_array_cell_first_bit i = at (i.array_idx + 1) 0

-- `array_idx - 1` wraps at 0 where `ASSERT_SAFE` does not stop the program.
abbrev pub prev_array_cell_last_bit : Index → Index
prev_array_cell_last_bit i = at ((i.array_idx + 2 ^ 64 - 1) % 2 ^ 64) (word_bits - 1)

abbrev pub index_lt : Index → Index → Bool
index_lt i j =
    ltb i.array_idx j.array_idx || ((i.array_idx == j.array_idx) && ltb i.bit_idx j.bit_idx)

abbrev pub index_le : Index → Index → Bool
index_le i j =
    ltb i.array_idx j.array_idx || ((i.array_idx == j.array_idx) && leb i.bit_idx j.bit_idx)

-- `for (i = ...; i < end; i++) table[i].store (v)`, with `left` cells to go.
unfoldable pub store_cells : ℕ → ℕ → ℕ → Table → Table
store_cells v zero i t = t
store_cells v (suc left) i t = store_cells v left (i + 1) (store t i v)

-- The middle cells of `set_mapping_bits`: each is exchanged from zeros to ones, up to the first
-- that is not zeros. Returns the index that the loop stops at.
unfoldable pub claim_cells : ℕ → ℕ → Table → ℕ × Table
claim_cells zero i t = (i, t)
claim_cells (suc left) i t =
    let (won, t') = compare_exchange t i zeros (ones word_bits) in
    let rest = claim_cells left (i + 1) t' in if won then rest else (i, t)

-- "Cleanup on failure".
unfoldable pub undo_claim : Table → Index → ℕ → ℕ → Table
undo_claim t loc_start loc_start_bits idx =
    fetch_and (store_cells zeros (idx - (loc_start.array_idx + 1)) (loc_start.array_idx + 1) t)
      loc_start.array_idx (complement word_bits loc_start_bits)

-- The last cell of a span, behind middle cells that the loop left at `idx`.
unfoldable pub claim_last : Table → Index → Index → ℕ → ℕ → ℕ → Bool × Table
claim_last t loc_start loc_end expected_end loc_start_bits idx =
    let loc_end_bits = window_bound word_bits 0 loc_end.bit_idx in
    let (won, t') =
      compare_exchange t loc_end.array_idx expected_end (bit_or expected_end loc_end_bits) in
    if idx == loc_end.array_idx
    then if loc_end_bits == zeros
      then (true, t)
      else if won
      then (true, t')
      else (false, undo_claim t loc_start loc_start_bits idx)
    else (false, undo_claim t loc_start loc_start_bits idx)

unfoldable pub set_mapping_bits : Table → Index → ℕ → Index → ℕ → Bool × Table
set_mapping_bits t loc_start expected_start loc_end expected_end =
    if loc_start.array_idx == loc_end.array_idx
    then compare_exchange t loc_start.array_idx expected_start
        (bit_or expected_start (window_bound word_bits loc_start.bit_idx loc_end.bit_idx))
    else let loc_start_bits = window_bound word_bits loc_start.bit_idx word_bits in
      let (won, t') =
        compare_exchange t loc_start.array_idx expected_start
          (bit_or expected_start loc_start_bits) in
      let first = loc_start.array_idx + 1 in
      let (idx, t'') = claim_cells (loc_end.array_idx - first) first t' in
      if won then claim_last t'' loc_start loc_end expected_end loc_start_bits idx else (false, t)

-- The three branches that clear from `loc_start` up to `loc_end` over several cells.
unfoldable pub clear_mapping_bits : Table → Index → Index → Table
clear_mapping_bits t loc_start loc_end =
    if loc_start.array_idx == loc_end.array_idx
    then fetch_and t loc_start.array_idx
        (complement word_bits (window_bound word_bits loc_start.bit_idx loc_end.bit_idx))
    else let first_cell_bits = window_bound word_bits loc_start.bit_idx word_bits in
      let last_cell_bits = window_bound word_bits 0 loc_end.bit_idx in
      let first = loc_start.array_idx + 1 in
      let t' = fetch_and t loc_start.array_idx (complement word_bits first_cell_bits) in
      let t'' = store_cells zeros (loc_end.array_idx - first) first t' in
      if last_cell_bits == zeros
      then t''
      else fetch_and t'' loc_end.array_idx (complement word_bits last_cell_bits)

unfoldable pub set_sequence_bits : Table → Index → Index → Table
set_sequence_bits t loc_start loc_end =
    if loc_start.array_idx == loc_end.array_idx
    then if ltb loc_start.bit_idx loc_end.bit_idx
      then fetch_or t loc_start.array_idx (window_bound word_bits loc_start.bit_idx loc_end.bit_idx)
      else t
    else let first_cell_bits = window_bound word_bits loc_start.bit_idx word_bits in
      let last_cell_bits = window_bound word_bits 0 loc_end.bit_idx in
      let first = loc_start.array_idx + 1 in
      let t' = fetch_or t loc_start.array_idx first_cell_bits in
      let t'' = store_cells (ones word_bits) (loc_end.array_idx - first) first t' in
      if last_cell_bits == zeros then t'' else fetch_or t'' loc_end.array_idx last_cell_bits

unfoldable pub clear_sequence_bits : Table → Index → Index → Table
clear_sequence_bits t loc_start loc_end =
    if loc_start.array_idx == loc_end.array_idx
    then if ltb loc_start.bit_idx loc_end.bit_idx
      then fetch_and t loc_start.array_idx
          (complement word_bits (window_bound word_bits loc_start.bit_idx loc_end.bit_idx))
      else t
    else let first_cell_bits = window_bound word_bits loc_start.bit_idx word_bits in
      let last_cell_bits = window_bound word_bits 0 loc_end.bit_idx in
      let first = loc_start.array_idx + 1 in
      let t' = fetch_and t loc_start.array_idx (complement word_bits first_cell_bits) in
      let t'' = store_cells zeros (loc_end.array_idx - first) first t' in
      if last_cell_bits == zeros
      then t''
      else fetch_and t'' loc_end.array_idx (complement word_bits last_cell_bits)

unfoldable pub set_bits : Tracker → Index → ℕ → Index → ℕ → Bool × Tracker
set_bits s loc_start expected_start loc_end expected_end =
    let (won, t) = set_mapping_bits s.mapping_table loc_start expected_start loc_end expected_end in
    if won
    then (
      true,
      record s {
        mapping_table = t;
        sequence_table = set_sequence_bits s.sequence_table (next loc_start) loc_end;
      },
    )
    else (false, record s { mapping_table = t })

unfoldable pub clear_bits : Tracker → Index → Index → Tracker
clear_bits s loc_start loc_end = record s {
  sequence_table = clear_sequence_bits s.sequence_table (next loc_start) loc_end;
  mapping_table = clear_mapping_bits s.mapping_table loc_start loc_end;
}

unfoldable pub trim_bits : Tracker → Index → Index → Tracker
trim_bits s loc_start loc_end = record s {
  sequence_table = clear_sequence_bits s.sequence_table (next loc_start) loc_end;
  mapping_table = clear_mapping_bits s.mapping_table (next loc_start) loc_end;
}

-- A superpage sequence is the numbers from `first` up to `last`.
unfoldable pub release : Tracker → ℕ → ℕ → Tracker
release s first last = clear_bits s (index first) (index last)

unfoldable pub trim : Tracker → ℕ → ℕ → Tracker
trim s first last = trim_bits s (index first) (index last)

-- The `while (true)` loop at `loc`; `none` when the fuel runs out.
unfoldable pub sequence_start_loop : ℕ → Table → Index → Option ℕ
sequence_start_loop zero t loc = none
sequence_start_loop (suc fuel) t loc =
    let prev_zero = find_previous_zero word_bits (load t loc.array_idx) loc.bit_idx in
    let rest = sequence_start_loop fuel t (prev_array_cell_last_bit loc) in
    if prev_zero == word_bits then rest else some (superpage_num (at loc.array_idx prev_zero))

-- The loop goes back one cell a round, so `array_idx + 1` rounds reach the first cell.
unfoldable pub get_sequence_start_num : Tracker → ℕ → Option ℕ
get_sequence_start_num s n =
    let loc = index n in sequence_start_loop (loc.array_idx + 1) s.sequence_table loc
