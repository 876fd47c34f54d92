-- ===== src/Tracker/Tests.antt =====
-- Runs of the tracker of src/superpage_tracker.h at concrete tables, and the uses of its theorems
-- there.
use givy.Base.{ℕ, zero, suc, ◌^◌, ◌≤◌, ◌<◌, ◌≡◌, refl, arith, some, ◌∷◌, []}
use givy.Bits.{bit, bit-zero, bit_high}
use givy.BitMask.{
  is_set, window_bound, window_size, lsb_ones, find_previous_zero, count_msb_ones, count_msb_zeros,
  msb_zeros_loop,
}
use givy.Tracker.{
  Tracker, create, index, at, next, load, set_mapping_bits, set_sequence_bits, clear_mapping_bits,
  clear_sequence_bits, release, get_sequence_start_num, clear_bits, sequence_start_loop,
}
use givy.Range.Iterate.{iterate_from}
use givy.Tracker.Print.{
  print, print_nodes, print_superpages, print_superpage, line, character, underscore, hash, equals,
}
use givy.Tracker.Print.Marks.{nodes_output, print-marks}
use givy.Tracker.Ranges.{bit_at, Outcome, set_mapping_bits-Outcome}
use givy.Tracker.Sequences.{HasCells, release_lem, set_sequence_bits_last}
use givy.Tracker.Start.{get_sequence_start_num_lem}
use givy.Tracker.Acquire.{acquire, oom}
use givy.Tracker.RoundTrip.{IsTidy, Grant, acquire-Grant}
use givy.Tracker.Acquire.Laws.{Result, acquire_lem, acquire_whole_space}

-- Two cells, superpages 2 to 4 in use as one sequence.
abbrev used : Tracker
used = record { table_size = 2; mapping_table = 28 ∷ 0 ∷ []; sequence_table = 24 ∷ 0 ∷ [] }

abbrev free_tracker : Tracker
free_tracker = record { table_size = 2; mapping_table = 0 ∷ 0 ∷ []; sequence_table = 0 ∷ 0 ∷ [] }

used-HasCells : HasCells 2 used
used-HasCells = (refl, refl)

used_words : (j : ℕ) → load used.mapping_table j < 2 ^ 64
used_words zero = omega arith
used_words (suc zero) = omega arith
used_words (suc (suc j)) = omega arith

create_test : (create 65).mapping_table ≡ 0 ∷ 0 ∷ []
unfolding create
create_test = refl

release_test :
    release used 2 5 ≡ record used { mapping_table = 0 ∷ 0 ∷ []; sequence_table = 0 ∷ 0 ∷ [] }
unfolding release clear_bits clear_mapping_bits clear_sequence_bits index next window_bound
    window_size lsb_ones
release_test = refl

start_test : get_sequence_start_num used 4 ≡ some 2
unfolding get_sequence_start_num sequence_start_loop find_previous_zero count_msb_ones
    count_msb_zeros msb_zeros_loop index
start_test = refl

acquire_lem_example : Result used 3 0 128 (acquire used 3 0 128)
acquire_lem_example =
    acquire_lem used 2 3 0 128 used-HasCells used_words (omega arith) (omega arith) (omega arith)
      (omega arith) λ one. absurd (omega arith)

acquire_whole_space_example : acquire used 128 0 128 ≡ oom used
acquire_whole_space_example =
    acquire_whole_space used 2 128 used-HasCells used_words (omega arith) (omega arith)
      (omega arith)

high_free : (i : ℕ) → 60 ≤ i → bit 28 i ≡ 0
high_free i le = bit_high 5 28 i (omega arith) (omega arith)

-- From superpage 60 to 70, at the words that the table holds.
set_mapping_bits-Outcome_example :
    Outcome used.mapping_table 60 70 (set_mapping_bits used.mapping_table (at 0 60) 28 (at 1 6) 0)
set_mapping_bits-Outcome_example =
    set_mapping_bits-Outcome used.mapping_table (at 0 60) (at 1 6) 28 0 (omega arith) (omega arith)
      (λ i le _ _. high_free i le) λ i _. bit-zero i

release_lem_example :
    (bit_at (release used 2 5).mapping_table 3 ≡ 0)
    × (bit_at (release used 2 5).sequence_table 3 ≡ 0)
release_lem_example = release_lem used 2 2 5 3 used-HasCells (omega arith) (omega arith)

set_sequence_bits_last_example :
    bit_at (set_sequence_bits used.sequence_table (next (at 0 63)) (at 0 64)) 100 ≡ 1
set_sequence_bits_last_example = set_sequence_bits_last used.sequence_table 0 100 (omega arith)

start_marks : (m : ℕ) → 2 < m → m ≤ 4 → bit_at used.sequence_table m ≡ 1
unfolding bit
start_marks zero lo hi = absurd (omega arith)
start_marks (suc zero) lo hi = absurd (omega arith)
start_marks (suc (suc zero)) lo hi = absurd (omega arith)
start_marks (suc (suc (suc zero))) lo hi = refl
start_marks (suc (suc (suc (suc zero)))) lo hi = refl
start_marks (suc (suc (suc (suc (suc m))))) lo hi = absurd (omega arith)

get_sequence_start_num_lem_example : get_sequence_start_num used 4 ≡ some 2
unfolding bit
get_sequence_start_num_lem_example =
    get_sequence_start_num_lem used 2 4 (omega arith) (omega arith) (omega arith) refl start_marks

free_tracker-IsTidy : IsTidy free_tracker
free_tracker-IsTidy n e = e

free_words : (j : ℕ) → load free_tracker.mapping_table j < 2 ^ 64
free_words zero = omega arith
free_words (suc zero) = omega arith
free_words (suc (suc j)) = omega arith

acquire-Grant_example : Grant free_tracker 70 0 128 (acquire free_tracker 70 0 128)
acquire-Grant_example =
    acquire-Grant free_tracker 2 70 0 128 (refl, refl) free_words free_tracker-IsTidy (omega arith)
      (omega arith) (omega arith) (omega arith)

-- Two nodes with 64 superpages each, in lines of 50.
print-marks_example : print used 50 2 64 ≡ nodes_output used 50 64 0 2
print-marks_example =
    print-marks used 50 2 64 2 used-HasCells (omega arith) (omega arith) (omega arith) (omega arith)

-- The marks of five superpages of one node, in lines of three.
print_test :
    print used 3 1 5
    ≡ line 0
      ∷ character underscore
      ∷ character underscore
      ∷ character hash
      ∷ line 3
      ∷ character equals
      ∷ character equals
      ∷ []
unfolding print print_nodes print_superpages print_superpage index is_set iterate_from
print_test = refl
