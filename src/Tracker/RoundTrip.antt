-- ===== src/Tracker/RoundTrip.antt =====
-- Sequences of operations of src/superpage_tracker.h: what `acquire` has taken is found by
-- `get_sequence_start_num`, and given back by `release`.
use givy.Base.{ℕ, ◌+◌, ◌*◌, ◌^◌, ◌≤◌, ◌<◌, ◌≡◌, arith, true, some, inl, inr}
use givy.Tracker.{Tracker, word_bits, load, release, get_sequence_start_num}
use givy.Tracker.Ranges.{bit_at, within}
use givy.Tracker.Sequences.{HasCells, release_lem}
use givy.Tracker.Start.{get_sequence_start_num_lem}
use givy.Tracker.Acquire.{Answer, acquired, oom, acquire}
use givy.Tracker.Acquire.Reserve.{Taken}
use givy.Tracker.Acquire.Laws.{Result, got, full, acquire_lem}

-- The sequence bit of a superpage that is not in use is 0.
abbrev pub IsTidy : Tracker → Type 0
IsTidy s = (n : ℕ) → bit_at s.mapping_table n ≡ 0 → bit_at s.sequence_table n ≡ 0

-- The superpages from `n` to `n + nb` of `s` are one sequence.
pub record Holds (s : Tracker) (n nb : ℕ) : Type 0 where
  pub in_use : (m : ℕ) → within n (n + nb) m ≡ true → bit_at s.mapping_table m ≡ 1
  pub starts : bit_at s.sequence_table n ≡ 0
  pub goes_on : (m : ℕ) → within (n + 1) (n + nb) m ≡ true → bit_at s.sequence_table m ≡ 1

-- What `acquire` did to `s`, for a caller who knows that `s` was tidy.
pub data Grant (s : Tracker) (nb first last : ℕ) : Answer → Type 0 where
  granted :
      {n : ℕ} {s' : Tracker}
      → first ≤ n
      → n + nb ≤ last
      → IsTidy s'
      → Holds s' n nb
      → ((m : ℕ) → m < n + nb → n ≤ m → get_sequence_start_num s' m ≡ some n)
      → ((m : ℕ)
          → (bit_at (release s' n (n + nb)).mapping_table m ≡ bit_at s.mapping_table m)
            × (bit_at (release s' n (n + nb)).sequence_table m ≡ bit_at s.sequence_table m))
      → Grant s nb first last (acquired n s')
  refused : Grant s nb first last (oom s)

Taken-Holds : (s s' : Tracker) (n nb : ℕ) → IsTidy s → 1 < nb → Taken s n nb s' → Holds s' n nb
Taken-Holds s s' n nb tidy several t = elim t.marked [
  | inl single ↦ absurd (omega (arith, single))
  | inr marked ↦ record {
    in_use = λ m h. ground (arith, t.mapped m);
    starts = ground (arith, marked n, tidy n (t.free n (ground arith)));
    goes_on = λ m h. ground (arith, marked m);
  }
]

Taken-IsTidy : (s s' : Tracker) (n nb : ℕ) → IsTidy s → 1 < nb → Taken s n nb s' → IsTidy s'
Taken-IsTidy s s' n nb tidy several t = elim t.marked [
  | inl single ↦ absurd (omega (arith, single))
  | inr marked ↦ λ m e. ground (arith, t.mapped m, marked m, tidy m)
]

-- From a tidy state, with room in the table for the search space, a table of fewer than 2 ^ 57 words
-- of 64 bits, a request for two superpages or more, and fewer than 2 ^ 63, is refused, or is granted a range of the search space that is one sequence afterwards: from
-- each superpage of the range its start is found, and releasing the range makes every bit of both
-- tables as it was. The state stays tidy.
pub acquire-Grant :
    (s : Tracker) (cells superpage_nb first last : ℕ)
    → HasCells cells s
    → ((j : ℕ) → load s.mapping_table j < 2 ^ 64)
    → IsTidy s
    → 1 < superpage_nb
    → superpage_nb < 2 ^ 63
    → last ≤ word_bits * cells
    → cells < 2 ^ 57
    → Grant s superpage_nb first last (acquire s superpage_nb first last)
acquire-Grant s cells superpage_nb first last has words tidy several fits inside small = go _ (
    acquire_lem s cells superpage_nb first last has words (omega arith) fits small inside
      λ one. absurd (omega arith))
  where
    go : (a : Answer) → Result s superpage_nb first last a → Grant s superpage_nb first last a
    go a (got {n} {s'} lo hi kind t) =
        let holds = Taken-Holds s s' n superpage_nb tidy several t in
        granted lo hi (Taken-IsTidy s s' n superpage_nb tidy several t) holds
          (λ m lt le.
            get_sequence_start_num_lem s' n m (omega (arith, t.lengths, has)) (omega arith) le
              holds.starts λ k above below. holds.goes_on k (ground arith))
          λ m.
            let back =
              release_lem s' cells n (n + superpage_nb) m (omega (arith, t.lengths, has))
                (omega arith) (omega arith) in
            elim t.marked [
              | inl single ↦ absurd (omega (arith, single))
              | inr marked ↦ (
                ground (arith, back.0, t.mapped m, t.free m),
                ground (arith, back.1, marked m, t.free m, tidy m),
              )
            ]
    go a (full none_free) = refused
