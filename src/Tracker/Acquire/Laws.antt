-- ===== src/Tracker/Acquire/Laws.antt =====
-- `acquire` as a whole: it ends, and what it returns is a range that was free and is now taken.
use mathlib.Core.Path.{subst}
use givy.Base.{
  ℕ, zero, suc, ◌+◌, ◌-◌, ◌*◌, ◌^◌, ◌≤◌, ◌<◌, ◌≡◌, refl, arith, true, Option, none, some,
  Bool-cases, ltb, ltb→lt, ltb→le, inl, inr, ◌⊎◌, ◌%◌,
}
use givy.Tracker.{Tracker, Index, index, word_bits, superpage_num, load, index_lt}
use givy.Tracker.Ranges.{bit_at}
use givy.Tracker.Sequences.{index_lem, HasCells}
use givy.Tracker.Acquire.{
  Jump, again, no_load, reserved, give_up, Answer, acquired, oom, search, acquire,
}
use givy.Tracker.Acquire.Reserve.{AllUsed, Pass, forward, reloaded, taken, stopped}
use givy.Tracker.Acquire.Reserve
use givy.Tracker.Acquire.Step.{cell_step-Pass}

-- `acquire` either takes `nb` superpages between `first` and `last`, or finds none and changes
-- nothing. There is no case for a search that runs out of fuel.
pub data Result (s : Tracker) (nb first last : ℕ) : Answer → Type 0 where
  got :
      {n : ℕ} {s' : Tracker}
      → first ≤ n
      → n + nb ≤ last
      → (n % word_bits + nb ≤ word_bits) ⊎ (n + nb < last)
      → Reserve.Taken s n nb s'
      → Result s nb first last (acquired n s')
  full :
      (nb ≡ 1 → (n : ℕ) → first ≤ n → n < last → bit_at s.mapping_table n ≡ 1)
      → Result s nb first last (oom s)

module _ (s : Tracker) (cells nb first : ℕ) (search_end : Index) (has : HasCells cells s)
    (words : (j : ℕ) → load s.mapping_table j < 2 ^ 64) (pos_nb : 0 < nb)
    (end_bit : search_end.bit_idx < word_bits)
    (inside : superpage_num search_end ≤ word_bits * cells)
    (no_wrap : word_bits * cells + nb < 2 ^ 64) where
  -- A search for one superpage has found none before `place`.
  abbrev Passed : ℕ → Type 0
  Passed place = nb ≡ 1 → AllUsed s (superpage_num search_end) first place

  -- The search may stand at `loc` with `fuel` rounds left.
  abbrev Ready : ℕ → Index → Option ℕ → Type 0
  Ready fuel loc none =
      (loc.bit_idx < word_bits)
      × (first ≤ superpage_num loc)
      × (2 * (superpage_num search_end - superpage_num loc) + 2 ≤ fuel)
      × Passed (superpage_num loc)
  Ready fuel loc (some c) =
      (loc.bit_idx < word_bits)
      × (first ≤ superpage_num loc)
      × (2 * (superpage_num search_end - superpage_num loc) + 1 ≤ fuel)
      × (index_lt loc search_end ≡ true)
      × (c ≡ load s.mapping_table loc.array_idx)
      × Passed (superpage_num loc)

  abbrev Ends : ℕ → Type 0
  Ends fuel =
      (loc : Index) (c : Option ℕ)
      → Ready fuel loc c
      → Result s nb first (superpage_num search_end) (search fuel nb search_end s loc c)

  further :
      (place place' : ℕ)
      → AllUsed s (superpage_num search_end) first place
      → AllUsed s (superpage_num search_end) place place'
      → AllUsed s (superpage_num search_end) first place'
  further place place' before after n lo hi lt = elim (Bool-cases (ltb n place)) [
    | inl below ↦ before n lo (ltb→lt _ _ below) lt
    | inr above ↦ after n (ltb→le _ _ above) hi lt
  ]

  after-Pass :
      (fuel place : ℕ) (j : Jump)
      → Ends fuel
      → first ≤ place
      → place < superpage_num search_end
      → 2 * (superpage_num search_end - place) ≤ fuel
      → Passed place
      → Pass s nb search_end place j
      → Result s nb first (superpage_num search_end) (elim j [
        | again loc s' ↦ search fuel nb search_end s' loc none
        | no_load loc c' s' ↦ search fuel nb search_end s' loc (some c')
        | reserved n s' ↦ acquired n s'
        | give_up s' ↦ oom s'
      ])
  after-Pass fuel place j ends le lt enough passed (forward {loc} more bit_in used) =
      ends loc none
        (bit_in, omega arith, omega arith, λ one. further place _ (passed one) (used one))
  after-Pass fuel place j ends le lt enough passed
        (reloaded {loc} {c} more bit_in before same several) =
      ends loc (some c)
        (bit_in, omega arith, ground arith, before, same, λ one. absurd (several one))
  after-Pass fuel place j ends le lt enough passed (taken lo hi kind t) =
      got (omega arith) hi kind t
  after-Pass fuel place j ends le lt enough passed (stopped used) =
      full λ one n lo hi. further place _ (passed one) (used one) n lo hi hi

  search-Result : (fuel : ℕ) → Ends fuel
  unfolding search
  search-Result zero loc none ready = absurd (omega arith)
  search-Result zero loc (some c) ready = absurd (omega arith)
  search-Result (suc fuel) loc none ready = elim (Bool-cases (index_lt loc search_end)) [
    | inl before ↦ rw before (
        search-Result fuel loc (some (load s.mapping_table loc.array_idx))
          (ready.0, ready.1, omega arith, before, refl, ready.3))
    | inr done ↦ rw done (full λ one n lo hi. ready.3 one n lo (ground arith) hi)
  ]
  search-Result (suc fuel) loc (some c) ready =
      after-Pass fuel (superpage_num loc) _ (search-Result fuel) ready.1 (ground arith)
        (omega arith) ready.5
        (cell_step-Pass s cells nb search_end has words pos_nb end_bit inside no_wrap loc c ready.0
          ready.3 ready.4)

-- Where both tables have `cells` words of 64 bits, fewer than 2 ^ 57, the search space ends inside
-- them, for one superpage before the last place, and `superpage_nb` is not 0 and below 2 ^ 63,
-- `acquire` ends. Either it returns a range of `superpage_nb` superpages
-- of the search space that was free, with its mapping bits set and the others as before, and with
-- the sequence bits of all but its first superpage set and the others as before (these are left
-- open where the range is a single superpage with a number of the form 64 k + 63); and the range
-- lies in one cell or ends before the search space does. Or it reports that it found none and
-- changes nothing; for one superpage this happens only if none in the search space is free.
pub acquire_lem :
    (s : Tracker) (cells superpage_nb first last : ℕ)
    → HasCells cells s
    → ((j : ℕ) → load s.mapping_table j < 2 ^ 64)
    → 0 < superpage_nb
    → superpage_nb < 2 ^ 63
    → cells < 2 ^ 57
    → last ≤ word_bits * cells
    → (superpage_nb ≡ 1 → last < word_bits * cells)
    → Result s superpage_nb first last (acquire s superpage_nb first last)
unfolding acquire
acquire_lem s cells superpage_nb first last has words pos few small inside single =
    subst (λ k. Result s superpage_nb first k (acquire s superpage_nb first last))
      (index_lem last).0
      (search-Result s cells superpage_nb first (index last) has words pos (index_lem last).1
        (omega (arith, index_lem last)) (omega arith) (2 * (last - first) + 2) (index first) none
        (
          (index_lem first).1,
          omega (arith, index_lem first),
          omega (arith, index_lem first, index_lem last),
          λ one n lo hi lt. absurd (omega (arith, index_lem first)),
        ))

-- Where both tables have `cells` words of 64 bits, fewer than 2 ^ 57, `acquire` does not find a search space of more
-- than 64 superpages from 0 as a whole, whatever the table holds: it reports that it found none.
pub acquire_whole_space :
    (s : Tracker) (cells last : ℕ)
    → HasCells cells s
    → ((j : ℕ) → load s.mapping_table j < 2 ^ 64)
    → cells < 2 ^ 57
    → word_bits < last
    → last ≤ word_bits * cells
    → acquire s last 0 last ≡ oom s
acquire_whole_space s cells last has words small wide inside = go _ (
    acquire_lem s cells last 0 last has words (omega arith) (omega arith) small inside
      λ one. absurd (omega arith))
  where
    go : (a : Answer) → Result s last 0 last a → a ≡ oom s
    go a (got lo hi kind t) = absurd (omega arith)
    go a (full used) = refl
