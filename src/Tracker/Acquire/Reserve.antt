-- ===== src/Tracker/Acquire/Reserve.antt =====
-- The calls of `set_bits` by `acquire`, at words just loaded: they succeed, and take the range.
use givy.Base.{
  length, ℕ, ◌+◌, ◌%◌, ◌≤◌, ◌<◌, ◌≡◌, ◌≢◌, arith, if◌then◌else◌, Bool, true, false, ◌⊎◌, inl, inr,
}
use givy.Tracker.{
  Table, Tracker, Index, word_bits, next, superpage_num, load, set_sequence_bits, set_bits,
  index_lt,
}
use givy.Tracker.Ranges.{
  bit_at, Span, bit_at-set_sequence_bits, IsFree, IsSetIn, Outcome, claimed, unchanged, FreeStart,
  FreeEnd, set_mapping_bits-Outcome, ZeroCells, set_mapping_bits_wins,
}
use givy.Tracker.Sequences.{length-set_sequence_bits, next_lem}
use givy.Tracker.Acquire.{Jump, again, no_load, reserved, give_up, reserve}

-- `s'` is `s` with superpages `n` to `n + nb` taken. The sequence bits mark all but the first,
-- unless the range is the single superpage at the last bit of a cell.
pub record Taken (s : Tracker) (n nb : ℕ) (s' : Tracker) : Type 0 where
  pub free : IsFree s.mapping_table n (n + nb)
  pub mapped : IsSetIn n (n + nb) s.mapping_table s'.mapping_table
  pub marked :
      ((nb ≡ 1) × (n % word_bits ≡ 63))
      ⊎ IsSetIn (n + 1) (n + nb) s.sequence_table s'.sequence_table
  pub lengths :
      (length s'.mapping_table ≡ length s.mapping_table)
      × (length s'.sequence_table ≡ length s.sequence_table)

-- No superpage from `lo` up to `hi` that lies before `last` is free.
abbrev pub AllUsed : Tracker → ℕ → ℕ → ℕ → Type 0
AllUsed s last lo hi = (n : ℕ) → lo ≤ n → n < hi → n < last → bit_at s.mapping_table n ≡ 1

-- What one pass of the loop may do, from `place`: go on further forward with the same tables,
-- take a range before `search_end`, or give up. A search for one superpage passes over none that
-- is free.
pub data Pass (s : Tracker) (nb : ℕ) (search_end : Index) (place : ℕ) : Jump → Type 0 where
  forward :
      {loc : Index}
      → place < superpage_num loc
      → loc.bit_idx < word_bits
      → (nb ≡ 1 → AllUsed s (superpage_num search_end) place (superpage_num loc))
      → Pass s nb search_end place (again loc s)
  reloaded :
      {loc : Index} {c : ℕ}
      → place < superpage_num loc
      → loc.bit_idx < word_bits
      → index_lt loc search_end ≡ true
      → c ≡ load s.mapping_table loc.array_idx
      → nb ≢ 1
      → Pass s nb search_end place (no_load loc c s)
  taken :
      {n : ℕ} {s' : Tracker}
      → place ≤ n
      → n + nb ≤ superpage_num search_end
      → (n % word_bits + nb ≤ word_bits) ⊎ (n + nb < superpage_num search_end)
      → Taken s n nb s'
      → Pass s nb search_end place (reserved n s')
  stopped :
      (nb ≡ 1 → AllUsed s (superpage_num search_end) place (superpage_num search_end))
      → Pass s nb search_end place (give_up s)

module _ (s : Tracker) (nb : ℕ) (search_end : Index) (place : ℕ) (b e : Index)
    (span : Span s.mapping_table b e) (size : superpage_num e ≡ superpage_num b + nb)
    (marks : ((nb ≡ 1) × (superpage_num b % word_bits ≡ 63)) ⊎ Span s.sequence_table (next b) e)
    (low : place ≤ superpage_num b) (high : superpage_num e ≤ superpage_num search_end)
    (kind : (superpage_num b % word_bits + nb ≤ word_bits)
      ⊎ (superpage_num e < superpage_num search_end)) where
  abbrev answer : Bool × Table → Index → Jump
  answer r restart =
      let (won, s') =
        if◌then◌else◌ {A = Bool × Tracker} r.0
          (
            true,
            record s {
              mapping_table = r.1;
              sequence_table = set_sequence_bits s.sequence_table (next b) e;
            },
          )
          (false, record s { mapping_table = r.1 }) in
      if won then reserved (superpage_num b) s' else again restart s'

  Pass-of_Outcome :
      (r : Bool × Table) (restart : Index)
      → Outcome s.mapping_table (superpage_num b) (superpage_num e) r
      → r.0 ≡ true
      → Pass s nb search_end place (answer r restart)
  Pass-of_Outcome r restart (unchanged keep same) won = cc
  Pass-of_Outcome r restart (claimed free mapped same) won =
      taken low (omega arith) (ground (arith, kind)) (record {
        free = λ n h. free n (ground arith);
        mapped = λ n. ground (arith, mapped n);
        lengths = (same, length-set_sequence_bits s.sequence_table (next b) e);
        marked = elim marks [
          | inl single ↦ inl single
          | inr next_span ↦ inr (λ n. ground (
            arith,
            next_lem b span.start_in,
            bit_at-set_sequence_bits s.sequence_table (next b) e next_span n,
          ))
        ];
      })

  pub reserve-Pass :
      (xs xe : ℕ) (restart : Index)
      → superpage_num b < superpage_num e
      → FreeStart b e xs
      → FreeEnd e xe
      → load s.mapping_table b.array_idx ≡ xs
      → ZeroCells s.mapping_table (b.array_idx + 1) e.array_idx
      → (b.array_idx ≡ e.array_idx) ⊎ ((e.bit_idx ≡ 0) ⊎ (load s.mapping_table e.array_idx ≡ xe))
      → Pass s nb search_end place (reserve s b xs e xe restart)
  unfolding reserve set_bits
  reserve-Pass xs xe restart lt fs fe read middle last =
      Pass-of_Outcome _ restart (set_mapping_bits-Outcome s.mapping_table b e xs xe span lt fs fe)
        (set_mapping_bits_wins s.mapping_table b e xs xe span.cells read middle last)
