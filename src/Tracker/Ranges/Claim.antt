-- ===== src/Tracker/Ranges/Claim.antt =====
-- `set_mapping_bits` of src/superpage_tracker.h: it claims a whole range of free superpages, or
-- leaves every bit as it was.
use givy.Base.{
  ℕ, ◌+◌, ◌-◌, ◌*◌, ◌≤◌, ◌<◌, ◌≡◌, refl, ◌∙◌, arith, ◌==◌, bit_or, Bool, true, false, length, set,
  length-set, Bool-cases, inl, inr, ==→eq,
}
use givy.Bits.{bit}
use givy.BitMask.{window_bound, zeros}
use givy.Tracker.{
  Table, word_bits, Index, superpage_num, load, claim_cells, undo_claim, claim_last,
  set_mapping_bits,
}
use givy.Tracker.Ranges.Cells.{bit_at, Span}
use givy.Tracker.Ranges.Clear.{last_bits_zero, last_bits_pos}
use givy.Tracker.Ranges.Middle.{
  IsFree, IsSetIn, Claimed, claim_cells-Claimed, IsSet-exchange, IsFree-of_expected,
  bit_at-undo_claim, length-undo_claim,
}

-- What a caller learns: the range was free and is claimed, or nothing has changed.
pub data Outcome (t : Table) (lo hi : ℕ) : Bool × Table → Type 0 where
  claimed :
      {t' : Table}
      → IsFree t lo hi
      → IsSetIn lo hi t t'
      → length t' ≡ length t
      → Outcome t lo hi (true, t')
  unchanged :
      {t' : Table}
      → ((n : ℕ) → bit_at t' n ≡ bit_at t n)
      → length t' ≡ length t
      → Outcome t lo hi (false, t')

-- The words that the caller expects to find show the range free in the first and last cells.
abbrev pub FreeStart : Index → Index → ℕ → Type 0
FreeStart s e x =
    (i : ℕ)
    → s.bit_idx ≤ i
    → i < word_bits
    → s.array_idx * word_bits + i < superpage_num e
    → bit x i ≡ 0

abbrev pub FreeEnd : Index → ℕ → Type 0
FreeEnd e x = (i : ℕ) → i < e.bit_idx → bit x i ≡ 0

-- `t2` is `t` with the range up to cell `idx` claimed.
module _ (t t2 : Table) (s e : Index) (idx : ℕ) (span : Span t s e) (low : s.array_idx < idx)
    (high : idx ≤ e.array_idx) (same : length t2 ≡ length t)
    (free : IsFree t (superpage_num s) (idx * word_bits))
    (grabbed : IsSetIn (superpage_num s) (idx * word_bits) t t2) where
  abbrev undone : Table
  undone = undo_claim t2 s (window_bound word_bits s.bit_idx word_bits) idx

  undone-Outcome : Outcome t (superpage_num s) (superpage_num e) (false, undone)
  undone-Outcome =
      unchanged
        (λ n. ground (
          arith,
          free n,
          grabbed n,
          bit_at-undo_claim t2 s idx n span.start_in low (omega (arith, span.inside)),
        ))
        (length-undo_claim t2 s (window_bound word_bits s.bit_idx word_bits) idx ∙ same)

  last-Outcome :
      (xe : ℕ)
      → idx ≡ e.array_idx
      → 0 < e.bit_idx
      → FreeEnd e xe
      → load t2 e.array_idx ≡ xe
      → Outcome t
          (superpage_num s)
          (superpage_num e)
          (true, set t2 e.array_idx (bit_or xe (window_bound word_bits 0 e.bit_idx)))
  last-Outcome xe here pos free_end read =
      claimed
        (λ n h. ground (
          arith,
          free n,
          grabbed n,
          IsFree-of_expected t2 e.array_idx xe 0 e.bit_idx read (λ i lo. free_end i) span.end_in n,
        ))
        (λ n. ground (
          arith,
          grabbed n,
          IsSet-exchange t2 e.array_idx xe 0 e.bit_idx read (omega (arith, span.inside))
              (omega arith) span.end_in n,
        ))
        (length-set t2 e.array_idx _ ∙ same)

  claim_last-Outcome :
      (xe : ℕ)
      → FreeEnd e xe
      → Outcome t
          (superpage_num s)
          (superpage_num e)
          (claim_last t2 s e xe (window_bound word_bits s.bit_idx word_bits) idx)
  unfolding claim_last
  claim_last-Outcome xe free_end = elim (Bool-cases (idx == e.array_idx)) [
    | inl here ↦ rw here (elim (Bool-cases (window_bound word_bits 0 e.bit_idx == zeros)) [
      | inl empty ↦
          let at_cell : e.bit_idx ≡ 0 = last_bits_zero e.bit_idx span.end_in (==→eq _ _ empty) in
          let end_here : idx ≡ e.array_idx = ==→eq _ _ here in
          rw empty (claimed (λ n h. ground (arith, free n)) (λ n. ground (arith, grabbed n)) same)
      | inr more ↦ rw more (elim (Bool-cases (load t2 e.array_idx == xe)) [
        | inl won ↦ rw won (
            last-Outcome xe (==→eq _ _ here) (last_bits_pos e.bit_idx more) free_end
              (==→eq _ _ won))
        | inr lost ↦ rw lost undone-Outcome
      ])
    ])
    | inr stopped ↦ rw stopped undone-Outcome
  ]

module _ (t : Table) (s e : Index) (xs xe : ℕ) (span : Span t s e) (free_start : FreeStart s e xs)
    (read : load t s.array_idx ≡ xs) where
  one-Outcome :
      s.array_idx ≡ e.array_idx
      → s.bit_idx < e.bit_idx
      → Outcome t
          (superpage_num s)
          (superpage_num e)
          (true, set t s.array_idx (bit_or xs (window_bound word_bits s.bit_idx e.bit_idx)))
  one-Outcome same lt =
      claimed
        (λ n h. ground (
          arith,
          IsFree-of_expected t s.array_idx xs s.bit_idx e.bit_idx read
              (λ i lo hi. free_start i lo (omega (arith, span.end_in)) (omega arith)) span.end_in n,
        ))
        (λ n. ground (
          arith,
          IsSet-exchange t s.array_idx xs s.bit_idx e.bit_idx read (omega (arith, span.inside))
              (omega arith) span.end_in n,
        ))
        (length-set t s.array_idx _)

  abbrev first_claimed : Table
  first_claimed = set t s.array_idx (bit_or xs (window_bound word_bits s.bit_idx word_bits))

  abbrev middle_claimed : ℕ × Table
  middle_claimed = claim_cells (e.array_idx - (s.array_idx + 1)) (s.array_idx + 1) first_claimed

  wide-Outcome :
      s.array_idx < e.array_idx
      → FreeEnd e xe
      → Outcome t (superpage_num s) (superpage_num e) (
          claim_last middle_claimed.1 s e xe
            (window_bound word_bits s.bit_idx word_bits)
            middle_claimed.0)
  wide-Outcome lt free_end =
      claim_last-Outcome t middle_claimed.1 s e middle_claimed.0 span (omega (arith, m.from))
        (omega (arith, m.up_to)) (m.same_length ∙ length-set t s.array_idx _)
        (λ n h. ground (arith, m.free n, first n, head_free n, m.from))
        (λ n. ground (arith, m.claimed n, first n, m.from)) xe free_end
    where
      m :
          Claimed
            (s.array_idx + 1)
            (e.array_idx - (s.array_idx + 1))
            first_claimed
            middle_claimed.0
            middle_claimed.1
      m = claim_cells-Claimed (e.array_idx - (s.array_idx + 1)) (s.array_idx + 1) first_claimed (
          rw (length-set t s.array_idx (bit_or xs (window_bound word_bits s.bit_idx word_bits)))
            (omega (arith, span.inside)))

      first : IsSetIn (superpage_num s) (s.array_idx * word_bits + word_bits) t first_claimed
      first =
          IsSet-exchange t s.array_idx xs s.bit_idx word_bits read (omega (arith, span.inside))
            (omega (arith, span.start_in)) (omega arith)

      head_free : IsFree t (superpage_num s) (s.array_idx * word_bits + word_bits)
      head_free =
          IsFree-of_expected t s.array_idx xs s.bit_idx word_bits read
            (λ i lo hi. free_start i lo hi (omega arith)) (omega arith)

module _ (t : Table) (s e : Index) (xs xe : ℕ) (span : Span t s e)
    (lt : superpage_num s < superpage_num e) (free_start : FreeStart s e xs)
    (free_end : FreeEnd e xe) where
  -- All or nothing. For a range of one superpage or more inside the table, whose expected words have
  -- zeros where the range meets the first and the last cell, `set_mapping_bits` returns true and the
  -- range was free, its bits are now 1 and no other bit has changed; or it returns false and no bit
  -- has changed. In both cases the table keeps its length.
  pub set_mapping_bits-Outcome :
      Outcome t (superpage_num s) (superpage_num e) (set_mapping_bits t s xs e xe)
  unfolding set_mapping_bits
  set_mapping_bits-Outcome = elim (Bool-cases (s.array_idx == e.array_idx)) [
    | inl one ↦ rw one (elim (Bool-cases (load t s.array_idx == xs)) [
      | inl won ↦
          let same : s.array_idx ≡ e.array_idx = ==→eq _ _ one in
          rw won (one-Outcome t s e xs xe span free_start (==→eq _ _ won) same (omega arith))
      | inr lost ↦ rw lost (unchanged (λ n. refl) refl)
    ])
    | inr wide ↦ rw wide (elim (Bool-cases (load t s.array_idx == xs)) [
      | inl won ↦ rw won (
          wide-Outcome t s e xs xe span free_start (==→eq _ _ won) (ground (arith, span.cells))
            free_end)
      | inr lost ↦ rw lost (unchanged (λ n. refl) refl)
    ])
  ]
