-- ===== src/Tracker/Sequences.antt =====
-- `set_bits`, `clear_bits`, `trim_bits`, `release` and `trim` of
-- src/superpage_tracker.h: what they do to both tables.
use givy.Base.{
  ◌^◌, Bool-cases, ltb, ◌∙◌, inl, inr, ℕ, ◌+◌, ◌-◌, ◌*◌, ◌≤◌, ◌<◌, ◌≡◌, refl, arith, ◌==◌,
  if◌then◌else◌, Bool, true, false, length, ne→==, bit_or, length-set,
}
use givy.BitMask.{window_bound, window_size, lsb_ones, zeros}
use givy.Tracker.{
  Table, Tracker, word_bits, Index, at, index, next, superpage_num, load, set_sequence_bits,
  set_bits, clear_bits, trim_bits, release, trim, store_cells, fetch_or,
}
use givy.Tracker.Ranges.{
  length-store_cells, bit_at, Span, within, bit_at-set_cell, bit_at-clear_mapping_bits,
  bit_at-clear_sequence_bits, bit_at-set_sequence_bits, IsFree, IsSetIn, Outcome, claimed,
  unchanged, FreeStart, FreeEnd, set_mapping_bits-Outcome,
}

pub index_lem : (n : ℕ) → (superpage_num (index n) ≡ n) × ((index n).bit_idx < word_bits)
unfolding index
index_lem n = omega arith

pub next_lem :
    (i : Index)
    → i.bit_idx < word_bits
    → (superpage_num (next i) ≡ superpage_num i + 1) × ((next i).bit_idx < word_bits)
unfolding next
next_lem i h = ground arith

pub Span-of :
    (t : Table) (lo hi : ℕ) → lo ≤ hi → hi ≤ word_bits * length t → Span t (index lo) (index hi)
unfolding index
Span-of t lo hi le inside = omega arith

pub next-Span_of :
    (t : Table) (lo hi : ℕ)
    → lo < hi
    → hi ≤ word_bits * length t
    → Span t (next (index lo)) (index hi)
unfolding index next
next-Span_of t lo hi lt inside = ground arith

-- Both tables have `cells` words.
abbrev pub HasCells : ℕ → Tracker → Type 0
HasCells cells s = (length s.mapping_table ≡ cells) × (length s.sequence_table ≡ cells)

-- Releasing a non-empty range inside the tables clears its mapping bits, and its sequence bits but
-- the first. No other bit changes.
pub release_lem :
    (s : Tracker) (cells first last n : ℕ)
    → HasCells cells s
    → first < last
    → last ≤ word_bits * cells
    → (bit_at (release s first last).mapping_table n
        ≡ (if within first last n then 0 else bit_at s.mapping_table n))
      × (bit_at (release s first last).sequence_table n
          ≡ (if within (first + 1) last n then 0 else bit_at s.sequence_table n))
unfolding release clear_bits
release_lem s cells first last n has lt le = (
  ground (
    arith,
    index_lem first,
    index_lem last,
    bit_at-clear_mapping_bits s.mapping_table (index first) (index last)
        (Span-of s.mapping_table first last (omega arith) (omega arith)) n
        (omega (arith, index_lem first, index_lem last)),
  ),
  ground (
    arith,
    index_lem first,
    next_lem (index first),
    index_lem last,
    bit_at-clear_sequence_bits s.sequence_table (next (index first)) (index last)
        (next-Span_of s.sequence_table first last lt (omega arith)) n,
  ),
)

-- Trimming a range of two superpages or more inside the tables clears both bits of all but its
-- first superpage. No other bit changes.
pub trim_lem :
    (s : Tracker) (cells first last n : ℕ)
    → HasCells cells s
    → first + 1 < last
    → last ≤ word_bits * cells
    → (bit_at (trim s first last).mapping_table n
        ≡ (if within (first + 1) last n then 0 else bit_at s.mapping_table n))
      × (bit_at (trim s first last).sequence_table n
          ≡ (if within (first + 1) last n then 0 else bit_at s.sequence_table n))
unfolding trim trim_bits
trim_lem s cells first last n has lt le = (
  ground (
    arith,
    index_lem first,
    next_lem (index first),
    index_lem last,
    bit_at-clear_mapping_bits s.mapping_table (next (index first)) (index last)
        (next-Span_of s.mapping_table first last (omega arith) (omega arith)) n
        (omega (arith, index_lem first, next_lem (index first), index_lem last)),
  ),
  ground (
    arith,
    index_lem first,
    next_lem (index first),
    index_lem last,
    bit_at-clear_sequence_bits s.sequence_table (next (index first)) (index last)
        (next-Span_of s.sequence_table first last (omega arith) (omega arith)) n,
  ),
)

-- `set_bits` reserves the whole range in both tables, or changes nothing.
pub data Reserved (s : Tracker) (lo hi : ℕ) : Bool × Tracker → Type 0 where
  won :
      {s' : Tracker}
      → IsFree s.mapping_table lo hi
      → IsSetIn lo hi s.mapping_table s'.mapping_table
      → IsSetIn (lo + 1) hi s.sequence_table s'.sequence_table
      → Reserved s lo hi (true, s')
  lost :
      {s' : Tracker}
      → ((n : ℕ) → bit_at s'.mapping_table n ≡ bit_at s.mapping_table n)
      → s'.sequence_table ≡ s.sequence_table
      → Reserved s lo hi (false, s')

-- The two cases of `set_bits`, from those of `set_mapping_bits`.
Reserved-of_Outcome :
    (s : Tracker) (b e : Index) (r : Bool × Table)
    → b.bit_idx < word_bits
    → Span s.sequence_table (next b) e
    → Outcome s.mapping_table (superpage_num b) (superpage_num e) r
    → Reserved s (superpage_num b) (superpage_num e) (
        if r.0
        then (
          true,
          record s {
            mapping_table = r.1;
            sequence_table = set_sequence_bits s.sequence_table (next b) e;
          },
        )
        else (false, record s { mapping_table = r.1 }))
Reserved-of_Outcome s b e r h span (claimed free taken same) =
    won free taken
      λ n. ground (arith, next_lem b h, bit_at-set_sequence_bits s.sequence_table (next b) e span n)
Reserved-of_Outcome s b e r h span (unchanged keep same) = lost keep refl

-- For a range inside the tables whose expected words have zeros where it meets the first and the
-- last cell, and in which `next` of the start is not behind the end: `set_bits` returns true, the
-- range was free, its mapping bits and all its sequence bits but the first are now 1, and no other
-- bit has changed; or it returns false, and no mapping bit and no sequence word has changed.
pub set_bits-Reserved :
    (s : Tracker) (b e : Index) (xs xe : ℕ)
    → Span s.mapping_table b e
    → Span s.sequence_table (next b) e
    → superpage_num b < superpage_num e
    → FreeStart b e xs
    → FreeEnd e xe
    → Reserved s (superpage_num b) (superpage_num e) (set_bits s b xs e xe)
unfolding set_bits
set_bits-Reserved s b e xs xe span next_span lt fs fe =
    Reserved-of_Outcome s b e _ span.start_in next_span
      (set_mapping_bits-Outcome s.mapping_table b e xs xe span lt fs fe)

pub length-set_sequence_bits :
    (t : Table) (b e : Index) → length (set_sequence_bits t b e) ≡ length t
unfolding set_sequence_bits
length-set_sequence_bits t b e = elim (Bool-cases (b.array_idx == e.array_idx)) [
  | inl one ↦ rw one (elim (Bool-cases (ltb b.bit_idx e.bit_idx)) [
    | inl some_bits ↦ rw some_bits (length-set t _ _)
    | inr empty ↦ rw empty refl
  ])
  | inr wide ↦
      let first =
        length-store_cells (2 ^ 64 - 1) (e.array_idx - (b.array_idx + 1)) (b.array_idx + 1)
          (fetch_or t b.array_idx (window_bound 64 b.bit_idx 64))
        ∙ length-set t b.array_idx _ in
      rw wide (elim (Bool-cases (window_bound 64 0 e.bit_idx == zeros)) [
        | inl empty ↦ rw empty first
        | inr more ↦ rw more (length-set _ e.array_idx _ ∙ first)
      ])
]

full_window : (window_bound 64 0 64 == zeros) ≡ false
unfolding window_bound window_size lsb_ones
full_window = refl

-- With the start at `next` of bit 63 of cell `a` and the end at bit 64 of cell `a`, where cell
-- `a + 1` is in the table, `set_sequence_bits` sets all bits of the cells `a` and `a + 1` and no
-- others.
pub set_sequence_bits_last :
    (t : Table) (a n : ℕ)
    → a + 1 < length t
    → bit_at (set_sequence_bits t (next (at a 63)) (at a 64)) n
      ≡ (if within (word_bits * a) (word_bits * (a + 2)) n then 1 else bit_at t n)
unfolding set_sequence_bits next
set_sequence_bits_last t a n h =
    rw (ne→== (a + 1) a (omega arith), no_middle, full_window)
      (ground (
        arith,
        bit_at-set_cell t (a + 1) 0 64 n h (omega arith) (omega arith),
        bit_at-set_cell (fetch_or t (a + 1) (window_bound 64 0 64)) a 0 64 n
            (rw (length-set t (a + 1) (bit_or (load t (a + 1)) (window_bound 64 0 64)))
              (omega arith))
            (omega arith) (omega arith),
      ))
  where
    no_middle : (v : ℕ) (t' : Table) → store_cells v (a - (a + 1 + 1)) (a + 1 + 1) t' ≡ t'
    no_middle v t' =
        let none_left : a - (a + 1 + 1) ≡ 0 = omega arith in
        rw none_left (unfold store_cells in refl)
