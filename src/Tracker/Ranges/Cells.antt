-- ===== src/Tracker/Ranges/Cells.antt =====
-- One cell of a table, and a run of whole cells.
use givy.Base.{
  ℕ, zero, suc, ◌+◌, ◌*◌, ◌/◌, ◌%◌, ◌≤◌, ◌<◌, ◌≡◌, refl, ◌∙◌, arith, ltb, leb, ◌==◌, ◌&&◌,
  if◌then◌else◌, bit_and, bit_or, Bool, length, set, length-set, get_or-set_self, get_or-set_ne,
}
use givy.Bits.{bit, bit-le, bit-bit_and, bit-bit_or, bit-complement}
use givy.BitMask.{window_bound, complement}
use givy.BitMask.Windows.{bit-window_bound, window_bound-lt}
use givy.Tracker.{Table, word_bits, Index, superpage_num, load, fetch_and, fetch_or, store_cells}

-- The bit of superpage `n`.
abbrev pub bit_at : Table → ℕ → ℕ
bit_at t n = bit (load t (n / word_bits)) (n % word_bits)

-- `s` and `e` are the ends of a range of superpages inside the table. An end may stand behind the
-- last bit of its cell.
pub record Span (t : Table) (s e : Index) : Type 0 where
  pub start_in : s.bit_idx < word_bits
  pub end_in : e.bit_idx ≤ word_bits
  pub cells : s.array_idx ≤ e.array_idx
  pub order : superpage_num s ≤ superpage_num e
  pub inside : superpage_num e ≤ word_bits * length t

abbrev pub within : ℕ → ℕ → ℕ → Bool
within lo hi n = leb lo n && ltb n hi

bit-clear_window :
    (x lo hi i : ℕ)
    → lo ≤ hi
    → hi ≤ word_bits
    → i < word_bits
    → bit (bit_and x (complement word_bits (window_bound word_bits lo hi))) i
      ≡ (if within lo hi i then 0 else bit x i)
bit-clear_window x lo hi i h k lt = ground (
  arith,
  bit-le x i,
  bit-bit_and x (complement word_bits (window_bound word_bits lo hi)) i,
  bit-complement word_bits (window_bound word_bits lo hi) i (window_bound-lt word_bits lo hi),
  bit-window_bound word_bits lo hi i h k,
)

pub bit-set_window :
    (x lo hi i : ℕ)
    → lo ≤ hi
    → hi ≤ word_bits
    → bit (bit_or x (window_bound word_bits lo hi)) i ≡ (if within lo hi i then 1 else bit x i)
bit-set_window x lo hi i h k = ground (
  arith,
  bit-le x i,
  bit-bit_or x (window_bound word_bits lo hi) i,
  bit-window_bound word_bits lo hi i h k,
)

pub bit_at-set :
    (t : Table) (a v n : ℕ)
    → a < length t
    → bit_at (set t a v) n ≡ (if n / word_bits == a then bit v (n % word_bits) else bit_at t n)
bit_at-set t a v n h =
    ground (arith, get_or-set_self t a v 0 h, get_or-set_ne t a (n / word_bits) v 0)

-- The two writes that the manipulators make to one cell.
pub bit_at-clear_cell :
    (t : Table) (a lo hi n : ℕ)
    → a < length t
    → lo ≤ hi
    → hi ≤ word_bits
    → bit_at (fetch_and t a (complement word_bits (window_bound word_bits lo hi))) n
      ≡ (if within (a * word_bits + lo) (a * word_bits + hi) n then 0 else bit_at t n)
bit_at-clear_cell t a lo hi n h k l = ground (
  arith,
  bit_at-set t a (bit_and (load t a) (complement word_bits (window_bound word_bits lo hi))) n h,
  bit-clear_window (load t a) lo hi (n % word_bits) k l,
)

pub bit_at-set_cell :
    (t : Table) (a lo hi n : ℕ)
    → a < length t
    → lo ≤ hi
    → hi ≤ word_bits
    → bit_at (fetch_or t a (window_bound word_bits lo hi)) n
      ≡ (if within (a * word_bits + lo) (a * word_bits + hi) n then 1 else bit_at t n)
bit_at-set_cell t a lo hi n h k l = ground (
  arith,
  bit_at-set t a (bit_or (load t a) (window_bound word_bits lo hi)) n h,
  bit-set_window (load t a) lo hi (n % word_bits) k l,
)

pub length-store_cells : (v left i : ℕ) (t : Table) → length (store_cells v left i t) ≡ length t
unfolding store_cells
length-store_cells v zero i t = refl
length-store_cells v (suc left) i t =
    length-store_cells v left (i + 1) (set t i v) ∙ length-set t i v

pub bit_at-store_cells :
    (v left i : ℕ) (t : Table) (n : ℕ)
    → i + left ≤ length t
    → bit_at (store_cells v left i t) n ≡ (
        if within (i * word_bits) ((i + left) * word_bits) n
        then bit v (n % word_bits)
        else bit_at t n)
unfolding store_cells
bit_at-store_cells v zero i t n h = ground arith
bit_at-store_cells v (suc left) i t n h =
    ground
      (arith, length-set t i v, bit_at-store_cells v left (i + 1) (set t i v) n, bit_at-set t i v n)
