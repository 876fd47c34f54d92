-- ===== src/BitMask/Search.antt =====
-- The two searches of src/bitmask.h: for a run of zeros, and for the zero before a position.
use mathlib.Core.Path.{subst}
use native.Mathlib.Nat.{mod-lt, one-le-pow, add-sub_cancel}
use givy.Base.{
  ℕ, zero, suc, ◌+◌, ◌-◌, ◌*◌, ◌^◌, ◌≤◌, ◌<◌, ◌≡◌, refl, arith, ltb, leb, ◌==◌, ◌&&◌, if◌then◌else◌,
  bit_and, ap, inl, inr, Bool-cases, ==→eq, ==→ne, ltb→le,
}
use givy.Bits.{bit, bit-zero, bit-bit_and, bit_ext, ZeroRun}
use givy.BitMask.{
  shl, zeros, zero_subsequence_loop, find_zero_subsequence, count_msb_ones, find_previous_zero,
}
use givy.BitMask.Windows.{bit-shl_in, bit-window_bound}
use givy.BitMask.Counts.{count_msb_ones_high, count_msb_ones_top}

module _ (bits : ℕ) where
  next_end : (from len : ℕ) → from + len + 1 ≡ from + 1 + len
  next_end from len = omega arith

  -- `w` is the mask of the digits from `start` to `end`.
  abbrev pub IsWindow : ℕ → ℕ → ℕ → Type 0
  IsWindow w start end = (i : ℕ) → bit w i ≡ (if leb start i && ltb i end then 1 else 0)

  pub mask_empty :
      (x w start len : ℕ) → IsWindow w start (start + len) → ZeroRun x start len → bit_and x w ≡ 0
  mask_empty x w start len win run =
      bit_ext _ _ λ i. ground (arith, bit-bit_and x w i, bit-zero i, win i, run i)

  pub mask_full :
      (x w start len : ℕ) → IsWindow w start (start + len) → bit_and x w ≡ 0 → ZeroRun x start len
  mask_full x w start len win e i lo hi =
      ground (arith, bit-bit_and x w i, bit-zero i, win i, ap (λ t. bit t i) e)

  IsWindow-shl :
      (w start len : ℕ)
      → start + len < bits
      → IsWindow w start (start + len)
      → IsWindow (shl bits w 1) (start + 1) (start + 1 + len)
  IsWindow-shl w start len room win i = ground (arith, bit-shl_in bits w 1 i, win (i - 1))

  -- `r` is the first place from `from` on, within `up_to`, of a run of `len` zeros of `x`; or it
  -- is `bits` and there is no such place.
  pub data FirstRun (x len from up_to : ℕ) : ℕ → Type 0 where
    found :
        {r : ℕ}
        → from ≤ r
        → r + len ≤ up_to
        → ZeroRun x r len
        → ((p : ℕ) → from ≤ p → p < r → ¬ ZeroRun x p len)
        → FirstRun x len from up_to r
    not_found :
        {r : ℕ}
        → r ≡ bits
        → ((p : ℕ) → from ≤ p → p + len ≤ up_to → ¬ ZeroRun x p len)
        → FirstRun x len from up_to r

  FirstRun-step :
      (x len from up_to r : ℕ)
      → ¬ ZeroRun x from len
      → FirstRun x len (from + 1) up_to r
      → FirstRun x len from up_to r
  FirstRun-step x len from up_to r miss (found lo hi run first) =
      found (omega arith) hi run λ p le lt. elim (Bool-cases (from == p)) [
        | inl here ↦ subst (λ q. ¬ ZeroRun x q len) (==→eq from p here) miss
        | inr later ↦ first p (ground arith) lt
      ]
  FirstRun-step x len from up_to r miss (not_found e all) = not_found e λ p le hi.
      elim (Bool-cases (from == p)) [
        | inl here ↦ subst (λ q. ¬ ZeroRun x q len) (==→eq from p here) miss
        | inr later ↦ all p (ground arith) hi
      ]

  zero_subsequence_loop-FirstRun :
      (x len left from up_to w : ℕ)
      → left + from + len ≡ up_to + 1
      → up_to ≤ bits
      → (0 < left → IsWindow w from (from + len))
      → FirstRun x len from up_to (zero_subsequence_loop bits x len left (from + len) w)
  unfolding zero_subsequence_loop
  zero_subsequence_loop-FirstRun x len zero from up_to w e le win =
      not_found refl (λ p lo hi. absurd (omega arith))
  zero_subsequence_loop-FirstRun x len (suc left) from up_to w e le win =
      elim (Bool-cases (bit_and x w == zeros)) [
        | inl hit ↦
            rw (hit, add-sub_cancel from len)
              (found (omega arith) (omega arith)
                (mask_full x w from len (win (omega arith)) (==→eq _ _ hit))
                (λ p lo hi. absurd (omega arith)))
        | inr miss ↦ rw miss (
            FirstRun-step x len from up_to _
              (λ run. ==→ne _ _ miss (mask_empty x w from len (win (omega arith)) run))
              (rw (next_end from len) (
                zero_subsequence_loop-FirstRun x len left (from + 1) up_to (shl bits w 1)
                  (omega arith) le
                  (λ more. IsWindow-shl w from len (omega arith) (win (omega arith))))))
      ]

  -- With `from_bit + len` at most `up_to_bit` and that at most `bits`, the search returns the first
  -- place of a run of `len` zeros from `from_bit` on that ends by `up_to_bit`; or it returns `bits`
  -- and there is none.
  pub find_zero_subsequence-FirstRun :
      (searched len from_bit up_to_bit : ℕ)
      → from_bit + len ≤ up_to_bit
      → up_to_bit ≤ bits
      → FirstRun searched len from_bit up_to_bit
          (find_zero_subsequence bits searched len from_bit up_to_bit)
  unfolding find_zero_subsequence
  find_zero_subsequence-FirstRun searched len from_bit up_to_bit fits le =
      zero_subsequence_loop-FirstRun searched len _ from_bit up_to_bit _ (omega arith) le
        λ pos i. bit-window_bound bits from_bit (from_bit + len) i (omega arith) (omega arith)

  -- `r` is the last zero of `c` at or below `pos`; or it is `bits` and all those digits are ones.
  pub data LastZero (c pos : ℕ) : ℕ → Type 0 where
    at :
        {r : ℕ}
        → r ≤ pos
        → bit c r ≡ 0
        → ((i : ℕ) → r < i → i ≤ pos → bit c i ≡ 1)
        → LastZero c pos r
    none_below : {r : ℕ} → r ≡ bits → ((i : ℕ) → i ≤ pos → bit c i ≡ 1) → LastZero c pos r

  -- With `pos` below `bits`, the search returns the place of the last zero at or below `pos`; or it
  -- returns `bits` and all digits up to `pos` are 1.
  pub find_previous_zero-LastZero :
      (c pos : ℕ) → pos < bits → LastZero c pos (find_previous_zero bits c pos)
  unfolding find_previous_zero
  find_previous_zero-LastZero c pos lt = elim (Bool-cases (ltb pos d)) [
    | inl all ↦ rw all (none_below refl λ i le. ones_above i le (ground arith))
    | inr some_zero ↦ rw some_zero (
        at (omega arith) (zero_here (ltb→le _ _ some_zero))
          λ i above le. ones_above i le (ground arith))
  ]
    where
      s : ℕ
      s = shl bits c (bits - 1 - pos)

      d : ℕ
      d = count_msb_ones bits s

      s-lt : s < 2 ^ bits
      s-lt = mod-lt (c * 2 ^ (bits - 1 - pos)) (one-le-pow bits 2 (omega arith))

      digit : (i : ℕ) → i ≤ pos → bit s (i + (bits - 1 - pos)) ≡ bit c i
      digit i le = ground (arith, bit-shl_in bits c (bits - 1 - pos) (i + (bits - 1 - pos)))

      ones_above : (i : ℕ) → i ≤ pos → pos < i + d → bit c i ≡ 1
      ones_above i le more = omega (
        arith,
        digit i le,
        count_msb_ones_high bits s (i + (bits - 1 - pos)) s-lt (omega arith) (omega arith),
      )

      zero_here : d ≤ pos → bit c (pos - d) ≡ 0
      zero_here le = omega (
        arith,
        digit (pos - d) (omega arith),
        count_msb_ones_top bits s (pos - d + (bits - 1 - pos)) s-lt (omega arith),
      )
