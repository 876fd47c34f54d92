-- ===== src/BitMask/Windows.antt =====
-- The masks of src/bitmask.h, digit by digit.
use native.Mathlib.Nat.{mod-lt, one-le-pow}
use givy.Base.{ℕ, ◌+◌, ◌-◌, ◌*◌, ◌^◌, ◌≤◌, ◌<◌, ◌≡◌, arith, ltb, leb, ◌&&◌, if◌then◌else◌}
use givy.Bits.{bit, bit-ones, bit-shr, bit-shl, bit-mod, bit-zero}
use givy.BitMask.{ones, lsb_ones, msb_ones, window_size, window_bound, shl}

module _ (bits : ℕ) where
  pub bit-lsb_ones : (nb i : ℕ) → nb ≤ bits → bit (lsb_ones bits nb) i ≡ (if ltb i nb then 1 else 0)
  unfolding lsb_ones
  bit-lsb_ones nb i h =
      ground (arith, bit-zero i, bit-shr (ones bits) (bits - nb) i, bit-ones bits (i + (bits - nb)))

  -- With `nb` at most `bits`, `msb_ones nb` has ones exactly in the `nb` highest of the `bits`
  -- digits.
  pub bit-msb_ones :
      (nb i : ℕ)
      → nb ≤ bits
      → bit (msb_ones bits nb) i ≡ (if leb (bits - nb) i && ltb i bits then 1 else 0)
  unfolding msb_ones
  bit-msb_ones nb i h = ground (
    arith,
    bit-zero i,
    bit-mod (ones bits * 2 ^ (bits - nb)) bits i,
    bit-shl (ones bits) (bits - nb) i,
    bit-ones bits (i - (bits - nb)),
  )

  pub bit-shl_in :
      (x k i : ℕ) → bit (shl bits x k) i ≡ (if leb k i && ltb i bits then bit x (i - k) else 0)
  bit-shl_in x k i = ground (arith, bit-mod (x * 2 ^ k) bits i, bit-shl x k i)

  pub bit-window_size :
      (start size i : ℕ)
      → start + size ≤ bits
      → bit (window_size bits start size) i ≡ (if leb start i && ltb i (start + size) then 1 else 0)
  unfolding window_size
  bit-window_size start size i h =
      ground
        (arith, bit-zero i, bit-shl_in (lsb_ones bits size) start i, bit-lsb_ones size (i - start))

  -- With `start` at most `end` and that at most `bits`, the window has ones exactly from `start` up
  -- to, and without, `end`.
  pub bit-window_bound :
      (start end i : ℕ)
      → start ≤ end
      → end ≤ bits
      → bit (window_bound bits start end) i ≡ (if leb start i && ltb i end then 1 else 0)
  unfolding window_bound
  bit-window_bound start end i h k = ground (arith, bit-window_size start (end - start) i)

  pub window_bound-lt : (start end : ℕ) → window_bound bits start end < 2 ^ bits
  unfolding window_bound
  window_bound-lt start end =
      ground
        (arith, one-le-pow bits 2, mod-lt (lsb_ones bits (end - start) * 2 ^ start) {m = 2 ^ bits})
