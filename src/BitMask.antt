-- ===== src/BitMask.antt =====
-- `BitMask<IntType>` of src/bitmask.h, for an unsigned type of `bits` binary digits.
-- A value of IntType is a number below 2 ^ bits; a left shift cuts off what leaves the type.
-- The loops run on fuel: each counting loop gets `bits` rounds, after which a shifted word is 0.
pub mod Windows
pub mod Counts
pub mod Search
mod Tests
use givy.Base.{
  ℕ, zero, suc, ◌+◌, ◌-◌, ◌*◌, ◌/◌, ◌%◌, ◌^◌, bit_and, Bool, not, List, [], ◌∷◌, ltb, ◌==◌,
  if◌then◌else◌,
}

abbrev pub zeros : ℕ
zeros = 0

abbrev pub one : ℕ
one = 1

module _ (bits : ℕ) where
  abbrev pub ones : ℕ
  ones = 2 ^ bits - 1

  -- `x << k` and `~ x` in the type.
  abbrev pub shl : ℕ → ℕ → ℕ
  shl x k = (x * 2 ^ k) % 2 ^ bits

  abbrev pub complement : ℕ → ℕ
  complement x = 2 ^ bits - 1 - x

  unfoldable pub lsb_ones : ℕ → ℕ
  lsb_ones nb = if nb == 0 then 0 else ones / 2 ^ (bits - nb)

  unfoldable pub msb_ones : ℕ → ℕ
  msb_ones nb = if nb == 0 then 0 else shl ones (bits - nb)

  unfoldable pub window_size : ℕ → ℕ → ℕ
  unfolding lsb_ones
  window_size start size = if start == bits then 0 else shl (lsb_ones size) start

  unfoldable pub window_bound : ℕ → ℕ → ℕ
  unfolding window_size
  window_bound start end = window_size start (end - start)

  unfoldable pub is_set : ℕ → ℕ → Bool
  is_set i b = not (bit_and (shl one b) i == 0)

  -- `for (; c; c >>= 1, --b)`
  unfoldable pub msb_zeros_loop : ℕ → ℕ → ℕ → ℕ
  msb_zeros_loop zero c b = b
  msb_zeros_loop (suc fuel) c b =
      let rest = msb_zeros_loop fuel (c / 2) (b - 1) in if c == 0 then b else rest

  unfoldable pub count_msb_zeros : ℕ → ℕ
  unfolding msb_zeros_loop
  count_msb_zeros c = msb_zeros_loop bits c bits

  -- `for (; c; c <<= 1, --b)`
  unfoldable pub lsb_zeros_loop : ℕ → ℕ → ℕ → ℕ
  lsb_zeros_loop zero c b = b
  lsb_zeros_loop (suc fuel) c b =
      let rest = lsb_zeros_loop fuel (shl c 1) (b - 1) in if c == 0 then b else rest

  unfoldable pub count_lsb_zeros : ℕ → ℕ
  unfolding lsb_zeros_loop
  count_lsb_zeros c = lsb_zeros_loop bits c bits

  -- `c & one () == zeros ()` is `c & (one () == zeros ())`: C gives `==` the higher precedence.
  unfoldable pub zeros_loop : ℕ → ℕ → ℕ → ℕ
  zeros_loop zero c b = b
  zeros_loop (suc fuel) c b =
      let test = bit_and c (if one == zeros then 1 else 0) in
      let rest = zeros_loop fuel (c / 2) (if test == 0 then b else b + 1) in
      if c == 0 then b else rest

  unfoldable pub count_zeros : ℕ → ℕ
  unfolding zeros_loop
  count_zeros c = zeros_loop bits c 0

  unfoldable pub count_msb_ones : ℕ → ℕ
  unfolding count_msb_zeros
  count_msb_ones c = count_msb_zeros (complement c)

  -- The `while` loop at `window_end`, with `left` rounds up to `up_to_bit`.
  unfoldable pub zero_subsequence_loop : ℕ → ℕ → ℕ → ℕ → ℕ → ℕ
  zero_subsequence_loop searched len zero window_end bit_window = bits
  zero_subsequence_loop searched len (suc left) window_end bit_window =
      let rest = zero_subsequence_loop searched len left (window_end + 1) (shl bit_window 1) in
      if bit_and searched bit_window == zeros then window_end - len else rest

  unfoldable pub find_zero_subsequence : ℕ → ℕ → ℕ → ℕ → ℕ
  unfolding zero_subsequence_loop window_bound
  find_zero_subsequence searched len from_bit up_to_bit =
      let window_end = from_bit + len in
      zero_subsequence_loop searched len (up_to_bit + 1 - window_end) window_end
        (window_bound from_bit window_end)

  unfoldable pub find_previous_zero : ℕ → ℕ → ℕ
  unfolding count_msb_ones
  find_previous_zero c pos =
      let distance_to_prev_zero = count_msb_ones (shl c (bits - 1 - pos)) in
      if ltb pos distance_to_prev_zero then bits else pos - distance_to_prev_zero

  -- The characters that `str` writes, lowest bit first.
  unfoldable pub str_loop : ℕ → ℕ → List ℕ
  str_loop zero c = []
  str_loop (suc left) c = (if bit_and one c == 0 then b'0' else b'1') ∷ str_loop left (c / 2)

  unfoldable pub str : ℕ → List ℕ
  unfolding str_loop
  str c = str_loop bits c

  -- The overloads for gcc and clang, over the builtin that they call.
  unfoldable pub count_msb_zeros_clz : (ℕ → ℕ) → ℕ → ℕ
  count_msb_zeros_clz builtin_clz c = if ltb 0 c then builtin_clz c else bits

  unfoldable pub count_lsb_zeros_ctz : (ℕ → ℕ) → ℕ → ℕ
  count_lsb_zeros_ctz builtin_ctz c = if ltb 0 c then builtin_ctz c else bits

  unfoldable pub count_zeros_popcount : (ℕ → ℕ) → ℕ → ℕ
  count_zeros_popcount builtin_popcount c = bits - builtin_popcount c
