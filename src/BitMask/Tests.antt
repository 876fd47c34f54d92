-- ===== src/BitMask/Tests.antt =====
-- Runs of src/bitmask.h at concrete words, and the uses of its theorems there.
use givy.Base.{ℕ, ◌≡◌, refl, arith, true, ◌∷◌, [], if◌then◌else◌, ◌==◌, ◌↔◌}
use givy.Bits.{bit, bit_high}
use givy.BitMask.{
  lsb_ones, msb_ones, window_size, window_bound, is_set, msb_zeros_loop, count_msb_zeros,
  lsb_zeros_loop, count_lsb_zeros, zeros_loop, count_zeros, count_msb_ones, zero_subsequence_loop,
  find_zero_subsequence, find_previous_zero, str_loop, str, count_zeros_popcount,
  count_lsb_zeros_ctz,
}
use givy.BitMask.Counts.{IsClz, count_zeros_wrong}
use givy.BitMask.Search.{FirstRun, find_zero_subsequence-FirstRun}

masks_test :
    (lsb_ones 8 3 ≡ 7) × (msb_ones 8 3 ≡ 224) × (window_bound 8 2 5 ≡ 28) × (is_set 8 5 2 ≡ true)
unfolding lsb_ones msb_ones window_size window_bound is_set
masks_test = (refl, refl, refl, refl)

counts_test :
    (count_msb_zeros 8 19 ≡ 3)
    × (count_lsb_zeros 8 24 ≡ 3)
    × (count_msb_ones 8 200 ≡ 2)
    × (count_zeros 8 5 ≡ 0)
unfolding count_msb_zeros count_lsb_zeros count_msb_ones count_zeros msb_zeros_loop lsb_zeros_loop
    zeros_loop
counts_test = (refl, refl, refl, refl)

searches_test :
    (find_zero_subsequence 8 9 2 0 8 ≡ 1)
    × (find_zero_subsequence 8 85 2 0 8 ≡ 8)
    × (find_previous_zero 8 24 4 ≡ 2)
unfolding find_zero_subsequence zero_subsequence_loop find_previous_zero count_msb_ones
    count_msb_zeros msb_zeros_loop window_bound window_size lsb_ones
searches_test = (refl, refl, refl)

str_test : str 4 5 ≡ b'1' ∷ b'0' ∷ b'1' ∷ b'0' ∷ []
unfolding str str_loop
str_test = refl

overloads_test : (count_lsb_zeros_ctz 8 (λ _. 3) 24 ≡ 3) × (count_lsb_zeros_ctz 8 (λ _. 3) 0 ≡ 8)
unfolding count_lsb_zeros_ctz
overloads_test = (refl, refl)

-- `__builtin_clz` for a type of two bits.
abbrev clz_2 : ℕ → ℕ
clz_2 c = if c == 1 then 1 else 0

clz_2-IsClz : IsClz 2 clz_2
unfolding bit
clz_2-IsClz = record {
  below = λ c pos h. ground arith;
  high = λ c i pos h le. ground (arith, bit_high 2 c i h, bit_high 1 c i);
  first = λ c pos h. ground arith;
}

find_zero_subsequence-FirstRun_example : FirstRun 8 9 2 0 8 (find_zero_subsequence 8 9 2 0 8)
find_zero_subsequence-FirstRun_example =
    find_zero_subsequence-FirstRun 8 9 2 0 8 (omega arith) (omega arith)

abbrev two_ones : ℕ → ℕ
two_ones c = 2

count_zeros_wrong_example :
    (count_zeros 8 5 ≡ 0)
    × ((count_zeros 8 5 ≡ count_zeros_popcount 8 two_ones 5) ↔ (two_ones 5 ≡ 8))
count_zeros_wrong_example = count_zeros_wrong 8 two_ones 5 (omega arith)
