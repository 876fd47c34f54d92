-- ===== src/Math/Tests.antt =====
-- Runs of src/math.h and src/types.h at concrete numbers, and the uses of their theorems there.
use givy.Base.{◌≡◌, refl, true, false, some}
use givy.BitMask.{count_msb_zeros, msb_zeros_loop}
use givy.Math.{
  divide_up, align, align_up, is_power_of_2, log_2_inf, log_2_sup, round_up_as_power_of_2,
  representation_bits, can_represent, uint_selector, bound_uint,
}

align_test : (divide_up 10 4 ≡ 3) × (align 10 4 ≡ 8) × (align_up 10 4 ≡ 12) × (align_up 12 4 ≡ 12)
unfolding divide_up align align_up
align_test = (refl, refl, refl, refl)

log_test :
    (log_2_inf 9 ≡ 3)
    × (log_2_sup 9 ≡ 4)
    × (log_2_sup 8 ≡ 3)
    × (round_up_as_power_of_2 9 ≡ 16)
    × (representation_bits 0 ≡ 1)
    × (representation_bits 512 ≡ 10)
unfolding log_2_inf log_2_sup round_up_as_power_of_2 representation_bits count_msb_zeros
    msb_zeros_loop
log_test = (refl, refl, refl, refl, refl, refl)

power_test : (is_power_of_2 0 ≡ false) × (is_power_of_2 8 ≡ true) × (is_power_of_2 12 ≡ false)
unfolding is_power_of_2
power_test = (refl, refl, refl)

bound_test :
    (bound_uint 512 ≡ some 16) × (can_represent 8 255 ≡ true) × (can_represent 8 256 ≡ false)
unfolding bound_uint uint_selector representation_bits log_2_inf count_msb_zeros msb_zeros_loop
    can_represent
bound_test = (refl, refl, refl)
