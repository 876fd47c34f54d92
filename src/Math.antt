-- ===== src/Math.antt =====
-- The functions of src/math.h on size_t (64 bits), and `BoundUint` of src/types.h.
-- A division by 0 gives 0 here; the source leaves it undefined.
pub mod Laws
mod Tests
use givy.Base.{
  ℕ, zero, suc, ◌+◌, ◌-◌, ◌*◌, ◌/◌, ◌%◌, ◌^◌, bit_and, Bool, true, ◌&&◌, ◌||◌, Option, none, some,
  ltb, leb, ◌==◌, if◌then◌else◌,
}
use givy.BitMask.{count_msb_zeros, shl}

abbrev pub size_bits : ℕ
size_bits = 64

-- `x - y` in the type.
abbrev pub wrapping_sub : ℕ → ℕ → ℕ
wrapping_sub x y = (x + 2 ^ size_bits - y) % 2 ^ size_bits

unfoldable pub divide_up : ℕ → ℕ → ℕ
divide_up n div = wrapping_sub (n + div) 1 % 2 ^ size_bits / div

unfoldable pub align : ℕ → ℕ → ℕ
align n al = n / al * al % 2 ^ size_bits

unfoldable pub align_up : ℕ → ℕ → ℕ
align_up n al = divide_up n al * al % 2 ^ size_bits

unfoldable pub is_power_of_2 : ℕ → Bool
is_power_of_2 x = ltb 0 x && (bit_and x (wrapping_sub x 1) == 0)

unfoldable pub log_2_inf : ℕ → ℕ
log_2_inf x = wrapping_sub (size_bits - 1) (count_msb_zeros size_bits x)

unfoldable pub log_2_sup : ℕ → ℕ
log_2_sup x = log_2_inf (wrapping_sub x 1) + 1

unfoldable pub round_up_as_power_of_2 : ℕ → ℕ
round_up_as_power_of_2 x = shl size_bits 1 (log_2_sup x)

unfoldable pub representation_bits : ℕ → ℕ
representation_bits x = if x == 0 then 1 else log_2_inf x + 1

-- For a type of `bits` digits.
unfoldable pub can_represent : ℕ → ℕ → Bool
can_represent bits n = leb n (2 ^ bits - 1)

-- `UintSelector<N>`: the specialisations, and `N + 1` elsewhere up to the `static_assert`.
unfoldable pub uint_selector : ℕ → ℕ → Option ℕ
uint_selector zero n = none
uint_selector (suc fuel) n =
    let rest = uint_selector fuel (n + 1) in
    if (n == 8) || (n == 16) || (n == 32) || (n == 64)
    then some n
    else if leb n 64
    then rest
    else none

-- The number of digits of `BoundUint<max_value>`. From 1 up, the selector ends at 64 at the latest.
unfoldable pub bound_uint : ℕ → Option ℕ
bound_uint max_value = uint_selector 64 (representation_bits max_value)
