-- ===== src/Math/Laws.antt =====
-- What the functions of src/math.h compute.
use mathlib.Core.Path.{subst}
use native.Mathlib.Nat.{
  pow-le-pow_right, mul-mod_left, div-add-mod', mod-lt, one-le-pow, mod-eq_of_lt,
}
use givy.Base.{
  ℕ, zero, suc, ◌+◌, ◌-◌, ◌*◌, ◌/◌, ◌%◌, ◌^◌, ◌≤◌, ◌<◌, ◌≡◌, ◌↔◌, inl, inr, refl, sym, ap, ◌∙◌,
  arith, bit_and, true, ◌||◌, ltb, leb, ◌==◌, if◌then◌else◌, some, Bool-cases, ==→eq, ==→ne, ltb→lt,
  ltb→le,
}
use givy.Bits.{bit, bit-zero, bit-bit_and, bit_ext, bit-ones, bit-shl, bit_top}
use givy.BitMask.{count_msb_zeros}
use givy.BitMask.Counts.{count_msb_zeros-LeadingZeros}
use givy.Math.{
  size_bits, wrapping_sub, divide_up, align, align_up, is_power_of_2, log_2_inf, log_2_sup,
  round_up_as_power_of_2, representation_bits, uint_selector, bound_uint,
}

divide_up_small :
    (n div : ℕ) → 0 < div → n + div ≤ 2 ^ size_bits → divide_up n div ≡ (n + div - 1) / div
unfolding divide_up
divide_up_small n div pos small = ap (λ k. k / div) {y = n + div - 1} (omega arith)

-- Where `n + div` does not leave the type, `divide_up n div` is the least number of parts of size
-- `div` that hold `n`.
pub divide_up_lem :
    (n div : ℕ)
    → 0 < div
    → n + div ≤ 2 ^ size_bits
    → (n ≤ divide_up n div * div) × (divide_up n div * div < n + div)
divide_up_lem n div pos small =
    rw (divide_up_small n div pos small)
      (omega (arith, div-add-mod' (n + div - 1) div, mod-lt (n + div - 1) pos))

-- Where `n + al` does not leave the type, `align_up` gives the least multiple of `al` that is `n`
-- or more, and `align` the greatest that is `n` or less.
pub align_lem :
    (n al : ℕ)
    → 0 < al
    → n + al ≤ 2 ^ size_bits
    → (align_up n al % al ≡ 0)
      × (n ≤ align_up n al)
      × (align_up n al < n + al)
      × (align n al % al ≡ 0)
      × (align n al ≤ n)
      × (n < align n al + al)
unfolding align_up align
align_lem n al pos small = (
  rw (mod-eq_of_lt up_fits) (mul-mod_left (divide_up n al) al),
  omega (arith, mod-eq_of_lt up_fits, up),
  omega (arith, mod-eq_of_lt up_fits, up),
  rw (mod-eq_of_lt down_fits) (mul-mod_left (n / al) al),
  omega (arith, mod-eq_of_lt down_fits, down),
  omega (arith, mod-eq_of_lt down_fits, down, mod-lt n pos),
)
  where
    up : (n ≤ divide_up n al * al) × (divide_up n al * al < n + al)
    up = divide_up_lem n al pos small

    up_fits : divide_up n al * al < 2 ^ size_bits
    up_fits = omega (arith, up)

    down : n / al * al + n % al ≡ n
    down = div-add-mod' n al

    down_fits : n / al * al < 2 ^ size_bits
    down_fits = omega (arith, down)

-- `log_2_inf x` is the binary logarithm of `x`, rounded down.
pub log_2_inf_lem :
    (x : ℕ)
    → 0 < x
    → x < 2 ^ size_bits
    → (2 ^ log_2_inf x ≤ x) × (x < 2 ^ (log_2_inf x + 1)) × (log_2_inf x < size_bits)
unfolding log_2_inf
log_2_inf_lem x pos small =
    let z = count_msb_zeros-LeadingZeros size_bits x small in
    let less : count_msb_zeros size_bits x < size_bits =
      elim (Bool-cases (ltb (count_msb_zeros size_bits x) size_bits)) [
        | inl some_one ↦ ltb→lt _ _ some_one
        | inr all ↦
            let tiny : x < 2 ^ 0 =
              subst (λ k. x < 2 ^ k) {y = 0} (omega (arith, ltb→le _ _ all)) z.fits in
            absurd (omega arith)
      ] in
    (
      subst (λ k. 2 ^ k ≤ x) {y = wrapping_sub 63 (count_msb_zeros size_bits x)} (omega arith)
          (z.top less),
      subst (λ k. x < 2 ^ k) {y = wrapping_sub 63 (count_msb_zeros size_bits x) + 1} (omega arith)
          z.fits,
      omega arith,
    )

-- For 1 < x < 2 ^ 64, `log_2_sup x` is the binary logarithm of `x`, rounded up.
pub log_2_sup_lem :
    (x : ℕ)
    → 1 < x
    → x < 2 ^ size_bits
    → (2 ^ (log_2_sup x - 1) < x)
      × (x ≤ 2 ^ log_2_sup x)
      × (0 < log_2_sup x)
      × (log_2_sup x ≤ size_bits)
unfolding log_2_sup
log_2_sup_lem x pos small =
    let less : wrapping_sub x 1 ≡ x - 1 = omega arith in
    let inf = log_2_inf_lem (x - 1) (omega arith) (omega arith) in
    let back : 2 ^ (log_2_inf (x - 1) + 1 - 1) ≡ 2 ^ log_2_inf (x - 1) =
      ap (λ k. 2 ^ k) {y = log_2_inf (x - 1)} (omega arith) in
    rw less (omega (arith, inf, back), omega (arith, inf), omega arith, omega (arith, inf))

-- For 1 < x ≤ 2 ^ 63, `round_up_as_power_of_2 x` is the least power of two that is `x` or more.
pub round_up_as_power_of_2_lem :
    (x : ℕ)
    → 1 < x
    → x ≤ 2 ^ 63
    → (round_up_as_power_of_2 x ≡ 2 ^ log_2_sup x)
      × (x ≤ round_up_as_power_of_2 x)
      × ((k : ℕ) → x ≤ 2 ^ k → round_up_as_power_of_2 x ≤ 2 ^ k)
unfolding round_up_as_power_of_2
round_up_as_power_of_2_lem x pos small =
    let log = log_2_sup_lem x pos (omega arith) in
    let least : (k : ℕ) → x ≤ 2 ^ k → 2 ^ log_2_sup x ≤ 2 ^ k = λ k le.
      elim (Bool-cases (ltb k (log_2_sup x))) [
        | inl below ↦
            let mono : 2 ^ k ≤ 2 ^ (log_2_sup x - 1) =
              pow-le-pow_right (omega arith) (omega (arith, ltb→lt _ _ below)) in
            absurd (omega (arith, log))
        | inr above ↦ pow-le-pow_right (omega arith) (ltb→le _ _ above)
      ] in
    let e : 1 * 2 ^ log_2_sup x % 2 ^ size_bits ≡ 2 ^ log_2_sup x = omega (
      arith,
      mod-eq_of_lt {n = 2 ^ log_2_sup x} {m = 2 ^ size_bits} (omega (arith, least 63 small)),
    ) in
    (e, omega (arith, log), λ k le. omega (arith, least k le))

bit-one : (i : ℕ) → bit 1 i ≡ (if i == 0 then 1 else 0)
unfolding bit
bit-one zero = refl
bit-one (suc i) = ground (arith, bit-zero i)

bit_pow : (k i : ℕ) → bit (2 ^ k) i ≡ (if i == k then 1 else 0)
bit_pow k i = ground (arith, bit-shl 1 k i, bit-one (i - k))

-- Below 2 ^ 64, `is_power_of_2` holds exactly of the powers of two.
pub is_power_of_2_lem :
    (x : ℕ) → x < 2 ^ size_bits → (is_power_of_2 x ≡ true) ↔ ((k : ℕ) × (x ≡ 2 ^ k))
unfolding is_power_of_2
is_power_of_2_lem x small = (forward, λ p. backward p.0 p.1)
  where
    forward : is_power_of_2 x ≡ true → (k : ℕ) × (x ≡ 2 ^ k)
    forward e =
        let pos : 0 < x = ground arith in
        let log = log_2_inf_lem x pos small in
        let k = log_2_inf x in
        let less : wrapping_sub x 1 ≡ x - 1 = omega arith in
        let none_common : bit_and x (x - 1) ≡ 0 = rw (sym less) (ground arith) in
        let more : k + 1 ≡ suc k = omega arith in
        let top : x < 2 ^ suc k = rw (sym more) log.1 in
        (
          k,
          elim (Bool-cases (ltb (2 ^ k) x)) [
            | inl above ↦ absurd (
                omega (
                  arith,
                  bit-bit_and x (x - 1) k,
                  bit_top k x log.0 top,
                  bit_top k (x - 1) (omega (arith, ltb→lt _ _ above)) (omega arith),
                  ap (λ t. bit t k) none_common ∙ bit-zero k,
                ))
            | inr equal ↦ omega (arith, log, ltb→le _ _ equal)
          ],
        )

    backward : (k : ℕ) → x ≡ 2 ^ k → is_power_of_2 x ≡ true
    backward k e =
        let less : wrapping_sub x 1 ≡ 2 ^ k - 1 = omega (arith, one-le-pow k 2 (omega arith)) in
        let none_common : bit_and (2 ^ k) (2 ^ k - 1) ≡ 0 = bit_ext _ _ λ i.
          ground
            (arith, bit-bit_and (2 ^ k) (2 ^ k - 1) i, bit_pow k i, bit-ones k i, bit-zero i) in
        rw less (rw e (rw none_common (ground (arith, one-le-pow k 2))))

-- `representation_bits x` is the least number of digits, from 1 up, that hold `x`.
pub representation_bits_lem :
    (x : ℕ)
    → x < 2 ^ size_bits
    → (x < 2 ^ representation_bits x)
      × (0 < representation_bits x)
      × (representation_bits x ≤ size_bits)
      × ((w : ℕ) → 0 < w → x < 2 ^ w → representation_bits x ≤ w)
unfolding representation_bits
representation_bits_lem x small = elim (Bool-cases (x == 0)) [
  | inl nil ↦
      rw nil (omega (arith, ==→eq _ _ nil), omega arith, omega arith, λ w pos lt. omega arith)
  | inr some_one ↦
      let log = log_2_inf_lem x (omega (arith, ==→ne _ _ some_one)) small in
      rw some_one (
        log.1,
        omega arith,
        omega (arith, log),
        λ w pos lt. elim (Bool-cases (leb (log_2_inf x + 1) w)) [
          | inl fits ↦ ground arith
          | inr short ↦
              let mono : 2 ^ w ≤ 2 ^ log_2_inf x = pow-le-pow_right (omega arith) (ground arith) in
              absurd (omega (arith, log))
        ],
      )
]

uint_selector_lem :
    (fuel n : ℕ)
    → 0 < n
    → n ≤ 64
    → 64 < n + fuel
    → (w : ℕ) × (uint_selector fuel n ≡ some w) × (n ≤ w) × (w ≤ 64)
unfolding uint_selector
uint_selector_lem zero n pos le enough = absurd (omega arith)
uint_selector_lem (suc fuel) n pos le enough =
    elim (Bool-cases ((n == 8) || (n == 16) || (n == 32) || (n == 64))) [
      | inl here ↦ rw here (n, refl, omega arith, le)
      | inr go_on ↦
          let next = uint_selector_lem fuel (n + 1) (omega arith) (ground arith) (omega arith) in
          let fits : leb n 64 ≡ true = ground arith in
          rw go_on (rw fits (next.0, next.1, omega (arith, next.2), next.3))
    ]

-- For every `max_value` below 2 ^ 64 there is a type `BoundUint<max_value>`, of at most 64 digits,
-- which can represent `max_value`.
pub bound_uint_lem :
    (max_value : ℕ)
    → max_value < 2 ^ size_bits
    → (w : ℕ) × (bound_uint max_value ≡ some w) × (max_value < 2 ^ w) × (w ≤ 64)
unfolding bound_uint
bound_uint_lem max_value small =
    let rep = representation_bits_lem max_value small in
    let sel =
      uint_selector_lem 64 (representation_bits max_value) rep.1 rep.2 (omega (arith, rep)) in
    let grow : 2 ^ representation_bits max_value ≤ 2 ^ sel.0 =
      pow-le-pow_right (omega arith) sel.2 in
    (sel.0, sel.1, omega (arith, rep, grow), sel.3)
