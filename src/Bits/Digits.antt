-- ===== src/Bits/Digits.antt =====
-- `bit x i`, the digit of weight 2 ^ i of `x`, and what the word operations do to it.
use native.Mathlib.Nat.{
  pow-suc, one-le-pow, mod-lt, mod-eq_of_lt, div-add-mod, add-mul-mod_self_right,
}
use native.Mathlib.Nat.{div-div-eq-div-mul}
use givy.Bits.Step.{bit_and_step, bit_or_step}
use givy.Base.{
  ℕ, zero, suc, ◌+◌, ◌-◌, ◌*◌, ◌/◌, ◌%◌, ◌^◌, ◌≤◌, ◌<◌, min, max, bit_and, bit_or, ◌≡◌, refl, arith,
  sym, ap, ◌∙◌, ltb, if◌then◌else◌,
}

unfoldable pub bit : ℕ → ℕ → ℕ
bit x zero = x % 2
bit x (suc i) = bit (x / 2) i

pub bit-le : (x i : ℕ) → bit x i ≤ 1
unfolding bit
bit-le x zero = omega arith
bit-le x (suc i) = bit-le (x / 2) i

pub bit-zero : (i : ℕ) → bit 0 i ≡ 0
unfolding bit
bit-zero zero = refl
bit-zero (suc i) = bit-zero i

pub bit-bit_and : (a b i : ℕ) → bit (bit_and a b) i ≡ min (bit a i) (bit b i)
unfolding bit
bit-bit_and a b zero = omega (arith, bit_and_step a b)
bit-bit_and a b (suc i) =
    ap (λ t. bit t i) (omega (arith, bit_and_step a b)) ∙ bit-bit_and (a / 2) (b / 2) i

pub bit-bit_or : (a b i : ℕ) → bit (bit_or a b) i ≡ max (bit a i) (bit b i)
unfolding bit
bit-bit_or a b zero = omega (arith, bit_or_step a b)
bit-bit_or a b (suc i) =
    ap (λ t. bit t i) (omega (arith, bit_or_step a b)) ∙ bit-bit_or (a / 2) (b / 2) i

mod_unique : (x m q y : ℕ) → x ≡ y + q * m → y < m → x % m ≡ y
mod_unique x m q y e h = rw e (add-mul-mod_self_right y q m ∙ mod-eq_of_lt h)

mod_double : (x m : ℕ) → 0 < m → x % (2 * m) ≡ 2 * (x / 2 % m) + x % 2
mod_double x m h =
    mod_unique x (2 * m) (x / 2 / m) _ (omega (arith, div-add-mod (x / 2) m))
      (omega (arith, mod-lt (x / 2) h))

mod-pow-suc : (x n : ℕ) → x % 2 ^ suc n ≡ 2 * (x / 2 % 2 ^ n) + x % 2
mod-pow-suc x n =
    ap (λ t. x % t) (omega (arith, pow-suc 2 n))
    ∙ mod_double x (2 ^ n) (one-le-pow n 2 (omega arith))

pub bit-mod : (x n i : ℕ) → bit (x % 2 ^ n) i ≡ (if ltb i n then bit x i else 0)
unfolding bit
bit-mod x zero i = ground (arith, bit-zero i)
bit-mod x (suc n) zero = ground (arith, mod-pow-suc x n)
bit-mod x (suc n) (suc i) =
    ap (λ t. bit t i) {y = x / 2 % 2 ^ n} (omega (arith, mod-pow-suc x n))
    ∙ ground (arith, bit-mod (x / 2) n i)

mul-pow-suc : (x k : ℕ) → x * 2 ^ suc k ≡ 2 * (x * 2 ^ k)
mul-pow-suc x k = omega (arith, ap (λ (t : ℕ). x * t) (pow-suc 2 k))

pub bit-shl : (x k i : ℕ) → bit (x * 2 ^ k) i ≡ (if ltb i k then 0 else bit x (i - k))
unfolding bit
bit-shl x zero i = ground arith
bit-shl x (suc k) zero = ground (arith, mul-pow-suc x k)
bit-shl x (suc k) (suc i) =
    ap (λ t. bit t i) {y = x * 2 ^ k} (omega (arith, mul-pow-suc x k))
    ∙ ground (arith, bit-shl x k i)

div_pow_suc : (x k : ℕ) → x / 2 ^ suc k ≡ x / 2 / 2 ^ k
div_pow_suc x k =
    ap (λ t. x / t) (omega (arith, pow-suc 2 k)) ∙ sym (div-div-eq-div-mul x 2 (2 ^ k))

pub bit-shr : (x k i : ℕ) → bit (x / 2 ^ k) i ≡ bit x (i + k)
unfolding bit
bit-shr x zero i = ground arith
bit-shr x (suc k) i =
    ap (λ t. bit t i) (div_pow_suc x k)
    ∙ bit-shr (x / 2) k i
    ∙ ap (bit x) {x = suc (i + k)} {y = i + suc k} (omega arith)

-- Equal digits make equal numbers.
bit_ext_below : (n x y : ℕ) → x ≤ n → y ≤ n → ((i : ℕ) → bit x i ≡ bit y i) → x ≡ y
unfolding bit
bit_ext_below zero x y p q h = omega arith
bit_ext_below (suc n) x y p q h =
    omega (arith, h 0, bit_ext_below n (x / 2) (y / 2) (omega arith) (omega arith) (λ i. h (suc i)))

pub bit_ext : (x y : ℕ) → ((i : ℕ) → bit x i ≡ bit y i) → x ≡ y
bit_ext x y h = bit_ext_below (max x y) x y (omega arith) (omega arith) h

-- `2 ^ w - 1 - x` is the complement of `x` in `w` digits.
pub bit-complement :
    (w x i : ℕ) → x < 2 ^ w → bit (2 ^ w - 1 - x) i ≡ (if ltb i w then 1 - bit x i else 0)
unfolding bit
bit-complement zero x i h = ground (arith, bit-zero i)
bit-complement (suc w) x zero h = ground (arith, pow-suc 2 w)
bit-complement (suc w) x (suc i) h =
    ap (λ t. bit t i) {y = 2 ^ w - 1 - x / 2} (omega (arith, pow-suc 2 w))
    ∙ ground (arith, bit-complement w (x / 2) i (omega (arith, pow-suc 2 w)))

pub bit-ones : (w i : ℕ) → bit (2 ^ w - 1) i ≡ (if ltb i w then 1 else 0)
bit-ones w i = ground (arith, bit-complement w 0 i, bit-zero i, one-le-pow w 2)

-- A number below 2 ^ w has no digit from `w` on.
pub bit_high : (w x i : ℕ) → x < 2 ^ w → w ≤ i → bit x i ≡ 0
bit_high w x i h le = ground (arith, bit-mod x w i, mod-eq_of_lt h)

-- The highest digit of a number is 1.
pub bit_top : (m x : ℕ) → 2 ^ m ≤ x → x < 2 ^ suc m → bit x m ≡ 1
unfolding bit
bit_top zero x h k = omega arith
bit_top (suc m) x h k =
    bit_top m (x / 2) (omega (arith, pow-suc 2 m)) (omega (arith, pow-suc 2 (suc m)))

-- `x` has only zeros from `start` on, for `size` digits.
abbrev pub ZeroRun : ℕ → ℕ → ℕ → Type 0
ZeroRun x start size = (i : ℕ) → start ≤ i → i < start + size → bit x i ≡ 0
