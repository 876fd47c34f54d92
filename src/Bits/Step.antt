-- ===== src/Bits/Step.antt =====
-- How `bit_and` and `bit_or` act on the lowest digit. The native words are built by the recursion
-- `digits`, whose first argument bounds the number of digits it reads.
use Prim.Native.Nat.{digits, bitwise, bit_or-bitwise, bit_and-bitwise}
use mathlib.Core.Path.{subst}
use givy.Base.{
  ◌-◌, max, min, ℕ, suc, zero, ◌≤◌, ◌≡◌, ◌%◌, ◌/◌, ◌*◌, ◌+◌, bit_or, bit_and, arith, refl, sym, ◌∙◌,
}

module _ (outside : ℕ → ℕ) (digit : ℕ → ℕ → ℕ) where
  -- The recursion, with the number first.
  abbrev read : ℕ → ℕ → ℕ → ℕ
  read x y bound = digits outside digit bound x y

  read-zero : (y bound : ℕ) → read zero y bound ≡ outside y
  read-zero y zero = refl
  read-zero y (suc bound) = refl

  -- A bound that is larger than it need be changes nothing.
  read_more : (x y bound more : ℕ) → x ≤ bound → read x y (bound + more) ≡ read x y bound
  read_more zero y bound more le = read-zero y (bound + more) ∙ sym (read-zero y bound)
  read_more (suc x) y zero more le = absurd (omega arith)
  read_more (suc x) y (suc bound) more le =
      rw suc_add (rw (read_more (suc x / 2) (y / 2) bound more (omega arith)))
    where
      suc_add : suc bound + more ≡ suc (bound + more)
      suc_add = omega arith

  halved : (x y : ℕ) → read (suc x / 2) (y / 2) x ≡ bitwise outside digit (suc x / 2) (y / 2)
  halved x y =
      let split : suc x / 2 + (x - suc x / 2) ≡ x = omega arith in
      subst (λ k. read (suc x / 2) (y / 2) k ≡ read (suc x / 2) (y / 2) (suc x / 2)) split
        (read_more (suc x / 2) (y / 2) (suc x / 2) (x - suc x / 2) (omega arith))

pub bit_and_step : (a b : ℕ) → bit_and a b ≡ bit_and (a / 2) (b / 2) * 2 + min (a % 2) (b % 2)
bit_and_step zero y = simp bit_and-bitwise (omega arith)
bit_and_step (suc x) y = simp bit_and-bitwise (omega (arith, halved (λ _. zero) min x y))

pub bit_or_step : (a b : ℕ) → bit_or a b ≡ bit_or (a / 2) (b / 2) * 2 + max (a % 2) (b % 2)
bit_or_step zero y = simp bit_or-bitwise (omega arith)
bit_or_step (suc x) y = simp bit_or-bitwise (omega (arith, halved (λ k. k) max x y))
