-- ===== src/SmallBlocks/Laws.antt =====
-- Blocks carved from a page block: multiples of their size, each once.
use native.Mathlib.Nat.{div-add-mod', add-mul-mod_self_left}
use givy.Base.{
  length, ◌∙◌, ==→eq, Bool-cases, inl, inr, ℕ, zero, suc, ◌+◌, ◌-◌, dec_lt, ◌*◌, ◌/◌, ◌%◌, ◌≤◌, ◌<◌,
  ◌≡◌, refl, ap, arith, List, [], ◌∷◌, ◌==◌, if◌then◌else◌,
}

abbrev pub count : ℕ → List ℕ → ℕ
count a [] = 0
count a (x ∷ xs) = (if a == x then 1 else 0) + count a xs

-- The addresses of the first blocks of `size` in a page block.
abbrev pub blocks : ℕ → ℕ → ℕ → List ℕ
blocks base size zero = []
blocks base size (suc n) = (base + size * n) ∷ blocks base size n

multiple_le : (u v size p : ℕ) → u * size ≤ p → p < v * size + size → u ≤ v
multiple_le u v size p le lt = elim (dec_lt v u) [
  | yes less ↦
      let step : u * size ≡ v * size + size + (u - v - 1) * size = grind arith in
      absurd (omega (arith, step))
  | no more ↦ omega arith
]

pub same_block :
    (x y size p : ℕ)
    → x % size ≡ 0
    → y % size ≡ 0
    → x ≤ p
    → p < x + size
    → y ≤ p
    → p < y + size
    → x ≡ y
same_block x y size p ex ey lx rx ly ry =
    let dx = div-add-mod' x size in
    let dy = div-add-mod' y size in
    let u = multiple_le (x / size) (y / size) size p (omega arith) (omega arith) in
    let v = multiple_le (y / size) (x / size) size p (omega arith) (omega arith) in
    let e : x / size ≡ y / size = omega arith in omega (arith, ap (λ q. q * size) e)

pub count-blocks_outside :
    (base size n a : ℕ) → base + size * n ≤ a → 0 < size → count a (blocks base size n) ≡ 0
count-blocks_outside base size zero a le pos = refl
count-blocks_outside base size (suc n) a le pos =
    let r = count-blocks_outside base size n a (omega arith) pos in ground arith

pub count-blocks_once : (base size n a : ℕ) → 0 < size → count a (blocks base size n) ≤ 1
count-blocks_once base size zero a pos = omega arith
count-blocks_once base size (suc n) a pos =
    let r = count-blocks_once base size n a pos in
    let o = count-blocks_outside base size n (base + size * n) (omega arith) pos in ground arith

pub count-blocks_member :
    (base size n a : ℕ)
    → 0 < size
    → base % size ≡ 0
    → 0 < count a (blocks base size n)
    → (a % size ≡ 0) × (base ≤ a) × (a + size ≤ base + size * n)
count-blocks_member base size zero a pos aligned some_in = absurd (omega arith)
count-blocks_member base size (suc n) a pos aligned some_in =
    elim (Bool-cases (a == base + size * n)) [
      | inl e ↦
          let multiple : (base + size * n) % size ≡ 0 =
            add-mul-mod_self_left base size n ∙ aligned in
          let q = ==→eq _ _ e in (rw q multiple, omega arith, grind arith)
      | inr e ↦
          let r = count-blocks_member base size n a pos aligned (ground arith) in
          (r.0, r.1, grind arith)
    ]

-- The list less one occurrence.
abbrev pub without : ℕ → List ℕ → List ℕ
without a [] = []
without a (x ∷ xs) = if a == x then xs else x ∷ without a xs

pub count-without :
    (a b : ℕ) (xs : List ℕ)
    → 0 < count b xs
    → count a (without b xs) + (if a == b then 1 else 0) ≡ count a xs
count-without a b [] h = absurd (omega arith)
count-without a b (x ∷ xs) h = elim (Bool-cases (b == x)) [
  | inl e ↦ let q = ==→eq b x e in rw (e, q) (ground arith)
  | inr e ↦ let r = count-without a b xs (ground arith) in rw e (ground arith)
]

pub length-without :
    (b : ℕ) (xs : List ℕ) → 0 < count b xs → suc (length (without b xs)) ≡ length xs
length-without b [] h = absurd (omega arith)
length-without b (x ∷ xs) h = elim (Bool-cases (b == x)) [
  | inl e ↦ rw e refl
  | inr e ↦ let r = length-without b xs (ground arith) in rw e (ap suc r)
]
