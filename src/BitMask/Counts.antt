-- ===== src/BitMask/Counts.antt =====
-- The counting loops of src/bitmask.h: how many zeros or ones a word begins with.
use native.Mathlib.Nat.{pow-suc, one-le-pow}
use mathlib.Core.Path.{subst}
use givy.Base.{
  ℕ, zero, suc, ◌+◌, ◌-◌, ◌*◌, ◌/◌, ◌^◌, ◌≤◌, ◌<◌, ◌≡◌, refl, arith, ltb, ◌==◌, bit_and, sym, ap,
  ◌∙◌, inl, inr, Bool-cases, ==→eq, ==→ne, ltb→lt, ltb→le, ◌≢◌, ◌↔◌,
}
use givy.Bits.{bit, bit-zero, bit-bit_and, bit_ext, bit-le, bit_top, bit_high, bit-complement}
use givy.BitMask.{
  complement, msb_zeros_loop, count_msb_zeros, count_msb_ones, zeros_loop, count_zeros,
  count_msb_zeros_clz, count_zeros_popcount,
}

-- `c` has `b - z` digits, the highest of them 1.
pub record LeadingZeros (b c z : ℕ) : Type 0 where
  pub at_most : z ≤ b
  pub fits : c < 2 ^ (b - z)
  pub top : z < b → 2 ^ (b - z - 1) ≤ c

LeadingZeros-suc : (b c z : ℕ) → 0 < b → c ≢ 0 → LeadingZeros (b - 1) (c / 2) z → LeadingZeros b c z
LeadingZeros-suc b c z pos ne h = record {
  at_most = omega (arith, h.at_most);
  fits =
      let e : 2 ^ (b - z) ≡ 2 ^ (b - 1 - z) * 2 =
        ap (λ k. 2 ^ k) {y = suc (b - 1 - z)} (omega (arith, h.at_most)) ∙ pow-suc 2 (b - 1 - z) in
      omega (arith, e, h.fits);
  top = λ lt. elim (Bool-cases (ltb z (b - 1))) [
    | inl more ↦
        let e : 2 ^ (b - z - 1) ≡ 2 ^ (b - 1 - z - 1) * 2 =
          ap (λ k. 2 ^ k) {y = suc (b - 1 - z - 1)} (ground arith) ∙ pow-suc 2 (b - 1 - z - 1) in
        let t : 2 ^ (b - 1 - z - 1) ≤ c / 2 = h.top (ground arith) in omega (arith, e, t)
    | inr last ↦
        let e : 2 ^ (b - z - 1) ≡ 1 = ap (λ k. 2 ^ k) {y = 0} (ground arith) in omega (arith, e)
  ];
}

LeadingZeros-zero : (b c : ℕ) → c ≡ 0 → LeadingZeros b c b
LeadingZeros-zero b c e = record {
  at_most = omega arith;
  fits = omega (arith, one-le-pow (b - b) 2 (omega arith));
  top = λ lt. absurd (omega arith);
}

msb_zeros_loop-LeadingZeros :
    (bits fuel c b : ℕ) → c < 2 ^ fuel → fuel ≤ b → LeadingZeros b c (msb_zeros_loop bits fuel c b)
unfolding msb_zeros_loop
msb_zeros_loop-LeadingZeros bits zero c b small enough = LeadingZeros-zero b c (omega arith)
msb_zeros_loop-LeadingZeros bits (suc fuel) c b small enough = elim (Bool-cases (c == 0)) [
  | inl done ↦ rw done (LeadingZeros-zero b c (==→eq c 0 done))
  | inr more ↦ rw more (
      LeadingZeros-suc b c _ (omega arith) (==→ne c 0 more) (
        msb_zeros_loop-LeadingZeros bits fuel (c / 2) (b - 1) (omega (arith, pow-suc 2 fuel))
          (omega arith)))
]

module _ (bits : ℕ) where
  -- At a word of the type, the loop returns the number of zeros above the highest one: it is at
  -- most `bits`, the word has no digit in that many places, and a 1 right below them.
  pub count_msb_zeros-LeadingZeros :
      (c : ℕ) → c < 2 ^ bits → LeadingZeros bits c (count_msb_zeros bits c)
  unfolding count_msb_zeros
  count_msb_zeros-LeadingZeros c h = msb_zeros_loop-LeadingZeros bits bits c bits h (omega arith)

  -- Digit by digit.
  pub count_msb_zeros-le : (c : ℕ) → c < 2 ^ bits → count_msb_zeros bits c ≤ bits
  count_msb_zeros-le c h = (count_msb_zeros-LeadingZeros c h).at_most

  -- Digit by digit.
  pub count_msb_zeros_high :
      (c i : ℕ) → c < 2 ^ bits → bits ≤ i + count_msb_zeros bits c → bit c i ≡ 0
  count_msb_zeros_high c i h le =
      bit_high (bits - count_msb_zeros bits c) c i (count_msb_zeros-LeadingZeros c h).fits
        (omega arith)

  pub count_msb_zeros_top :
      (c i : ℕ) → c < 2 ^ bits → suc i + count_msb_zeros bits c ≡ bits → bit c i ≡ 1
  count_msb_zeros_top c i h e =
      let z = count_msb_zeros-LeadingZeros c h in
      bit_top i c (subst (λ k. 2 ^ k ≤ c) (omega arith) (z.top (omega arith)))
        (subst (λ k. c < 2 ^ k) (omega arith) z.fits)

  -- What the manual of gcc says of `__builtin_clz`: the number of zeros above the highest one.
  pub record IsClz (builtin_clz : ℕ → ℕ) : Type 0 where
    pub below : (c : ℕ) → 0 < c → c < 2 ^ bits → builtin_clz c < bits
    pub high : (c i : ℕ) → 0 < c → c < 2 ^ bits → bits ≤ i + builtin_clz c → bit c i ≡ 0
    pub first : (c : ℕ) → 0 < c → c < 2 ^ bits → bit c (bits - 1 - builtin_clz c) ≡ 1

  count_msb_zeros_pos : (c : ℕ) → 0 < c → c < 2 ^ bits → count_msb_zeros bits c < bits
  count_msb_zeros_pos c pos h = elim (Bool-cases (ltb (count_msb_zeros bits c) bits)) [
    | inl yes_lt ↦ ltb→lt _ _ yes_lt
    | inr no_lt ↦
        let z = count_msb_zeros-LeadingZeros c h in
        let all : count_msb_zeros bits c ≡ bits = omega (arith, z.at_most, ltb→le _ _ no_lt) in
        let none_left : c < 2 ^ 0 = subst (λ k. c < 2 ^ k) {y = 0} (omega arith) z.fits in
        absurd (omega arith)
  ]

  count_msb_zeros-zero : (c : ℕ) → c ≡ 0 → c < 2 ^ bits → count_msb_zeros bits c ≡ bits
  count_msb_zeros-zero c e h =
      let z = count_msb_zeros-LeadingZeros c h in
      elim (Bool-cases (ltb (count_msb_zeros bits c) bits)) [
        | inl less ↦ absurd (
            omega (
              arith,
              z.top (ltb→lt _ _ less),
              one-le-pow (bits - count_msb_zeros bits c - 1) 2 (omega arith),
            ))
        | inr full ↦ omega (arith, z.at_most, ltb→le _ _ full)
      ]

  -- At every word of the type, 0 included, the loop of the template returns what the overload
  -- returns that calls `builtin_clz`, if that is as the manual says.
  pub count_msb_zeros_builtin :
      (builtin_clz : ℕ → ℕ) (c : ℕ)
      → IsClz builtin_clz
      → c < 2 ^ bits
      → count_msb_zeros_clz bits builtin_clz c ≡ count_msb_zeros bits c
  unfolding count_msb_zeros_clz
  count_msb_zeros_builtin builtin_clz c spec h = elim (Bool-cases (ltb 0 c)) [
    | inl pos ↦ rw pos (agree (ltb→lt _ _ pos))
    | inr nil ↦ rw nil (sym (count_msb_zeros-zero c (omega (arith, ltb→le _ _ nil)) h))
  ]
    where
      agree : 0 < c → builtin_clz c ≡ count_msb_zeros bits c
      agree pos = grind (
        arith,
        count_msb_zeros_pos c pos h,
        spec.below c pos h,
        spec.first c pos h,
        spec.high c (bits - 1 - count_msb_zeros bits c) pos h,
        count_msb_zeros_high c (bits - 1 - builtin_clz c) h,
        count_msb_zeros_top c (bits - 1 - count_msb_zeros bits c) h,
      )

  bit-complement_in : (c i : ℕ) → c < 2 ^ bits → i < bits → bit (complement bits c) i ≡ 1 - bit c i
  bit-complement_in c i h lt = ground (arith, bit-complement bits c i h)

  pub complement-lt : (c : ℕ) → complement bits c < 2 ^ bits
  complement-lt c = omega (arith, one-le-pow bits 2 (omega arith))

  pub count_msb_ones-le : (c : ℕ) → c < 2 ^ bits → count_msb_ones bits c ≤ bits
  unfolding count_msb_ones
  count_msb_ones-le c h = count_msb_zeros-le (complement bits c) (complement-lt c)

  pub count_msb_ones_high :
      (c i : ℕ) → c < 2 ^ bits → i < bits → bits ≤ i + count_msb_ones bits c → bit c i ≡ 1
  unfolding count_msb_ones
  count_msb_ones_high c i h lt le = omega (
    arith,
    bit-le c i,
    bit-complement_in c i h lt,
    count_msb_zeros_high (complement bits c) i (complement-lt c) le,
  )

  pub count_msb_ones_top :
      (c i : ℕ) → c < 2 ^ bits → suc i + count_msb_ones bits c ≡ bits → bit c i ≡ 0
  unfolding count_msb_ones
  count_msb_ones_top c i h e = omega (
    arith,
    bit-le c i,
    bit-complement_in c i h (omega arith),
    count_msb_zeros_top (complement bits c) i (complement-lt c) e,
  )

  bit_and-zero : (c : ℕ) → bit_and c 0 ≡ 0
  bit_and-zero c = bit_ext _ _ λ i. omega (arith, bit-bit_and c 0 i, bit-zero i)

  zeros_loop-same : (fuel c b : ℕ) → zeros_loop bits fuel c b ≡ b
  unfolding zeros_loop
  zeros_loop-same zero c b = refl
  zeros_loop-same (suc fuel) c b = ground (arith, bit_and-zero c, zeros_loop-same fuel (c / 2) b)

  -- The template `count_zeros` returns 0 at every number. Where `builtin_popcount` is at most
  -- `bits`, that is the answer of the overload exactly if `builtin_popcount` is `bits`.
  pub count_zeros_wrong :
      (builtin_popcount : ℕ → ℕ) (c : ℕ)
      → builtin_popcount c ≤ bits
      → (count_zeros bits c ≡ 0)
        × ((count_zeros bits c ≡ count_zeros_popcount bits builtin_popcount c)
            ↔ (builtin_popcount c ≡ bits))
  unfolding count_zeros count_zeros_popcount
  count_zeros_wrong builtin_popcount c h = (
    zeros_loop-same bits c 0,
    (λ e. omega (arith, zeros_loop-same bits c 0), λ e. omega (arith, zeros_loop-same bits c 0)),
  )
