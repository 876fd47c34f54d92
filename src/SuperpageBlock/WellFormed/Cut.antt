-- ===== src/SuperpageBlock/WellFormed/Cut.antt =====
-- Cutting an unused page block of src/allocator.h in a used and an unused one keeps the invariant.
use mathlib.Core.Path.{subst}
use givy.Base.{
  ℕ, ◌+◌, ◌-◌, ◌≤◌, ◌<◌, ◌≡◌, ◌≢◌, ◌⊎◌, refl, sym, ap, ◌∙◌, arith, true, false, ◌&&◌, length, ltb,
  leb, ◌==◌, if◌then◌else◌, Bool-cases, inl, inr, ltb→lt, ltb→le,
}
use givy.QuickList.{QuickList}
use givy.QuickList.Laws.{held, is, IsValid}
use givy.Space.{superpage_page_nb}
use givy.SuperpageBlock.{
  Table, PageBlockHeader, MemoryType, unused, is_unused, header, nb_page_of, format, slot_nb,
}
use givy.SuperpageBlock.Headers.{among}
use givy.SuperpageBlock.Partition.{
  head_of, is_unused_at, IsBlock, IsBlock-format, IsBorder, among_in, among_out, among→le,
  among→out,
}
use givy.SuperpageBlock.WellFormed.{
  IsWellFormed, is_free, one_if, held_inside, end-IsBorder, unused_inside, IsWellFormed-replace,
}

-- The block at `p` of `old` unused pages, of which the first `k` are front_part away as `ty`.
module _ (t t' : Table) (q : QuickList) (p k : ℕ) (ty : MemoryType) (w : IsWellFormed t q)
    (free : is_unused_at t p ≡ true) (itself : head_of t p ≡ p) (pos : 0 < k)
    (fits : k ≤ nb_page_of t p) (used : is_unused ty ≡ false) where
  abbrev old : ℕ
  old = nb_page_of t p

  -- The headers afterwards.
  abbrev pub IsCut : Type 0
  IsCut =
      (n : ℕ)
      → header t' n ≡ (
          if among p (p + k) n
          then format ty k p
          else if among (p + k) (p + old) n
          then format unused (old - k) (p + k)
          else header t n)

  pub in_table : p < superpage_page_nb
  in_table = unused_inside t p w.whole free

  block : IsBlock t p
  block = w.parts p in_table

  pub room : p + old ≤ superpage_page_nb
  room = omega (arith, block.inside, itself)

  lo-IsBorder : IsBorder t p
  lo-IsBorder = inr itself

  hi-IsBorder : IsBorder t (p + old)
  hi-IsBorder = subst (λ h. IsBorder t (h + old)) {y = p} itself (end-IsBorder t p w.parts block)

  -- The block holds one element of the list, its first header.
  pub inside_free : (e : ℕ) → p ≤ e → e < p + old → held (is e) q ≡ is e p
  inside_free e lo hi = held_inside t q p e w block free itself lo hi

  pub held-apart :
      (q' : QuickList) (e : ℕ)
      → ((f : ℕ → ℕ) → held f q ≡ f p + held f q')
      → 0 < held (is e) q'
      → (e < p) ⊎ (p + old ≤ e)
  held-apart q' e parts some_one = elim (Bool-cases (among p (p + old) e)) [
    | inl here ↦
        let r = among→le p (p + old) e here in
        absurd (omega (arith, inside_free e r.0 r.1, parts (is e)))
    | inr out ↦ among→out p (p + old) e out
  ]

  module _ (cut : IsCut) where
    outside : (m : ℕ) → (m < p) ⊎ (p + old ≤ m) → header t' m ≡ header t m
    outside m out =
        let a =
          among_out p (p + k) m
            (elim out [ inl left ↦ inl left | inr right ↦ inr (omega arith) ]) in
        let b =
          among_out (p + k) (p + old) m
            (elim out [ inl left ↦ inl (omega arith) | inr right ↦ inr right ]) in
        cut m ∙ rw (a, b) refl

    front_part : (m : ℕ) → p ≤ m → m < p + k → header t' m ≡ format ty k p
    front_part m lo hi = let a = among_in p (p + k) m lo hi in cut m ∙ rw a refl

    rest : (m : ℕ) → p + k ≤ m → m < p + old → header t' m ≡ format unused (old - k) (p + k)
    rest m lo hi =
        let a = among_out p (p + k) m (inr lo) in
        let b = among_in (p + k) (p + old) m lo hi in cut m ∙ rw (a, b) refl

    blocks : (n : ℕ) → p ≤ n → n < p + old → IsBlock t' n
    blocks n lo hi = elim (Bool-cases (ltb n (p + k))) [
      | inl left ↦
          let size : k ≡ p + k - p = omega arith in
          IsBlock-format t' p (p + k) n ty lo (ltb→lt _ _ left) (omega (arith, room))
            (λ m a b. front_part m a b ∙ ap (λ s. format ty s p) size)
      | inr right ↦
          let size : old - k ≡ p + old - (p + k) = omega arith in
          IsBlock-format t' (p + k) (p + old) n unused (ltb→le _ _ right) hi room
            (λ m a b. rest m a b ∙ ap (λ s. format unused s (p + k)) size)
    ]

    not_unused : (n : ℕ) → p ≤ n → n < p + k → is_unused_at t' n ≡ false
    not_unused n lo hi = ap (λ (x : PageBlockHeader). is_unused x.type) (front_part n lo hi) ∙ used

    -- What the list has to hold afterwards.
    rest_free : (e : ℕ) → p ≤ e → e < p + old → one_if (is_free t' e) ≡ is e (p + k)
    rest_free e lo hi = elim (Bool-cases (ltb e (p + k))) [
      | inl left ↦
          let u = not_unused e lo (ltb→lt _ _ left) in rw u (ground (arith, ltb→lt _ _ left))
      | inr right ↦
          ap (λ (x : PageBlockHeader). one_if (is_unused x.type && (x.head == e)))
            (rest e (ltb→le _ _ right) hi)
    ]

    -- A block behind the cut one is not the cut one.
    end_apart :
        (n : ℕ) → n + 1 ≡ p + old → is_unused_at t (n + 1) ≡ true → head_of t n ≢ head_of t (n + 1)
    end_apart n e u h =
        let next = w.parts (n + 1) (unused_inside t (n + 1) w.whole u) in
        let mine = block.alike n (omega (arith, itself, fits)) (omega (arith, itself)) in
        let h' = ap (λ (x : PageBlockHeader). x.head) mine in
        let first = next.alike p (omega (arith, h, h', itself)) (omega (arith, next.end, fits)) in
        let s = ap (λ (x : PageBlockHeader). x.nb_page) first in
        omega (arith, next.end, h, h', itself, s, e)

    joint :
        (n : ℕ)
        → p ≤ n + 1
        → n < p + old
        → is_unused_at t' n ≡ true
        → is_unused_at t' (n + 1) ≡ true
        → head_of t' n ≡ head_of t' (n + 1)
    joint n lo hi u v = elim (Bool-cases (leb p n && leb (p + k) n)) [
      | inl right ↦ elim (Bool-cases (ltb (n + 1) (p + old))) [
        | inl more ↦
            ap (λ (x : PageBlockHeader). x.head)
              (rest n (ground arith) hi ∙ sym (rest (n + 1) (ground arith) (ltb→lt _ _ more)))
        | inr last ↦
            let e : n + 1 ≡ p + old = omega (arith, ltb→le _ _ last) in
            let mine = block.alike n (omega (arith, itself, fits)) (omega (arith, itself)) in
            let u' : is_unused_at t n ≡ true =
              ap (λ (x : PageBlockHeader). is_unused x.type) mine ∙ free in
            let v' : is_unused_at t (n + 1) ≡ true =
              ap (λ (x : PageBlockHeader). is_unused x.type)
                (sym (outside (n + 1) (inr (omega (arith, e)))))
              ∙ v in
            absurd (end_apart n e v' (w.merged n u' v'))
      ]
      | inr left ↦ elim (Bool-cases (leb p n)) [
        | inl here ↦ let f = not_unused n (ground arith) (ground arith) in cc
        | inr before ↦ let f = not_unused (n + 1) lo (ground arith) in cc
      ]
    ]

    -- The list `q'` is what is left when `p` is taken; `q''` has the rest of the block too.
    pub cut-IsWellFormed :
        (q'' : QuickList)
        → length t' ≡ superpage_page_nb
        → IsValid slot_nb (nb_page_of t') q''
        → ((e : ℕ)
            → held (is e) q'' + is e p
              ≡ held (is e) q + (if ltb 0 (old - k) then is e (p + k) else 0))
        → IsWellFormed t' q''
    cut-IsWellFormed q'' whole valid counts =
        IsWellFormed-replace t t' q q'' p (p + old) w lo-IsBorder hi-IsBorder whole outside blocks
          valid
          (λ e lo hi.
            let c = counts e in
            let i = inside_free e lo hi in let r = rest_free e lo hi in ground (arith, c, i, r))
          (λ e out.
            let c = counts e in elim out [ inl l ↦ ground (arith, c) | inr r ↦ ground (arith, c) ])
          joint
