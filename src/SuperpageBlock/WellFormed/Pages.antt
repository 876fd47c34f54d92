-- ===== src/SuperpageBlock/WellFormed/Pages.antt =====
-- What the size of the quick list of a superpage block says in src/allocator.h: the number of unused
-- pages, and whether none is in use.
use givy.Base.{
  ℕ, zero, suc, ◌+◌, ◌-◌, ◌≤◌, ◌<◌, ◌≡◌, refl, ap, ◌∙◌, arith, min, Bool, true, false, List, [],
  ◌∷◌, ◌==◌, Bool-cases, inl, inr, ==→eq,
}
use givy.QuickList.{QuickList}
use givy.QuickList.Laws.{weight, weight_slots, held, is}
use givy.QuickList.Sizes.{held-same}
use givy.Space.{superpage_page_nb}
use givy.SuperpageBlock.{Table, PageBlockHeader, is_unused, nb_page_of}
use givy.SuperpageBlock.Headers.{among}
use givy.SuperpageBlock.Partition.{head_of, is_unused_at, IsBlock, among→le, head-head}
use givy.SuperpageBlock.WellFormed.{IsWellFormed, one_if, held-free, free-held, unused_inside}

-- How many numbers below `n` pass a test.
unfoldable pub count_below : (ℕ → Bool) → ℕ → ℕ
count_below p zero = 0
count_below p (suc n) = count_below p n + one_if (p n)

weight-add : (f g : ℕ → ℕ) (l : List ℕ) → weight (λ e. f e + g e) l ≡ weight f l + weight g l
weight-add f g [] = omega arith
weight-add f g (x ∷ l) = omega (arith, weight-add f g l)

weight_slots-add :
    (f g : ℕ → ℕ) (s : List (List ℕ))
    → weight_slots (λ e. f e + g e) s ≡ weight_slots f s + weight_slots g s
weight_slots-add f g [] = omega arith
weight_slots-add f g (l ∷ s) = omega (arith, weight-add f g l, weight_slots-add f g s)

held-add : (f g : ℕ → ℕ) (q : QuickList) → held (λ e. f e + g e) q ≡ held f q + held g q
held-add f g q =
    omega (arith, weight_slots-add f g q.exact_size_slots, weight-add f g q.bigger_sizes)

module _ (t : Table) (q : QuickList) (w : IsWellFormed t q) where
  -- The pages below `n` of the block at `e`.
  abbrev part_below : ℕ → ℕ → ℕ
  part_below n e = min (nb_page_of t e) (n - e)

  listed_block : (e : ℕ) → 0 < held (is e) q → IsBlock t e
  listed_block e pos = w.parts e (unused_inside t e w.whole (held-free t q e w pos).0)

  -- A page of a listed block is unused, and the block is the one around the page.
  listed_page :
      (e n : ℕ)
      → 0 < held (is e) q
      → e ≤ n
      → n < e + nb_page_of t e
      → (is_unused_at t n ≡ true) × (head_of t n ≡ e)
  listed_page e n pos lo hi =
      let f = held-free t q e w pos in
      let same = (listed_block e pos).alike n (omega (arith, f.1)) (omega (arith, f.1)) in
      (
        ap (λ (x : PageBlockHeader). is_unused x.type) same ∙ f.0,
        ap (λ (x : PageBlockHeader). x.head) same ∙ f.1,
      )

  part_step_used :
      (n e : ℕ)
      → is_unused_at t n ≡ false
      → 0 < held (is e) q
      → part_below (suc n) e ≡ part_below n e
  part_step_used n e used pos = elim (Bool-cases (among e (e + nb_page_of t e) n)) [
    | inl here ↦
        let i = among→le e (e + nb_page_of t e) n here in
        let u = (listed_page e n pos i.0 i.1).0 in cc (u, used)
    | inr out ↦ ground arith
  ]

  part_step_unused :
      (n e : ℕ)
      → n < superpage_page_nb
      → is_unused_at t n ≡ true
      → 0 < held (is e) q
      → part_below (suc n) e ≡ part_below n e + is (head_of t n) e
  part_step_unused n e lt u pos = elim (Bool-cases (among e (e + nb_page_of t e) n)) [
    | inl here ↦
        let i = among→le e (e + nb_page_of t e) n here in
        let h = (listed_page e n pos i.0 i.1).1 in
        let one : is (head_of t n) e ≡ 1 = ground (arith, h) in omega (arith, one, i)
    | inr out ↦
        let b = w.parts n lt in
        let none_here : is (head_of t n) e ≡ 0 = elim (Bool-cases (e == head_of t n)) [
          | inl own ↦
              let at = ==→eq _ _ own in
              let size = ap (λ (x : PageBlockHeader). x.nb_page) (head-head t n b) in
              let size' : nb_page_of t e ≡ nb_page_of t (head_of t n) = ap (nb_page_of t) at in
              ground (arith, at, size, size', b.start, b.end)
          | inr other ↦ rw other refl
        ] in
        rw none_here (ground arith)
  ]

  count_step :
      (n : ℕ)
      → n < superpage_page_nb
      → held (part_below (suc n)) q ≡ held (part_below n) q + one_if (is_unused_at t n)
  count_step n lt = elim (Bool-cases (is_unused_at t n)) [
    | inl u ↦
        let first = head-head t n (w.parts n lt) in
        let one =
          free-held t q (head_of t n) w (ap (λ (x : PageBlockHeader). is_unused x.type) first ∙ u)
            (ap (λ (x : PageBlockHeader). x.head) first) in
        let more =
          held-same (part_below (suc n)) (λ e. part_below n e + is (head_of t n) e) q
            (λ e pos. part_step_unused n e lt u pos) in
        rw u (omega (arith, more, held-add (part_below n) (is (head_of t n)) q, one))
    | inr v ↦
        let same =
          held-same (part_below (suc n)) (part_below n) q (λ e pos. part_step_used n e v pos) in
        rw v (omega (arith, same))
  ]

  held-count :
      (n : ℕ) → n ≤ superpage_page_nb → held (part_below n) q ≡ count_below (is_unused_at t) n
  unfolding count_below
  held-count zero le = held-same (part_below 0) (λ e. 0) q (λ e pos. omega arith) ∙ held-zero
    where
      weight-zero : (l : List ℕ) → weight (λ e. 0) l ≡ 0
      weight-zero [] = refl
      weight-zero (x ∷ l) = omega (arith, weight-zero l)

      weight_slots-zero : (s : List (List ℕ)) → weight_slots (λ e. 0) s ≡ 0
      weight_slots-zero [] = refl
      weight_slots-zero (l ∷ s) = omega (arith, weight-zero l, weight_slots-zero s)

      held-zero : held (λ e. 0) q ≡ 0
      held-zero = omega (arith, weight-zero q.bigger_sizes, weight_slots-zero q.exact_size_slots)
  held-count (suc n) le = omega (arith, count_step n (omega arith), held-count n (omega arith))

  -- The size of the quick list is the number of unused pages of the table.
  pub stored_size-count : q.stored_size ≡ count_below (is_unused_at t) superpage_page_nb
  stored_size-count =
      w.valid.stored
      ∙ held-same (nb_page_of t) (part_below superpage_page_nb) q (λ e pos.
        let b = listed_block e pos in omega (arith, b.inside, (held-free t q e w pos).1))
      ∙ held-count superpage_page_nb (omega arith)
