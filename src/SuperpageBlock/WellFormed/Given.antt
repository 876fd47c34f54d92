-- ===== src/SuperpageBlock/WellFormed/Given.antt =====
-- What `allocate_page_block` of src/allocator.h gives: the pages of a cut, and runs of unused pages.
use givy.Base.{
  ℕ, zero, suc, ◌+◌, ◌-◌, ◌≤◌, ◌<◌, ◌≡◌, ◌≢◌, refl, sym, ap, ◌∙◌, arith, Bool, true, false, Option,
  none, some, if◌then◌else◌, Bool-cases, inl, inr,
}
use givy.QuickList.{QuickList}
use givy.QuickList.Laws.{held, is}
use givy.Space.{superpage_page_nb}
use givy.SuperpageBlock.{
  Table, PageBlockHeader, MemoryType, SuperpageBlock, unused, is_unused, header, nb_page_of, format,
}
use givy.SuperpageBlock.Headers.{among}
use givy.SuperpageBlock.Partition.{head_of, is_unused_at, among_in, among→le}
use givy.SuperpageBlock.WellFormed.{
  type_of_unused, IsSameBlock, IsWellFormed, IsGood, free-held, unused_inside,
}
use givy.SuperpageBlock.WellFormed.Cut.{room}

-- The result of asking for `page_nb` pages of the type `ty`: a page block, with the pages of the
-- table in use as before but for its own, which were unused; or nothing, where nowhere so many
-- pages in a row are unused.
pub data Given (s : SuperpageBlock) (page_nb : ℕ) (ty : MemoryType)
    : Option ℕ × SuperpageBlock → Type 0 where
  given :
      {p : ℕ} {s' : SuperpageBlock}
      → IsGood s'
      → IsSameBlock s s'
      → header s'.pbh_table p ≡ format ty page_nb p
      → p + page_nb ≤ superpage_page_nb
      → ((n : ℕ) → p ≤ n → n < p + page_nb → is_unused_at s.pbh_table n ≡ true)
      → ((n : ℕ)
          → (header s'.pbh_table n).type
            ≡ (if among p (p + page_nb) n then ty else (header s.pbh_table n).type))
      → ((n : ℕ)
          → is_unused_at s.pbh_table n ≡ false
          → header s'.pbh_table n ≡ header s.pbh_table n)
      → Given s page_nb ty (some p, s')
  nothing :
      {s' : SuperpageBlock}
      → s' ≡ s
      → ((n : ℕ) → ((i : ℕ) → i < page_nb → is_unused_at s.pbh_table (n + i) ≡ true) → page_nb ≡ 0)
      → Given s page_nb ty (none, s')

-- A run of unused pages lies in one block.
run-head :
    (t : Table) (q : QuickList) (n j : ℕ)
    → IsWellFormed t q
    → ((i : ℕ) → i < suc j → is_unused_at t (n + i) ≡ true)
    → head_of t (n + j) ≡ head_of t n
run-head t q n zero w all = ap (head_of t) (omega arith)
run-head t q n (suc j) w all =
    let e : n + j + 1 ≡ n + suc j = omega arith in
    let u : is_unused_at t (n + j + 1) ≡ true = ap (is_unused_at t) e ∙ all (suc j) (omega arith) in
    ap (head_of t) (sym e)
    ∙ sym (w.merged (n + j) (all j (omega arith)) u)
    ∙ run-head t q n j w (λ i lt. all i (omega arith))

pub no_run :
    (t : Table) (q : QuickList) (n k : ℕ)
    → IsWellFormed t q
    → ((e : ℕ) → 0 < held (is e) q → nb_page_of t e < k)
    → ((i : ℕ) → i < k → is_unused_at t (n + i) ≡ true)
    → k ≡ 0
no_run t q n zero w least all = refl
no_run t q n (suc j) w least all =
    let last = n + j in
    let u = all j (omega arith) in
    let b = w.parts last (unused_inside t last w.whole u) in
    let b0 = w.parts n (omega (arith, unused_inside t last w.whole u)) in
    let h = run-head t q n j w all in
    let first = b.alike (head_of t last) (omega arith) (omega (arith, b.start, b.end)) in
    let free = ap (λ (x : PageBlockHeader). is_unused x.type) first ∙ u in
    let itself = ap (λ (x : PageBlockHeader). x.head) first in
    let size = ap (λ (x : PageBlockHeader). x.nb_page) first in
    let one = free-held t q (head_of t last) w free itself in
    absurd (omega (arith, least (head_of t last) (omega (arith, one)), size, b.end, b0.start, h))

module _ (s : SuperpageBlock) (k : ℕ) (ty : MemoryType) (w : IsGood s) (pos : 0 < k)
    (used : is_unused ty ≡ false) where
  abbrev t : Table
  t = s.pbh_table

  -- From the headers, for any list that is right for them.
  pub Given-cut :
      (p : ℕ) (s' : SuperpageBlock)
      → is_unused_at t p ≡ true
      → head_of t p ≡ p
      → k ≤ nb_page_of t p
      → IsSameBlock s s'
      → ((n : ℕ)
          → header s'.pbh_table n ≡ (
              if among p (p + k) n
              then format ty k p
              else if among (p + k) (p + nb_page_of t p) n
              then format unused (nb_page_of t p - k) (p + k)
              else header t n))
      → IsGood s'
      → Given s k ty (some p, s')
  Given-cut p s' free itself fits same cut good =
      given good same (cut p ∙ rw (among_in p (p + k) p (omega arith) (omega arith)) refl)
        (omega (arith, r)) was_unused types kept
    where
      r : p + nb_page_of t p ≤ superpage_page_nb
      r = room t s'.pbh_table s.unused_list p k ty w free itself pos fits used

      was_unused_all : (n : ℕ) → p ≤ n → n < p + nb_page_of t p → is_unused_at t n ≡ true
      was_unused_all n lo hi =
          let b = w.parts p (omega (arith, r)) in
          ap (λ (x : PageBlockHeader). is_unused x.type)
            (b.alike n (omega (arith, itself)) (omega (arith, itself)))
          ∙ free

      was_unused : (n : ℕ) → p ≤ n → n < p + k → is_unused_at t n ≡ true
      was_unused n lo hi = was_unused_all n lo (omega (arith, fits))

      types :
          (n : ℕ)
          → (header s'.pbh_table n).type ≡ (if among p (p + k) n then ty else (header t n).type)
      types n = elim (Bool-cases (among p (p + k) n)) [
        | inl here ↦ ap (λ (x : PageBlockHeader). x.type) (cut n) ∙ rw here refl
        | inr out ↦ elim (Bool-cases (among (p + k) (p + nb_page_of t p) n)) [
          | inl cut_off ↦
              let i = among→le (p + k) (p + nb_page_of t p) n cut_off in
              ap (λ (x : PageBlockHeader). x.type) (cut n)
              ∙ rw (out, cut_off)
                  (type_of_unused (header t n).type (was_unused_all n (omega (arith, i)) i.1))
          | inr beyond ↦ ap (λ (x : PageBlockHeader). x.type) (cut n) ∙ rw (out, beyond) refl
        ]
      ]

      kept : (n : ℕ) → is_unused_at t n ≡ false → header s'.pbh_table n ≡ header t n
      kept n u = elim (Bool-cases (among p (p + k) n)) [
        | inl here ↦
            let i = among→le p (p + k) n here in let v = was_unused n i.0 i.1 in absurd (clash u v)
        | inr out ↦ elim (Bool-cases (among (p + k) (p + nb_page_of t p) n)) [
          | inl cut_off ↦
              let i = among→le (p + k) (p + nb_page_of t p) n cut_off in
              let v = was_unused_all n (omega (arith, i)) i.1 in absurd (clash u v)
          | inr beyond ↦ cut n ∙ rw (out, beyond) refl
        ]
      ]
        where
          clash : {b : Bool} → b ≡ false → b ≢ true
          clash u v = cc
