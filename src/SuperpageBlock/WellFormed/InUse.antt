-- ===== src/SuperpageBlock/WellFormed/InUse.antt =====
-- `all_page_blocks_unused` and `completely_unused` of src/allocator.h, by which the heaps decide that a
-- superpage block can be destroyed.
use mathlib.Core.Path.{subst}
use givy.Base.{
  ℕ, zero, suc, ◌+◌, ◌-◌, ◌≤◌, ◌<◌, ◌≡◌, ◌↔◌, refl, sym, ap, ◌∙◌, arith, Bool, true, false, ltb,
  leb, ◌==◌, Bool-cases, inl, inr, ltb→lt, ltb→le, ==→eq, ==→ne, eq→==,
}
use givy.Space.{superpage_page_nb}
use givy.SuperpageBlock.{
  PageBlockHeader, reserved, is_unused, header, SuperpageBlock, all_page_blocks_unused,
  completely_unused, available_pb_index, free_page_block, destroy_huge_alloc,
}
use givy.SuperpageBlock.Partition.{is_unused_at}
use givy.SuperpageBlock.WellFormed.{IsGood, IsLaidOut}
use givy.SuperpageBlock.WellFormed.Create.{destroy_huge_alloc-IsGood}
use givy.SuperpageBlock.WellFormed.Run.{Run, IsKept, is_fixed, Run-IsKept}
use givy.SuperpageBlock.WellFormed.Pages.{count_below, stored_size-count}

count_below-bound :
    (p : ℕ → Bool) (lo n : ℕ) → ((i : ℕ) → i < lo → p i ≡ false) → count_below p n ≤ n - lo
unfolding count_below
count_below-bound p lo zero low = omega arith
count_below-bound p lo (suc n) low =
    let ih = count_below-bound p lo n low in
    elim (Bool-cases (ltb n lo)) [
      | inl lt ↦ let e = low n (ltb→lt _ _ lt) in rw e (omega arith)
      | inr ge ↦ ground (arith, ih, ltb→le _ _ ge)
    ]

count_below-all :
    (p : ℕ → Bool) (lo n : ℕ)
    → ((i : ℕ) → i < lo → p i ≡ false)
    → ((i : ℕ) → lo ≤ i → i < n → p i ≡ true)
    → count_below p n ≡ n - lo
unfolding count_below
count_below-all p lo zero low all = omega arith
count_below-all p lo (suc n) low all =
    let ih = count_below-all p lo n low (λ i a b. all i a (omega arith)) in
    elim (Bool-cases (ltb n lo)) [
      | inl lt ↦ let e = low n (ltb→lt _ _ lt) in rw e (omega (arith, ltb→lt _ _ lt))
      | inr ge ↦ let e = all n (ltb→le _ _ ge) (omega arith) in rw e (omega (arith, ltb→le _ _ ge))
    ]

count_below-full :
    (p : ℕ → Bool) (lo n : ℕ)
    → ((i : ℕ) → i < lo → p i ≡ false)
    → count_below p n ≡ n - lo
    → (i : ℕ) → lo ≤ i
    → i < n
    → p i ≡ true
unfolding count_below
count_below-full p lo zero low full i a b = absurd (omega arith)
count_below-full p lo (suc n) low full i a b =
    let bound = count_below-bound p lo n low in
    elim (Bool-cases (p n)) [
      | inl pass ↦ elim (Bool-cases (n == i)) [
        | inl last ↦ subst (λ k. p k ≡ true) {y = i} (==→eq _ _ last) pass
        | inr before ↦
            count_below-full p lo n low (ground (arith, pass)) i a (omega (arith, ==→ne _ _ before))
      ]
      | inr fails ↦ absurd (ground (arith, fails, bound))
    ]

-- With fewer than all, one fails.
count_below-some :
    (p : ℕ → Bool) (lo n : ℕ)
    → count_below p n < n - lo
    → (i : ℕ) × (lo ≤ i) × (i < n) × (p i ≡ false)
unfolding count_below
count_below-some p lo zero less = absurd (omega arith)
count_below-some p lo (suc n) less = elim (Bool-cases (p n)) [
  | inl pass ↦
      let r = count_below-some p lo n (ground (arith, pass)) in (r.0, r.1, omega (arith, r.2), r.3)
  | inr fails ↦ (n, omega arith, omega arith, fails)
]

count_below-rest :
    (p : ℕ → Bool) (hi left : ℕ)
    → ((i : ℕ) → hi ≤ i → i < hi + left → p i ≡ false)
    → count_below p (hi + left) ≡ count_below p hi
unfolding count_below
count_below-rest p hi zero high = ap (count_below p) (omega arith)
count_below-rest p hi (suc left) high =
    let at : suc (hi + left) ≡ hi + suc left = omega arith in
    let e = high (hi + left) (omega arith) (omega arith) in
    sym (ap (count_below p) at)
    ∙ rw e (omega (arith, count_below-rest p hi left (λ i a b. high i a (omega arith))))

module _ (header_space_pages : ℕ) (s : SuperpageBlock) (w : IsGood s)
    (headers : (n : ℕ) → n < header_space_pages → is_unused_at s.pbh_table n ≡ false) where
  abbrev stored : ℕ
  stored = s.unused_list.stored_size

  unused_iff :
      header_space_pages ≤ available_pb_index s
      → ((n : ℕ)
          → available_pb_index s ≤ n
          → n < superpage_page_nb
          → is_unused_at s.pbh_table n ≡ false)
      → (all_page_blocks_unused header_space_pages s ≡ true) ↔ (
          (n : ℕ)
          → header_space_pages ≤ n
          → n < available_pb_index s
          → is_unused_at s.pbh_table n ≡ true)
  unused_iff le huge = (
    λ all.
        count_below-full (is_unused_at s.pbh_table) header_space_pages (available_pb_index s)
          headers (omega (arith, counted, ==→eq _ _ all)),
    λ all. eq→== _ _ (
        omega (
          arith,
          counted,
          count_below-all (is_unused_at s.pbh_table) header_space_pages (available_pb_index s)
              headers all,
        )),
  )
    where
      counted : stored ≡ count_below (is_unused_at s.pbh_table) (available_pb_index s)
      counted =
          let left = superpage_page_nb - available_pb_index s in
          let at : available_pb_index s + left ≡ superpage_page_nb = omega arith in
          stored_size-count s.pbh_table s.unused_list w
          ∙ sym (ap (count_below (is_unused_at s.pbh_table)) at)
          ∙ count_below-rest (is_unused_at s.pbh_table) (available_pb_index s) left
              (λ i a b. huge i a (omega arith))

  -- Where the index of a huge allocation that is gone still is in the table.
  early :
      s.superpage_nb ≡ 1
      → header_space_pages ≤ s.huge_alloc_pb_index
      → s.huge_alloc_pb_index < superpage_page_nb
      → (completely_unused header_space_pages s ≡ true
          → (n : ℕ) × (header_space_pages ≤ n)
            × (n < superpage_page_nb)
            × (is_unused_at s.pbh_table n ≡ false))
        × (((n : ℕ)
              → header_space_pages ≤ n
              → n < superpage_page_nb
              → is_unused_at s.pbh_table n ≡ true)
            → completely_unused header_space_pages s ≡ false)
  early one le lt =
      let counted = stored_size-count s.pbh_table s.unused_list w in
      (
        λ all.
            let e : stored ≡ available_pb_index s - header_space_pages = ==→eq _ _ (ground arith) in
            count_below-some (is_unused_at s.pbh_table) header_space_pages superpage_page_nb
              (omega (arith, counted, e)),
        λ all.
            let full =
              count_below-all (is_unused_at s.pbh_table) header_space_pages superpage_page_nb
                headers all in
            ground (arith, counted, full),
      )

destroy_huge_alloc_index :
    (s : SuperpageBlock) → (destroy_huge_alloc s).huge_alloc_pb_index ≡ s.huge_alloc_pb_index
unfolding destroy_huge_alloc free_page_block
destroy_huge_alloc_index s = elim (Bool-cases (ltb s.huge_alloc_pb_index superpage_page_nb)) [
  | inl inside ↦ rw inside refl
  | inr outside ↦ rw outside refl
]

fixed_headers :
    (h : ℕ) (s s' : SuperpageBlock)
    → IsLaidOut h s
    → IsKept s s'
    → (n : ℕ) → n < h
    → is_unused_at s'.pbh_table n ≡ false
fixed_headers h s s' l k n lt =
    let r = l.headers n lt in
    ap (λ (x : PageBlockHeader). is_unused x.type) (k.fixed n (ap is_fixed r)) ∙ ap is_unused r

-- Whatever page blocks are allocated and freed in a superpage block that is laid out as the
-- constructor does it, `all_page_blocks_unused` is true exactly if each page between the headers
-- and the huge allocation is unused.
pub all_page_blocks_unused_iff :
    (header_space_pages : ℕ) (s : SuperpageBlock) {s' : SuperpageBlock}
    → IsLaidOut header_space_pages s
    → Run s s'
    → (all_page_blocks_unused header_space_pages s' ≡ true) ↔ (
        (n : ℕ)
        → header_space_pages ≤ n
        → n < available_pb_index s'
        → is_unused_at s'.pbh_table n ≡ true)
all_page_blocks_unused_iff h s {s'} l run =
    let k = Run-IsKept s l.good run in
    let at : available_pb_index s' ≡ available_pb_index s = omega (arith, k.same.huge_index) in
    unused_iff h s' k.good (fixed_headers h s s' l k) (omega (arith, l.room, at)) (λ n le lt.
      let e = l.huge_pages n (omega (arith, at)) lt in
      ap (λ (x : PageBlockHeader). is_unused x.type)
        (k.fixed n (ap (λ (x : PageBlockHeader). is_fixed x.type) e) ∙ e))

-- The huge allocation of a superpage block that is laid out as the constructor does it begins in
-- the first superpage, and is destroyed. Whatever page blocks are allocated and freed then: if the
-- block counts as completely unused, a page of it is in use that is no header; and if no such page
-- is in use, the block does not count as completely unused.
pub destroy_huge_alloc-early :
    (header_space_pages : ℕ) (s : SuperpageBlock) {s' : SuperpageBlock}
    → IsLaidOut header_space_pages s
    → s.huge_alloc_pb_index < superpage_page_nb
    → Run (destroy_huge_alloc s) s'
    → (completely_unused header_space_pages s' ≡ true
        → (n : ℕ) × (header_space_pages ≤ n)
          × (n < superpage_page_nb)
          × (is_unused_at s'.pbh_table n ≡ false))
      × (((n : ℕ)
            → header_space_pages ≤ n
            → n < superpage_page_nb
            → is_unused_at s'.pbh_table n ≡ true)
          → completely_unused header_space_pages s' ≡ false)
destroy_huge_alloc-early h s {s'} l lt run =
    let d = destroy_huge_alloc s in
    let facts = destroy_huge_alloc-IsGood h s l in
    let k = Run-IsKept d facts.0 run in
    let index = destroy_huge_alloc_index s in
    early h s' k.good
      (λ n below.
        let first : leb s.huge_alloc_pb_index n ≡ false = ground (arith, l.room) in
        let r : (header d.pbh_table n).type ≡ reserved =
          facts.2 n (omega (arith, l.room)) ∙ rw first (l.headers n below) in
        ap (λ (x : PageBlockHeader). is_unused x.type) (k.fixed n (ap is_fixed r)) ∙ ap is_unused r)
      (k.same.superpages ∙ facts.1) (omega (arith, l.room, k.same.huge_index, index))
      (omega (arith, k.same.huge_index, index))
