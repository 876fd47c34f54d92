-- ===== src/LocalHeap/Kept.antt =====
-- Allocation and deallocation by the owner in src/allocator.h keep the superpage blocks in order.
use mathlib.Core.Path.{subst}
use givy.Base.{
  ℕ, ◌/◌, ◌<◌, ◌≡◌, refl, sym, ap, ◌∙◌, arith, true, false, Option, none, some, List, ◌==◌, ltb,
  if◌then◌else◌, Bool-cases, inl, inr, ==→eq,
}
use givy.IntrusiveList.Ring.Links.{has}
use givy.Pointer.{Ptr, sub}
use givy.Space.{superpage_page_nb, page_size, trim_superpage_sequence}
use givy.SuperpageBlock.{
  PageBlockHeader, MemoryType, small, medium, huge, unused, reserved, SuperpageBlock, header,
  free_page_block, completely_unused, all_page_blocks_unused, in_huge_alloc, destroy_huge_alloc,
}
use givy.SuperpageBlock.Partition.{head_of, head-head}
use givy.SuperpageBlock.WellFormed.{IsGood, IsLaidOut}
use givy.SuperpageBlock.WellFormed.Create.{destroy_huge_alloc-IsGood}
use givy.SuperpageBlock.WellFormed.Free.{free_page_block-IsFreed}
use givy.SuperpageBlock.WellFormed.Run.{is_small_or_medium, small_or_medium-used}
use givy.SmallBlocks.{put_small_block, available_small_blocks}
use givy.LocalHeap.{
  ThreadLocalHeap, set_heap, page_block, unlink_page_block, Sizes, Node, set_block, set_small,
  set_active, active, unlink_ptr,
}
use givy.LocalHeap.Pages.{destroy_page_block, destroy_superpage_block, destroy_superpage_huge_alloc}
use givy.LocalHeap.Small.{info_of, destroy_small_block, thread_local_deallocate}
use givy.LocalHeap.Search.{same_key}
use givy.LocalHeap.Invariant.{owned, IsNode, IsNode-change, IsNode-fewer, has-unlink}

module _ (z : Sizes) (me : ℕ) where
  pub owned-set_heap :
      (h : ThreadLocalHeap) (n : Node) (j : ℕ)
      → owned (set_heap n me h) j ≡ (if j == me then h.owned_superpage_blocks else owned n j)
  owned-set_heap h n j = elim (Bool-cases (j == me)) [
    | inl e ↦ rw (e, owned) refl
    | inr e ↦ rw (e, owned) refl
  ]

  owned-set_active :
      (sc : ℕ) (l : List (Ptr × ℕ)) (n : Node) (j : ℕ) → owned (set_active n me sc l) j ≡ owned n j
  owned-set_active sc l n j = owned-set_heap _ n j ∙ elim (Bool-cases (j == me)) [
    | inl e ↦ rw e (ap (owned n) {x = me} (sym (==→eq _ _ e)))
    | inr e ↦ rw e refl
  ]

  pub set_active-IsNode :
      (sc : ℕ) (l : List (Ptr × ℕ)) (n : Node) → IsNode n → IsNode (set_active n me sc l)
  set_active-IsNode sc l n k =
      IsNode-fewer n (set_active n me sc l) k refl
        (λ j p h. subst (λ o. has p o ≡ true) (owned-set_active sc l n j) h)

  set_block-IsNode :
      (spb : Ptr) (s : SuperpageBlock) (n : Node) → IsNode n → IsGood s → IsNode (set_block n spb s)
  set_block-IsNode spb s n k good =
      IsNode-change n (set_block n spb s) spb k (rw (same_key spb) good) (λ q ne. rw ne refl)
        (λ j p ne h. h)

  destroy_superpage_block-IsNode :
      (spb : Ptr) (n : Node) → IsNode n → IsNode (destroy_superpage_block z me spb n)
  unfolding destroy_superpage_block
  destroy_superpage_block-IsNode spb n k =
      IsNode-fewer n (destroy_superpage_block z me spb n) k refl (λ j p h.
        let o =
          owned-set_heap
            (record (n.heaps me) { owned_superpage_blocks = unlink_ptr spb (owned n me) }) n j in
        elim (Bool-cases (j == me)) [
          | inl e ↦
              let at : me ≡ j = sym (==→eq _ _ e) in
              subst (λ i. has p (owned n i) ≡ true) at
                (has-unlink p spb (owned n me) (subst (λ l. has p l ≡ true) (o ∙ rw e refl) h))
          | inr e ↦ subst (λ l. has p l ≡ true) (o ∙ rw e refl) h
        ])

  -- The page block at `pbh` of an owned superpage block is in use, and `pbh` is its first header.
  pub destroy_page_block-IsNode :
      (spb : Ptr) (pbh : ℕ) (n : Node)
      → IsNode n
      → IsGood (n.superpage_blocks spb)
      → pbh < superpage_page_nb
      → head_of (n.superpage_blocks spb).pbh_table pbh ≡ pbh
      → is_small_or_medium (header (n.superpage_blocks spb).pbh_table pbh).type ≡ true
      → IsNode (destroy_page_block z me spb pbh n)
  unfolding destroy_page_block
  destroy_page_block-IsNode spb pbh n k good lt itself kind =
      let s = n.superpage_blocks spb in
      let freed = set_block n spb (free_page_block s pbh) in
      let r = free_page_block-IsFreed s pbh good itself lt (small_or_medium-used _ kind) in
      let k' = set_block-IsNode spb (free_page_block s pbh) n k r.good in
      elim (Bool-cases (completely_unused z.header_space_pages (freed.superpage_blocks spb))) [
        | inl all ↦ rw all (destroy_superpage_block-IsNode spb freed k')
        | inr some_used ↦ rw some_used k'
      ]

  -- A call that returns, with the superpage blocks in order.
  abbrev pub IsKept : Option Node → Type 0
  IsKept r = (n' : Node) × (r ≡ some n') × IsNode n'

  destroy_superpage_huge_alloc-IsKept :
      (spb : Ptr) (n : Node)
      → IsNode n
      → IsLaidOut z.header_space_pages (n.superpage_blocks spb)
      → 1 < (n.superpage_blocks spb).superpage_nb
      → IsKept (destroy_superpage_huge_alloc z me spb n)
  unfolding destroy_superpage_huge_alloc
  destroy_superpage_huge_alloc-IsKept spb n k l several =
      let s = n.superpage_blocks spb in
      let r = (trim_superpage_sequence n.space spb s.superpage_nb).0 in
      let after = record (set_block n spb (destroy_huge_alloc s)) { space = r } in
      let good = (destroy_huge_alloc-IsGood z.header_space_pages s l).0 in
      let more : ltb 1 s.superpage_nb ≡ true = ground arith in
      (
        after,
        rw more refl,
        IsNode-change n after spb k (rw (same_key spb) good) (λ q ne. rw ne refl) (λ j p ne h. h),
      )

  pub destroy_small_block-IsNode :
      (ptr spb : Ptr) (pbh : ℕ) (n : Node)
      → IsNode n
      → IsGood (n.superpage_blocks spb)
      → pbh < superpage_page_nb
      → head_of (n.superpage_blocks spb).pbh_table pbh ≡ pbh
      → is_small_or_medium (header (n.superpage_blocks spb).pbh_table pbh).type ≡ true
      → IsNode (destroy_small_block z me ptr spb pbh n)
  unfolding destroy_small_block
  destroy_small_block-IsNode ptr spb pbh n k good lt itself kind =
      let info = info_of z me (n.small_blocks spb pbh).sb_sizeclass in
      let s =
        put_small_block z.counter_bits (page_block spb pbh) (n.small_blocks spb pbh) ptr info in
      let put = set_small n spb pbh s in
      let unlinked =
        set_active put me info.sc_id (unlink_page_block (spb, pbh) (active put me info.sc_id)) in
      let k' : IsNode put = IsNode-fewer n put k refl (λ j p h. h) in
      elim (Bool-cases (available_small_blocks s info == info.nb_blocks)) [
        | inl empty ↦ rw empty (
            destroy_page_block-IsNode spb pbh unlinked (set_active-IsNode _ _ put k') good lt itself
              kind)
        | inr some_used ↦ rw some_used (elim (Bool-cases (available_small_blocks s info == 1)) [
          | inl first ↦ rw first (set_active-IsNode _ _ put k')
          | inr others ↦ rw others k'
        ])
      ]

  -- What the loop over the types does at the page block `pbh` of the type `ty`.
  abbrev by_type : Ptr → Ptr → ℕ → Node → MemoryType → Option Node
  by_type ptr spb pbh n ty = elim ty [
    | small ↦ some (destroy_small_block z me ptr spb pbh n)
    | medium ↦ some (destroy_page_block z me spb pbh n)
    | huge ↦ none
    | unused ↦ none
    | reserved ↦ none
  ]

  by_type-IsKept :
      (ptr spb : Ptr) (pbh : ℕ) (n : Node) (ty : MemoryType)
      → IsNode (destroy_small_block z me ptr spb pbh n)
      → IsNode (destroy_page_block z me spb pbh n)
      → is_small_or_medium ty ≡ true
      → IsKept (by_type ptr spb pbh n ty)
  by_type-IsKept ptr spb pbh n MemoryType.small a b kind = (_, refl, a)
  by_type-IsKept ptr spb pbh n MemoryType.medium a b kind = (_, refl, b)
  by_type-IsKept ptr spb pbh n MemoryType.huge a b kind = cc
  by_type-IsKept ptr spb pbh n MemoryType.unused a b kind = cc
  by_type-IsKept ptr spb pbh n MemoryType.reserved a b kind = cc

  -- The owner of a superpage block that is in order deallocates an address in it. If the address is
  -- in the huge allocation, the block is laid out as the constructor does it and has more than one
  -- superpage. If not, it is in a small or medium page block of the table. Then the deallocation
  -- returns, and the superpage blocks of all heaps are in order.
  pub thread_local_deallocate-IsKept :
      (ptr spb : Ptr) (n : Node)
      → IsNode n
      → IsGood (n.superpage_blocks spb)
      → (in_huge_alloc (n.superpage_blocks spb) spb ptr ≡ true
          → IsLaidOut z.header_space_pages (n.superpage_blocks spb)
            × (1 < (n.superpage_blocks spb).superpage_nb))
      → (in_huge_alloc (n.superpage_blocks spb) spb ptr ≡ false
          → (sub ptr spb / page_size < superpage_page_nb)
            × (is_small_or_medium
                  (header (n.superpage_blocks spb).pbh_table (sub ptr spb / page_size)).type
                ≡ true))
      → IsKept (thread_local_deallocate z me ptr spb n)
  unfolding thread_local_deallocate
  thread_local_deallocate-IsKept ptr spb n k good huge_case page_case =
      elim (Bool-cases (in_huge_alloc (n.superpage_blocks spb) spb ptr)) [
        | inl is_huge ↦
            rw is_huge
              (elim (Bool-cases
                (all_page_blocks_unused z.header_space_pages (n.superpage_blocks spb))) [
                  | inl all ↦ rw all (_, refl, destroy_superpage_block-IsNode spb n k)
                  | inr some_used ↦ rw some_used (
                      destroy_superpage_huge_alloc-IsKept spb n k (huge_case is_huge).0
                        (huge_case is_huge).1)
                ])
        | inr is_page ↦ rw is_page (
            let t = (n.superpage_blocks spb).pbh_table in
            let i = sub ptr spb / page_size in
            let c = page_case is_page in
            let b = good.parts i c.0 in
            let first = head-head t i b in
            let itself = ap (λ (x : PageBlockHeader). x.head) first in
            let kind = ap (λ (x : PageBlockHeader). is_small_or_medium x.type) first ∙ c.1 in
            let lt : head_of t i < superpage_page_nb = omega (arith, b.start, c.0) in
            by_type-IsKept ptr spb (head_of t i) n (header t (head_of t i)).type
              (destroy_small_block-IsNode ptr spb (head_of t i) n k good lt itself kind)
              (destroy_page_block-IsNode spb (head_of t i) n k good lt itself kind) kind)
      ]
