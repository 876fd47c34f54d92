-- ===== src/LocalHeap/Pages.antt =====
-- `ThreadLocalHeap` of src/allocator.h: superpage blocks and page blocks.
use givy.Base.{ℕ, ◌+◌, ◌%◌, ◌^◌, Option, none, some, List, [], ◌∷◌, ◌++◌, ◌>>=◌, ltb, if◌then◌else◌}
use givy.Math.{divide_up}
use givy.Pointer.{Ptr}
use givy.Space.{
  Space, VmemCall, page_size, superpage_page_nb, reserve_local_superpage_sequence,
  release_superpage_sequence, trim_superpage_sequence,
}
use givy.SuperpageBlock.{
  MemoryType, make_superpage_block, destroy_huge_alloc, allocate_page_block, free_page_block,
  completely_unused,
}
use givy.LocalHeap.{Sizes, Node, set_block, set_owned, unlink_ptr}

module _ (z : Sizes) (me : ℕ) where
  -- The pages of a huge allocation and the superpages for them.
  abbrev pub huge_alloc_page_nb : ℕ → ℕ
  huge_alloc_page_nb huge_alloc_size = divide_up huge_alloc_size page_size

  abbrev pub superpage_nb_for : ℕ → ℕ
  superpage_nb_for huge_alloc_size =
      divide_up ((huge_alloc_page_nb huge_alloc_size + z.header_space_pages) % 2 ^ 64)
        superpage_page_nb

  -- What `create_superpage_block` does with the superpages that it has reserved.
  unfoldable pub put_superpage_block : ℕ → Node → Ptr × Space × List VmemCall → Option (Ptr × Node)
  put_superpage_block huge_alloc_size n (base, space, calls) =
      let spb =
        make_superpage_block z.header_space_pages (superpage_nb_for huge_alloc_size)
          (huge_alloc_page_nb huge_alloc_size) me (n.superpage_blocks base).pbh_table in
      let made = set_block (record n { space = space }) base spb in
      some (base, set_owned made me ((n.heaps me).owned_superpage_blocks ++ base ∷ []))

  unfoldable pub create_superpage_block : ℕ → Node → Option (Ptr × Node)
  create_superpage_block huge_alloc_size n =
      reserve_local_superpage_sequence n.space (superpage_nb_for huge_alloc_size)
      >>= put_superpage_block huge_alloc_size n

  unfoldable pub destroy_superpage_block : Ptr → Node → Node
  destroy_superpage_block spb n =
      let removed = set_owned n me (unlink_ptr spb (n.heaps me).owned_superpage_blocks) in
      let r = release_superpage_sequence n.space spb (n.superpage_blocks spb).superpage_nb in
      record removed { space = r.0 }

  -- The assertion on the size is checked in every build.
  unfoldable pub destroy_superpage_huge_alloc : Ptr → Node → Option Node
  destroy_superpage_huge_alloc spb n =
      let size = (n.superpage_blocks spb).superpage_nb in
      let r = trim_superpage_sequence n.space spb size in
      if ltb 1 size
      then some
          (record (set_block n spb (destroy_huge_alloc (n.superpage_blocks spb))) { space = r.0 })
      else none

  -- The loop over the owned superpage blocks: the first that gives a page block.
  unfoldable pub first_page_block : List Ptr → ℕ → MemoryType → Node → Option (Ptr × ℕ) × Node
  first_page_block [] nb_page ty n = (none, n)
  first_page_block (spb ∷ rest) nb_page ty n =
      let after = set_block n spb (allocate_page_block (n.superpage_blocks spb) nb_page ty).1 in
      let others = first_page_block rest nb_page ty after in
      elim (allocate_page_block (n.superpage_blocks spb) nb_page ty).0 [
        | some pbh ↦ (some (spb, pbh), after)
        | none ↦ others
      ]

  -- `from_new` is the part of `create_page_block` behind the loop.
  unfoldable pub from_new : ℕ → MemoryType → Node → Option ((Ptr × ℕ) × Node)
  from_new nb_page ty n = do
    made ← create_superpage_block 0 n
    let spb = made.0
    let r = allocate_page_block (made.1.superpage_blocks spb) nb_page ty
    pbh ← r.0
    some ((spb, pbh), set_block made.1 spb r.1)

  unfoldable pub create_page_block : ℕ → MemoryType → Node → Option ((Ptr × ℕ) × Node)
  create_page_block nb_page ty n =
      let r = first_page_block (n.heaps me).owned_superpage_blocks nb_page ty n in
      elim r.0 [ some b ↦ some (b, r.1) | none ↦ from_new nb_page ty r.1 ]

  unfoldable pub destroy_page_block : Ptr → ℕ → Node → Node
  destroy_page_block spb pbh n =
      let freed = set_block n spb (free_page_block (n.superpage_blocks spb) pbh) in
      if completely_unused z.header_space_pages (freed.superpage_blocks spb)
      then destroy_superpage_block spb freed
      else freed
