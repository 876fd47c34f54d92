-- ===== src/LocalHeap/Interface.antt =====
-- `ThreadLocalHeap` of src/allocator.h: allocation, deallocation by any heap, and the end of a heap.
use givy.Base.{
  ℕ, zero, suc, ◌+◌, ◌-◌, ◌*◌, max, Bool, true, false, Option, none, some, List, [], ◌∷◌, ◌++◌,
  ◌>>=◌, ◌&&◌, ◌==◌, ltb, leb, if◌then◌else◌,
}
use givy.Math.{divide_up, is_power_of_2}
use givy.Pointer.{Ptr, ptr_align}
use givy.Space.{page_size, superpage_page_nb, superpage_sequence_start}
use givy.SizeClass.{small_medium}
use givy.SuperpageBlock.{
  MemoryType, small, medium, header, nb_page_of, page_block_memory, huge_alloc_memory, adopt,
  disown,
}
use givy.LocalHeap.{
  Sizes, Node, set_block, set_owned, set_remote, active, set_active, unlink_page_block,
}
use givy.LocalHeap.Pages.{create_page_block, create_superpage_block}
use givy.LocalHeap.Small.{
  allocate_small_block, thread_local_deallocate, process_thread_remote_frees,
}

abbrev is_small : MemoryType → Bool
is_small small = true
is_small _ = false

-- The small page blocks of a superpage block, from `i` on. The loop goes from block to block, and
-- ends behind the table in as many steps as the table has headers, since no block is empty.
unfoldable pub small_page_blocks : ℕ → Node → Ptr → ℕ → List ℕ
small_page_blocks zero n spb i = []
small_page_blocks (suc fuel) n spb i =
    let t = (n.superpage_blocks spb).pbh_table in
    let rest = small_page_blocks fuel n spb (i + nb_page_of t i) in
    if ltb i superpage_page_nb then if is_small (header t i).type then i ∷ rest else rest else []

module _ (z : Sizes) (me : ℕ) where
  abbrev pub medium_high : ℕ
  medium_high = (superpage_page_nb - z.header_space_pages) * page_size

  -- The test on the size, behind the alignment. The block is an address and a size.
  unfoldable pub allocate_size : ℕ → Node → Option ((Ptr × ℕ) × Node)
  allocate_size size n =
      let medium_block = create_page_block z me (divide_up size page_size) medium n >>= λ r.
      some (page_block_memory (r.1.superpage_blocks r.0.0) r.0.0 r.0.1, r.1) in
      let huge_block = create_superpage_block z me size n >>= λ r.
      some (huge_alloc_memory (r.1.superpage_blocks r.0) r.0, r.1) in
      if ltb size small_medium
      then allocate_small_block z me size n
      else if ltb size medium_high
      then medium_block
      else huge_block

  -- The two assertions are checked in every build.
  unfoldable pub allocate : ℕ → ℕ → Node → Option ((Ptr × ℕ) × Node)
  allocate size align n = do
    processed ← process_thread_remote_frees z me n
    if leb align page_size && is_power_of_2 align
        then allocate_size (max size align) processed
        else none

  abbrev pub add_active : Ptr → List ℕ → Node → Node
  add_active spb [] n = n
  add_active spb (i ∷ rest) n =
      let sc = (n.small_blocks spb i).sb_sizeclass in
      add_active spb rest (set_active n me sc (active n me sc ++ (spb, i) ∷ []))

  -- What follows a successful adoption.
  unfoldable pub adopted : Ptr → Node → Node
  adopted spb n =
      let owned = set_owned n me ((n.heaps me).owned_superpage_blocks ++ spb ∷ []) in
      add_active spb (small_page_blocks superpage_page_nb n spb 0) owned

  -- The two ways of `deallocate`, for the owner that it has seen.
  unfoldable pub deallocate_for : Option ℕ → Ptr → Ptr → Node → Option Node
  deallocate_for none ptr spb n = none
  deallocate_for (some owner) ptr spb n =
      if owner == me
      then thread_local_deallocate z me ptr spb n
      else some (
          set_remote n owner
            ((ptr_align ptr z.unused_block_size, spb) ∷ (n.heaps owner).remote_freed_blocks))

  -- `others` is what the other threads do between the load of the owner and the adoption.
  unfoldable pub deallocate : (Node → Node) → Ptr → Node → Option Node
  deallocate others ptr n = do
    processed ← process_thread_remote_frees z me n
    spb ← superpage_sequence_start processed.space ptr
    let owner = (processed.superpage_blocks spb).owner
    let later = others processed
    let r = adopt (later.superpage_blocks spb) me
    elim owner [
      | some k ↦ deallocate_for (some k) ptr spb later
      | none ↦
          if r.0
          then deallocate_for (some me) ptr spb (adopted spb (set_block later spb r.1))
          else deallocate_for none ptr spb later
    ]

  abbrev pub remove_active : Ptr → List ℕ → Node → Node
  remove_active spb [] n = n
  remove_active spb (i ∷ rest) n =
      let sc = (n.small_blocks spb i).sb_sizeclass in
      remove_active spb rest (set_active n me sc (unlink_page_block (spb, i) (active n me sc)))

  -- The destructor, over the list of owned superpage blocks.
  unfoldable pub disown_all : List Ptr → Node → Node
  disown_all [] n = n
  disown_all (spb ∷ rest) n =
      let popped = set_owned n me rest in
      let unlinked = remove_active spb (small_page_blocks superpage_page_nb n spb 0) popped in
      disown_all rest (set_block unlinked spb (disown (unlinked.superpage_blocks spb)))

  abbrev pub destroy_heap : Node → Node
  destroy_heap n = disown_all (n.heaps me).owned_superpage_blocks n
