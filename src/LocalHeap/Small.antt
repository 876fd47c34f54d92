-- ===== src/LocalHeap/Small.antt =====
-- `ThreadLocalHeap` of src/allocator.h: small blocks, and deallocation by the owner.
use givy.Base.{ℕ, max, Option, none, some, List, [], ◌∷◌, ◌>>=◌, ◌==◌, if◌then◌else◌}
use givy.Pointer.{Ptr}
use givy.SizeClass.{Info, id, make_info}
use givy.SuperpageBlock.{
  small, medium, huge, unused, reserved, header, in_huge_alloc, all_page_blocks_unused,
  page_block_header,
}
use givy.SmallBlocks.{
  available_small_blocks, configure_small_blocks, take_small_block, put_small_block,
}
use givy.LocalHeap.{
  Sizes, smallest, min_sizeclass_log, Node, set_small, active, set_active, set_remote,
  unlink_page_block, page_block,
}
use givy.LocalHeap.Pages.{
  create_page_block, destroy_page_block, destroy_superpage_block, destroy_superpage_huge_alloc,
}

module _ (z : Sizes) (me : ℕ) where
  -- The entry of `SizeClass::config` for a size, and for an id.
  abbrev pub info_for : ℕ → Info
  info_for size = make_info (min_sizeclass_log z) (id (min_sizeclass_log z) (max size (smallest z)))

  abbrev pub info_of : ℕ → Info
  info_of sc_id = make_info (min_sizeclass_log z) sc_id

  -- With no active page block in the class: one is created, and is the only active one.
  unfoldable pub add_page_block : Info → Node → Option Node
  add_page_block info n = do
    made ← create_page_block z me info.page_block_size small n
    let b = made.0
    let configured = set_small made.1 b.0 b.1 (configure_small_blocks info)
    some (set_active configured me info.sc_id (b ∷ active configured me info.sc_id))

  -- The rest of `allocate_small_block`, with the list of active page blocks of the class.
  unfoldable pub take_from : List (Ptr × ℕ) → Info → Node → Option ((Ptr × ℕ) × Node)
  take_from [] info n = none
  take_from (b ∷ rest) info n =
      let r = take_small_block z.counter_bits (page_block b.0 b.1) (n.small_blocks b.0 b.1) info in
      let taken = set_small n b.0 b.1 r.1 in
      some (
        (r.0, info.block_size),
        if available_small_blocks r.1 info == 0 then set_active taken me info.sc_id rest else taken,
      )

  unfoldable pub allocate_small_block : ℕ → Node → Option ((Ptr × ℕ) × Node)
  allocate_small_block size n = do
    let info = info_for size
    ready ← elim (active n me info.sc_id) [ [] ↦ add_page_block info n | _ ∷ _ ↦ some n ]
    take_from (active ready me info.sc_id) info ready

  unfoldable pub destroy_small_block : Ptr → Ptr → ℕ → Node → Node
  destroy_small_block ptr spb pbh n =
      let info = info_of (n.small_blocks spb pbh).sb_sizeclass in
      let s =
        put_small_block z.counter_bits (page_block spb pbh) (n.small_blocks spb pbh) ptr info in
      let put = set_small n spb pbh s in
      let unlinked =
        set_active put me info.sc_id (unlink_page_block (spb, pbh) (active put me info.sc_id)) in
      if available_small_blocks s info == info.nb_blocks
      then destroy_page_block z me spb pbh unlinked
      else if available_small_blocks s info == 1
      then set_active put me info.sc_id ((spb, pbh) ∷ active put me info.sc_id)
      else put

  unfoldable pub thread_local_deallocate : Ptr → Ptr → Node → Option Node
  thread_local_deallocate ptr spb n =
      let s = n.superpage_blocks spb in
      let pbh = page_block_header s spb ptr in
      if in_huge_alloc s spb ptr
      then if all_page_blocks_unused z.header_space_pages s
        then some (destroy_superpage_block z me spb n)
        else destroy_superpage_huge_alloc z me spb n
      else elim (header s.pbh_table pbh).type [
        | small ↦ some (destroy_small_block ptr spb pbh n)
        | medium ↦ some (destroy_page_block z me spb pbh n)
        | huge ↦ none
        | unused ↦ none
        | reserved ↦ none
      ]

  -- The loop over the blocks that other threads freed, each with its superpage block.
  unfoldable pub deallocate_all : List (Ptr × Ptr) → Node → Option Node
  deallocate_all [] n = some n
  deallocate_all (b ∷ rest) n = do
    freed ← thread_local_deallocate b.0 b.1 n
    deallocate_all rest freed

  unfoldable pub process_thread_remote_frees : Node → Option Node
  process_thread_remote_frees n =
      deallocate_all (n.heaps me).remote_freed_blocks (set_remote n me [])
