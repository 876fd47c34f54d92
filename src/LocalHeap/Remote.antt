-- ===== src/LocalHeap/Remote.antt =====
-- Deallocation of src/allocator.h in a thread that does not own the memory.
use mathlib.Core.Path.{fun_ext, ap₂}
use givy.Base.{
  ℕ, ◌+◌, ◌*◌, ◌%◌, ◌^◌, ◌≤◌, ◌<◌, ◌≡◌, ◌≢◌, refl, sym, ap, ◌∙◌, arith, true, none, some, List, [],
  ◌∷◌, ◌>>=◌, ◌==◌, ne→==, ==→eq, Bool-cases, inl, inr,
}
use givy.Pointer.{Ptr, ptr_align}
use givy.Space.{page_size, superpage_sequence_start}
use givy.LocalHeap.{Sizes, Node, set_remote}
use givy.LocalHeap.Grid.{header_of, thread_local_deallocate-down}
use givy.LocalHeap.Small.{
  info_of, thread_local_deallocate, deallocate_all, process_thread_remote_frees,
}
use givy.LocalHeap.Interface.{deallocate, deallocate_for}

same : (k : ℕ) → (k == k) ≡ true
same k = ground arith

set_remote_twice :
    (n : Node) (k : ℕ) (l l' : List (Ptr × Ptr))
    → set_remote (set_remote n k l) k l' ≡ set_remote n k l'
set_remote_twice n k l l' =
    ap (λ f. record n { heaps = f })
      (fun_ext (λ j. elim (Bool-cases (j == k)) [
        | inl e ↦ let q = sym (==→eq j k e) in rw e (rw (same k) refl)
        | inr e ↦ rw e refl
      ]))

process_thread_remote_frees-set_remote :
    (z : Sizes) (me : ℕ) (l : List (Ptr × Ptr)) (n : Node)
    → process_thread_remote_frees z me (set_remote n me l)
      ≡ deallocate_all z me l (set_remote n me [])
unfolding process_thread_remote_frees
process_thread_remote_frees-set_remote z me l n =
    ap₂ (λ k m. deallocate_all z me k m) read (set_remote_twice n me l [])
  where
    read : ((set_remote n me l).heaps me).remote_freed_blocks ≡ l
    read = rw (same me) refl

deallocate_for-queued :
    (z : Sizes) (me owner : ℕ) (ptr spb : Ptr) (n : Node)
    → owner ≢ me
    → (deallocate_for z me (some owner) ptr spb n >>= process_thread_remote_frees z owner) ≡ (
        thread_local_deallocate z owner
          (ptr_align ptr z.unused_block_size)
          spb
          (set_remote n owner [])
        >>= deallocate_all z owner (n.heaps owner).remote_freed_blocks)
unfolding deallocate_for deallocate_all
deallocate_for-queued z me owner ptr spb n ne =
    let other = ne→== owner me ne in
    rw other (
      process_thread_remote_frees-set_remote z owner
        ((ptr_align ptr z.unused_block_size, spb) ∷ (n.heaps owner).remote_freed_blocks) n)

-- The grid of `UnusedBlock` divides the pages, the start of the superpage block, and the blocks of
-- the class of the page block that the address is in; the address is behind the start, and no address
-- leaves 64 bits. Then a deallocation by a heap that is not the owner, followed by the owner processing
-- its queue, is this, though the address is moved down to the grid before it is queued: the owner itself
-- deallocates the address, and then what was queued before.
pub deallocate_for-remote :
    (z : Sizes) (me owner : ℕ) (ptr spb : Ptr) (n : Node)
    → owner ≢ me
    → 0 < z.unused_block_size
    → page_size % z.unused_block_size ≡ 0
    → spb % z.unused_block_size ≡ 0
    → (info_of z owner (n.small_blocks spb (header_of z owner ptr spb n)).sb_sizeclass).block_size
        % z.unused_block_size
      ≡ 0
    → spb ≤ ptr
    → ptr < 2 ^ 64
    → spb + (n.superpage_blocks spb).huge_alloc_pb_index * page_size < 2 ^ 64
    → (deallocate_for z me (some owner) ptr spb n >>= process_thread_remote_frees z owner) ≡ (
        thread_local_deallocate z owner ptr spb (set_remote n owner [])
        >>= deallocate_all z owner (n.heaps owner).remote_freed_blocks)
deallocate_for-remote z me owner ptr spb n ne pos pages start blocks le lt fits =
    deallocate_for-queued z me owner ptr spb n ne
    ∙ ap (λ r. r >>= deallocate_all z owner (n.heaps owner).remote_freed_blocks)
        (thread_local_deallocate-down z owner ptr spb (set_remote n owner []) pos pages start blocks
          le lt fits)

-- The heap that deallocates an address of a block without an owner ends the program when another
-- heap adopts the block between its load of the owner and its own attempt.
pub deallocate-lost_adoption :
    (z : Sizes) (me other : ℕ) (others : Node → Node) (ptr spb : Ptr) (n n' : Node)
    → process_thread_remote_frees z me n ≡ some n'
    → superpage_sequence_start n'.space ptr ≡ some spb
    → (n'.superpage_blocks spb).owner ≡ none
    → ((others n').superpage_blocks spb).owner ≡ some other
    → deallocate z me others ptr n ≡ none
unfolding deallocate deallocate_for
deallocate-lost_adoption z me other others ptr spb n n' processed start orphan taken =
    rw (processed, start, orphan, taken) refl
