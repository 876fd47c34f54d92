-- ===== src/LocalHeap/Tests/Orphans.antt =====
-- Superpage blocks without an owner in src/allocator.h: a lost adoption, and the deallocation of a
-- huge allocation by a heap that adopts its block.
use givy.Base.{◌^◌, ℕ, ◌+◌, ◌*◌, ◌≡◌, refl, true, Option, none, some, [], ◌∷◌}
use givy.SuperpageBlock.{SuperpageBlock, make_superpage_block, in_huge_alloc}
use givy.SuperpageBlock.WellFormed.{IsLaidOut}
use givy.Tracker.{get_sequence_start_num, sequence_start_loop, index}
use givy.BitMask.{find_previous_zero, count_msb_ones, count_msb_zeros, msb_zeros_loop}
use givy.Space.{superpage_sequence_start, superpage_num, superpage}
use givy.Space.Example.{two_nodes}
use givy.LocalHeap.{Node, set_remote}
use givy.LocalHeap.Small.{process_thread_remote_frees, deallocate_all}
use givy.LocalHeap.Interface.{deallocate}
use givy.LocalHeap.Freed.{deallocate-IsKept}
use givy.LocalHeap.Kept.{IsKept}
use givy.LocalHeap.Remote.{deallocate-lost_adoption}
use givy.LocalHeap.Tests.{sizes, raw, node, huge-IsLaidOut, two_superpages}

-- The first superpage of the local node is in use, and its block has no owner or the owner 3.
abbrev block_of : Option ℕ → SuperpageBlock
block_of o = record (make_superpage_block 10 1 0 7 raw) { owner = o }

abbrev orphan_node : Option ℕ → Node
orphan_node o = record node {
  space = record two_nodes {
    superpage_tracker = record {
      table_size = 2;
      mapping_table = 0 ∷ 1 ∷ [];
      sequence_table = 0 ∷ 0 ∷ [];
    };
  };
  superpage_blocks = λ p. block_of o;
}

nothing_pending :
    process_thread_remote_frees sizes 7 (orphan_node none)
    ≡ some (set_remote (orphan_node none) 7 [])
unfolding process_thread_remote_frees deallocate_all
nothing_pending = refl

starts :
    superpage_sequence_start (orphan_node none).space (2 ^ 30 + 2 ^ 21 * 64 + 50000)
    ≡ some (2 ^ 30 + 2 ^ 21 * 64)
unfolding superpage_sequence_start superpage_num superpage get_sequence_start_num
    sequence_start_loop find_previous_zero count_msb_ones count_msb_zeros msb_zeros_loop index
starts = refl

lost_adoption_test :
    deallocate sizes 7 (λ n. orphan_node (some 3)) (2 ^ 30 + 2 ^ 21 * 64 + 50000) (orphan_node none)
    ≡ none
lost_adoption_test =
    deallocate-lost_adoption sizes 7 3 (λ n. orphan_node (some 3)) (2 ^ 30 + 2 ^ 21 * 64 + 50000)
      (2 ^ 30 + 2 ^ 21 * 64) (orphan_node none) (set_remote (orphan_node none) 7 []) nothing_pending
      starts refl refl

-- A block without an owner at the first superpage of the local node, with a huge allocation of 600
-- pages, and an address in it.
abbrev orphan_huge : SuperpageBlock
orphan_huge = record (make_superpage_block 10 2 600 7 raw) { owner = none }

abbrev orphan_huge_node : Node
orphan_huge_node = record node {
  space = record two_nodes {
    superpage_tracker = record {
      table_size = 2;
      mapping_table = 0 ∷ 3 ∷ [];
      sequence_table = 0 ∷ 2 ∷ [];
    };
  };
  superpage_blocks = λ p. orphan_huge;
}

no_frees_there :
    process_thread_remote_frees sizes 7 orphan_huge_node ≡ some (set_remote orphan_huge_node 7 [])
unfolding process_thread_remote_frees deallocate_all
no_frees_there = refl

starts_there :
    superpage_sequence_start orphan_huge_node.space (2 ^ 30 + 2 ^ 21 * 64 + 2000000)
    ≡ some (2 ^ 30 + 2 ^ 21 * 64)
unfolding superpage_sequence_start superpage_num superpage get_sequence_start_num
    sequence_start_loop find_previous_zero count_msb_ones count_msb_zeros msb_zeros_loop index
starts_there = refl

in_huge_there :
    in_huge_alloc orphan_huge (2 ^ 30 + 2 ^ 21 * 64) (2 ^ 30 + 2 ^ 21 * 64 + 2000000) ≡ true
unfolding make_superpage_block
in_huge_there = refl

orphan_huge-IsLaidOut : IsLaidOut 10 orphan_huge
orphan_huge-IsLaidOut =
    let l = huge-IsLaidOut in
    record { good = l.good; room = l.room; headers = l.headers; huge_pages = l.huge_pages }

deallocate-IsKept_example :
    IsKept sizes 7 (deallocate sizes 7 (λ n. n) (2 ^ 30 + 2 ^ 21 * 64 + 2000000) orphan_huge_node)
deallocate-IsKept_example =
    deallocate-IsKept sizes 7 (λ n. n) (2 ^ 30 + 2 ^ 21 * 64 + 2000000) (2 ^ 30 + 2 ^ 21 * 64)
      orphan_huge_node (set_remote orphan_huge_node 7 []) no_frees_there starts_there
      (record { tables = λ p. huge-IsLaidOut.good.whole; good = λ j p h. huge-IsLaidOut.good }) refl
      (
        huge-IsLaidOut.good,
        λ e. (orphan_huge-IsLaidOut, two_superpages),
        λ e. cc (e, in_huge_there),
      )
