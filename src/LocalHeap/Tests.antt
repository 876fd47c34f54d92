-- ===== src/LocalHeap/Tests.antt =====
-- A node with one heap and 10 header pages in each superpage block, and the uses of the theorems on
-- `ThreadLocalHeap` of src/allocator.h there.
mod Orphans
use givy.Base.{
  ◌^◌, ◌++◌, ℕ, ◌+◌, ◌*◌, ◌%◌, ◌<◌, ◌≡◌, refl, arith, true, Option, none, some, [], ◌∷◌, ◌>>=◌,
  replicate, length-replicate,
}
use givy.Pointer.{ptr_align}
use givy.SuperpageBlock.{
  no_header, Table, SuperpageBlock, reserved, small, unused, make_superpage_block, in_huge_alloc,
}
use givy.Math.{log_2_sup, log_2_inf, round_up_as_power_of_2}
use givy.SuperpageBlock.WellFormed.{IsLaidOut}
use givy.SuperpageBlock.WellFormed.Create.{make_superpage_block-IsLaidOut}
use givy.SmallBlocks.{SmallBlocks}
use givy.Tracker.{get_sequence_start_num, sequence_start_loop, index}
use givy.BitMask.{find_previous_zero, count_msb_ones, count_msb_zeros, msb_zeros_loop}
use givy.SizeClass.{make_info}
use givy.Space.{page_size, superpage_sequence_start, superpage_num, superpage}
use givy.Space.Example.{two_nodes, two_nodes-IsReady}
use givy.LocalHeap.{new_heap, Node, Sizes, set_remote}
use givy.LocalHeap.Huge.{IsSized, Created, create_superpage_block-Created, superpage_nb_for_lem}
use givy.LocalHeap.Pages.{
  superpage_nb_for, create_superpage_block, create_page_block, huge_alloc_page_nb,
}
use givy.LocalHeap.Small.{
  process_thread_remote_frees, deallocate_all, thread_local_deallocate, info_for, info_of,
}
use givy.LocalHeap.Interface.{destroy_heap, deallocate, deallocate_for, medium_high}
use givy.LocalHeap.Given.{PageBlockGiven, create_page_block-PageBlockGiven}
use givy.LocalHeap.Invariant.{IsNode, IsNode-IsHeap}
use givy.LocalHeap.Freed.{deallocate-IsKept}
use givy.LocalHeap.Kept.{IsKept, thread_local_deallocate-IsKept}
use givy.LocalHeap.Classes.{Outcome}
use givy.LocalHeap.Disown.{destroy_heap-owner}
use givy.LocalHeap.Remote.{deallocate_for-remote, deallocate-lost_adoption}
use givy.LocalHeap.Threshold.{medium_high_sizes, medium_high-deallocate}

abbrev pub sizes : Sizes
sizes = record { header_space_pages = 10; unused_block_size = 16; counter_bits = 16 }

sizes-IsSized : IsSized sizes
sizes-IsSized = record { header_some = omega arith; header_fits = omega arith }

abbrev pub raw : Table
raw = replicate 512 no_header

abbrev no_small : SmallBlocks
no_small = record { sb_sizeclass = 0; sb_nb_carved = 0; sb_nb_unused = 0; sb_unused = [] }

abbrev pub node : Node
node = record {
  space = two_nodes;
  superpage_blocks = λ p. make_superpage_block 10 1 0 7 raw;
  small_blocks = λ p i. no_small;
  heaps = λ k. new_heap;
}

raw-IsLaidOut : IsLaidOut 10 (make_superpage_block 10 1 0 7 raw)
raw-IsLaidOut =
    make_superpage_block-IsLaidOut 10 1 0 7 raw (length-replicate 512 no_header) (omega arith)

node-IsNode : IsNode node
node-IsNode = record { tables = λ p. raw-IsLaidOut.good.whole; good = λ j p h. raw-IsLaidOut.good }

create_page_block-PageBlockGiven_example :
    PageBlockGiven sizes 7 3 small node (create_page_block sizes 7 3 small node)
create_page_block-PageBlockGiven_example =
    create_page_block-PageBlockGiven sizes 7 3 small node sizes-IsSized
      (IsNode-IsHeap 7 node node-IsNode) (omega arith) refl

-- A superpage block with a huge allocation of 600 pages.
pub huge-IsLaidOut : IsLaidOut 10 (make_superpage_block 10 2 600 7 raw)
huge-IsLaidOut =
    make_superpage_block-IsLaidOut 10 2 600 7 raw (length-replicate 512 no_header) (omega arith)

pub two_superpages : 1 < (make_superpage_block 10 2 600 7 raw).superpage_nb
unfolding make_superpage_block
two_superpages = omega arith

several : 1 < superpage_nb_for sizes 7 3000000
several = omega (arith, superpage_nb_for_lem sizes 7 3000000 sizes-IsSized (omega arith))

create_superpage_block-Created_example :
    Created sizes 7 3000000 two_nodes (create_superpage_block sizes 7 3000000 node)
create_superpage_block-Created_example =
    create_superpage_block-Created sizes 7 3000000 2 node sizes-IsSized two_nodes-IsReady
      (omega arith) several

on_grid : (info_of sizes 7 0).block_size % 16 ≡ 0
unfolding make_info log_2_sup round_up_as_power_of_2 log_2_inf count_msb_zeros
on_grid = refl

block_fits : 2 ^ 30 + (make_superpage_block 10 1 0 7 raw).huge_alloc_pb_index * page_size < 2 ^ 64
unfolding make_superpage_block
block_fits = omega arith

deallocate_for-remote_example :
    (deallocate_for sizes 3 (some 7) (2 ^ 30 + 50005) (2 ^ 30) node
      >>= process_thread_remote_frees sizes 7)
    ≡ (thread_local_deallocate sizes 7 (2 ^ 30 + 50005) (2 ^ 30) (set_remote node 7 [])
        >>= deallocate_all sizes 7 [])
deallocate_for-remote_example =
    deallocate_for-remote sizes 3 7 (2 ^ 30 + 50005) (2 ^ 30) node (omega arith) (omega arith) refl
      refl on_grid (omega arith) (omega arith) block_fits

abbrev threshold_node : Node
threshold_node = record node {
  superpage_blocks = λ p.
      make_superpage_block 10 (superpage_nb_for sizes 7 (medium_high sizes 7))
        (huge_alloc_page_nb sizes 7 (medium_high sizes 7)) 7 raw;
}

inside : in_huge_alloc (threshold_node.superpage_blocks 0) 0 50000 ≡ true
unfolding make_superpage_block
inside = let h = medium_high_sizes sizes 7 sizes-IsSized in ground arith

medium_high-deallocate_example : thread_local_deallocate sizes 7 50000 0 threshold_node ≡ none
medium_high-deallocate_example =
    medium_high-deallocate sizes 7 raw 0 50000 threshold_node sizes-IsSized
      (length-replicate 512 no_header) refl inside

-- A block with one small page block, at 10, that is full.
abbrev full_table : Table
full_table =
    record { type = reserved; nb_page = 10; head = 0 }
    ∷ (replicate 9 no_header
        ++ record { type = small; nb_page = 1; head = 10 }
          ∷ record { type = unused; nb_page = 501; head = 11 }
          ∷ [])

abbrev full_node : Node
full_node = record node {
  superpage_blocks =
      λ p. record (make_superpage_block 10 1 0 7 raw) { owner = none; pbh_table = full_table };
  small_blocks = λ p i. record {
    sb_sizeclass = (info_for sizes 7 100).sc_id;
    sb_nb_carved = (info_for sizes 7 100).nb_blocks;
    sb_nb_unused = 0;
    sb_unused = [];
  };
}

-- Heap 7 owns one block.
abbrev owning_node : Node
owning_node = record node { heaps = λ k. record new_heap { owned_superpage_blocks = 4096 ∷ [] } }

destroy_heap-owner_example :
    (((destroy_heap sizes 7 owning_node).superpage_blocks 4096).owner ≡ none)
    × (((destroy_heap sizes 7 owning_node).heaps 7).owned_superpage_blocks ≡ [])
destroy_heap-owner_example = destroy_heap-owner sizes 7 4096 owning_node refl
