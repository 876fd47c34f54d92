-- ===== src/LocalHeap.antt =====
-- `ThreadLocalHeap` of src/allocator.h, with the memory that its functions read and write. A heap is
-- a number, a superpage block the address of its header, a page block the index of its header there,
-- and a linked list the sequence of its elements.
-- A function ends with `none` where the program does: an assertion that every build checks, memory
-- exhausted, a null dereference. The system calls that a space makes are left out.
pub mod Pages
pub mod Small
pub mod Interface
pub mod Huge
pub mod Serving
pub mod Served
pub mod Covers
pub mod Search
pub mod Given
pub mod Invariant
pub mod Kept
pub mod Freed
mod Grid
pub mod Classes
pub mod Outcome
pub mod Remote
pub mod Adopted
pub mod Threshold
pub mod Disown
mod Tests
use givy.Base.{
  ℕ, zero, suc, ◌+◌, ◌*◌, Bool, Option, none, some, List, [], ◌∷◌, ◌++◌, ◌&&◌, ◌==◌, if◌then◌else◌,
}
use givy.Math.{log_2_sup, round_up_as_power_of_2}
use givy.Pointer.{Ptr, add}
use givy.Space.{Space, page_size}
use givy.SuperpageBlock.{SuperpageBlock}
use givy.SmallBlocks.{SmallBlocks}

pub record ThreadLocalHeap : Type 0 where
  pub owned_superpage_blocks : List Ptr
  pub remote_freed_blocks : List (Ptr × Ptr)
  pub active_small_page_blocks : ℕ → List (Ptr × ℕ)

abbrev pub new_heap : ThreadLocalHeap
new_heap = record {
  owned_superpage_blocks = [];
  remote_freed_blocks = [];
  active_small_page_blocks = λ i. [];
}

-- What the heaps of a node share: `small_blocks` are the fields for small blocks of a header.
pub record Node : Type 0 where
  pub space : Space
  pub superpage_blocks : Ptr → SuperpageBlock
  pub small_blocks : Ptr → ℕ → SmallBlocks
  pub heaps : ℕ → ThreadLocalHeap

-- What comes from `sizeof`, and the digits of the counters of small blocks.
pub record Sizes : Type 0 where
  pub header_space_pages : ℕ
  pub unused_block_size : ℕ
  pub counter_bits : ℕ

abbrev pub smallest : Sizes → ℕ
smallest z = round_up_as_power_of_2 z.unused_block_size

abbrev pub min_sizeclass_log : Sizes → ℕ
min_sizeclass_log z = log_2_sup (smallest z)

abbrev pub set_block : Node → Ptr → SuperpageBlock → Node
set_block n p s = record n { superpage_blocks = λ q. if q == p then s else n.superpage_blocks q }

abbrev pub set_small : Node → Ptr → ℕ → SmallBlocks → Node
set_small n p i s = record n {
  small_blocks = λ q j. if (q == p) && (j == i) then s else n.small_blocks q j;
}

abbrev pub set_heap : Node → ℕ → ThreadLocalHeap → Node
set_heap n me h = record n { heaps = λ k. if k == me then h else n.heaps k }

abbrev pub set_owned : Node → ℕ → List Ptr → Node
set_owned n me l = set_heap n me (record (n.heaps me) { owned_superpage_blocks = l })

abbrev pub set_remote : Node → ℕ → List (Ptr × Ptr) → Node
set_remote n me l = set_heap n me (record (n.heaps me) { remote_freed_blocks = l })

-- The heap's list of active page blocks of the size class `sc`.
abbrev pub active : Node → ℕ → ℕ → List (Ptr × ℕ)
active n me sc = (n.heaps me).active_small_page_blocks sc

abbrev pub set_active : Node → ℕ → ℕ → List (Ptr × ℕ) → Node
set_active n me sc l =
    set_heap n me
      (record (n.heaps me) { active_small_page_blocks = λ k. if k == sc then l else active n me k })

abbrev pub same_page_block : Ptr × ℕ → Ptr × ℕ → Bool
same_page_block a b = (a.0 == b.0) && (a.1 == b.1)

-- Unlinking an element that is in no list does nothing.
abbrev pub unlink_ptr : Ptr → List Ptr → List Ptr
unlink_ptr p [] = []
unlink_ptr p (x ∷ xs) = if p == x then xs else x ∷ unlink_ptr p xs

abbrev pub unlink_page_block : Ptr × ℕ → List (Ptr × ℕ) → List (Ptr × ℕ)
unlink_page_block b [] = []
unlink_page_block b (x ∷ xs) = if same_page_block b x then xs else x ∷ unlink_page_block b xs

-- `PageBlockHeader::page_block`.
abbrev pub page_block : Ptr → ℕ → Ptr
page_block spb pbh = add spb (pbh * page_size)
