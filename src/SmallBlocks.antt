-- ===== src/SmallBlocks.antt =====
-- The small blocks of a page block in src/allocator.h: the fields of `PageBlockHeader` for them and
-- the four operations on them. A block in the free list is the number of its address.
-- `counter_bits` is the number of digits of BoundUint<SizeClass::max_nb_blocks>, and `page_block`
-- the address of the page block.
pub mod Laws
pub mod Live
mod Tests
use givy.Base.{ℕ, ◌+◌, ◌-◌, ◌*◌, ◌%◌, ◌^◌, List, [], ◌∷◌}
use givy.Pointer.{Ptr, add, ptr_align}
use givy.SizeClass.{Info}

pub record SmallBlocks : Type 0 where
  pub sb_sizeclass : ℕ
  pub sb_nb_carved : ℕ
  pub sb_nb_unused : ℕ
  pub sb_unused : List Ptr

abbrev pub available_small_blocks : SmallBlocks → Info → ℕ
available_small_blocks s info = s.sb_nb_unused + (info.nb_blocks - s.sb_nb_carved)

abbrev pub configure_small_blocks : Info → SmallBlocks
configure_small_blocks info = record {
  sb_sizeclass = info.sc_id;
  sb_nb_carved = 0;
  sb_nb_unused = 0;
  sb_unused = [];
}

module _ (counter_bits : ℕ) (page_block : Ptr) where
  unfoldable pub take_small_block : SmallBlocks → Info → Ptr × SmallBlocks
  take_small_block s info = elim s.sb_unused [
    | p ∷ rest ↦ (
      p,
      record s {
        sb_nb_unused = (s.sb_nb_unused + 2 ^ counter_bits - 1) % 2 ^ counter_bits;
        sb_unused = rest;
      },
    )
    | [] ↦ (
      add page_block (info.block_size * s.sb_nb_carved),
      record s { sb_nb_carved = (s.sb_nb_carved + 1) % 2 ^ counter_bits },
    )
  ]

  unfoldable pub put_small_block : SmallBlocks → Ptr → Info → SmallBlocks
  put_small_block s p info = record s {
    sb_nb_unused = (s.sb_nb_unused + 1) % 2 ^ counter_bits;
    sb_unused = ptr_align p info.block_size ∷ s.sb_unused;
  }
