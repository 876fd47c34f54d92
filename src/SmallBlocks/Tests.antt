-- ===== src/SmallBlocks/Tests.antt =====
-- A page block of 16 blocks of 256 bytes, and the uses of the theorems on small blocks there.
use givy.Base.{◌+◌, ◌≡◌, refl, arith, [], ◌∷◌}
use givy.Pointer.{Ptr}
use givy.Math.{align}
use givy.SizeClass.{Info}
use givy.SmallBlocks.{
  SmallBlocks, available_small_blocks, configure_small_blocks, take_small_block, put_small_block,
}
use givy.SmallBlocks.Laws.{without}
use givy.SmallBlocks.Live.{
  IsPlaced, IsValid, Taken, configure-IsValid, take_small_block-Taken, put_small_block-IsValid,
}

abbrev page : Ptr
page = 8192

abbrev info : Info
info = record { block_size = 256; page_block_size = 1; nb_blocks = 16; sc_id = 4 }

page-IsPlaced : IsPlaced 16 page info
page-IsPlaced = record {
  positive = omega arith;
  aligned = refl;
  fits = omega arith;
  counted = omega arith;
}

abbrev first : Ptr × SmallBlocks
first = take_small_block 16 page (configure_small_blocks info) info

take_small_block-Taken_example : Taken page info [] first
take_small_block-Taken_example =
    take_small_block-Taken 16 page info page-IsPlaced (configure_small_blocks info) []
      (configure-IsValid 16 page info page-IsPlaced) (omega arith)

-- A second block lies behind the first, and a pointer into the first frees it for the next.
reuse :
    take_small_block 16 page
      (put_small_block 16 page (take_small_block 16 page first.1 info).1 8200 info)
      info
    ≡ (8192, (take_small_block 16 page first.1 info).1)
unfolding take_small_block put_small_block align
reuse = refl

first_valid : IsValid page info first.1 (8192 ∷ [])
unfolding take_small_block
first_valid =
    (take_small_block-Taken 16 page info page-IsPlaced (configure_small_blocks info) []
      (configure-IsValid 16 page info page-IsPlaced) (omega arith)).valid

put_small_block-IsValid_example :
    IsValid page info (put_small_block 16 page first.1 8200 info) (without 8192 (8192 ∷ []))
    × (available_small_blocks (put_small_block 16 page first.1 8200 info) info
        ≡ available_small_blocks first.1 info + 1)
put_small_block-IsValid_example =
    put_small_block-IsValid 16 page info page-IsPlaced first.1 (8192 ∷ []) 8192 8200 first_valid
      (omega arith) (omega arith) (omega arith)
