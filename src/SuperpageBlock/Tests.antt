-- ===== src/SuperpageBlock/Tests.antt =====
-- A superpage block with 10 header pages, and the uses of the theorems of src/allocator.h there.
use givy.Base.{
  ◌↔◌, ap, ◌∙◌, false, ℕ, ◌≤◌, ◌<◌, ◌≡◌, refl, arith, true, length, replicate, length-replicate,
  if◌then◌else◌,
}
use givy.QuickList.Laws.{held, IsValid}
use givy.SuperpageBlock.{
  Table, is_unused, small, medium, huge, unused, reserved, header, no_header, nb_page_of, format,
  format_pbh, slot_nb, SuperpageBlock, make_superpage_block, all_page_blocks_unused,
  completely_unused, available_pb_index, allocate_page_block, free_page_block, destroy_huge_alloc,
}
use givy.SuperpageBlock.Headers.{among, header-format_pbh, length-format_pbh}
use givy.SuperpageBlock.Create.{make_superpage_block_lem}
use givy.SuperpageBlock.Partition.{is_unused_at}
use givy.SuperpageBlock.WellFormed.{IsLaidOut}
use givy.SuperpageBlock.WellFormed.Given.{Given}
use givy.SuperpageBlock.WellFormed.Allocate.{allocate_page_block-Given}
use givy.SuperpageBlock.WellFormed.Free.{IsFreed, free_page_block-IsFreed}
use givy.SuperpageBlock.WellFormed.Create.{make_superpage_block-IsLaidOut}
use givy.SuperpageBlock.WellFormed.Run.{Run, start, allocated, IsKept, Run-IsKept}
use givy.SuperpageBlock.WellFormed.InUse.{all_page_blocks_unused_iff, destroy_huge_alloc-early}

abbrev raw : Table
raw = replicate 512 no_header

length-raw : length raw ≡ 512
length-raw = length-replicate 512 no_header

abbrev fresh : SuperpageBlock
fresh = make_superpage_block 10 1 0 7 raw

-- A huge allocation of 600 pages, 88 of them in the first superpage.
abbrev with_huge : SuperpageBlock
with_huge = make_superpage_block 10 2 600 7 raw

fresh_lem :
    ((n : ℕ)
      → header fresh.pbh_table n ≡ (
          if among 512 512 n
          then format huge 0 512
          else if among 10 512 n
          then format unused 502 10
          else if among 0 10 n
          then format reserved 10 0
          else header raw n))
    × IsValid slot_nb (nb_page_of fresh.pbh_table) fresh.unused_list
    × ((f : ℕ → ℕ) → held f fresh.unused_list ≡ f 10)
    × (all_page_blocks_unused 10 fresh ≡ true)
fresh_lem = make_superpage_block_lem 10 1 0 7 raw length-raw (omega arith)

abbrev four_headers : Table
four_headers = replicate 4 no_header

header-format_pbh_example : header (format_pbh four_headers 1 3 unused) 2 ≡ format unused 2 1
header-format_pbh_example = header-format_pbh four_headers 1 3 unused 2 (omega arith) (omega arith)

fresh_size : nb_page_of fresh.pbh_table 10 ≡ 502
fresh_size = ap (λ h. h.nb_page) (fresh_lem.0 10)

length-fresh : length fresh.pbh_table ≡ 512
unfolding make_superpage_block
length-fresh =
    length-format_pbh (format_pbh (format_pbh raw 0 10 reserved) 10 512 unused) 512 512 huge
    ∙ length-format_pbh (format_pbh raw 0 10 reserved) 10 512 unused
    ∙ length-format_pbh raw 0 10 reserved
    ∙ length-raw

fresh-IsLaidOut : IsLaidOut 10 fresh
fresh-IsLaidOut = make_superpage_block-IsLaidOut 10 1 0 7 raw length-raw (omega arith)

make_superpage_block-IsLaidOut_example : IsLaidOut 10 with_huge
make_superpage_block-IsLaidOut_example =
    make_superpage_block-IsLaidOut 10 2 600 7 raw length-raw (omega arith)

allocate_page_block-Given_example : Given fresh 3 medium (allocate_page_block fresh 3 medium)
allocate_page_block-Given_example =
    allocate_page_block-Given fresh 3 medium fresh-IsLaidOut.good (omega arith) refl

huge_header : header with_huge.pbh_table 424 ≡ format huge 88 424
huge_header =
    let facts = make_superpage_block_lem 10 2 600 7 raw length-raw (omega arith) in facts.0 424

free_page_block-IsFreed_example : IsFreed with_huge 424 (free_page_block with_huge 424)
free_page_block-IsFreed_example =
    free_page_block-IsFreed with_huge 424
      (make_superpage_block-IsLaidOut 10 2 600 7 raw length-raw (omega arith)).good
      (ap (λ h. h.head) huge_header) (omega arith) (ap (λ h. is_unused h.type) huge_header)

-- Two page blocks are allocated.
two_blocks : Run fresh (allocate_page_block (allocate_page_block fresh 3 medium).1 5 small).1
two_blocks = allocated 5 small (allocated 3 medium start (omega arith) refl) (omega arith) refl

Run-IsKept_example :
    IsKept fresh (allocate_page_block (allocate_page_block fresh 3 medium).1 5 small).1
Run-IsKept_example = Run-IsKept fresh fresh-IsLaidOut.good two_blocks

all_page_blocks_unused_iff_example :
    (all_page_blocks_unused 10
        (allocate_page_block (allocate_page_block fresh 3 medium).1 5 small).1
      ≡ true)
    ↔ ((n : ℕ)
        → 10 ≤ n
        → n
          < available_pb_index
              (allocate_page_block (allocate_page_block fresh 3 medium).1 5 small).1
        → is_unused_at
            (allocate_page_block (allocate_page_block fresh 3 medium).1 5 small).1.pbh_table
            n
          ≡ true)
all_page_blocks_unused_iff_example = all_page_blocks_unused_iff 10 fresh fresh-IsLaidOut two_blocks

huge_inside : with_huge.huge_alloc_pb_index < 512
unfolding make_superpage_block
huge_inside = omega arith

destroy_huge_alloc-early_example :
    (completely_unused 10 (allocate_page_block (destroy_huge_alloc with_huge) 88 medium).1 ≡ true
      → (n : ℕ) × (10 ≤ n)
        × (n < 512)
        × (is_unused_at (allocate_page_block (destroy_huge_alloc with_huge) 88 medium).1.pbh_table n
            ≡ false))
    × (((n : ℕ)
          → 10 ≤ n
          → n < 512
          → is_unused_at
              (allocate_page_block (destroy_huge_alloc with_huge) 88 medium).1.pbh_table
              n
            ≡ true)
        → completely_unused 10 (allocate_page_block (destroy_huge_alloc with_huge) 88 medium).1
          ≡ false)
destroy_huge_alloc-early_example =
    destroy_huge_alloc-early 10 with_huge
      (make_superpage_block-IsLaidOut 10 2 600 7 raw length-raw (omega arith)) huge_inside
      (allocated 88 medium start (omega arith) refl)
