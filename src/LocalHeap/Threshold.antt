-- ===== src/LocalHeap/Threshold.antt =====
-- A request of exactly `Thresholds::medium_high` bytes in src/allocator.h.
use givy.Base.{ℕ, ◌-◌, ◌≡◌, refl, ap, ◌∙◌, arith, true, false, none, length, ne→==}
use givy.Pointer.{Ptr}
use givy.Space.{superpage_page_nb}
use givy.SuperpageBlock.{
  Table, SuperpageBlock, make_superpage_block, in_huge_alloc, all_page_blocks_unused, nb_page_of,
}
use givy.SuperpageBlock.Create.{make_superpage_block_huge_unused, made_list}
use givy.LocalHeap.{Sizes, Node}
use givy.LocalHeap.Huge.{IsSized, superpage_nb_for_lem}
use givy.LocalHeap.Pages.{huge_alloc_page_nb, superpage_nb_for, destroy_superpage_huge_alloc}
use givy.LocalHeap.Small.{thread_local_deallocate}
use givy.LocalHeap.Interface.{medium_high}

-- It gets all pages of one superpage behind the headers.
pub medium_high_sizes :
    (z : Sizes) (me : ℕ)
    → IsSized z
    → (superpage_nb_for z me (medium_high z me) ≡ 1)
      × (huge_alloc_page_nb z me (medium_high z me) ≡ superpage_page_nb - z.header_space_pages)
medium_high_sizes z me h =
    let a = superpage_nb_for_lem z me (medium_high z me) h (omega arith) in
    (omega (arith, a, h.header_fits), omega (arith, a, h.header_fits))

abbrev made : Sizes → ℕ → Table → SuperpageBlock
made z me raw =
    make_superpage_block z.header_space_pages 1 (superpage_page_nb - z.header_space_pages) me raw

index_of :
    (z : Sizes) (me : ℕ) (raw : Table)
    → IsSized z
    → (made z me raw).huge_alloc_pb_index ≡ z.header_space_pages
unfolding make_superpage_block
index_of z me raw h = omega (arith, h.header_fits)

not_unused :
    (z : Sizes) (me : ℕ) (raw : Table)
    → IsSized z
    → length raw ≡ superpage_page_nb
    → all_page_blocks_unused z.header_space_pages (
        make_superpage_block z.header_space_pages 1
          (superpage_page_nb - z.header_space_pages)
          me
          raw)
      ≡ false
not_unused z me raw h whole =
    let free : 512 - (512 - z.header_space_pages) ≡ z.header_space_pages =
      omega (arith, h.header_fits) in
    let block =
      make_superpage_block_huge_unused z.header_space_pages 1 (512 - z.header_space_pages) me raw
        whole (omega (arith, h.header_fits)) h.header_fits in
    let size = ap (λ b. b.nb_page) block.0 in
    let list =
      made_list z.header_space_pages 1 (512 - z.header_space_pages) me raw whole
        (omega (arith, size, h.header_fits)) in
    let total = list.1 (nb_page_of (made z me raw).pbh_table) in
    let stored = list.0.stored in
    let index : (made z me raw).huge_alloc_pb_index ≡ z.header_space_pages = index_of z me raw h in
    ne→== _ _ (λ e. omega (arith, e, stored, total, size, index, h.header_fits))

nb_one :
    (z : Sizes) (me : ℕ) (raw : Table)
    → (make_superpage_block z.header_space_pages 1
        (superpage_page_nb - z.header_space_pages)
        me
        raw).superpage_nb
      ≡ 1
unfolding make_superpage_block
nb_one z me raw = refl

-- The superpage block made for it counts its own huge allocation among the unused pages, so
-- deallocating any address of that memory ends the program.
pub medium_high-deallocate :
    (z : Sizes) (me : ℕ) (raw : Table) (spb ptr : Ptr) (n : Node)
    → IsSized z
    → length raw ≡ superpage_page_nb
    → n.superpage_blocks spb
      ≡ make_superpage_block z.header_space_pages
          (superpage_nb_for z me (medium_high z me))
          (huge_alloc_page_nb z me (medium_high z me))
          me
          raw
    → in_huge_alloc (n.superpage_blocks spb) spb ptr ≡ true
    → thread_local_deallocate z me ptr spb n ≡ none
unfolding thread_local_deallocate destroy_superpage_huge_alloc
medium_high-deallocate z me raw spb ptr n h whole is inside =
    let sizes = medium_high_sizes z me h in
    let is_made : n.superpage_blocks spb
        ≡ make_superpage_block z.header_space_pages 1 (superpage_page_nb - z.header_space_pages) me
            raw =
      is ∙ rw (sizes.0, sizes.1) refl in
    let one : (n.superpage_blocks spb).superpage_nb ≡ 1 =
      ap (λ s. s.superpage_nb) is_made ∙ nb_one z me raw in
    let busy : all_page_blocks_unused z.header_space_pages (n.superpage_blocks spb) ≡ false =
      ap (λ s. all_page_blocks_unused z.header_space_pages s) is_made
      ∙ not_unused z me raw h whole in
    rw (inside, busy, one) refl
