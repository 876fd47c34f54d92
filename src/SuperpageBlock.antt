-- ===== src/SuperpageBlock.antt =====
-- `SuperpageBlock` of src/allocator.h: the table of page block headers at the start of a superpage,
-- with the quick list of its unused page blocks. A `PageBlockHeader *` is an index into the table;
-- a heap (an owner) is a number, with `none` for nullptr. A read behind the table gives the header
-- of `no_header`.
-- `header_space_pages` comes from `sizeof`, and is a parameter.
pub mod Headers
pub mod PageBlocks
pub mod Create
pub mod Free
pub mod Partition
pub mod WellFormed
mod Tests
use givy.Base.{
  ℕ, zero, suc, ◌+◌, ◌-◌, ◌*◌, ◌/◌, ◌%◌, ◌^◌, min, Bool, true, false, ◌&&◌, List, Option, none,
  some, get_or, set, replicate, ltb, leb, ◌==◌, if◌then◌else◌,
}
use givy.Pointer.{Ptr, add, sub}
use givy.Space.{page_size, superpage_page_nb}
use givy.QuickList.{QuickList, empty_quick_list, insert, take, remove}

pub data MemoryType : Type 0 where
  small : MemoryType
  medium : MemoryType
  huge : MemoryType
  unused : MemoryType
  reserved : MemoryType

abbrev pub is_unused : MemoryType → Bool
is_unused unused = true
is_unused _ = false

-- The fields for small blocks are those of the module SmallBlocks.
pub record PageBlockHeader : Type 0 where
  pub type : MemoryType
  pub nb_page : ℕ
  pub head : ℕ

abbrev pub Table : Type 0
Table = List PageBlockHeader

abbrev pub no_header : PageBlockHeader
no_header = record { type = reserved; nb_page = 0; head = 0 }

abbrev pub header : Table → ℕ → PageBlockHeader
header t i = get_or t i no_header

abbrev pub nb_page_of : Table → ℕ → ℕ
nb_page_of t i = (header t i).nb_page

-- `PageBlockHeader::format`.
abbrev pub format : MemoryType → ℕ → ℕ → PageBlockHeader
format ty pb_size head = record { type = ty; nb_page = pb_size; head = head }

-- The loop of `format_pbh` at `i`, with `left` headers to go.
unfoldable pub format_loop : PageBlockHeader → ℕ → ℕ → Table → Table
format_loop h zero i t = t
format_loop h (suc left) i t = format_loop h left (i + 1) (set t i h)

unfoldable pub format_pbh : Table → ℕ → ℕ → MemoryType → Table
format_pbh t from to ty = format_loop (format ty (to - from) from) (to - from) from t

pub record SuperpageBlock : Type 0 where
  pub owner : Option ℕ
  pub superpage_nb : ℕ
  pub huge_alloc_pb_index : ℕ
  pub unused_list : QuickList
  pub pbh_table : Table

-- `exact_size_slot_nb` of PageBlockUnusedList.
abbrev pub slot_nb : ℕ
slot_nb = 10

abbrev pub insert_unused : Table → QuickList → ℕ → QuickList
insert_unused t q e = insert slot_nb (nb_page_of t) q e

abbrev pub available_pb_index : SuperpageBlock → ℕ
available_pb_index s = min s.huge_alloc_pb_index superpage_page_nb

-- `get_owner` is the field `owner`.
abbrev pub disown : SuperpageBlock → SuperpageBlock
disown s = record s { owner = none }

abbrev pub adopt : SuperpageBlock → ℕ → Bool × SuperpageBlock
adopt s adopter = elim s.owner [
  | none ↦ (true, record s { owner = some adopter })
  | some other ↦ (false, s)
]

-- `take_page_block` is what `allocate_page_block` does with the element that it took.
unfoldable pub take_page_block :
    SuperpageBlock → ℕ → MemoryType → Option ℕ × QuickList → Option ℕ × SuperpageBlock
take_page_block s page_nb ty (none, q) = (none, record s { unused_list = q })
take_page_block s page_nb ty (some pbh, q) =
    let overflow_page_nb = nb_page_of s.pbh_table pbh - page_nb in
    let overflow = pbh + page_nb in
    let cut = format_pbh s.pbh_table overflow (overflow + overflow_page_nb) unused in
    if ltb 0 overflow_page_nb
    then (
      some pbh,
      record s {
        unused_list = insert_unused cut q overflow;
        pbh_table = format_pbh cut pbh (pbh + page_nb) ty;
      },
    )
    else (
      some pbh,
      record s { unused_list = q; pbh_table = format_pbh s.pbh_table pbh (pbh + page_nb) ty },
    )

unfoldable pub allocate_page_block : SuperpageBlock → ℕ → MemoryType → Option ℕ × SuperpageBlock
allocate_page_block s page_nb ty =
    take_page_block s page_nb ty (take slot_nb (nb_page_of s.pbh_table) s.unused_list page_nb)

-- The two merges of `free_page_block`: the new start or end, and the list.
unfoldable pub merge_previous : Table → QuickList → ℕ → ℕ × QuickList
merge_previous t q start =
    let before = header t (start - 1) in
    if ltb 0 start && is_unused before.type
    then (before.head, remove slot_nb (nb_page_of t) q before.head)
    else (start, q)

unfoldable pub merge_next : Table → QuickList → ℕ → ℕ × QuickList
merge_next t q end =
    if ltb end superpage_page_nb && is_unused (header t end).type
    then (end + nb_page_of t end, remove slot_nb (nb_page_of t) q end)
    else (end, q)

unfoldable pub free_page_block : SuperpageBlock → ℕ → SuperpageBlock
free_page_block s pbh =
    let (start, q) = merge_previous s.pbh_table s.unused_list pbh in
    let (end, q') = merge_next s.pbh_table q (pbh + nb_page_of s.pbh_table pbh) in
    let t = format_pbh s.pbh_table start end unused in
    record s { unused_list = insert_unused t q' start; pbh_table = t }

unfoldable pub destroy_huge_alloc : SuperpageBlock → SuperpageBlock
destroy_huge_alloc s =
    let freed = free_page_block s s.huge_alloc_pb_index in
    if ltb s.huge_alloc_pb_index superpage_page_nb
    then record freed { superpage_nb = 1 }
    else record s { superpage_nb = 1 }

-- `ptr` is the address of the block itself.
abbrev pub in_huge_alloc : SuperpageBlock → Ptr → Ptr → Bool
in_huge_alloc s ptr p = leb (add ptr (s.huge_alloc_pb_index * page_size)) p

-- Address and size.
abbrev pub huge_alloc_memory : SuperpageBlock → Ptr → Ptr × ℕ
huge_alloc_memory s ptr =
    let huge_alloc_page_nb = s.superpage_nb * superpage_page_nb - s.huge_alloc_pb_index in
    (add ptr (s.huge_alloc_pb_index * page_size), huge_alloc_page_nb * page_size)

abbrev pub page_block_memory : SuperpageBlock → Ptr → ℕ → Ptr × ℕ
page_block_memory s ptr pbh = (add ptr (pbh * page_size), nb_page_of s.pbh_table pbh * page_size)

-- `page_block_header (Ptr)`: the index of the active header.
abbrev pub page_block_header : SuperpageBlock → Ptr → Ptr → ℕ
page_block_header s ptr p = (header s.pbh_table (sub p ptr / page_size)).head

module _ (header_space_pages : ℕ) where
  -- The table before it is formatted has any headers; it is an argument. The superpages fit memory, so
  -- that the product, of their pages, is below 2 ^ 64, and an assertion has the difference above 0.
  unfoldable pub make_superpage_block : ℕ → ℕ → ℕ → Table → SuperpageBlock
  make_superpage_block superpage_nb huge_alloc_page_nb owner raw =
      let index = superpage_nb * superpage_page_nb - huge_alloc_page_nb in
      let max_available_pb = min index superpage_page_nb in
      let t = format_pbh raw 0 header_space_pages reserved in
      let t' = format_pbh t header_space_pages max_available_pb unused in
      let t'' = format_pbh t' max_available_pb superpage_page_nb huge in
      record {
        owner = some owner;
        superpage_nb = superpage_nb;
        huge_alloc_pb_index = index;
        unused_list = insert_unused t'' (empty_quick_list slot_nb) header_space_pages;
        pbh_table = t'';
      }

  abbrev pub all_page_blocks_unused : SuperpageBlock → Bool
  all_page_blocks_unused s = s.unused_list.stored_size == available_pb_index s - header_space_pages

  abbrev pub completely_unused : SuperpageBlock → Bool
  completely_unused s = (s.superpage_nb == 1) && all_page_blocks_unused s
