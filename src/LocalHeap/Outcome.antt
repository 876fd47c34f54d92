-- ===== src/LocalHeap/Outcome.antt =====
-- `ThreadLocalHeap::allocate` of src/allocator.h on every path: what it returns, when it fails, and
-- that the superpage blocks stay in order.
use givy.Base.{ℕ, ◌-◌, ◌*◌, ◌<◌, min}
use givy.Space.{Space, superpage_page_nb}
use givy.SuperpageBlock.{SuperpageBlock}
use givy.LocalHeap.{Sizes}
use givy.LocalHeap.Pages.{superpage_nb_for, huge_alloc_page_nb}

-- Pages are left between the headers and the huge allocation.
abbrev pub HasPagesLeft : Sizes → ℕ → ℕ → Type 0
HasPagesLeft z me size =
    z.header_space_pages
    < min (superpage_nb_for z me size * superpage_page_nb - huge_alloc_page_nb z me size)
        superpage_page_nb
