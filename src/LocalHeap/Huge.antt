-- ===== src/LocalHeap/Huge.antt =====
-- Huge allocations of src/allocator.h: a superpage block of its own for each.
use native.Mathlib.Nat.{mod-eq_of_lt}
use mathlib.Core.Path.{subst}
use givy.Base.{
  ◌>>=◌, ℕ, ◌+◌, ◌-◌, ◌*◌, ◌%◌, ◌^◌, ◌≤◌, ◌<◌, ◌≡◌, refl, ap, arith, true, Option, none, some, List,
  ◌==◌, if◌then◌else◌,
}
use givy.Math.Laws.{divide_up_lem}
use givy.Pointer.{Ptr, add}
use givy.Space.{
  Space, VmemCall, page_size, superpage_size, superpage_page_nb, reserve_local_superpage_sequence,
  superpage_sequence_start,
}
use givy.Space.Laws.{IsLaidOut}
use givy.Space.Superpages.{
  IsReady, Reservation, reserve_local_superpage_sequence-Reservation, block, no_memory,
}
use givy.SuperpageBlock.{make_superpage_block, huge_alloc_memory}
use givy.LocalHeap.{Sizes, Node}
use givy.LocalHeap.Pages.{
  huge_alloc_page_nb, superpage_nb_for, put_superpage_block, create_superpage_block,
}

-- There are header pages, and pages behind them in a superpage.
pub record IsSized (z : Sizes) : Type 0 where
  pub header_some : 0 < z.header_space_pages
  pub header_fits : z.header_space_pages < superpage_page_nb

-- For a request of up to 2 ^ 62 bytes: the pages are the least that hold it, the superpages the
-- least that hold the headers and these pages.
pub superpage_nb_for_lem :
    (z : Sizes) (me size : ℕ)
    → IsSized z
    → size ≤ 2 ^ 62
    → (size ≤ huge_alloc_page_nb z me size * page_size)
      × (huge_alloc_page_nb z me size * page_size < size + page_size)
      × (huge_alloc_page_nb z me size + z.header_space_pages
          ≤ superpage_nb_for z me size * superpage_page_nb)
      × (superpage_nb_for z me size * superpage_page_nb
          < huge_alloc_page_nb z me size + z.header_space_pages + superpage_page_nb)
superpage_nb_for_lem z me size h le =
    let a = divide_up_lem size page_size (omega arith) (omega arith) in
    let small : (huge_alloc_page_nb z me size + z.header_space_pages) % 2 ^ 64
        ≡ huge_alloc_page_nb z me size + z.header_space_pages =
      omega (arith, a, h.header_fits) in
    let b =
      divide_up_lem ((huge_alloc_page_nb z me size + z.header_space_pages) % 2 ^ 64)
        superpage_page_nb (omega arith) (omega (arith, a, h.header_fits)) in
    (a.0, a.1, omega (arith, b.0, small), omega (arith, b.1, small))

-- A block at `base` with a huge allocation of `size` bytes: its memory is large enough, starts at a
-- page behind the headers, ends with the block, in the local interval, and each address of the
-- block leads to `base`.
pub record IsHuge (z : Sizes) (me size : ℕ) (s : Space) (base : Ptr) (n : Node) : Type 0 where
  pub owned : (n.superpage_blocks base).owner ≡ some me
  pub enough : size ≤ (huge_alloc_memory (n.superpage_blocks base) base).1
  pub behind_headers :
      base + z.header_space_pages * page_size ≤ (huge_alloc_memory (n.superpage_blocks base) base).0
  pub page_aligned : (huge_alloc_memory (n.superpage_blocks base) base).0 % page_size ≡ 0
  pub ends :
      (huge_alloc_memory (n.superpage_blocks base) base).0
        + (huge_alloc_memory (n.superpage_blocks base) base).1
      ≡ base + superpage_size * (n.superpage_blocks base).superpage_nb
  pub behind_start : s.local_interval.start_ ≤ base
  pub before_end :
      base + superpage_size * (n.superpage_blocks base).superpage_nb ≤ s.local_interval.end_
  pub found :
      (p : Ptr)
      → base ≤ p
      → p < base + superpage_size * (n.superpage_blocks base).superpage_nb
      → superpage_sequence_start n.space p ≡ some base

pub data Created (z : Sizes) (me size : ℕ) (s : Space) : Option (Ptr × Node) → Type 0 where
  created :
      {base : Ptr} {n : Node} → IsHuge z me size s base n → Created z me size s (some (base, n))
  no_space :
      reserve_local_superpage_sequence s (superpage_nb_for z me size) ≡ none
      → Created z me size s none

put_superpage_block-IsHuge :
    (z : Sizes) (me size : ℕ) (n : Node) (base : Ptr) (s' : Space) (calls : List VmemCall)
    → IsSized z
    → IsLaidOut n.space
    → size ≤ 2 ^ 62
    → n.space.local_interval.start_ ≤ base
    → base + superpage_size * superpage_nb_for z me size ≤ n.space.local_interval.end_
    → base % superpage_size ≡ 0
    → ((p : Ptr)
        → base ≤ p
        → p < base + superpage_size * superpage_nb_for z me size
        → superpage_sequence_start s' p ≡ some base)
    → Created z me size n.space (put_superpage_block z me size n (base, s', calls))
unfolding put_superpage_block make_superpage_block
put_superpage_block-IsHuge z me size n base s' calls h laid le lo hi aligned start =
    let sizes = superpage_nb_for_lem z me size h le in
    let self : (base == base) ≡ true = ground arith in
    let made =
      make_superpage_block z.header_space_pages (superpage_nb_for z me size)
        (huge_alloc_page_nb z me size) me (n.superpage_blocks base).pbh_table in
    let index = superpage_nb_for z me size * superpage_page_nb - huge_alloc_page_nb z me size in
    let room : base + index * page_size < 2 ^ 64 =
      omega (arith, sizes, hi, laid.local_end, laid.local_sp_in, laid.gas_end, laid.fits) in
    let place : add base (index * page_size) ≡ base + index * page_size = mod-eq_of_lt room in
    created (record {
      owned = rw self refl;
      enough = rw self (omega (arith, sizes));
      behind_headers = rw (self, place) (omega (arith, sizes));
      page_aligned = rw (self, place) (omega (arith, aligned));
      ends = rw (self, place) (omega (arith, sizes));
      behind_start = lo;
      before_end = rw self hi;
      found = λ p i j. start p i (
          subst (λ k. p < base + superpage_size * k)
            (ap (λ b. (if b then made else n.superpage_blocks base).superpage_nb) self) j);
    })

-- In a space that is ready, a request of up to 2 ^ 62 bytes that needs more than one superpage ends
-- the program because the space does not reserve the superpages that it needs, or gives a superpage block of the heap in the local
-- interval. The memory of its huge allocation has at least the size, starts at a page behind the
-- headers and ends with the block, and each address of the block leads to the block.
pub create_superpage_block-Created :
    (z : Sizes) (me size cells : ℕ) (n : Node)
    → IsSized z
    → IsReady n.space cells
    → size ≤ 2 ^ 62
    → 1 < superpage_nb_for z me size
    → Created z me size n.space (create_superpage_block z me size n)
unfolding create_superpage_block
create_superpage_block-Created z me size cells n h ready le several =
    go (reserve_local_superpage_sequence n.space nb) refl (
      reserve_local_superpage_sequence-Reservation n.space cells nb ready several
        (omega (arith, superpage_nb_for_lem z me size h le, h.header_fits)))
  where
    nb : ℕ
    nb = superpage_nb_for z me size

    go :
        (r : Option (Ptr × Space × List VmemCall))
        → reserve_local_superpage_sequence n.space nb ≡ r
        → Reservation n.space nb r
        → Created z me size n.space (r >>= put_superpage_block z me size n)
    go r e (block {base = base} {s' = s'} lo hi aligned found again) =
        put_superpage_block-IsHuge z me size n base s' _ h ready.laid_out le lo hi aligned found
    go r e (no_memory refused) = no_space e
