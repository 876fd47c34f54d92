-- ===== src/LocalHeap/Given.antt =====
-- `create_page_block` of src/allocator.h: where the page block comes from, and what stays.
use mathlib.Core.Path.{subst}
use givy.Base.{
  ℕ, ◌+◌, ◌-◌, ◌≤◌, ◌<◌, ◌≡◌, refl, sym, ap, ◌∙◌, arith, true, false, Option, none, some, List, [],
  ◌∷◌, ◌++◌, ◌>>=◌, length, ◌==◌, if◌then◌else◌, Bool-cases, inl, inr, ltb, ltb→lt, ltb→le,
}
use givy.IntrusiveList.Ring.Links.{has}
use givy.Pointer.{Ptr}
use givy.Space.{Space, VmemCall, superpage_page_nb, reserve_local_superpage_sequence}
use givy.SuperpageBlock.{
  MemoryType, SuperpageBlock, unused, header, format, is_unused, make_superpage_block,
  allocate_page_block,
}
use givy.SuperpageBlock.Headers.{among}
use givy.SuperpageBlock.Create.{make_superpage_block_lem}
use givy.SuperpageBlock.Partition.{is_unused_at, among_in}
use givy.SuperpageBlock.WellFormed.{IsGood, IsLaidOut}
use givy.SuperpageBlock.WellFormed.Given.{Given, nothing}
use givy.SuperpageBlock.WellFormed.Allocate.{allocate_page_block-Given}
use givy.SuperpageBlock.WellFormed.Create.{make_superpage_block-IsLaidOut}
use givy.SuperpageBlock.WellFormed.Run.{small_or_medium-used, is_small_or_medium}
use givy.LocalHeap.{Sizes, Node, set_block, set_owned}
use givy.LocalHeap.Huge.{IsSized, superpage_nb_for_lem}
use givy.LocalHeap.Pages.{
  huge_alloc_page_nb, superpage_nb_for, create_superpage_block, put_superpage_block,
  first_page_block, from_new, create_page_block,
}
use givy.LocalHeap.Search.{
  IsTooFull, IsSameBut, Searched, found, not_found, first_page_block-Searched, same_key,
}

-- A superpage block of one superpage, as the constructor makes it in the memory at `base`.
abbrev pub fresh : Sizes → ℕ → Node → Ptr → SuperpageBlock
fresh z me n base =
    make_superpage_block z.header_space_pages 1 0 me (n.superpage_blocks base).pbh_table

-- The superpage blocks that the heap owns are in order, and all memory has room for a table.
pub record IsHeap (me : ℕ) (n : Node) : Type 0 where
  pub tables : (p : Ptr) → length (n.superpage_blocks p).pbh_table ≡ superpage_page_nb
  pub good :
      (p : Ptr) → has p (n.heaps me).owned_superpage_blocks ≡ true → IsGood (n.superpage_blocks p)

-- The result of asking the heap `me` for `k` pages of the type `ty`.
pub data PageBlockGiven (z : Sizes) (me k : ℕ) (ty : MemoryType) (n : Node)
    : Option ((Ptr × ℕ) × Node) → Type 0 where
  from_owned :
      {spb pbh : ℕ} {n' : Node}
      → has spb (n.heaps me).owned_superpage_blocks ≡ true
      → Given (n.superpage_blocks spb) k ty (some pbh, n'.superpage_blocks spb)
      → IsSameBut spb n n'
      → n'.heaps ≡ n.heaps
      → n'.space ≡ n.space
      → PageBlockGiven z me k ty n (some ((spb, pbh), n'))
  from_fresh :
      {base pbh : ℕ} {n' : Node} {calls : List VmemCall}
      → reserve_local_superpage_sequence n.space 1 ≡ some (base, n'.space, calls)
      → ((p : Ptr)
          → has p (n.heaps me).owned_superpage_blocks ≡ true
          → IsTooFull k (n.superpage_blocks p))
      → Given (fresh z me n base) k ty (some pbh, n'.superpage_blocks base)
      → IsSameBut base n n'
      → ((j : ℕ)
          → (n'.heaps j).owned_superpage_blocks ≡ (
              if j == me
              then (n.heaps me).owned_superpage_blocks ++ base ∷ []
              else (n.heaps j).owned_superpage_blocks))
      → PageBlockGiven z me k ty n (some ((base, pbh), n'))
  no_memory :
      reserve_local_superpage_sequence n.space 1 ≡ none
      → ((p : Ptr)
          → has p (n.heaps me).owned_superpage_blocks ≡ true
          → IsTooFull k (n.superpage_blocks p))
      → PageBlockGiven z me k ty n none
  too_large : superpage_page_nb < k + z.header_space_pages → PageBlockGiven z me k ty n none

superpage_nb_for_page : (z : Sizes) (me : ℕ) → IsSized z → superpage_nb_for z me 0 ≡ 1
superpage_nb_for_page z me h =
    let a = superpage_nb_for_lem z me 0 h (omega arith) in
    omega (arith, a, h.header_some, h.header_fits)

no_pages : (z : Sizes) (me : ℕ) → IsSized z → huge_alloc_page_nb z me 0 ≡ 0
no_pages z me h = omega (arith, superpage_nb_for_lem z me 0 h (omega arith))

pub fresh-IsLaidOut :
    (z : Sizes) (me : ℕ) (n : Node) (base : Ptr)
    → IsSized z
    → length (n.superpage_blocks base).pbh_table ≡ superpage_page_nb
    → IsLaidOut z.header_space_pages (fresh z me n base)
fresh-IsLaidOut z me n base h whole =
    make_superpage_block-IsLaidOut z.header_space_pages 1 0 me (n.superpage_blocks base).pbh_table
      whole (omega (arith, h.header_fits))

-- All pages behind the headers of a new superpage block are unused.
fresh_unused :
    (z : Sizes) (me : ℕ) (n : Node) (base : Ptr) (i : ℕ)
    → IsSized z
    → length (n.superpage_blocks base).pbh_table ≡ superpage_page_nb
    → z.header_space_pages ≤ i
    → i < superpage_page_nb
    → is_unused_at (fresh z me n base).pbh_table i ≡ true
fresh_unused z me n base i h whole lo hi =
    let facts =
      make_superpage_block_lem z.header_space_pages 1 0 me (n.superpage_blocks base).pbh_table whole
        (omega (arith, h.header_fits)) in
    let a : among 512 512 i ≡ false = ground arith in
    let b : among z.header_space_pages 512 i ≡ true = among_in z.header_space_pages 512 i lo hi in
    let e : header (fresh z me n base).pbh_table i
        ≡ format unused (512 - z.header_space_pages) z.header_space_pages =
      facts.0 i ∙ rw (a, b) refl in
    ap (λ x. is_unused x.type) e

module _ (z : Sizes) (me k : ℕ) (ty : MemoryType) (n : Node) (h : IsSized z) (pos : 0 < k)
    (used : is_unused ty ≡ false)
    (tables : (p : Ptr) → length (n.superpage_blocks p).pbh_table ≡ superpage_page_nb)
    (full : (p : Ptr)
      → has p (n.heaps me).owned_superpage_blocks ≡ true
      → IsTooFull k (n.superpage_blocks p)) where
  -- What `from_new` does with a superpage that it has, and the block in it.
  abbrev in_new : Ptr → Space → SuperpageBlock → Option ((Ptr × ℕ) × Node)
  in_new base space spb =
      let made =
        set_owned (set_block (record n { space = space }) base spb) me
          ((n.heaps me).owned_superpage_blocks ++ base ∷ []) in
      (allocate_page_block (made.superpage_blocks base) k ty).0 >>= λ pbh.
      some
        ((base, pbh), set_block made base (allocate_page_block (made.superpage_blocks base) k ty).1)

  in_new-PageBlockGiven :
      (base : Ptr) (space : Space) (calls : List VmemCall)
      → reserve_local_superpage_sequence n.space 1 ≡ some (base, space, calls)
      → PageBlockGiven z me k ty n (in_new base space (fresh z me n base))
  in_new-PageBlockGiven base space calls e = rw (same_key base) (
      go (allocate_page_block (fresh z me n base) k ty) (
        allocate_page_block-Given (fresh z me n base) k ty
          (fresh-IsLaidOut z me n base h (tables base)).good pos used))
    where
      made : Node
      made =
          set_owned (set_block (record n { space = space }) base (fresh z me n base)) me
            ((n.heaps me).owned_superpage_blocks ++ base ∷ [])

      owned :
          (j : ℕ)
          → (made.heaps j).owned_superpage_blocks ≡ (
              if j == me
              then (n.heaps me).owned_superpage_blocks ++ base ∷ []
              else (n.heaps j).owned_superpage_blocks)
      owned j = elim (Bool-cases (j == me)) [ inl e ↦ rw e refl | inr e ↦ rw e refl ]

      go :
          (r : Option ℕ × SuperpageBlock)
          → Given (fresh z me n base) k ty r
          → PageBlockGiven z me k ty n (r.0 >>= λ pbh. some ((base, pbh), set_block made base r.1))
      go (none, s) (nothing same none_fits) =
          elim (Bool-cases (ltb superpage_page_nb (k + z.header_space_pages))) [
            | inl large ↦ too_large (ltb→lt _ _ large)
            | inr fits ↦ absurd (
                omega (
                  arith,
                  none_fits z.header_space_pages (λ i lt.
                      fresh_unused z me n base (z.header_space_pages + i) h (tables base)
                        (omega arith) (omega (arith, ltb→le _ _ fits))),
                ))
          ]
      go (some pbh, s) g =
          from_fresh {calls = calls} e full
            (subst (λ b. Given (fresh z me n base) k ty (some pbh, b))
              {y = (set_block made base s).superpage_blocks base} (rw (same_key base) refl) g)
            (λ q ne. rw ne refl) owned

  from_new-PageBlockGiven : PageBlockGiven z me k ty n (from_new z me k ty n)
  unfolding from_new create_superpage_block put_superpage_block
  from_new-PageBlockGiven =
      go (reserve_local_superpage_sequence n.space (superpage_nb_for z me 0))
        (ap (reserve_local_superpage_sequence n.space) (sym (superpage_nb_for_page z me h)))
    where
      go :
          (r : Option (Ptr × Space × List VmemCall))
          → reserve_local_superpage_sequence n.space 1 ≡ r
          → PageBlockGiven z me k ty n (
              (r >>= put_superpage_block z me 0 n) >>= λ made.
              (allocate_page_block (made.1.superpage_blocks made.0) k ty).0 >>= λ pbh. some (
                (made.0, pbh),
                set_block made.1 made.0
                    (allocate_page_block (made.1.superpage_blocks made.0) k ty).1,
              ))
      go none e = no_memory e full
      go (some (base, space, calls)) e =
          rw (superpage_nb_for_page z me h, no_pages z me h)
            (in_new-PageBlockGiven base space calls e)

-- Asking a heap for a page block, while the superpage blocks that it owns are in order: the block
-- comes from one of them that has enough unused pages in a row. If none has, it comes from a new
-- superpage block, which the heap owns then. No other superpage block changes. It fails only when
-- there is no memory for a new superpage block, or when the pages asked for and the header pages are
-- more than a superpage.
pub create_page_block-PageBlockGiven :
    (z : Sizes) (me k : ℕ) (ty : MemoryType) (n : Node)
    → IsSized z
    → IsHeap me n
    → 0 < k
    → is_small_or_medium ty ≡ true
    → PageBlockGiven z me k ty n (create_page_block z me k ty n)
unfolding create_page_block
create_page_block-PageBlockGiven z me k ty n h heap pos kind =
    go (first_page_block z me (n.heaps me).owned_superpage_blocks k ty n)
      (first_page_block-Searched z me k ty pos used (n.heaps me).owned_superpage_blocks n heap.good)
  where
    used : is_unused ty ≡ false
    used = small_or_medium-used ty kind

    go :
        (r : Option (Ptr × ℕ) × Node)
        → Searched (n.heaps me).owned_superpage_blocks k ty n r
        → PageBlockGiven z me k ty n
            (elim r.0 [ some b ↦ some (b, r.1) | none ↦ from_new z me k ty r.1 ])
    go (some b, n') (found mem g but heaps space) = from_owned mem g but heaps space
    go (none, n') (not_found same full) =
        subst (λ m. PageBlockGiven z me k ty n (from_new z me k ty m)) {y = n'} (sym same)
          (from_new-PageBlockGiven z me k ty n h pos used heap.tables full)
