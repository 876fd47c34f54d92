-- ===== src/LocalHeap/Served.antt =====
-- The size of the page blocks that a heap of src/allocator.h gives.
use mathlib.Core.Path.{subst}
use givy.Base.{
  ℕ, ◌<◌, ◌≡◌, refl, sym, arith, Bool, true, Option, none, some, List, [], ◌∷◌, ◌++◌, ◌>>=◌, length,
  ◌==◌, Bool-cases, inl, inr,
}
use givy.Pointer.{Ptr}
use givy.Space.{Space, VmemCall, superpage_page_nb, reserve_local_superpage_sequence}
use givy.SuperpageBlock.{
  MemoryType, nb_page_of, SuperpageBlock, Table, make_superpage_block, allocate_page_block,
}
use givy.SuperpageBlock.PageBlocks.{Allocated, allocate_page_block-Allocated}
use givy.LocalHeap.{Sizes, Node, set_block, set_owned}
use givy.LocalHeap.Huge.{IsSized, superpage_nb_for_lem}
use givy.LocalHeap.Pages.{
  huge_alloc_page_nb, superpage_nb_for, create_superpage_block, put_superpage_block,
  first_page_block, from_new, create_page_block,
}
use givy.LocalHeap.Serving.{IsServing, same, Allocated-pages, unchanged, fresh-IsServing}

-- A page block of `nb_page` pages, if any.
abbrev pub HasPages : ℕ → Option ((Ptr × ℕ) × Node) → Type 0
HasPages nb_page none = ◌≡◌ {A = Bool} true true
HasPages nb_page (some r) = nb_page_of (r.1.superpage_blocks r.0.0).pbh_table r.0.1 ≡ nb_page

abbrev pub Ready : Node → Type 0
Ready n = (p : Ptr) → IsServing (n.superpage_blocks p)

-- What the loop over the owned blocks gives: a block of the right size, or all blocks ready still.
abbrev First : ℕ → Option (Ptr × ℕ) × Node → Type 0
First nb_page (none, n) = Ready n
First nb_page (some b, n) = nb_page_of (n.superpage_blocks b.0).pbh_table b.1 ≡ nb_page

set_block-Ready :
    (n : Node) (p : Ptr) (s : SuperpageBlock) → Ready n → IsServing s → Ready (set_block n p s)
set_block-Ready n p s k here q = elim (Bool-cases (q == p)) [
  | inl e ↦ rw e here
  | inr e ↦ rw e (k q)
]

first_page_block-First :
    (z : Sizes) (me : ℕ) (l : List Ptr) (nb_page : ℕ) (ty : MemoryType) (n : Node)
    → Ready n
    → 0 < nb_page
    → First nb_page (first_page_block z me l nb_page ty n)
unfolding first_page_block
first_page_block-First z me [] nb_page ty n k pos = k
first_page_block-First z me (spb ∷ rest) nb_page ty n k pos =
    go
      (λ s' serving.
        first_page_block-First z me rest nb_page ty (set_block n spb s')
          (set_block-Ready n spb s' k serving) pos)
      (allocate_page_block (n.superpage_blocks spb) nb_page ty)
      (allocate_page_block-Allocated (n.superpage_blocks spb) nb_page ty (k spb).valid
        (k spb).inside pos)
  where
    go :
        ((s' : SuperpageBlock)
          → IsServing s'
          → First nb_page (first_page_block z me rest nb_page ty (set_block n spb s')))
        → (r : Option ℕ × SuperpageBlock) → Allocated (n.superpage_blocks spb) nb_page ty r
        → First nb_page (elim r.0 [
          | some pbh ↦ (some (spb, pbh), set_block n spb r.1)
          | none ↦ first_page_block z me rest nb_page ty (set_block n spb r.1)
        ])
    go others (none, s') a = others s' (unchanged (n.superpage_blocks spb) nb_page ty s' a (k spb))
    go others (some pbh, s') a =
        rw (same spb) (Allocated-pages (n.superpage_blocks spb) nb_page pbh ty s' pos a)

superpage_nb_for_none : (z : Sizes) (me : ℕ) → IsSized z → superpage_nb_for z me 0 ≡ 1
superpage_nb_for_none z me h =
    let a = superpage_nb_for_lem z me 0 h (omega arith) in
    omega (arith, a, h.header_some, h.header_fits)

-- The page block taken from `s`, the block at `p` of the node.
taken_pages :
    (n : Node) (p : Ptr) (s : SuperpageBlock) (nb_page : ℕ) (ty : MemoryType)
    → IsServing s
    → 0 < nb_page
    → HasPages nb_page (
        (allocate_page_block s nb_page ty).0 >>= λ pbh.
        some ((p, pbh), set_block n p (allocate_page_block s nb_page ty).1))
taken_pages n p s nb_page ty k pos =
    go (allocate_page_block s nb_page ty)
      (allocate_page_block-Allocated s nb_page ty k.valid k.inside pos)
  where
    go :
        (r : Option ℕ × SuperpageBlock)
        → Allocated s nb_page ty r
        → HasPages nb_page (r.0 >>= λ pbh. some ((p, pbh), set_block n p r.1))
    go (none, s') a = refl
    go (some pbh, s') a = rw (same p) (Allocated-pages s nb_page pbh ty s' pos a)

new_block-IsServing :
    (z : Sizes) (me : ℕ) (raw : Table)
    → IsSized z
    → length raw ≡ superpage_page_nb
    → IsServing (
        make_superpage_block z.header_space_pages
          (superpage_nb_for z me 0)
          (huge_alloc_page_nb z me 0)
          me
          raw)
new_block-IsServing z me raw h whole =
    let a = superpage_nb_for_lem z me 0 h (omega arith) in
    let pages : 0 ≡ huge_alloc_page_nb z me 0 = omega (arith, a) in
    subst
      (λ nb.
        IsServing (make_superpage_block z.header_space_pages nb (huge_alloc_page_nb z me 0) me raw))
      {y = superpage_nb_for z me 0} (sym (superpage_nb_for_none z me h))
      (subst (λ k. IsServing (make_superpage_block z.header_space_pages 1 k me raw)) pages
        (fresh-IsServing z me raw h whole))

from_new-HasPages :
    (z : Sizes) (me nb_page : ℕ) (ty : MemoryType) (n : Node)
    → IsSized z
    → Ready n
    → 0 < nb_page
    → HasPages nb_page (from_new z me nb_page ty n)
unfolding from_new create_superpage_block put_superpage_block
from_new-HasPages z me nb_page ty n h k pos =
    go (reserve_local_superpage_sequence n.space (superpage_nb_for z me 0))
  where
    go :
        (r : Option (Ptr × Space × List VmemCall))
        → HasPages nb_page (
            (r >>= put_superpage_block z me 0 n) >>= λ made.
            (allocate_page_block (made.1.superpage_blocks made.0) nb_page ty).0 >>= λ pbh. some (
              (made.0, pbh),
              set_block made.1 made.0
                  (allocate_page_block (made.1.superpage_blocks made.0) nb_page ty).1,
            ))
    go none = refl
    go (some (base, space, calls)) =
        let spb =
          make_superpage_block z.header_space_pages (superpage_nb_for z me 0)
            (huge_alloc_page_nb z me 0) me (n.superpage_blocks base).pbh_table in
        let made =
          set_owned (set_block (record n { space = space }) base spb) me
            ((n.heaps me).owned_superpage_blocks ++ base ∷ []) in
        taken_pages made base (made.superpage_blocks base) nb_page ty
          (rw (same base)
            (new_block-IsServing z me (n.superpage_blocks base).pbh_table h (k base).whole))
          pos

-- Asking a heap for a page block of one page or more, while the superpage blocks are in order,
-- gives one of that size, from a block that the heap owns or from a new one.
pub create_page_block-HasPages :
    (z : Sizes) (me nb_page : ℕ) (ty : MemoryType) (n : Node)
    → IsSized z
    → Ready n
    → 0 < nb_page
    → HasPages nb_page (create_page_block z me nb_page ty n)
unfolding create_page_block
create_page_block-HasPages z me nb_page ty n h k pos =
    go (first_page_block z me (n.heaps me).owned_superpage_blocks nb_page ty n)
      (first_page_block-First z me (n.heaps me).owned_superpage_blocks nb_page ty n k pos)
  where
    go :
        (r : Option (Ptr × ℕ) × Node)
        → First nb_page r
        → HasPages nb_page
            (elim r.0 [ some b ↦ some (b, r.1) | none ↦ from_new z me nb_page ty r.1 ])
    go (none, n') f = from_new-HasPages z me nb_page ty n' h f pos
    go (some b, n') f = f
