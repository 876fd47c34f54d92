-- ===== src/LocalHeap/Search.antt =====
-- The loop over the superpage blocks of a heap in `create_page_block` of src/allocator.h.
use mathlib.Core.Path.{subst, fun_ext}
use givy.Base.{
  ℕ, ◌+◌, ◌<◌, ◌≡◌, refl, sym, ap, ◌∙◌, arith, Bool, true, false, ◌||◌, Option, none, some, List,
  [], ◌∷◌, ◌==◌, if◌then◌else◌, Bool-cases, inl, inr, ==→eq,
}
use givy.IntrusiveList.Ring.Links.{has}
use givy.Pointer.{Ptr}
use givy.SuperpageBlock.{MemoryType, SuperpageBlock, is_unused, allocate_page_block}
use givy.SuperpageBlock.Partition.{is_unused_at}
use givy.SuperpageBlock.WellFormed.{IsGood}
use givy.SuperpageBlock.WellFormed.Given.{Given, nothing}
use givy.SuperpageBlock.WellFormed.Allocate.{allocate_page_block-Given}
use givy.LocalHeap.{Sizes, Node, set_block}
use givy.LocalHeap.Pages.{first_page_block}

-- Nowhere in the table are `k` pages in a row unused.
abbrev pub IsTooFull : ℕ → SuperpageBlock → Type 0
IsTooFull k s = (n : ℕ) → ((i : ℕ) → i < k → is_unused_at s.pbh_table (n + i) ≡ true) → k ≡ 0

-- Every superpage block but `p` is as it was.
abbrev pub IsSameBut : Ptr → Node → Node → Type 0
IsSameBut p n n' = (q : Ptr) → (q == p) ≡ false → n'.superpage_blocks q ≡ n.superpage_blocks q

-- The first superpage block of the list that has enough unused pages in a row gives the page
-- block; no other changes. Or none has, and nothing changes.
pub data Searched (l : List Ptr) (k : ℕ) (ty : MemoryType) (n : Node)
    : Option (Ptr × ℕ) × Node → Type 0 where
  found :
      {spb pbh : ℕ} {n' : Node}
      → has spb l ≡ true
      → Given (n.superpage_blocks spb) k ty (some pbh, n'.superpage_blocks spb)
      → IsSameBut spb n n'
      → n'.heaps ≡ n.heaps
      → n'.space ≡ n.space
      → Searched l k ty n (some (spb, pbh), n')
  not_found :
      {n' : Node}
      → n' ≡ n
      → ((p : Ptr) → has p l ≡ true → IsTooFull k (n.superpage_blocks p))
      → Searched l k ty n (none, n')

pub same_key : (p : ℕ) → (p == p) ≡ true
same_key p = ground arith

-- Storing a block that is as before changes nothing.
set_same :
    (n : Node) (p : Ptr) (s : SuperpageBlock) → s ≡ n.superpage_blocks p → set_block n p s ≡ n
set_same n p s e = ap (λ f. record n { superpage_blocks = f }) {y = n.superpage_blocks} (fun_ext at)
  where
    at : (q : Ptr) → (if q == p then s else n.superpage_blocks q) ≡ n.superpage_blocks q
    at q = elim (Bool-cases (q == p)) [
      | inl own ↦ rw own (e ∙ ap n.superpage_blocks (sym (==→eq _ _ own)))
      | inr other ↦ rw other refl
    ]

module _ (z : Sizes) (me k : ℕ) (ty : MemoryType) (pos : 0 < k) (used : is_unused ty ≡ false) where
  -- What the loop does with the answer of the first block.
  abbrev turn : Ptr → List Ptr → Node → Option ℕ × SuperpageBlock → Option (Ptr × ℕ) × Node
  turn spb rest n r = elim r.0 [
    | some pbh ↦ (some (spb, pbh), set_block n spb r.1)
    | none ↦ first_page_block z me rest k ty (set_block n spb r.1)
  ]

  later :
      (spb : Ptr) (rest : List Ptr) (n : Node)
      → IsTooFull k (n.superpage_blocks spb)
      → (r : Option (Ptr × ℕ) × Node) → Searched rest k ty n r
      → Searched (spb ∷ rest) k ty n r
  later spb rest n full r (found {spb = p} mem g but heaps space) =
      found (or_right (p == spb) mem) g but heaps space
    where
      or_right : (a : Bool) {b : Bool} → b ≡ true → (a || b) ≡ true
      or_right true h = refl
      or_right false h = h
  later spb rest n full r (not_found same all) = not_found same λ p mem.
      elim (Bool-cases (p == spb)) [
        | inl own ↦ subst (λ q. IsTooFull k (n.superpage_blocks q)) (sym (==→eq _ _ own)) full
        | inr other ↦ all p (ground arith)
      ]

  pub first_page_block-Searched :
      (l : List Ptr) (n : Node)
      → ((p : Ptr) → has p l ≡ true → IsGood (n.superpage_blocks p))
      → Searched l k ty n (first_page_block z me l k ty n)
  unfolding first_page_block
  first_page_block-Searched [] n good = not_found refl (λ p mem. cc)
  first_page_block-Searched (spb ∷ rest) n good =
      go (allocate_page_block (n.superpage_blocks spb) k ty)
        (allocate_page_block-Given (n.superpage_blocks spb) k ty (good spb (rw (same_key spb) refl))
          pos used)
        (first_page_block-Searched rest n (λ p mem. good p (in_rest (p == spb) mem)))
    where
      in_rest : (a : Bool) {b : Bool} → b ≡ true → (a || b) ≡ true
      in_rest true h = refl
      in_rest false h = h

      go :
          (r : Option ℕ × SuperpageBlock)
          → Given (n.superpage_blocks spb) k ty r
          → Searched rest k ty n (first_page_block z me rest k ty n)
          → Searched (spb ∷ rest) k ty n (turn spb rest n r)
      go (none, s) (nothing e full) ih =
          subst (λ m. Searched (spb ∷ rest) k ty n (first_page_block z me rest k ty m))
            {y = set_block n spb s} (sym (set_same n spb s e)) (later spb rest n full _ ih)
      go (some pbh, s) g ih =
          found (rw (same_key spb) refl)
            (subst (λ b. Given (n.superpage_blocks spb) k ty (some pbh, b))
              {y = (set_block n spb s).superpage_blocks spb} (rw (same_key spb) refl) g)
            (λ q ne. rw ne refl) refl refl
