-- ===== src/LocalHeap/Disown.antt =====
-- The destructor of `ThreadLocalHeap` in src/allocator.h gives up all superpage blocks.
use mathlib.Core.Bool.{true≢false}
use givy.Base.{
  ℕ, ◌≡◌, refl, sym, ap, ◌∙◌, arith, Bool, true, false, Option, none, List, [], ◌∷◌, ◌==◌,
  if◌then◌else◌, Bool-cases, inl, inr,
}
use givy.IntrusiveList.Ring.Links.{has}
use givy.Pointer.{Ptr}
use givy.SuperpageBlock.{disown}
use givy.Space.{superpage_page_nb}
use givy.LocalHeap.{Sizes, Node, set_block, set_owned, set_active, unlink_page_block, active}
use givy.LocalHeap.Interface.{small_page_blocks, remove_active, disown_all, destroy_heap}

same : (k : ℕ) → (k == k) ≡ true
same k = ground arith

owned-remove_active :
    (z : Sizes) (me : ℕ) (spb : Ptr) (l : List ℕ) (n : Node)
    → ((remove_active z me spb l n).heaps me).owned_superpage_blocks
      ≡ (n.heaps me).owned_superpage_blocks
owned-remove_active z me spb [] n = refl
owned-remove_active z me spb (i ∷ rest) n =
    let sc = (n.small_blocks spb i).sb_sizeclass in
    owned-remove_active z me spb rest
      (set_active n me sc (unlink_page_block (spb, i) (active n me sc)))
    ∙ rw (same me) refl

blocks-remove_active :
    (z : Sizes) (me : ℕ) (spb : Ptr) (l : List ℕ) (n : Node)
    → (remove_active z me spb l n).superpage_blocks ≡ n.superpage_blocks
blocks-remove_active z me spb [] n = refl
blocks-remove_active z me spb (i ∷ rest) n =
    let sc = (n.small_blocks spb i).sb_sizeclass in
    blocks-remove_active z me spb rest
      (set_active n me sc (unlink_page_block (spb, i) (active n me sc)))

-- One round of the loop.
abbrev round : Sizes → ℕ → Ptr → List Ptr → Node → Node
round z me spb rest n =
    let unlinked =
      remove_active z me spb (small_page_blocks superpage_page_nb n spb 0) (set_owned n me rest) in
    set_block unlinked spb (disown (unlinked.superpage_blocks spb))

owner-round :
    (z : Sizes) (me : ℕ) (spb p : Ptr) (rest : List Ptr) (n : Node)
    → ((round z me spb rest n).superpage_blocks p).owner
      ≡ (if p == spb then none else (n.superpage_blocks p).owner)
owner-round z me spb p rest n = elim (Bool-cases (p == spb)) [
  | inl e ↦ rw e refl
  | inr e ↦
      let b =
        blocks-remove_active z me spb (small_page_blocks superpage_page_nb n spb 0)
          (set_owned n me rest) in
      rw e (ap (λ f. (f p).owner) b)
]

none_either : (b : Bool) (o : Option ℕ) → o ≡ none → (if b then none else o) ≡ none
none_either true o e = refl
none_either false o e = e

stays_disowned :
    (z : Sizes) (me : ℕ) (l : List Ptr) (p : Ptr) (n : Node)
    → (n.superpage_blocks p).owner ≡ none
    → ((disown_all z me l n).superpage_blocks p).owner ≡ none
unfolding disown_all
stays_disowned z me [] p n e = e
stays_disowned z me (spb ∷ rest) p n e =
    stays_disowned z me rest p (round z me spb rest n)
      (owner-round z me spb p rest n ∙ none_either (p == spb) (n.superpage_blocks p).owner e)

disown_all-owner :
    (z : Sizes) (me : ℕ) (l : List Ptr) (p : Ptr) (n : Node)
    → has p l ≡ true
    → ((disown_all z me l n).superpage_blocks p).owner ≡ none
unfolding disown_all
disown_all-owner z me [] p n h = absurd (true≢false (sym h))
disown_all-owner z me (spb ∷ rest) p n h = elim (Bool-cases (p == spb)) [
  | inl e ↦
      stays_disowned z me rest p (round z me spb rest n) (owner-round z me spb p rest n ∙ rw e refl)
  | inr e ↦ disown_all-owner z me rest p (round z me spb rest n) (ground arith)
]

disown_all-owned :
    (z : Sizes) (me : ℕ) (l : List Ptr) (n : Node)
    → (n.heaps me).owned_superpage_blocks ≡ l
    → ((disown_all z me l n).heaps me).owned_superpage_blocks ≡ []
unfolding disown_all
disown_all-owned z me [] n e = e
disown_all-owned z me (spb ∷ rest) n e = disown_all-owned z me rest (round z me spb rest n) (
    owned-remove_active z me spb (small_page_blocks superpage_page_nb n spb 0) (set_owned n me rest)
    ∙ rw (same me) refl)

-- When a heap ends, it owns no superpage block, and no block that it owned has an owner, so that the
-- next heap that frees memory in the block can adopt it.
pub destroy_heap-owner :
    (z : Sizes) (me : ℕ) (p : Ptr) (n : Node)
    → has p (n.heaps me).owned_superpage_blocks ≡ true
    → (((destroy_heap z me n).superpage_blocks p).owner ≡ none)
      × (((destroy_heap z me n).heaps me).owned_superpage_blocks ≡ [])
destroy_heap-owner z me p n h = (
  disown_all-owner z me (n.heaps me).owned_superpage_blocks p n h,
  disown_all-owned z me (n.heaps me).owned_superpage_blocks n refl,
)
