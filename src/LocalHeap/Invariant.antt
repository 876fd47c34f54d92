-- ===== src/LocalHeap/Invariant.antt =====
-- The superpage blocks that the heaps of src/allocator.h own stay in order, whatever is allocated and
-- deallocated.
use mathlib.Core.Path.{subst}
use givy.Base.{
  ℕ, ◌≡◌, refl, sym, ap, ◌∙◌, arith, true, false, some, List, [], ◌∷◌, ◌++◌, length, ◌==◌,
  Bool-cases, inl, inr, ==→eq,
}
use givy.IntrusiveList.Ring.Links.{has}
use givy.Pointer.{Ptr}
use givy.Space.{superpage_page_nb}
use givy.SuperpageBlock.{MemoryType, SuperpageBlock}
use givy.SuperpageBlock.WellFormed.{IsGood}
use givy.SuperpageBlock.WellFormed.Given.{Given, given}
use givy.LocalHeap.{Sizes, Node, unlink_ptr}
use givy.LocalHeap.Search.{IsSameBut}
use givy.LocalHeap.Given.{IsHeap, PageBlockGiven, from_owned, from_fresh}

abbrev pub owned : Node → ℕ → List Ptr
owned n j = (n.heaps j).owned_superpage_blocks

-- Every superpage block that a heap owns is in order, and all memory has room for a table.
pub record IsNode (n : Node) : Type 0 where
  pub tables : (p : Ptr) → length (n.superpage_blocks p).pbh_table ≡ superpage_page_nb
  pub good : (j : ℕ) (p : Ptr) → has p (owned n j) ≡ true → IsGood (n.superpage_blocks p)

pub IsNode-IsHeap : (me : ℕ) (n : Node) → IsNode n → IsHeap me n
IsNode-IsHeap me n k = record { tables = k.tables; good = k.good me }

-- One superpage block changes and is good, and the heaps own no others than before but that one.
pub IsNode-change :
    (n n' : Node) (spb : Ptr)
    → IsNode n
    → IsGood (n'.superpage_blocks spb)
    → IsSameBut spb n n'
    → ((j : ℕ) (p : Ptr)
        → (p == spb) ≡ false
        → has p (owned n' j) ≡ true
        → has p (owned n j) ≡ true)
    → IsNode n'
IsNode-change n n' spb k good but mem = record {
  tables = λ p. elim (Bool-cases (p == spb)) [
    | inl own ↦
        subst (λ q. length (n'.superpage_blocks q).pbh_table ≡ superpage_page_nb)
          (sym (==→eq _ _ own)) good.whole
    | inr other ↦ ap (λ (b : SuperpageBlock). length b.pbh_table) (but p other) ∙ k.tables p
  ];
  good = λ j p h. elim (Bool-cases (p == spb)) [
    | inl own ↦ subst (λ q. IsGood (n'.superpage_blocks q)) (sym (==→eq _ _ own)) good
    | inr other ↦ subst (λ b. IsGood b) (sym (but p other)) (k.good j p (mem j p other h))
  ];
}

-- Nothing that the invariant is about changes, but that heaps may own fewer blocks.
pub IsNode-fewer :
    (n n' : Node)
    → IsNode n
    → n'.superpage_blocks ≡ n.superpage_blocks
    → ((j : ℕ) (p : Ptr) → has p (owned n' j) ≡ true → has p (owned n j) ≡ true)
    → IsNode n'
IsNode-fewer n n' k same mem = record {
  tables = λ p. ap (λ b. length (b p).pbh_table) same ∙ k.tables p;
  good = λ j p h.
      subst (λ b. IsGood (b p)) {y = n'.superpage_blocks} (sym same) (k.good j p (mem j p h));
}

pub has-snoc :
    (p q : ℕ) (l : List ℕ) → (p == q) ≡ false → has p (l ++ q ∷ []) ≡ true → has p l ≡ true
has-snoc p q [] ne h = ground arith
has-snoc p q (x ∷ l) ne h = elim (Bool-cases (p == x)) [
  | inl own ↦ rw own refl
  | inr other ↦ rw other (has-snoc p q l ne (ground arith))
]

pub has-unlink : (p q : ℕ) (l : List ℕ) → has p (unlink_ptr q l) ≡ true → has p l ≡ true
has-unlink p q [] h = h
has-unlink p q (x ∷ l) h = elim (Bool-cases (q == x)) [
  | inl gone ↦ elim (Bool-cases (p == x)) [
    | inl own ↦ rw own refl
    | inr other ↦ rw other (ground arith)
  ]
  | inr stays ↦ elim (Bool-cases (p == x)) [
    | inl own ↦ rw own refl
    | inr other ↦ rw other (has-unlink p q l (ground arith))
  ]
]

Given-IsGood :
    (s : SuperpageBlock) (k : ℕ) (ty : MemoryType) (p : ℕ) (s' : SuperpageBlock)
    → Given s k ty (some p, s')
    → IsGood s'
Given-IsGood s k ty p s' (given good same first room was types kept) = good

-- Giving out a page block keeps the superpage blocks of all heaps in order.
pub PageBlockGiven-IsNode :
    (z : Sizes) (me k : ℕ) (ty : MemoryType) (n : Node) (b : Ptr × ℕ) (n' : Node)
    → IsNode n
    → PageBlockGiven z me k ty n (some (b, n'))
    → IsNode n'
PageBlockGiven-IsNode z me k ty n b n' node (from_owned {spb} {pbh} mem g but heaps space) =
    IsNode-change n n' spb node (Given-IsGood _ k ty pbh _ g) but
      (λ j p ne h. subst (λ hs. has p (hs j).owned_superpage_blocks ≡ true) heaps h)
PageBlockGiven-IsNode z me k ty n b n' node (from_fresh {base} {pbh} e full g but own) =
    IsNode-change n n' base node (Given-IsGood _ k ty pbh _ g) but (λ j p ne h.
      elim (Bool-cases (j == me)) [
        | inl mine ↦
            let o : owned n' j ≡ owned n me ++ base ∷ [] = own j ∙ rw mine refl in
            let at : me ≡ j = sym (==→eq _ _ mine) in
            subst (λ i. has p (owned n i) ≡ true) at
              (has-snoc p base (owned n me) ne (subst (λ l. has p l ≡ true) o h))
        | inr other ↦
            let o : owned n' j ≡ owned n j = own j ∙ rw other refl in
            subst (λ l. has p l ≡ true) o h
      ])
