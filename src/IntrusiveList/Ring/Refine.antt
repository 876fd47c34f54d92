-- ===== src/IntrusiveList/Ring/Refine.antt =====
-- The operations of `List` on the chain of a ring, as operations on a sequence of elements.
use givy.Base.{ℕ, ◌≡◌, refl, arith, false, List, [], ◌∷◌, ◌++◌}
use givy.IntrusiveList.Ring.{Heap, cross, insert_after, insert_before, push_front, push_back}
use givy.IntrusiveList.Ring.Links.{has, Distinct, Links, Links-append, Links-frame}
use givy.IntrusiveList.Ring.Rotate.{Distinct-snoc}
use givy.IntrusiveList.Ring.Ends.{has-last, Links-redirect}

-- The elements `xs`, in this order, are those of the list that has `root`.
abbrev pub IsRing : Heap → ℕ → List ℕ → Type 0
IsRing h root xs = Links h root xs root × Distinct (root ∷ xs)

-- A singleton.
abbrev pub Alone : Heap → ℕ → Type 0
Alone h t = (h.next t ≡ t) × (h.prev t ≡ t)

abbrev pub Apart : ℕ → ℕ → List ℕ → Type 0
Apart t root xs = has t (root ∷ xs) ≡ false

pub push_front-IsRing :
    (h : Heap) (root t : ℕ) (xs : List ℕ)
    → IsRing h root xs
    → Alone h t
    → Apart t root xs
    → IsRing (push_front root h t) root (t ∷ xs)
unfolding push_front insert_after cross
push_front-IsRing h root t [] r s f =
    let n = r.0.0 in
    let p = r.0.1 in
    let sn = s.0 in
    let sp = s.1 in
    ((ground arith, ground arith, (ground arith, ground arith)), (ground arith, (refl, refl)))
push_front-IsRing h root t (x ∷ xs) r s f =
    let g = cross h root t in
    let n = r.0.0 in
    let p = r.0.1 in
    let sn = s.0 in
    let sp = s.1 in
    let d = r.1.0 in
    let e = r.1.1.0 in
    (
      (
        ground arith,
        ground arith,
        (
          ground arith,
          ground arith,
          Links-frame h g x xs root (λ q i. ground arith) (λ q i. ground arith) r.0.2,
        ),
      ),
      (ground arith, (ground arith, r.1.1)),
    )

pub push_back-IsRing :
    (h : Heap) (root t : ℕ) (xs : List ℕ)
    → IsRing h root xs
    → Alone h t
    → Apart t root xs
    → IsRing (push_back root h t) root (xs ++ t ∷ [])
unfolding push_back insert_before cross
push_back-IsRing h root t xs r s f =
    let g = cross h t root in
    let m = has-last h root xs root r.0 in
    let sn = s.0 in
    let sp = s.1 in
    let d = r.1.0 in
    let c =
      Links-redirect h g root xs root t r.1 (λ q i j. ground arith) (λ q i. ground arith)
        (ground arith) (ground arith) r.0 in
    (
      Links-append g root xs t [] root c (ground arith, ground arith),
      Distinct-snoc t (root ∷ xs) f r.1,
    )
