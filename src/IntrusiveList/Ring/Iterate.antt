-- ===== src/IntrusiveList/Ring/Iterate.antt =====
-- The iterators of `List` in src/intrusive_list.h.
use givy.Base.{
  ℕ, zero, suc, ◌<◌, ◌≡◌, refl, ap, arith, true, false, List, [], ◌∷◌, length, ◌==◌, Bool-cases,
  inl, inr, ==→eq,
}
use givy.IntrusiveList.Ring.{Heap, increment, decrement, begin, iterate}
use givy.IntrusiveList.Ring.Links.{has, Links}
use givy.IntrusiveList.Ring.Refine.{IsRing}

-- From the element `current` over `xs` to `root`, which is none of them.
abbrev pub Walk : Heap → ℕ → ℕ → List ℕ → Type 0
Walk h root current [] = current ≡ root
Walk h root current (x ∷ xs) = (current ≡ x) × ((x == root) ≡ false) × Walk h root (h.next x) xs

Links-Walk :
    (h : Heap) (a : ℕ) (xs : List ℕ) (root : ℕ)
    → Links h a xs root
    → has root xs ≡ false
    → Walk h root (h.next a) xs
Links-Walk h a [] root l out = l.0
Links-Walk h a (x ∷ xs) root l out = (l.0, ground arith, Links-Walk h x xs root l.2 (ground arith))

pub IsRing-Walk :
    (h : Heap) (root : ℕ) (xs : List ℕ) → IsRing h root xs → Walk h root (begin root h) xs
IsRing-Walk h root xs r = Links-Walk h root xs root r.0 r.1.0

pub iterate-Walk :
    (fuel : ℕ) (h : Heap) (root current : ℕ) (xs : List ℕ)
    → Walk h root current xs
    → length xs < fuel
    → iterate root fuel h current ≡ xs
unfolding iterate
iterate-Walk zero h root current xs w lt = absurd (omega arith)
iterate-Walk (suc fuel) h root current [] w lt =
    let e : (current == root) ≡ true = ground (arith, w) in rw e refl
iterate-Walk (suc fuel) h root current (x ∷ xs) w lt =
    rw (w.0, w.1) (ap (λ r. x ∷ r) (iterate-Walk fuel h root (h.next x) xs w.2 (omega arith)))

-- A loop from `begin` to `end` sees the elements of the list in order, and ends after one step more
-- than there are elements.
pub iterate-IsRing :
    (fuel : ℕ) (h : Heap) (root : ℕ) (xs : List ℕ)
    → IsRing h root xs
    → length xs < fuel
    → iterate root fuel h (begin root h) ≡ xs
iterate-IsRing fuel h root xs r lt =
    iterate-Walk fuel h root (begin root h) xs (IsRing-Walk h root xs r) lt

back_and_forth :
    (h : Heap) (a : ℕ) (xs : List ℕ) (b p : ℕ)
    → Links h a xs b
    → has p (a ∷ xs) ≡ true
    → decrement h (increment h p) ≡ p
back_and_forth h a [] b p l i = let e : p ≡ a = ==→eq _ _ (ground arith) in rw (e, l.0) l.1
back_and_forth h a (x ∷ xs) b p l i = elim (Bool-cases (p == a)) [
  | inl first ↦ let e : p ≡ a = ==→eq _ _ first in rw (e, l.0) l.1
  | inr later ↦ back_and_forth h x xs b p l.2 (ground arith)
]

-- From any place of the list, `end` included, a step forth and a step back lead to the same place.
pub decrement-increment :
    (h : Heap) (root : ℕ) (xs : List ℕ) (p : ℕ)
    → IsRing h root xs
    → has p (root ∷ xs) ≡ true
    → decrement h (increment h p) ≡ p
decrement-increment h root xs p r i = back_and_forth h root xs root p r.0 i
