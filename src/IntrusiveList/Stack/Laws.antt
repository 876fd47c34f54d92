-- ===== src/IntrusiveList/Stack/Laws.antt =====
-- The lists of src/intrusive_list.h with one link per element, as sequences of elements.
use givy.Base.{
  ℕ, zero, suc, ◌<◌, ◌≡◌, ◌≢◌, refl, ap, arith, true, false, List, [], ◌∷◌, length, ◌==◌,
}
use givy.IntrusiveList.Ring.{update}
use givy.IntrusiveList.Ring.Links.{has}
use givy.IntrusiveList.Stack.{
  Next, push_front, iterate, ForwardList, find_tail, from_stack, forward_pop_front,
  forward_push_front,
}

-- From `p` over `xs` to nullptr.
abbrev pub Chain : Next → ℕ → List ℕ → Type 0
Chain next p [] = p ≡ 0
Chain next p (x ∷ xs) = (p ≡ x) × (x ≢ 0) × Chain next (next x) xs

pub Chain-frame :
    (next g : Next) (p : ℕ) (xs : List ℕ)
    → ((a : ℕ) → has a xs ≡ true → g a ≡ next a)
    → Chain next p xs
    → Chain g p xs
Chain-frame next g p [] same c = c
Chain-frame next g p (x ∷ xs) same c = (
  c.0,
  c.1,
  rw (same x (ground arith)) (Chain-frame next g (next x) xs (λ a i. same a (ground arith)) c.2),
)

pub Chain-update :
    (next : Next) (t v p : ℕ) (xs : List ℕ)
    → has t xs ≡ false
    → Chain next p xs
    → Chain (update next t v) p xs
Chain-update next t v p xs out c = Chain-frame next (update next t v) p xs (λ a i. ground arith) c

-- Pushing an element that is not nullptr and not in the list puts it before the others.
pub push_front-Chain :
    (next : Next) (m_head t : ℕ) (xs : List ℕ)
    → Chain next m_head xs
    → t ≢ 0
    → has t xs ≡ false
    → Chain (push_front next m_head t).0 (push_front next m_head t).1 (t ∷ xs)
unfolding push_front
push_front-Chain next m_head t xs c real out =
    let here : update next t m_head t ≡ m_head = ground arith in
    (refl, real, rw here (Chain-update next t m_head m_head xs out c))

-- An iteration sees the elements of the list, in order, when it may take as many steps.
pub iterate-Chain :
    (fuel : ℕ) (next : Next) (m_head : ℕ) (xs : List ℕ)
    → Chain next m_head xs
    → length xs < fuel
    → iterate fuel next m_head ≡ xs
iterate-Chain zero next m_head xs c lt = absurd (omega arith)
iterate-Chain (suc fuel) next m_head [] c lt = rw c refl
iterate-Chain (suc fuel) next m_head (x ∷ xs) c lt =
    let no : (x == 0) ≡ false = let r = c.1 in ground arith in
    rw (c.0, no) (ap (λ r. x ∷ r) (iterate-Chain fuel next (next x) xs c.2 (omega arith)))

abbrev pub last : ℕ → List ℕ → ℕ
last d [] = d
last d (x ∷ xs) = last x xs

-- The list and its tail.
abbrev pub IsForward : Next → ForwardList → List ℕ → Type 0
IsForward next l xs = Chain next l.m_head xs × (l.m_tail ≡ last 0 xs)

find_tail-last :
    (fuel : ℕ) (next : Next) (it current : ℕ) (xs : List ℕ)
    → Chain next current xs
    → length xs < fuel
    → find_tail fuel next it current ≡ last it xs
unfolding find_tail
find_tail-last zero next it current xs c lt = absurd (omega arith)
find_tail-last (suc fuel) next it current [] c lt = rw c refl
find_tail-last (suc fuel) next it current (x ∷ xs) c lt =
    let no : (x == 0) ≡ false = let r = c.1 in ground arith in
    rw (c.0, no) (find_tail-last fuel next x (next x) xs c.2 (omega arith))

-- A list built from a stack has its elements, and their last as tail.
pub from_stack-IsForward :
    (fuel : ℕ) (next : Next) (stack : ℕ) (xs : List ℕ)
    → Chain next stack xs
    → length xs < fuel
    → IsForward next (from_stack fuel next stack) xs
unfolding from_stack
from_stack-IsForward fuel next stack [] c lt = rw c (refl, refl)
from_stack-IsForward fuel next stack (x ∷ xs) c lt =
    let no : (x == 0) ≡ false = let r = c.1 in ground arith in
    let t = find_tail-last fuel next 0 x (x ∷ xs) (refl, c.1, c.2) lt in
    rw (c.0, no) ((refl, c.1, c.2), t)

last_real : (next : Next) (p x : ℕ) (xs : List ℕ) → Chain next p (x ∷ xs) → last x xs ≢ 0
last_real next p x [] c = c.1
last_real next p x (y ∷ xs) c = last_real next (next x) y xs c.2

pub forward_push_front-IsForward :
    (next : Next) (l : ForwardList) (t : ℕ) (xs : List ℕ)
    → IsForward next l xs
    → t ≢ 0
    → has t xs ≡ false
    → IsForward (forward_push_front next l t).0 (forward_push_front next l t).1 (t ∷ xs)
unfolding forward_push_front push_front
forward_push_front-IsForward next l t [] f real out =
    let e = f.1 in (push_front-Chain next l.m_head t [] f.0 real out, ground arith)
forward_push_front-IsForward next l t (x ∷ xs) f real out =
    let e = f.1 in
    let r = last_real next l.m_head x xs f.0 in
    (push_front-Chain next l.m_head t (x ∷ xs) f.0 real out, ground arith)

pub forward_pop_front-IsForward :
    (next : Next) (l : ForwardList) (x : ℕ) (xs : List ℕ)
    → IsForward next l (x ∷ xs)
    → IsForward next (forward_pop_front next l) xs
unfolding forward_pop_front
forward_pop_front-IsForward next l x [] f =
    let e = f.0.0 in let n = f.0.2 in (ground arith, ground arith)
forward_pop_front-IsForward next l x (y ∷ xs) f =
    let e = f.0.0 in
    let n = f.0.2.0 in let t = f.1 in let r = f.0.2.1 in ((rw e n, f.0.2.1, f.0.2.2), ground arith)
