-- ===== src/IntrusiveList/Ring/Links.antt =====
-- Chains of linked elements, and what a write elsewhere leaves of them.
use givy.Base.{ℕ, ◌≡◌, ◌∙◌, arith, Bool, true, false, ◌||◌, List, [], ◌∷◌, ◌++◌, ◌==◌}
use givy.IntrusiveList.Ring.{Heap}

abbrev pub has : ℕ → List ℕ → Bool
has a [] = false
has a (x ∷ xs) = (a == x) || has a xs

abbrev pub Distinct : List ℕ → Type 0
Distinct [] = ◌≡◌ {A = Bool} true true
Distinct (x ∷ xs) = (has x xs ≡ false) × Distinct xs

-- From `a` over `xs` to `b`, each linked to the one before it and back.
abbrev pub Links : Heap → ℕ → List ℕ → ℕ → Type 0
Links h a [] b = (h.next a ≡ b) × (h.prev b ≡ a)
Links h a (x ∷ xs) b = (h.next a ≡ x) × (h.prev x ≡ a) × Links h x xs b

pub Links-append :
    (h : Heap) (a : ℕ) (xs : List ℕ) (x : ℕ) (ys : List ℕ) (b : ℕ)
    → Links h a xs x
    → Links h x ys b
    → Links h a (xs ++ x ∷ ys) b
Links-append h a [] x ys b l m = (l.0, l.1, m)
Links-append h a (y ∷ xs) x ys b l m = (l.0, l.1, Links-append h y xs x ys b l.2 m)

pub Links-split :
    (h : Heap) (a : ℕ) (xs : List ℕ) (x : ℕ) (ys : List ℕ) (b : ℕ)
    → Links h a (xs ++ x ∷ ys) b
    → Links h a xs x × Links h x ys b
Links-split h a [] x ys b l = ((l.0, l.1), l.2)
Links-split h a (y ∷ xs) x ys b l = let r = Links-split h y xs x ys b l.2 in ((l.0, l.1, r.0), r.1)

-- The links of a chain are read at `a` and `xs` (next), and at `xs` and `b` (prev).
pub Links-frame :
    (h g : Heap) (a : ℕ) (xs : List ℕ) (b : ℕ)
    → ((p : ℕ) → has p (a ∷ xs) ≡ true → g.next p ≡ h.next p)
    → ((p : ℕ) → has p (b ∷ xs) ≡ true → g.prev p ≡ h.prev p)
    → Links h a xs b
    → Links g a xs b
Links-frame h g a [] b n p l = (n a (ground arith) ∙ l.0, p b (ground arith) ∙ l.1)
Links-frame h g a (x ∷ xs) b n p l = (
  n a (ground arith) ∙ l.0,
  p x (ground arith) ∙ l.1,
  Links-frame h g x xs b (λ q i. n q (ground arith)) (λ q i. p q (ground arith)) l.2,
)
