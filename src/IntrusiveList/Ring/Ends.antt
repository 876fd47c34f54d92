-- ===== src/IntrusiveList/Ring/Ends.antt =====
-- The last link of a chain turned to another end.
use givy.Base.{ℕ, ◌≡◌, ◌≢◌, sym, ap, ◌∙◌, arith, true, List, [], ◌∷◌}
use givy.IntrusiveList.Ring.{Heap}
use givy.IntrusiveList.Ring.Links.{has, Distinct, Links}

-- The element before the end of a chain is of the chain.
pub has-last :
    (h : Heap) (a : ℕ) (xs : List ℕ) (b : ℕ) → Links h a xs b → has (h.prev b) (a ∷ xs) ≡ true
has-last h a [] b l = let e = l.1 in ground arith
has-last h a (x ∷ xs) b l = let r = has-last h x xs b l.2 in ground arith

pub Links-redirect :
    (h g : Heap) (a : ℕ) (xs : List ℕ) (b c : ℕ)
    → Distinct (a ∷ xs)
    → ((p : ℕ) → has p (a ∷ xs) ≡ true → p ≢ h.prev b → g.next p ≡ h.next p)
    → ((p : ℕ) → has p xs ≡ true → g.prev p ≡ h.prev p)
    → g.next (h.prev b) ≡ c
    → g.prev c ≡ h.prev b
    → Links h a xs b
    → Links g a xs c
Links-redirect h g a [] b c d n p last first l = (ap (λ q. g.next q) (sym l.1) ∙ last, first ∙ l.1)
Links-redirect h g a (x ∷ xs) b c d n p last first l =
    let r = has-last h x xs b l.2 in
    let apart : a ≢ h.prev b = λ e. let j = d.0 in ground arith in
    (
      n a (ground arith) apart ∙ l.0,
      p x (ground arith) ∙ l.1,
      Links-redirect h g x xs b c d.1 (λ q i j. n q (ground arith) j) (λ q i. p q (ground arith))
          last first l.2,
    )
