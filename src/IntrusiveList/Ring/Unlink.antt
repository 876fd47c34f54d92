-- ===== src/IntrusiveList/Ring/Unlink.antt =====
-- Insertion at an element and its removal: the ring is read from that element instead of its root.
use mathlib.Core.Path.{subst}
use givy.Base.{length, ℕ, ◌≡◌, refl, sym, arith, List, [], ◌∷◌, ◌++◌, ◌==◌}
use givy.IntrusiveList.Ring.{
  Heap, cross, extract, insert_after, insert_before, push_front, push_back, pop_front, pop_back,
  unlink, front, back, empty,
}
use givy.IntrusiveList.Ring.Links.{Links-append, Links-split}
use givy.IntrusiveList.Ring.Rotate.{has-append, Distinct-rotate, append_assoc, append_nil}
use givy.IntrusiveList.Ring.Ends.{has-last, Links-redirect}
use givy.IntrusiveList.Ring.Refine.{IsRing, Alone, Apart, push_front-IsRing, push_back-IsRing}

pub IsRing-rotate :
    (h : Heap) (root e : ℕ) (us vs : List ℕ)
    → IsRing h root (us ++ e ∷ vs)
    → IsRing h e (vs ++ root ∷ us)
IsRing-rotate h root e us vs r =
    let s = Links-split h root us e vs root r.0 in
    (Links-append h e vs root us e s.1 s.0, Distinct-rotate (root ∷ us) (e ∷ vs) r.1)

Apart-rotate :
    (t root e : ℕ) (us vs : List ℕ) → Apart t root (us ++ e ∷ vs) → Apart t e (vs ++ root ∷ us)
Apart-rotate t root e us vs f =
    let p = has-append t us (e ∷ vs) in let q = has-append t vs (root ∷ us) in ground arith

pub insert_after-IsRing :
    (h : Heap) (root t e : ℕ) (us vs : List ℕ)
    → IsRing h root (us ++ e ∷ vs)
    → Alone h t
    → Apart t root (us ++ e ∷ vs)
    → IsRing (insert_after h t e) root (us ++ e ∷ t ∷ vs)
unfolding push_front
insert_after-IsRing h root t e us vs r s f =
    let p =
      push_front-IsRing h e t (vs ++ root ∷ us) (IsRing-rotate h root e us vs r) s
        (Apart-rotate t root e us vs f) in
    IsRing-rotate (insert_after h t e) e root (t ∷ vs) us p

-- Inserting an element that is alone, and not in the list, before an element of the list puts it there
-- and keeps the others in their order.
pub insert_before-IsRing :
    (h : Heap) (root t e : ℕ) (us vs : List ℕ)
    → IsRing h root (us ++ e ∷ vs)
    → Alone h t
    → Apart t root (us ++ e ∷ vs)
    → IsRing (insert_before h t e) root (us ++ t ∷ e ∷ vs)
unfolding push_back
insert_before-IsRing h root t e us vs r s f =
    let g = insert_before h t e in
    let p =
      push_back-IsRing h e t (vs ++ root ∷ us) (IsRing-rotate h root e us vs r) s
        (Apart-rotate t root e us vs f) in
    let q =
      subst (λ l. IsRing g e l) {y = vs ++ root ∷ (us ++ t ∷ [])}
        (append_assoc vs (root ∷ us) (t ∷ [])) p in
    subst (λ l. IsRing g root l) {y = us ++ t ∷ e ∷ vs} (append_assoc us (t ∷ []) (e ∷ vs))
      (IsRing-rotate g e root vs (us ++ t ∷ []) q)

extract-IsRing :
    (h : Heap) (e y : ℕ) (zs : List ℕ)
    → IsRing h e (y ∷ zs)
    → IsRing (extract h e) y zs × Alone (extract h e) e
unfolding extract cross
extract-IsRing h e y zs r =
    let g = extract h e in
    let n = r.0.0 in
    let p = r.0.1 in
    let d = r.1.0 in
    let m = has-last h y zs e r.0.2 in
    let c =
      Links-redirect h g y zs e y r.1.1 (λ q i j. ground arith)
        (λ q i. let k = r.1.1.0 in ground arith) (ground arith) (ground arith) r.0.2 in
    ((c, r.1.1), (ground arith, ground arith))

-- Unlinking an element of a list, wherever it stands, leaves the other elements in their order, and the
-- element alone.
pub unlink-IsRing :
    (h : Heap) (root e : ℕ) (us vs : List ℕ)
    → IsRing h root (us ++ e ∷ vs)
    → IsRing (unlink h e) root (us ++ vs) × Alone (unlink h e) e
unfolding unlink
unlink-IsRing h root e us [] r =
    let x = extract-IsRing h e root us (IsRing-rotate h root e us [] r) in
    (subst (λ l. IsRing (unlink h e) root l) {y = us ++ []} (sym (append_nil us)) x.0, x.1)
unlink-IsRing h root e us (v ∷ vs) r =
    let x = extract-IsRing h e v (vs ++ root ∷ us) (IsRing-rotate h root e us (v ∷ vs) r) in
    (IsRing-rotate (unlink h e) v root vs us x.0, x.1)

pub pop_front-IsRing :
    (h : Heap) (root x : ℕ) (xs : List ℕ)
    → IsRing h root (x ∷ xs)
    → (front root h ≡ x) × IsRing (pop_front root h) root xs × Alone (pop_front root h) x
unfolding pop_front unlink
pop_front-IsRing h root x xs r =
    let u = unlink-IsRing h root x [] xs r in
    subst (λ e. (e ≡ x) × IsRing (extract h e) root xs × Alone (extract h e) x) {y = h.next root}
      (sym r.0.0) (refl, u.0, u.1)

pub pop_back-IsRing :
    (h : Heap) (root x : ℕ) (xs : List ℕ)
    → IsRing h root (xs ++ x ∷ [])
    → (back root h ≡ x) × IsRing (pop_back root h) root xs × Alone (pop_back root h) x
unfolding pop_back unlink
pop_back-IsRing h root x xs r =
    let u = unlink-IsRing h root x xs [] r in
    let l = Links-split h root xs x [] root r.0 in
    let v = subst (λ k. IsRing (unlink h x) root k) {y = xs} (append_nil xs) u.0 in
    subst (λ e. (e ≡ x) × IsRing (extract h e) root xs × Alone (extract h e) x) {y = h.prev root}
      (sym l.1.1) (refl, v, u.1)

pub empty-IsRing :
    (h : Heap) (root : ℕ) (xs : List ℕ) → IsRing h root xs → empty root h ≡ (length xs == 0)
empty-IsRing h root [] r = let n = r.0.0 in ground arith
empty-IsRing h root (x ∷ xs) r = let n = r.0.0 in let d = r.1.0 in ground arith
