-- ===== src/IntrusiveList/Ring/Rotate.antt =====
-- Lists without a repetition, and their rotations.
use givy.Base.{ℕ, ◌≡◌, refl, sym, ap, arith, false, ◌||◌, List, [], ◌∷◌, ◌++◌}
use mathlib.Core.Path.{subst}
use givy.IntrusiveList.Ring.Links.{has, Distinct}

pub has-append : (a : ℕ) (xs ys : List ℕ) → has a (xs ++ ys) ≡ has a xs || has a ys
has-append a [] ys = refl
has-append a (x ∷ xs) ys = let r = has-append a xs ys in ground arith

pub Distinct-snoc : (x : ℕ) (xs : List ℕ) → has x xs ≡ false → Distinct xs → Distinct (xs ++ x ∷ [])
Distinct-snoc x [] h d = (refl, refl)
Distinct-snoc x (y ∷ xs) h d =
    let r = Distinct-snoc x xs (ground arith) d.1 in
    let p = has-append y xs (x ∷ []) in (ground arith, r)

pub append_assoc : (xs ys zs : List ℕ) → (xs ++ ys) ++ zs ≡ xs ++ (ys ++ zs)
append_assoc [] ys zs = refl
append_assoc (x ∷ xs) ys zs = ap (λ r. x ∷ r) (append_assoc xs ys zs)

pub append_nil : (xs : List ℕ) → xs ++ [] ≡ xs
append_nil [] = refl
append_nil (x ∷ xs) = ap (λ r. x ∷ r) (append_nil xs)

pub Distinct-rotate : (us vs : List ℕ) → Distinct (us ++ vs) → Distinct (vs ++ us)
Distinct-rotate [] vs d = subst (λ l. Distinct l) {y = vs ++ []} (sym (append_nil vs)) d
Distinct-rotate (u ∷ us) vs d =
    let s = Distinct-snoc u (us ++ vs) d.0 d.1 in
    let s2 = subst (λ l. Distinct l) {y = us ++ (vs ++ u ∷ [])} (append_assoc us vs (u ∷ [])) s in
    let r = Distinct-rotate us (vs ++ u ∷ []) s2 in
    subst (λ l. Distinct l) {y = vs ++ u ∷ us} (append_assoc vs (u ∷ []) us) r

pub Distinct-drop : (us vs : List ℕ) → Distinct (us ++ vs) → Distinct vs
Distinct-drop [] vs d = d
Distinct-drop (u ∷ us) vs d = Distinct-drop us vs d.1
