-- ===== src/QuickList/Sizes.antt =====
-- The quick list of src/intrusive_list.h when the sizes of its elements are read from another
-- table: only the sizes of the elements that it holds matter.
use givy.Base.{ℕ, ◌<◌, ◌≡◌, refl, arith, false, List, [], ◌∷◌, ◌==◌}
use givy.QuickList.{QuickList}
use givy.QuickList.Laws.{
  weight, weight_slots, held, is, weight_in_slot, IsSorted, nil, cons, IsValid,
}

pub is_self : (e : ℕ) → is e e ≡ 1
is_self e = ground arith

pub is_other : (e x : ℕ) → is e x ≡ 0 → (x == e) ≡ false
is_other e x h = ground arith

pub weight-same :
    (f g : ℕ → ℕ) (l : List ℕ)
    → ((e : ℕ) → 0 < weight (is e) l → f e ≡ g e)
    → weight f l ≡ weight g l
weight-same f g [] h = refl
weight-same f g (x ∷ l) h =
    let here = h x (omega (arith, is_self x)) in
    let rest = weight-same f g l (λ e pos. h e (omega (arith, pos))) in omega (arith, here, rest)

pub weight_slots-same :
    (f g : ℕ → ℕ) (s : List (List ℕ))
    → ((e : ℕ) → 0 < weight_slots (is e) s → f e ≡ g e)
    → weight_slots f s ≡ weight_slots g s
weight_slots-same f g [] h = refl
weight_slots-same f g (l ∷ s) h =
    let here = weight-same f g l (λ e pos. h e (omega (arith, pos))) in
    let rest = weight_slots-same f g s (λ e pos. h e (omega (arith, pos))) in
    omega (arith, here, rest)

pub held-same :
    (f g : ℕ → ℕ) (q : QuickList) → ((e : ℕ) → 0 < held (is e) q → f e ≡ g e) → held f q ≡ held g q
held-same f g q h =
    let slots = weight_slots-same f g q.exact_size_slots (λ e pos. h e (omega (arith, pos))) in
    let last = weight-same f g q.bigger_sizes (λ e pos. h e (omega (arith, pos))) in
    omega (arith, slots, last)

module _ (slot_nb : ℕ) (f g : ℕ → ℕ) where
  IsSorted-same :
      (l : List ℕ)
      → ((e : ℕ) → 0 < weight (is e) l → f e ≡ g e)
      → IsSorted slot_nb f l
      → IsSorted slot_nb g l
  IsSorted-same [] h s = nil
  IsSorted-same (t ∷ ts) h (cons least s) =
      cons
        (λ e pos.
          omega (arith, least e pos, h e (omega (arith, pos)), h t (omega (arith, is_self t))))
        (IsSorted-same ts (λ e pos. h e (omega (arith, pos))) s)

  pub IsValid-same :
      (q : QuickList)
      → ((e : ℕ) → 0 < held (is e) q → f e ≡ g e)
      → IsValid slot_nb f q
      → IsValid slot_nb g q
  IsValid-same q h v = record {
    slots = v.slots;
    exact = λ i e lt pos.
        let in_slots = weight_in_slot (is e) q.exact_size_slots i in
        omega (arith, v.exact i e lt pos, h e (omega (arith, pos, in_slots)));
    bigger = λ e pos. omega (arith, v.bigger e pos, h e (omega (arith, pos)));
    sorted = IsSorted-same q.bigger_sizes (λ e pos. h e (omega (arith, pos))) v.sorted;
    stored = omega (arith, v.stored, held-same f g q h);
  }
