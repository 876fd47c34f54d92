-- ===== src/QuickList/Empty.antt =====
-- The empty quick list of src/intrusive_list.h is valid and holds nothing.
use givy.Base.{
  ℕ, zero, suc, ◌≡◌, refl, ap, arith, List, [], get_or, get_or-replicate, length-replicate,
  replicate,
}
use givy.QuickList.{empty_quick_list}
use givy.QuickList.Laws.{held, is, weight, weight_slots, nil, IsValid}

weight_slots-empty : (f : ℕ → ℕ) (n : ℕ) → weight_slots f (replicate n []) ≡ 0
weight_slots-empty f zero = refl
weight_slots-empty f (suc n) = omega (arith, weight_slots-empty f n)

no_element : (f : ℕ → ℕ) (n i : ℕ) → weight f (get_or (replicate n []) i []) ≡ 0
no_element f n i = ap (weight f) (get_or-replicate {A = List ℕ} n i [])

pub empty-IsValid : (n : ℕ) (size_of : ℕ → ℕ) → IsValid n size_of (empty_quick_list n)
unfolding empty_quick_list
empty-IsValid n size_of = record {
  slots = length-replicate n [];
  exact = λ i e lt h. absurd (omega (arith, no_element (is e) n i));
  bigger = λ e h. absurd (omega arith);
  sorted = nil;
  stored = omega (arith, weight_slots-empty size_of n);
}

pub empty-held : (n : ℕ) (f : ℕ → ℕ) → held f (empty_quick_list n) ≡ 0
unfolding empty_quick_list
empty-held n f = omega (arith, weight_slots-empty f n)
