-- ===== src/QuickList/Find.antt =====
-- The two loops of `QuickList::take` of src/intrusive_list.h.
use mathlib.Core.Path.{subst}
use givy.Base.{
  ℕ, zero, suc, ◌+◌, ◌-◌, ◌≤◌, ◌<◌, ◌≡◌, refl, ap, arith, true, false, List, [], ◌∷◌, Option, none,
  some, get_or, leb, ◌==◌, Bool-cases, inl, inr, ==→eq, ==→ne,
}
use givy.QuickList.{is_empty, front, pop_front, find_slot, take_bigger}
use givy.QuickList.Laws.{weight, is, head_or_tail, IsSorted, cons, leb→le, leb→lt}

-- The first slot from `from` on that is not empty.
pub data SlotFound (slots : List (List ℕ)) (from left : ℕ) : Option ℕ → Type 0 where
  slot :
      {n : ℕ}
      → from ≤ n
      → n < from + left
      → is_empty (get_or slots (n - 1) []) ≡ false
      → ((j : ℕ) (f : ℕ → ℕ) → from ≤ j → j < n → weight f (get_or slots (j - 1) []) ≡ 0)
      → SlotFound slots from left (some n)
  no_slot :
      ((j : ℕ) (f : ℕ → ℕ) → from ≤ j → j < from + left → weight f (get_or slots (j - 1) []) ≡ 0)
      → SlotFound slots from left none

weight-is_empty : (f : ℕ → ℕ) (xs : List ℕ) → is_empty xs ≡ true → weight f xs ≡ 0
weight-is_empty f [] h = refl
weight-is_empty f (x ∷ xs) h = cc

pub weight-front :
    (f : ℕ → ℕ) (xs : List ℕ)
    → is_empty xs ≡ false
    → weight f xs ≡ f (front xs 0) + weight f (pop_front xs)
weight-front f [] h = cc
weight-front f (x ∷ xs) h = refl

later_slot :
    (slots : List (List ℕ)) (from left : ℕ) (r : Option ℕ)
    → is_empty (get_or slots (from - 1) []) ≡ true
    → SlotFound slots (from + 1) left r
    → SlotFound slots from (suc left) r
later_slot slots from left r e (slot lo hi some_one before) =
    slot (omega arith) (omega arith) some_one λ j f le lt. elim (Bool-cases (from == j)) [
      | inl here ↦
          subst (λ k. weight f (get_or slots (k - 1) []) ≡ 0) (==→eq _ _ here)
            (weight-is_empty f _ e)
      | inr later ↦ before j f (omega (arith, ==→ne _ _ later)) lt
    ]
later_slot slots from left r e (no_slot all) = no_slot λ j f le lt. elim (Bool-cases (from == j)) [
  | inl here ↦
      subst (λ k. weight f (get_or slots (k - 1) []) ≡ 0) (==→eq _ _ here) (weight-is_empty f _ e)
  | inr later ↦ all j f (omega (arith, ==→ne _ _ later)) (omega arith)
]

module _ (slot_nb : ℕ) (size_of : ℕ → ℕ) where
  pub find_slot-SlotFound :
      (slots : List (List ℕ)) (left n : ℕ)
      → SlotFound slots n left (find_slot slot_nb size_of slots left n)
  unfolding find_slot
  find_slot-SlotFound slots zero n = no_slot λ j f lo hi. absurd (omega arith)
  find_slot-SlotFound slots (suc left) n = elim (Bool-cases (is_empty (get_or slots (n - 1) []))) [
    | inl nothing ↦
        rw nothing (later_slot slots n left _ nothing (find_slot-SlotFound slots left (n + 1)))
    | inr something ↦
        rw something (slot (omega arith) (omega arith) something λ j f lo hi. absurd (omega arith))
  ]

  -- The first element of the sorted list that is large enough, with the list without it.
  pub data Pulled (min_sz : ℕ) (ts : List ℕ) : Option (ℕ × List ℕ) → Type 0 where
    pulled :
        {r : ℕ} {ts' : List ℕ}
        → min_sz ≤ size_of r
        → ((f : ℕ → ℕ) → weight f ts ≡ f r + weight f ts')
        → IsSorted slot_nb size_of ts'
        → ((e : ℕ) → 0 < weight (is e) ts → min_sz ≤ size_of e → size_of r ≤ size_of e)
        → Pulled min_sz ts (some (r, ts'))
    nothing_fits : ((e : ℕ) → 0 < weight (is e) ts → size_of e < min_sz) → Pulled min_sz ts none

  Pulled-cons :
      (min_sz t : ℕ) (ts : List ℕ) (r : Option (ℕ × List ℕ))
      → size_of t < min_sz
      → ((e : ℕ) → 0 < weight (is e) ts → size_of t ≤ size_of e)
      → Pulled min_sz ts r
      → Pulled min_sz (t ∷ ts) (elim r [ none ↦ none | some found ↦ some (found.0, t ∷ found.1) ])
  Pulled-cons min_sz t ts r small least (pulled {r = x} {ts'} fits parts sorted best) =
      pulled fits (λ f. omega (arith, parts f))
        (cons (λ e h. least e (omega (arith, parts (is e)))) sorted)
        (λ e h le. elim (head_or_tail e t (weight (is e) ts) (omega arith)) [
          | inl same ↦ absurd (omega (arith, ap size_of same))
          | inr tail ↦ best e tail le
        ])
  Pulled-cons min_sz t ts r small least (nothing_fits all) = nothing_fits λ e h.
      elim (head_or_tail e t (weight (is e) ts) (omega arith)) [
        | inl same ↦ omega (arith, ap size_of same)
        | inr tail ↦ all e tail
      ]

  pub take_bigger-Pulled :
      (min_sz : ℕ) (ts : List ℕ)
      → IsSorted slot_nb size_of ts
      → Pulled min_sz ts (take_bigger slot_nb size_of min_sz ts)
  unfolding take_bigger
  take_bigger-Pulled min_sz [] s = nothing_fits λ e h. absurd (omega arith)
  take_bigger-Pulled min_sz (t ∷ ts) (cons least s) = elim (Bool-cases (leb min_sz (size_of t))) [
    | inl fits ↦ rw fits (
        pulled (leb→le _ _ fits) (λ f. refl) s
          λ e h le. elim (head_or_tail e t (weight (is e) ts) (omega arith)) [
            | inl same ↦ omega (arith, ap size_of same)
            | inr tail ↦ least e tail
          ])
    | inr small ↦
        rw small
          (Pulled-cons min_sz t ts _ (leb→lt _ _ small) least (take_bigger-Pulled min_sz ts s))
  ]
