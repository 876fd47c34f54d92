-- ===== src/QuickList/Laws.antt =====
-- The quick list of src/intrusive_list.h keeps its order, and `take` gives a best fit.
use mathlib.Core.Path.{subst}
use givy.Base.{
  ℕ, zero, suc, ◌+◌, ◌-◌, ◌≤◌, ◌<◌, ◌≡◌, ◌⊎◌, ap, ◌∙◌, arith, true, false, List, [], ◌∷◌, get_or,
  set, length, length-set, get_or-set_self, get_or-set_ne, leb, ltb, ◌==◌, if◌then◌else◌,
  Bool-cases, inl, inr, ltb→lt, ltb→le, ==→eq, ==→ne,
}
use givy.QuickList.{QuickList, insert_sorted, insert}

-- The sum of `f` over a list, and over the slots.
abbrev pub weight : (ℕ → ℕ) → List ℕ → ℕ
weight f [] = 0
weight f (x ∷ xs) = f x + weight f xs

abbrev pub weight_slots : (ℕ → ℕ) → List (List ℕ) → ℕ
weight_slots f [] = 0
weight_slots f (l ∷ ls) = weight f l + weight_slots f ls

abbrev pub held : (ℕ → ℕ) → QuickList → ℕ
held f q = weight_slots f q.exact_size_slots + weight f q.bigger_sizes

-- Counts the occurrences of `e`.
abbrev pub is : ℕ → ℕ → ℕ
is e x = if x == e then 1 else 0

pub weight_slots-set :
    (f : ℕ → ℕ) (s : List (List ℕ)) (i : ℕ) (l : List ℕ)
    → i < length s
    → weight_slots f (set s i l) + weight f (get_or s i []) ≡ weight_slots f s + weight f l
weight_slots-set f [] i l h = absurd (omega arith)
weight_slots-set f (x ∷ s) zero l h = omega arith
weight_slots-set f (x ∷ s) (suc i) l h = omega (arith, weight_slots-set f s i l (omega arith))

pub weight_in_slot :
    (f : ℕ → ℕ) (s : List (List ℕ)) (i : ℕ) → weight f (get_or s i []) ≤ weight_slots f s
weight_in_slot f [] i = omega arith
weight_in_slot f (x ∷ s) zero = omega arith
weight_in_slot f (x ∷ s) (suc i) = omega (arith, weight_in_slot f s i)

-- What is counted in the slots is counted in one of them.
pub some_slot :
    (f : ℕ → ℕ) (s : List (List ℕ))
    → 0 < weight_slots f s
    → (i : ℕ) × (i < length s) × (0 < weight f (get_or s i []))
some_slot f [] h = absurd (omega arith)
some_slot f (x ∷ s) h = elim (Bool-cases (ltb 0 (weight f x))) [
  | inl here ↦ (0, omega arith, ltb→lt _ _ here)
  | inr later ↦
      let r = some_slot f s (omega (arith, ltb→le _ _ later)) in (suc r.0, omega (arith, r.1), r.2)
]

pub head_or_tail : (k x n : ℕ) → 0 < n + is k x → (x ≡ k) ⊎ (0 < n)
head_or_tail k x n h = elim (Bool-cases (x == k)) [
  | inl same ↦ inl (==→eq _ _ same)
  | inr other ↦ inr (ground arith)
]

pub leb→le : (a b : ℕ) → leb a b ≡ true → a ≤ b
leb→le a b h = ground arith

pub leb→lt : (a b : ℕ) → leb a b ≡ false → b < a
leb→lt a b h = ground arith

module _ (slot_nb : ℕ) (size_of : ℕ → ℕ) where
  pub data IsSorted : List ℕ → Type 0 where
    nil : IsSorted []
    cons :
        {t : ℕ} {ts : List ℕ}
        → ((e : ℕ) → 0 < weight (is e) ts → size_of t ≤ size_of e)
        → IsSorted ts
        → IsSorted (t ∷ ts)

  -- Each slot has the elements of its size, the last list the bigger ones in increasing order, and
  -- `stored_size` is the sum of all sizes.
  pub record IsValid (q : QuickList) : Type 0 where
    pub slots : length q.exact_size_slots ≡ slot_nb
    pub exact :
        (i e : ℕ)
        → i < slot_nb
        → 0 < weight (is e) (get_or q.exact_size_slots i [])
        → size_of e ≡ i + 1
    pub bigger : (e : ℕ) → 0 < weight (is e) q.bigger_sizes → slot_nb < size_of e
    pub sorted : IsSorted q.bigger_sizes
    pub stored : q.stored_size ≡ held size_of q

  weight-insert_sorted :
      (f : ℕ → ℕ) (e : ℕ) (ts : List ℕ)
      → weight f (insert_sorted slot_nb size_of e ts) ≡ weight f ts + f e
  unfolding insert_sorted
  weight-insert_sorted f e [] = omega arith
  weight-insert_sorted f e (t ∷ ts) = ground (arith, weight-insert_sorted f e ts)

  insert_sorted-IsSorted :
      (e : ℕ) (ts : List ℕ) → IsSorted ts → IsSorted (insert_sorted slot_nb size_of e ts)
  unfolding insert_sorted
  insert_sorted-IsSorted e [] s = cons (λ k h. absurd (omega arith)) nil
  insert_sorted-IsSorted e (t ∷ ts) (cons least s) =
      elim (Bool-cases (leb (size_of e) (size_of t))) [
        | inl here ↦ rw here (
            cons
              (λ k h. elim (head_or_tail k t (weight (is k) ts) (omega arith)) [
                | inl same ↦ omega (arith, leb→le _ _ here, ap size_of same)
                | inr tail ↦ omega (arith, leb→le _ _ here, least k tail)
              ])
              (cons least s))
        | inr later ↦ rw later (
            cons
              (λ k h.
                elim (head_or_tail k e (weight (is k) ts)
                  (omega (arith, weight-insert_sorted (is k) e ts))) [
                    | inl same ↦ omega (arith, leb→lt _ _ later, ap size_of same)
                    | inr tail ↦ least k tail
                  ])
              (insert_sorted-IsSorted e ts s))
      ]

  -- Inserting an element keeps the order, and adds it to what is held.
  pub insert-IsValid :
      (q : QuickList) (e : ℕ)
      → IsValid q
      → 0 < size_of e
      → IsValid (insert slot_nb size_of q e)
        × ((f : ℕ → ℕ) → held f (insert slot_nb size_of q e) ≡ held f q + f e)
  unfolding insert
  insert-IsValid q e v pos = elim (Bool-cases (leb (size_of e) slot_nb)) [
    | inl small ↦ rw small (
      record {
        slots = length-set q.exact_size_slots (size_of e - 1) _ ∙ v.slots;
        exact = λ i k lt h. elim (Bool-cases (size_of e - 1 == i)) [
          | inl same ↦
              let now =
                subst (λ j. get_or (set q.exact_size_slots (size_of e - 1) slot) j [] ≡ slot)
                  {y = i} (==→eq _ _ same)
                  (get_or-set_self q.exact_size_slots (size_of e - 1) slot []
                    (omega (arith, v.slots, leb→le _ _ small))) in
              let h' : 0 < weight (is k) slot = subst (λ l. 0 < weight (is k) l) now h in
              elim (head_or_tail k e (weight (is k) (get_or q.exact_size_slots (size_of e - 1) []))
                (omega arith)) [
                  | inl is_e ↦ omega (arith, ==→eq _ _ same, ap size_of is_e)
                  | inr before ↦ omega (
                    arith,
                    ==→eq _ _ same,
                    v.exact (size_of e - 1) k (omega (arith, leb→le _ _ small)) before,
                  )
                ]
          | inr other ↦ v.exact i k lt (
              subst (λ l. 0 < weight (is k) l)
                (get_or-set_ne q.exact_size_slots (size_of e - 1) i slot [] (==→ne _ _ other)) h)
        ];
        bigger = v.bigger;
        sorted = v.sorted;
        stored = omega (arith, v.stored, in_slots size_of small);
      },
      λ f. omega (arith, in_slots f small),
    )
    | inr big ↦ rw big (
      record {
        slots = v.slots;
        exact = v.exact;
        bigger = λ k h.
            elim (head_or_tail k e (weight (is k) q.bigger_sizes)
              (omega (arith, weight-insert_sorted (is k) e q.bigger_sizes))) [
                | inl same ↦ omega (arith, leb→lt _ _ big, ap size_of same)
                | inr before ↦ v.bigger k before
              ];
        sorted = insert_sorted-IsSorted e q.bigger_sizes v.sorted;
        stored = omega (arith, v.stored, weight-insert_sorted size_of e q.bigger_sizes);
      },
      λ f. omega (arith, weight-insert_sorted f e q.bigger_sizes),
    )
  ]
    where
      slot : List ℕ
      slot = e ∷ get_or q.exact_size_slots (size_of e - 1) []

      in_slots :
          (f : ℕ → ℕ)
          → leb (size_of e) slot_nb ≡ true
          → weight_slots f (set q.exact_size_slots (size_of e - 1) slot)
            ≡ weight_slots f q.exact_size_slots + f e
      in_slots f small = omega (
        arith,
        weight_slots-set f q.exact_size_slots (size_of e - 1) slot
            (omega (arith, v.slots, leb→le _ _ small)),
      )
