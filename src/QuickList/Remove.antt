-- ===== src/QuickList/Remove.antt =====
-- `QuickList::remove` of src/intrusive_list.h.
use givy.Base.{
  ℕ, zero, suc, ◌+◌, ◌*◌, ◌≤◌, ◌≡◌, refl, ap, ◌∙◌, arith, List, [], ◌∷◌, map, get_or, length, ◌==◌,
  Bool-cases, inl, inr, ==→eq,
}
use givy.QuickList.{QuickList, unlink, remove}
use givy.QuickList.Laws.{weight, weight_slots, held, is, IsSorted, nil, cons, IsValid}

-- Unlinking takes all occurrences of an element away.
weight-unlink :
    (f : ℕ → ℕ) (e : ℕ) (l : List ℕ) → weight f l ≡ weight f (unlink e l) + weight (is e) l * f e
unfolding unlink
weight-unlink f e [] = omega arith
weight-unlink f e (t ∷ ts) = elim (Bool-cases (t == e)) [
  | inl same ↦
      let e' : f t ≡ f e = ap f (==→eq _ _ same) in
      rw same (grind (arith, weight-unlink f e ts, e'))
  | inr other ↦ rw other (grind (arith, weight-unlink f e ts))
]

weight_slots-unlink :
    (f : ℕ → ℕ) (e : ℕ) (s : List (List ℕ))
    → weight_slots f s ≡ weight_slots f (map (unlink e) s) + weight_slots (is e) s * f e
weight_slots-unlink f e [] = omega arith
weight_slots-unlink f e (l ∷ s) = grind (arith, weight-unlink f e l, weight_slots-unlink f e s)

length-map-unlink : (e : ℕ) (s : List (List ℕ)) → length (map (unlink e) s) ≡ length s
length-map-unlink e [] = refl
length-map-unlink e (l ∷ s) = ap suc (length-map-unlink e s)

get_or-map-unlink :
    (e : ℕ) (s : List (List ℕ)) (i : ℕ) → get_or (map (unlink e) s) i [] ≡ unlink e (get_or s i [])
unfolding unlink
get_or-map-unlink e [] i = refl
get_or-map-unlink e (l ∷ s) zero = refl
get_or-map-unlink e (l ∷ s) (suc i) = get_or-map-unlink e s i

unlink-le : (f : ℕ → ℕ) (e : ℕ) (l : List ℕ) → weight f (unlink e l) ≤ weight f l
unlink-le f e l = omega (arith, weight-unlink f e l)

module _ (slot_nb : ℕ) (size_of : ℕ → ℕ) where
  unlink-IsSorted :
      (e : ℕ) (l : List ℕ) → IsSorted slot_nb size_of l → IsSorted slot_nb size_of (unlink e l)
  unfolding unlink
  unlink-IsSorted e [] s = nil
  unlink-IsSorted e (t ∷ ts) (cons least s) = elim (Bool-cases (t == e)) [
    | inl same ↦ rw same (unlink-IsSorted e ts s)
    | inr other ↦ rw other (
        cons (λ k pos. least k (omega (arith, pos, unlink-le (is k) e ts)))
          (unlink-IsSorted e ts s))
  ]

  -- Removing an element that a valid quick list holds once keeps it valid, and takes exactly that
  -- element out, wherever it is linked.
  pub remove-IsValid :
      (q : QuickList) (e : ℕ)
      → IsValid slot_nb size_of q
      → held (is e) q ≡ 1
      → IsValid slot_nb size_of (remove slot_nb size_of q e)
        × ((f : ℕ → ℕ) → held f q ≡ f e + held f (remove slot_nb size_of q e))
  unfolding remove
  remove-IsValid q e v once = (
    record {
      slots = length-map-unlink e q.exact_size_slots ∙ v.slots;
      exact = λ i k lt pos. v.exact i k lt (
          omega (
            arith,
            ap (weight (is k)) (get_or-map-unlink e q.exact_size_slots i),
            unlink-le (is k) e (get_or q.exact_size_slots i []),
            pos,
          ));
      bigger = λ k pos. v.bigger k (omega (arith, pos, unlink-le (is k) e q.bigger_sizes));
      sorted = unlink-IsSorted e q.bigger_sizes v.sorted;
      stored = omega (arith, v.stored, parts size_of);
    },
    parts,
  )
    where
      parts : (f : ℕ → ℕ) → held f q ≡ f e + held f (remove slot_nb size_of q e)
      parts f =
          let slots = weight_slots-unlink f e q.exact_size_slots in
          let last = weight-unlink f e q.bigger_sizes in
          let all : (weight_slots (is e) q.exact_size_slots + weight (is e) q.bigger_sizes) * f e
              ≡ 1 * f e =
            ap (λ k. k * f e) once in
          grind (arith, slots, last, all)
