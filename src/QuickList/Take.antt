-- ===== src/QuickList/Take.antt =====
-- `QuickList::take` of src/intrusive_list.h gives a best fit.
use mathlib.Core.Path.{subst}
use givy.Base.{
  ℕ, ◌+◌, ◌-◌, ◌≤◌, ◌<◌, ◌≡◌, ◌⊎◌, sym, ◌∙◌, arith, false, List, [], Option, none, some, get_or,
  set, length-set, get_or-set_self, get_or-set_ne, ltb, ◌==◌, Bool-cases, inl, inr, ltb→lt, ltb→le,
  ==→eq, ==→ne,
}
use givy.QuickList.{QuickList, is_empty, front, pop_front, take_bigger, take}
use givy.QuickList.Laws.{weight, weight_slots, held, is, weight_slots-set, some_slot, IsValid}
use givy.QuickList.Find.{
  SlotFound, slot, no_slot, weight-front, find_slot-SlotFound, Pulled, pulled, nothing_fits,
  take_bigger-Pulled,
}

module _ (slot_nb : ℕ) (size_of : ℕ → ℕ) where
  -- An element is taken that is large enough, and none that is held and large enough is smaller;
  -- or none that is held is large enough, and the list stays.
  pub data BestFit (q : QuickList) (min_sz : ℕ) : Option ℕ × QuickList → Type 0 where
    best :
        {r : ℕ} {q' : QuickList}
        → IsValid slot_nb size_of q'
        → min_sz ≤ size_of r
        → ((f : ℕ → ℕ) → held f q ≡ f r + held f q')
        → ((e : ℕ) → 0 < held (is e) q → min_sz ≤ size_of e → size_of r ≤ size_of e)
        → BestFit q min_sz (some r, q')
    none_fits : ((e : ℕ) → 0 < held (is e) q → size_of e < min_sz) → BestFit q min_sz (none, q)

  -- An element that is held is in the slot of its size, or in the last list.
  where_held :
      (q : QuickList) (e : ℕ)
      → IsValid slot_nb size_of q
      → 0 < held (is e) q
      → ((size_of e ≤ slot_nb) × (0 < weight (is e) (get_or q.exact_size_slots (size_of e - 1) [])))
        ⊎ (0 < weight (is e) q.bigger_sizes)
  where_held q e v h = elim (Bool-cases (ltb 0 (weight (is e) q.bigger_sizes))) [
    | inl in_last ↦ inr (ltb→lt _ _ in_last)
    | inr not_last ↦
        let r = some_slot (is e) q.exact_size_slots (omega (arith, ltb→le _ _ not_last)) in
        let sz = v.exact r.0 e (omega (arith, v.slots, r.1)) r.2 in
        inl (
          omega (arith, sz, v.slots, r.1),
          subst (λ i. 0 < weight (is e) (get_or q.exact_size_slots i [])) {y = size_of e - 1}
              (omega (arith, sz)) r.2,
        )
  ]

  module _ (q : QuickList) (min_sz n : ℕ) (v : IsValid slot_nb size_of q) (pos : 0 < min_sz)
      (lo : min_sz ≤ n) (hi : n < slot_nb + 1)
      (some_one : is_empty (get_or q.exact_size_slots (n - 1) []) ≡ false)
      (before : (j : ℕ) (f : ℕ → ℕ)
        → min_sz ≤ j
        → j < n
        → weight f (get_or q.exact_size_slots (j - 1) []) ≡ 0) where
    abbrev here : List ℕ
    here = get_or q.exact_size_slots (n - 1) []

    first_size : size_of (front here 0) ≡ n
    first_size =
        let one : is (front here 0) (front here 0) ≡ 1 = ground arith in
        omega (
          arith,
          v.exact (n - 1) (front here 0) (omega arith)
              (omega (arith, one, weight-front (is (front here 0)) here some_one)),
        )

    moved :
        (f : ℕ → ℕ)
        → weight_slots f q.exact_size_slots
          ≡ f (front here 0) + weight_slots f (set q.exact_size_slots (n - 1) (pop_front here))
    moved f = omega (
      arith,
      weight-front f here some_one,
      weight_slots-set f q.exact_size_slots (n - 1) (pop_front here) (omega (arith, v.slots)),
    )

    from_slot : BestFit q min_sz (
      some (front here 0),
      record q {
        exact_size_slots = set q.exact_size_slots (n - 1) (pop_front here);
        stored_size = q.stored_size - n;
      },
    )
    from_slot =
        best
          (record {
            slots = length-set q.exact_size_slots (n - 1) _ ∙ v.slots;
            exact =
                λ i k lt
                    (h : 0
                      < weight (is k)
                          (get_or (set q.exact_size_slots (n - 1) (pop_front here)) i [])).
                  elim (Bool-cases (n - 1 == i)) [
                    | inl same ↦
                        let i_is : n - 1 ≡ i = ==→eq _ _ same in
                        let now =
                          get_or-set_self q.exact_size_slots (n - 1) (pop_front here) []
                            (omega (arith, v.slots)) in
                        let h' : 0 < weight (is k) (pop_front here) =
                          subst (λ l. 0 < weight (is k) l) now
                            (subst
                              (λ j.
                                0
                                < weight (is k)
                                    (get_or (set q.exact_size_slots (n - 1) (pop_front here)) j []))
                              (sym i_is) h) in
                        omega (
                          arith,
                          i_is,
                          v.exact (n - 1) k (omega arith)
                              (omega (arith, h', weight-front (is k) here some_one)),
                        )
                    | inr other ↦ v.exact i k lt (
                        subst (λ l. 0 < weight (is k) l)
                          (get_or-set_ne q.exact_size_slots (n - 1) i (pop_front here) []
                            (==→ne _ _ other))
                          h)
                  ];
            bigger = v.bigger;
            sorted = v.sorted;
            stored = omega (arith, v.stored, moved size_of, first_size);
          })
          (omega (arith, first_size)) (λ f. omega (arith, moved f))
          λ e h le. elim (where_held q e v h) [
            | inl in_slot ↦ elim (Bool-cases (ltb (size_of e) n)) [
              | inl less ↦
                  absurd (omega (arith, in_slot.1, before (size_of e) (is e) le (ltb→lt _ _ less)))
              | inr more ↦ omega (arith, first_size, ltb→le _ _ more)
            ]
            | inr in_last ↦ omega (arith, first_size, v.bigger e in_last)
          ]

  from_bigger :
      (q : QuickList) (min_sz : ℕ)
      → IsValid slot_nb size_of q
      → ((j : ℕ) (f : ℕ → ℕ)
          → min_sz ≤ j
          → j ≤ slot_nb
          → weight f (get_or q.exact_size_slots (j - 1) []) ≡ 0)
      → (r : Option (ℕ × List ℕ)) → Pulled slot_nb size_of min_sz q.bigger_sizes r
      → BestFit q min_sz (elim r [
        | some found ↦ (
          some found.0,
          record q { bigger_sizes = found.1; stored_size = q.stored_size - size_of found.0 },
        )
        | none ↦ (none, q)
      ])
  from_bigger q min_sz v empty r (pulled {r = x} {ts'} fits parts sorted least) =
      best
        (record {
          slots = v.slots;
          exact = v.exact;
          bigger = λ e h. v.bigger e (omega (arith, parts (is e)));
          sorted = sorted;
          stored = omega (arith, v.stored, parts size_of);
        })
        fits (λ f. omega (arith, parts f))
        λ e h le. elim (where_held q e v h) [
          | inl in_slot ↦ absurd (omega (arith, in_slot.1, empty (size_of e) (is e) le in_slot.0))
          | inr in_last ↦ least e in_last le
        ]
  from_bigger q min_sz v empty r (nothing_fits all) = none_fits λ e h. elim (where_held q e v h) [
    | inl in_slot ↦ elim (Bool-cases (ltb (size_of e) min_sz)) [
      | inl less ↦ ltb→lt _ _ less
      | inr more ↦
          absurd (omega (arith, in_slot.1, empty (size_of e) (is e) (ltb→le _ _ more) in_slot.0))
    ]
    | inr in_last ↦ all e in_last
  ]

  -- In a valid quick list, `take` gives a best fit for a size that is not 0, and what is left is
  -- valid.
  pub take-BestFit :
      (q : QuickList) (min_sz : ℕ)
      → IsValid slot_nb size_of q
      → 0 < min_sz
      → BestFit q min_sz (take slot_nb size_of q min_sz)
  unfolding take
  take-BestFit q min_sz v pos =
      go _ (find_slot-SlotFound slot_nb size_of q.exact_size_slots (slot_nb + 1 - min_sz) min_sz)
    where
      s : List (List ℕ)
      s = q.exact_size_slots

      go :
          (r : Option ℕ)
          → SlotFound s min_sz (slot_nb + 1 - min_sz) r
          → BestFit q min_sz (elim r [
            | some n ↦
                let slot = get_or q.exact_size_slots (n - 1) [] in
                (
                  some (front slot 0),
                  record q {
                    exact_size_slots = set q.exact_size_slots (n - 1) (pop_front slot);
                    stored_size = q.stored_size - n;
                  },
                )
            | none ↦ elim (take_bigger slot_nb size_of min_sz q.bigger_sizes) [
              | some found ↦ (
                some found.0,
                record q { bigger_sizes = found.1; stored_size = q.stored_size - size_of found.0 },
              )
              | none ↦ (none, q)
            ]
          ])
      go r (slot {n} lo hi some_one before) =
          from_slot q min_sz n v pos lo (omega arith) some_one before
      go r (no_slot all) =
          from_bigger q min_sz v (λ j f lo hi. all j f lo (omega arith)) _
            (take_bigger-Pulled slot_nb size_of min_sz q.bigger_sizes v.sorted)
