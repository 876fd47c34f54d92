-- ===== src/SuperpageBlock/WellFormed/Allocate.antt =====
-- `allocate_page_block` of src/allocator.h keeps the invariant of the superpage block.
use givy.Base.{
  ℕ, ◌+◌, ◌-◌, ◌≤◌, ◌<◌, ◌≡◌, ◌⊎◌, refl, ◌∙◌, arith, true, false, length, Option, some, ltb,
  if◌then◌else◌, Bool-cases, inl, inr, ltb→lt, ltb→le,
}
use givy.QuickList.{QuickList}
use givy.QuickList.Laws.{held, is, head_or_tail, IsValid, insert-IsValid}
use givy.QuickList.Take.{BestFit, best, none_fits, take-BestFit}
use givy.SuperpageBlock.{
  Table, MemoryType, SuperpageBlock, unused, is_unused, header, nb_page_of, format, format_pbh,
  insert_unused, slot_nb, take_page_block, allocate_page_block,
}
use givy.SuperpageBlock.Headers.{among, length-format_pbh, header-format_pbh}
use givy.SuperpageBlock.PageBlocks.{cut_headers, whole_block, overflow_size}
use givy.SuperpageBlock.Partition.{head_of, is_unused_at, among_out}
use givy.SuperpageBlock.WellFormed.{IsGood, held-free, IsValid-outside}
use givy.SuperpageBlock.WellFormed.Cut.{room, held-apart, cut-IsWellFormed}
use givy.SuperpageBlock.WellFormed.Given.{Given, nothing, no_run, Given-cut}

module _ (s : SuperpageBlock) (k : ℕ) (ty : MemoryType) (w : IsGood s) (pos : 0 < k)
    (used : is_unused ty ≡ false) where
  abbrev t : Table
  t = s.pbh_table

  -- The list gives `p` and keeps `q'`.
  module _ (p : ℕ) (q' : QuickList) (left : IsValid slot_nb (nb_page_of t) q')
      (parts : (f : ℕ → ℕ) → held f s.unused_list ≡ f p + held f q')
      (fits : k ≤ nb_page_of t p) where
    held_p : 0 < held (is p) s.unused_list
    held_p = let one : is p p ≡ 1 = ground arith in omega (arith, parts (is p), one)

    free : (is_unused_at t p ≡ true) × (head_of t p ≡ p)
    free = held-free t s.unused_list p w held_p

    r : p + nb_page_of t p ≤ length t
    r = omega (arith, room t t s.unused_list p k ty w free.0 free.1 pos fits used, w.whole)

    apart : (e : ℕ) → 0 < held (is e) q' → (e < p) ⊎ (p + nb_page_of t p ≤ e)
    apart e = held-apart t t s.unused_list p k ty w free.0 free.1 pos fits used q' e parts

    Given-over :
        ltb 0 (nb_page_of t p - k) ≡ true → Given s k ty (take_page_block s k ty (some p, q'))
    unfolding take_page_block
    Given-over over = rw over (
        Given-cut s k ty w pos used p _ free.0 free.1 fits
          (record { owner = refl; superpages = refl; huge_index = refl }) headers
          (cut-IsWellFormed t t' s.unused_list p k ty w free.0 free.1 pos fits used headers _
            (omega (arith, length-format_pbh c p (p + k) ty, length_c, w.whole)) valid'
            (λ e. rw over (omega (arith, added.1 (is e), parts (is e))))))
      where
        more : 0 < nb_page_of t p - k
        more = ltb→lt _ _ over

        c : Table
        c = format_pbh t (p + k) (p + k + (nb_page_of t p - k)) unused

        t' : Table
        t' = format_pbh c p (p + k) ty

        headers :
            (n : ℕ)
            → header t' n ≡ (
                if among p (p + k) n
                then format ty k p
                else if among (p + k) (p + nb_page_of t p) n
                then format unused (nb_page_of t p - k) (p + k)
                else header t n)
        headers n = cut_headers t p k (nb_page_of t p) n ty (omega (arith, more)) r

        length_c : length c ≡ length t
        length_c = length-format_pbh t (p + k) (p + k + (nb_page_of t p - k)) unused

        valid : IsValid slot_nb (nb_page_of c) q'
        valid =
            IsValid-outside t c q' p (p + nb_page_of t p)
              (λ m out.
                header-format_pbh t (p + k) (p + k + (nb_page_of t p - k)) unused m (omega arith)
                  (omega (arith, r, more))
                ∙ rw
                    (among_out (p + k) (p + k + (nb_page_of t p - k)) m
                      (elim out [ inl a ↦ inl (omega arith) | inr a ↦ inr (omega (arith, more)) ]))
                    refl)
              left apart

        added :
            IsValid slot_nb (nb_page_of c) (insert_unused c q' (p + k))
            × ((f : ℕ → ℕ) → held f (insert_unused c q' (p + k)) ≡ held f q' + f (p + k))
        added = insert-IsValid slot_nb (nb_page_of c) q' (p + k) valid (
            omega (
              arith,
              overflow_size t (p + k) (nb_page_of t p - k) more (omega (arith, r, more)),
              more,
            ))

        valid' : IsValid slot_nb (nb_page_of t') (insert_unused c q' (p + k))
        valid' =
            IsValid-outside c t' (insert_unused c q' (p + k)) p (p + k)
              (λ m out.
                header-format_pbh c p (p + k) ty m (omega arith) (omega (arith, length_c, r, fits))
                ∙ rw (among_out p (p + k) m out) refl)
              added.0
              (λ e some_one.
                elim (head_or_tail e (p + k) (held (is e) q')
                  (omega (arith, added.1 (is e), some_one))) [
                    | inl itself ↦ inr (omega (arith, itself))
                    | inr other ↦ elim (apart e other) [
                      | inl a ↦ inl a
                      | inr a ↦ inr (omega (arith, fits))
                    ]
                  ])

    Given-exact :
        ltb 0 (nb_page_of t p - k) ≡ false → Given s k ty (take_page_block s k ty (some p, q'))
    unfolding take_page_block
    Given-exact exact = rw exact (
        Given-cut s k ty w pos used p _ free.0 free.1 fits
          (record { owner = refl; superpages = refl; huge_index = refl }) headers
          (cut-IsWellFormed t t' s.unused_list p k ty w free.0 free.1 pos fits used headers q'
            (omega (arith, length-format_pbh t p (p + k) ty, w.whole)) valid
            (λ e. rw exact (omega (arith, parts (is e))))))
      where
        equal : nb_page_of t p ≡ k
        equal = omega (arith, fits, ltb→le _ _ exact)

        t' : Table
        t' = format_pbh t p (p + k) ty

        headers :
            (n : ℕ)
            → header t' n ≡ (
                if among p (p + k) n
                then format ty k p
                else if among (p + k) (p + nb_page_of t p) n
                then format unused (nb_page_of t p - k) (p + k)
                else header t n)
        headers n = whole_block t p k (nb_page_of t p) n ty equal r

        valid : IsValid slot_nb (nb_page_of t') q'
        valid =
            IsValid-outside t t' q' p (p + k)
              (λ m out.
                header-format_pbh t p (p + k) ty m (omega arith) (omega (arith, r, fits))
                ∙ rw (among_out p (p + k) m out) refl)
              left
              (λ e some_one. elim (apart e some_one) [
                | inl a ↦ inl a
                | inr a ↦ inr (omega (arith, fits))
              ])

    Given-taken : Given s k ty (take_page_block s k ty (some p, q'))
    Given-taken = elim (Bool-cases (ltb 0 (nb_page_of t p - k))) [
      | inl over ↦ Given-over over
      | inr exact ↦ Given-exact exact
    ]

  -- `allocate_page_block` of one page or more, of a type in use, keeps the invariant of the
  -- superpage block. It gives a page block of that size and type, whose pages were unused, and
  -- leaves the type of all other pages, and the headers of all pages in use, as they were. Or it
  -- gives nothing and leaves the superpage block as it was, and then nowhere in the table are so many pages
  -- in a row unused.
  pub allocate_page_block-Given : Given s k ty (allocate_page_block s k ty)
  unfolding allocate_page_block take_page_block
  allocate_page_block-Given = go _ (take-BestFit slot_nb (nb_page_of t) s.unused_list k w.valid pos)
    where
      go :
          (r : Option ℕ × QuickList)
          → BestFit slot_nb (nb_page_of t) s.unused_list k r
          → Given s k ty (take_page_block s k ty r)
      go r (best {r = p} {q'} left fits parts least) = Given-taken p q' left parts fits
      go r (none_fits all) = nothing refl (λ n run. no_run t s.unused_list n k w all run)
