-- ===== src/SuperpageBlock/WellFormed/Free.antt =====
-- `free_page_block` of src/allocator.h keeps the invariant of the superpage block.
use mathlib.Core.Path.{subst}
use givy.Base.{
  ℕ, ◌+◌, ◌-◌, ◌≤◌, ◌<◌, ◌≡◌, ◌≢◌, ◌⊎◌, refl, sym, ap, ◌∙◌, arith, Bool, true, false, ◌&&◌, ltb,
  ◌==◌, if◌then◌else◌, Bool-cases, inl, inr, ltb→lt, ltb→le,
}
use givy.QuickList.{QuickList}
use givy.QuickList.Laws.{held, is, IsValid, insert-IsValid}
use givy.Space.{superpage_page_nb}
use givy.SuperpageBlock.{
  Table, PageBlockHeader, SuperpageBlock, unused, is_unused, header, nb_page_of, format, format_pbh,
  insert_unused, slot_nb, merge_previous, free_page_block,
}
use givy.SuperpageBlock.Headers.{among, length-format_pbh, header-format_pbh}
use givy.SuperpageBlock.Partition.{
  head_of, is_unused_at, IsBlock-format, among_in, among_out, among→le, among→out,
}
use givy.SuperpageBlock.WellFormed.{
  type_of_unused, IsSameBlock, IsWellFormed, IsGood, one_if, held_used, IsWellFormed-replace,
  IsValid-outside,
}
use givy.SuperpageBlock.WellFormed.Merge.{
  IsMergedLeft, IsMergedRight, block, block_end, merge_previous-IsMergedLeft,
  merge_next-IsMergedRight,
}

module _ (t : Table) (q : QuickList) (pbh : ℕ) (w : IsWellFormed t q) (itself : head_of t pbh ≡ pbh)
    (lt : pbh < superpage_page_nb) (used : is_unused_at t pbh ≡ false) where
  abbrev mine : ℕ
  mine = block_end t q pbh w itself lt used

  in_block : (n : ℕ) → pbh ≤ n → n < mine → header t n ≡ header t pbh
  in_block n lo hi =
      (block t q pbh w itself lt used).alike n (omega (arith, itself)) (omega (arith, itself))

  not_empty : pbh < mine
  not_empty = omega (arith, (block t q pbh w itself lt used).end, itself)

  module _ (start : ℕ) (q1 : QuickList) (end : ℕ) (q2 : QuickList)
      (left : IsMergedLeft t q pbh w itself lt used start q1)
      (right : IsMergedRight t q pbh w itself lt used q1 end q2) where
    abbrev after : Table
    after = format_pbh t start end unused

    wide : start < end
    wide = omega (arith, left.le, right.ge, not_empty)

    written : (n : ℕ) → start ≤ n → n < end → header after n ≡ format unused (end - start) start
    written n lo hi =
        header-format_pbh t start end unused n (omega (arith, wide))
          (omega (arith, right.room, w.whole))
        ∙ rw (among_in start end n lo hi) refl

    outside : (n : ℕ) → (n < start) ⊎ (end ≤ n) → header after n ≡ header t n
    outside n out =
        header-format_pbh t start end unused n (omega (arith, wide))
          (omega (arith, right.room, w.whole))
        ∙ rw (among_out start end n out) refl

    -- Neither the block nor its unused neighbours are in the list now.
    empty : (e : ℕ) → start ≤ e → e < end → held (is e) q2 ≡ 0
    empty e lo hi = elim (Bool-cases (ltb e pbh)) [
      | inl before ↦
          let a = right.taken.gone e in
          let b = left.taken.gone e in
          let out = among_out mine end e (inl (omega (arith, not_empty, ltb→lt _ _ before))) in
          let here = among_in start pbh e lo (ltb→lt _ _ before) in ground (arith, a, b, out, here)
      | inr from ↦ elim (Bool-cases (ltb e mine)) [
        | inl inner ↦
            let a = right.taken.gone e in
            let b = left.taken.gone e in
            let out = among_out mine end e (inl (ltb→lt _ _ inner)) in
            let out' = among_out start pbh e (inr (ltb→le _ _ from)) in
            let same = in_block e (ltb→le _ _ from) (ltb→lt _ _ inner) in
            let c =
              held_used t q e w (ap (λ (x : PageBlockHeader). is_unused x.type) same ∙ used) in
            ground (arith, a, b, out, out', c)
        | inr behind ↦
            let a = right.taken.gone e in
            let here = among_in mine end e (ltb→le _ _ behind) hi in ground (arith, a, here)
      ]
    ]

    others : (e : ℕ) → (e < start) ⊎ (end ≤ e) → held (is e) q2 ≡ held (is e) q
    others e out =
        let a = right.taken.gone e in
        let b = left.taken.gone e in
        let c =
          among_out mine end e
            (elim out [ inl l ↦ inl (omega (arith, left.le, not_empty)) | inr r ↦ inr r ]) in
        let d =
          among_out start pbh e
            (elim out [ inl l ↦ inl l | inr r ↦ inr (omega (arith, right.ge, not_empty)) ]) in
        ground (arith, a, b, c, d)

    apart : (e : ℕ) → 0 < held (is e) q2 → (e < start) ⊎ (end ≤ e)
    apart e pos = elim (Bool-cases (among start end e)) [
      | inl here ↦ let i = among→le start end e here in absurd (omega (arith, empty e i.0 i.1))
      | inr out ↦ among→out start end e out
    ]

    added :
        IsValid slot_nb (nb_page_of after) (insert_unused after q2 start)
        × ((f : ℕ → ℕ) → held f (insert_unused after q2 start) ≡ held f q2 + f start)
    added =
        insert-IsValid slot_nb (nb_page_of after) q2 start
          (IsValid-outside t after q2 start end outside right.taken.valid apart)
          (omega (
            arith,
            ap (λ (x : PageBlockHeader). x.nb_page) (written start (omega arith) wide),
            wide,
          ))

    joint :
        (n : ℕ)
        → start ≤ n + 1
        → n < end
        → is_unused_at after n ≡ true
        → is_unused_at after (n + 1) ≡ true
        → head_of after n ≡ head_of after (n + 1)
    joint n lo hi u v = elim (Bool-cases (ltb n start)) [
      | inl before ↦
          let e : n + 1 ≡ start = omega (arith, ltb→lt _ _ before) in
          let a = left.before n e in
          let b =
            ap (λ (x : PageBlockHeader). is_unused x.type) (outside n (inl (ltb→lt _ _ before))) in
          cc (a, b, u)
      | inr from ↦ elim (Bool-cases (ltb (n + 1) end)) [
        | inl more ↦
            ap (λ (x : PageBlockHeader). x.head)
              (written n (ltb→le _ _ from) hi
                ∙ sym (written (n + 1) (omega arith) (ltb→lt _ _ more)))
        | inr last ↦
            let e : end ≡ n + 1 = omega (arith, ltb→le _ _ last) in
            let a : is_unused_at t (n + 1) ≡ false =
              subst (λ m. is_unused_at t m ≡ false) {y = n + 1} e right.after in
            let b =
              ap (λ (x : PageBlockHeader). is_unused x.type)
                (outside (n + 1) (inr (ltb→le _ _ last))) in
            cc (a, b, v)
      ]
    ]

    after-IsWellFormed : IsWellFormed after (insert_unused after q2 start)
    after-IsWellFormed =
        IsWellFormed-replace t after q (insert_unused after q2 start) start end w left.border
          right.border (omega (arith, length-format_pbh t start end unused, w.whole)) outside
          (λ n lo hi.
            IsBlock-format after start end n unused lo hi right.room (λ m a b. written m a b))
          added.0
          (λ e lo hi.
            omega (arith, added.1 (is e), empty e lo hi)
            ∙ sym (
                ap (λ (x : PageBlockHeader). one_if (is_unused x.type && (x.head == e)))
                  (written e lo hi)))
          (λ e out.
            let other : is e start ≡ 0 = elim out [
              | inl a ↦ ground arith
              | inr a ↦ ground (arith, wide)
            ] in
            omega (arith, added.1 (is e), others e out, other))
          joint

    was_unused : (n : ℕ) → among pbh mine n ≡ false → start ≤ n → n < end → is_unused_at t n ≡ true
    was_unused n other lo hi = elim (among→out pbh mine n other) [
      | inl a ↦ left.inner n lo a
      | inr a ↦ right.inner n a hi
    ]

    after_types :
        (n : ℕ) → (header after n).type ≡ (if among pbh mine n then unused else (header t n).type)
    after_types n = elim (Bool-cases (among start end n)) [
      | inl here ↦
          let i = among→le start end n here in
          ap (λ (x : PageBlockHeader). x.type) (written n i.0 i.1)
          ∙ elim (Bool-cases (among pbh mine n)) [
            | inl own ↦ rw own refl
            | inr other ↦ rw other (type_of_unused (header t n).type (was_unused n other i.0 i.1))
          ]
      | inr out ↦
          let o = among→out start end n out in
          let other : among pbh mine n ≡ false = among_out pbh mine n (elim o [
            | inl a ↦ inl (omega (arith, left.le))
            | inr a ↦ inr (omega (arith, right.ge))
          ]) in
          ap (λ (x : PageBlockHeader). x.type) (outside n o) ∙ rw other refl
    ]

    after_kept :
        (n : ℕ) → is_unused_at t n ≡ false → among pbh mine n ≡ false → header after n ≡ header t n
    after_kept n u other = elim (Bool-cases (among start end n)) [
      | inl here ↦
          let i = among→le start end n here in
          let v = was_unused n other i.0 i.1 in absurd (clash u v)
      | inr out ↦ outside n (among→out start end n out)
    ]
      where
        clash : {b : Bool} → b ≡ false → b ≢ true
        clash x y = cc

-- The result of freeing the page block at `pbh`.
pub record IsFreed (s : SuperpageBlock) (pbh : ℕ) (s' : SuperpageBlock) : Type 0 where
  pub good : IsGood s'
  pub same : IsSameBlock s s'
  pub types :
      (n : ℕ)
      → (header s'.pbh_table n).type ≡ (
          if among pbh (pbh + nb_page_of s.pbh_table pbh) n
          then unused
          else (header s.pbh_table n).type)
  pub kept :
      (n : ℕ)
      → is_unused_at s.pbh_table n ≡ false
      → among pbh (pbh + nb_page_of s.pbh_table pbh) n ≡ false
      → header s'.pbh_table n ≡ header s.pbh_table n

-- Freeing a page block in use, given by its first header, keeps the invariant of the superpage
-- block. The pages of the block become unused, all others keep their type, and the headers of the
-- other pages in use stay as they were.
pub free_page_block-IsFreed :
    (s : SuperpageBlock) (pbh : ℕ)
    → IsGood s
    → head_of s.pbh_table pbh ≡ pbh
    → pbh < superpage_page_nb
    → is_unused_at s.pbh_table pbh ≡ false
    → IsFreed s pbh (free_page_block s pbh)
unfolding free_page_block
free_page_block-IsFreed s pbh w itself lt used =
    let t = s.pbh_table in
    let q = s.unused_list in
    let left = merge_previous-IsMergedLeft t q pbh w itself lt used in
    let right =
      merge_next-IsMergedRight t q pbh w itself lt used (merge_previous t q pbh).1 left.taken.valid
        (λ e from.
          let out = among_out (merge_previous t q pbh).0 pbh e (inr from) in
          left.taken.gone e ∙ rw out refl) in
    record {
      good = after-IsWellFormed t q pbh w itself lt used _ _ _ _ left right;
      same = record { owner = refl; superpages = refl; huge_index = refl };
      types = after_types t q pbh w itself lt used _ _ _ _ left right;
      kept = after_kept t q pbh w itself lt used _ _ _ _ left right;
    }
