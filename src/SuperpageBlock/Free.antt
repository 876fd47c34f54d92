-- ===== src/SuperpageBlock/Free.antt =====
-- Freeing a page block in src/allocator.h: it is merged with its unused neighbours.
use givy.Base.{
  ℕ, ◌+◌, ◌-◌, ◌≤◌, ◌<◌, ◌≡◌, refl, arith, true, ◌&&◌, length, ltb, if◌then◌else◌, Bool-cases, inl,
  inr,
}
use givy.QuickList.{QuickList}
use givy.Space.{superpage_page_nb}
use givy.SuperpageBlock.{
  Table, unused, is_unused, header, nb_page_of, format, SuperpageBlock, merge_previous, merge_next,
  free_page_block,
}
use givy.SuperpageBlock.Headers.{among, header-format_pbh}

-- The blocks on both sides of the one at `pbh` fit to it and to the table, where they are unused.
pub record IsFramed (t : Table) (pbh : ℕ) : Type 0 where
  pub whole : length t ≡ superpage_page_nb
  pub inside : pbh + nb_page_of t pbh ≤ superpage_page_nb
  pub previous :
      0 < pbh
      → is_unused (header t (pbh - 1)).type ≡ true
      → (header t (pbh - 1)).head + (header t (header t (pbh - 1)).head).nb_page ≡ pbh
  pub next :
      pbh + nb_page_of t pbh < superpage_page_nb
      → is_unused (header t (pbh + nb_page_of t pbh)).type ≡ true
      → pbh + nb_page_of t pbh + nb_page_of t (pbh + nb_page_of t pbh) ≤ superpage_page_nb

-- The block is part of one unused block from `start` to `end`. No other header is written. An
-- unused neighbour is part of it, another is not.
pub record Freed (t : Table) (pbh : ℕ) (t' : Table) : Type 0 where
  pub start : ℕ
  pub end : ℕ
  pub start_is : start ≡ (
      if ltb 0 pbh && is_unused (header t (pbh - 1)).type then (header t (pbh - 1)).head else pbh)
  pub end_is : end ≡ (
      if ltb (pbh + nb_page_of t pbh) superpage_page_nb
        && is_unused (header t (pbh + nb_page_of t pbh)).type
      then pbh + nb_page_of t pbh + nb_page_of t (pbh + nb_page_of t pbh)
      else pbh + nb_page_of t pbh)
  pub before : start ≤ pbh
  pub behind : pbh + nb_page_of t pbh ≤ end
  pub fits : end ≤ superpage_page_nb
  pub headers :
      (n : ℕ)
      → header t' n ≡ (if among start end n then format unused (end - start) start else header t n)

merge_previous_lem :
    (t : Table) (q : QuickList) (pbh : ℕ)
    → IsFramed t pbh
    → ((merge_previous t q pbh).0 ≡ (
        if ltb 0 pbh && is_unused (header t (pbh - 1)).type
        then (header t (pbh - 1)).head
        else pbh))
      × ((merge_previous t q pbh).0 ≤ pbh)
unfolding merge_previous
merge_previous_lem t q pbh h =
    elim (Bool-cases (ltb 0 pbh && is_unused (header t (pbh - 1)).type)) [
      | inl join ↦ rw join (refl, omega (arith, h.previous (ground arith) (ground arith)))
      | inr alone ↦ rw alone (refl, omega arith)
    ]

merge_next_lem :
    (t : Table) (q : QuickList) (pbh : ℕ)
    → IsFramed t pbh
    → ((merge_next t q (pbh + nb_page_of t pbh)).0 ≡ (
        if ltb (pbh + nb_page_of t pbh) superpage_page_nb
          && is_unused (header t (pbh + nb_page_of t pbh)).type
        then pbh + nb_page_of t pbh + nb_page_of t (pbh + nb_page_of t pbh)
        else pbh + nb_page_of t pbh))
      × (pbh + nb_page_of t pbh ≤ (merge_next t q (pbh + nb_page_of t pbh)).0)
      × ((merge_next t q (pbh + nb_page_of t pbh)).0 ≤ superpage_page_nb)
unfolding merge_next
merge_next_lem t q pbh h =
    elim (Bool-cases (
      ltb (pbh + nb_page_of t pbh) superpage_page_nb
      && is_unused (header t (pbh + nb_page_of t pbh)).type)) [
        | inl join ↦ rw join (refl, omega arith, h.next (ground arith) (ground arith))
        | inr alone ↦ rw alone (refl, omega arith, h.inside)
      ]

-- Freeing a block whose neighbours fit to it makes one unused block of it and of those neighbours
-- that are unused, with one size and one head in all its headers, and writes no other header.
pub free_page_block-Freed :
    (s : SuperpageBlock) (pbh : ℕ)
    → IsFramed s.pbh_table pbh
    → Freed s.pbh_table pbh (free_page_block s pbh).pbh_table
unfolding free_page_block
free_page_block-Freed s pbh h =
    let t = s.pbh_table in
    let left = merge_previous_lem t s.unused_list pbh h in
    let right = merge_next_lem t (merge_previous t s.unused_list pbh).1 pbh h in
    record {
      start = (merge_previous t s.unused_list pbh).0;
      end = (merge_next t (merge_previous t s.unused_list pbh).1 (pbh + nb_page_of t pbh)).0;
      start_is = left.0;
      end_is = right.0;
      before = left.1;
      behind = right.1;
      fits = right.2;
      headers = λ n.
          header-format_pbh t _ _ unused n (omega (arith, left, right))
            (omega (arith, right, h.whole));
    }
