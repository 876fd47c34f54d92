-- ===== src/SuperpageBlock/PageBlocks.antt =====
-- Allocating and freeing page blocks in src/allocator.h.
use givy.Base.{
  ℕ, ◌+◌, ◌-◌, ◌≤◌, ◌<◌, ◌≡◌, refl, ap, ◌∙◌, arith, true, false, length, Option, none, some, ltb,
  leb, if◌then◌else◌, Bool-cases, inl, inr, ltb→lt, ltb→le,
}
use givy.QuickList.{QuickList, insert}
use givy.QuickList.Laws.{held, is, IsValid}
use givy.QuickList.Take.{BestFit, best, none_fits, take-BestFit}
use givy.SuperpageBlock.{
  Table, MemoryType, unused, header, nb_page_of, format, format_pbh, slot_nb, SuperpageBlock,
  take_page_block, allocate_page_block,
}
use givy.SuperpageBlock.Headers.{among, header-format_pbh, length-format_pbh}

-- The result of asking `s` for `page_nb` pages: a block that was unused, as small as any that
-- fits, cut to size with the rest unused; or nothing, where no unused block is large enough.
pub data Allocated (s : SuperpageBlock) (page_nb : ℕ) (ty : MemoryType)
    : Option ℕ × SuperpageBlock → Type 0 where
  allocated :
      {p : ℕ} {s' : SuperpageBlock}
      → page_nb ≤ nb_page_of s.pbh_table p
      → ((e : ℕ)
          → 0 < held (is e) s.unused_list
          → page_nb ≤ nb_page_of s.pbh_table e
          → nb_page_of s.pbh_table p ≤ nb_page_of s.pbh_table e)
      → ((n : ℕ)
          → header s'.pbh_table n ≡ (
              if among p (p + page_nb) n
              then format ty page_nb p
              else if among (p + page_nb) (p + nb_page_of s.pbh_table p) n
              then format unused (nb_page_of s.pbh_table p - page_nb) (p + page_nb)
              else header s.pbh_table n))
      → s'.unused_list.stored_size + page_nb ≡ s.unused_list.stored_size
      → Allocated s page_nb ty (some p, s')
  no_block :
      {s' : SuperpageBlock}
      → s'.pbh_table ≡ s.pbh_table
      → s'.unused_list ≡ s.unused_list
      → ((e : ℕ) → 0 < held (is e) s.unused_list → nb_page_of s.pbh_table e < page_nb)
      → Allocated s page_nb ty (none, s')

insert-stored_size :
    (size_of : ℕ → ℕ) (q : QuickList) (e : ℕ)
    → (insert slot_nb size_of q e).stored_size ≡ q.stored_size + size_of e
unfolding insert
insert-stored_size size_of q e = elim (Bool-cases (leb (size_of e) slot_nb)) [
  | inl little ↦ rw little refl
  | inr big ↦ rw big refl
]

pub cut_headers :
    (t : Table) (p k old n : ℕ) (ty : MemoryType)
    → k < old
    → p + old ≤ length t
    → header (format_pbh (format_pbh t (p + k) (p + k + (old - k)) unused) p (p + k) ty) n ≡ (
        if among p (p + k) n
        then format ty k p
        else if among (p + k) (p + old) n
        then format unused (old - k) (p + k)
        else header t n)
cut_headers t p k old n ty lt room =
    let up_to : p + k + (old - k) ≡ p + old = omega arith in
    let rest : p + old - (p + k) ≡ old - k = omega arith in
    let part : p + k - p ≡ k = omega arith in
    rw up_to (
      header-format_pbh (format_pbh t (p + k) (p + old) unused) p (p + k) ty n (omega arith)
        (omega (arith, length-format_pbh t (p + k) (p + old) unused))
      ∙ rw part (
          ap (λ h. if among p (p + k) n then format ty k p else h)
            (header-format_pbh t (p + k) (p + old) unused n (omega arith) room ∙ rw rest refl)))

pub whole_block :
    (t : Table) (p k old n : ℕ) (ty : MemoryType)
    → old ≡ k
    → p + old ≤ length t
    → header (format_pbh t p (p + k) ty) n ≡ (
        if among p (p + k) n
        then format ty k p
        else if among (p + k) (p + old) n
        then format unused (old - k) (p + k)
        else header t n)
whole_block t p k old n ty e room =
    let part : p + k - p ≡ k = omega arith in
    let empty : among (p + k) (p + old) n ≡ false = ground arith in
    rw empty (header-format_pbh t p (p + k) ty n (omega arith) (omega arith) ∙ rw part refl)

pub overflow_size :
    (t : Table) (from size : ℕ)
    → 0 < size
    → from + size ≤ length t
    → nb_page_of (format_pbh t from (from + size) unused) from ≡ size
overflow_size t from size pos room =
    let here : among from (from + size) from ≡ true = ground arith in
    let part : from + size - from ≡ size = omega arith in
    let whole : header (format_pbh t from (from + size) unused) from ≡ format unused size from =
      header-format_pbh t from (from + size) unused from (omega arith) room
      ∙ rw (here, part) refl in
    ap (λ h. h.nb_page) whole

-- Where the quick list is valid for the sizes in the table and each block in it lies inside the
-- table, `allocate_page_block` of one page or more gives a best fit, cuts it to size, and writes no
-- other header; the size of the unused blocks goes down by what was asked for. Or it gives nothing
-- and changes nothing, where no unused block is large enough.
pub allocate_page_block-Allocated :
    (s : SuperpageBlock) (page_nb : ℕ) (ty : MemoryType)
    → IsValid slot_nb (nb_page_of s.pbh_table) s.unused_list
    → ((e : ℕ) → 0 < held (is e) s.unused_list → e + nb_page_of s.pbh_table e ≤ length s.pbh_table)
    → 0 < page_nb
    → Allocated s page_nb ty (allocate_page_block s page_nb ty)
unfolding allocate_page_block take_page_block
allocate_page_block-Allocated s page_nb ty valid inside pos =
    go _ (take-BestFit slot_nb (nb_page_of s.pbh_table) s.unused_list page_nb valid pos)
  where
    cut : ℕ → Table
    cut p =
        format_pbh s.pbh_table (p + page_nb) (p + page_nb + (nb_page_of s.pbh_table p - page_nb))
          unused

    cut_size :
        (p : ℕ)
        → 0 < nb_page_of s.pbh_table p - page_nb
        → p + nb_page_of s.pbh_table p ≤ length s.pbh_table
        → nb_page_of (cut p) (p + page_nb) ≡ nb_page_of s.pbh_table p - page_nb
    cut_size p over room =
        overflow_size s.pbh_table (p + page_nb) (nb_page_of s.pbh_table p - page_nb) over
          (omega arith)

    go :
        (r : Option ℕ × QuickList)
        → BestFit slot_nb (nb_page_of s.pbh_table) s.unused_list page_nb r
        → Allocated s page_nb ty (take_page_block s page_nb ty r)
    go r (best {r = p} {q'} left fits parts least) =
        elim (Bool-cases (ltb 0 (nb_page_of s.pbh_table p - page_nb))) [
          | inl over ↦ rw over (
              allocated fits least
                (λ n.
                  cut_headers s.pbh_table p page_nb (nb_page_of s.pbh_table p) n ty (ground arith)
                    in_table)
                (omega (
                  arith,
                  left.stored,
                  valid.stored,
                  parts (nb_page_of s.pbh_table),
                  insert-stored_size (nb_page_of (cut p)) q' (p + page_nb),
                  cut_size p (ltb→lt _ _ over) in_table,
                )))
          | inr exact ↦ rw exact (
              allocated fits least
                (λ n.
                  whole_block s.pbh_table p page_nb (nb_page_of s.pbh_table p) n ty
                    (omega (arith, ltb→le _ _ exact)) in_table)
                (omega (
                  arith,
                  left.stored,
                  valid.stored,
                  parts (nb_page_of s.pbh_table),
                  ltb→le _ _ exact,
                )))
        ]
      where
        one : is p p ≡ 1
        one = ground arith

        in_table : p + nb_page_of s.pbh_table p ≤ length s.pbh_table
        in_table = inside p (omega (arith, parts (is p), one))
    go r (none_fits all) = no_block refl refl all
