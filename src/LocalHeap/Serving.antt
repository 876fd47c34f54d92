-- ===== src/LocalHeap/Serving.antt =====
-- Superpage blocks of src/allocator.h that can serve requests for page blocks.
use mathlib.Core.Path.{subst}
use givy.Base.{
  ℕ, ◌+◌, ◌-◌, ◌≤◌, ◌<◌, ◌≡◌, refl, sym, ap, ◌∙◌, arith, true, false, none, some, length, ◌==◌,
  if◌then◌else◌,
}
use givy.QuickList.{QuickList}
use givy.QuickList.Laws.{held, is, IsValid}
use givy.Space.{superpage_page_nb}
use givy.SuperpageBlock.{
  MemoryType, huge, unused, reserved, format_pbh, all_page_blocks_unused, slot_nb, nb_page_of,
  header, format, SuperpageBlock, Table, make_superpage_block,
}
use givy.SuperpageBlock.Headers.{among, length-format_pbh}
use givy.SuperpageBlock.PageBlocks.{Allocated, allocated, no_block}
use givy.SuperpageBlock.Create.{make_superpage_block_lem}
use givy.LocalHeap.{Sizes}
use givy.LocalHeap.Huge.{IsSized}

-- The quick list of a superpage block is valid, and its blocks lie in the table.
pub record IsServingOf (t : Table) (q : QuickList) : Type 0 where
  pub valid : IsValid slot_nb (nb_page_of t) q
  pub inside : (e : ℕ) → 0 < held (is e) q → e + nb_page_of t e ≤ length t
  pub whole : length t ≡ superpage_page_nb

abbrev pub IsServing : SuperpageBlock → Type 0
IsServing s = IsServingOf s.pbh_table s.unused_list

pub same : (p : ℕ) → (p == p) ≡ true
same p = ground arith

pub Allocated-pages :
    (s : SuperpageBlock) (nb_page pbh : ℕ) (ty : MemoryType) (s' : SuperpageBlock)
    → 0 < nb_page
    → Allocated s nb_page ty (some pbh, s')
    → nb_page_of s'.pbh_table pbh ≡ nb_page
Allocated-pages s nb_page pbh ty s' pos (allocated fits least headers stored) =
    let here : among pbh (pbh + nb_page) pbh ≡ true = ground arith in
    let whole : header s'.pbh_table pbh ≡ format ty nb_page pbh = headers pbh ∙ rw here refl in
    ap (λ h. h.nb_page) whole

pub unchanged :
    (s : SuperpageBlock) (nb_page : ℕ) (ty : MemoryType) (s' : SuperpageBlock)
    → Allocated s nb_page ty (none, s')
    → IsServing s
    → IsServing s'
unchanged s nb_page ty s' (no_block t l least) k =
    subst (λ x. IsServingOf x s'.unused_list) {y = s'.pbh_table} (sym t)
      (subst (λ q. IsServingOf s.pbh_table q) {y = s'.unused_list} (sym l) k)

length_made :
    (z : Sizes) (me : ℕ) (raw : Table)
    → length raw ≡ superpage_page_nb
    → length (make_superpage_block z.header_space_pages 1 0 me raw).pbh_table ≡ superpage_page_nb
unfolding make_superpage_block
length_made z me raw whole =
    let t = format_pbh raw 0 z.header_space_pages reserved in
    let t' = format_pbh t z.header_space_pages 512 unused in
    length-format_pbh t' 512 superpage_page_nb huge
    ∙ length-format_pbh t z.header_space_pages 512 unused
    ∙ length-format_pbh raw 0 z.header_space_pages reserved
    ∙ whole

pub fresh-IsServing :
    (z : Sizes) (me : ℕ) (raw : Table)
    → IsSized z
    → length raw ≡ superpage_page_nb
    → IsServing (make_superpage_block z.header_space_pages 1 0 me raw)
fresh-IsServing z me raw h whole =
    let e' = length_made z me raw whole in
    let in_list : (e : ℕ) → 0 < held (is e) made.unused_list → e ≡ z.header_space_pages =
      λ e pos. let k = facts.2 (is e) in ground arith in
    record {
      valid = facts.1;
      inside = λ e pos.
          let q = in_list e pos in
          omega (arith, q, size, ap (λ k. nb_page_of made.pbh_table k) q, e', h.header_fits);
      whole = length_made z me raw whole;
    }
  where
    made : SuperpageBlock
    made = make_superpage_block z.header_space_pages 1 0 me raw

    facts :
        ((n : ℕ)
          → header made.pbh_table n ≡ (
              if among 512 512 n
              then format huge 0 512
              else if among z.header_space_pages 512 n
              then format unused (512 - z.header_space_pages) z.header_space_pages
              else if among 0 z.header_space_pages n
              then format reserved z.header_space_pages 0
              else header raw n))
        × IsValid slot_nb (nb_page_of made.pbh_table) made.unused_list
        × ((f : ℕ → ℕ) → held f made.unused_list ≡ f z.header_space_pages)
        × (all_page_blocks_unused z.header_space_pages made ≡ true)
    facts = make_superpage_block_lem z.header_space_pages 1 0 me raw whole h.header_fits

    size : nb_page_of made.pbh_table z.header_space_pages ≡ 512 - z.header_space_pages
    size =
        let out : among 512 512 z.header_space_pages ≡ false = ground arith in
        let here : among z.header_space_pages 512 z.header_space_pages ≡ true = ground arith in
        let first : header made.pbh_table z.header_space_pages
            ≡ format unused (512 - z.header_space_pages) z.header_space_pages =
          facts.0 z.header_space_pages ∙ rw (out, here) refl in
        ap (λ h. h.nb_page) first
