-- ===== src/SuperpageBlock/Create.antt =====
-- The constructor of `SuperpageBlock` in src/allocator.h.
use givy.Base.{
  ℕ, ◌-◌, ◌*◌, ◌≤◌, ◌<◌, ◌≡◌, refl, ap, ◌∙◌, arith, min, true, false, length, if◌then◌else◌, eq→==,
}
use givy.QuickList.{empty_quick_list}
use givy.QuickList.Laws.{held, is, IsValid, insert-IsValid}
use givy.QuickList.Empty.{empty-IsValid, empty-held}
use givy.Space.{superpage_page_nb}
use givy.SuperpageBlock.{
  Table, reserved, unused, huge, header, nb_page_of, format, format_pbh, slot_nb, SuperpageBlock,
  make_superpage_block, all_page_blocks_unused, available_pb_index,
}
use givy.SuperpageBlock.Headers.{among, header-format_pbh, length-format_pbh}

-- A block of `superpage_nb` superpages with `huge_alloc_page_nb` pages of a huge allocation at its
-- end, over a table of the right length.
module _ (header_space_pages superpage_nb huge_alloc_page_nb owner : ℕ) (raw : Table)
    (whole : length raw ≡ superpage_page_nb) where
  abbrev index : ℕ
  index = superpage_nb * superpage_page_nb - huge_alloc_page_nb

  abbrev middle : ℕ
  middle = min index superpage_page_nb

  abbrev made : SuperpageBlock
  made = make_superpage_block header_space_pages superpage_nb huge_alloc_page_nb owner raw

  from_0 : header_space_pages - 0 ≡ header_space_pages
  from_0 = omega arith

  made_headers :
      (n : ℕ)
      → header_space_pages ≤ middle
      → header made.pbh_table n ≡ (
          if among middle superpage_page_nb n
          then format huge (superpage_page_nb - middle) middle
          else if among header_space_pages middle n
          then format unused (middle - header_space_pages) header_space_pages
          else if among 0 header_space_pages n
          then format reserved header_space_pages 0
          else header raw n)
  unfolding make_superpage_block
  made_headers n le =
      header-format_pbh
        (format_pbh (format_pbh raw 0 header_space_pages reserved) header_space_pages middle unused)
        middle superpage_page_nb huge n (omega arith)
        (omega (
          arith,
          length-format_pbh (format_pbh raw 0 header_space_pages reserved) header_space_pages middle
              unused,
          length-format_pbh raw 0 header_space_pages reserved,
        ))
      ∙ ap
          (λ h.
            if among middle superpage_page_nb n
            then format huge (superpage_page_nb - middle) middle
            else h)
          (header-format_pbh (format_pbh raw 0 header_space_pages reserved) header_space_pages
              middle unused n le
              (omega (arith, length-format_pbh raw 0 header_space_pages reserved))
            ∙ ap
                (λ h.
                  if among header_space_pages middle n
                  then format unused (middle - header_space_pages) header_space_pages
                  else h)
                (header-format_pbh raw 0 header_space_pages reserved n (omega arith) (omega arith)
                  ∙ rw from_0 refl))

  pub made_list :
      0 < nb_page_of made.pbh_table header_space_pages
      → IsValid slot_nb (nb_page_of made.pbh_table) made.unused_list
        × ((f : ℕ → ℕ) → held f made.unused_list ≡ f header_space_pages)
  unfolding make_superpage_block
  made_list pos =
      let added =
        insert-IsValid slot_nb (nb_page_of made.pbh_table) (empty_quick_list slot_nb)
          header_space_pages (empty-IsValid slot_nb _) pos in
      (added.0, λ f. omega (arith, added.1 f, empty-held slot_nb f))

  -- With the table of the right length and pages left between the headers and the huge allocation:
  -- the constructor formats three blocks (reserved, unused, huge) that cover the table, its quick
  -- list is valid and holds exactly the unused one, and all page blocks count as unused.
  pub make_superpage_block_lem :
      header_space_pages < middle
      → ((n : ℕ)
          → header made.pbh_table n ≡ (
              if among middle superpage_page_nb n
              then format huge (superpage_page_nb - middle) middle
              else if among header_space_pages middle n
              then format unused (middle - header_space_pages) header_space_pages
              else if among 0 header_space_pages n
              then format reserved header_space_pages 0
              else header raw n))
        × IsValid slot_nb (nb_page_of made.pbh_table) made.unused_list
        × ((f : ℕ → ℕ) → held f made.unused_list ≡ f header_space_pages)
        × (all_page_blocks_unused header_space_pages made ≡ true)
  make_superpage_block_lem lt =
      (λ n. made_headers n (omega arith), (made_list pos).0, (made_list pos).1, all_unused)
    where
      first_unused :
          header made.pbh_table header_space_pages
          ≡ format unused (middle - header_space_pages) header_space_pages
      first_unused =
          let out : among middle superpage_page_nb header_space_pages ≡ false = ground arith in
          let here : among header_space_pages middle header_space_pages ≡ true = ground arith in
          made_headers header_space_pages (omega arith) ∙ rw (out, here) refl

      size : nb_page_of made.pbh_table header_space_pages ≡ middle - header_space_pages
      size = ap (λ h. h.nb_page) first_unused

      pos : 0 < nb_page_of made.pbh_table header_space_pages
      pos = omega (arith, size)

      available : available_pb_index made ≡ middle
      available = unfold make_superpage_block in refl

      all_unused : all_page_blocks_unused header_space_pages made ≡ true
      all_unused = eq→== _ _ (
          omega (
            arith,
            (made_list pos).0.stored,
            (made_list pos).1 (nb_page_of made.pbh_table),
            size,
            available,
          ))

  -- With no page left between the headers and a huge allocation that starts in the first
  -- superpage, the quick list of unused blocks holds the block of the huge allocation.
  pub make_superpage_block_huge_unused :
      middle ≡ header_space_pages
      → header_space_pages < superpage_page_nb
      → (header made.pbh_table header_space_pages
          ≡ format huge (superpage_page_nb - header_space_pages) header_space_pages)
        × (held (is header_space_pages) made.unused_list ≡ 1)
  make_superpage_block_huge_unused e lt =
      (is_huge, (made_list (omega (arith, size))).1 (is header_space_pages) ∙ ground arith)
    where
      is_huge :
          header made.pbh_table header_space_pages
          ≡ format huge (superpage_page_nb - header_space_pages) header_space_pages
      is_huge =
          let here : among middle superpage_page_nb header_space_pages ≡ true = ground arith in
          made_headers header_space_pages (omega arith) ∙ rw (here, e) refl

      size : nb_page_of made.pbh_table header_space_pages ≡ superpage_page_nb - header_space_pages
      size = ap (λ h. h.nb_page) is_huge
