-- ===== src/SuperpageBlock/WellFormed/Create.antt =====
-- The constructor of `SuperpageBlock` in src/allocator.h makes the invariant true, and
-- `destroy_huge_alloc` keeps it.
use givy.Base.{
  ℕ, ◌+◌, ◌-◌, ◌*◌, ◌≤◌, ◌<◌, ◌≡◌, refl, sym, ap, ◌∙◌, arith, min, true, false, ◌&&◌, length, ltb,
  leb, ◌==◌, if◌then◌else◌, Bool-cases, inl, inr, ltb→lt, ltb→le,
}
use givy.QuickList.Laws.{held, is, IsValid}
use givy.Space.{superpage_page_nb}
use givy.SuperpageBlock.{
  Table, PageBlockHeader, SuperpageBlock, reserved, unused, huge, is_unused, header, nb_page_of,
  format, format_pbh, slot_nb, make_superpage_block, destroy_huge_alloc, available_pb_index,
  all_page_blocks_unused,
}
use givy.SuperpageBlock.Headers.{among, length-format_pbh}
use givy.SuperpageBlock.Create.{make_superpage_block_lem}
use givy.SuperpageBlock.Partition.{
  is_unused_at, IsBlock, IsBlock-format, among_in, among_out, among→le,
}
use givy.SuperpageBlock.WellFormed.{IsGood, IsLaidOut, is_free, one_if, unused_inside}
use givy.SuperpageBlock.WellFormed.Free.{free_page_block-IsFreed}

module _ (header_space_pages superpage_nb huge_alloc_page_nb owner : ℕ) (raw : Table)
    (whole : length raw ≡ superpage_page_nb)
    (left : header_space_pages
      < min (superpage_nb * superpage_page_nb - huge_alloc_page_nb) superpage_page_nb) where
  abbrev middle : ℕ
  middle = min (superpage_nb * superpage_page_nb - huge_alloc_page_nb) superpage_page_nb

  abbrev made : SuperpageBlock
  made = make_superpage_block header_space_pages superpage_nb huge_alloc_page_nb owner raw

  length_made : length made.pbh_table ≡ superpage_page_nb
  unfolding make_superpage_block
  length_made =
      let t = format_pbh raw 0 header_space_pages reserved in
      let t' = format_pbh t header_space_pages middle unused in
      length-format_pbh t' middle superpage_page_nb huge
      ∙ length-format_pbh t header_space_pages middle unused
      ∙ length-format_pbh raw 0 header_space_pages reserved
      ∙ whole

  headers :
      (n : ℕ)
      → header made.pbh_table n ≡ (
          if among middle superpage_page_nb n
          then format huge (superpage_page_nb - middle) middle
          else if among header_space_pages middle n
          then format unused (middle - header_space_pages) header_space_pages
          else if among 0 header_space_pages n
          then format reserved header_space_pages 0
          else header raw n)
  headers =
      (make_superpage_block_lem header_space_pages superpage_nb huge_alloc_page_nb owner raw whole
        left).0

  first :
      (n : ℕ)
      → n < header_space_pages
      → header made.pbh_table n ≡ format reserved header_space_pages 0
  first n lt =
      let a = among_out middle superpage_page_nb n (inl (omega (arith, left))) in
      let b = among_out header_space_pages middle n (inl lt) in
      let c = among_in 0 header_space_pages n (omega arith) lt in headers n ∙ rw (a, b, c) refl

  second :
      (n : ℕ)
      → header_space_pages ≤ n
      → n < middle
      → header made.pbh_table n ≡ format unused (middle - header_space_pages) header_space_pages
  second n le lt =
      let a = among_out middle superpage_page_nb n (inl lt) in
      let b = among_in header_space_pages middle n le lt in headers n ∙ rw (a, b) refl

  third :
      (n : ℕ)
      → middle ≤ n
      → n < superpage_page_nb
      → header made.pbh_table n ≡ format huge (superpage_page_nb - middle) middle
  third n le lt = let a = among_in middle superpage_page_nb n le lt in headers n ∙ rw a refl

  -- The unused pages are those in the middle.
  is_unused_made :
      (n : ℕ) → is_unused_at made.pbh_table n ≡ true → among header_space_pages middle n ≡ true
  is_unused_made n u =
      let lt = unused_inside made.pbh_table n length_made u in
      elim (Bool-cases (among header_space_pages middle n)) [
        | inl here ↦ here
        | inr out ↦ elim (Bool-cases (ltb n header_space_pages)) [
          | inl before ↦
              let e =
                ap (λ (x : PageBlockHeader). is_unused x.type) (first n (ltb→lt _ _ before)) in
              cc (u, e)
          | inr from ↦
              let e = ap (λ (x : PageBlockHeader). is_unused x.type) (third n (ground arith) lt) in
              cc (u, e)
        ]
      ]

  parts : (n : ℕ) → n < superpage_page_nb → IsBlock made.pbh_table n
  parts n lt = elim (Bool-cases (ltb n header_space_pages)) [
    | inl before ↦
        IsBlock-format made.pbh_table 0 header_space_pages n reserved (omega arith)
          (ltb→lt _ _ before) (omega (arith, left))
          (λ m a b.
            first m b ∙ ap (λ k. format reserved k 0) {y = header_space_pages - 0} (omega arith))
    | inr from ↦ elim (Bool-cases (ltb n middle)) [
      | inl mid ↦
          IsBlock-format made.pbh_table header_space_pages middle n unused (ltb→le _ _ from)
            (ltb→lt _ _ mid) (omega arith) second
      | inr last ↦
          IsBlock-format made.pbh_table middle superpage_page_nb n huge (ltb→le _ _ last) lt
            (omega arith) third
    ]
  ]

  made-IsGood : IsGood made
  made-IsGood = record {
    whole = length_made;
    parts = parts;
    valid = facts.1;
    listed = λ e. elim (Bool-cases (among header_space_pages middle e)) [
      | inl here ↦
          let i = among→le header_space_pages middle e here in
          facts.2 (is e)
          ∙ sym (
              ap (λ (x : PageBlockHeader). one_if (is_unused x.type && (x.head == e)))
                (second e i.0 i.1))
      | inr out ↦
          let other : is e header_space_pages ≡ 0 = ground (arith, left) in
          let none_here : is_free made.pbh_table e ≡ false =
            elim (Bool-cases (is_unused_at made.pbh_table e)) [
              | inl u ↦ let c = is_unused_made e u in cc (c, out)
              | inr v ↦ rw v refl
            ] in
          facts.2 (is e) ∙ other ∙ sym (ap one_if none_here)
    ];
    merged = λ n u v.
        let i = among→le header_space_pages middle n (is_unused_made n u) in
        let j = among→le header_space_pages middle (n + 1) (is_unused_made (n + 1) v) in
        ap (λ (x : PageBlockHeader). x.head) (second n i.0 i.1 ∙ sym (second (n + 1) j.0 j.1));
  }
    where
      facts :
          ((n : ℕ)
            → header made.pbh_table n ≡ (
                if among middle superpage_page_nb n
                then format huge (superpage_page_nb - middle) middle
                else if among header_space_pages middle n
                then format unused (middle - header_space_pages) header_space_pages
                else if among 0 header_space_pages n
                then format reserved header_space_pages 0
                else header raw n))
          × IsValid slot_nb (nb_page_of made.pbh_table) made.unused_list
          × ((f : ℕ → ℕ) → held f made.unused_list ≡ f header_space_pages)
          × (all_page_blocks_unused header_space_pages made ≡ true)
      facts =
          make_superpage_block_lem header_space_pages superpage_nb huge_alloc_page_nb owner raw
            whole left

  available : available_pb_index made ≡ middle
  unfolding make_superpage_block
  available = refl

  -- With the table of the right length and pages left between the headers and the huge allocation,
  -- the constructor makes the invariant of the superpage block true, with the reserved pages in front
  -- and the pages of the huge allocation behind `available_pb_index`.
  pub make_superpage_block-IsLaidOut : IsLaidOut header_space_pages made
  make_superpage_block-IsLaidOut = record {
    good = made-IsGood;
    room = omega (arith, available, left);
    headers = λ n lt. ap (λ (x : PageBlockHeader). x.type) (first n lt);
    huge_pages = λ n le lt.
        third n (omega (arith, available)) lt
        ∙ ap (λ m. format huge (superpage_page_nb - m) m) (sym available);
  }

-- `destroy_huge_alloc` keeps the invariant of the superpage block: where a part of the huge
-- allocation is in the first superpage, its pages become unused, and all others keep their type.
pub destroy_huge_alloc-IsGood :
    (header_space_pages : ℕ) (s : SuperpageBlock)
    → IsLaidOut header_space_pages s
    → IsGood (destroy_huge_alloc s)
      × ((destroy_huge_alloc s).superpage_nb ≡ 1)
      × ((n : ℕ)
          → n < superpage_page_nb
          → (header (destroy_huge_alloc s).pbh_table n).type
            ≡ (if leb s.huge_alloc_pb_index n then unused else (header s.pbh_table n).type))
unfolding destroy_huge_alloc
destroy_huge_alloc-IsGood h s l = elim (Bool-cases (ltb s.huge_alloc_pb_index superpage_page_nb)) [
  | inl inside ↦
      let lt : s.huge_alloc_pb_index < superpage_page_nb = ltb→lt _ _ inside in
      let at : available_pb_index s ≡ s.huge_alloc_pb_index = omega arith in
      let e = l.huge_pages s.huge_alloc_pb_index (omega arith) lt in
      let itself = ap (λ (x : PageBlockHeader). x.head) e ∙ at in
      let size = ap (λ (x : PageBlockHeader). x.nb_page) e in
      let r =
        free_page_block-IsFreed s s.huge_alloc_pb_index l.good itself lt
          (ap (λ (x : PageBlockHeader). is_unused x.type) e) in
      rw inside (
        r.good,
        refl,
        λ n below.
            let own : among s.huge_alloc_pb_index
                  (s.huge_alloc_pb_index + nb_page_of s.pbh_table s.huge_alloc_pb_index) n
                ≡ leb s.huge_alloc_pb_index n =
              ground (arith, size, at) in
            r.types n ∙ ap (λ b. if b then unused else (header s.pbh_table n).type) own,
      )
  | inr outside ↦ rw outside (
    l.good,
    refl,
    λ n below. let out : leb s.huge_alloc_pb_index n ≡ false = ground arith in rw out refl,
  )
]
