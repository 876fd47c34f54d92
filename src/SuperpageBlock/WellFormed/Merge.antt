-- ===== src/SuperpageBlock/WellFormed/Merge.antt =====
-- The two merges of `free_page_block` in src/allocator.h: with the block before, and the block behind.
use mathlib.Core.Path.{subst}
use givy.Base.{
  ℕ, ◌+◌, ◌-◌, ◌≤◌, ◌<◌, ◌≡◌, ◌⊎◌, refl, ap, ◌∙◌, arith, true, false, ◌&&◌, ltb, if◌then◌else◌,
  Bool-cases, inl, inr,
}
use givy.QuickList.{QuickList, remove}
use givy.QuickList.Laws.{held, is, IsValid}
use givy.QuickList.Remove.{remove-IsValid}
use givy.Space.{superpage_page_nb}
use givy.SuperpageBlock.{
  Table, PageBlockHeader, is_unused, header, nb_page_of, slot_nb, merge_previous, merge_next,
}
use givy.SuperpageBlock.Headers.{among}
use givy.SuperpageBlock.Partition.{
  head_of, is_unused_at, IsBlock, IsBorder, before_border, among→le, among→out, head-head,
}
use givy.SuperpageBlock.WellFormed.{
  IsWellFormed, free-held, held_inside, end-IsBorder, unused_inside,
}

-- What was between the two places has left the list.
pub record IsTaken (t : Table) (q : QuickList) (lo hi : ℕ) (q' : QuickList) : Type 0 where
  pub valid : IsValid slot_nb (nb_page_of t) q'
  pub gone : (e : ℕ) → held (is e) q' ≡ (if among lo hi e then 0 else held (is e) q)

remove-IsTaken :
    (t : Table) (q q' : QuickList) (b : ℕ)
    → IsWellFormed t q
    → is_unused_at t b ≡ true
    → head_of t b ≡ b
    → IsValid slot_nb (nb_page_of t) q'
    → ((e : ℕ) → b ≤ e → e < b + nb_page_of t b → held (is e) q' ≡ held (is e) q)
    → IsTaken t q' b (b + nb_page_of t b) (remove slot_nb (nb_page_of t) q' b)
remove-IsTaken t q q' b w free itself valid same =
    let lt = unused_inside t b w.whole free in
    let k = w.parts b lt in
    let one = same b (omega arith) (omega (arith, k.end, itself)) ∙ free-held t q b w free itself in
    let r = remove-IsValid slot_nb (nb_page_of t) q' b valid one in
    record {
      valid = r.0;
      gone = λ e. elim (Bool-cases (among b (b + nb_page_of t b) e)) [
        | inl here ↦
            let i = among→le b (b + nb_page_of t b) e here in
            let own = same e i.0 i.1 ∙ held_inside t q b e w k free itself i.0 i.1 in
            rw here (omega (arith, r.1 (is e), own))
        | inr out ↦
            let other : is e b ≡ 0 = elim (among→out b (b + nb_page_of t b) e out) [
              | inl a ↦ ground arith
              | inr a ↦ ground (arith, k.end, itself)
            ] in
            rw out (omega (arith, r.1 (is e), other))
      ];
    }

-- The block at `pbh` is in use.
module _ (t : Table) (q : QuickList) (pbh : ℕ) (w : IsWellFormed t q) (itself : head_of t pbh ≡ pbh)
    (lt : pbh < superpage_page_nb) (used : is_unused_at t pbh ≡ false) where
  abbrev pub block_end : ℕ
  block_end = pbh + nb_page_of t pbh

  pub block : IsBlock t pbh
  block = w.parts pbh lt

  pub record IsMergedLeft (start : ℕ) (q' : QuickList) : Type 0 where
    pub le : start ≤ pbh
    pub border : IsBorder t start
    pub inner : (n : ℕ) → start ≤ n → n < pbh → is_unused_at t n ≡ true
    pub before : (n : ℕ) → n + 1 ≡ start → is_unused_at t n ≡ false
    pub taken : IsTaken t q start pbh q'

  pub record IsMergedRight (q' : QuickList) (end : ℕ) (q'' : QuickList) : Type 0 where
    pub ge : block_end ≤ end
    pub room : end ≤ superpage_page_nb
    pub border : IsBorder t end
    pub inner : (n : ℕ) → block_end ≤ n → n < end → is_unused_at t n ≡ true
    pub after : is_unused_at t end ≡ false
    pub taken : IsTaken t q' block_end end q''

  stays : (lo : ℕ) (q' : QuickList) → IsValid slot_nb (nb_page_of t) q' → IsTaken t q' lo lo q'
  stays lo q' valid = record {
    valid = valid;
    gone = λ e. let out : among lo lo e ≡ false = ground arith in rw out refl;
  }

  -- Unused neighbours are merged, so the page before an unused block is in use.
  before_free :
      (n b : ℕ) → n + 1 ≡ b → is_unused_at t b ≡ true → head_of t b ≡ b → is_unused_at t n ≡ false
  before_free n b e free first = elim (Bool-cases (is_unused_at t n)) [
    | inl u ↦
        let u' : is_unused_at t (n + 1) ≡ true = ap (is_unused_at t) e ∙ free in
        let h = w.merged n u u' in
        let h' : head_of t (n + 1) ≡ head_of t b = ap (head_of t) e in
        let k = w.parts n (omega (arith, unused_inside t n w.whole u)) in
        absurd (omega (arith, h, h', first, k.start))
    | inr v ↦ v
  ]

  merged_left :
      0 < pbh
      → is_unused_at t (pbh - 1) ≡ true
      → IsMergedLeft (head_of t (pbh - 1)) (remove slot_nb (nb_page_of t) q (head_of t (pbh - 1)))
  merged_left pos free = record {
    le = omega (arith, k.start);
    border = inr head_itself;
    inner = λ n lo hi.
        ap (λ (x : PageBlockHeader). is_unused x.type) (k.alike n lo (omega (arith, k.end))) ∙ free;
    before = λ n e. before_free n (head_of t (pbh - 1)) e head_free head_itself;
    taken =
        subst
          (λ e.
            IsTaken t q (head_of t (pbh - 1)) e
              (remove slot_nb (nb_page_of t) q (head_of t (pbh - 1))))
          {y = pbh} ends
          (remove-IsTaken t q q (head_of t (pbh - 1)) w head_free head_itself w.valid
            (λ e lo hi. refl));
  }
    where
      k : IsBlock t (pbh - 1)
      k = w.parts (pbh - 1) (omega arith)

      first : header t (head_of t (pbh - 1)) ≡ header t (pbh - 1)
      first = head-head t (pbh - 1) k

      head_free : is_unused_at t (head_of t (pbh - 1)) ≡ true
      head_free = ap (λ (x : PageBlockHeader). is_unused x.type) first ∙ free

      head_itself : head_of t (head_of t (pbh - 1)) ≡ head_of t (pbh - 1)
      head_itself = ap (λ (x : PageBlockHeader). x.head) first

      ends : head_of t (pbh - 1) + nb_page_of t (head_of t (pbh - 1)) ≡ pbh
      ends = omega (
        arith,
        ap (λ (x : PageBlockHeader). x.nb_page) first,
        k.end,
        before_border t (pbh - 1) pbh k (inr itself) (omega arith),
      )

  pub merge_previous-IsMergedLeft :
      IsMergedLeft (merge_previous t q pbh).0 (merge_previous t q pbh).1
  unfolding merge_previous
  merge_previous-IsMergedLeft =
      elim (Bool-cases (ltb 0 pbh && is_unused (header t (pbh - 1)).type)) [
        | inl join ↦ rw join (merged_left (ground arith) (ground arith))
        | inr alone ↦ rw alone (record {
          le = omega arith;
          border = inr itself;
          inner = λ n lo hi. absurd (omega arith);
          before = λ n e.
              let at : pbh - 1 ≡ n = omega (arith, e) in
              subst (λ m. is_unused_at t m ≡ false) {y = n} at (ground (arith, e));
          taken = stays pbh q w.valid;
        })
      ]

  block_end-IsBorder : IsBorder t block_end
  block_end-IsBorder =
      subst (λ h. IsBorder t (h + nb_page_of t pbh)) {y = pbh} itself
        (end-IsBorder t pbh w.parts block)

  merged_right :
      (q' : QuickList)
      → IsValid slot_nb (nb_page_of t) q'
      → ((e : ℕ) → pbh ≤ e → held (is e) q' ≡ held (is e) q)
      → is_unused_at t block_end ≡ true
      → IsMergedRight q'
          (block_end + nb_page_of t block_end)
          (remove slot_nb (nb_page_of t) q' block_end)
  merged_right q' valid same free = record {
    ge = omega arith;
    room = omega (arith, k.inside, first);
    border = border;
    inner = λ n lo hi.
        ap (λ (x : PageBlockHeader). is_unused x.type)
          (k.alike n (omega (arith, first)) (omega (arith, first)))
        ∙ free;
    after = after (Bool-cases (is_unused_at t (block_end + nb_page_of t block_end)));
    taken = remove-IsTaken t q q' block_end w free first valid (λ e lo hi. same e (omega arith));
  }
    where
      k : IsBlock t block_end
      k = w.parts block_end (unused_inside t block_end w.whole free)

      first : head_of t block_end ≡ block_end
      first = elim block_end-IsBorder [
        | inl e ↦ absurd (omega (arith, e, unused_inside t block_end w.whole free))
        | inr h ↦ h
      ]

      border : IsBorder t (block_end + nb_page_of t block_end)
      border =
          subst (λ h. IsBorder t (h + nb_page_of t block_end)) {y = block_end} first
            (end-IsBorder t block_end w.parts k)

      after :
          (is_unused_at t (block_end + nb_page_of t block_end) ≡ true)
            ⊎ (is_unused_at t (block_end + nb_page_of t block_end) ≡ false)
          → is_unused_at t (block_end + nb_page_of t block_end) ≡ false
      after (inr v) = v
      after (inl u) =
          let end = block_end + nb_page_of t block_end in
          let at : head_of t end ≡ end = elim border [
            | inl e ↦ absurd (omega (arith, e, unused_inside t end w.whole u))
            | inr h ↦ h
          ] in
          let v = before_free (end - 1) end (omega (arith, k.end, first)) u at in
          let last =
            ap (λ (x : PageBlockHeader). is_unused x.type)
              (k.alike (end - 1) (omega (arith, first, k.end)) (omega (arith, first, k.end))) in
          cc (v, last, free)

  pub merge_next-IsMergedRight :
      (q' : QuickList)
      → IsValid slot_nb (nb_page_of t) q'
      → ((e : ℕ) → pbh ≤ e → held (is e) q' ≡ held (is e) q)
      → IsMergedRight q' (merge_next t q' block_end).0 (merge_next t q' block_end).1
  unfolding merge_next
  merge_next-IsMergedRight q' valid same =
      elim (Bool-cases (ltb block_end superpage_page_nb && is_unused (header t block_end).type)) [
        | inl join ↦ rw join (merged_right q' valid same (ground arith))
        | inr alone ↦ rw alone (record {
          ge = omega arith;
          room = omega (arith, block.inside, itself);
          border = block_end-IsBorder;
          inner = λ n lo hi. absurd (omega arith);
          after = elim (Bool-cases (is_unused_at t block_end)) [
            | inl u ↦ let inside = unused_inside t block_end w.whole u in ground (arith, inside)
            | inr v ↦ v
          ];
          taken = stays block_end q' valid;
        })
      ]
