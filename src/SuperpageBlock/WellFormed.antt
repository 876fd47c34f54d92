-- ===== src/SuperpageBlock/WellFormed.antt =====
-- The invariant of a superpage block of src/allocator.h, after the comments of `PageBlockHeader`:
-- the page blocks partition the table, the quick list holds exactly the unused ones, and unused
-- neighbours are merged.
pub mod Cut
pub mod Given
pub mod Allocate
pub mod Merge
pub mod Free
pub mod Create
pub mod Pages
pub mod Run
pub mod InUse
use mathlib.Core.Path.{subst}
use givy.Base.{
  ℕ, zero, suc, ◌+◌, ◌-◌, ◌≤◌, ◌<◌, ◌≡◌, ◌≢◌, ◌⊎◌, refl, sym, ap, ◌∙◌, arith, Bool, true, false,
  ◌&&◌, List, [], ◌∷◌, length, get_or, ltb, leb, ◌==◌, if◌then◌else◌, Bool-cases, inl, inr, ==→eq,
  ==→ne, ltb→lt, ltb→le, eq→==,
}
use givy.QuickList.{QuickList}
use givy.QuickList.Laws.{held, is, IsValid}
use givy.QuickList.Sizes.{IsValid-same}
use givy.Space.{superpage_page_nb}
use givy.SuperpageBlock.{
  Table, PageBlockHeader, MemoryType, SuperpageBlock, unused, huge, reserved, available_pb_index,
  is_unused, header, no_header, nb_page_of, format, slot_nb,
}
use givy.SuperpageBlock.Headers.{among}
use givy.SuperpageBlock.Partition.{
  head_of, is_unused_at, IsBlock, IsPartitioned, IsBorder, IsPartitioned-replace, among→le,
  among→out, among_in, among_out, head-head,
}

-- An unused block starts here.
abbrev pub is_free : Table → ℕ → Bool
is_free t e = is_unused_at t e && (head_of t e == e)

abbrev pub one_if : Bool → ℕ
one_if b = if b then 1 else 0

pub record IsWellFormed (t : Table) (q : QuickList) : Type 0 where
  pub whole : length t ≡ superpage_page_nb
  pub parts : IsPartitioned t
  pub valid : IsValid slot_nb (nb_page_of t) q
  pub listed : (e : ℕ) → held (is e) q ≡ one_if (is_free t e)
  pub merged :
      (n : ℕ)
      → is_unused_at t n ≡ true
      → is_unused_at t (n + 1) ≡ true
      → head_of t n ≡ head_of t (n + 1)

abbrev pub IsGood : SuperpageBlock → Type 0
IsGood s = IsWellFormed s.pbh_table s.unused_list

-- The invariant, with the reserved pages in front and those of a huge allocation at the end.
pub record IsLaidOut (header_space_pages : ℕ) (s : SuperpageBlock) : Type 0 where
  pub good : IsGood s
  pub room : header_space_pages ≤ available_pb_index s
  pub headers : (n : ℕ) → n < header_space_pages → (header s.pbh_table n).type ≡ reserved
  pub huge_pages :
      (n : ℕ)
      → available_pb_index s ≤ n
      → n < superpage_page_nb
      → header s.pbh_table n
        ≡ format huge (superpage_page_nb - available_pb_index s) (available_pb_index s)

-- A header that is unused lies in the table.
pub header_behind : (t : Table) (n : ℕ) → length t ≤ n → header t n ≡ no_header
header_behind [] n h = refl
header_behind (x ∷ t) zero h = absurd (omega arith)
header_behind (x ∷ t) (suc n) h = header_behind t n (omega arith)

pub unused_inside :
    (t : Table) (n : ℕ)
    → length t ≡ superpage_page_nb
    → is_unused_at t n ≡ true
    → n < superpage_page_nb
unused_inside t n whole u = elim (Bool-cases (ltb n superpage_page_nb)) [
  | inl lt ↦ ltb→lt _ _ lt
  | inr le ↦
      let e : header t n ≡ no_header = header_behind t n (omega (arith, whole, ltb→le _ _ le)) in
      let k : false ≡ is_unused_at t n = sym (ap (λ (x : PageBlockHeader). is_unused x.type) e) in
      absurd (false-ne-true (k ∙ u))
]
  where
    false-ne-true : false ≢ true
    false-ne-true h = cc

-- What is held starts an unused block.
pub held-free :
    (t : Table) (q : QuickList) (e : ℕ)
    → IsWellFormed t q
    → 0 < held (is e) q
    → (is_unused_at t e ≡ true) × (head_of t e ≡ e)
held-free t q e w pos = elim (Bool-cases (is_free t e)) [
  | inl free ↦ (ground arith, ==→eq _ _ (ground arith))
  | inr other ↦ absurd (omega (arith, w.listed e, ap one_if other))
]

pub free-held :
    (t : Table) (q : QuickList) (e : ℕ)
    → IsWellFormed t q
    → is_unused_at t e ≡ true
    → head_of t e ≡ e
    → held (is e) q ≡ 1
free-held t q e w u h =
    let free : is_free t e ≡ true = rw (u, eq→== _ _ h) refl in w.listed e ∙ ap one_if free

-- An unused block holds one element of the list, its first header; a used one holds none.
pub held_inside :
    (t : Table) (q : QuickList) (p e : ℕ)
    → IsWellFormed t q
    → IsBlock t p
    → is_unused_at t p ≡ true
    → head_of t p ≡ p
    → p ≤ e
    → e < p + nb_page_of t p
    → held (is e) q ≡ is e p
held_inside t q p e w b free itself lo hi =
    let same = b.alike e (omega (arith, itself)) (omega (arith, itself)) in
    let h : head_of t e ≡ p = ap (λ (x : PageBlockHeader). x.head) same ∙ itself in
    let u : is_unused_at t e ≡ true = ap (λ (x : PageBlockHeader). is_unused x.type) same ∙ free in
    w.listed e ∙ rw u (rw h refl)

pub held_used :
    (t : Table) (q : QuickList) (e : ℕ)
    → IsWellFormed t q
    → is_unused_at t e ≡ false
    → held (is e) q ≡ 0
held_used t q e w u = w.listed e ∙ rw u refl

pub type_of_unused : (x : MemoryType) → is_unused x ≡ true → unused ≡ x
type_of_unused MemoryType.unused e = refl
type_of_unused MemoryType.small e = cc
type_of_unused MemoryType.medium e = cc
type_of_unused MemoryType.huge e = cc
type_of_unused MemoryType.reserved e = cc

-- What allocating and freeing page blocks leaves alone.
pub record IsSameBlock (s s' : SuperpageBlock) : Type 0 where
  pub owner : s'.owner ≡ s.owner
  pub superpages : s'.superpage_nb ≡ s.superpage_nb
  pub huge_index : s'.huge_alloc_pb_index ≡ s.huge_alloc_pb_index

-- The end of a block is a border.
pub end-IsBorder :
    (t : Table) (n : ℕ) → IsPartitioned t → IsBlock t n → IsBorder t (head_of t n + nb_page_of t n)
end-IsBorder t n parts b = elim (Bool-cases (head_of t n + nb_page_of t n == superpage_page_nb)) [
  | inl last ↦ inl (==→eq _ _ last)
  | inr more ↦
      let e = head_of t n + nb_page_of t n in
      let lt : e < superpage_page_nb = omega (arith, b.inside, ==→ne _ _ more) in
      let next = parts e lt in
      elim (Bool-cases (head_of t e == e)) [
        | inl itself ↦ inr (==→eq _ _ itself)
        | inr earlier ↦
            let less : head_of t e < e = omega (arith, next.start, ==→ne _ _ earlier) in
            let mine = b.alike (e - 1) (omega (arith, b.start, b.end)) (omega (arith, b.end)) in
            let its = next.alike (e - 1) (omega (arith, less)) (omega (arith, next.end)) in
            let h = ap (λ (x : PageBlockHeader). x.head) (sym mine ∙ its) in
            let s = ap (λ (x : PageBlockHeader). x.nb_page) (sym mine ∙ its) in
            absurd (omega (arith, h, s, next.end))
      ]
]

-- The headers between two borders are written again, and the list follows.
module _ (t t' : Table) (q q' : QuickList) (lo hi : ℕ) (w : IsWellFormed t q) where
  pub IsWellFormed-replace :
      IsBorder t lo
      → IsBorder t hi
      → length t' ≡ superpage_page_nb
      → ((m : ℕ) → (m < lo) ⊎ (hi ≤ m) → header t' m ≡ header t m)
      → ((n : ℕ) → lo ≤ n → n < hi → IsBlock t' n)
      → IsValid slot_nb (nb_page_of t') q'
      → ((e : ℕ) → lo ≤ e → e < hi → held (is e) q' ≡ one_if (is_free t' e))
      → ((e : ℕ) → (e < lo) ⊎ (hi ≤ e) → held (is e) q' ≡ held (is e) q)
      → ((n : ℕ)
          → lo ≤ n + 1
          → n < hi
          → is_unused_at t' n ≡ true
          → is_unused_at t' (n + 1) ≡ true
          → head_of t' n ≡ head_of t' (n + 1))
      → IsWellFormed t' q'
  IsWellFormed-replace b_lo b_hi whole outside inside valid in_list out_list joint = record {
    whole = whole;
    parts = IsPartitioned-replace t t' lo hi w.parts b_lo b_hi outside inside;
    valid = valid;
    listed = λ e. elim (Bool-cases (among lo hi e)) [
      | inl here ↦ in_list e (among→le lo hi e here).0 (among→le lo hi e here).1
      | inr out ↦
          out_list e (among→out lo hi e out)
          ∙ w.listed e
          ∙ ap (λ (x : PageBlockHeader). one_if (is_unused x.type && (x.head == e)))
              (sym (outside e (among→out lo hi e out)))
    ];
    merged = λ n u v. elim (Bool-cases (leb lo (n + 1) && ltb n hi)) [
      | inl near ↦ joint n (ground arith) (ground arith) u v
      | inr far ↦
          let out : (n < lo) ⊎ (hi ≤ n) = among→out lo hi n (ground arith) in
          let out' : (n + 1 < lo) ⊎ (hi ≤ n + 1) = among→out lo hi (n + 1) (ground arith) in
          let e = outside n out in
          let e' = outside (n + 1) out' in
          ap (λ (x : PageBlockHeader). x.head) e
          ∙ w.merged n (ap (λ (x : PageBlockHeader). is_unused x.type) (sym e) ∙ u)
              (ap (λ (x : PageBlockHeader). is_unused x.type) (sym e') ∙ v)
          ∙ ap (λ (x : PageBlockHeader). x.head) (sym e')
    ];
  }

-- Where the list holds nothing between the borders, it does not see the change.
pub IsValid-outside :
    (t t' : Table) (q' : QuickList) (lo hi : ℕ)
    → ((m : ℕ) → (m < lo) ⊎ (hi ≤ m) → header t' m ≡ header t m)
    → IsValid slot_nb (nb_page_of t) q'
    → ((e : ℕ) → 0 < held (is e) q' → (e < lo) ⊎ (hi ≤ e))
    → IsValid slot_nb (nb_page_of t') q'
IsValid-outside t t' q' lo hi outside valid apart =
    IsValid-same slot_nb (nb_page_of t) (nb_page_of t') q'
      (λ e pos. ap (λ (x : PageBlockHeader). x.nb_page) (sym (outside e (apart e pos)))) valid
