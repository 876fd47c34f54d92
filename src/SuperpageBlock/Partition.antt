-- ===== src/SuperpageBlock/Partition.antt =====
-- The page blocks of the table in src/allocator.h, as the comments of `PageBlockHeader` describe
-- them: they partition the table, and every header of one says the same.
use givy.Base.{
  ℕ, ◌+◌, ◌-◌, ◌≤◌, ◌<◌, ◌≡◌, ◌⊎◌, sym, ap, ◌∙◌, arith, Bool, true, false, ltb, leb, Bool-cases,
  inl, inr, ltb→lt, ltb→le,
}
use givy.Space.{superpage_page_nb}
use givy.SuperpageBlock.{Table, PageBlockHeader, MemoryType, is_unused, header, nb_page_of, format}
use givy.SuperpageBlock.Headers.{among}

abbrev pub head_of : Table → ℕ → ℕ
head_of t n = (header t n).head

abbrev pub is_unused_at : Table → ℕ → Bool
is_unused_at t n = is_unused (header t n).type

-- The page block around the header `n`: it lies in the table, and all its headers are alike.
pub record IsBlock (t : Table) (n : ℕ) : Type 0 where
  pub start : head_of t n ≤ n
  pub end : n < head_of t n + nb_page_of t n
  pub inside : head_of t n + nb_page_of t n ≤ superpage_page_nb
  pub alike : (m : ℕ) → head_of t n ≤ m → m < head_of t n + nb_page_of t n → header t m ≡ header t n

abbrev pub IsPartitioned : Table → Type 0
IsPartitioned t = (n : ℕ) → n < superpage_page_nb → IsBlock t n

-- A place where no block of the table continues.
abbrev pub IsBorder : Table → ℕ → Type 0
IsBorder t b = (b ≡ superpage_page_nb) ⊎ (head_of t b ≡ b)

pub among_in : (lo hi n : ℕ) → lo ≤ n → n < hi → among lo hi n ≡ true
among_in lo hi n a b = ground arith

pub among_out : (lo hi n : ℕ) → (n < lo) ⊎ (hi ≤ n) → among lo hi n ≡ false
among_out lo hi n (inl a) = ground arith
among_out lo hi n (inr a) = ground arith

pub among→le : (lo hi n : ℕ) → among lo hi n ≡ true → (lo ≤ n) × (n < hi)
among→le lo hi n h = ground arith

pub among→out : (lo hi n : ℕ) → among lo hi n ≡ false → (n < lo) ⊎ (hi ≤ n)
among→out lo hi n h = elim (Bool-cases (leb lo n)) [
  | inl a ↦ inr (ground arith)
  | inr a ↦ inl (ground arith)
]

pub head-head : (t : Table) (n : ℕ) → IsBlock t n → header t (head_of t n) ≡ header t n
head-head t n b = b.alike (head_of t n) (omega arith) (omega (arith, b.start, b.end))

-- A block that starts before a border ends before it.
pub before_border :
    (t : Table) (n b : ℕ) → IsBlock t n → IsBorder t b → n < b → head_of t n + nb_page_of t n ≤ b
before_border t n b k (inl e) lt = omega (arith, k.inside, e)
before_border t n b k (inr e) lt = elim (Bool-cases (ltb b (head_of t n + nb_page_of t n))) [
  | inl over ↦
      let h =
        ap (λ (x : PageBlockHeader). x.head)
          (k.alike b (omega (arith, k.start)) (ltb→lt _ _ over)) in
      absurd (omega (arith, h, e, k.start))
  | inr fits ↦ ltb→le _ _ fits
]

pub behind_border :
    (t : Table) (n b : ℕ)
    → IsBlock t n
    → IsBorder t b
    → n < superpage_page_nb
    → b ≤ n
    → b ≤ head_of t n
behind_border t n b k (inl e) lt le = absurd (omega (arith, e))
behind_border t n b k (inr e) lt le = elim (Bool-cases (ltb (head_of t n) b)) [
  | inl over ↦
      let h =
        ap (λ (x : PageBlockHeader). x.head)
          (k.alike b (omega (arith, ltb→lt _ _ over)) (omega (arith, k.end))) in
      absurd (omega (arith, h, e, ltb→lt _ _ over))
  | inr fits ↦ ltb→le _ _ fits
]

-- A block whose headers stay as they were stays a block.
pub IsBlock-kept :
    (t t' : Table) (n : ℕ)
    → IsBlock t n
    → ((m : ℕ) → head_of t n ≤ m → m < head_of t n + nb_page_of t n → header t' m ≡ header t m)
    → IsBlock t' n
IsBlock-kept t t' n k same =
    let e = same n k.start k.end in
    let h : head_of t' n ≡ head_of t n = ap (λ (x : PageBlockHeader). x.head) e in
    let s : nb_page_of t' n ≡ nb_page_of t n = ap (λ (x : PageBlockHeader). x.nb_page) e in
    record {
      start = omega (arith, h, k.start);
      end = omega (arith, h, s, k.end);
      inside = omega (arith, h, s, k.inside);
      alike = λ m lo hi.
          same m (omega (arith, h)) (omega (arith, h, s))
          ∙ k.alike m (omega (arith, h)) (omega (arith, h, s))
          ∙ sym e;
    }

-- What `format_pbh` writes is a block.
pub IsBlock-format :
    (t : Table) (lo hi n : ℕ) (ty : MemoryType)
    → lo ≤ n
    → n < hi
    → hi ≤ superpage_page_nb
    → ((m : ℕ) → lo ≤ m → m < hi → header t m ≡ format ty (hi - lo) lo)
    → IsBlock t n
IsBlock-format t lo hi n ty a b room same =
    let e = same n a b in
    let h : head_of t n ≡ lo = ap (λ (x : PageBlockHeader). x.head) e in
    let s : nb_page_of t n ≡ hi - lo = ap (λ (x : PageBlockHeader). x.nb_page) e in
    record {
      start = omega (arith, h);
      end = omega (arith, h, s);
      inside = omega (arith, h, s);
      alike = λ m c d. same m (omega (arith, h)) (omega (arith, h, s)) ∙ sym e;
    }

-- Between two borders, a part of the table may be cut in other blocks.
pub IsPartitioned-replace :
    (t t' : Table) (lo hi : ℕ)
    → IsPartitioned t
    → IsBorder t lo
    → IsBorder t hi
    → ((m : ℕ) → (m < lo) ⊎ (hi ≤ m) → header t' m ≡ header t m)
    → ((n : ℕ) → lo ≤ n → n < hi → IsBlock t' n)
    → IsPartitioned t'
IsPartitioned-replace t t' lo hi parts b_lo b_hi outside inside n lt =
    elim (Bool-cases (among lo hi n)) [
      | inl here ↦ let r = among→le lo hi n here in inside n r.0 r.1
      | inr out ↦ elim (among→out lo hi n out) [
        | inl left ↦
            let e = before_border t n lo (parts n lt) b_lo left in
            IsBlock-kept t t' n (parts n lt) (λ m a b. outside m (inl (omega (arith, e))))
        | inr right ↦
            let e = behind_border t n hi (parts n lt) b_hi lt right in
            IsBlock-kept t t' n (parts n lt) (λ m a b. outside m (inr (omega (arith, e))))
      ]
    ]
