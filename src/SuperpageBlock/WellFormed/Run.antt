-- ===== src/SuperpageBlock/WellFormed/Run.antt =====
-- A superpage block of src/allocator.h under any sequence of allocations and deallocations of page
-- blocks.
use mathlib.Core.Path.{subst}
use givy.Base.{
  ℕ, ◌+◌, ◌<◌, ◌≡◌, refl, sym, ap, ◌∙◌, arith, Bool, true, false, Option, Bool-cases, inl, inr,
}
use givy.Space.{superpage_page_nb}
use givy.SuperpageBlock.{
  PageBlockHeader, MemoryType, SuperpageBlock, is_unused, header, nb_page_of, allocate_page_block,
  free_page_block,
}
use givy.SuperpageBlock.Headers.{among}
use givy.SuperpageBlock.Partition.{head_of, among→le}
use givy.SuperpageBlock.WellFormed.{IsSameBlock, IsGood}
use givy.SuperpageBlock.WellFormed.Given.{Given, given, nothing}
use givy.SuperpageBlock.WellFormed.Allocate.{allocate_page_block-Given}
use givy.SuperpageBlock.WellFormed.Free.{free_page_block-IsFreed}

-- The types of the page blocks that are allocated and freed.
abbrev pub is_small_or_medium : MemoryType → Bool
is_small_or_medium MemoryType.small = true
is_small_or_medium MemoryType.medium = true
is_small_or_medium MemoryType.huge = false
is_small_or_medium MemoryType.unused = false
is_small_or_medium MemoryType.reserved = false

-- The blocks that are reached from `s`. A page block is freed by its first header.
pub data Run (s : SuperpageBlock) : SuperpageBlock → Type 0 where
  start : Run s s
  allocated :
      {s' : SuperpageBlock} (k : ℕ) (ty : MemoryType)
      → Run s s'
      → 0 < k
      → is_small_or_medium ty ≡ true
      → Run s (allocate_page_block s' k ty).1
  freed :
      {s' : SuperpageBlock} (pbh : ℕ)
      → Run s s'
      → pbh < superpage_page_nb
      → head_of s'.pbh_table pbh ≡ pbh
      → is_small_or_medium (header s'.pbh_table pbh).type ≡ true
      → Run s (free_page_block s' pbh)

abbrev pub is_fixed : MemoryType → Bool
is_fixed MemoryType.small = false
is_fixed MemoryType.medium = false
is_fixed MemoryType.huge = true
is_fixed MemoryType.unused = false
is_fixed MemoryType.reserved = true

fixed-used : (ty : MemoryType) → is_fixed ty ≡ true → is_unused ty ≡ false
fixed-used MemoryType.small h = cc
fixed-used MemoryType.medium h = cc
fixed-used MemoryType.huge h = refl
fixed-used MemoryType.unused h = cc
fixed-used MemoryType.reserved h = refl

pub small_or_medium-used : (ty : MemoryType) → is_small_or_medium ty ≡ true → is_unused ty ≡ false
small_or_medium-used MemoryType.small h = refl
small_or_medium-used MemoryType.medium h = refl
small_or_medium-used MemoryType.huge h = cc
small_or_medium-used MemoryType.unused h = cc
small_or_medium-used MemoryType.reserved h = cc

small_or_medium-fixed : (ty : MemoryType) → is_small_or_medium ty ≡ true → is_fixed ty ≡ false
small_or_medium-fixed MemoryType.small h = refl
small_or_medium-fixed MemoryType.medium h = refl
small_or_medium-fixed MemoryType.huge h = cc
small_or_medium-fixed MemoryType.unused h = cc
small_or_medium-fixed MemoryType.reserved h = cc

-- What every step keeps: the invariant, the other fields, and the headers of page blocks that are
-- reserved or of a huge allocation.
pub record IsKept (s s' : SuperpageBlock) : Type 0 where
  pub good : IsGood s'
  pub same : IsSameBlock s s'
  pub fixed :
      (n : ℕ)
      → is_fixed (header s.pbh_table n).type ≡ true
      → header s'.pbh_table n ≡ header s.pbh_table n

IsKept-trans : (s s' s'' : SuperpageBlock) → IsKept s s' → IsKept s' s'' → IsKept s s''
IsKept-trans s s' s'' k l = record {
  good = l.good;
  same = record {
    owner = l.same.owner ∙ k.same.owner;
    superpages = l.same.superpages ∙ k.same.superpages;
    huge_index = l.same.huge_index ∙ k.same.huge_index;
  };
  fixed = λ n f.
      let e = k.fixed n f in l.fixed n (ap (λ (x : PageBlockHeader). is_fixed x.type) e ∙ f) ∙ e;
}

IsKept-refl : (s : SuperpageBlock) → IsGood s → IsKept s s
IsKept-refl s w = record {
  good = w;
  same = record { owner = refl; superpages = refl; huge_index = refl };
  fixed = λ n f. refl;
}

pub Given-IsKept :
    (s : SuperpageBlock) (k : ℕ) (ty : MemoryType) (r : Option ℕ × SuperpageBlock)
    → IsGood s
    → Given s k ty r
    → IsKept s r.1
Given-IsKept s k ty r w (given good same first room was types kept) = record {
  good = good;
  same = same;
  fixed = λ n f. kept n (fixed-used _ f);
}
Given-IsKept s k ty r w (nothing {s'} unchanged none_fits) =
    subst (λ x. IsKept s x) {y = s'} (sym unchanged) (IsKept-refl s w)

freed-IsKept :
    (s : SuperpageBlock) (pbh : ℕ)
    → IsGood s
    → pbh < superpage_page_nb
    → head_of s.pbh_table pbh ≡ pbh
    → is_small_or_medium (header s.pbh_table pbh).type ≡ true
    → IsKept s (free_page_block s pbh)
freed-IsKept s pbh w lt itself ty =
    let t = s.pbh_table in
    let r = free_page_block-IsFreed s pbh w itself lt (small_or_medium-used _ ty) in
    record {
      good = r.good;
      same = r.same;
      fixed = λ n f.
          r.kept n (fixed-used _ f) (elim (Bool-cases (among pbh (pbh + nb_page_of t pbh) n)) [
            | inl own ↦
                let i = among→le pbh (pbh + nb_page_of t pbh) n own in
                let same =
                  (w.parts pbh lt).alike n (omega (arith, itself)) (omega (arith, itself)) in
                let f' = ap (λ (x : PageBlockHeader). is_fixed x.type) same in
                let g = small_or_medium-fixed _ ty in cc (f, f', g)
            | inr out ↦ out
          ]);
    }

-- Whatever page blocks are allocated and freed, the invariant of the superpage block holds, its
-- other fields stay, and so do the headers of reserved pages and of a huge allocation.
pub Run-IsKept : (s : SuperpageBlock) {s' : SuperpageBlock} → IsGood s → Run s s' → IsKept s s'
Run-IsKept s w start = IsKept-refl s w
Run-IsKept s w (allocated {s'} k ty run pos used) =
    let before = Run-IsKept s w run in
    IsKept-trans s s' _ before (
      Given-IsKept s' k ty _ before.good
        (allocate_page_block-Given s' k ty before.good pos (small_or_medium-used ty used)))
Run-IsKept s w (freed {s'} pbh run lt itself ty) =
    let before = Run-IsKept s w run in
    IsKept-trans s s' _ before (freed-IsKept s' pbh before.good lt itself ty)
