-- ===== src/SuperpageBlock/Headers.antt =====
-- `format_pbh` of src/allocator.h, header by header, and the table that the constructor makes.
use mathlib.Core.Path.{subst}
use givy.Base.{
  ℕ, zero, suc, ◌+◌, ◌-◌, ◌≤◌, ◌≡◌, refl, ap, ◌∙◌, arith, Bool, true, false, ◌&&◌, length,
  length-set, get_or-set_self, get_or-set_ne, ltb, leb, ◌==◌, if◌then◌else◌, Bool-cases, inl, inr,
  ==→eq, ==→ne, set,
}
use givy.SuperpageBlock.{
  Table, PageBlockHeader, MemoryType, header, no_header, format, format_loop, format_pbh,
}

abbrev pub among : ℕ → ℕ → ℕ → Bool
among lo hi n = leb lo n && ltb n hi

length-format_loop :
    (h : PageBlockHeader) (left i : ℕ) (t : Table) → length (format_loop h left i t) ≡ length t
unfolding format_loop
length-format_loop h zero i t = refl
length-format_loop h (suc left) i t =
    length-format_loop h left (i + 1) (set t i h) ∙ length-set t i h

header-format_loop :
    (h : PageBlockHeader) (left i : ℕ) (t : Table) (n : ℕ)
    → i + left ≤ length t
    → header (format_loop h left i t) n ≡ (if among i (i + left) n then h else header t n)
unfolding format_loop
header-format_loop h zero i t n room =
    let out : among i (i + 0) n ≡ false = ground arith in rw out refl
header-format_loop h (suc left) i t n room =
    header-format_loop h left (i + 1) (set t i h) n (omega (arith, length-set t i h))
    ∙ elim (Bool-cases (i == n)) [
      | inl here ↦
          let out : among (i + 1) (i + 1 + left) n ≡ false = ground arith in
          let yes_in : among i (i + suc left) n ≡ true = ground arith in
          rw out (
            rw yes_in (
              subst (λ k. header (set t i h) k ≡ h) (==→eq _ _ here)
                (get_or-set_self t i h no_header (omega arith))))
      | inr other ↦
          let same : among (i + 1) (i + 1 + left) n ≡ among i (i + suc left) n = ground arith in
          rw same (
            ap (λ r. if among i (i + suc left) n then h else r)
              (get_or-set_ne t i n h no_header (==→ne _ _ other)))
    ]

pub length-format_pbh :
    (t : Table) (from to : ℕ) (ty : MemoryType) → length (format_pbh t from to ty) ≡ length t
unfolding format_pbh
length-format_pbh t from to ty = length-format_loop _ (to - from) from t

-- Formatting a range inside the table gives each header in it the type, the size of the range and
-- its first header as head, and leaves the others as they were.
pub header-format_pbh :
    (t : Table) (from to : ℕ) (ty : MemoryType) (n : ℕ)
    → from ≤ to
    → to ≤ length t
    → header (format_pbh t from to ty) n
      ≡ (if among from to n then format ty (to - from) from else header t n)
unfolding format_pbh
header-format_pbh t from to ty n le room =
    let end : from + (to - from) ≡ to = omega arith in
    subst
      (λ k.
        header (format_loop (format ty (to - from) from) (to - from) from t) n
        ≡ (if among from k n then format ty (to - from) from else header t n))
      end (header-format_loop (format ty (to - from) from) (to - from) from t n (omega arith))
