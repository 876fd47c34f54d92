-- ===== src/Range/Iterate.antt =====
-- The iterators of `Range` in src/range.h, over unsigned integers of 64 bits.
use givy.Base.{
  ℕ, zero, suc, ◌+◌, ◌-◌, ◌%◌, ◌^◌, ◌≤◌, ◌<◌, ◌≡◌, refl, ap, arith, true, false, List, [], ◌∷◌,
  ◌==◌, if◌then◌else◌,
}
use givy.Range.{Range}

-- An iterator is the value that it stands at.
abbrev pub increment : ℕ → ℕ
increment i = (i + 1) % 2 ^ 64

abbrev pub decrement : ℕ → ℕ
decrement i = (i + 2 ^ 64 - 1) % 2 ^ 64

abbrev pub begin : Range → ℕ
begin r = r.start_

abbrev pub end : Range → ℕ
end r = r.end_

-- What a loop from `i` to `stop` sees, in at most `fuel` steps.
unfoldable pub iterate_from : ℕ → ℕ → ℕ → List ℕ
iterate_from zero stop i = []
iterate_from (suc fuel) stop i =
    let rest = iterate_from fuel stop (increment i) in if i == stop then [] else i ∷ rest

-- A loop over a range: it makes at most one step for each word.
abbrev pub iterate : ℕ → Range → List ℕ
iterate fuel r = iterate_from fuel (end r) (begin r)

-- `n` numbers from `i` on.
abbrev pub ascending : ℕ → ℕ → List ℕ
ascending i zero = []
ascending i (suc n) = i ∷ ascending (i + 1) n

iterate_from-ascending :
    (fuel n stop i : ℕ)
    → stop ≡ i + n
    → stop < 2 ^ 64
    → n < fuel
    → iterate_from fuel stop i ≡ ascending i n
unfolding iterate_from
iterate_from-ascending zero n stop i e b lt = absurd (omega arith)
iterate_from-ascending (suc fuel) zero stop i e b lt =
    let at : (i == stop) ≡ true = ground arith in rw at refl
iterate_from-ascending (suc fuel) (suc n) stop i e b lt =
    let not_yet : (i == stop) ≡ false = ground arith in
    let up : increment i ≡ i + 1 = omega arith in
    rw (not_yet, up)
      (ap (λ l. i ∷ l) (iterate_from-ascending fuel n stop (i + 1) (omega arith) b (omega arith)))

-- A loop over a range that starts at or before its end sees each number of it once and in order, and
-- ends after one step more than there are numbers.
pub iterate-ascending :
    (fuel : ℕ) (r : Range)
    → r.start_ ≤ r.end_
    → r.end_ < 2 ^ 64
    → r.end_ - r.start_ < fuel
    → iterate fuel r ≡ ascending r.start_ (r.end_ - r.start_)
iterate-ascending fuel r le b lt =
    iterate_from-ascending fuel (r.end_ - r.start_) r.end_ r.start_ (omega arith) b lt
