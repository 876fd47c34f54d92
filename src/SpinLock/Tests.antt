-- ===== src/SpinLock/Tests.antt =====
-- Two threads at a free `SpinLock` of src/concurrency.h.
use mathlib.Core.Bool.{true≢false}
use givy.Base.{ℕ, Bool, sym, false, List, [], ◌∷◌}
use givy.SpinLock.{Machine, outside}
use givy.SpinLock.Exclusion.{IsExclusive, run, run-IsExclusive}

abbrev free : Machine
free = record { locked = false; threads = λ i. outside }

free-IsExclusive : IsExclusive free
free-IsExclusive = record {
  flagged = λ i h. absurd (true≢false (sym h));
  alone = λ i j h k. absurd (true≢false (sym h));
}

abbrev schedule : List (ℕ × Bool)
schedule = (0, false) ∷ (1, false) ∷ (0, false) ∷ (1, false) ∷ (0, false) ∷ []

run-IsExclusive_example : IsExclusive (run schedule free)
run-IsExclusive_example = run-IsExclusive schedule free free-IsExclusive
