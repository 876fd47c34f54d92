-- ===== src/SpinLock/Exclusion.antt =====
-- Mutual exclusion by `SpinLock` of src/concurrency.h.
use mathlib.Core.Bool.{true≢false}
use givy.Base.{
  ℕ, ◌≡◌, ◌≢◌, refl, sym, ap, ◌∙◌, arith, Bool, true, false, not, ◌&&◌, List, [], ◌∷◌, ◌==◌,
  if◌then◌else◌, Bool-cases, inl, inr, ==→eq, ==→ne,
}
use givy.SpinLock.{Thread, outside, locking, inside, lock_round, unlock, Machine, access, step}

abbrev pub is_inside : Thread → Bool
is_inside inside = true
is_inside _ = false

-- A thread inside has set the flag, which is what `unlock` asserts, and is the only one inside.
pub record IsExclusive (m : Machine) : Type 0 where
  pub flagged : (i : ℕ) → is_inside (m.threads i) ≡ true → m.locked ≡ true
  pub alone : (i j : ℕ) → is_inside (m.threads i) ≡ true → is_inside (m.threads j) ≡ true → i ≡ j

abbrev moved : Machine → ℕ → Bool × Thread → Machine
moved m i r = record { locked = r.0; threads = λ j. if j == i then r.1 else m.threads j }

-- Where another thread that is inside excludes the new state of `i`, and finds the flag set.
moved-IsExclusive :
    (m : Machine) (i : ℕ) (r : Bool × Thread)
    → IsExclusive m
    → (is_inside r.1 ≡ true → r.0 ≡ true)
    → ((j : ℕ) → j ≢ i → is_inside (m.threads j) ≡ true → (r.0 ≡ true) × (is_inside r.1 ≡ false))
    → IsExclusive (moved m i r)
moved-IsExclusive m i r x own others = record {
  flagged = λ j. elim (Bool-cases (j == i)) [
    | inl e ↦ rw e own
    | inr e ↦ rw e (λ h. (others j (==→ne j i e) h).0)
  ];
  alone = λ j k. elim (Bool-cases (j == i)) [
    | inl e ↦ elim (Bool-cases (k == i)) [
      | inl q ↦ λ a b. ==→eq j i e ∙ sym (==→eq k i q)
      | inr q ↦ rw (e, q) (λ a b. absurd (true≢false (sym a ∙ (others k (==→ne k i q) b).1)))
    ]
    | inr e ↦ elim (Bool-cases (k == i)) [
      | inl q ↦ rw (e, q) (λ a b. absurd (true≢false (sym b ∙ (others j (==→ne j i e) a).1)))
      | inr q ↦ rw (e, q) (λ a b. x.alone j k a b)
    ]
  ];
}

access-IsExclusive :
    (m : Machine) (i : ℕ) (th : Thread) (spurious : Bool)
    → m.threads i ≡ th
    → IsExclusive m
    → IsExclusive (moved m i (access m.locked th spurious))
unfolding access lock_round unlock
access-IsExclusive m i outside spurious e x =
    moved-IsExclusive m i (m.locked, locking) x (λ h. absurd (true≢false (sym h)))
      (λ j ne h. (x.flagged j h, refl))
access-IsExclusive m i locking spurious e x = elim (Bool-cases (not m.locked && not spurious)) [
  | inl free ↦ rw free (
      moved-IsExclusive m i (true, inside) x (λ h. refl)
        (λ j ne h. let f = x.flagged j h in ground arith))
  | inr taken ↦ rw taken (
      moved-IsExclusive m i (m.locked, locking) x (λ h. absurd (true≢false (sym h)))
        (λ j ne h. (x.flagged j h, refl)))
]
access-IsExclusive m i inside spurious e x =
    moved-IsExclusive m i (false, outside) x (λ h. absurd (true≢false (sym h)))
      (λ j ne h. absurd (ne (x.alone j i h (ap is_inside e))))

step-IsExclusive :
    (m : Machine) (i : ℕ) (spurious : Bool) → IsExclusive m → IsExclusive (step m i spurious)
unfolding step
step-IsExclusive m i spurious x = access-IsExclusive m i (m.threads i) spurious refl x

-- A schedule: which thread makes the next access, and whether it fails for no reason.
abbrev pub run : List (ℕ × Bool) → Machine → Machine
run [] m = m
run (s ∷ rest) m = run rest (step m s.0 s.1)

-- From a free lock, under any schedule of any threads, at most one thread at a time is between its
-- `lock` and its `unlock`, and it finds the flag set.
pub run-IsExclusive : (l : List (ℕ × Bool)) (m : Machine) → IsExclusive m → IsExclusive (run l m)
run-IsExclusive [] m x = x
run-IsExclusive (s ∷ rest) m x =
    run-IsExclusive rest (step m s.0 s.1) (step-IsExclusive m s.0 s.1 x)
