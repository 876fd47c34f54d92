-- ===== src/Tracker/Acquire/Middle.antt =====
-- The scan of the middle cells in `acquire`.
use mathlib.Core.Path.{subst}
use givy.Base.{
  ℕ, zero, suc, ◌+◌, ◌≤◌, ◌<◌, ◌≡◌, refl, arith, inl, inr, ◌==◌, Bool-cases, ==→eq, ==→ne,
}
use givy.BitMask.{zeros}
use givy.Tracker.{Table, load}
use givy.Tracker.Ranges.{ZeroCells}
use givy.Tracker.Acquire.{Scan, blocked, clear, scan_cells}

-- The scan stops at the first cell that is not zeros, or finds all of them zeros.
pub data Scanned (t : Table) (first last : ℕ) : Scan → Type 0 where
  blocked_at :
      {idx c : ℕ} → first ≤ idx → idx < last → c ≡ load t idx → Scanned t first last (blocked idx c)
  all_clear : {c : ℕ} → ZeroCells t first last → Scanned t first last (clear c)

Scanned-suc :
    (t : Table) (first last : ℕ) (r : Scan)
    → load t first ≡ 0
    → Scanned t (first + 1) last r
    → Scanned t first last r
Scanned-suc t first last r e (blocked_at lo hi same) = blocked_at (omega arith) hi same
Scanned-suc t first last r e (all_clear free) = all_clear λ j lo hi.
    elim (Bool-cases (first == j)) [
      | inl here ↦ subst (λ k. load t k ≡ 0) (==→eq _ _ here) e
      | inr later ↦ free j (omega (arith, ==→ne _ _ later)) hi
    ]

pub scan_cells-Scanned :
    (t : Table) (left idx c : ℕ) → Scanned t idx (idx + left) (scan_cells t left idx c)
unfolding scan_cells
scan_cells-Scanned t zero idx c = all_clear λ j lo hi. absurd (omega arith)
scan_cells-Scanned t (suc left) idx c = elim (Bool-cases (load t idx == zeros)) [
  | inl free ↦ rw free (
      Scanned-suc t idx (idx + suc left) _ (==→eq _ _ free) (
        subst (λ k. Scanned t (idx + 1) k (scan_cells t left (idx + 1) (load t idx))) (omega arith)
          (scan_cells-Scanned t left (idx + 1) (load t idx))))
  | inr stop ↦ rw stop (blocked_at (omega arith) (omega arith) refl)
]
