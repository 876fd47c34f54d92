-- ===== src/Coherence/Exit.antt =====
-- When the event loop of src/coherence.h returns.
use givy.Base.{ℕ, ◌^◌, ◌≤◌, ◌<◌, ◌≡◌, ◌≢◌, refl, sym, ◌∙◌, arith, Bool, true, false, []}
use mathlib.Core.Bool.{true≢false}
use givy.Coherence.{System}
use givy.Coherence.Counts.{told_all, told_lt, told_none, told_same, finishes}
use givy.Coherence.Termination.{IsCounted, sents, one_if}
use givy.Coherence.Requests.{Run, run-IsCounted}

-- The system that `nb` managers are constructed into.
pub record IsInitial (nb : ℕ) (s : System) : Type 0 where
  pub counters : (i : ℕ) → i < nb → (s.managers i).nb_node_still_running ≡ nb
  pub nothing_sent : (i : ℕ) → (s.managers i).sent ≡ 0
  pub none_finished : (i : ℕ) → i < nb → (s.managers i).finished ≡ false
  pub none_exited : (i : ℕ) → i < nb → (s.managers i).exited ≡ false
  pub no_message : (i : ℕ) → i < nb → s.inbox i ≡ []

one_if_le : (b : Bool) → one_if b ≤ 1
one_if_le true = omega arith
one_if_le false = omega arith

one_if-true : (b : Bool) → 0 < one_if b → b ≡ true
one_if-true true h = refl
one_if-true false h = absurd (omega arith)

pub initial-IsCounted : (nb : ℕ) (s : System) → nb < 2 ^ 64 → IsInitial nb s → IsCounted nb s
initial-IsCounted nb s small h = record {
  representable = small;
  balance = λ i lt.
      let t = told_same (λ j. 0) (sents s) i nb (λ j jn. h.nothing_sent j) in
      let f : one_if (s.managers i).finished ≡ 0 = rw (h.none_finished i lt) refl in
      let m : finishes (s.inbox i) ≡ 0 = rw (h.no_message i lt) refl in
      omega (arith, t, told_none i nb, f, m, h.counters i lt);
  bounded = λ i lt. omega (arith, h.counters i lt);
  ended = λ i lt e. absurd (true≢false (sym e ∙ h.none_exited i lt));
}

-- In every system that the managers reach: when the event loop of a node has returned, the node has
-- decremented its counter in its destructor, and the destructor of every other node has sent to it.
pub run-ended :
    (nb : ℕ) (s s' : System) (i j : ℕ)
    → nb < 2 ^ 64
    → IsInitial nb s
    → Run nb s s'
    → i < nb
    → (s'.managers i).exited ≡ true
    → j < nb
    → j ≢ i
    → ((s'.managers i).finished ≡ true) × (i < (s'.managers j).sent)
run-ended nb s s' i j small h r lt e jn ne =
    let c = run-IsCounted nb s s' r (initial-IsCounted nb s small h) in
    let t = told_lt (sents s') i nb lt in
    let zero_left = c.ended i lt e in
    let b = c.balance i lt in
    (
      one_if-true (s'.managers i).finished (omega (arith, t, zero_left, b)),
      told_all (sents s') i nb lt
          (omega (arith, t, zero_left, b, one_if_le (s'.managers i).finished)) j jn ne,
    )
