-- ===== src/IntrusiveList/Atomic/Alone.antt =====
-- The loops of `AtomicForwardList` in src/intrusive_list.h end.
use givy.Base.{ℕ, ◌≡◌, refl, ap, ◌∙◌, arith, Bool, true, false, ◌==◌}
use givy.IntrusiveList.Atomic.{
  Thread, outside, push_load, push_store, push_exchange, pushed, take_load, take_exchange, taken,
  Shared, access, Machine, step,
}

abbrev pub finished : Thread → Bool
finished outside = true
finished (pushed was_empty) = true
finished (taken p) = true
finished _ = false

abbrev alone : Shared × Thread → Shared × Thread
alone r = access r.0 r.1 false

alone-finishes :
    (s : Shared) (th : Thread) → finished (alone (alone (alone (alone (s, th))))).1 ≡ true
unfolding access
alone-finishes s outside = refl
alone-finishes s (push_load h t) = ground arith
alone-finishes s (push_store h t expected) = ground arith
alone-finishes s (push_exchange h t expected) = ground arith
alone-finishes s (pushed was_empty) = refl
alone-finishes s take_load = ground arith
alone-finishes s (take_exchange previous) = ground arith
alone-finishes s (taken p) = refl

abbrev seen : Machine → ℕ → Shared × Thread
seen m i = (m.shared, m.threads i)

seen-step : (m : Machine) (i : ℕ) → seen (step m i false) i ≡ alone (seen m i)
unfolding step
seen-step m i = let e : (i == i) ≡ true = ground arith in rw e refl

-- A thread that makes four accesses of its own while no other thread makes one, and without a
-- spurious failure, has ended its operation, wherever in the operation it was.
pub step-finishes :
    (m : Machine) (i : ℕ)
    → finished ((step (step (step (step m i false) i false) i false) i false).threads i) ≡ true
step-finishes m i =
    ap (λ r. finished r.1)
      (seen-step (step (step (step m i false) i false) i false) i
        ∙ ap alone (
            seen-step (step (step m i false) i false) i
            ∙ ap alone (seen-step (step m i false) i ∙ ap alone (seen-step m i))))
    ∙ alone-finishes m.shared (m.threads i)
