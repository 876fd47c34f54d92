-- ===== src/IntrusiveList/Shared/Tests.antt =====
-- Two threads that push on a list with root 1, and the use of the theorem of src/intrusive_list.h.
use mathlib.Core.Path.{subst}
use givy.Base.{refl, ap, Bool-cases, inl, inr, false, [], ◌==◌, if◌then◌else◌}
use givy.IntrusiveList.Ring.{Heap}
use givy.IntrusiveList.Shared.{
  Machine, Operation, Thread, push_back, apply_all, outside, locking, step,
}
use givy.IntrusiveList.Shared.Order.{effect, Allowed}
use givy.IntrusiveList.Shared.Steps.{IsShared, free, step-IsShared}

abbrev alone : Heap
alone = record { prev = λ a. a; next = λ a. a }

-- Thread 0 is about to push element 2, the others do nothing.
abbrev machine : Machine
machine = record {
  heap = alone;
  locked = false;
  threads = λ j. if j == 0 then locking (push_back 2) else outside;
}

abbrev operation : Thread → Operation
operation (locking op) = op
operation _ = apply_all

step-IsShared_example :
    IsShared 1 (step 1 machine 0 apply_all false) (effect (locking (push_back 2)) [])
step-IsShared_example =
    step-IsShared 1 machine 0 apply_all false []
      (free refl (λ j. elim (Bool-cases (j == 0)) [ inl e ↦ rw e refl | inr e ↦ rw e refl ])
        ((refl, refl), (refl, refl)))
      (λ u mine e.
        subst (λ op. Allowed 1 op alone []) {x = push_back 2} (ap operation e) ((refl, refl), refl))
