-- ===== src/IntrusiveList/Atomic/Tests.antt =====
-- Thread 0 puts the element 2 into an empty `AtomicForwardList` of src/intrusive_list.h, the others
-- are outside.
use mathlib.Core.Bool.{true≢false}
use givy.Base.{
  zero, suc, sym, ℕ, ◌≡◌, refl, arith, true, false, none, some, List, [], ◌∷◌, ◌==◌, if◌then◌else◌,
}
use givy.IntrusiveList.Atomic.{Thread, outside, push_exchange, Machine, step}
use givy.IntrusiveList.Atomic.Inv.{View, IsValid, Owned, Holds}
use givy.IntrusiveList.Atomic.Simulation.{Simulated, step-Simulated}
use givy.IntrusiveList.Atomic.Alone.{finished, step-finishes}

abbrev threads_of : ℕ → Thread
threads_of zero = push_exchange 2 2 0
threads_of (suc i) = outside

abbrev held_of : ℕ → List ℕ
held_of zero = 2 ∷ []
held_of (suc i) = []

abbrev at_exchange : Machine
at_exchange = record { shared = record { next = λ a. 0; head = 0 }; threads = threads_of }

abbrev view : View
view = record { contents = []; held = held_of; owner = λ a. if a == 2 then some 0 else none }

held-Owned : (i : ℕ) → Owned view.owner (some i) (view.held i)
held-Owned zero a h = let e : (a == 2) ≡ true = ground arith in rw e refl
held-Owned (suc i) a h = absurd (true≢false (sym h))

thread-Holds : (i : ℕ) → Holds at_exchange.shared.next (view.held i) (at_exchange.threads i)
thread-Holds zero = ((refl, omega arith, refl), refl)
thread-Holds (suc i) = refl

at_exchange-IsValid : IsValid at_exchange view
at_exchange-IsValid = record {
  chain = refl;
  list_owned = λ a h. absurd (true≢false (sym h));
  thread_owned = held-Owned;
  holds = thread-Holds;
}

step-Simulated_example : Simulated (step at_exchange 0 false) view 0 (push_exchange 2 2 0)
step-Simulated_example = step-Simulated at_exchange 0 false view at_exchange-IsValid

step-finishes_example :
    finished ((step (step (step (step at_exchange 0 false) 0 false) 0 false) 0 false).threads 0)
    ≡ true
step-finishes_example = step-finishes at_exchange 0
