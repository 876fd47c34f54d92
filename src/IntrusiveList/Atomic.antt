-- ===== src/IntrusiveList/Atomic.antt =====
-- `AtomicForwardList` of src/intrusive_list.h, with any number of threads inside its operations.
-- A step is one access to shared memory by one thread; the accesses are taken one after the other.
-- An element is the number of its address, 0 is nullptr.
pub mod Inv
pub mod Moves
pub mod Simulation
pub mod Alone
mod Tests
use givy.Base.{ℕ, Bool, true, false, not, ◌&&◌, ◌==◌, if◌then◌else◌}
use givy.IntrusiveList.Ring.{update}
use givy.IntrusiveList.Stack.{Next}

-- Where a thread is. `push` has the first and the last element of what it inserts (twice the same
-- for one element); `expected` and `previous` are the loop's variables.
pub data Thread : Type 0 where
  outside : Thread
  push_load : ℕ → ℕ → Thread
  push_store : ℕ → ℕ → ℕ → Thread
  push_exchange : ℕ → ℕ → ℕ → Thread
  pushed : Bool → Thread
  take_load : Thread
  take_exchange : ℕ → Thread
  taken : ℕ → Thread

pub record Shared : Type 0 where
  pub next : Next
  pub head : ℕ

-- The next access of a thread. `spurious` says that a weak exchange fails even if it finds what it
-- expects; a failed exchange loads the head.
unfoldable pub access : Shared → Thread → Bool → Shared × Thread
access s outside spurious = (s, outside)
access s (push_load h t) spurious = (s, push_store h t s.head)
access s (push_store h t expected) spurious =
    (record s { next = update s.next t expected }, push_exchange h t expected)
access s (push_exchange h t expected) spurious =
    if (s.head == expected) && not spurious
    then (record s { head = h }, pushed (expected == 0))
    else (s, push_store h t s.head)
access s (pushed was_empty) spurious = (s, pushed was_empty)
access s take_load spurious = (s, take_exchange s.head)
access s (take_exchange previous) spurious =
    if (s.head == previous) && not spurious
    then (record s { head = 0 }, taken previous)
    else (s, take_exchange s.head)
access s (taken p) spurious = (s, taken p)

pub record Machine : Type 0 where
  pub shared : Shared
  pub threads : ℕ → Thread

abbrev pub set_thread : (ℕ → Thread) → ℕ → Thread → ℕ → Thread
set_thread f i v j = if j == i then v else f j

unfoldable pub step : Machine → ℕ → Bool → Machine
step m i spurious =
    let r = access m.shared (m.threads i) spurious in
    record { shared = r.0; threads = set_thread m.threads i r.1 }
