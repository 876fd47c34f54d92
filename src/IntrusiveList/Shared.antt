-- ===== src/IntrusiveList/Shared.antt =====
-- `List::Atomic` of src/intrusive_list.h: a `List` protected by a `SpinLock`, by accesses of any number
-- of threads. A step is one access: of the flag of the lock, or of one link of one element.
-- What `apply_all` calls for each element is left out; it must not change the list.
pub mod Order
pub mod Steps
mod Tests
use givy.Base.{ℕ, Bool, List, [], ◌∷◌, ◌++◌, ◌==◌, if◌then◌else◌}
use givy.IntrusiveList.Ring.{Heap, set_prev, set_next, increment, begin, end}
use givy.SpinLock.{lock_round, unlock}
use givy.SpinLock

pub data Operation : Type 0 where
  push_front : ℕ → Operation
  push_back : ℕ → Operation
  remove : ℕ → Operation
  apply_all : Operation

-- A thread is in the loop of `lock`, at one of the six accesses of `cross`, or at an access of the
-- loop of `apply_all`, which has seen some elements. `leaving` and `visited` are before `unlock`.
pub data Thread : Type 0 where
  outside : Thread
  locking : Operation → Thread
  load_a : Operation → Thread
  load_b : Operation → ℕ → Thread
  store_a_prev : Operation → ℕ → ℕ → Thread
  store_b_next : Operation → ℕ → ℕ → Thread
  store_left_next : Operation → Thread
  store_right_prev : Operation → Thread
  leaving : Thread
  beginning : Thread
  visiting : ℕ → List ℕ → Thread
  visited : List ℕ → Thread

pub record Machine : Type 0 where
  pub heap : Heap
  pub locked : Bool
  pub threads : ℕ → Thread

-- The state after an access.
pub record State : Type 0 where
  pub heap : Heap
  pub locked : Bool
  pub thread : Thread

abbrev pub state : Heap → Bool → Thread → State
state h locked t = record { heap = h; locked = locked; thread = t }

module _ (root : ℕ) where
  -- The arguments of the call of `cross` in each operation.
  abbrev pub left : Operation → ℕ
  left (push_front t) = root
  left (push_back t) = t
  left (remove t) = t
  left apply_all = root

  abbrev pub right : Operation → ℕ
  right (push_front t) = t
  right (push_back t) = root
  right (remove t) = t
  right apply_all = root

  abbrev pub enter : Operation → Thread
  enter (push_front t) = load_a (push_front t)
  enter (push_back t) = load_a (push_back t)
  enter (remove t) = load_a (remove t)
  enter apply_all = beginning

  -- `op` is what a thread outside wants to do, `spurious` whether a weak exchange fails for no reason.
  unfoldable pub access : Heap → Bool → Operation → Bool → Thread → State
  access h locked op spurious outside = state h locked (locking op)
  access h locked op spurious (locking mine) =
      let r = lock_round locked spurious in
      state h r.0 (elim r.1 [
        | SpinLock.outside ↦ locking mine
        | SpinLock.locking ↦ locking mine
        | SpinLock.inside ↦ enter mine
      ])
  access h locked op spurious (load_a mine) = state h locked (load_b mine (h.next (left mine)))
  access h locked op spurious (load_b mine a) =
      state h locked (store_a_prev mine a (h.prev (right mine)))
  access h locked op spurious (store_a_prev mine a b) =
      state (set_prev h a b) locked (store_b_next mine a b)
  access h locked op spurious (store_b_next mine a b) =
      state (set_next h b a) locked (store_left_next mine)
  access h locked op spurious (store_left_next mine) =
      state (set_next h (left mine) (right mine)) locked (store_right_prev mine)
  access h locked op spurious (store_right_prev mine) =
      state (set_prev h (right mine) (left mine)) locked leaving
  access h locked op spurious leaving = state h (unlock locked).0 outside
  access h locked op spurious beginning = state h locked (visiting (begin root h) [])
  access h locked op spurious (visiting current seen) = state h locked (
      if current == end root
      then visited seen
      else visiting (increment h current) (seen ++ current ∷ []))
  access h locked op spurious (visited seen) = state h (unlock locked).0 outside

  unfoldable pub step : Machine → ℕ → Operation → Bool → Machine
  step m i op spurious =
      let r = access m.heap m.locked op spurious (m.threads i) in
      record {
        heap = r.heap;
        locked = r.locked;
        threads = λ j. if j == i then r.thread else m.threads j;
      }
