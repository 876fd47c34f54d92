-- ===== src/IntrusiveList/Stack.antt =====
-- `StackList` and `ForwardList` of src/intrusive_list.h. An element is the number of its address,
-- 0 is nullptr, and the heap gives the link of each.
pub mod Laws
mod Tests
use givy.Base.{ℕ, zero, suc, Bool, Option, none, some, List, [], ◌∷◌, ◌==◌, if◌then◌else◌}
use givy.IntrusiveList.Ring.{update}

abbrev pub Next : Type 0
Next = ℕ → ℕ

-- The operations of a `StackList`: its only field is the head.
abbrev pub empty : ℕ → Bool
empty m_head = m_head == 0

abbrev pub pop_front : Next → ℕ → ℕ
pop_front next m_head = next m_head

unfoldable pub push_front : Next → ℕ → ℕ → Next × ℕ
push_front next m_head t = (update next t m_head, t)

-- Move construction: the new list, and the other.
abbrev pub move : ℕ → ℕ × ℕ
move other = (other, 0)

-- The elements that an iteration from `begin` sees, in at most `fuel` steps.
abbrev pub iterate : ℕ → Next → ℕ → List ℕ
iterate zero next current = []
iterate (suc fuel) next current =
    let rest = iterate fuel next (next current) in if current == 0 then [] else current ∷ rest

pub record ForwardList : Type 0 where
  pub m_head : ℕ
  pub m_tail : ℕ

abbrev pub clear : ForwardList
clear = record { m_head = 0; m_tail = 0 }

-- The loop that finds the tail: `it` is the element before `next`.
unfoldable pub find_tail : ℕ → Next → ℕ → ℕ → ℕ
find_tail zero next it current = it
find_tail (suc fuel) next it current =
    let rest = find_tail fuel next current (next current) in if current == 0 then it else rest

-- Construction from a `StackList`, in at most `fuel` steps of the loop.
unfoldable pub from_stack : ℕ → Next → ℕ → ForwardList
from_stack fuel next stack =
    if stack == 0
    then record { m_head = stack; m_tail = 0 }
    else record { m_head = stack; m_tail = find_tail fuel next 0 stack }

unfoldable pub forward_pop_front : Next → ForwardList → ForwardList
forward_pop_front next l =
    let head = next l.m_head in record { m_head = head; m_tail = if head == 0 then 0 else l.m_tail }

unfoldable pub forward_push_front : Next → ForwardList → ℕ → Next × ForwardList
forward_push_front next l t =
    (update next t l.m_head, record { m_head = t; m_tail = if l.m_tail == 0 then t else l.m_tail })

-- The body is empty in the source.
abbrev pub forward_push_back : Next → ForwardList → ℕ → Next × ForwardList
forward_push_back next l t = (next, l)
