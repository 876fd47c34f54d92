-- ===== src/IntrusiveList/Ring.antt =====
-- `Intrusive::List` of src/intrusive_list.h: a circular chain of elements through `root`. An
-- element is the number of its address, and the heap gives the two links of each.
pub mod Links
pub mod Rotate
pub mod Ends
pub mod Refine
pub mod Unlink
pub mod Iterate
mod Tests
use givy.Base.{ℕ, zero, suc, Bool, List, [], ◌∷◌, ◌==◌, if◌then◌else◌}

pub record Heap : Type 0 where
  pub prev : ℕ → ℕ
  pub next : ℕ → ℕ

abbrev pub update : (ℕ → ℕ) → ℕ → ℕ → ℕ → ℕ
update f p v a = if a == p then v else f a

-- `p->prev = v` and `p->next = v`.
abbrev pub set_prev : Heap → ℕ → ℕ → Heap
set_prev h p v = record h { prev = update h.prev p v }

abbrev pub set_next : Heap → ℕ → ℕ → Heap
set_next h p v = record h { next = update h.next p v }

-- `Element::reset`: a singleton.
unfoldable pub reset : Heap → ℕ → Heap
reset h e = set_next (set_prev h e e) e e

unfoldable pub cross : Heap → ℕ → ℕ → Heap
cross h left right =
    let a = h.next left in
    let b = h.prev right in
    set_prev (set_next (set_next (set_prev h a b) b a) left right) right left

unfoldable pub extract : Heap → ℕ → Heap
extract h link = cross h link link

unfoldable pub insert_after : Heap → ℕ → ℕ → Heap
insert_after h to_insert e = cross h e to_insert

unfoldable pub insert_before : Heap → ℕ → ℕ → Heap
insert_before h to_insert e = cross h to_insert e

-- The operations of the list that has `root`.
module _ (root : ℕ) where
  abbrev pub empty : Heap → Bool
  empty h = h.next root == root

  abbrev pub front : Heap → ℕ
  front h = h.next root

  abbrev pub back : Heap → ℕ
  back h = h.prev root

  unfoldable pub push_front : Heap → ℕ → Heap
  push_front h t = insert_after h t root

  unfoldable pub push_back : Heap → ℕ → Heap
  push_back h t = insert_before h t root

  unfoldable pub pop_front : Heap → Heap
  pop_front h = extract h (h.next root)

  unfoldable pub pop_back : Heap → Heap
  pop_back h = extract h (h.prev root)

-- `unlink`, and `remove` of a list.
unfoldable pub unlink : Heap → ℕ → Heap
unlink h e = extract h e

-- An iterator is the element that it stands at.
abbrev pub increment : Heap → ℕ → ℕ
increment h current = h.next current

abbrev pub decrement : Heap → ℕ → ℕ
decrement h current = h.prev current

module _ (root : ℕ) where
  abbrev pub begin : Heap → ℕ
  begin h = h.next root

  abbrev pub end : ℕ
  end = root

  -- What a loop from `current` to `end` sees, in at most `fuel` steps.
  unfoldable pub iterate : ℕ → Heap → ℕ → List ℕ
  iterate zero h current = []
  iterate (suc fuel) h current =
      let rest = iterate fuel h (increment h current) in
      if current == end then [] else current ∷ rest
