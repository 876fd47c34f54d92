-- ===== src/QuickList.antt =====
-- `Intrusive::QuickList` of src/intrusive_list.h. An element is named by a number (in the program
-- it is the place of a page block header in its table), and `size_of` gives its size. Each of the
-- `List` members is a list of elements, from front to back; linking and unlinking are the list
-- operations.
pub mod Laws
pub mod Empty
mod Find
pub mod Take
pub mod Sizes
pub mod Remove
mod Tests
use givy.Base.{
  ℕ, zero, suc, ◌+◌, ◌-◌, Bool, true, false, List, [], ◌∷◌, map, Option, none, some, get_or, set,
  replicate, leb, ◌==◌, if◌then◌else◌,
}

pub record QuickList : Type 0 where
  pub exact_size_slots : List (List ℕ)
  pub bigger_sizes : List ℕ
  pub stored_size : ℕ

unfoldable pub empty_quick_list : ℕ → QuickList
empty_quick_list slot_nb = record {
  exact_size_slots = replicate slot_nb [];
  bigger_sizes = [];
  stored_size = 0;
}

abbrev pub is_empty : List ℕ → Bool
is_empty [] = true
is_empty (x ∷ xs) = false

abbrev pub front : List ℕ → ℕ → ℕ
front [] d = d
front (x ∷ xs) d = x

abbrev pub pop_front : List ℕ → List ℕ
pop_front [] = []
pop_front (x ∷ xs) = xs

-- `List::unlink` of an element that is in the list.
unfoldable pub unlink : ℕ → List ℕ → List ℕ
unlink e [] = []
unlink e (t ∷ ts) = let rest = unlink e ts in if t == e then rest else t ∷ rest

module _ (slot_nb : ℕ) (size_of : ℕ → ℕ) where
  -- The loop over `bigger_sizes` in `insert`, with the `push_back` behind it.
  unfoldable pub insert_sorted : ℕ → List ℕ → List ℕ
  insert_sorted e [] = e ∷ []
  insert_sorted e (t ∷ ts) =
      let rest = insert_sorted e ts in if leb (size_of e) (size_of t) then e ∷ t ∷ ts else t ∷ rest

  -- The size is not 0.
  unfoldable pub insert : QuickList → ℕ → QuickList
  insert q e =
      let sz = size_of e in
      let slot = e ∷ get_or q.exact_size_slots (sz - 1) [] in
      if leb sz slot_nb
      then record q {
        exact_size_slots = set q.exact_size_slots (sz - 1) slot;
        stored_size = q.stored_size + sz;
      }
      else record q {
        bigger_sizes = insert_sorted e q.bigger_sizes;
        stored_size = q.stored_size + sz;
      }

  -- The loop over the slots in `take` at `n`, with `left` to go.
  unfoldable pub find_slot : List (List ℕ) → ℕ → ℕ → Option ℕ
  find_slot slots zero n = none
  find_slot slots (suc left) n =
      let rest = find_slot slots left (n + 1) in
      if is_empty (get_or slots (n - 1) []) then rest else some n

  -- The loop over `bigger_sizes` in `take`: the element, and the list without it.
  unfoldable pub take_bigger : ℕ → List ℕ → Option (ℕ × List ℕ)
  take_bigger min_sz [] = none
  take_bigger min_sz (t ∷ ts) =
      let rest = take_bigger min_sz ts in
      if leb min_sz (size_of t)
      then some (t, ts)
      else elim rest [ none ↦ none | some found ↦ some (found.0, t ∷ found.1) ]

  -- `none` stands for nullptr. `min_sz` is not 0.
  unfoldable pub take : QuickList → ℕ → Option ℕ × QuickList
  take q min_sz = elim (find_slot q.exact_size_slots (slot_nb + 1 - min_sz) min_sz) [
    | some n ↦
        let slot = get_or q.exact_size_slots (n - 1) [] in
        (
          some (front slot 0),
          record q {
            exact_size_slots = set q.exact_size_slots (n - 1) (pop_front slot);
            stored_size = q.stored_size - n;
          },
        )
    | none ↦ elim (take_bigger min_sz q.bigger_sizes) [
      | some found ↦ (
        some found.0,
        record q { bigger_sizes = found.1; stored_size = q.stored_size - size_of found.0 },
      )
      | none ↦ (none, q)
    ]
  ]

  unfoldable pub remove : QuickList → ℕ → QuickList
  remove q e = record {
    exact_size_slots = map (unlink e) q.exact_size_slots;
    bigger_sizes = unlink e q.bigger_sizes;
    stored_size = q.stored_size - size_of e;
  }
