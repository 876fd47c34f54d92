-- ===== src/QuickList/Tests.antt =====
-- Runs of the quick list of src/intrusive_list.h, where an element is its own size, and the uses
-- of its theorems.
use givy.Base.{ℕ, ◌≡◌, refl, arith, [], ◌∷◌, none, some}
use givy.QuickList.{
  QuickList, empty_quick_list, insert, insert_sorted, take, find_slot, take_bigger, remove, unlink,
}
use givy.QuickList.Laws.{insert-IsValid}
use givy.QuickList.Empty.{empty-IsValid}
use givy.QuickList.Take.{BestFit, take-BestFit}

abbrev own_size : ℕ → ℕ
own_size e = e

abbrev three : QuickList
three = record {
  exact_size_slots = [] ∷ (2 ∷ []) ∷ [];
  bigger_sizes = 5 ∷ 9 ∷ [];
  stored_size = 16;
}

insert_test :
    insert 2 own_size (insert 2 own_size (insert 2 own_size (empty_quick_list 2) 9) 5) 2 ≡ three
unfolding insert insert_sorted empty_quick_list
insert_test = refl

take_test :
    ((take 2 own_size three 1).0 ≡ some 2)
    × ((take 2 own_size three 6).0 ≡ some 9)
    × ((take 2 own_size three 10).0 ≡ none)
unfolding take find_slot take_bigger
take_test = (refl, refl, refl)

remove_test : (remove 2 own_size three 5).bigger_sizes ≡ 9 ∷ []
unfolding remove unlink
remove_test = refl

take-BestFit_example :
    BestFit 10 own_size
      (insert 10 own_size (empty_quick_list 10) 4)
      3
      (take 10 own_size (insert 10 own_size (empty_quick_list 10) 4) 3)
take-BestFit_example =
    take-BestFit 10 own_size (insert 10 own_size (empty_quick_list 10) 4) 3
      (insert-IsValid 10 own_size (empty_quick_list 10) 4 (empty-IsValid 10 own_size)
        (omega arith)).0
      (omega arith)
