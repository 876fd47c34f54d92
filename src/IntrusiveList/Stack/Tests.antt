-- ===== src/IntrusiveList/Stack/Tests.antt =====
-- The elements 2 and 3 in a list of src/intrusive_list.h with one link each.
use givy.Base.{◌==◌, if◌then◌else◌, ◌≡◌, refl, [], ◌∷◌}
use givy.IntrusiveList.Stack.{Next, push_front, iterate, from_stack, find_tail}

abbrev two : Next
two a = if a == 2 then 3 else 0

seen : iterate 3 two 2 ≡ 2 ∷ 3 ∷ []
seen = refl

tail_found : (from_stack 3 two 2).m_tail ≡ 3
unfolding from_stack find_tail
tail_found = refl

pushed : iterate 4 (push_front two 2 5).0 (push_front two 2 5).1 ≡ 5 ∷ 2 ∷ 3 ∷ []
unfolding push_front
pushed = refl
