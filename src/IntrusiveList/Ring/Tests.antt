-- ===== src/IntrusiveList/Ring/Tests.antt =====
-- A list with root 1 and the elements 2 and 3, and the uses of the theorems on `List` there.
use givy.Base.{◌==◌, if◌then◌else◌, refl, [], ◌∷◌}
use givy.IntrusiveList.Ring.{Heap, unlink}
use givy.IntrusiveList.Ring.Refine.{IsRing, Alone}
use givy.IntrusiveList.Ring.Unlink.{unlink-IsRing}

abbrev start : Heap
start = record { prev = λ a. a; next = λ a. a }

abbrev two : Heap
two = record {
  prev = λ a. if a == 1 then 3 else if a == 2 then 1 else if a == 3 then 2 else a;
  next = λ a. if a == 1 then 2 else if a == 2 then 3 else if a == 3 then 1 else a;
}

two-IsRing : IsRing two 1 (2 ∷ 3 ∷ [])
two-IsRing = ((refl, refl, (refl, refl, (refl, refl))), (refl, (refl, (refl, refl))))

unlink-IsRing_example : IsRing (unlink two 2) 1 (3 ∷ []) × Alone (unlink two 2) 2
unlink-IsRing_example = unlink-IsRing two 1 2 [] (3 ∷ []) two-IsRing
