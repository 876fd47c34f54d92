-- ===== src/Arrays/Tests.antt =====
-- Arrays of src/array.h with three elements.
use givy.Base.{◌+◌, ◌*◌, ◌≡◌, refl, [], ◌∷◌}
use givy.Arrays.{static_array_from_generator, static_array_map, static_array_max}

squares : static_array_from_generator 3 (λ i. i * i) ≡ 0 ∷ 1 ∷ 4 ∷ []
squares = refl

greatest : static_array_max (static_array_map (3 ∷ 5 ∷ 1 ∷ []) (λ i. i + 1)) ≡ 6
greatest = refl
