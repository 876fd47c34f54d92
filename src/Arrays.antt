-- ===== src/Arrays.antt =====
-- The functions on `StaticArray` of src/array.h; an array is the list of its elements.
pub mod Laws
mod Tests
use givy.Base.{ℕ, zero, suc, ◌+◌, max, List, [], ◌∷◌, map}

-- The expansion of the index sequence from `i` on, with `n` indices to go.
abbrev pub generate_from {ℓ} : {A : Type ℓ} → (ℕ → A) → ℕ → ℕ → List A
generate_from f i zero = []
generate_from f i (suc n) = f i ∷ generate_from f (i + 1) n

abbrev pub static_array_from_generator {ℓ} : {A : Type ℓ} → ℕ → (ℕ → A) → List A
static_array_from_generator n f = generate_from f 0 n

abbrev pub static_array_map {ℓ κ} : {A : Type ℓ} {B : Type κ} → List A → (A → B) → List B
static_array_map a f = map f a

-- `std::max` of the elements. An array without elements does not compile there, and has 0 here.
abbrev pub static_array_max : List ℕ → ℕ
static_array_max [] = 0
static_array_max (x ∷ a) = max x (static_array_max a)
