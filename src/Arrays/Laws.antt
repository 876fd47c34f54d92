-- ===== src/Arrays/Laws.antt =====
-- The functions of src/array.h, element by element.
use givy.Base.{
  ℕ, zero, suc, ◌+◌, ◌≤◌, ◌<◌, ◌≡◌, refl, ap, ◌∙◌, arith, List, [], ◌∷◌, length, get_or,
}
use givy.Arrays.{generate_from, static_array_from_generator, static_array_map, static_array_max}

get_or-generate_from {ℓ} :
    {A : Type ℓ} (f : ℕ → A) (i n k : ℕ) (d : A)
    → k < n
    → get_or (generate_from f i n) k d ≡ f (i + k)
get_or-generate_from f i zero k d lt = absurd (omega arith)
get_or-generate_from f i (suc n) zero d lt = ap f (omega arith)
get_or-generate_from f i (suc n) (suc k) d lt =
    get_or-generate_from f (i + 1) n k d (omega arith) ∙ ap f (omega arith)

-- The element at `k` of an array built by a function is the value at `k`.
pub get_or-static_array_from_generator {ℓ} :
    {A : Type ℓ} (f : ℕ → A) (n k : ℕ) (d : A)
    → k < n
    → get_or (static_array_from_generator n f) k d ≡ f k
get_or-static_array_from_generator f n k d lt =
    get_or-generate_from f 0 n k d lt ∙ ap f (omega arith)

-- No element of a mapped array is above its maximum.
pub static_array_max_lem {ℓ} :
    {A : Type ℓ} (f : A → ℕ) (a : List A) (k : ℕ) (d : A)
    → k < length a
    → f (get_or a k d) ≤ static_array_max (static_array_map a f)
static_array_max_lem f [] k d lt = absurd (omega arith)
static_array_max_lem f (x ∷ a) zero d lt = omega arith
static_array_max_lem f (x ∷ a) (suc k) d lt =
    let r = static_array_max_lem f a k d (omega arith) in omega (arith, r)

pub length-generate_from {ℓ} : {A : Type ℓ} (f : ℕ → A) (i n : ℕ) → length (generate_from f i n) ≡ n
length-generate_from f i zero = refl
length-generate_from f i (suc n) = ap suc (length-generate_from f (i + 1) n)

pub static_array_max-generate_from {ℓ} :
    {A : Type ℓ} (f : ℕ → A) (g : A → ℕ) (i n c : ℕ)
    → ((k : ℕ) → g (f k) ≤ c)
    → static_array_max (static_array_map (generate_from f i n) g) ≤ c
static_array_max-generate_from f g i zero c le = omega arith
static_array_max-generate_from f g i (suc n) c le =
    omega (arith, le i, static_array_max-generate_from f g (i + 1) n c le)
