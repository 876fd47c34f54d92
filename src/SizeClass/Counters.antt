-- ===== src/SizeClass/Counters.antt =====
-- The counters of small blocks in src/allocator.h hold the numbers of blocks of all size classes.
use givy.Base.{ℕ, ◌+◌, ◌^◌, ◌≤◌, ◌<◌, ◌≡◌, arith, some, get_or}
use native.Mathlib.Nat.{div-le_self}
use givy.BitMask.{shl}
use givy.Space.{page_size}
use givy.Math.{bound_uint}
use givy.Math.Laws.{bound_uint_lem}
use givy.Arrays.Laws.{
  get_or-static_array_from_generator, static_array_max_lem, length-generate_from,
  static_array_max-generate_from,
}
use givy.SizeClass.{Info, nb_sizeclass, make_info, config, get_nb_blocks, max_nb_blocks}

nb_blocks_le : (min_sizeclass_log k : ℕ) → (make_info min_sizeclass_log k).nb_blocks ≤ page_size
unfolding make_info
nb_blocks_le m k = div-le_self page_size (shl 64 1 (k + m))

-- The counters of a page block have a type, and the number of blocks of each size class, as its entry
-- in the table has it, is below the number of values of that type.
pub config-bound_uint :
    (min_sizeclass_log : ℕ)
    → (w : ℕ) × (bound_uint (max_nb_blocks min_sizeclass_log) ≡ some w)
      × ((k : ℕ) (d : Info)
          → k < nb_sizeclass min_sizeclass_log
          → (get_or (config min_sizeclass_log) k d ≡ make_info min_sizeclass_log k)
            × ((get_or (config min_sizeclass_log) k d).nb_blocks < 2 ^ w))
unfolding max_nb_blocks
config-bound_uint m =
    let most =
      static_array_max-generate_from (make_info m) (get_nb_blocks m) 0 (nb_sizeclass m) page_size
        (nb_blocks_le m) in
    let b = bound_uint_lem (max_nb_blocks m) (omega (arith, most)) in
    (
      b.0,
      b.1,
      λ k d lt. (
        get_or-static_array_from_generator (make_info m) (nb_sizeclass m) k d lt,
        omega (
          arith,
          b.2,
          static_array_max_lem (get_nb_blocks m) (config m) k d
              (omega (arith, lt, length-generate_from (make_info m) 0 (nb_sizeclass m))),
        ),
      ),
    )
