-- ===== src/SizeClass/Tests.antt =====
-- A block of 100 bytes, where the smallest class has 16 bytes.
use givy.Base.{some, get_or, ◌<◌, ℕ, ◌≡◌, ◌^◌}
use givy.Math.{bound_uint}
use givy.SizeClass.{Info, nb_sizeclass, config, max_nb_blocks, make_info}
use givy.SizeClass.Counters.{config-bound_uint}

config-bound_uint_example :
    (w : ℕ) × (bound_uint (max_nb_blocks 4) ≡ some w)
    × ((k : ℕ) (d : Info)
        → k < nb_sizeclass 4
        → (get_or (config 4) k d ≡ make_info 4 k) × ((get_or (config 4) k d).nb_blocks < 2 ^ w))
config-bound_uint_example = config-bound_uint 4
