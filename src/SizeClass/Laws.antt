-- ===== src/SizeClass/Laws.antt =====
-- A small size gets the least size class that holds it.
use givy.Base.{ℕ, ◌+◌, ◌-◌, ◌%◌, ◌^◌, ◌≤◌, ◌<◌, ◌≡◌, refl, arith}
use givy.Math.{log_2_sup, round_up_as_power_of_2}
use givy.Math.Laws.{log_2_sup_lem, round_up_as_power_of_2_lem}
use givy.SizeClass.{id, make_info}

-- For a size from 2 up to a page that is not below the smallest class, the class with the size's
-- id has the least power of two that holds it as block size.
pub make_info-id :
    (min_sizeclass_log size : ℕ)
    → 1 < size
    → size ≤ 2 ^ 12
    → min_sizeclass_log ≤ log_2_sup size
    → ((make_info min_sizeclass_log (id min_sizeclass_log size)).block_size
        ≡ round_up_as_power_of_2 size)
      × (size ≤ (make_info min_sizeclass_log (id min_sizeclass_log size)).block_size)
      × ((k : ℕ)
          → size ≤ 2 ^ k
          → (make_info min_sizeclass_log (id min_sizeclass_log size)).block_size ≤ 2 ^ k)
unfolding make_info id round_up_as_power_of_2
make_info-id m size pos le enough =
    let log = log_2_sup_lem size pos (omega arith) in
    let up = round_up_as_power_of_2_lem size pos (omega arith) in
    let same : (log_2_sup size - m) % 2 ^ 8 + m ≡ log_2_sup size = omega (arith, log) in
    rw same (refl, up.1, up.2)
