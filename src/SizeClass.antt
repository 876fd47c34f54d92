-- ===== src/SizeClass.antt =====
-- The size classes of src/allocator.h, `SizeClass`: small blocks have a power of two as size.
-- `min_sizeclass_log` comes from a `sizeof`, and is a parameter.
pub mod Laws
pub mod Counters
mod Tests
use givy.Base.{List, ℕ, ◌+◌, ◌-◌, ◌*◌, ◌/◌, ◌%◌, ◌^◌}
use givy.Arrays.{static_array_from_generator, static_array_map, static_array_max}
use givy.Math.{log_2_sup, round_up_as_power_of_2}
use givy.BitMask.{shl}
use givy.Space.{page_size}

-- `Thresholds::small_medium` and `max_sizeclass_log`.
unfoldable pub small_medium : ℕ
small_medium = round_up_as_power_of_2 page_size

unfoldable pub max_sizeclass_log : ℕ
max_sizeclass_log = log_2_sup small_medium

pub record Info : Type 0 where
  pub block_size : ℕ
  pub page_block_size : ℕ
  pub nb_blocks : ℕ
  pub sc_id : ℕ

module _ (min_sizeclass_log : ℕ) where
  abbrev pub nb_sizeclass : ℕ
  nb_sizeclass = max_sizeclass_log - min_sizeclass_log + 1

  -- An `Id` has 8 digits. No size is below the smallest class.
  unfoldable pub id : ℕ → ℕ
  id size = (log_2_sup size - min_sizeclass_log) % 2 ^ 8

  unfoldable pub make_info : ℕ → Info
  make_info nth_sizeclass =
      let bs = shl 64 1 (nth_sizeclass + min_sizeclass_log) in
      record {
        block_size = bs;
        page_block_size = 1;
        nb_blocks = page_size / bs;
        sc_id = nth_sizeclass % 2 ^ 8;
      }

  -- The table of all classes, and the most blocks that a page block has.
  abbrev pub config : List Info
  config = static_array_from_generator nb_sizeclass make_info

  abbrev pub get_nb_blocks : Info → ℕ
  get_nb_blocks info = info.nb_blocks

  unfoldable pub max_nb_blocks : ℕ
  max_nb_blocks = static_array_max (static_array_map config get_nb_blocks)
