-- ===== src/Space/Example.antt =====
-- A space of src/gas_space.h of two nodes with 64 superpages each, all of them free.
use givy.Base.{ℕ, zero, suc, ◌+◌, ◌*◌, ◌^◌, ◌≡◌, refl, arith, [], ◌∷◌}
use givy.Range.{range}
use givy.Tracker.{Tracker, load}
use givy.Space.{Space, superpage_size}
use givy.Space.Laws.{IsLaidOut}
use givy.Space.Superpages.{IsReady}

abbrev pub start : ℕ
start = 2 ^ 30

abbrev pub empty_tracker : Tracker
empty_tracker = record { table_size = 2; mapping_table = 0 ∷ 0 ∷ []; sequence_table = 0 ∷ 0 ∷ [] }

abbrev pub two_nodes : Space
two_nodes = record {
  nb_node = 2;
  local_node = 1;
  superpage_by_node = 64;
  gas_interval = range start (start + superpage_size * 128);
  local_interval_sp = range 64 128;
  local_interval = range (start + superpage_size * 64) (start + superpage_size * 128);
  superpage_tracker = empty_tracker;
}

pub two_nodes-IsLaidOut : IsLaidOut two_nodes
two_nodes-IsLaidOut = omega arith

zero_cells : (j : ℕ) → load empty_tracker.mapping_table j ≡ 0
zero_cells zero = refl
zero_cells (suc zero) = refl
zero_cells (suc (suc j)) = refl

pub two_nodes-IsReady : IsReady two_nodes 2
two_nodes-IsReady = record {
  laid_out = two_nodes-IsLaidOut;
  cells_fit = (refl, refl);
  words = λ j. omega (arith, zero_cells j);
  tidy = λ n e. e;
  room = omega arith;
  small = omega arith;
}
