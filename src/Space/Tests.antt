-- ===== src/Space/Tests.antt =====
-- A space of two nodes with 64 superpages each, and the uses of the theorems of src/gas_space.h
-- there.
use givy.Base.{◌≤◌, ◌+◌, ◌-◌, ◌*◌, ◌<◌, ◌≡◌, ◌↔◌, refl, arith, true}
use givy.Math.{divide_up, align_up}
use givy.Tracker.{create}
use givy.Space.{
  make_space, superpage_size, node_of_allocation, in_local_interval,
  reserve_local_superpage_sequence,
}
use givy.Space.Laws.{node_of_allocation_lem}
use givy.Space.Superpages.{Reservation, reserve_local_superpage_sequence-Reservation}
use givy.Space.Example.{start, two_nodes, two_nodes-IsLaidOut, two_nodes-IsReady}

make_space_test : make_space (start + 5 - superpage_size) (superpage_size * 64) 2 1 ≡ two_nodes
unfolding make_space divide_up align_up create
make_space_test = refl

node_of_allocation_lem_example :
    (node_of_allocation two_nodes (start + 9) < 2)
    × (start + node_of_allocation two_nodes (start + 9) * (64 * superpage_size) ≤ start + 9)
    × (start + 9 < start + (node_of_allocation two_nodes (start + 9) + 1) * (64 * superpage_size))
    × ((node_of_allocation two_nodes (start + 9) ≡ 1)
        ↔ (in_local_interval two_nodes (start + 9) ≡ true))
node_of_allocation_lem_example =
    node_of_allocation_lem two_nodes (start + 9) two_nodes-IsLaidOut refl

reserve_local_superpage_sequence-Reservation_example :
    Reservation two_nodes 3 (reserve_local_superpage_sequence two_nodes 3)
reserve_local_superpage_sequence-Reservation_example =
    reserve_local_superpage_sequence-Reservation two_nodes 2 3 two_nodes-IsReady (omega arith)
      (omega arith)
