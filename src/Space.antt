-- ===== src/Space.antt =====
-- `Gas::Space` of src/gas_space.h, with the page sizes of src/system.h. The system calls of
-- src/memory_mapping.h change no state of the program; an operation returns the list of those it
-- makes. A failing one ends the program there.
pub mod Laws
pub mod Superpages
pub mod Example
mod Tests
use givy.Base.{ℕ, ◌+◌, ◌-◌, ◌*◌, ◌/◌, ◌%◌, ◌^◌, Bool, List, [], ◌∷◌, Option, none, some, Option}
use givy.Math.{divide_up}
use givy.Pointer.{Ptr, add, sub, ptr_align_up}
use givy.Range.{Range, range, range_to, range_from_offset, contains, includes, scale, shift}
use givy.Tracker.{Tracker, create, release, trim, get_sequence_start_num}
use givy.Tracker.Acquire.{Answer, acquired, oom, out_of_fuel, acquire}

abbrev pub page_size : ℕ
page_size = 2 ^ 12

abbrev pub superpage_size : ℕ
superpage_size = 2 ^ 21

abbrev pub superpage_page_nb : ℕ
superpage_page_nb = 2 ^ 9

-- `map_checked` and `unmap_checked`, with their two arguments.
pub data VmemCall : Type 0 where
  map_checked : Ptr → ℕ → VmemCall
  unmap_checked : Ptr → ℕ → VmemCall

pub record Space : Type 0 where
  pub nb_node : ℕ
  pub local_node : ℕ
  pub superpage_by_node : ℕ
  pub gas_interval : Range
  pub local_interval_sp : Range
  pub local_interval : Range
  pub superpage_tracker : Tracker

-- The constructor. Its three assertions are hypotheses of the theorems.
unfoldable pub make_space : Ptr → ℕ → ℕ → ℕ → Space
make_space gas_start space_by_node nb_node local_node =
    let by_node = divide_up space_by_node superpage_size in
    let gas =
      shift (scale (range_to nb_node) (superpage_size * by_node % 2 ^ 64))
        (ptr_align_up gas_start superpage_size) in
    let local_sp = scale (range_from_offset local_node 1) by_node in
    record {
      nb_node = nb_node;
      local_node = local_node;
      superpage_by_node = by_node;
      gas_interval = gas;
      local_interval_sp = local_sp;
      local_interval = shift (scale local_sp superpage_size) gas.start_;
      superpage_tracker = create (by_node * nb_node % 2 ^ 64);
    }

abbrev pub in_gas : Space → Ptr → Bool
in_gas s p = contains s.gas_interval p

abbrev pub in_gas_range : Space → Range → Bool
in_gas_range s r = includes s.gas_interval r

abbrev pub in_local_interval : Space → Ptr → Bool
in_local_interval s p = contains s.local_interval p

abbrev pub in_local_interval_range : Space → Range → Bool
in_local_interval_range s r = includes s.local_interval r

unfoldable pub node_of_allocation : Space → Ptr → ℕ
node_of_allocation s p =
    sub p s.gas_interval.start_ / (s.superpage_by_node * superpage_size % 2 ^ 64)

unfoldable pub superpage : Space → ℕ → Ptr
superpage s num = add s.gas_interval.start_ (superpage_size * num % 2 ^ 64)

unfoldable pub superpage_num : Space → Ptr → ℕ
superpage_num s inside = sub inside s.gas_interval.start_ / superpage_size

-- The pointer, the space and the call; `none` where `acquire` ends the program.
unfoldable pub reserve_local_superpage_sequence : Space → ℕ → Option (Ptr × Space × List VmemCall)
reserve_local_superpage_sequence s superpage_nb =
    elim (acquire s.superpage_tracker superpage_nb s.local_interval_sp.start_
      s.local_interval_sp.end_) [
        | acquired n t ↦
            let base = superpage s n in
            some (
              base,
              record s { superpage_tracker = t },
              map_checked base (superpage_size * superpage_nb % 2 ^ 64) ∷ [],
            )
        | oom t ↦ none
        | out_of_fuel ↦ none
      ]

unfoldable pub release_superpage_sequence : Space → Ptr → ℕ → Space × List VmemCall
release_superpage_sequence s base superpage_nb =
    let r = range_from_offset (superpage_num s base) superpage_nb in
    (
      record s { superpage_tracker = release s.superpage_tracker r.start_ r.end_ },
      unmap_checked base (superpage_size * superpage_nb % 2 ^ 64) ∷ [],
    )

unfoldable pub trim_superpage_sequence : Space → Ptr → ℕ → Space × List VmemCall
trim_superpage_sequence s base superpage_nb =
    let r = range_from_offset (superpage_num s base) superpage_nb in
    (
      record s { superpage_tracker = trim s.superpage_tracker r.start_ r.end_ },
      unmap_checked (add base superpage_size) (superpage_size * (superpage_nb - 1) % 2 ^ 64) ∷ [],
    )

unfoldable pub superpage_sequence_start : Space → Ptr → Option Ptr
superpage_sequence_start s inside =
    elim (get_sequence_start_num s.superpage_tracker (superpage_num s inside)) [
      | some n ↦ some (superpage s n)
      | none ↦ none
    ]
