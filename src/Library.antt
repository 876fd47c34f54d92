-- ===== src/Library.antt =====
-- The interface functions of src/givy.cpp: memory comes from the C library until `init`, and from the
-- heap of the thread afterwards. The C library is a parameter: its state, `malloc` and `free`.
pub mod Modes
mod Tests
use givy.Base.{
  ℕ, ◌+◌, ◌*◌, ◌^◌, Bool, true, false, not, ◌||◌, Option, none, some, leb, ◌>>=◌, if◌then◌else◌,
}
use givy.Pointer.{Ptr}
use givy.Space.{superpage_size, make_space, in_gas}
use givy.LocalHeap.{Sizes, Node}
use givy.LocalHeap.Interface.{allocate}

-- `Coherence::max_supported_node`, and the start of the GAS.
abbrev pub max_supported_node : ℕ
max_supported_node = 64

abbrev pub base_ptr : Ptr
base_ptr = 2 ^ 46

-- `GasStuff`, and what the C library keeps. Before `init` the space of the node has no meaning.
pub record Runtime {ℓ} (C : Type ℓ) : Type ℓ where
  pub inited : Bool
  pub node : Node
  pub libc : C

module _ {ℓ} {C : Type ℓ} (malloc : ℕ → C → Ptr × C) (free : Ptr → C → C) (z : Sizes) where
  -- `GasStuff::init`, for the number of nodes and the node that the network gives. Both assertions
  -- are checked in every build.
  unfoldable pub init : ℕ → ℕ → Runtime C → Option (Runtime C)
  init nb_node node_id r =
      if r.inited || not (leb nb_node max_supported_node)
      then none
      else some (record r {
        inited = true;
        node = record (r.node) {
          space = make_space base_ptr (100 * superpage_size) nb_node node_id;
        };
      })

  -- The block is an address and a size. `me` is the heap of the thread.
  unfoldable pub givy_allocate : ℕ → ℕ → ℕ → Runtime C → Option ((Ptr × ℕ) × Runtime C)
  givy_allocate me size align r =
      let from_libc = malloc size r.libc in
      let from_heap =
        allocate z me size align r.node >>= λ a. some (a.0, record r { node = a.1 }) in
      if r.inited then from_heap else some ((from_libc.0, size), record r { libc = from_libc.1 })

  -- The call for the GAS is commented out in the source.
  unfoldable pub givy_deallocate : Ptr → Runtime C → Runtime C
  givy_deallocate ptr r =
      if not r.inited || not (in_gas r.node.space ptr)
      then record r { libc = free ptr r.libc }
      else r
