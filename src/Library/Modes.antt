-- ===== src/Library/Modes.antt =====
-- The two modes of src/givy.cpp.
use givy.Math.{divide_up, align_up}
use givy.Base.{
  ◌>>=◌, ℕ, ◌*◌, ◌≤◌, ◌<◌, ◌≡◌, refl, arith, true, false, not, ◌||◌, Option, none, some, leb,
  Bool-cases, inl, inr,
}
use givy.Pointer.{Ptr}
use givy.Space.{superpage_size, in_gas, make_space}
use givy.Space.Laws.{IsLaidOut, make_space-IsLaidOut}
use givy.LocalHeap.{Sizes}
use givy.Library.{Runtime, init, base_ptr, givy_allocate, givy_deallocate}

module _ {ℓ} {C : Type ℓ} (malloc : ℕ → C → Ptr × C) (free : Ptr → C → C) (z : Sizes) where
  -- The result of `init`: the program ends, for one of two reasons, or the space is laid out from
  -- `base_ptr` on, for the node and the nodes that are given, with 100 superpages for each.
  abbrev pub Initialised : ℕ → ℕ → Runtime C → Option (Runtime C) → Type 0
  Initialised nb_node node_id r none = (r.inited || not (leb nb_node 64)) ≡ true
  Initialised nb_node node_id r (some r') =
      (r.inited ≡ false)
      × (nb_node ≤ 64)
      × (r'.inited ≡ true)
      × IsLaidOut r'.node.space
      × (r'.node.space.nb_node ≡ nb_node)
      × (r'.node.space.local_node ≡ node_id)
      × (r'.node.space.superpage_by_node ≡ 100)
      × (r'.node.space.gas_interval.start_ ≡ base_ptr)

  space_lem :
      (nb_node node_id : ℕ)
      → node_id < nb_node
      → nb_node ≤ 64
      → IsLaidOut (make_space base_ptr (100 * superpage_size) nb_node node_id)
  space_lem nb_node node_id lt le =
      let by_node : divide_up (100 * superpage_size) superpage_size ≡ 100 =
        unfold divide_up in refl in
      let start : align_up base_ptr superpage_size ≡ base_ptr = unfold align_up divide_up in refl in
      make_space-IsLaidOut base_ptr (100 * superpage_size) nb_node node_id lt (omega arith)
        (omega arith) (omega arith) (rw (by_node, start) (omega arith))

  space_fields :
      ((nb_node node_id : ℕ)
        → (make_space base_ptr (100 * superpage_size) nb_node node_id).superpage_by_node ≡ 100)
      × ((nb_node node_id : ℕ)
          → (make_space base_ptr (100 * superpage_size) nb_node node_id).gas_interval.start_
            ≡ base_ptr)
  unfolding make_space divide_up align_up
  space_fields = (λ nb_node node_id. refl, λ nb_node node_id. omega arith)

  -- For a node of the system: the first `init`, for at most 64 nodes, lays out the space of the given
  -- nodes, 100 superpages for each from `base_ptr` on, with the given node as the local one and without
  -- leaving the address space. Any other call ends the program.
  pub init-Initialised :
      (nb_node node_id : ℕ) (r : Runtime C)
      → node_id < nb_node
      → Initialised nb_node node_id r (init malloc free z nb_node node_id r)
  unfolding init
  init-Initialised nb_node node_id r lt = elim (Bool-cases (r.inited || not (leb nb_node 64))) [
    | inl e ↦ rw e e
    | inr e ↦ rw e (
      ground arith,
      ground arith,
      refl,
      space_lem nb_node node_id lt (ground arith),
      unfold make_space in refl,
      unfold make_space in refl,
      space_fields.0 nb_node node_id,
      space_fields.1 nb_node node_id,
    )
  ]

  abbrev pub libc_after : Option (Runtime C) → (Runtime C → Runtime C) → Option C
  libc_after none f = none
  libc_after (some r) f = some (f r).libc

  -- The C library gets back, after `init`, an address that it gave before, unless the address is in
  -- the GAS: both modes together call `malloc` once and `free` once on it.
  pub givy_deallocate-givy_allocate :
      (me size align nb_node node_id : ℕ) (r : Runtime C)
      → r.inited ≡ false
      → nb_node ≤ 64
      → in_gas (make_space base_ptr (100 * superpage_size) nb_node node_id) (malloc size r.libc).0
        ≡ false
      → libc_after
          (givy_allocate malloc free z me size align r >>= λ a.
            init malloc free z nb_node node_id a.1)
          (givy_deallocate malloc free z (malloc size r.libc).0)
        ≡ some (free (malloc size r.libc).0 (malloc size r.libc).1)
  unfolding givy_allocate init givy_deallocate
  givy_deallocate-givy_allocate me size align nb_node node_id r fresh le outside =
      let few : leb nb_node 64 ≡ true = ground arith in rw (fresh, few) (rw outside refl)
