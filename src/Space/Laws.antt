-- ===== src/Space/Laws.antt =====
-- The addresses of src/gas_space.h: superpages and nodes cover the space.
use native.Mathlib.Nat.{
  mul_comm, mul_assoc, div-lt_iff_lt-mul, mul_left_comm, le-mul_of_pos_right, mul-le-mul_right,
  add-mul,
}
use givy.Base.{
  ap, ◌∙◌, Bool-cases, inl, inr, ltb→lt, ltb→le, ℕ, ◌+◌, ◌-◌, ◌*◌, ◌/◌, ◌%◌, ◌^◌, ◌≤◌, ◌<◌, ◌≡◌,
  ◌↔◌, arith, true, ltb,
}
use givy.Math.{divide_up, align_up}
use givy.Math.Laws.{divide_up_lem, align_lem}
use mathlib.Core.Path.{ap₂}
use givy.Pointer.{sub}
use givy.Space.{
  Space, make_space, superpage_size, superpage, superpage_num, node_of_allocation, in_gas,
  in_local_interval,
}

-- What the constructor sets up: `total` superpages from an aligned address on, the same number for
-- each node, with a table that has a place for each.
pub record IsLaidOut (s : Space) : Type 0 where
  pub some_node : 0 < s.nb_node
  pub some_superpage : 0 < s.superpage_by_node
  pub local_in : s.local_node < s.nb_node
  pub aligned : s.gas_interval.start_ % superpage_size ≡ 0
  pub gas_end :
      s.gas_interval.end_
      ≡ s.gas_interval.start_ + superpage_size * (s.superpage_by_node * s.nb_node)
  pub fits : s.gas_interval.end_ < 2 ^ 64
  pub local_sp_start : s.local_interval_sp.start_ ≡ s.local_node * s.superpage_by_node
  pub local_sp_end :
      s.local_interval_sp.end_ ≡ s.local_node * s.superpage_by_node + s.superpage_by_node
  pub local_start :
      s.local_interval.start_ ≡ s.gas_interval.start_ + superpage_size * s.local_interval_sp.start_
  pub local_end :
      s.local_interval.end_ ≡ s.gas_interval.start_ + superpage_size * s.local_interval_sp.end_
  pub local_sp_in : s.local_interval_sp.end_ ≤ s.superpage_by_node * s.nb_node

-- The number of a superpage is found from every address in it.
pub superpage_num-superpage :
    (s : Space) (n off : ℕ)
    → IsLaidOut s
    → n < s.superpage_by_node * s.nb_node
    → off < superpage_size
    → superpage_num s (superpage s n + off) ≡ n
unfolding superpage_num superpage
superpage_num-superpage s n off h lt small = omega (arith, h.gas_end, h.fits)

-- An address of the space lies in the superpage of its number.
pub superpage-superpage_num :
    (s : Space) (p : ℕ)
    → IsLaidOut s
    → in_gas s p ≡ true
    → (superpage s (superpage_num s p) ≤ p)
      × (p < superpage s (superpage_num s p) + superpage_size)
      × (superpage_num s p < s.superpage_by_node * s.nb_node)
      × (superpage s (superpage_num s p) % superpage_size ≡ 0)
unfolding superpage_num superpage
superpage-superpage_num s p h inside =
    let lo : s.gas_interval.start_ ≤ p = ground arith in
    let hi : p < s.gas_interval.end_ = ground arith in omega (arith, h.gas_end, h.fits, h.aligned)

-- The constructor lays out the space, if there is a node, the local node is one of them, there is
-- some space for a node, and no address or size leaves 64 bits.
pub make_space-IsLaidOut :
    (gas_start space_by_node nb_node local_node : ℕ)
    → local_node < nb_node
    → 0 < space_by_node
    → space_by_node + superpage_size ≤ 2 ^ 64
    → gas_start + superpage_size ≤ 2 ^ 64
    → align_up gas_start superpage_size
        + superpage_size * (divide_up space_by_node superpage_size * nb_node)
      < 2 ^ 64
    → IsLaidOut (make_space gas_start space_by_node nb_node local_node)
unfolding make_space
make_space-IsLaidOut gas_start space_by_node nb_node local_node is_node pos space_fits start_fits
      fits =
    record {
      some_node = omega arith;
      some_superpage = some_superpage;
      local_in = is_node;
      aligned = omega (arith, start, gas_from);
      gas_end = omega (arith, gas_from, gas_to);
      fits = omega (arith, gas_from, gas_to);
      local_sp_start = local_sp_from;
      local_sp_end = local_sp_to;
      local_start = omega (arith, gas_from, local_sp_from, all_local);
      local_end = omega (arith, gas_from, local_sp_to, all_local);
      local_sp_in = omega (arith, local_sp_to, all_local);
    }
  where
    b : ℕ
    b = divide_up space_by_node superpage_size

    g : ℕ
    g = align_up gas_start superpage_size

    start : (g % superpage_size ≡ 0) × (gas_start ≤ g)
    start = let a = align_lem gas_start superpage_size (omega arith) start_fits in (a.0, a.1)

    some_superpage : 0 < b
    some_superpage =
        omega (arith, divide_up_lem space_by_node superpage_size (omega arith) space_fits)

    per_node : b ≤ b * nb_node
    per_node = le-mul_of_pos_right b (omega arith)

    nodes : nb_node ≤ nb_node * b
    nodes = le-mul_of_pos_right nb_node some_superpage

    swap : nb_node * b ≡ b * nb_node
    swap = mul_comm nb_node b

    whole : nb_node * (superpage_size * b) ≡ superpage_size * (b * nb_node)
    whole = mul_left_comm nb_node superpage_size b ∙ ap (λ k. superpage_size * k) swap

    all_local : local_node * b + b ≤ b * nb_node
    all_local = omega (arith, mul-le-mul_right b is_node', add-mul local_node 1 b, swap)
      where
        is_node' : local_node + 1 ≤ nb_node
        is_node' = omega arith

    size_fits : superpage_size * b % 2 ^ 64 ≡ superpage_size * b
    size_fits = omega (arith, per_node)

    gas_from : (0 * (superpage_size * b % 2 ^ 64) % 2 ^ 64 + g) % 2 ^ 64 ≡ g
    gas_from = omega arith

    gas_to :
        (nb_node * (superpage_size * b % 2 ^ 64) % 2 ^ 64 + g) % 2 ^ 64
        ≡ g + superpage_size * (b * nb_node)
    gas_to = rw size_fits (rw whole (omega arith))

    local_sp_from : local_node * b % 2 ^ 64 ≡ local_node * b
    local_sp_from = omega (arith, all_local)

    local_sp_to : (local_node + 1) % 2 ^ 64 * b % 2 ^ 64 ≡ local_node * b + b
    local_sp_to =
        let small : (local_node + 1) % 2 ^ 64 ≡ local_node + 1 = omega (arith, nodes, swap) in
        rw small (omega (arith, add-mul local_node 1 b, all_local))

-- `node_of_allocation` gives one of the nodes, and the address lies in the part of the space of that
-- node, where each node has `superpage_by_node` superpages after those of the nodes before it. It is
-- the local node exactly for an address of the local interval.
pub node_of_allocation_lem :
    (s : Space) (p : ℕ)
    → IsLaidOut s
    → in_gas s p ≡ true
    → (node_of_allocation s p < s.nb_node)
      × (s.gas_interval.start_ + node_of_allocation s p * (s.superpage_by_node * superpage_size)
          ≤ p)
      × (p
          < s.gas_interval.start_
            + (node_of_allocation s p + 1) * (s.superpage_by_node * superpage_size))
      × ((node_of_allocation s p ≡ s.local_node) ↔ (in_local_interval s p ≡ true))
unfolding node_of_allocation
node_of_allocation_lem s p h inside =
    let per_node : b ≤ b * s.nb_node = le-mul_of_pos_right b h.some_node in
    let same : sub p s.gas_interval.start_ / (b * superpage_size % 2 ^ 64) ≡ d / w =
      ap₂ (λ x y. x / y) (omega (arith, lo, hi, h.fits))
        (omega (arith, per_node, h.gas_end, h.fits)) in
    rw same (
      omega (arith, (below s.nb_node).1 (omega (arith, times s.nb_node, swap, lo, hi, h.gas_end))),
      omega (arith, part_start, lo),
      omega (arith, (below (d / w + 1)).0 (omega arith), lo),
      (
        λ e.
            inside_local
              (omega (
                arith,
                (below (s.local_node + 1)).0 (omega (arith, e)),
                times (s.local_node + 1),
                more,
                e,
              ))
              (not_below (omega (arith, e))),
        λ e. omega (
          arith,
          (below (s.local_node + 1)).1 (omega (arith, times (s.local_node + 1), more, bounds e)),
          not_above (bounds e).0,
        ),
      ),
    )
  where
    b : ℕ
    b = s.superpage_by_node

    w : ℕ
    w = b * superpage_size

    d : ℕ
    d = p - s.gas_interval.start_

    lo : s.gas_interval.start_ ≤ p
    lo = ground arith

    hi : p < s.gas_interval.end_
    hi = ground arith

    pos : 0 < w
    pos = omega (arith, h.some_superpage)

    below : (k : ℕ) → (d / w < k) ↔ (d < k * w)
    below k = div-lt_iff_lt-mul pos

    part_start : d / w * w ≤ d
    part_start = elim (Bool-cases (ltb d (d / w * w))) [
      | inl less ↦ absurd (omega (arith, (below (d / w)).1 (ltb→lt _ _ less)))
      | inr at_least ↦ ltb→le _ _ at_least
    ]

    times : (k : ℕ) → k * w ≡ superpage_size * (k * b)
    times k = omega (arith, mul_assoc k b superpage_size)

    swap : s.nb_node * b ≡ b * s.nb_node
    swap = mul_comm s.nb_node b

    more : (s.local_node + 1) * b ≡ s.local_node * b + b
    more = omega (arith, add-mul s.local_node 1 b)

    bounds :
        in_local_interval s p ≡ true
        → (superpage_size * (s.local_node * b) ≤ d) × (d < superpage_size * (s.local_node * b + b))
    bounds e =
        let low : s.local_interval.start_ ≤ p = ground arith in
        let high : p < s.local_interval.end_ = ground arith in
        omega (arith, h.local_start, h.local_end, h.local_sp_start, h.local_sp_end)

    not_above : superpage_size * (s.local_node * b) ≤ d → s.local_node ≤ d / w
    not_above le = elim (Bool-cases (ltb (d / w) s.local_node)) [
      | inl less ↦
          absurd (omega (arith, (below s.local_node).0 (ltb→lt _ _ less), times s.local_node))
      | inr at_least ↦ ltb→le _ _ at_least
    ]

    not_below : s.local_node ≤ d / w → superpage_size * (s.local_node * b) ≤ d
    not_below le = elim (Bool-cases (ltb d (s.local_node * w))) [
      | inl less ↦ absurd (omega (arith, (below s.local_node).1 (ltb→lt _ _ less)))
      | inr at_least ↦ omega (arith, ltb→le _ _ at_least, times s.local_node)
    ]

    inside_local :
        d < superpage_size * (s.local_node * b + b)
        → superpage_size * (s.local_node * b) ≤ d
        → in_local_interval s p ≡ true
    inside_local high low =
        let up : p < s.local_interval.end_ = omega (arith, lo, h.local_end, h.local_sp_end) in
        let down : s.local_interval.start_ ≤ p =
          omega (arith, lo, h.local_start, h.local_sp_start) in
        ground arith
