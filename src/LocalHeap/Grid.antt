-- ===== src/LocalHeap/Grid.antt =====
-- The grid of `UnusedBlock` in src/allocator.h: what a deallocation does with an address moved down to
-- it is what it does with the address.
use native.Mathlib.Nat.{
  div-add-mod, div-div-eq-div-mul, mod-eq_of_lt, le-div_iff_mul-le, mul-le-mul_right, mul_comm,
  add-mul-div_right, add-mul, mul-div_left, add-mul-mod_self_left, mul_left_comm, mul-mod_right,
}
use givy.Base.{
  ℕ, ◌+◌, ◌-◌, ◌*◌, ◌/◌, ◌%◌, ◌^◌, ◌≤◌, ◌<◌, ◌≡◌, refl, sym, ap, ◌∙◌, arith, leb, Bool, Option,
  none, some, Bool-cases, inl, inr, if◌then◌else◌,
}
use givy.Math.{align}
use givy.Pointer.{Ptr, ptr_align, sub, add}
use givy.Space.{page_size}
use givy.SmallBlocks.{put_small_block}
use givy.SuperpageBlock.{
  header, all_page_blocks_unused, small, medium, huge, unused, reserved, in_huge_alloc,
  page_block_header,
}
use givy.LocalHeap.Pages.{destroy_page_block, destroy_superpage_block, destroy_superpage_huge_alloc}
use givy.LocalHeap.{Sizes, Node}
use givy.LocalHeap.Small.{info_of, destroy_small_block, thread_local_deallocate}

down_le : (p u : ℕ) → 0 < u → p / u * u ≤ p
down_le p u pos = omega (arith, div-add-mod p u, mul_comm (p / u) u)

align-down : (p u : ℕ) → 0 < u → p < 2 ^ 64 → align p u ≡ p / u * u
unfolding align
align-down p u pos lt = mod-eq_of_lt (omega (arith, down_le p u pos))

multiple : (x u : ℕ) → x % u ≡ 0 → x ≡ u * (x / u)
multiple x u e = omega (arith, div-add-mod x u, e)

down_again : (p u : ℕ) → 0 < u → p / u * u / u ≡ p / u
down_again p u pos = mul-div_left (p / u) pos

-- Moving down to a finer grid does not change the place in the coarser one.
quotient_down : (p u v : ℕ) → 0 < u → v % u ≡ 0 → p / u * u / v ≡ p / v
quotient_down p u v pos e =
    let m = multiple v u e in
    ap (λ w. p / u * u / w) m
    ∙ sym (div-div-eq-div-mul (p / u * u) u (v / u))
    ∙ ap (λ w. w / (v / u)) (down_again p u pos)
    ∙ div-div-eq-div-mul p u (v / u)
    ∙ ap (λ w. p / w) (sym m)

multiple_below : (a p u : ℕ) → 0 < u → a % u ≡ 0 → a ≤ p → a ≤ p / u * u
multiple_below a p u pos e le =
    let m = multiple a u e in
    let steps : a / u ≤ p / u = (le-div_iff_mul-le pos).1 (omega (arith, m, mul_comm (a / u) u)) in
    omega (arith, mul-le-mul_right u steps, m, mul_comm (a / u) u)

-- A place of the grid is at or below an address exactly if it is so for the address moved down.
leb_down : (a p u : ℕ) → 0 < u → a % u ≡ 0 → leb a (p / u * u) ≡ leb a p
leb_down a p u pos e = elim (Bool-cases (leb a p)) [
  | inl le ↦ let in_order = multiple_below a p u pos e (ground arith) in ground (arith, in_order)
  | inr gt ↦ let d = down_le p u pos in ground (arith, d)
]

-- The distance from a place of the grid.
distance_down : (p a u : ℕ) → 0 < u → a % u ≡ 0 → a ≤ p → p / u * u - a ≡ (p - a) / u * u
distance_down p a u pos e le =
    let m = multiple a u e in
    let whole : p ≡ p - a + a / u * u = omega (arith, m, mul_comm (a / u) u) in
    let q : p / u ≡ (p - a) / u + a / u =
      ap (λ x. x / u) whole ∙ add-mul-div_right (p - a) (a / u) pos in
    let r : p / u * u ≡ (p - a) / u * u + a / u * u =
      ap (λ x. x * u) q ∙ add-mul ((p - a) / u) (a / u) u in
    omega (arith, r, m, mul_comm (a / u) u)

module _ (p u : ℕ) (pos : 0 < u) (lt : p < 2 ^ 64) where
  down : ptr_align p u ≡ p / u * u
  down = align-down p u pos lt

  below : p / u * u ≤ p
  below = down_le p u pos

  ptr_align-down : (v : ℕ) → v % u ≡ 0 → ptr_align (ptr_align p u) v ≡ ptr_align p v
  unfolding align
  ptr_align-down v e =
      ap (λ x. align x v) down ∙ ap (λ x. x * v % 2 ^ 64) (quotient_down p u v pos e)

  leb-add :
      (a off : ℕ)
      → a % u ≡ 0
      → off % u ≡ 0
      → a + off < 2 ^ 64
      → leb (add a off) (ptr_align p u) ≡ leb (add a off) p
  leb-add a off ea eo fits =
      let sum : add a off ≡ a + off = mod-eq_of_lt fits in
      let on_grid : (a + off) % u ≡ 0 =
        ap (λ x. (a + x) % u) (multiple off u eo) ∙ add-mul-mod_self_left a u (off / u) ∙ ea in
      ap (λ x. leb x (ptr_align p u)) sum
      ∙ ap (λ x. leb (a + off) x) down
      ∙ leb_down (a + off) p u pos on_grid
      ∙ ap (λ x. leb x p) (sym sum)

  place : (a v : ℕ) → a % u ≡ 0 → v % u ≡ 0 → a ≤ p → sub (ptr_align p u) a / v ≡ sub p a / v
  place a v ea ev le =
      let low : a ≤ p / u * u = multiple_below a p u pos ea le in
      let near : sub (p / u * u) a ≡ p / u * u - a = omega (arith, below) in
      let far : sub p a ≡ p - a = omega arith in
      ap (λ x. sub x a / v) down
      ∙ ap (λ x. x / v) (near ∙ distance_down p a u pos ea le)
      ∙ quotient_down (p - a) u v pos ev
      ∙ ap (λ x. x / v) (sym far)

pages_on_grid : (k u : ℕ) → page_size % u ≡ 0 → k * page_size % u ≡ 0
pages_on_grid k u e =
    ap (λ x. k * x % u) (multiple page_size u e)
    ∙ ap (λ x. x % u) (mul_left_comm k u (page_size / u))
    ∙ mul-mod_right u (k * (page_size / u))

module _ (z : Sizes) (me : ℕ) (ptr spb : Ptr) (n : Node) where
  abbrev pub header_of : ℕ
  header_of = page_block_header (n.superpage_blocks spb) spb ptr

  destroy_small_block-down :
      (pbh : ℕ)
      → ptr_align
          (ptr_align ptr z.unused_block_size)
          (info_of z me (n.small_blocks spb pbh).sb_sizeclass).block_size
        ≡ ptr_align ptr (info_of z me (n.small_blocks spb pbh).sb_sizeclass).block_size
      → destroy_small_block z me (ptr_align ptr z.unused_block_size) spb pbh n
        ≡ destroy_small_block z me ptr spb pbh n
  unfolding destroy_small_block put_small_block
  destroy_small_block-down pbh e = rw e refl

  -- `thread_local_deallocate` by its test, the header that it finds, and the node after a small block.
  abbrev by_parts : Bool → ℕ → Node → Option Node
  by_parts in_huge pbh freed =
      if in_huge
      then if all_page_blocks_unused z.header_space_pages (n.superpage_blocks spb)
        then some (destroy_superpage_block z me spb n)
        else destroy_superpage_huge_alloc z me spb n
      else elim (header (n.superpage_blocks spb).pbh_table pbh).type [
        | small ↦ some freed
        | medium ↦ some (destroy_page_block z me spb pbh n)
        | huge ↦ none
        | unused ↦ none
        | reserved ↦ none
      ]

  -- The pages, the superpage block and the blocks of the class are on the grid, and the address is
  -- behind the start of the superpage block.
  pub thread_local_deallocate-down :
      0 < z.unused_block_size
      → page_size % z.unused_block_size ≡ 0
      → spb % z.unused_block_size ≡ 0
      → (info_of z me (n.small_blocks spb header_of).sb_sizeclass).block_size % z.unused_block_size
        ≡ 0
      → spb ≤ ptr
      → ptr < 2 ^ 64
      → spb + (n.superpage_blocks spb).huge_alloc_pb_index * page_size < 2 ^ 64
      → thread_local_deallocate z me (ptr_align ptr z.unused_block_size) spb n
        ≡ thread_local_deallocate z me ptr spb n
  unfolding thread_local_deallocate
  thread_local_deallocate-down pos pages start blocks le lt fits =
      let u = z.unused_block_size in
      let k = (n.superpage_blocks spb).huge_alloc_pb_index in
      let same_huge : in_huge_alloc (n.superpage_blocks spb) spb (ptr_align ptr u)
          ≡ in_huge_alloc (n.superpage_blocks spb) spb ptr =
        leb-add ptr u pos lt spb (k * page_size) start (pages_on_grid k u pages) fits in
      let same_page : sub (ptr_align ptr u) spb / page_size ≡ sub ptr spb / page_size =
        place ptr u pos lt spb page_size start pages le in
      let same_block = destroy_small_block-down header_of (
        ptr_align-down ptr u pos lt
          (info_of z me (n.small_blocks spb header_of).sb_sizeclass).block_size blocks) in
      let al = ptr_align ptr u in
      let s = n.superpage_blocks spb in
      ap
        (λ b.
          by_parts b (page_block_header s spb al)
            (destroy_small_block z me al spb (page_block_header s spb al) n))
        same_huge
      ∙ ap
          (λ i.
            by_parts (in_huge_alloc s spb ptr) (header s.pbh_table i).head
              (destroy_small_block z me al spb (header s.pbh_table i).head n))
          same_page
      ∙ ap (λ d. by_parts (in_huge_alloc s spb ptr) header_of d) same_block
