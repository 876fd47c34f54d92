-- ===== src/LocalHeap/Covers.antt =====
-- `ThreadLocalHeap::allocate` of src/allocator.h returns at least what was asked for.
use native.Mathlib.Nat.{pow-le-pow_right}
use givy.Base.{
  ℕ, ◌+◌, ◌-◌, ◌*◌, ◌^◌, ◌≤◌, ◌<◌, ◌≡◌, refl, arith, max, dec_lt, Bool, true, ◌&&◌, Option, none,
  some, List, [], ◌∷◌, ◌>>=◌, leb, ltb, ◌==◌, if◌then◌else◌, Bool-cases, inl, inr, ltb→lt,
}
use givy.Math.{divide_up, log_2_sup, is_power_of_2}
use givy.Math.Laws.{divide_up_lem, log_2_sup_lem, round_up_as_power_of_2_lem}
use givy.Pointer.{Ptr}
use givy.Space.{Space, VmemCall, reserve_local_superpage_sequence, page_size}
use givy.SizeClass.{Info, small_medium}
use givy.SizeClass.Laws.{make_info-id}
use givy.SuperpageBlock.{medium, page_block_memory, huge_alloc_memory, make_superpage_block}
use givy.LocalHeap.{Sizes, smallest, min_sizeclass_log, Node, active}
use givy.LocalHeap.Huge.{IsSized, superpage_nb_for_lem}
use givy.LocalHeap.Pages.{
  create_page_block, create_superpage_block, put_superpage_block, superpage_nb_for,
}
use givy.LocalHeap.Small.{
  info_for, take_from, add_page_block, allocate_small_block, process_thread_remote_frees,
}
use givy.LocalHeap.Interface.{medium_high, allocate_size, allocate}
use givy.LocalHeap.Served.{Ready, HasPages, create_page_block-HasPages}

-- The memory that is returned, if any, has `size` bytes or more.
abbrev pub Covers : ℕ → Option ((Ptr × ℕ) × Node) → Type 0
Covers size none = ◌≡◌ {A = Bool} true true
Covers size (some r) = size ≤ r.0.1

-- The smallest size class is not larger than a page.
pub record IsClassed (z : Sizes) : Type 0 where
  pub sized : IsSized z
  pub smallest_some : 1 < smallest z
  pub smallest_fits : smallest z ≤ page_size

log_2_sup_le : (x y : ℕ) → 1 < x → x ≤ y → y ≤ 2 ^ 12 → log_2_sup x ≤ log_2_sup y
log_2_sup_le x y pos le small =
    let a = log_2_sup_lem x pos (omega arith) in
    let b = log_2_sup_lem y (omega arith) (omega arith) in
    elim (dec_lt (log_2_sup y) (log_2_sup x)) [
      | yes less ↦
          let p =
            pow-le-pow_right {n = 2} (omega arith) {i = log_2_sup y} {j = log_2_sup x - 1}
              (omega arith) in
          absurd (omega (arith, p, a, b))
      | no more ↦ omega arith
    ]

pub at_most_page : (size : ℕ) → size < small_medium → size ≤ page_size
unfolding small_medium
at_most_page size lt =
    let r = round_up_as_power_of_2_lem page_size (omega arith) (omega arith) in
    omega (arith, r.2 12 (omega arith))

pub class_covers :
    (z : Sizes) (me size : ℕ)
    → IsClassed z
    → size ≤ page_size
    → size ≤ (info_for z me size).block_size
class_covers z me size c le =
    let log =
      log_2_sup_le (smallest z) (max size (smallest z)) c.smallest_some (omega arith)
        (omega (arith, c.smallest_fits)) in
    let r =
      make_info-id (min_sizeclass_log z) (max size (smallest z)) (omega (arith, c.smallest_some))
        (omega (arith, c.smallest_fits)) log in
    omega (arith, r.1)

take_from-Covers :
    (z : Sizes) (me size : ℕ) (l : List (Ptr × ℕ)) (info : Info) (n : Node)
    → size ≤ info.block_size
    → Covers size (take_from z me l info n)
unfolding take_from
take_from-Covers z me size [] info n le = refl
take_from-Covers z me size (b ∷ rest) info n le = le

small-Covers :
    (z : Sizes) (me size : ℕ) (n : Node)
    → IsClassed z
    → size ≤ page_size
    → Covers size (allocate_small_block z me size n)
unfolding allocate_small_block
small-Covers z me size n c le = go (elim (active n me (info_for z me size).sc_id) [
  | [] ↦ add_page_block z me (info_for z me size) n
  | _ ∷ _ ↦ some n
])
  where
    go :
        (r : Option Node)
        → Covers size (
            r >>= λ ready.
            take_from z me (active ready me (info_for z me size).sc_id) (info_for z me size) ready)
    go none = refl
    go (some ready) =
        take_from-Covers z me size (active ready me (info_for z me size).sc_id) (info_for z me size)
          ready (class_covers z me size c le)

medium-Covers :
    (z : Sizes) (me size : ℕ) (n : Node)
    → IsSized z
    → Ready n
    → 0 < size
    → size ≤ 2 ^ 62
    → Covers size (
        create_page_block z me (divide_up size page_size) medium n >>= λ r.
        some (page_block_memory (r.1.superpage_blocks r.0.0) r.0.0 r.0.1, r.1))
medium-Covers z me size n h k pos le =
    go (create_page_block z me (divide_up size page_size) medium n)
      (create_page_block-HasPages z me (divide_up size page_size) medium n h k (omega (arith, up)))
  where
    up :
        (size ≤ divide_up size page_size * page_size)
        × (divide_up size page_size * page_size < size + page_size)
    up = divide_up_lem size page_size (omega arith) (omega arith)

    go :
        (r : Option ((Ptr × ℕ) × Node))
        → HasPages (divide_up size page_size) r
        → Covers size
            (r >>= λ r. some (page_block_memory (r.1.superpage_blocks r.0.0) r.0.0 r.0.1, r.1))
    go none e = refl
    go (some (b, n')) e = omega (arith, up, e)

huge-Covers :
    (z : Sizes) (me size : ℕ) (n : Node)
    → IsSized z
    → size ≤ 2 ^ 62
    → Covers size (
        create_superpage_block z me size n >>= λ r.
        some (huge_alloc_memory (r.1.superpage_blocks r.0) r.0, r.1))
unfolding create_superpage_block put_superpage_block make_superpage_block
huge-Covers z me size n h le =
    go (reserve_local_superpage_sequence n.space (superpage_nb_for z me size))
  where
    go :
        (r : Option (Ptr × Space × List VmemCall))
        → Covers size (
            (r >>= put_superpage_block z me size n) >>= λ r.
            some (huge_alloc_memory (r.1.superpage_blocks r.0) r.0, r.1))
    go none = refl
    go (some (base, space, calls)) =
        let e : (base == base) ≡ true = ground arith in
        rw e (omega (arith, superpage_nb_for_lem z me size h le))

allocate_size-Covers :
    (z : Sizes) (me size : ℕ) (n : Node)
    → IsClassed z
    → Ready n
    → 0 < size
    → size ≤ 2 ^ 62
    → Covers size (allocate_size z me size n)
unfolding allocate_size
allocate_size-Covers z me size n c k pos le = elim (Bool-cases (ltb size small_medium)) [
  | inl is_small ↦
      rw is_small (small-Covers z me size n c (at_most_page size (ltb→lt _ _ is_small)))
  | inr not_small ↦ rw not_small (elim (Bool-cases (ltb size (medium_high z me))) [
    | inl is_medium ↦ rw is_medium (medium-Covers z me size n c.sized k pos le)
    | inr is_huge ↦ rw is_huge (huge-Covers z me size n c.sized le)
  ])
]

-- Whatever the class of the request (small, medium, huge), the memory that `allocate` returns, if
-- it returns, has at least as many bytes as the size and as the alignment asked for. The request
-- is for 1 to 2 ^ 62 bytes, the smallest size class is not larger than a page, and the superpage
-- blocks are in order behind the pending remote deallocations.
pub allocate-Covers :
    (z : Sizes) (me size align : ℕ) (n : Node)
    → IsClassed z
    → ((n' : Node) → process_thread_remote_frees z me n ≡ some n' → Ready n')
    → 0 < max size align
    → max size align ≤ 2 ^ 62
    → Covers (max size align) (allocate z me size align n)
unfolding allocate
allocate-Covers z me size align n c ready pos le = go (process_thread_remote_frees z me n) ready
  where
    go :
        (r : Option Node)
        → ((n' : Node) → r ≡ some n' → Ready n')
        → Covers (max size align) (
            r >>= λ processed.
            if leb align page_size && is_power_of_2 align
            then allocate_size z me (max size align) processed
            else none)
    go none f = refl
    go (some n') f = elim (Bool-cases (leb align page_size && is_power_of_2 align)) [
      | inl e ↦ rw e (allocate_size-Covers z me (max size align) n' c (f n' refl) pos le)
      | inr e ↦ rw e refl
    ]
