-- ===== src/LocalHeap/Classes.antt =====
-- Small and medium allocations of src/allocator.h: what they return, when they fail, and that the
-- superpage blocks stay in order.
use mathlib.Core.Path.{subst}
use givy.Base.{
  ℕ, ◌+◌, ◌*◌, ◌≤◌, ◌<◌, ◌≡◌, refl, sym, ap, arith, Option, none, some, List, [], ◌∷◌, ◌>>=◌, ◌==◌,
  Bool-cases, inl, inr, Bool, true, false, ltb, ltb→lt, ◌||◌, ◌&&◌, if◌then◌else◌,
}
use givy.Math.{divide_up}
use givy.Math.Laws.{divide_up_lem}
use givy.Pointer.{Ptr}
use givy.IntrusiveList.Ring.Links.{has}
use givy.Space.{VmemCall, page_size, reserve_local_superpage_sequence}
use givy.SizeClass.{Info, make_info, small_medium}
use givy.SmallBlocks.{configure_small_blocks, take_small_block, available_small_blocks}
use givy.SuperpageBlock.{
  PageBlockHeader, MemoryType, small, medium, page_block_memory, huge_alloc_memory, nb_page_of,
}
use givy.SuperpageBlock.WellFormed.Given.{given}
use givy.LocalHeap.Search.{IsTooFull, same_key}
use givy.LocalHeap.{Sizes, Node, set_small, set_active, active, page_block}
use givy.LocalHeap.Pages.{superpage_nb_for, create_page_block}
use givy.LocalHeap.Small.{info_for, add_page_block, take_from, allocate_small_block}
use givy.LocalHeap.Interface.{medium_high}
use givy.LocalHeap.Covers.{IsClassed, class_covers}
use givy.LocalHeap.Given.{
  PageBlockGiven, from_owned, from_fresh, no_memory, too_large, create_page_block-PageBlockGiven,
}
use givy.LocalHeap.Invariant.{IsNode, IsNode-IsHeap, IsNode-fewer, PageBlockGiven-IsNode}
use givy.LocalHeap.Kept.{set_active-IsNode}

-- A request that is served from a page block, not by superpages of its own, and its pages.
abbrev pub is_small_or_medium_size : Sizes → ℕ → ℕ → Bool
is_small_or_medium_size z me size = ltb size small_medium || ltb size (medium_high z me)

abbrev pub page_nb_for : ℕ → ℕ
page_nb_for size = if ltb size small_medium then 1 else divide_up size page_size

-- Where the memory for `size` bytes is: the block that the first active page block of the class gives,
-- that a page block given for the class gives, a page block given for the size, or the huge allocation
-- of the superpages that were reserved for the size.
pub data Placed (z : Sizes) (me : ℕ) (n : Node) (size : ℕ) : Ptr → Node → Type 0 where
  in_active :
      {p : Ptr × ℕ} {rest : List (Ptr × ℕ)} {n' : Node}
      → active n me (info_for z me size).sc_id ≡ p ∷ rest
      → Placed z me n size
          (take_small_block z.counter_bits
            (page_block p.0 p.1)
            (n.small_blocks p.0 p.1)
            (info_for z me size)).0
          n'
  in_new :
      {p : Ptr × ℕ} {made n' : Node}
      → active n me (info_for z me size).sc_id ≡ []
      → PageBlockGiven z me 1 small n (some (p, made))
      → Placed z me n size
          (take_small_block z.counter_bits
            (page_block p.0 p.1)
            (configure_small_blocks (info_for z me size))
            (info_for z me size)).0
          n'
  in_pages :
      {p : Ptr × ℕ} {n' : Node}
      → PageBlockGiven z me (divide_up size page_size) medium n (some (p, n'))
      → Placed z me n size (page_block_memory (n'.superpage_blocks p.0) p.0 p.1).0 n'
  in_superpages :
      {base : Ptr} {calls : List VmemCall} {n' : Node}
      → reserve_local_superpage_sequence n.space (superpage_nb_for z me size)
        ≡ some (base, n'.space, calls)
      → Placed z me n size (huge_alloc_memory (n'.superpage_blocks base) base).0 n'

-- Memory of at least `size` bytes at its place, with the superpage blocks in order; or no superpage
-- block of the heap has the pages and the space does not reserve one superpage, or it does not reserve
-- the superpages that the size needs.
pub data Outcome (z : Sizes) (me : ℕ) (n : Node) (size : ℕ)
    : Option ((Ptr × ℕ) × Node) → Type 0 where
  returned :
      {b : Ptr × ℕ} {n' : Node}
      → size ≤ b.1
      → Placed z me n size b.0 n'
      → IsNode n'
      → Outcome z me n size (some (b, n'))
  no_pages :
      is_small_or_medium_size z me size ≡ true
      → reserve_local_superpage_sequence n.space 1 ≡ none
      → ((p : Ptr)
          → has p (n.heaps me).owned_superpage_blocks ≡ true
          → IsTooFull (page_nb_for size) (n.superpage_blocks p))
      → Outcome z me n size none
  no_superpages :
      is_small_or_medium_size z me size ≡ false
      → reserve_local_superpage_sequence n.space (superpage_nb_for z me size) ≡ none
      → Outcome z me n size none

active-set_active :
    (n : Node) (me sc : ℕ) (l : List (Ptr × ℕ)) → active (set_active n me sc l) me sc ≡ l
active-set_active n me sc l = let a = same_key me in let b = same_key sc in ground (arith, a, b)

module _ (z : Sizes) (me : ℕ) (n : Node) (c : IsClassed z) (k : IsNode n) where
  -- The page block behind the answer of `create_page_block`.
  PageBlockGiven-size :
      (nb : ℕ) (ty : MemoryType) (b : Ptr × ℕ) (n' : Node)
      → PageBlockGiven z me nb ty n (some (b, n'))
      → nb_page_of (n'.superpage_blocks b.0).pbh_table b.1 ≡ nb
  PageBlockGiven-size nb ty b n'
        (from_owned mem (given good same first room was types kept) but heaps space) =
      ap (λ (x : PageBlockHeader). x.nb_page) first
  PageBlockGiven-size nb ty b n'
        (from_fresh e full (given good same first room was types kept) but own) =
      ap (λ (x : PageBlockHeader). x.nb_page) first

  take_from-Outcome :
      (size : ℕ) (b : Ptr × ℕ) (rest : List (Ptr × ℕ)) (info : Info) (n' : Node)
      → size ≤ info.block_size
      → ((m : Node)
          → Placed z me n size
              (take_small_block z.counter_bits
                (page_block b.0 b.1)
                (n'.small_blocks b.0 b.1)
                info).0
              m)
      → IsNode n'
      → Outcome z me n size (take_from z me (b ∷ rest) info n')
  unfolding take_from
  take_from-Outcome size b rest info n' le place k' =
      let r = take_small_block z.counter_bits (page_block b.0 b.1) (n'.small_blocks b.0 b.1) info in
      let taken = set_small n' b.0 b.1 r.1 in
      let k'' : IsNode taken = IsNode-fewer n' taken k' refl (λ j p h. h) in
      elim (Bool-cases (available_small_blocks r.1 info == 0)) [
        | inl full ↦
            rw full (returned le (place _) (set_active-IsNode z me info.sc_id rest taken k''))
        | inr more ↦ rw more (returned le (place _) k'')
      ]

  pub medium-Outcome :
      (size : ℕ)
      → 0 < size
      → ltb size small_medium ≡ false
      → ltb size (medium_high z me) ≡ true
      → Outcome z me n size (
          create_page_block z me (divide_up size page_size) medium n >>= λ r.
          some (page_block_memory (r.1.superpage_blocks r.0.0) r.0.0 r.0.1, r.1))
  medium-Outcome size pos not_small is_medium =
      go (create_page_block z me (divide_up size page_size) medium n) (
        create_page_block-PageBlockGiven z me (divide_up size page_size) medium n c.sized
          (IsNode-IsHeap me n k) (omega (arith, lt, up)) refl)
    where
      lt : size < medium_high z me
      lt = ltb→lt _ _ is_medium

      up :
          (size ≤ divide_up size page_size * page_size)
          × (divide_up size page_size * page_size < size + page_size)
      up = divide_up_lem size page_size (omega arith) (omega (arith, lt))

      go :
          (r : Option ((Ptr × ℕ) × Node))
          → PageBlockGiven z me (divide_up size page_size) medium n r
          → Outcome z me n size
              (r >>= λ r. some (page_block_memory (r.1.superpage_blocks r.0.0) r.0.0 r.0.1, r.1))
      go none (no_memory e full) = no_pages (ground arith) e (rw not_small full)
      go none (too_large large) = absurd (omega (arith, lt, up, c.sized.header_fits))
      go (some (b, n')) g =
          returned (omega (arith, up, PageBlockGiven-size (divide_up size page_size) medium b n' g))
            (in_pages g) (PageBlockGiven-IsNode z me _ medium n b n' k g)

  abbrev class_info : ℕ → Info
  class_info size = info_for z me size

  one_page : (size : ℕ) → (class_info size).page_block_size ≡ 1
  unfolding make_info
  one_page size = refl

  -- The active list of the class was empty: a page block is created for it.
  new_block-Outcome :
      (size : ℕ)
      → ltb size small_medium ≡ true
      → active n me (class_info size).sc_id ≡ []
      → size ≤ (class_info size).block_size
      → Outcome z me n size (
          add_page_block z me (class_info size) n >>= λ ready.
          take_from z me (active ready me (class_info size).sc_id) (class_info size) ready)
  unfolding add_page_block
  new_block-Outcome size is_small empty le =
      go (create_page_block z me info.page_block_size small n) (
        create_page_block-PageBlockGiven z me info.page_block_size small n c.sized
          (IsNode-IsHeap me n k) (omega (arith, one_page size)) refl)
    where
      info : Info
      info = class_info size

      configured : Ptr × ℕ → Node → Node
      configured b n' = set_small n' b.0 b.1 (configure_small_blocks info)

      ready : Ptr × ℕ → Node → Node
      ready b n' =
          set_active (configured b n') me info.sc_id (b ∷ active (configured b n') me info.sc_id)

      placed :
          (b : Ptr × ℕ) (n' : Node)
          → PageBlockGiven z me info.page_block_size small n (some (b, n'))
          → (m : Node)
          → Placed z me n size
              (take_small_block z.counter_bits
                (page_block b.0 b.1)
                ((ready b n').small_blocks b.0 b.1)
                info).0
              m
      placed b n' g m =
          let own : ((b.0 == b.0) && (b.1 == b.1)) ≡ true = ground arith in
          rw own (
            in_new empty
              (subst (λ k. PageBlockGiven z me k small n (some (b, n'))) (one_page size) g))

      go :
          (r : Option ((Ptr × ℕ) × Node))
          → PageBlockGiven z me info.page_block_size small n r
          → Outcome z me n size (
              (r >>= λ made. some (ready made.0 made.1)) >>= λ m.
              take_from z me (active m me info.sc_id) info m)
      go none (no_memory e full) = no_pages (ground arith) e (
          rw is_small (
            subst
              (λ k.
                (p : Ptr)
                → has p (n.heaps me).owned_superpage_blocks ≡ true
                → IsTooFull k (n.superpage_blocks p))
              (one_page size) full))
      go none (too_large large) = absurd (omega (arith, one_page size, c.sized.header_fits))
      go (some (b, n')) g =
          let k' = PageBlockGiven-IsNode z me _ small n b n' k g in
          let k'' : IsNode (configured b n') =
            IsNode-fewer n' (configured b n') k' refl (λ j p h. h) in
          let list : active (ready b n') me info.sc_id
              ≡ b ∷ active (configured b n') me info.sc_id =
            active-set_active (configured b n') me info.sc_id _ in
          subst (λ l. Outcome z me n size (take_from z me l info (ready b n'))) (sym list)
            (take_from-Outcome size b (active (configured b n') me info.sc_id) info (ready b n') le
              (placed b n' g)
              (set_active-IsNode z me info.sc_id (b ∷ active (configured b n') me info.sc_id)
                (configured b n') k''))

  pub small-Outcome :
      (size : ℕ)
      → ltb size small_medium ≡ true
      → size ≤ page_size
      → Outcome z me n size (allocate_small_block z me size n)
  unfolding allocate_small_block
  small-Outcome size is_small le = go (active n me (class_info size).sc_id) refl
    where
      go :
          (l : List (Ptr × ℕ))
          → active n me (class_info size).sc_id ≡ l
          → Outcome z me n size (
              elim l [ [] ↦ add_page_block z me (class_info size) n | _ ∷ _ ↦ some n ] >>= λ ready.
              take_from z me (active ready me (class_info size).sc_id) (class_info size) ready)
      go [] e = new_block-Outcome size is_small e (class_covers z me size c le)
      go (b ∷ rest) e =
          subst (λ l. Outcome z me n size (take_from z me l (class_info size) n)) (sym e)
            (take_from-Outcome size b rest (class_info size) n (class_covers z me size c le)
              (λ m. in_active e) k)
