-- ===== src/LocalHeap/Freed.antt =====
-- `deallocate` of src/allocator.h, and the queue of remote deallocations: both return, and the
-- superpage blocks that the heaps own stay in order.
use mathlib.Core.Path.{subst}
use givy.Base.{
  ℕ, ◌/◌, ◌<◌, ◌≡◌, refl, sym, ap, ◌∙◌, Bool, true, false, Option, none, some, List, [], ◌∷◌, ◌++◌,
  ◌>>=◌, ◌==◌, if◌then◌else◌, Bool-cases, inl, inr, ==→eq,
}
use givy.IntrusiveList.Ring.Links.{has}
use givy.Pointer.{Ptr, sub}
use givy.Space.{superpage_page_nb, page_size, superpage_sequence_start}
use givy.SuperpageBlock.{SuperpageBlock, header, in_huge_alloc, adopt}
use givy.SuperpageBlock.WellFormed.{IsGood, IsLaidOut}
use givy.SuperpageBlock.WellFormed.Run.{is_small_or_medium}
use givy.LocalHeap.{Sizes, Node, set_block, set_remote, set_owned, active, set_active}
use givy.LocalHeap.Small.{thread_local_deallocate, deallocate_all, process_thread_remote_frees}
use givy.LocalHeap.Interface.{small_page_blocks, add_active, adopted, deallocate_for, deallocate}
use givy.LocalHeap.Search.{same_key}
use givy.LocalHeap.Invariant.{owned, IsNode, IsNode-change, IsNode-fewer, has-snoc}
use givy.LocalHeap.Kept.{owned-set_heap, set_active-IsNode, IsKept, thread_local_deallocate-IsKept}

-- The superpage block at `spb` is in order, and the address is in its huge allocation or in a page
-- block that is in use.
abbrev pub Freeable : Sizes → Ptr → Ptr → SuperpageBlock → Type 0
Freeable z ptr spb s =
    IsGood s
    × (in_huge_alloc s spb ptr ≡ true → IsLaidOut z.header_space_pages s × (1 < s.superpage_nb))
    × (in_huge_alloc s spb ptr ≡ false
        → (sub ptr spb / page_size < superpage_page_nb)
          × (is_small_or_medium (header s.pbh_table (sub ptr spb / page_size)).type ≡ true))

-- The owner is no part of it.
Freeable-owner :
    (z : Sizes) (ptr spb : Ptr) (s : SuperpageBlock) (o : Option ℕ)
    → Freeable z ptr spb s
    → Freeable z ptr spb (record s { owner = o })
Freeable-owner z ptr spb s o f = (
  f.0,
  λ e.
      let l = (f.1 e).0 in
      (
        record { good = l.good; room = l.room; headers = l.headers; huge_pages = l.huge_pages },
        (f.1 e).1,
      ),
  f.2,
)

module _ (z : Sizes) (me : ℕ) where
  -- Each address of a queue is freeable when its turn comes.
  abbrev pub AllFreeable : List (Ptr × Ptr) → Node → Type 0
  AllFreeable [] n = ◌≡◌ {A = Bool} true true
  AllFreeable (b ∷ rest) n =
      Freeable z b.0 b.1 (n.superpage_blocks b.1)
      × ((freed : Node)
          → thread_local_deallocate z me b.0 b.1 n ≡ some freed
          → AllFreeable rest freed)

  deallocate_all-IsKept :
      (l : List (Ptr × Ptr)) (n : Node)
      → IsNode n
      → AllFreeable l n
      → IsKept z me (deallocate_all z me l n)
  unfolding deallocate_all
  deallocate_all-IsKept [] n k all = (n, refl, k)
  deallocate_all-IsKept (b ∷ rest) n k all =
      let f = all.0 in
      let one = thread_local_deallocate-IsKept z me b.0 b.1 n k f.0 f.1 f.2 in
      subst (λ r. IsKept z me (r >>= deallocate_all z me rest)) (sym one.1)
        (deallocate_all-IsKept rest one.0 one.2 (all.1 one.0 one.1))

  set_remote-IsNode :
      (k : ℕ) (l : List (Ptr × Ptr)) (n : Node) → IsNode n → IsNode (set_remote n k l)
  set_remote-IsNode k l n node =
      IsNode-fewer n (set_remote n k l) node refl
        (λ j p h. subst (λ o. has p o ≡ true) (same_owned j) h)
    where
      same_owned : (j : ℕ) → owned (set_remote n k l) j ≡ owned n j
      same_owned j = owned-set_heap z k _ n j ∙ elim (Bool-cases (j == k)) [
        | inl e ↦ rw e (ap (owned n) {x = k} (sym (==→eq _ _ e)))
        | inr e ↦ rw e refl
      ]

  -- The remote deallocations of a heap that are freeable when their turn comes are all done, and the
  -- superpage blocks stay in order.
  pub process_thread_remote_frees-IsKept :
      (n : Node)
      → IsNode n
      → AllFreeable (n.heaps me).remote_freed_blocks (set_remote n me [])
      → IsKept z me (process_thread_remote_frees z me n)
  unfolding process_thread_remote_frees
  process_thread_remote_frees-IsKept n k all =
      deallocate_all-IsKept (n.heaps me).remote_freed_blocks (set_remote n me [])
        (set_remote-IsNode me [] n k) all

  add_active-IsNode :
      (spb : Ptr) (l : List ℕ) (n : Node) → IsNode n → IsNode (add_active z me spb l n)
  add_active-IsNode spb [] n k = k
  add_active-IsNode spb (i ∷ rest) n k =
      let sc = (n.small_blocks spb i).sb_sizeclass in
      let l = active n me sc ++ (spb, i) ∷ [] in
      add_active-IsNode spb rest (set_active n me sc l) (set_active-IsNode z me sc l n k)

  superpage_blocks-add_active :
      (spb : Ptr) (l : List ℕ) (n : Node)
      → (add_active z me spb l n).superpage_blocks ≡ n.superpage_blocks
  superpage_blocks-add_active spb [] n = refl
  superpage_blocks-add_active spb (i ∷ rest) n =
      let sc = (n.small_blocks spb i).sb_sizeclass in
      superpage_blocks-add_active spb rest (set_active n me sc (active n me sc ++ (spb, i) ∷ []))

  -- A heap adopts a block that is in order.
  adopted-IsNode :
      (spb : Ptr) (n : Node)
      → IsNode n
      → IsGood (n.superpage_blocks spb)
      → IsNode (adopted z me spb n)
  unfolding adopted
  adopted-IsNode spb n k good =
      let more = set_owned n me (owned n me ++ spb ∷ []) in
      add_active-IsNode spb (small_page_blocks superpage_page_nb n spb 0) more (
        IsNode-change n more spb k good (λ q ne. refl)
          λ j p ne h.
            let o =
              owned-set_heap z me
                (record (n.heaps me) { owned_superpage_blocks = owned n me ++ spb ∷ [] }) n j in
            elim (Bool-cases (j == me)) [
              | inl e ↦
                  let at : me ≡ j = sym (==→eq _ _ e) in
                  subst (λ i. has p (owned n i) ≡ true) at
                    (has-snoc p spb (owned n me) ne (subst (λ l. has p l ≡ true) (o ∙ rw e refl) h))
              | inr e ↦ subst (λ l. has p l ≡ true) (o ∙ rw e refl) h
            ])

  superpage_blocks-adopted :
      (spb : Ptr) (n : Node) → (adopted z me spb n).superpage_blocks ≡ n.superpage_blocks
  unfolding adopted
  superpage_blocks-adopted spb n =
      superpage_blocks-add_active spb (small_page_blocks superpage_page_nb n spb 0)
        (set_owned n me (owned n me ++ spb ∷ []))

  deallocate_for-IsKept :
      (owner : ℕ) (ptr spb : Ptr) (n : Node)
      → IsNode n
      → Freeable z ptr spb (n.superpage_blocks spb)
      → IsKept z me (deallocate_for z me (some owner) ptr spb n)
  unfolding deallocate_for
  deallocate_for-IsKept owner ptr spb n k f = elim (Bool-cases (owner == me)) [
    | inl mine ↦ rw mine (thread_local_deallocate-IsKept z me ptr spb n k f.0 f.1 f.2)
    | inr other ↦ rw other (_, refl, set_remote-IsNode owner _ n k)
  ]

  -- What `deallocate` does with the owner that it has loaded, and the node later.
  abbrev by_owner : Option ℕ → Ptr → Ptr → Node → Option Node
  by_owner owner ptr spb later =
      let r = adopt (later.superpage_blocks spb) me in
      elim owner [
        | some k ↦ deallocate_for z me (some k) ptr spb later
        | none ↦
            if r.0
            then deallocate_for z me (some me) ptr spb (adopted z me spb (set_block later spb r.1))
            else deallocate_for z me none ptr spb later
      ]

  adopt-orphan :
      (s : SuperpageBlock) → s.owner ≡ none → adopt s me ≡ (true, record s { owner = some me })
  adopt-orphan s e =
      subst
        (λ o.
          (elim o as (λ _. Bool × SuperpageBlock) [
            | none ↦ (true, record s { owner = some me })
            | some other ↦ (false, s)
          ])
          ≡ (true, record s { owner = some me }))
        (sym e) refl

  by_owner-IsKept :
      (owner : Option ℕ) (ptr spb : Ptr) (later : Node)
      → (later.superpage_blocks spb).owner ≡ owner
      → IsNode later
      → Freeable z ptr spb (later.superpage_blocks spb)
      → IsKept z me (by_owner owner ptr spb later)
  by_owner-IsKept (some k) ptr spb later own node f = deallocate_for-IsKept k ptr spb later node f
  by_owner-IsKept none ptr spb later own node f =
      let s = record (later.superpage_blocks spb) { owner = some me } in
      let put = set_block later spb s in
      let key : put.superpage_blocks spb ≡ s = rw (same_key spb) refl in
      let node' : IsNode put =
        IsNode-change later put spb node (subst (λ b. IsGood b) (sym key) f.0) (λ q ne. rw ne refl)
          (λ j p ne h. h) in
      subst
        (λ r. IsKept z me (
          if r.0
          then deallocate_for z me (some me) ptr spb (adopted z me spb (set_block later spb r.1))
          else deallocate_for z me none ptr spb later))
        (sym (adopt-orphan (later.superpage_blocks spb) own))
        (deallocate_for-IsKept me ptr spb (adopted z me spb put)
          (adopted-IsNode spb put node' (subst (λ b. IsGood b) (sym key) f.0))
          (subst (λ b. Freeable z ptr spb b)
            (sym (ap (λ b. b spb) (superpage_blocks-adopted spb put) ∙ key))
            (Freeable-owner z ptr spb (later.superpage_blocks spb) (some me) f)))

  -- A heap deallocates an address after its pending remote deallocations are processed. The address
  -- is one of the superpage sequence at `spb`, whose block is freeable and has the owner that the heap
  -- has loaded, and what the other threads do keeps all superpage blocks in order. Then `deallocate`
  -- returns and they are in order, whether the heap owns the block, adopts it, or leaves the address
  -- to the owner.
  pub deallocate-IsKept :
      (others : Node → Node) (ptr spb : Ptr) (n n' : Node)
      → process_thread_remote_frees z me n ≡ some n'
      → superpage_sequence_start n'.space ptr ≡ some spb
      → IsNode (others n')
      → ((others n').superpage_blocks spb).owner ≡ (n'.superpage_blocks spb).owner
      → Freeable z ptr spb ((others n').superpage_blocks spb)
      → IsKept z me (deallocate z me others ptr n)
  unfolding deallocate
  deallocate-IsKept others ptr spb n n' processed start node same f =
      rw (processed, start)
        (by_owner-IsKept (n'.superpage_blocks spb).owner ptr spb (others n') same node f)
