-- ===== src/IntrusiveList/Shared/Order.antt =====
-- The list of src/intrusive_list.h that a lock protects, as one sequence of elements: each operation
-- takes effect at its last access of a link, one after the other.
use mathlib.Core.Path.{subst}
use givy.Base.{
  ℕ, ◌≡◌, refl, sym, ap, ◌∙◌, arith, Bool, true, false, List, [], ◌∷◌, ◌++◌, ◌==◌, if◌then◌else◌,
  Bool-cases, inl, inr, ==→eq,
}
use mathlib.Core.List.{append-nil, append_assoc}
use givy.IntrusiveList.Ring
use givy.IntrusiveList.Ring.{Heap, set_prev, set_next, cross, begin, end, increment}
use givy.SpinLock.{lock_round, unlock}
use givy.IntrusiveList.Ring.Links.{has}
use givy.IntrusiveList.Ring.Refine.{IsRing, Alone, Apart, push_front-IsRing, push_back-IsRing}
use givy.IntrusiveList.Ring.Unlink.{unlink-IsRing}
use givy.IntrusiveList.Ring.Iterate.{Walk, IsRing-Walk}
use givy.IntrusiveList.Shared.{
  Operation, push_front, push_back, remove, apply_all, Thread, outside, locking, load_a, load_b,
  store_a_prev, store_b_next, store_left_next, store_right_prev, leaving, beginning, visiting,
  visited, State, state, left, right, enter, access,
}

abbrev pub is_inside : Thread → Bool
is_inside outside = false
is_inside (locking op) = false
is_inside _ = true

abbrev pub removed : ℕ → List ℕ → List ℕ
removed t [] = []
removed t (x ∷ xs) = if t == x then xs else x ∷ removed t xs

-- What an operation does to the sequence.
abbrev pub apply : Operation → List ℕ → List ℕ
apply (push_front t) xs = t ∷ xs
apply (push_back t) xs = xs ++ t ∷ []
apply (remove t) xs = removed t xs
apply apply_all xs = xs

-- What the thread at its next access does to the sequence.
abbrev pub effect : Thread → List ℕ → List ℕ
effect (store_right_prev op) xs = apply op xs
effect _ xs = xs

abbrev pub calls_cross : Operation → Bool
calls_cross apply_all = false
calls_cross _ = true

removed-split :
    (t : ℕ) (xs : List ℕ)
    → has t xs ≡ true
    → (ys : List ℕ) × (zs : List ℕ) × (xs ≡ ys ++ t ∷ zs) × (removed t xs ≡ ys ++ zs)
removed-split t [] h = cc
removed-split t (x ∷ xs) h = elim (Bool-cases (t == x)) [
  | inl e ↦ ([], xs, ap (λ y. y ∷ xs) (sym (==→eq _ _ e)), rw e refl)
  | inr e ↦
      let r = removed-split t xs (ground arith) in
      (x ∷ r.0, r.1, ap (λ l. x ∷ l) r.2, rw e (ap (λ l. x ∷ l) r.3))
]

module _ (root : ℕ) where
  -- What the caller of an operation has to see to: a new element is alone and not in the list, one
  -- to remove is in it.
  abbrev pub Allowed : Operation → Heap → List ℕ → Type 0
  Allowed (push_front t) h xs = Alone h t × Apart t root xs
  Allowed (push_back t) h xs = Alone h t × Apart t root xs
  Allowed (remove t) h xs = has t xs ≡ true
  Allowed apply_all h xs = ◌≡◌ {A = Bool} true true

  -- The heap when the lock was taken by an operation that calls `cross`.
  abbrev pub Begun : Operation → Heap → List ℕ → Type 0
  Begun op h xs = IsRing h root xs × Allowed op h xs × (calls_cross op ≡ true)

  -- How far the thread that has the lock is.
  abbrev pub Progress : Thread → Heap → List ℕ → Type 0
  Progress outside h xs = ◌≡◌ {A = Bool} true true
  Progress (locking op) h xs = ◌≡◌ {A = Bool} true true
  Progress (load_a op) h xs = Begun op h xs
  Progress (load_b op a) h xs = Begun op h xs × (a ≡ h.next (left root op))
  Progress (store_a_prev op a b) h xs =
      Begun op h xs × (a ≡ h.next (left root op)) × (b ≡ h.prev (right root op))
  Progress (store_b_next op a b) h xs =
      (g : Heap) × Begun op g xs
      × (a ≡ g.next (left root op))
      × (b ≡ g.prev (right root op))
      × (h ≡ set_prev g a b)
  Progress (store_left_next op) h xs =
      (g : Heap) × Begun op g xs
      × (h
          ≡ set_next (set_prev g (g.next (left root op)) (g.prev (right root op)))
              (g.prev (right root op)) (g.next (left root op)))
  Progress (store_right_prev op) h xs =
      (g : Heap) × Begun op g xs
      × (set_prev h (right root op) (left root op) ≡ cross g (left root op) (right root op))
  Progress leaving h xs = IsRing h root xs
  Progress beginning h xs = IsRing h root xs
  Progress (visiting current seen) h xs =
      (rest : List ℕ) × (xs ≡ seen ++ rest) × IsRing h root xs × Walk h root current rest
  Progress (visited seen) h xs = (seen ≡ xs) × IsRing h root xs

  -- The finished call of `cross` is the operation.
  finished :
      (op : Operation) (g : Heap) (xs : List ℕ)
      → Begun op g xs
      → IsRing (cross g (left root op) (right root op)) root (apply op xs)
  unfolding Ring.push_front Ring.push_back Ring.insert_after Ring.insert_before Ring.unlink
      Ring.extract
  finished (push_front t) g xs b = push_front-IsRing g root t xs b.0 b.1.0 b.1.1
  finished (push_back t) g xs b = push_back-IsRing g root t xs b.0 b.1.0 b.1.1
  finished (remove t) g xs b =
      let r = removed-split t xs b.1 in
      subst (λ l. IsRing (cross g t t) root l) (sym r.3)
        (unlink-IsRing g root t r.0 r.1 (subst (λ l. IsRing g root l) r.2 b.0)).0
  finished apply_all g xs b = cc (b.2)

  -- A thread that makes an access holds the lock afterwards, with its progress; or it does not, and
  -- the list is in order.
  pub data After (xs : List ℕ) (r : State) : Type 0 where
    holds : r.locked ≡ true → is_inside r.thread ≡ true → Progress r.thread r.heap xs → After xs r
    frees : r.locked ≡ false → is_inside r.thread ≡ false → IsRing r.heap root xs → After xs r

  enter-After :
      (op : Operation) (h : Heap) (xs : List ℕ)
      → IsRing h root xs
      → Allowed op h xs
      → After xs (state h true (enter root op))
  enter-After (push_front t) h xs r a = holds refl refl (r, a, refl)
  enter-After (push_back t) h xs r a = holds refl refl (r, a, refl)
  enter-After (remove t) h xs r a = holds refl refl (r, a, refl)
  enter-After apply_all h xs r a = holds refl refl r

  -- Without the lock.
  pub access-After :
      (h : Heap) (op : Operation) (spurious : Bool) (t : Thread) (xs : List ℕ)
      → is_inside t ≡ false
      → IsRing h root xs
      → ((mine : Operation) → t ≡ locking mine → Allowed mine h xs)
      → After xs (access root h false op spurious t)
  unfolding access lock_round
  access-After h op spurious outside xs out r allowed = frees refl refl r
  access-After h op true (locking mine) xs out r allowed = frees refl refl r
  access-After h op false (locking mine) xs out r allowed =
      enter-After mine h xs r (allowed mine refl)
  access-After h op spurious (load_a mine) xs out r allowed = cc (out)
  access-After h op spurious (load_b mine a) xs out r allowed = cc (out)
  access-After h op spurious (store_a_prev mine a b) xs out r allowed = cc (out)
  access-After h op spurious (store_b_next mine a b) xs out r allowed = cc (out)
  access-After h op spurious (store_left_next mine) xs out r allowed = cc (out)
  access-After h op spurious (store_right_prev mine) xs out r allowed = cc (out)
  access-After h op spurious leaving xs out r allowed = cc (out)
  access-After h op spurious beginning xs out r allowed = cc (out)
  access-After h op spurious (visiting current seen) xs out r allowed = cc (out)
  access-After h op spurious (visited seen) xs out r allowed = cc (out)

  -- Waiting for the lock that another thread holds changes nothing.
  pub access_waiting :
      (h : Heap) (op : Operation) (spurious : Bool) (t : Thread)
      → is_inside t ≡ false
      → ((access root h true op spurious t).heap ≡ h)
        × ((access root h true op spurious t).locked ≡ true)
        × (is_inside (access root h true op spurious t).thread ≡ false)
        × ((xs : List ℕ) → effect t xs ≡ xs)
  unfolding access lock_round
  access_waiting h op spurious outside out = (refl, refl, refl, λ xs. refl)
  access_waiting h op spurious (locking mine) out = (refl, refl, refl, λ xs. refl)
  access_waiting h op spurious (load_a mine) out = cc (out)
  access_waiting h op spurious (load_b mine a) out = cc (out)
  access_waiting h op spurious (store_a_prev mine a b) out = cc (out)
  access_waiting h op spurious (store_b_next mine a b) out = cc (out)
  access_waiting h op spurious (store_left_next mine) out = cc (out)
  access_waiting h op spurious (store_right_prev mine) out = cc (out)
  access_waiting h op spurious leaving out = cc (out)
  access_waiting h op spurious beginning out = cc (out)
  access_waiting h op spurious (visiting current seen) out = cc (out)
  access_waiting h op spurious (visited seen) out = cc (out)

  -- The next element of the loop of `apply_all`.
  visit-After :
      (h : Heap) (current : ℕ) (seen : List ℕ) (xs rest : List ℕ)
      → xs ≡ seen ++ rest
      → IsRing h root xs
      → Walk h root current rest
      → After xs (
          state h true (
            if current == end root
            then visited seen
            else visiting (increment h current) (seen ++ current ∷ [])))
  visit-After h current seen xs [] e r w =
      let at : (current == root) ≡ true = ground (arith, w) in
      rw at (holds refl refl (sym (append-nil seen) ∙ sym e, r))
  visit-After h current seen xs (x ∷ rest) e r w =
      let not_yet : (current == root) ≡ false = rw (w.0) w.1 in
      let here = w.0 in
      rw not_yet (
        holds refl refl (
          rest,
          e ∙ ap (λ y. seen ++ y ∷ rest) (sym here) ∙ sym (append_assoc seen (current ∷ []) rest),
          r,
          subst (λ y. Walk h root (h.next y) rest) {y = current} (sym here) w.2,
        ))

  -- With the lock.
  pub access_inside-After :
      (h : Heap) (op : Operation) (spurious : Bool) (t : Thread) (xs : List ℕ)
      → is_inside t ≡ true
      → Progress t h xs
      → After (effect t xs) (access root h true op spurious t)
  unfolding access unlock cross
  access_inside-After h op spurious outside xs i p = cc (i)
  access_inside-After h op spurious (locking mine) xs i p = cc (i)
  access_inside-After h op spurious (load_a mine) xs i p = holds refl refl (p, refl)
  access_inside-After h op spurious (load_b mine a) xs i p = holds refl refl (p.0, p.1, refl)
  access_inside-After h op spurious (store_a_prev mine a b) xs i p =
      holds refl refl (h, p.0, p.1, p.2, refl)
  access_inside-After h op spurious (store_b_next mine a b) xs i p =
      let ea = p.2 in
      let eb = p.3 in
      holds refl refl (
        p.0,
        p.1,
        ap (λ x. set_next x b a) p.4
            ∙ ap (λ y. set_next (set_prev p.0 y b) b y) ea
            ∙ ap
                (λ y.
                  set_next (set_prev p.0 ((p.0).next (left root mine)) y) y
                    ((p.0).next (left root mine)))
                eb,
      )
  access_inside-After h op spurious (store_left_next mine) xs i p = holds refl refl (
    p.0,
    p.1,
    ap
        (λ x.
          set_prev (set_next x (left root mine) (right root mine)) (right root mine)
            (left root mine))
        p.2,
  )
  access_inside-After h op spurious (store_right_prev mine) xs i p =
      holds refl refl
        (subst (λ x. IsRing x root (apply mine xs)) (sym p.2) (finished mine p.0 xs p.1))
  access_inside-After h op spurious leaving xs i p = frees refl refl p
  access_inside-After h op spurious beginning xs i p =
      holds refl refl (xs, refl, p, IsRing-Walk h root xs p)
  access_inside-After h op spurious (visiting current seen) xs i p =
      visit-After h current seen xs p.0 p.1 p.2 p.3
  access_inside-After h op spurious (visited seen) xs i p = frees refl refl p.1
