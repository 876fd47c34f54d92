-- ===== src/IntrusiveList/Shared/Steps.antt =====
-- Any interleaving of the threads of `List::Atomic` in src/intrusive_list.h.
use mathlib.Core.Path.{subst}
use givy.Base.{
  ℕ, ◌≡◌, sym, ap, ◌∙◌, arith, Bool, true, false, List, ◌==◌, if◌then◌else◌, Bool-cases, inl, inr,
  ==→eq,
}
use givy.IntrusiveList.Ring.Refine.{IsRing}
use givy.IntrusiveList.Shared.{Operation, locking, Machine, State, access, step}
use givy.IntrusiveList.Shared.Order.{
  is_inside, effect, Allowed, Progress, After, holds, frees, access-After, access_waiting,
  access_inside-After,
}

module _ (root : ℕ) where
  -- The list stands for the sequence `xs`: nobody has the lock and the links are in order, or one
  -- thread has it, and the others are before or behind their operations.
  pub data IsShared (m : Machine) (xs : List ℕ) : Type 0 where
    free :
        m.locked ≡ false
        → ((j : ℕ) → is_inside (m.threads j) ≡ false)
        → IsRing m.heap root xs
        → IsShared m xs
    held :
        (k : ℕ)
        → m.locked ≡ true
        → is_inside (m.threads k) ≡ true
        → ((j : ℕ) → (j == k) ≡ false → is_inside (m.threads j) ≡ false)
        → Progress root (m.threads k) m.heap xs
        → IsShared m xs

  -- The machine after an access of thread `i`.
  abbrev put : Machine → ℕ → State → Machine
  put m i r = record {
    heap = r.heap;
    locked = r.locked;
    threads = λ j. if j == i then r.thread else m.threads j;
  }

  put-IsShared :
      (m : Machine) (i : ℕ) (r : State) (xs : List ℕ)
      → ((j : ℕ) → (j == i) ≡ false → is_inside (m.threads j) ≡ false)
      → After root xs r
      → IsShared (put m i r) xs
  put-IsShared m i r xs others (holds locked inside progress) =
      let own : (i == i) ≡ true = ground arith in
      held i locked (rw own inside) (λ j ne. rw ne (others j ne)) (rw own progress)
  put-IsShared m i r xs others (frees unlocked out ring) =
      free unlocked
        (λ j. elim (Bool-cases (j == i)) [ inl e ↦ rw e out | inr ne ↦ rw ne (others j ne) ]) ring

  -- Any access by any thread keeps the list in order and acts on one sequence of elements: the last
  -- access of a link in an operation has the effect of the whole operation on the sequence, all other
  -- accesses have none, and `apply_all` has seen exactly the sequence when it ends. A thread that is
  -- about to take the lock has an element that is alone and not in the list, to push it, or one of
  -- the list, to remove it.
  pub step-IsShared :
      (m : Machine) (i : ℕ) (op : Operation) (spurious : Bool) (xs : List ℕ)
      → IsShared m xs
      → (m.locked ≡ false
          → (mine : Operation) → m.threads i ≡ locking mine
          → Allowed root mine m.heap xs)
      → IsShared (step root m i op spurious) (effect (m.threads i) xs)
  unfolding step
  step-IsShared m i op spurious xs (free unlocked out ring) allowed =
      put-IsShared m i (access root m.heap m.locked op spurious (m.threads i))
        (effect (m.threads i) xs) (λ j ne. out j)
        (subst
          (λ b.
            After root (effect (m.threads i) xs) (access root m.heap b op spurious (m.threads i)))
          (sym unlocked)
          (subst (λ l. After root l (access root m.heap false op spurious (m.threads i)))
            (sym ((access_waiting root m.heap op spurious (m.threads i) (out i)).3 xs))
            (access-After root m.heap op spurious (m.threads i) xs (out i) ring
              (allowed unlocked))))
  step-IsShared m i op spurious xs (held k locked inside others progress) allowed =
      elim (Bool-cases (i == k)) [
        | inl mine ↦
            let at : k ≡ i = sym (==→eq _ _ mine) in
            put-IsShared m i (access root m.heap m.locked op spurious (m.threads i))
              (effect (m.threads i) xs)
              (λ j ne. others j (subst (λ a. (j == a) ≡ false) (sym at) ne))
              (subst
                (λ b.
                  After root (effect (m.threads i) xs)
                    (access root m.heap b op spurious (m.threads i)))
                (sym locked)
                (access_inside-After root m.heap op spurious (m.threads i) xs
                  (subst (λ a. is_inside (m.threads a) ≡ true) at inside)
                  (subst (λ a. Progress root (m.threads a) m.heap xs) at progress)))
        | inr other ↦
            let w = access_waiting root m.heap op spurious (m.threads i) (others i other) in
            let r = access root m.heap m.locked op spurious (m.threads i) in
            let e : r ≡ access root m.heap true op spurious (m.threads i) =
              ap (λ b. access root m.heap b op spurious (m.threads i)) locked in
            let k_apart : (k == i) ≡ false = ground arith in
            subst (λ l. IsShared (put m i r) l) (sym (w.3 xs))
              (held k (ap (λ (s : State). s.locked) e ∙ w.1) (rw k_apart inside)
                (λ j ne. elim (Bool-cases (j == i)) [
                  | inl own ↦ rw own (ap (λ (s : State). is_inside s.thread) e ∙ w.2)
                  | inr away ↦ rw away (others j ne)
                ])
                (rw k_apart (
                  subst (λ h. Progress root (m.threads k) h xs)
                    (sym (ap (λ (s : State). s.heap) e ∙ w.0)) progress)))
      ]
