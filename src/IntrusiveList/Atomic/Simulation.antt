-- ===== src/IntrusiveList/Atomic/Simulation.antt =====
-- `AtomicForwardList` of src/intrusive_list.h as one sequence that all threads share.
use givy.Base.{
  ℕ, ◌≡◌, refl, sym, ◌∙◌, arith, Bool, true, false, not, ◌&&◌, List, [], ◌∷◌, ◌++◌, ◌==◌,
  Bool-cases, inl, inr,
}
use givy.IntrusiveList.Stack.{Next}
use givy.IntrusiveList.Stack.Laws.{Chain}
use givy.IntrusiveList.Atomic.{
  Thread, outside, push_load, push_store, push_exchange, pushed, take_load, take_exchange, taken,
  access, Machine, step,
}
use givy.IntrusiveList.Atomic.Inv.{View, Holds, IsValid}
use givy.IntrusiveList.Atomic.Moves.{moved, self, quiet, store, put_in, take_out, exchanged, took}

abbrev pub is_empty : List ℕ → Bool
is_empty [] = true
is_empty (x ∷ xs) = false

-- What the access of thread `i` does to the sequence: a successful exchange puts the thread's
-- elements in front and says whether the sequence was empty, or takes all of it; nothing else
-- changes it.
abbrev pub Effect : View → View → ℕ → Thread → Thread → Type 0
Effect v v' i (push_exchange h t expected) (pushed was_empty) =
    (v'.contents ≡ v.held i ++ v.contents) × (was_empty ≡ is_empty v.contents)
Effect v v' i (take_exchange previous) (taken p) = (v'.contents ≡ []) × (v'.held i ≡ v.contents)
Effect v v' i _ _ = v'.contents ≡ v.contents

pub record Simulated (m' : Machine) (v : View) (i : ℕ) (before : Thread) : Type 0 where
  pub view : View
  pub valid : IsValid m' view
  pub effect : Effect v view i before (m'.threads i)

was_empty : (next : Next) (p : ℕ) (xs : List ℕ) → Chain next p xs → (p == 0) ≡ is_empty xs
was_empty next p [] c = ground arith
was_empty next p (x ∷ xs) c = let e = c.0 in let r = c.1 in ground arith

access-Simulated :
    (m : Machine) (i : ℕ) (th : Thread) (spurious : Bool) (v : View)
    → IsValid m v
    → Holds m.shared.next (v.held i) th
    → Simulated (moved m i (access m.shared th spurious)) v i th
unfolding access
access-Simulated m i outside spurious v k h = record {
  view = v;
  valid = quiet m i outside v k h;
  effect = refl;
}
access-Simulated m i (push_load p t) spurious v k h = record {
  view = v;
  valid = quiet m i (push_store p t m.shared.head) v k h;
  effect = refl;
}
access-Simulated m i (push_store p t expected) spurious v k h = record {
  view = v;
  valid = store m i p t expected v k h;
  effect = refl;
}
access-Simulated m i (push_exchange p t expected) spurious v k h =
    elim (Bool-cases ((m.shared.head == expected) && not spurious)) [
      | inl e ↦
          let found : m.shared.head ≡ expected = ground arith in
          rw e (
            rw (← found) (record {
              view = put_in v i;
              valid = exchanged m i p t v k h.0 (h.1 ∙ sym found);
              effect = rw (self i) (refl, was_empty m.shared.next m.shared.head v.contents k.chain);
            }))
      | inr e ↦ rw e (record {
        view = v;
        valid = quiet m i (push_store p t m.shared.head) v k h.0;
        effect = rw (self i) refl;
      })
    ]
access-Simulated m i (pushed b) spurious v k h = record {
  view = v;
  valid = quiet m i (pushed b) v k h;
  effect = refl;
}
access-Simulated m i take_load spurious v k h = record {
  view = v;
  valid = quiet m i (take_exchange m.shared.head) v k refl;
  effect = refl;
}
access-Simulated m i (take_exchange previous) spurious v k h =
    elim (Bool-cases ((m.shared.head == previous) && not spurious)) [
      | inl e ↦
          let found : m.shared.head ≡ previous = ground arith in
          rw e (
            rw (← found) (record {
              view = take_out v i;
              valid = took m i v k;
              effect = rw (self i) (refl, rw (self i) refl);
            }))
      | inr e ↦ rw e (record {
        view = v;
        valid = quiet m i (take_exchange m.shared.head) v k refl;
        effect = rw (self i) refl;
      })
    ]
access-Simulated m i (taken p) spurious v k h = record {
  view = v;
  valid = quiet m i (taken p) v k h;
  effect = refl;
}

-- Any access by any thread keeps the links and the owners in order, and acts on one shared
-- sequence: an exchange that succeeds puts the thread's elements in front and reports whether the
-- sequence was empty before, or takes the whole sequence; no other access changes it.
pub step-Simulated :
    (m : Machine) (i : ℕ) (spurious : Bool) (v : View)
    → IsValid m v
    → Simulated (step m i spurious) v i (m.threads i)
unfolding step
step-Simulated m i spurious v k = access-Simulated m i (m.threads i) spurious v k (k.holds i)
