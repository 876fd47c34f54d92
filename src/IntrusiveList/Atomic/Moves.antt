-- ===== src/IntrusiveList/Atomic/Moves.antt =====
-- What each access of a thread to an `AtomicForwardList` of src/intrusive_list.h keeps.
use mathlib.Core.Path.{subst}
use mathlib.Core.Bool.{true≢false}
use givy.Base.{
  ℕ, ◌≡◌, ◌≢◌, refl, sym, ap, ◌∙◌, arith, Bool, true, false, Option, none, some, List, [], ◌++◌,
  ◌==◌, if◌then◌else◌, Bool-cases, inl, inr, ==→eq, ==→ne, ne→==,
}
use givy.IntrusiveList.Ring.{update}
use givy.IntrusiveList.Ring.Links.{has}
use givy.IntrusiveList.Ring.Rotate.{has-append}
use givy.IntrusiveList.Stack.{Next}
use givy.IntrusiveList.Stack.Laws.{Chain, Chain-frame}
use givy.IntrusiveList.Atomic.{
  Thread, outside, push_load, push_store, push_exchange, pushed, take_load, take_exchange, taken,
  Shared, access, Machine, set_thread,
}
use givy.IntrusiveList.Atomic.Inv.{
  Segment, Owned, View, Holds, IsValid, Segment-frame, has-Segment, Segment-Chain, not_both,
}

pub Holds-frame :
    (next g : Next) (xs : List ℕ) (th : Thread)
    → ((a : ℕ) → has a xs ≡ true → g a ≡ next a)
    → Holds next xs th
    → Holds g xs th
Holds-frame next g xs outside same h = refl
Holds-frame next g xs (push_load p t) same h = Segment-frame next g p xs t (λ a i j. same a i) h
Holds-frame next g xs (push_store p t expected) same h =
    Segment-frame next g p xs t (λ a i j. same a i) h
Holds-frame next g xs (push_exchange p t expected) same h = (
  Segment-frame next g p xs t (λ a i j. same a i) h.0,
  same t (has-Segment next p xs t h.0) ∙ h.1,
)
Holds-frame next g xs (pushed was_empty) same h = refl
Holds-frame next g xs take_load same h = refl
Holds-frame next g xs (take_exchange previous) same h = refl
Holds-frame next g xs (taken p) same h = Chain-frame next g p xs same h

abbrev pub moved : Machine → ℕ → Shared × Thread → Machine
moved m i r = record { shared = r.0; threads = set_thread m.threads i r.1 }

pub self : (i : ℕ) → (i == i) ≡ true
self i = ground arith

moved-IsValid :
    (m : Machine) (i : ℕ) (r : Shared × Thread) (v : View)
    → Chain r.0.next r.0.head v.contents
    → Owned v.owner none v.contents
    → ((j : ℕ) → Owned v.owner (some j) (v.held j))
    → Holds r.0.next (v.held i) r.1
    → ((j : ℕ) → j ≢ i → Holds r.0.next (v.held j) (m.threads j))
    → IsValid (moved m i r) v
moved-IsValid m i r v c l t here there = record {
  chain = c;
  list_owned = l;
  thread_owned = t;
  holds = λ j. elim (Bool-cases (j == i)) [
    | inl e ↦
        let q = sym (==→eq j i e) in
        subst (λ k. Holds r.0.next (v.held k) (if k == i then r.1 else m.threads k)) q
          (rw (self i) here)
    | inr e ↦ rw e (there j (==→ne j i e))
  ];
}

-- A thread moves on without a write.
pub quiet :
    (m : Machine) (i : ℕ) (th : Thread) (v : View)
    → IsValid m v
    → Holds m.shared.next (v.held i) th
    → IsValid (moved m i (m.shared, th)) v
quiet m i th v k h =
    moved-IsValid m i (m.shared, th) v k.chain k.list_owned k.thread_owned h (λ j ne. k.holds j)

abbrev is_none : Option ℕ → Bool
is_none none = true
is_none (some k) = false

some_ne : (i j : ℕ) → j ≢ i → ◌≢◌ {A = Option ℕ} (some i) (some j)
some_ne i j ne e = ne (sym (ap (λ o. elim o [ none ↦ i | some k ↦ k ]) e))

pub store :
    (m : Machine) (i h t expected : ℕ) (v : View)
    → IsValid m v
    → Segment m.shared.next h (v.held i) t
    → IsValid (moved m i (access m.shared (push_store h t expected) false)) v
unfolding access
store m i h t expected v k s =
    let g = update m.shared.next t expected in
    let last = has-Segment m.shared.next h (v.held i) t s in
    moved-IsValid m i (access m.shared (push_store h t expected) false) v
      (Chain-frame m.shared.next g m.shared.head v.contents
        (λ a j.
          let ne =
            not_both v.owner none (some i) v.contents (v.held i) a t k.list_owned (k.thread_owned i)
              (λ e. true≢false (ap is_none e)) j last in
          ground arith)
        k.chain)
      k.list_owned k.thread_owned
      (Segment-frame m.shared.next g h (v.held i) t (λ a j ne. ground arith) s, ground arith)
      (λ j ne.
        Holds-frame m.shared.next g (v.held j) (m.threads j)
          (λ a l.
            let apart =
              not_both v.owner (some i) (some j) (v.held i) (v.held j) t a (k.thread_owned i)
                (k.thread_owned j) (some_ne i j ne) last l in
            ground arith)
          (k.holds j))

abbrev set_held : (ℕ → List ℕ) → ℕ → List ℕ → ℕ → List ℕ
set_held f i xs j = if j == i then xs else f j

-- The view after thread `i` has put its elements into the sequence, or has taken it.
abbrev pub put_in : View → ℕ → View
put_in v i = record {
  contents = v.held i ++ v.contents;
  held = set_held v.held i [];
  owner = λ a. if has a (v.held i) then none else v.owner a;
}

abbrev pub take_out : View → ℕ → View
take_out v i = record {
  contents = [];
  held = set_held v.held i v.contents;
  owner = λ a. if has a v.contents then some i else v.owner a;
}

-- The other threads hold what they held, under the new owners.
Owned-other :
    (owner : ℕ → Option ℕ) (o new : Option ℕ) (j : ℕ) (gone xs : List ℕ)
    → Owned owner o gone
    → Owned owner (some j) xs
    → o ≢ some j
    → Owned (λ a. if has a gone then new else owner a) (some j) xs
Owned-other owner o new j gone xs p q ne a l = elim (Bool-cases (has a gone)) [
  | inl e ↦ absurd (not_both owner o (some j) gone xs a a p q ne e l refl)
  | inr e ↦ rw e (q a l)
]

pub exchanged :
    (m : Machine) (i h t : ℕ) (v : View)
    → IsValid m v
    → Segment m.shared.next h (v.held i) t
    → m.shared.next t ≡ m.shared.head
    → IsValid (moved m i (record m.shared { head = h }, pushed (m.shared.head == 0))) (put_in v i)
exchanged m i h t v k s linked =
    moved-IsValid m i (record m.shared { head = h }, pushed (m.shared.head == 0)) (put_in v i)
      (Segment-Chain m.shared.next h (v.held i) t m.shared.head v.contents s linked k.chain)
      (λ a l. elim (Bool-cases (has a (v.held i))) [
        | inl e ↦ rw e refl
        | inr e ↦ let q = has-append a (v.held i) v.contents in rw e (k.list_owned a (ground arith))
      ])
      (λ j. elim (Bool-cases (j == i)) [
        | inl e ↦ rw e (λ a l. absurd (true≢false (sym l)))
        | inr e ↦ rw e (
            Owned-other v.owner (some i) none j (v.held i) (v.held j) (k.thread_owned i)
              (k.thread_owned j) (some_ne i j (==→ne j i e)))
      ])
      refl (λ j ne. let e = ne→== j i ne in rw e (k.holds j))

pub took :
    (m : Machine) (i : ℕ) (v : View)
    → IsValid m v
    → IsValid (moved m i (record m.shared { head = 0 }, taken m.shared.head)) (take_out v i)
took m i v k =
    moved-IsValid m i (record m.shared { head = 0 }, taken m.shared.head) (take_out v i) refl
      (λ a l. absurd (true≢false (sym l)))
      (λ j. elim (Bool-cases (j == i)) [
        | inl e ↦ rw (e, ==→eq j i e) (λ a l. rw l refl)
        | inr e ↦ rw e (
            Owned-other v.owner none (some i) j v.contents (v.held j) k.list_owned
              (k.thread_owned j) (λ q. true≢false (ap is_none q)))
      ])
      (rw (self i) k.chain) (λ j ne. let e = ne→== j i ne in rw e (k.holds j))
