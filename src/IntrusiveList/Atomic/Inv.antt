-- ===== src/IntrusiveList/Atomic/Inv.antt =====
-- Who owns which element of an `AtomicForwardList` of src/intrusive_list.h, and what that gives.
use givy.Base.{
  ℕ, ◌≡◌, ◌≢◌, sym, ap, ◌∙◌, arith, Bool, true, false, Option, none, some, List, [], ◌∷◌, ◌++◌,
}
use mathlib.Core.Bool.{true≢false}
use givy.IntrusiveList.Ring.Links.{has}
use givy.IntrusiveList.Stack.{Next}
use givy.IntrusiveList.Stack.Laws.{Chain}
use givy.IntrusiveList.Atomic.{
  Thread, outside, push_load, push_store, push_exchange, pushed, take_load, take_exchange, taken,
  Machine,
}

-- As below, with `x` as the first of the elements.
abbrev pub SegmentFrom : Next → ℕ → ℕ → List ℕ → ℕ → Type 0
SegmentFrom next h x [] t = (h ≡ x) × (x ≢ 0) × (x ≡ t)
SegmentFrom next h x (y ∷ ys) t = (h ≡ x) × (x ≢ 0) × (x ≢ t) × SegmentFrom next (next x) y ys t

-- From `h` over the elements to the last one, `t`, whose link is not of the segment.
abbrev pub Segment : Next → ℕ → List ℕ → ℕ → Type 0
Segment next h [] t = ◌≡◌ {A = Bool} true false
Segment next h (x ∷ xs) t = SegmentFrom next h x xs t

abbrev pub Owned : (ℕ → Option ℕ) → Option ℕ → List ℕ → Type 0
Owned owner o xs = (a : ℕ) → has a xs ≡ true → owner a ≡ o

-- The sequence that the list stands for, the elements that each thread holds, and the owner of
-- each: a thread, or `none` for the list.
pub record View : Type 0 where
  pub contents : List ℕ
  pub held : ℕ → List ℕ
  pub owner : ℕ → Option ℕ

-- What a thread relies on.
abbrev pub Holds : Next → List ℕ → Thread → Type 0
Holds next xs outside = ◌≡◌ {A = Bool} true true
Holds next xs (push_load h t) = Segment next h xs t
Holds next xs (push_store h t expected) = Segment next h xs t
Holds next xs (push_exchange h t expected) = Segment next h xs t × (next t ≡ expected)
Holds next xs (pushed was_empty) = ◌≡◌ {A = Bool} true true
Holds next xs take_load = ◌≡◌ {A = Bool} true true
Holds next xs (take_exchange previous) = ◌≡◌ {A = Bool} true true
Holds next xs (taken p) = Chain next p xs

pub record IsValid (m : Machine) (v : View) : Type 0 where
  pub chain : Chain m.shared.next m.shared.head v.contents
  pub list_owned : Owned v.owner none v.contents
  pub thread_owned : (i : ℕ) → Owned v.owner (some i) (v.held i)
  pub holds : (i : ℕ) → Holds m.shared.next (v.held i) (m.threads i)

pub Segment-frame :
    (next g : Next) (h : ℕ) (xs : List ℕ) (t : ℕ)
    → ((a : ℕ) → has a xs ≡ true → a ≢ t → g a ≡ next a)
    → Segment next h xs t
    → Segment g h xs t
Segment-frame next g h [] t same s = s
Segment-frame next g h (x ∷ xs) t same s = from h x xs same s
  where
    from :
        (h x : ℕ) (xs : List ℕ)
        → ((a : ℕ) → has a (x ∷ xs) ≡ true → a ≢ t → g a ≡ next a)
        → SegmentFrom next h x xs t
        → SegmentFrom g h x xs t
    from h x [] same s = s
    from h x (y ∷ ys) same s = (
      s.0,
      s.1,
      s.2,
      rw (same x (ground arith) s.2) (from (next x) y ys (λ a i. same a (ground arith)) s.3),
    )

-- The last element of a segment is of it.
pub has-Segment :
    (next : Next) (h : ℕ) (xs : List ℕ) (t : ℕ) → Segment next h xs t → has t xs ≡ true
has-Segment next h [] t s = absurd (true≢false s)
has-Segment next h (x ∷ xs) t s = from h x xs s
  where
    from : (h x : ℕ) (xs : List ℕ) → SegmentFrom next h x xs t → has t (x ∷ xs) ≡ true
    from h x [] s = let e = s.2 in ground arith
    from h x (y ∷ ys) s = let r = from (next x) y ys s.3 in ground arith

-- A segment linked to a chain is a chain.
pub Segment-Chain :
    (next : Next) (h : ℕ) (xs : List ℕ) (t p : ℕ) (ys : List ℕ)
    → Segment next h xs t
    → next t ≡ p
    → Chain next p ys
    → Chain next h (xs ++ ys)
Segment-Chain next h [] t p ys s e c = absurd (true≢false s)
Segment-Chain next h (x ∷ xs) t p ys s e c = from h x xs s
  where
    from : (h x : ℕ) (xs : List ℕ) → SegmentFrom next h x xs t → Chain next h ((x ∷ xs) ++ ys)
    from h x [] s = (s.0, s.1, rw (s.2, e) c)
    from h x (z ∷ zs) s = (s.0, s.1, from (next x) z zs s.3)

-- An element has one owner.
pub not_both :
    (owner : ℕ → Option ℕ) (o o' : Option ℕ) (xs ys : List ℕ) (a b : ℕ)
    → Owned owner o xs
    → Owned owner o' ys
    → o ≢ o'
    → has a xs ≡ true
    → has b ys ≡ true
    → a ≢ b
not_both owner o o' xs ys a b p q ne i j e = ne (sym (p a i) ∙ ap owner e ∙ q b j)
