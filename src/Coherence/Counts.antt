-- ===== src/Coherence/Counts.antt =====
-- Counting the nodes that have told a node that they are finished, and its messages about that.
use givy.Base.{
  ℕ, zero, suc, ◌+◌, ◌≤◌, ◌<◌, ◌≡◌, ◌≢◌, refl, sym, arith, Option, none, some, List, [], ◌∷◌, ◌++◌,
  ltb, ◌==◌, if◌then◌else◌, Bool-cases, inl, inr, ==→eq, ==→ne,
}
use givy.Coherence.{MessageType, data_request, node_finished, Message, pick}

-- The nodes below `n`, other than `i`, that have gone past target `i`.
abbrev pub told : (ℕ → ℕ) → ℕ → ℕ → ℕ
told sent i zero = 0
told sent i (suc n) = (if n == i then 0 else if ltb i (sent n) then 1 else 0) + told sent i n

abbrev pub is_finish : MessageType → ℕ
is_finish node_finished = 1
is_finish _ = 0

abbrev pub finishes : List Message → ℕ
finishes [] = 0
finishes (m ∷ l) = is_finish m.type + finishes l

pub finishes-append : (l l' : List Message) → finishes (l ++ l') ≡ finishes l + finishes l'
finishes-append [] l' = omega arith
finishes-append (m ∷ l) l' = omega (arith, finishes-append l l')

abbrev pub finish_of : Option Message → ℕ
finish_of none = 0
finish_of (some m) = is_finish m.type

pub finishes-pick :
    (k : ℕ) (l : List Message) → finish_of (pick k l).0 + finishes (pick k l).1 ≡ finishes l
finishes-pick k [] = refl
finishes-pick zero (m ∷ l) = refl
finishes-pick (suc k) (m ∷ l) = omega (arith, finishes-pick k l)

-- The requests for data among the messages.
abbrev pub is_request : MessageType → ℕ
is_request data_request = 1
is_request _ = 0

abbrev pub requests : List Message → ℕ
requests [] = 0
requests (m ∷ l) = is_request m.type + requests l

pub told_le : (sent : ℕ → ℕ) (i n : ℕ) → told sent i n ≤ n
told_le sent i zero = omega arith
told_le sent i (suc n) = let r = told_le sent i n in ground arith

pub told_lt : (sent : ℕ → ℕ) (i n : ℕ) → i < n → told sent i n < n
told_lt sent i zero lt = absurd (omega arith)
told_lt sent i (suc n) lt = elim (Bool-cases (n == i)) [
  | inl e ↦ let r = told_le sent i n in ground arith
  | inr e ↦ let r = told_lt sent i n (let q = ==→ne n i e in omega arith) in ground arith
]

below_all : (sent : ℕ → ℕ) (i n : ℕ) → told sent i n ≡ n → (j : ℕ) → j < n → i < sent j
below_all sent i zero all j jn = absurd (omega arith)
below_all sent i (suc n) all j jn = elim (Bool-cases (j == n)) [
  | inl q ↦ let r = told_le sent i n in let w = ==→eq j n q in ground arith
  | inr q ↦
      below_all sent i n (let r = told_le sent i n in ground arith) j
        (let p = ==→ne j n q in omega arith)
]

-- All others have told.
pub told_all :
    (sent : ℕ → ℕ) (i n : ℕ)
    → i < n
    → suc (told sent i n) ≡ n
    → (j : ℕ) → j < n
    → j ≢ i
    → i < sent j
told_all sent i zero lt all j jn ne = absurd (omega arith)
told_all sent i (suc n) lt all j jn ne = elim (Bool-cases (n == i)) [
  | inl e ↦
      below_all sent i n (let q = ==→eq n i e in ground arith) j
        (let q = ==→eq n i e in omega arith)
  | inr e ↦ elim (Bool-cases (j == n)) [
    | inl q ↦
        let r = told_lt sent i n (let p = ==→ne n i e in omega arith) in
        let w = ==→eq j n q in ground arith
    | inr q ↦
        told_all sent i n (let p = ==→ne n i e in omega arith)
          (let r = told_lt sent i n (let p = ==→ne n i e in omega arith) in ground arith) j
          (let p = ==→ne j n q in omega arith) ne
  ]
]

pub told_same :
    (sent sent' : ℕ → ℕ) (i n : ℕ)
    → ((j : ℕ) → j < n → sent' j ≡ sent j)
    → told sent' i n ≡ told sent i n
told_same sent sent' i zero same = refl
told_same sent sent' i (suc n) same =
    let r = told_same sent sent' i n (λ j lt. same j (omega arith)) in
    let e = same n (omega arith) in rw (e, r) refl

-- One node goes past one more target.
pub told_step :
    (sent sent' : ℕ → ℕ) (i j n : ℕ)
    → j < n
    → sent' j ≡ sent j + 1
    → ((k : ℕ) → k ≢ j → sent' k ≡ sent k)
    → told sent' i n ≡ told sent i n + (if j == i then 0 else if sent j == i then 1 else 0)
told_step sent sent' i j zero lt here there = absurd (omega arith)
told_step sent sent' i j (suc n) lt here there = elim (Bool-cases (j == n)) [
  | inl e ↦
      let q = ==→eq j n e in
      let r = told_same sent sent' i n (λ k l. there k (λ w. omega (arith, w))) in ground arith
  | inr e ↦
      let r = told_step sent sent' i j n (let q = ==→ne j n e in omega arith) here there in
      let s = there n (λ w. ==→ne j n e (sym w)) in ground arith
]

pub told_none : (i n : ℕ) → told (λ j. 0) i n ≡ 0
told_none i zero = refl
told_none i (suc n) = let r = told_none i n in ground arith

pub told_full :
    (sent : ℕ → ℕ) (i n : ℕ)
    → ((j : ℕ) → j < n → i < sent j)
    → told sent i n + (if ltb i n then 1 else 0) ≡ n
told_full sent i zero all = ground arith
told_full sent i (suc n) all =
    let r = told_full sent i n (λ j lt. all j (omega arith)) in
    let a = all n (omega arith) in ground arith
