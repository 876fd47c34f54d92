-- ===== src/Coherence/Requests.antt =====
-- `request_region_valid` of src/coherence.h: what it leaves as it is, and how long it waits.
use givy.Base.{
  ℕ, ◌+◌, ◌≤◌, ◌<◌, ◌≡◌, refl, ap, arith, Bool, true, false, Option, none, some, List, [], ◌∷◌,
  ◌==◌, if◌then◌else◌, Bool-cases, inl, inr, ==→eq,
}
use givy.Pointer.{Ptr}
use givy.Space.{in_local_interval, node_of_allocation}
use givy.Coherence.{
  data_request, Message, RegionMetadata, invalid_region, System, destructor_send, destructor_finish,
  pick, on_received, event_loop_turn, with_waiter, send_data_request, add_waiter, request_with,
  request_region_valid, still_waits,
}
use givy.Coherence.Counts.{finishes, finishes-append}
use givy.Coherence.Termination.{
  IsCounted, changed, changed-IsCounted, told-changed, event_loop_turn-IsCounted,
  destructor_finish-IsCounted, destructor_send-IsCounted,
}

-- A step of the system of `nb` nodes: any thread that is inside the code, or calls it. A step that
-- takes the mutex of a node needs one whose behaviour is defined.
pub data Step (nb : ℕ) (s : System) : System → Type 0 where
  turn : (i k : ℕ) → i < nb → Step nb s (event_loop_turn i k s)
  send : (i : ℕ) → i < nb → (s.managers i).sent < nb → Step nb s (destructor_send i s)
  finish :
      (i : ℕ)
      → i < nb
      → (s.managers i).sent ≡ nb
      → (s.managers i).finished ≡ false
      → (s.managers i).undefined ≡ false
      → Step nb s (destructor_finish i s)
  request :
      (i : ℕ) (ptr : Ptr) (waiter : ℕ)
      → i < nb
      → (s.managers i).undefined ≡ false
      → Step nb s (request_region_valid i ptr waiter s).1

pub data Run (nb : ℕ) (s : System) : System → Type 0 where
  start : Run nb s s
  next : {s' s'' : System} → Run nb s s' → Step nb s' s'' → Run nb s s''

same_counts :
    (nb : ℕ) (s : System) (w : ℕ → ℕ) → IsCounted nb s → IsCounted nb (record s { waiting_for = w })
same_counts nb s w c = record {
  representable = c.representable;
  balance = λ i lt. c.balance i lt;
  bounded = λ i lt. c.bounded i lt;
  ended = λ i lt. c.ended i lt;
}

with_waiter-IsCounted :
    (nb i : ℕ) (ptr : Ptr) (waiter : ℕ) (region : RegionMetadata) (s : System)
    → IsCounted nb s
    → i < nb
    → IsCounted nb (with_waiter i ptr waiter region s)
with_waiter-IsCounted nb i ptr waiter region s c lt =
    let listed = record region { waiters = waiter ∷ region.waiters } in
    let m = record (s.managers i) {
      regions = λ (p : Ptr). if p == ptr then some listed else (s.managers i).regions p;
    } in
    same_counts nb (changed s i m s.inbox) (with_waiter i ptr waiter region s).waiting_for (
      changed-IsCounted nb i s m s.inbox c lt
        (omega (arith, told-changed nb i s m s.inbox i refl, c.balance i lt))
        (λ j jn ne. omega (arith, told-changed nb i s m s.inbox j refl)) (c.bounded i lt)
        (c.ended i lt))

send_data_request-IsCounted :
    (nb i : ℕ) (ptr : Ptr) (s : System) → IsCounted nb s → IsCounted nb (send_data_request i ptr s)
send_data_request-IsCounted nb i ptr s c = record {
  representable = c.representable;
  balance = λ j jn. elim (Bool-cases (j == target)) [
    | inl e ↦
        let app = finishes-append (s.inbox target) (msg ∷ []) in
        let o = ap (λ k. finishes (s.inbox k)) (==→eq j target e) in
        rw e (omega (arith, app, o, c.balance j jn))
    | inr e ↦ rw e (c.balance j jn)
  ];
  bounded = λ j jn. c.bounded j jn;
  ended = λ j jn. c.ended j jn;
}
  where
    target : ℕ
    target = node_of_allocation (s.managers i).space ptr

    msg : Message
    msg = record { type = data_request; ptr = ptr; from = i }

add_waiter-IsCounted :
    (nb i : ℕ) (ptr : Ptr) (waiter : ℕ) (region : RegionMetadata) (s : System)
    → IsCounted nb s
    → i < nb
    → IsCounted nb (add_waiter i ptr waiter region s)
unfolding add_waiter
add_waiter-IsCounted nb i ptr waiter region s c lt = go region.waiters
  where
    go :
        (l : List ℕ)
        → IsCounted nb (elim l [
          | [] ↦ send_data_request i ptr (with_waiter i ptr waiter region s)
          | _ ∷ _ ↦ with_waiter i ptr waiter region s
        ])
    go [] =
        send_data_request-IsCounted nb i ptr (with_waiter i ptr waiter region s)
          (with_waiter-IsCounted nb i ptr waiter region s c lt)
    go (w ∷ l) = with_waiter-IsCounted nb i ptr waiter region s c lt

abbrev pub answer : Bool → System → System → System
answer b waits s = let r : Bool × System = if b then (true, s) else (false, waits) in r.1

request_with-IsCounted :
    (nb : ℕ) (r : Option RegionMetadata) (i : ℕ) (ptr : Ptr) (waiter : ℕ) (s : System)
    → IsCounted nb s
    → i < nb
    → IsCounted nb (request_with r i ptr waiter s).1
unfolding request_with
request_with-IsCounted nb none i ptr waiter s c lt =
    elim (Bool-cases (in_local_interval (s.managers i).space ptr)) [
      | inl e ↦ rw e c
      | inr e ↦
          rw e
            (add_waiter-IsCounted nb i ptr waiter (invalid_region (s.managers i).space ptr) s c lt)
    ]
request_with-IsCounted nb (some region) i ptr waiter s c lt =
    elim region.valid as (λ b. IsCounted nb (answer b (add_waiter i ptr waiter region s) s)) [
      | true ↦ c
      | false ↦ add_waiter-IsCounted nb i ptr waiter region s c lt
    ]

Step-IsCounted : (nb : ℕ) (s s' : System) → Step nb s s' → IsCounted nb s → IsCounted nb s'
unfolding request_region_valid
Step-IsCounted nb s s' (turn i k lt) c = event_loop_turn-IsCounted nb i k s c lt
Step-IsCounted nb s s' (send i lt more) c = destructor_send-IsCounted nb i s c lt more
Step-IsCounted nb s s' (finish i lt all fresh free) c =
    destructor_finish-IsCounted nb i s c lt fresh
Step-IsCounted nb s s' (request i ptr waiter lt free) c =
    request_with-IsCounted nb ((s.managers i).regions ptr) i ptr waiter s c lt

-- Every step of every thread keeps the counters of all nodes in balance with the ends that they
-- have been told of and the messages under way.
pub run-IsCounted : (nb : ℕ) (s s' : System) → Run nb s s' → IsCounted nb s → IsCounted nb s'
run-IsCounted nb s s' start c = c
run-IsCounted nb s s' (next {s' = mid} r step) c =
    Step-IsCounted nb mid s' step (run-IsCounted nb s mid r c)

-- The count of a waiter goes up only.
on_received-waiting_for :
    (i : ℕ) (r : Option Message × List Message) (s : System) (w : ℕ)
    → (on_received i r s).waiting_for w ≡ s.waiting_for w
on_received-waiting_for i (none, rest) s w = refl
on_received-waiting_for i (some msg, rest) s w = refl

add_waiter-waiting_for :
    (i : ℕ) (ptr : Ptr) (waiter : ℕ) (region : RegionMetadata) (s : System) (w : ℕ)
    → (add_waiter i ptr waiter region s).waiting_for w
      ≡ (if w == waiter then s.waiting_for w + 1 else s.waiting_for w)
unfolding add_waiter
add_waiter-waiting_for i ptr waiter region s w = go region.waiters
  where
    go :
        (l : List ℕ)
        → (elim l as (λ l. System) [
          | [] ↦ send_data_request i ptr (with_waiter i ptr waiter region s)
          | _ ∷ _ ↦ with_waiter i ptr waiter region s
        ]).waiting_for
            w
          ≡ (if w == waiter then s.waiting_for w + 1 else s.waiting_for w)
    go [] = refl
    go (x ∷ l) = refl

request_with-waiting_for :
    (r : Option RegionMetadata) (i : ℕ) (ptr : Ptr) (waiter : ℕ) (s : System) (w : ℕ)
    → s.waiting_for w ≤ (request_with r i ptr waiter s).1.waiting_for w
unfolding request_with
request_with-waiting_for none i ptr waiter s w =
    let a = add_waiter-waiting_for i ptr waiter (invalid_region (s.managers i).space ptr) s w in
    ground arith
request_with-waiting_for (some region) i ptr waiter s w =
    let a = add_waiter-waiting_for i ptr waiter region s w in ground arith

Step-waiting_for :
    (nb : ℕ) (s s' : System) (w : ℕ) → Step nb s s' → s.waiting_for w ≤ s'.waiting_for w
unfolding event_loop_turn destructor_send destructor_finish request_region_valid
Step-waiting_for nb s s' w (turn i k lt) =
    let r = on_received-waiting_for i (pick k (s.inbox i)) s w in ground arith
Step-waiting_for nb s s' w (send i lt more) = ground arith
Step-waiting_for nb s s' w (finish i lt all fresh free) = omega arith
Step-waiting_for nb s s' w (request i ptr waiter lt free) =
    request_with-waiting_for ((s.managers i).regions ptr) i ptr waiter s w

run-waiting_for :
    (nb : ℕ) (s s' : System) (w : ℕ) → Run nb s s' → s.waiting_for w ≤ s'.waiting_for w
run-waiting_for nb s s' w start = omega arith
run-waiting_for nb s s' w (next {s' = mid} r step) =
    omega (arith, run-waiting_for nb s mid w r, Step-waiting_for nb mid s' w step)

request_with-counts :
    (r : Option RegionMetadata) (i : ℕ) (ptr : Ptr) (waiter : ℕ) (s : System)
    → (request_with r i ptr waiter s).0 ≡ false
    → 0 < (request_with r i ptr waiter s).1.waiting_for waiter
unfolding request_with
request_with-counts none i ptr waiter s e =
    let a =
      add_waiter-waiting_for i ptr waiter (invalid_region (s.managers i).space ptr) s waiter in
    ground arith
request_with-counts (some region) i ptr waiter s e =
    let a = add_waiter-waiting_for i ptr waiter region s waiter in ground arith

-- A thread that asks for a region that is not valid at once waits for ever: whatever all threads of
-- all nodes do after the request, the loop of its waiter goes on.
pub request_region_valid-still_waits :
    (nb i : ℕ) (ptr : Ptr) (waiter : ℕ) (s s' : System)
    → (request_region_valid i ptr waiter s).0 ≡ false
    → Run nb (request_region_valid i ptr waiter s).1 s'
    → still_waits waiter s' ≡ true
unfolding request_region_valid
request_region_valid-still_waits nb i ptr waiter s s' asked r =
    let more = request_with-counts ((s.managers i).regions ptr) i ptr waiter s asked in
    let later = run-waiting_for nb _ s' waiter r in ground arith
