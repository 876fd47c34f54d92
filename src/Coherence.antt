-- ===== src/Coherence.antt =====
-- `Coherence::Manager` of src/coherence.h on the nodes of a system, with the messages between them.
-- A step is what one thread does under the lock of its manager, or one message that it sends. The
-- network is a parameter of the run: the inbox of a node holds what was sent to it, and a step that
-- receives says which message the network gives. A waiter is a number.
pub mod Counts
pub mod Termination
pub mod Requests
pub mod Exit
pub mod Loop
mod Tests
use givy.Base.{
  ℕ, zero, suc, ◌+◌, ◌-◌, ◌%◌, ◌^◌, Bool, true, false, ◌||◌, Option, none, some, List, [], ◌∷◌,
  ◌++◌, ltb, ◌==◌, if◌then◌else◌,
}
use givy.Pointer.{Ptr}
use givy.Space.{Space, in_local_interval, node_of_allocation}

pub data MessageType : Type 0 where
  data_request : MessageType
  data_answer : MessageType
  owner_request : MessageType
  owner_transfer : MessageType
  invalidation_request : MessageType
  invalidation_ack : MessageType
  deallocate : MessageType
  node_finished : MessageType

-- The messages that are sent: `DataRequestMsg` and `NodeFinishedMsg`.
pub record Message : Type 0 where
  pub type : MessageType
  pub ptr : Ptr
  pub from : ℕ

-- `valid_set`, which the source only declares, is left out.
pub record RegionMetadata : Type 0 where
  pub blk : Ptr × ℕ
  pub owner : ℕ
  pub valid : Bool
  pub waiters : List ℕ

-- The constructor of `RegionMetadata`. BoundUint<64> has 8 digits.
abbrev pub invalid_region : Space → Ptr → RegionMetadata
invalid_region space ptr = record {
  blk = (ptr, 0);
  owner = node_of_allocation space ptr % 2 ^ 8;
  valid = false;
  waiters = [];
}

-- `sent` counts the targets that the destructor has gone through, `finished` says that it has
-- decremented the counter, `exited` that the event loop has returned, `undefined` that a
-- thread of the node has taken the mutex a second time, behind which nothing is known of the node.
pub record Manager : Type 0 where
  pub space : Space
  pub regions : Ptr → Option RegionMetadata
  pub nb_node_still_running : ℕ
  pub sent : ℕ
  pub finished : Bool
  pub exited : Bool
  pub undefined : Bool

pub record System : Type 0 where
  pub managers : ℕ → Manager
  pub inbox : ℕ → List Message
  pub waiting_for : ℕ → ℕ

abbrev pub set_manager : System → ℕ → Manager → System
set_manager s i m = record s { managers = λ j. if j == i then m else s.managers j }

abbrev pub set_inbox : System → ℕ → List Message → System
set_inbox s i l = record s { inbox = λ j. if j == i then l else s.inbox j }

-- `Network::send_to`.
abbrev pub send_to : System → ℕ → Message → System
send_to s target msg = set_inbox s target (s.inbox target ++ msg ∷ [])

-- `nb_node_still_running--` on size_t.
abbrev pub one_less : Manager → Manager
one_less m = record m { nb_node_still_running = (m.nb_node_still_running + 2 ^ 64 - 1) % 2 ^ 64 }

-- One turn of the loop of the destructor of node `i`.
unfoldable pub destructor_send : ℕ → System → System
destructor_send i s =
    let target = (s.managers i).sent in
    let passed = set_manager s i (record (s.managers i) { sent = target + 1 }) in
    if target == i
    then passed
    else send_to passed target (record { type = node_finished; ptr = 0; from = i })

unfoldable pub destructor_finish : ℕ → System → System
destructor_finish i s = set_manager s i (record (one_less (s.managers i)) { finished = true })

-- The message at `k`, and the others.
abbrev pub pick : ℕ → List Message → Option Message × List Message
pick k [] = (none, [])
pick zero (m ∷ rest) = (some m, rest)
pick (suc k) (m ∷ rest) = let r = pick k rest in (r.0, m ∷ r.1)

-- Taking the `std::mutex`, by a thread that has it already if `held`; this is not defined behaviour.
abbrev pub lock : Bool → Manager → Manager
lock held m = if held then record m { undefined = true } else m

abbrev pub on_data_request : Bool → Manager → Manager
on_data_request held m = lock held m

-- The switch of the event loop, which has the mutex.
abbrev pub on_message : MessageType → Manager → Manager
on_message node_finished m = one_less m
on_message data_request m = on_data_request true m
on_message _ m = m

-- `data` is what `try_recv` gave.
abbrev pub on_received : ℕ → Option Message × List Message → System → System
on_received i (none, rest) s = s
on_received i (some msg, rest) s =
    set_inbox (set_manager s i (on_message msg.type (s.managers i))) i rest

-- One turn of `event_loop` of node `i`, in which the network gives the message at `k`.
unfoldable pub event_loop_turn : ℕ → ℕ → System → System
event_loop_turn i k s =
    if (s.managers i).exited || (s.managers i).undefined
    then s
    else if (s.managers i).nb_node_still_running == 0
    then set_manager s i (record (s.managers i) { exited = true })
    else on_received i (pick k (s.inbox i)) s

-- The waiter counts one more query, and is put in front of those of the region.
abbrev pub with_waiter : ℕ → Ptr → ℕ → RegionMetadata → System → System
with_waiter i ptr waiter region s =
    let listed = record region { waiters = waiter ∷ region.waiters } in
    let m = s.managers i in
    record (set_manager s i
      (record m { regions = λ p. if p == ptr then some listed else m.regions p })) {
        waiting_for = λ w. if w == waiter then s.waiting_for w + 1 else s.waiting_for w;
      }

abbrev pub send_data_request : ℕ → Ptr → System → System
send_data_request i ptr s =
    send_to s (node_of_allocation (s.managers i).space ptr)
      (record { type = data_request; ptr = ptr; from = i })

-- What `request_region_valid` does under the lock for a region with metadata: the node of the
-- allocation is asked if the waiter is the first.
unfoldable pub add_waiter : ℕ → Ptr → ℕ → RegionMetadata → System → System
add_waiter i ptr waiter region s = elim region.waiters [
  | [] ↦ send_data_request i ptr (with_waiter i ptr waiter region s)
  | _ ∷ _ ↦ with_waiter i ptr waiter region s
]

-- With what `get_metadata` gave: `true` if the region is valid at once, else the waiter waits while
-- its count is above 0.
unfoldable pub request_with : Option RegionMetadata → ℕ → Ptr → ℕ → System → Bool × System
request_with (some region) i ptr waiter s =
    if region.valid then (true, s) else (false, add_waiter i ptr waiter region s)
request_with none i ptr waiter s =
    if in_local_interval (s.managers i).space ptr
    then (true, s)
    else (false, add_waiter i ptr waiter (invalid_region (s.managers i).space ptr) s)

unfoldable pub request_region_valid : ℕ → Ptr → ℕ → System → Bool × System
request_region_valid i ptr waiter s = request_with ((s.managers i).regions ptr) i ptr waiter s

-- The test of the loop of `Waiter::wait`.
abbrev pub still_waits : ℕ → System → Bool
still_waits waiter s = ltb 0 (s.waiting_for waiter)
