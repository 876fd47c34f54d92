-- ===== src/Coherence/Tests.antt =====
-- Two nodes that end, and the uses of the theorems of src/coherence.h there.
use givy.Base.{ℕ, zero, suc, ◌<◌, ◌≡◌, refl, arith, Bool, true, false, none, [], length}
use givy.Space.Example.{two_nodes}
use givy.Coherence.{
  Manager, System, destructor_send, destructor_finish, event_loop_turn, request_region_valid,
  request_with, still_waits,
}
use givy.Coherence.Requests.{
  turn, send, finish, Run, start, next, run-IsCounted, request_region_valid-still_waits,
}
use givy.Coherence.Loop.{AllSent, event_loop, event_loop-exited}
use givy.Coherence.Exit.{IsInitial, initial-IsCounted, run-ended}

abbrev manager : ℕ → ℕ → Bool → Manager
manager running sent finished = record {
  space = two_nodes;
  regions = λ p. none;
  nb_node_still_running = running;
  sent = sent;
  finished = finished;
  exited = false;
  undefined = false;
}

abbrev begin : System
begin = record { managers = λ i. manager 2 0 false; inbox = λ i. []; waiting_for = λ w. 0 }

begin-IsInitial : IsInitial 2 begin
begin-IsInitial = record {
  counters = λ i lt. refl;
  nothing_sent = λ i. refl;
  none_finished = λ i lt. refl;
  none_exited = λ i lt. refl;
  no_message = λ i lt. refl;
}

-- Node 0 ends first, then node 1, whose message node 0 receives.
abbrev ended_0 : System
ended_0 = destructor_finish 0 (destructor_send 0 (destructor_send 0 begin))

abbrev ended_1 : System
ended_1 = destructor_finish 1 (destructor_send 1 (destructor_send 1 ended_0))

abbrev exited_0 : System
exited_0 = event_loop_turn 0 0 (event_loop_turn 0 0 ended_1)

run_0 : Run 2 begin ended_0
unfolding destructor_send destructor_finish
run_0 =
    next
      (next (next start (send 0 (omega arith) (omega arith))) (send 0 (omega arith) (omega arith)))
      (finish 0 (omega arith) refl refl refl)

run_1 : Run 2 begin ended_1
unfolding destructor_send destructor_finish
run_1 =
    next
      (next (next run_0 (send 1 (omega arith) (omega arith))) (send 1 (omega arith) (omega arith)))
      (finish 1 (omega arith) refl refl refl)

run_exited : Run 2 begin exited_0
run_exited = next (next run_1 (turn 0 0 (omega arith))) (turn 0 0 (omega arith))

has_exited : (exited_0.managers 0).exited ≡ true
unfolding destructor_send destructor_finish event_loop_turn
has_exited = refl

run-ended_example : ((exited_0.managers 0).finished ≡ true) × (0 < (exited_0.managers 1).sent)
run-ended_example =
    run-ended 2 begin exited_0 0 1 (omega arith) begin-IsInitial run_exited (omega arith) has_exited
      (omega arith) (omega arith)

ended_1-AllSent : AllSent 2 0 ended_1
unfolding destructor_send destructor_finish
ended_1-AllSent = record {
  counted =
      run-IsCounted 2 begin ended_1 run_1 (initial-IsCounted 2 begin (omega arith) begin-IsInitial);
  all = both;
  own = refl;
  free = refl;
  no_request = refl;
}
  where
    both : (j : ℕ) → j < 2 → (ended_1.managers j).sent ≡ 2
    both zero lt = refl
    both (suc zero) lt = refl
    both (suc (suc j)) lt = absurd (omega arith)

event_loop-exited_example :
    ((event_loop (suc (length (ended_1.inbox 0))) 0 ended_1).managers 0).exited ≡ true
event_loop-exited_example = event_loop-exited 2 0 ended_1 ended_1-AllSent (omega arith)

asked : (request_region_valid 0 4096 5 begin).0 ≡ false
unfolding request_region_valid request_with
asked = refl

request_region_valid-still_waits_example :
    still_waits 5 (event_loop_turn 1 0 (request_region_valid 0 4096 5 begin).1) ≡ true
request_region_valid-still_waits_example =
    request_region_valid-still_waits 2 0 4096 5 begin
      (event_loop_turn 1 0 (request_region_valid 0 4096 5 begin).1) asked
      (next start (turn 1 0 (omega arith)))
