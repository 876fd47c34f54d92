-- ===== src/Coherence/Loop.antt =====
-- The event loop of src/coherence.h ends.
use givy.Base.{
  ℕ, zero, suc, ◌+◌, ◌≤◌, ◌<◌, ◌≡◌, refl, sym, ap, ◌∙◌, arith, true, false, ◌||◌, some, List, [],
  ◌∷◌, length, ltb, ◌==◌, if◌then◌else◌, Bool-cases, inl, inr, ==→ne,
}
use mathlib.Core.Path.{subst}
use givy.Coherence.{
  MessageType, data_request, data_answer, owner_request, owner_transfer, invalidation_request,
  invalidation_ack, deallocate, node_finished, on_message, Message, Manager, System, set_manager,
  pick, on_received, event_loop_turn,
}
use givy.Coherence.Counts.{told_full, is_finish, is_request, requests, finishes}
use givy.Coherence.Termination.{
  on_message_lem, IsCounted, sents, one_if, same, event_loop_turn-IsCounted,
}

-- `n` turns of the event loop of node `i`.
abbrev pub event_loop : ℕ → ℕ → System → System
event_loop zero i s = s
event_loop (suc n) i s = event_loop n i (event_loop_turn i 0 s)

-- All destructors have sent all their messages, that of node `i` has decremented the counter, and no
-- request for data waits for the node or has made it take its mutex twice.
pub record AllSent (nb i : ℕ) (s : System) : Type 0 where
  pub counted : IsCounted nb s
  pub all : (j : ℕ) → j < nb → (s.managers j).sent ≡ nb
  pub own : (s.managers i).finished ≡ true
  pub free : (s.managers i).undefined ≡ false
  pub no_request : requests (s.inbox i) ≡ 0

counter-finishes :
    (nb i : ℕ) (s : System)
    → AllSent nb i s
    → i < nb
    → (s.managers i).nb_node_still_running ≡ finishes (s.inbox i)
counter-finishes nb i s a lt =
    let t = told_full (sents s) i nb (λ j jn. omega (arith, a.all j jn, lt)) in
    let below : ltb i nb ≡ true = ground arith in
    let own : one_if (s.managers i).finished ≡ 1 = rw a.own refl in
    let b = a.counted.balance i lt in ground arith

on_message-free :
    (ty : MessageType) (m : Manager) → is_request ty ≡ 0 → (on_message ty m).undefined ≡ m.undefined
on_message-free data_request m e = absurd (omega (arith, e))
on_message-free data_answer m e = refl
on_message-free owner_request m e = refl
on_message-free owner_transfer m e = refl
on_message-free invalidation_request m e = refl
on_message-free invalidation_ack m e = refl
on_message-free deallocate m e = refl
on_message-free node_finished m e = refl

received-AllSent :
    (nb i : ℕ) (s : System) (msg : Message) (rest : List Message)
    → AllSent nb i s
    → i < nb
    → 0 < (s.managers i).nb_node_still_running
    → IsCounted nb (on_received i (some msg, rest) s)
    → is_request msg.type + requests rest ≡ 0
    → AllSent nb i (on_received i (some msg, rest) s)
received-AllSent nb i s msg rest a lt pos c e = record {
  counted = c;
  all = λ j jn. elim (Bool-cases (j == i)) [
    | inl e ↦ rw e (h.1 ∙ a.all i lt)
    | inr e ↦ rw e (a.all j jn)
  ];
  own = rw (same i) (h.2 ∙ a.own);
  free = rw (same i) (on_message-free msg.type (s.managers i) (omega (arith, e)) ∙ a.free);
  no_request = rw (same i) (omega (arith, e));
}
  where
    h :
        ((on_message msg.type (s.managers i)).nb_node_still_running + is_finish msg.type
          ≡ (s.managers i).nb_node_still_running)
        × ((on_message msg.type (s.managers i)).sent ≡ (s.managers i).sent)
        × ((on_message msg.type (s.managers i)).finished ≡ (s.managers i).finished)
        × ((on_message msg.type (s.managers i)).exited ≡ (s.managers i).exited)
    h =
        on_message_lem msg.type (s.managers i) nb a.counted.representable pos
          (a.counted.bounded i lt)

turn_stays :
    (i : ℕ) (s : System)
    → ((s.managers i).exited || (s.managers i).undefined) ≡ true
    → event_loop_turn i 0 s ≡ s
unfolding event_loop_turn
turn_stays i s e = rw e refl

turn_exits :
    (i : ℕ) (s : System)
    → ((s.managers i).exited || (s.managers i).undefined) ≡ false
    → ((s.managers i).nb_node_still_running == 0) ≡ true
    → event_loop_turn i 0 s ≡ set_manager s i (record (s.managers i) { exited = true })
unfolding event_loop_turn
turn_exits i s runs e =
    subst
      (λ b.
        (if b
          then s
          else if (s.managers i).nb_node_still_running == 0
          then set_manager s i (record (s.managers i) { exited = true })
          else on_received i (pick 0 (s.inbox i)) s)
        ≡ set_manager s i (record (s.managers i) { exited = true }))
      (sym runs)
      (subst
        (λ b.
          (if b
            then set_manager s i (record (s.managers i) { exited = true })
            else on_received i (pick 0 (s.inbox i)) s)
          ≡ set_manager s i (record (s.managers i) { exited = true }))
        (sym e) refl)

turn_receives :
    (i : ℕ) (s : System) (msg : Message) (rest : List Message)
    → ((s.managers i).exited || (s.managers i).undefined) ≡ false
    → ((s.managers i).nb_node_still_running == 0) ≡ false
    → s.inbox i ≡ msg ∷ rest
    → event_loop_turn i 0 s ≡ on_received i (some msg, rest) s
unfolding event_loop_turn
turn_receives i s msg rest runs left inbox =
    subst
      (λ b.
        (if b
          then s
          else if (s.managers i).nb_node_still_running == 0
          then set_manager s i (record (s.managers i) { exited = true })
          else on_received i (pick 0 (s.inbox i)) s)
        ≡ on_received i (some msg, rest) s)
      (sym runs)
      (subst
        (λ b.
          (if b
            then set_manager s i (record (s.managers i) { exited = true })
            else on_received i (pick 0 (s.inbox i)) s)
          ≡ on_received i (some msg, rest) s)
        (sym left) (ap (λ l. on_received i (pick 0 l) s) inbox))

stays :
    (n i : ℕ) (s : System)
    → (s.managers i).exited ≡ true
    → ((event_loop n i s).managers i).exited ≡ true
stays zero i s e = e
stays (suc n) i s e =
    subst (λ t. ((event_loop n i t).managers i).exited ≡ true) (sym (turn_stays i s (ground arith)))
      (stays n i s e)

-- The last turn sees the counter at 0.
exits :
    (n i : ℕ) (s : System)
    → ((s.managers i).exited || (s.managers i).undefined) ≡ false
    → ((s.managers i).nb_node_still_running == 0) ≡ true
    → ((event_loop (suc n) i s).managers i).exited ≡ true
exits n i s runs e =
    subst (λ t. ((event_loop n i t).managers i).exited ≡ true) (sym (turn_exits i s runs e))
      (stays n i (set_manager s i (record (s.managers i) { exited = true })) (rw (same i) refl))

exited_from :
    (l : List Message) (n nb i : ℕ) (s : System)
    → AllSent nb i s
    → i < nb
    → s.inbox i ≡ l
    → length l ≤ n
    → ((event_loop (suc n) i s).managers i).exited ≡ true
exited_from [] n nb i s a lt e le = elim (Bool-cases (s.managers i).exited) [
  | inl out ↦ stays (suc n) i s out
  | inr runs ↦
      let none_left : finishes (s.inbox i) ≡ 0 = rw e refl in
      let c = counter-finishes nb i s a lt in
      let free = a.free in exits n i s (ground arith) (ground arith)
]
exited_from (msg ∷ rest) zero nb i s a lt e le = absurd (omega arith)
exited_from (msg ∷ rest) (suc n) nb i s a lt e le = elim (Bool-cases (s.managers i).exited) [
  | inl out ↦ stays (suc (suc n)) i s out
  | inr runs ↦ elim (Bool-cases ((s.managers i).nb_node_still_running == 0)) [
    | inl z ↦ let free = a.free in exits (suc n) i s (ground arith) z
    | inr left ↦
        let free = a.free in
        let q = turn_receives i s msg rest (ground arith) left e in
        let calm = subst (λ l. requests l ≡ 0) e a.no_request in
        let c = subst (λ t. IsCounted nb t) q (event_loop_turn-IsCounted nb i 0 s a.counted lt) in
        subst (λ t. ((event_loop (suc n) i t).managers i).exited ≡ true) (sym q)
          (exited_from rest n nb i (on_received i (some msg, rest) s)
            (received-AllSent nb i s msg rest a lt (let p = ==→ne _ _ left in omega arith) c calm)
            lt (rw (same i) refl) (omega arith))
  ]
]

-- When all destructors have sent their messages, that of the node has decremented its counter, and no
-- request for data has come or waits, the event loop of the node returns, after one turn for each message in its inbox and one more.
pub event_loop-exited :
    (nb i : ℕ) (s : System)
    → AllSent nb i s
    → i < nb
    → ((event_loop (suc (length (s.inbox i))) i s).managers i).exited ≡ true
event_loop-exited nb i s a lt =
    exited_from (s.inbox i) (length (s.inbox i)) nb i s a lt refl (omega arith)
