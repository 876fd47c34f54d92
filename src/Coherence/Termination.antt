-- ===== src/Coherence/Termination.antt =====
-- The termination protocol of src/coherence.h.
use mathlib.Core.Bool.{true≢false}
use mathlib.Core.Path.{subst}
use givy.Base.{
  ℕ, ◌+◌, ◌-◌, ◌^◌, ◌≤◌, ◌<◌, ◌≡◌, ◌≢◌, refl, sym, ap, ◌∙◌, arith, Bool, true, false, ◌||◌, Option,
  none, some, List, [], ◌∷◌, ◌++◌, ◌==◌, if◌then◌else◌, Bool-cases, inl, inr, ==→eq, ==→ne, ne→==,
}
use givy.Coherence.{
  MessageType, data_request, data_answer, owner_request, owner_transfer, invalidation_request,
  invalidation_ack, deallocate, node_finished, Message, Manager, System, one_less, destructor_send,
  destructor_finish, pick, on_message, on_received, event_loop_turn,
}
use givy.Coherence.Counts.{
  told, told_lt, told_same, told_step, finishes, finishes-append, finishes-pick, is_finish,
  finish_of,
}

abbrev pub sents : System → ℕ → ℕ
sents s j = (s.managers j).sent

abbrev pub one_if : Bool → ℕ
one_if b = if b then 1 else 0

-- The equation between the counter of node `i`, its own end, those that have told it of theirs, and
-- the messages about it that it has not handled.
abbrev pub Balance : ℕ → System → ℕ → Type 0
Balance nb s i =
    (s.managers i).nb_node_still_running + one_if (s.managers i).finished + told (sents s) i nb
    ≡ nb + finishes (s.inbox i)

-- `nb` nodes, each with its counter in balance; the counter of an event loop that ended is 0.
pub record IsCounted (nb : ℕ) (s : System) : Type 0 where
  pub representable : nb < 2 ^ 64
  pub balance : (i : ℕ) → i < nb → Balance nb s i
  pub bounded : (i : ℕ) → i < nb → (s.managers i).nb_node_still_running ≤ nb
  pub ended :
      (i : ℕ) → i < nb → (s.managers i).exited ≡ true → (s.managers i).nb_node_still_running ≡ 0

one_less_lem :
    (m : Manager) (nb : ℕ)
    → nb < 2 ^ 64
    → 0 < m.nb_node_still_running
    → m.nb_node_still_running ≤ nb
    → (one_less m).nb_node_still_running ≡ m.nb_node_still_running - 1
one_less_lem m nb small pos le = omega arith

pub on_message_lem :
    (ty : MessageType) (m : Manager) (nb : ℕ)
    → nb < 2 ^ 64
    → 0 < m.nb_node_still_running
    → m.nb_node_still_running ≤ nb
    → ((on_message ty m).nb_node_still_running + is_finish ty ≡ m.nb_node_still_running)
      × ((on_message ty m).sent ≡ m.sent)
      × ((on_message ty m).finished ≡ m.finished)
      × ((on_message ty m).exited ≡ m.exited)
on_message_lem data_request m nb small pos le = (omega arith, refl, refl, refl)
on_message_lem data_answer m nb small pos le = (omega arith, refl, refl, refl)
on_message_lem owner_request m nb small pos le = (omega arith, refl, refl, refl)
on_message_lem owner_transfer m nb small pos le = (omega arith, refl, refl, refl)
on_message_lem invalidation_request m nb small pos le = (omega arith, refl, refl, refl)
on_message_lem invalidation_ack m nb small pos le = (omega arith, refl, refl, refl)
on_message_lem deallocate m nb small pos le = (omega arith, refl, refl, refl)
on_message_lem node_finished m nb small pos le =
    (omega (arith, one_less_lem m nb small pos le), refl, refl, refl)

pub same : (k : ℕ) → (k == k) ≡ true
same k = ground arith

-- Node `i` and some inboxes change.
abbrev pub changed : System → ℕ → Manager → (ℕ → List Message) → System
changed s i m inbox = record s { managers = λ j. if j == i then m else s.managers j; inbox = inbox }

pub changed-IsCounted :
    (nb i : ℕ) (s : System) (m : Manager) (inbox : ℕ → List Message)
    → IsCounted nb s
    → i < nb
    → m.nb_node_still_running + one_if m.finished + told (sents (changed s i m inbox)) i nb
      ≡ nb + finishes (inbox i)
    → ((j : ℕ)
        → j < nb
        → j ≢ i
        → told (sents (changed s i m inbox)) j nb + finishes (s.inbox j)
          ≡ told (sents s) j nb + finishes (inbox j))
    → m.nb_node_still_running ≤ nb
    → (m.exited ≡ true → m.nb_node_still_running ≡ 0)
    → IsCounted nb (changed s i m inbox)
changed-IsCounted nb i s m inbox c lt own others le end = record {
  representable = c.representable;
  balance = λ j jn. elim (Bool-cases (j == i)) [
    | inl q ↦
        let w = sym (==→eq j i q) in
        subst (λ k. Balance nb (changed s i m inbox) k) w (rw (same i) own)
    | inr q ↦ rw q (omega (arith, others j jn (==→ne j i q), c.balance j jn))
  ];
  bounded = λ j jn. elim (Bool-cases (j == i)) [ inl q ↦ rw q le | inr q ↦ rw q (c.bounded j jn) ];
  ended = λ j jn. elim (Bool-cases (j == i)) [ inl q ↦ rw q end | inr q ↦ rw q (c.ended j jn) ];
}

-- Where the node has sent what it had sent, the others have been told what they had.
pub told-changed :
    (nb i : ℕ) (s : System) (m : Manager) (inbox : ℕ → List Message) (j : ℕ)
    → m.sent ≡ (s.managers i).sent
    → told (sents (changed s i m inbox)) j nb ≡ told (sents s) j nb
told-changed nb i s m inbox j e = told_same (sents s) (sents (changed s i m inbox)) j nb (λ k lt.
    elim (Bool-cases (k == i)) [
      | inl q ↦ rw (sents, q) (e ∙ ap (λ k. (s.managers k).sent) (sym (==→eq k i q)))
      | inr q ↦ rw (sents, q) refl
    ])

on_received-IsCounted :
    (nb i : ℕ) (r : Option Message × List Message) (s : System)
    → IsCounted nb s
    → i < nb
    → (s.managers i).exited ≡ false
    → 0 < (s.managers i).nb_node_still_running
    → finish_of r.0 + finishes r.1 ≡ finishes (s.inbox i)
    → IsCounted nb (on_received i r s)
on_received-IsCounted nb i (none, rest) s c lt runs pos e = c
on_received-IsCounted nb i (some msg, rest) s c lt runs pos e =
    let m = on_message msg.type (s.managers i) in
    let inbox = λ (j : ℕ). if j == i then rest else s.inbox j in
    let h = on_message_lem msg.type (s.managers i) nb c.representable pos (c.bounded i lt) in
    changed-IsCounted nb i s m inbox c lt
      (rw (same i, h.2) (omega (arith, h.0, told-changed nb i s m inbox i h.1, c.balance i lt, e)))
      (λ j jn ne. let q = ne→== j i ne in rw q (omega (arith, told-changed nb i s m inbox j h.1)))
      (omega (arith, h.0, c.bounded i lt)) (λ x. absurd (true≢false (sym x ∙ h.3 ∙ runs)))

pub event_loop_turn-IsCounted :
    (nb i k : ℕ) (s : System) → IsCounted nb s → i < nb → IsCounted nb (event_loop_turn i k s)
unfolding event_loop_turn
event_loop_turn-IsCounted nb i k s c lt =
    elim (Bool-cases ((s.managers i).exited || (s.managers i).undefined)) [
      | inl e ↦ rw e c
      | inr runs ↦ elim (Bool-cases ((s.managers i).nb_node_still_running == 0)) [
        | inl e ↦
            let m = record (s.managers i) { exited = true } in
            rw (runs, e)
              (changed-IsCounted nb i s m s.inbox c lt
                (omega (arith, told-changed nb i s m s.inbox i refl, c.balance i lt))
                (λ j jn ne. omega (arith, told-changed nb i s m s.inbox j refl)) (c.bounded i lt)
                (λ x. ==→eq _ _ e))
        | inr e ↦
            rw (runs, e)
              (on_received-IsCounted nb i (pick k (s.inbox i)) s c lt (ground arith)
                (let q = ==→ne _ _ e in omega arith) (finishes-pick k (s.inbox i)))
      ]
    ]

pub destructor_finish-IsCounted :
    (nb i : ℕ) (s : System)
    → IsCounted nb s
    → i < nb
    → (s.managers i).finished ≡ false
    → IsCounted nb (destructor_finish i s)
unfolding destructor_finish
destructor_finish-IsCounted nb i s c lt fresh =
    let m = record (one_less (s.managers i)) { finished = true } in
    let b = c.balance i lt in
    let t = told_lt (sents s) i nb lt in
    let zero_if : one_if (s.managers i).finished ≡ 0 = rw fresh refl in
    let l =
      one_less_lem (s.managers i) nb c.representable (omega (arith, b, t, zero_if))
        (c.bounded i lt) in
    changed-IsCounted nb i s m s.inbox c lt
      (omega (arith, told-changed nb i s m s.inbox i refl, b, l, t, zero_if))
      (λ j jn ne. omega (arith, told-changed nb i s m s.inbox j refl))
      (omega (arith, l, c.bounded i lt)) (λ x. omega (arith, c.ended i lt x, b, t, zero_if))

pub destructor_send-IsCounted :
    (nb i : ℕ) (s : System)
    → IsCounted nb s
    → i < nb
    → (s.managers i).sent < nb
    → IsCounted nb (destructor_send i s)
unfolding destructor_send
destructor_send-IsCounted nb i s c lt more = elim (Bool-cases ((s.managers i).sent == i)) [
  | inl e ↦ rw e (
      changed-IsCounted nb i s m s.inbox c lt
        (omega (arith, step s.inbox i, self_told, c.balance i lt))
        (λ j jn ne.
          let st = step s.inbox j in let q = ne→== j i ne in let w = ==→eq _ _ e in ground arith)
        (c.bounded i lt) (c.ended i lt))
  | inr e ↦
      let target = (s.managers i).sent in
      let msg : Message = record { type = node_finished; ptr = 0; from = i } in
      let inbox = λ (j : ℕ). if j == target then s.inbox target ++ msg ∷ [] else s.inbox j in
      let apart : (i == target) ≡ false = ground arith in
      rw e (
        changed-IsCounted nb i s m inbox c lt
          (rw apart (omega (arith, step inbox i, self_told, c.balance i lt)))
          (λ j jn ne.
            let st = step inbox j in
            let q = ne→== i j (λ w. ne (sym w)) in
            let app = finishes-append (s.inbox target) (msg ∷ []) in
            elim (Bool-cases (j == target)) [
              | inl w ↦
                  let v = ==→eq j target w in
                  let o : finishes (s.inbox j) ≡ finishes (s.inbox target) =
                    ap (λ k. finishes (s.inbox k)) v in
                  rw w (ground arith)
              | inr w ↦ rw w (ground arith)
            ])
          (c.bounded i lt) (c.ended i lt))
]
  where
    m : Manager
    m = record (s.managers i) { sent = (s.managers i).sent + 1 }

    step :
        (inbox : ℕ → List Message) (j : ℕ)
        → told (sents (changed s i m inbox)) j nb
          ≡ told (sents s) j nb + (if i == j then 0 else if (s.managers i).sent == j then 1 else 0)
    step inbox j =
        told_step (sents s) (sents (changed s i m inbox)) j i nb lt (rw (sents, same i) refl)
          (λ k ne. let q = ne→== k i ne in rw (sents, q) refl)

    self_told : ◌≡◌ {A = ℕ} (if i == i then 0 else if (s.managers i).sent == i then 1 else 0) 0
    self_told = rw (same i) refl
