-- ===== src/Game/Adapter/Order.antt =====
-- Players' messages reach the client's state in order and once: the receiving half of the reliable
-- layer of src/game/client_adapter.rs, over any sequence of received packets.
pub mod Stream
use fourinarow_server.Base.{
  length, All, Any, All-append, ltb, ◌==◌, Bool-cases, ℕ, suc, ◌+◌, ◌-◌, ◌≤◌, ◌<◌, ◌≡◌, refl, ap,
  ◌∙◌, ◌≢◌, ◌↔◌, ◌⊎◌, inl, inr, List, [], ◌∷◌, ◌++◌, arith, dec_lt, ℕ_discrete,
}
use fourinarow_server.Game.Message.{Instant, PlayerMessage}
use fourinarow_server.Game.Adapter.{
  ReliabilityLayer, Effect, process_queue, queue_message, received_msg, empty_layer,
}
use fourinarow_server.Game.Adapter.Pass.{
  PlayerQueue, forwarded, forwarded-append, stream, stream_step, stream_join, Consistent, HasId,
  Lacks,
}
use fourinarow_server.Game.Adapter.Queue.{
  queue_index, queue_done, queue-Consistent, queue_forward, queue_keeps, queue_from, queue_found,
}

-- A packet `MSG::id::content` as it comes in, with the time of its arrival.
pub record Arrival : Type 0 where
  pub now : Instant
  pub id : ℕ
  pub msg : PlayerMessage

-- The adapter's handling of a sequence of such packets.
unfoldable pub receive_all : List Arrival → ReliabilityLayer → ReliabilityLayer × List Effect
receive_all [] l = (l, [])
receive_all (p ∷ ps) l =
    let (l', out) = received_msg p.now p.id p.msg l in
    let (l'', outs) = receive_all ps l' in (l'', out ++ outs)

-- Every packet carries what the client sends under its number.
abbrev pub FromStream : (ℕ → PlayerMessage) → List Arrival → Type 0
FromStream content ps = All (λ p. p.msg ≡ content p.id) ps

abbrev pub Arrived : ℕ → List Arrival → Type 0
Arrived k ps = Any (λ p. p.id ≡ k) ps

-- What holds between two packets: `seen` says which numbers have arrived.
record Inv (content : ℕ → PlayerMessage) (seen : ℕ → Type 0) (l : ReliabilityLayer) : Type 1 where
  next_missing : Lacks (l.player_msg_index + 1) l.player_msg_q
  consistent : Consistent content l.player_msg_q
  waiting : (k : ℕ) → seen k → l.player_msg_index < k → HasId k l.player_msg_q
  sourced : (k : ℕ) → HasId k l.player_msg_q → seen k
  delivered : (k : ℕ) → 0 < k → k ≤ l.player_msg_index → seen k

abbrev SeenWith : (ℕ → Type 0) → ℕ → ℕ → Type 0
SeenWith seen id k = seen k ⊎ (id ≡ k)

HasId-append_left : (k : ℕ) (q r : PlayerQueue) → HasId k q → HasId k (q ++ r)
HasId-append_left k [] r h = elim h [ ]
HasId-append_left k (m ∷ q) r (inl e) = inl e
HasId-append_left k (m ∷ q) r (inr h) = inr (HasId-append_left k q r h)

HasId-append_right : (k : ℕ) (q r : PlayerQueue) → HasId k r → HasId k (q ++ r)
HasId-append_right k [] r h = h
HasId-append_right k (m ∷ q) r h = inr (HasId-append_right k q r h)

HasId-append_cases : (k : ℕ) (q r : PlayerQueue) → HasId k (q ++ r) → HasId k q ⊎ HasId k r
HasId-append_cases k [] r h = inr h
HasId-append_cases k (m ∷ q) r (inl e) = inl (inl e)
HasId-append_cases k (m ∷ q) r (inr h) = elim (HasId-append_cases k q r h) [
  | inl a ↦ inl (inr a)
  | inr b ↦ inr b
]

Lacks-HasId : (k : ℕ) (q : PlayerQueue) → Lacks k q → ¬ HasId k q
Lacks-HasId k [] a h = elim h [ ]
Lacks-HasId k (m ∷ q) a (inl e) = a.0 e
Lacks-HasId k (m ∷ q) a (inr h) = Lacks-HasId k q a.1 h

-- The packet of the next number.
expected-Inv :
    (content : ℕ → PlayerMessage) (seen : ℕ → Type 0) (l : ReliabilityLayer) (id : ℕ)
    → Inv content seen l
    → id ≡ l.player_msg_index + 1
    → let q = process_queue (suc (length l.player_msg_q)) (l.player_msg_index + 1) l.player_msg_q in
      Inv content
        (SeenWith seen id)
        (record l { player_msg_index = q.index; player_msg_q = q.kept })
expected-Inv content seen l id v e =
    let fuel = suc (length l.player_msg_q) in
    let i = l.player_msg_index + 1 in
    record {
      next_missing = queue_done fuel i l.player_msg_q (omega arith);
      consistent = queue-Consistent content fuel i l.player_msg_q v.consistent;
      waiting = λ k s h. elim s [
        | inl old ↦
            queue_keeps fuel i k l.player_msg_q
              (v.waiting k old (omega (arith, queue_index fuel i l.player_msg_q))) h
        | inr new ↦ absurd (omega (arith, queue_index fuel i l.player_msg_q))
      ];
      sourced = λ k h. inl (v.sourced k (queue_from fuel i k l.player_msg_q h));
      delivered = λ k pos h. elim (dec_lt i k) [
        | yes far ↦ inl (v.sourced k (queue_found fuel i k l.player_msg_q far h))
        | no near ↦ elim (ℕ_discrete id k) [
          | yes same ↦ inr same
          | no other ↦ inl (v.delivered k pos (omega arith))
        ]
      ];
    }

-- A packet of a later number waits in the queue.
later-Inv :
    (content : ℕ → PlayerMessage) (seen : ℕ → Type 0) (l : ReliabilityLayer) (now id : ℕ)
    → Inv content seen l
    → l.player_msg_index + 1 < id
    → Inv content
        (SeenWith seen id)
        (record l { player_msg_q = l.player_msg_q ++ queue_message now id (content id) ∷ [] })
unfolding queue_message
later-Inv content seen l now id v h =
    let added = queue_message now id (content id) ∷ [] in
    record {
      next_missing =
          All-append (λ m. m.id ≢ l.player_msg_index + 1) l.player_msg_q added v.next_missing
            (omega arith, tt);
      consistent =
          All-append (λ m. m.msg ≡ content m.id) l.player_msg_q added v.consistent (refl, tt);
      waiting = λ k s lt. elim s [
        | inl old ↦ HasId-append_left k l.player_msg_q added (v.waiting k old lt)
        | inr new ↦ HasId-append_right k l.player_msg_q added (inl new)
      ];
      sourced = λ k has. elim (HasId-append_cases k l.player_msg_q added has) [
        | inl old ↦ inl (v.sourced k old)
        | inr (inl new) ↦ inr new
        | inr (inr none_left) ↦ absurd none_left
      ];
      delivered = λ k pos le. inl (v.delivered k pos le);
    }

-- A packet of an earlier number changes nothing.
earlier-Inv :
    (content : ℕ → PlayerMessage) (seen : ℕ → Type 0) (l : ReliabilityLayer) (id : ℕ)
    → Inv content seen l
    → id ≤ l.player_msg_index
    → Inv content (SeenWith seen id) l
earlier-Inv content seen l id v h = record {
  next_missing = v.next_missing;
  consistent = v.consistent;
  waiting = λ k s lt. elim s [ inl old ↦ v.waiting k old lt | inr new ↦ absurd (omega arith) ];
  sourced = λ k has. inl (v.sourced k has);
  delivered = λ k pos le. inl (v.delivered k pos le);
}

received-Inv :
    (content : ℕ → PlayerMessage) (seen : ℕ → Type 0) (l : ReliabilityLayer) (now id : ℕ)
    → Inv content seen l
    → Inv content (SeenWith seen id) (received_msg now id (content id) l).0
unfolding received_msg
received-Inv content seen l now id v = elim (Bool-cases (id == l.player_msg_index + 1)) [
  | inl hit ↦ rw hit (expected-Inv content seen l id v (ground arith))
  | inr miss ↦ elim (Bool-cases (ltb (l.player_msg_index + 1) id)) [
    | inl far ↦ rw (miss, far) (later-Inv content seen l now id v (ground arith))
    | inr near ↦ rw (miss, near) (earlier-Inv content seen l id v (ground arith))
  ]
]

-- One packet forwards the stream from the old index to the new one.
received-forwarded :
    (content : ℕ → PlayerMessage) (l : ReliabilityLayer) (now id : ℕ)
    → Consistent content l.player_msg_q
    → let r = received_msg now id (content id) l in
      (l.player_msg_index ≤ r.0.player_msg_index)
      × (forwarded r.1
          ≡ stream content l.player_msg_index (r.0.player_msg_index - l.player_msg_index))
unfolding received_msg forwarded
received-forwarded content l now id h = elim (Bool-cases (id == l.player_msg_index + 1)) [
  | inl hit ↦
      let fuel = suc (length l.player_msg_q) in
      let i = l.player_msg_index + 1 in
      let later = queue_forward content fuel i l.player_msg_q h in
      let grows = queue_index fuel i l.player_msg_q in
      let number : id ≡ l.player_msg_index + 1 = ground arith in
      rw hit (
        omega arith,
        rw (
          stream_step content l.player_msg_index (process_queue fuel i l.player_msg_q).index
              (omega arith),
          later,
          number,
        ),
      )
  | inr miss ↦ elim (Bool-cases (ltb (l.player_msg_index + 1) id)) [
    | inl far ↦ rw (miss, far) (omega arith, unfold stream in ground arith)
    | inr near ↦ rw (miss, near) (omega arith, unfold stream in ground arith)
  ]
]

Inv-along :
    (content : ℕ → PlayerMessage) (seen seen' : ℕ → Type 0) (l : ReliabilityLayer)
    → ((k : ℕ) → seen k → seen' k)
    → ((k : ℕ) → seen' k → seen k)
    → Inv content seen l
    → Inv content seen' l
Inv-along content seen seen' l to from v = record {
  next_missing = v.next_missing;
  consistent = v.consistent;
  waiting = λ k s lt. v.waiting k (from k s) lt;
  sourced = λ k has. to k (v.sourced k has);
  delivered = λ k pos le. to k (v.delivered k pos le);
}
