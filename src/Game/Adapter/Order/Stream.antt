-- ===== src/Game/Adapter/Order/Stream.antt =====
-- What reaches the client's state of any sequence of packets that src/game/client_adapter.rs receives.
use fourinarow_server.Base.{
  ℕ, ◌+◌, ◌-◌, ◌≤◌, ◌<◌, ◌≡◌, ap, ◌∙◌, ◌↔◌, ◌⊎◌, inl, inr, List, [], ◌∷◌, arith, dec_lt,
}
use fourinarow_server.Game.Message.{PlayerMessage}
use fourinarow_server.Game.Adapter.{ReliabilityLayer, received_msg, empty_layer}
use fourinarow_server.Game.Adapter.Pass.{forwarded, forwarded-append, stream, stream_join}
use fourinarow_server.Game.Adapter.Order.{
  Arrival, Arrived, FromStream, Inv, Inv-along, Lacks-HasId, receive_all, received-Inv,
  received-forwarded, SeenWith,
}

-- The invariant and the stream over any sequence of packets.
all-Inv :
    (content : ℕ → PlayerMessage) (seen : ℕ → Type 0) (ps : List Arrival) (l : ReliabilityLayer)
    → FromStream content ps
    → Inv content seen l
    → Inv content (λ k. seen k ⊎ Arrived k ps) (receive_all ps l).0
unfolding receive_all
all-Inv content seen [] l c v =
    Inv-along content seen _ l (λ k s. inl s) (λ k s. elim s [ inl a ↦ a | inr b ↦ absurd b ]) v
all-Inv content seen (p ∷ ps) l c v =
    let one = received-Inv content seen l p.now p.id v in
    let step : Inv content (SeenWith seen p.id) (received_msg p.now p.id p.msg l).0 = rw c.0 one in
    Inv-along content _ _ _
      (λ k s. elim s [ inl (inl a) ↦ inl a | inl (inr b) ↦ inr (inl b) | inr d ↦ inr (inr d) ])
      (λ k s. elim s [ inl a ↦ inl (inl a) | inr (inl b) ↦ inl (inr b) | inr (inr d) ↦ inr d ])
      (all-Inv content (SeenWith seen p.id) ps (received_msg p.now p.id p.msg l).0 c.1 step)

all-forwarded :
    (content : ℕ → PlayerMessage) (seen : ℕ → Type 0) (ps : List Arrival) (l : ReliabilityLayer)
    → FromStream content ps
    → Inv content seen l
    → (l.player_msg_index ≤ (receive_all ps l).0.player_msg_index)
      × (forwarded (receive_all ps l).1
          ≡ stream content l.player_msg_index
              ((receive_all ps l).0.player_msg_index - l.player_msg_index))
unfolding receive_all
all-forwarded content seen [] l c v = (omega arith, unfold forwarded stream in ground arith)
all-forwarded content seen (p ∷ ps) l c v =
    let l' = (received_msg p.now p.id p.msg l).0 in
    let one = received-forwarded content l p.now p.id v.consistent in
    let head : (l.player_msg_index ≤ l'.player_msg_index)
        × (forwarded (received_msg p.now p.id p.msg l).1
            ≡ stream content l.player_msg_index (l'.player_msg_index - l.player_msg_index)) =
      rw c.0 one in
    let step : Inv content (SeenWith seen p.id) l' =
      rw c.0 (received-Inv content seen l p.now p.id v) in
    let tail = all-forwarded content (SeenWith seen p.id) ps l' c.1 step in
    (
      omega (arith, head.0, tail.0),
      rw (forwarded-append (received_msg p.now p.id p.msg l).1, head.1, tail.1)
          (stream_join content l.player_msg_index l'.player_msg_index _ head.0 tail.0),
    )

start-Inv : (content : ℕ → PlayerMessage) → Inv content (λ k. ⊥) empty_layer
unfolding empty_layer
start-Inv content = record {
  next_missing = tt;
  consistent = tt;
  waiting = λ k s lt. absurd s;
  sourced = λ k has. absurd has;
  delivered = λ k pos le. absurd (omega arith);
}

-- However the packets of a client are lost, repeated and reordered, as long as each carries what the
-- client sends under its number, the messages forwarded to the client's state are the first ones of
-- its stream, each once and in order, as many as `player_msg_index` says.
pub receive_all-stream :
    (content : ℕ → PlayerMessage) (ps : List Arrival)
    → FromStream content ps
    → forwarded (receive_all ps empty_layer).1
      ≡ stream content 0 (receive_all ps empty_layer).0.player_msg_index
unfolding empty_layer
receive_all-stream content ps c =
    let run = (all-forwarded content (λ k. ⊥) ps empty_layer c (start-Inv content)).1 in
    let all : (receive_all ps empty_layer).0.player_msg_index - 0
        ≡ (receive_all ps empty_layer).0.player_msg_index =
      omega arith in
    run ∙ ap (stream content 0) all

-- As long as each packet of a client carries what the client sends under its number, as many
-- messages are forwarded as possible: `player_msg_index` is at least `n` exactly when packets of
-- all the numbers from 1 to `n` have come in.
pub receive_all-Arrived :
    (content : ℕ → PlayerMessage) (ps : List Arrival) (n : ℕ)
    → FromStream content ps
    → (n ≤ (receive_all ps empty_layer).0.player_msg_index)
      ↔ ((k : ℕ) → 0 < k → k ≤ n → Arrived k ps)
receive_all-Arrived content ps n c =
    let v = all-Inv content (λ k. ⊥) ps empty_layer c (start-Inv content) in
    let l = (receive_all ps empty_layer).0 in
    (
      λ h k pos le. elim (v.delivered k pos (omega arith)) [ inl a ↦ absurd a | inr b ↦ b ],
      λ all. elim (dec_lt l.player_msg_index n) [
        | no enough ↦ omega arith
        | yes short ↦ absurd (
            Lacks-HasId (l.player_msg_index + 1) l.player_msg_q v.next_missing (
              v.waiting (l.player_msg_index + 1)
                (inr (all (l.player_msg_index + 1) (omega arith) (omega arith))) (omega arith)))
      ],
    )
