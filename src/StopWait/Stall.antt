-- ===== src/StopWait/Stall.antt =====
-- A lost acknowledgement ends a transfer (stop_wait_clnt.c, stop_wait_serv.c): the receiver answers a
-- number once, and is silent when the sender repeats it.
use network_camp.Prelude.{
  ℕ, ◌+◌, ◌<◌, false, List, length, [], ◌∷◌, ◌++◌, ◌≡◌, refl, ap, sym, subst, ◌∙◌, arith, ◌==◌, All,
  All_middle,
}
use network_camp.Transfer.Int.{int_half}
use network_camp.StopWait.{Packet, waiting, receive_packet}
use network_camp.StopWait.System.{
  System, Step, transmit, expire, deliver, acknowledge, lose_packet, duplicate_packet,
  duplicate_ack, lose_ack, IsOnce, AcksOnce, Steps, here, next, Reach,
}
use network_camp.StopWait.Invariant.{AtPhase, Inv}
use network_camp.StopWait.Safety.{Step-Inv, Reach-Inv}
use network_camp.StopWait.Moves.{nil-ne-middle}

-- The sender waits for an acknowledgement that was sent and is not on its way any more.
pub record IsStalled (s : System) : Type 0 where
  pub waits : s.sender.phase ≡ waiting
  pub acked : s.receiver.ack_seq ≡ s.sender.pkt_seq + 1
  pub lost : s.acks ≡ []

module _ (buf_size : ℕ) (pos : 0 < buf_size) (file : List ℕ) where
  -- What a step leaves alone once the transfer has stalled.
  record Same (s t : System) : Type 0 where
    sender : t.sender ≡ s.sender
    receiver : t.receiver ≡ s.receiver
    acks : t.acks ≡ s.acks

  old_packet :
      (s : System) (pre rest : List Packet) (p : Packet)
      → Inv buf_size pos file s
      → IsStalled s
      → s.packets ≡ pre ++ p ∷ rest
      → (p.sequence == s.receiver.ack_seq) ≡ false
  old_packet s pre rest p h stall e =
      let (_, _, _, sent) = subst (λ q. AtPhase buf_size pos file q s) stall.waits h.at in
      let ((lt, _), _) = All_middle _ pre rest p (subst (All _) e sent) in
      ground (arith, stall.acked, lt)

  stalled-Step :
      {s t : System} → Step buf_size s t → Inv buf_size pos file s → IsStalled s → Same s t
  unfolding receive_packet
  stalled-Step (transmit e) h stall = cc (stall.waits)
  stalled-Step (expire e) h stall = record { sender = refl; receiver = refl; acks = refl }
  stalled-Step {s} (deliver pre rest p e _) h stall =
      rw (old_packet s pre rest p h stall e)
        (record { sender = refl; receiver = refl; acks = refl })
  stalled-Step (acknowledge pre rest a q e) h stall = nil-ne-middle pre rest a (sym q ∙ stall.lost)
  stalled-Step (lose_packet pre rest p e) h stall = record {
    sender = refl;
    receiver = refl;
    acks = refl;
  }
  stalled-Step (duplicate_packet pre rest p e) h stall = record {
    sender = refl;
    receiver = refl;
    acks = refl;
  }
  stalled-Step (duplicate_ack pre rest a e) h stall = nil-ne-middle pre rest a (sym e ∙ stall.lost)
  stalled-Step (lose_ack pre rest a e) h stall = nil-ne-middle pre rest a (sym e ∙ stall.lost)

  -- Then no acknowledgement is there to be repeated.
  stalled-IsOnce : {s t : System} (st : Step buf_size s t) → IsStalled s → IsOnce buf_size st
  stalled-IsOnce (transmit e) stall = tt
  stalled-IsOnce (expire e) stall = tt
  stalled-IsOnce (deliver pre rest p e f) stall = tt
  stalled-IsOnce (acknowledge pre rest a e f) stall = tt
  stalled-IsOnce (lose_packet pre rest p e) stall = tt
  stalled-IsOnce (duplicate_packet pre rest p e) stall = tt
  stalled-IsOnce (duplicate_ack pre rest a e) stall = nil-ne-middle pre rest a (sym e ∙ stall.lost)
  stalled-IsOnce (lose_ack pre rest a e) stall = tt

  IsStalled-of_Same : {s t : System} → Same s t → IsStalled s → IsStalled t
  IsStalled-of_Same same h = record {
    waits = ap (λ x. x.phase) same.sender ∙ h.waits;
    acked = ap (λ x. x.ack_seq) same.receiver ∙ h.acked ∙ ap (λ x. x.pkt_seq + 1) (sym same.sender);
    lost = same.acks ∙ h.lost;
  }

  stalled-Steps :
      {s t : System}
      → Steps buf_size s t
      → Inv buf_size pos file s
      → IsStalled s
      → Same s t × Inv buf_size pos file t
  stalled-Steps here h stall = (record { sender = refl; receiver = refl; acks = refl }, h)
  stalled-Steps (next r st) h stall =
      let (same, h') = stalled-Steps r h stall in
      let now = stalled-Step st h' (IsStalled-of_Same same stall) in
      (
        record {
          sender = now.sender ∙ same.sender;
          receiver = now.receiver ∙ same.receiver;
          acks = now.acks ∙ same.acks;
        },
        Step-Inv buf_size pos file st (stalled-IsOnce st (IsStalled-of_Same same stall)) h',
      )

-- For a BUF_SIZE that is not 0, from a state that the transfer can be in, where the sender waits
-- for an acknowledgement that was lost (`IsStalled`), nothing that happens later changes the sender
-- or the receiver.
pub stalled_for_ever :
    (buf_size : ℕ) (file : List ℕ) (s t : System) (r : Reach buf_size file s)
    → 0 < buf_size
    → length file < int_half
    → AcksOnce buf_size r
    → IsStalled s
    → Steps buf_size s t
    → (t.sender ≡ s.sender) × (t.receiver ≡ s.receiver)
stalled_for_ever buf_size file s t r pos lt o stall rest =
    let (same, _) =
      stalled-Steps buf_size pos file rest (Reach-Inv buf_size pos file r lt o) stall in
    (same.sender, same.receiver)
