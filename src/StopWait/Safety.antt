-- ===== src/StopWait/Safety.antt =====
-- The invariant of a transfer is kept by every step, and what follows for the receiver's file
-- (stop_wait_clnt.c, stop_wait_serv.c).
use network_camp.Prelude.{
  ℕ, ◌+◌, ◌*◌, ◌≤◌, ◌<◌, false, List, ◌∷◌, ◌++◌, ◌≡◌, ◌⊎◌, inl, inr, ap, subst, ◌∙◌, arith, ◌==◌,
  length, take, All, All_middle, length-take, take_all, Bool-cases, ==→eq,
}
use network_camp.Transfer.Int.{int_half}
use network_camp.StopWait.{Packet, Phase, reading, waiting, finished, is_running, receive_packet}
use network_camp.StopWait.System.{
  System, post, Step, transmit, expire, deliver, acknowledge, lose_packet, duplicate_packet,
  duplicate_ack, lose_ack, IsOnce, AcksOnce, here, next, Reach,
}
use network_camp.StopWait.Invariant.{Sent, Pending, AtPhase, Inv, Inv-start, round-Inv}
use network_camp.StopWait.Moves.{
  taken, packets-Inv, Known-of_middle, expire-Inv, lose_ack-Inv, taken-Inv, acknowledge-Inv,
}

module _ (buf_size : ℕ) (pos : 0 < buf_size) (file : List ℕ) where
  deliver-Inv :
      (s : System) (pre rest : List Packet) (p : Packet)
      → Inv buf_size pos file s
      → s.packets ≡ pre ++ p ∷ rest
      → Inv buf_size pos file (record s {
        receiver = (receive_packet s.receiver p).0;
        packets = pre ++ rest;
        acks = post (receive_packet s.receiver p).1 s.acks;
      })
  unfolding receive_packet
  deliver-Inv s pre rest p h e =
      let sent = λ (k : ℕ) (a : All (Sent buf_size pos file k) s.packets).
        (All_middle _ pre rest p (subst (All _) e a)).0 in
      elim (Bool-cases (p.sequence == s.receiver.ack_seq)) [
        | inl same ↦
            let t =
              taken-Inv buf_size pos file s h p (==→eq p.sequence s.receiver.ack_seq same) sent in
            rw same (
              packets-Inv buf_size pos file (taken buf_size pos file s h p) (pre ++ rest)
                (Known-of_middle buf_size pos file (taken buf_size pos file s h p) pre rest p e) t)
        | inr other ↦ rw other (
            packets-Inv buf_size pos file s (pre ++ rest)
              (Known-of_middle buf_size pos file s pre rest p e) h)
      ]

  -- Every step keeps the invariant, but that of an acknowledgement that is repeated.
  pub Step-Inv :
      {s t : System} (st : Step buf_size s t)
      → IsOnce buf_size st
      → Inv buf_size pos file s
      → Inv buf_size pos file t
  Step-Inv {s} (transmit e) o h = round-Inv buf_size pos file s h e
  Step-Inv {s} (expire e) o h = expire-Inv buf_size pos file s h e
  Step-Inv {s} (deliver pre rest p e _) o h = deliver-Inv s pre rest p h e
  Step-Inv {s} (acknowledge pre rest a q e) o h =
      acknowledge-Inv buf_size pos file s h pre rest a q e
  Step-Inv {s} (lose_packet pre rest p e) o h =
      packets-Inv buf_size pos file s (pre ++ rest)
        (Known-of_middle buf_size pos file s pre rest p e) h
  Step-Inv {s} (duplicate_packet pre rest p e) o h =
      packets-Inv buf_size pos file s (p ∷ s.packets)
        (λ k a. ((All_middle _ pre rest p (subst (All _) e a)).0, a)) h
  Step-Inv {s} (lose_ack pre rest a e) o h = lose_ack-Inv buf_size pos file s h pre rest a e
  Step-Inv {s} (duplicate_ack pre rest a e) o h = absurd o

  pub Reach-Inv :
      {s : System} (r : Reach buf_size file s)
      → length file < int_half
      → AcksOnce buf_size r
      → Inv buf_size pos file s
  Reach-Inv here lt o = Inv-start buf_size pos file lt
  Reach-Inv (next r st) lt o = Step-Inv st o.1 (Reach-Inv r lt o.0)

-- For a BUF_SIZE that is not 0 and a file below 2 ^ 31 bytes, in every state that the transfer can
-- come to without an acknowledgement being repeated, the receiver has written the first `ack_seq`
-- chunks of the file, and its counter is the length of what it has written.
pub written-prefix :
    (buf_size : ℕ) (file : List ℕ) (s : System) (r : Reach buf_size file s)
    → 0 < buf_size
    → length file < int_half
    → AcksOnce buf_size r
    → (s.receiver.written ≡ take (s.receiver.ack_seq * buf_size) file)
      × (s.receiver.read_len ≡ length s.receiver.written)
written-prefix buf_size file s r pos lt o =
    let h = Reach-Inv buf_size pos file r lt o in (h.written, h.counted)

-- For a BUF_SIZE that is not 0 and a file below 2 ^ 31 bytes, in every state that the transfer can
-- come to without an acknowledgement being repeated, once the receiver's loop has ended, the
-- receiver has written the whole file and nothing else.
pub written_complete :
    (buf_size : ℕ) (file : List ℕ) (s : System) (r : Reach buf_size file s)
    → 0 < buf_size
    → length file < int_half
    → AcksOnce buf_size r
    → is_running s.receiver ≡ false
    → s.receiver.written ≡ file
written_complete buf_size file s r pos lt o e =
    let h = Reach-Inv buf_size pos file r lt o in
    let long : length file ≤ s.receiver.read_len = ground (arith, h.size) in
    h.written
    ∙ take_all (s.receiver.ack_seq * buf_size) file (
        omega (
          arith,
          length-take (s.receiver.ack_seq * buf_size) file,
          ap (length {0}) h.written,
          h.counted,
        ))

-- For a BUF_SIZE that is not 0, in every state that the transfer can be in, the receiver waits for
-- the number that the sender sends, or for the one behind it.
pub ack_seq-pkt_seq :
    (buf_size : ℕ) (file : List ℕ) (s : System) (r : Reach buf_size file s)
    → 0 < buf_size
    → length file < int_half
    → AcksOnce buf_size r
    → (s.receiver.ack_seq ≡ s.sender.pkt_seq) ⊎ (s.receiver.ack_seq ≡ s.sender.pkt_seq + 1)
ack_seq-pkt_seq buf_size file s r pos lt o =
    at_phase s.sender.phase (Reach-Inv buf_size pos file r lt o).at
  where
    of_pending :
        Pending buf_size pos file s.sender.pkt_seq s
        → (s.receiver.ack_seq ≡ s.sender.pkt_seq) ⊎ (s.receiver.ack_seq ≡ s.sender.pkt_seq + 1)
    of_pending (inl p) = inl p.0
    of_pending (inr p) = inr p.0

    at_phase :
        (phase : Phase)
        → AtPhase buf_size pos file phase s
        → (s.receiver.ack_seq ≡ s.sender.pkt_seq) ⊎ (s.receiver.ack_seq ≡ s.sender.pkt_seq + 1)
    at_phase reading a = inl a.0
    at_phase waiting a = of_pending a.0
    at_phase finished a = of_pending a.0
