-- ===== src/StopWait/Moves.antt =====
-- The steps of the sender and of the network keep the invariant of a transfer
-- (stop_wait_clnt.c, stop_wait_serv.c).
use network_camp.Prelude.{
  ℕ, ◌+◌, ◌*◌, ◌<◌, List, [], ◌∷◌, ◌++◌, ◌≡◌, inl, inr, refl, ap, ap₂, sym, subst, ◌∙◌, arith,
  length, take, All, All_middle, length-append, take_add, eq→==,
}
use network_camp.StopWait.{Packet, Phase, reading, waiting, finished, Receiver, take_ack}
use network_camp.StopWait.System.{System, post}
use network_camp.StopWait.Invariant.{chunk, Sent, Pending, AtPhase, Inv}

pub nil-ne-middle {ℓ κ} :
    {A : Type ℓ} {B : Type κ} (pre rest : List A) (a : A) → pre ++ a ∷ rest ≡ [] → B
nil-ne-middle [] rest a e = cc
nil-ne-middle (x ∷ pre) rest a e = cc

one-eq-middle {ℓ} :
    {A : Type ℓ} (pre rest : List A) (a k : A)
    → pre ++ a ∷ rest ≡ k ∷ []
    → (a ≡ k) × (pre ++ rest ≡ [])
one-eq-middle [] rest a k e = (cc, cc)
one-eq-middle (x ∷ []) rest a k e = cc
one-eq-middle (x ∷ y ∷ pre) rest a k e = cc

module _ (buf_size : ℕ) (pos : 0 < buf_size) (file : List ℕ) (s : System) where
  abbrev Known : List Packet → Type 0
  Known ps =
      (limit : ℕ)
      → All (Sent buf_size pos file limit) s.packets
      → All (Sent buf_size pos file limit) ps

  at-packets :
      (phase : Phase) (ps : List Packet)
      → Known ps
      → AtPhase buf_size pos file phase s
      → AtPhase buf_size pos file phase (record s { packets = ps })
  at-packets reading ps f h = (h.0, h.1, h.2, f s.sender.pkt_seq h.3)
  at-packets waiting ps f h = (h.0, h.1, h.2, f (s.sender.pkt_seq + 1) h.3)
  at-packets finished ps f h = (h.0, f (s.sender.pkt_seq + 1) h.1)

  -- Losing, reordering and duplicating packets.
  pub packets-Inv :
      (ps : List Packet)
      → Known ps
      → Inv buf_size pos file s
      → Inv buf_size pos file (record s { packets = ps })
  packets-Inv ps f h = record {
    written = h.written;
    counted = h.counted;
    size = h.size;
    at = at-packets s.sender.phase ps f h.at;
  }

  pub Known-of_middle :
      (pre rest : List Packet) (p : Packet) → s.packets ≡ pre ++ p ∷ rest → Known (pre ++ rest)
  Known-of_middle pre rest p e limit h = (All_middle _ pre rest p (subst (All _) e h)).1

  Pending-lose :
      (k : ℕ) (pre rest : List ℕ) (a : ℕ)
      → s.acks ≡ pre ++ a ∷ rest
      → Pending buf_size pos file k s
      → Pending buf_size pos file k (record s { acks = pre ++ rest })
  Pending-lose k pre rest a e (inl (ack, none_left)) = nil-ne-middle pre rest a (sym e ∙ none_left)
  Pending-lose k pre rest a e (inr (ack, inl none_left)) =
      nil-ne-middle pre rest a (sym e ∙ none_left)
  Pending-lose k pre rest a e (inr (ack, inr one)) =
      inr (ack, inl (one-eq-middle pre rest a k (sym e ∙ one)).1)

  at-lose :
      (phase : Phase) (pre rest : List ℕ) (a : ℕ)
      → s.acks ≡ pre ++ a ∷ rest
      → AtPhase buf_size pos file phase s
      → AtPhase buf_size pos file phase (record s { acks = pre ++ rest })
  at-lose reading pre rest a e h = nil-ne-middle pre rest a (sym e ∙ h.1)
  at-lose waiting pre rest a e h = (Pending-lose s.sender.pkt_seq pre rest a e h.0, h.1, h.2, h.3)
  at-lose finished pre rest a e h = (Pending-lose s.sender.pkt_seq pre rest a e h.0, h.1)

module _ (buf_size : ℕ) (pos : 0 < buf_size) (file : List ℕ) (s : System)
    (h : Inv buf_size pos file s) where
  pub expire-Inv :
      s.sender.phase ≡ waiting
      → Inv buf_size pos file (record s { packets = post s.sender.current_file s.packets })
  expire-Inv e =
      let (pending, unread, current, sent) = subst (λ p. AtPhase buf_size pos file p s) e h.at in
      record {
        written = h.written;
        counted = h.counted;
        size = h.size;
        at =
            subst
              (λ p.
                AtPhase buf_size pos file p
                  (record s { packets = post s.sender.current_file s.packets }))
              (sym e)
              (
                pending,
                unread,
                current,
                subst (λ c. All (Sent buf_size pos file (s.sender.pkt_seq + 1)) (post c s.packets))
                    (sym current) ((omega arith, refl), sent),
              );
      }

  pub lose_ack-Inv :
      (pre rest : List ℕ) (a : ℕ)
      → s.acks ≡ pre ++ a ∷ rest
      → Inv buf_size pos file (record s { acks = pre ++ rest })
  lose_ack-Inv pre rest a e = record {
    written = h.written;
    counted = h.counted;
    size = h.size;
    at = at-lose buf_size pos file s s.sender.phase pre rest a e h.at;
  }

  -- The receiver after it has taken a packet.
  abbrev accepted : Packet → Receiver
  accepted p = record {
    written = s.receiver.written ++ p.message;
    read_len = s.receiver.read_len + length p.message;
    file_size = s.receiver.file_size;
    ack_seq = s.receiver.ack_seq + 1;
  }

  abbrev pub taken : Packet → System
  taken p = record s { receiver = accepted p; acks = p.sequence ∷ s.acks }

  Pending-taken :
      (p : Packet)
      → p.sequence ≡ s.receiver.ack_seq
      → p.sequence < s.sender.pkt_seq + 1
      → Pending buf_size pos file s.sender.pkt_seq s
      → Pending buf_size pos file s.sender.pkt_seq (taken p)
  Pending-taken p e lt (inl (ack, none_left)) =
      inr (ap (λ k. k + 1) ack, inr (ap₂ ◌∷◌ (e ∙ ack) none_left))
  Pending-taken p e lt (inr (ack, _)) = absurd (omega (arith, ack, e))

  at-taken :
      (phase : Phase) (p : Packet)
      → p.sequence ≡ s.receiver.ack_seq
      → ((k : ℕ) → All (Sent buf_size pos file k) s.packets → Sent buf_size pos file k p)
      → AtPhase buf_size pos file phase s
      → AtPhase buf_size pos file phase (taken p)
  at-taken reading p e f a = absurd (omega (arith, a.0, (f s.sender.pkt_seq a.3).0))
  at-taken waiting p e f a = (Pending-taken p e (f (s.sender.pkt_seq + 1) a.3).0 a.0, a.1, a.2, a.3)
  at-taken finished p e f a = (Pending-taken p e (f (s.sender.pkt_seq + 1) a.1).0 a.0, a.1)

  message-chunk :
      (phase : Phase) (p : Packet)
      → ((k : ℕ) → All (Sent buf_size pos file k) s.packets → Sent buf_size pos file k p)
      → AtPhase buf_size pos file phase s
      → p.message ≡ chunk buf_size pos file p.sequence
  message-chunk reading p f a = (f s.sender.pkt_seq a.3).1
  message-chunk waiting p f a = (f (s.sender.pkt_seq + 1) a.3).1
  message-chunk finished p f a = (f (s.sender.pkt_seq + 1) a.1).1

  -- The receiver writes the chunk of the number that it waits for.
  pub taken-Inv :
      (p : Packet)
      → p.sequence ≡ s.receiver.ack_seq
      → ((k : ℕ) → All (Sent buf_size pos file k) s.packets → Sent buf_size pos file k p)
      → Inv buf_size pos file (taken p)
  taken-Inv p e f = record {
    written =
        ap₂ ◌++◌ h.written (message-chunk s.sender.phase p f h.at ∙ ap (chunk buf_size pos file) e)
        ∙ sym (take_add (s.receiver.ack_seq * buf_size) buf_size file)
        ∙ ap (λ k. take k file) {x = s.receiver.ack_seq * buf_size + buf_size}
            {y = (s.receiver.ack_seq + 1) * buf_size} (omega arith);
    counted = omega (arith, length-append s.receiver.written p.message, h.counted);
    size = h.size;
    at = at-taken s.sender.phase p e f h.at;
  }

  pub acknowledge-Inv :
      (pre rest : List ℕ) (a : ℕ)
      → s.acks ≡ pre ++ a ∷ rest
      → s.sender.phase ≡ waiting
      → Inv buf_size pos file (record s { sender = take_ack s.sender a; acks = pre ++ rest })
  unfolding take_ack
  acknowledge-Inv pre rest a q e =
      let (pending, unread, current, sent) = subst (λ p. AtPhase buf_size pos file p s) e h.at in
      let (ack, same, left) = one_acked pending in
      rw (eq→== a s.sender.pkt_seq same) (record {
        written = h.written;
        counted = h.counted;
        size = h.size;
        at = (ack, left, unread, sent);
      })
    where
      one_acked :
          Pending buf_size pos file s.sender.pkt_seq s
          → (s.receiver.ack_seq ≡ s.sender.pkt_seq + 1)
            × (a ≡ s.sender.pkt_seq)
            × (pre ++ rest ≡ [])
      one_acked (inl (ack, none_left)) = nil-ne-middle pre rest a (sym q ∙ none_left)
      one_acked (inr (ack, inl none_left)) = nil-ne-middle pre rest a (sym q ∙ none_left)
      one_acked (inr (ack, inr one)) =
          let (x, y) = one-eq-middle pre rest a s.sender.pkt_seq (sym q ∙ one) in (ack, x, y)
