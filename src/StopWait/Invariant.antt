-- ===== src/StopWait/Invariant.antt =====
-- What holds in every state of a transfer (stop_wait_clnt.c, stop_wait_serv.c).
use network_camp.Prelude.{
  ℕ, ◌+◌, ◌*◌, ◌<◌, Bool, true, false, Option, none, some, List, [], ◌∷◌, ◌≡◌, ◌⊎◌, inl, inr, refl,
  ap, sym, subst, ◌∙◌, arith, if◌then◌else◌, ltb, length, take, drop, All, All-map, drop-drop,
  Bool-cases,
}
use network_camp.Transfer.Int.{int_half}
use network_camp.StopWait.{Packet, Phase, reading, waiting, finished, Sender, sender_round}
use network_camp.StopWait.System.{System, post, file_size_int-length, sized, start}

module _ (buf_size : ℕ) (pos : 0 < buf_size) (file : List ℕ) where
  -- The bytes that belong to a sequence number.
  abbrev pub chunk : ℕ → List ℕ
  chunk k = take buf_size (drop (k * buf_size) file)

  -- A packet that was sent, with a number below the limit.
  abbrev pub Sent : ℕ → Packet → Type 0
  Sent limit p = (p.sequence < limit) × (p.message ≡ chunk p.sequence)

  -- Whether the packet of number `k` has been acknowledged, and what is on its way.
  abbrev pub Pending : ℕ → System → Type 0
  Pending k s =
      (s.receiver.ack_seq ≡ k) × (s.acks ≡ [])
      ⊎ (s.receiver.ack_seq ≡ k + 1) × ((s.acks ≡ []) ⊎ (s.acks ≡ k ∷ []))

  abbrev pub AtPhase : Phase → System → Type 0
  AtPhase reading s =
      (s.receiver.ack_seq ≡ s.sender.pkt_seq)
      × (s.acks ≡ [])
      × (s.sender.unread ≡ drop (s.sender.pkt_seq * buf_size) file)
      × All (Sent s.sender.pkt_seq) s.packets
  AtPhase waiting s =
      Pending s.sender.pkt_seq s
      × (s.sender.unread ≡ drop ((s.sender.pkt_seq + 1) * buf_size) file)
      × (s.sender.current_file
          ≡ some (record { sequence = s.sender.pkt_seq; message = chunk s.sender.pkt_seq }))
      × All (Sent (s.sender.pkt_seq + 1)) s.packets
  AtPhase finished s = Pending s.sender.pkt_seq s × All (Sent (s.sender.pkt_seq + 1)) s.packets

  pub record Inv (s : System) : Type 0 where
    pub written : s.receiver.written ≡ take (s.receiver.ack_seq * buf_size) file
    pub counted : s.receiver.read_len ≡ length s.receiver.written
    pub size : s.receiver.file_size ≡ length file
    pub at : AtPhase s.sender.phase s

  Inv-sized : Inv (sized (length file) file)
  Inv-sized = record {
    written = ap (λ k. take k file) {x = 0} {y = 0 * buf_size} (omega arith);
    counted = refl;
    size = refl;
    at = (refl, refl, ap (λ k. drop k file) {x = 0} {y = 0 * buf_size} (omega arith), tt);
  }

  pub Inv-start : length file < int_half → Inv (start file)
  Inv-start lt =
      subst Inv (ap (λ n. sized n file) (sym (file_size_int-length (length file) lt))) Inv-sized

  Sent-later : (k : ℕ) (ps : List Packet) → All (Sent k) ps → All (Sent (k + 1)) ps
  Sent-later k ps h = All-map (λ p q. (omega arith, q.1)) ps h

  -- The state after a round of the sender with a given outcome.
  abbrev pub after_round : System → Sender × Option Packet → System
  after_round s r = record s { sender = r.0; packets = post r.1 s.packets }

  module _ (s : System) (h : Inv s) (e : s.sender.phase ≡ reading) where
    abbrev packet : Packet
    packet = record { sequence = s.sender.pkt_seq; message = take buf_size s.sender.unread }

    ready : AtPhase reading s
    ready = subst (λ p. AtPhase p s) e h.at

    packet-Sent : Sent (s.sender.pkt_seq + 1) packet
    packet-Sent = (omega arith, ap (take buf_size) ready.2)

    packets-Sent :
        (b : Bool)
        → All (Sent (s.sender.pkt_seq + 1)) (post (if b then some packet else none) s.packets)
    packets-Sent true = (packet-Sent, Sent-later s.sender.pkt_seq s.packets ready.3)
    packets-Sent false = Sent-later s.sender.pkt_seq s.packets ready.3

    over-Inv : Inv (after_round s (record s.sender { phase = finished }, none))
    over-Inv = record {
      written = h.written;
      counted = h.counted;
      size = h.size;
      at = (inl (ready.0, ready.1), packets-Sent false);
    }

    short-Inv :
        (b : Bool) (n : ℕ) (c : Option Packet)
        → Inv (
            after_round s (
              record {
                unread = drop buf_size s.sender.unread;
                read_len = n;
                file_size = s.sender.file_size;
                pkt_seq = s.sender.pkt_seq;
                current_file = c;
                phase = finished;
              },
              if b then some packet else none,
            ))
    short-Inv b n c = record {
      written = h.written;
      counted = h.counted;
      size = h.size;
      at = (inl (ready.0, ready.1), packets-Sent b);
    }

    full-Inv :
        (n : ℕ)
        → Inv (
            after_round s (
              record {
                unread = drop buf_size s.sender.unread;
                read_len = n;
                file_size = s.sender.file_size;
                pkt_seq = s.sender.pkt_seq;
                current_file = some packet;
                phase = waiting;
              },
              some packet,
            ))
    full-Inv n = record {
      written = h.written;
      counted = h.counted;
      size = h.size;
      at = (
        inl (ready.0, ready.1),
        ap (drop buf_size) ready.2
            ∙ drop-drop buf_size (s.sender.pkt_seq * buf_size) file
            ∙ ap (λ k. drop k file) {x = s.sender.pkt_seq * buf_size + buf_size}
                {y = (s.sender.pkt_seq + 1) * buf_size} (omega arith),
        ap (λ m. some (record { sequence = s.sender.pkt_seq; message = m }))
            (ap (take buf_size) ready.2),
        packets-Sent true,
      );
    }

    -- The next packet is the chunk of its number.
    pub round-Inv : Inv (after_round s (sender_round buf_size s.sender))
    unfolding sender_round
    round-Inv = elim (Bool-cases (ltb s.sender.read_len s.sender.file_size)) [
      | inr over ↦ rw (over, sender_round) over-Inv
      | inl more ↦ elim (Bool-cases (ltb (length (take buf_size s.sender.unread)) buf_size)) [
        | inl short ↦
            rw (more, short)
              (short-Inv (ltb 0 (length (take buf_size s.sender.unread)))
                (s.sender.read_len + length (take buf_size s.sender.unread))
                (if ltb 0 (length (take buf_size s.sender.unread))
                  then some packet
                  else s.sender.current_file))
        | inr full ↦
            let long : ltb 0 (length (take buf_size s.sender.unread)) ≡ true = ground arith in
            rw (more, full, long)
              (full-Inv (s.sender.read_len + length (take buf_size s.sender.unread)))
      ]
    ]
