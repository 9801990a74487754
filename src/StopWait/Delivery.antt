-- ===== src/StopWait/Delivery.antt =====
-- What a network can do to a transfer (stop_wait_clnt.c, stop_wait_serv.c): if it loses nothing the
-- file arrives; if it loses the first acknowledgement the transfer stalls.
use network_camp.Prelude.{
  ℕ, zero, suc, ◌+◌, ◌≤◌, ◌<◌, true, false, Option, none, some, List, [], ◌∷◌, ◌++◌, ◌≡◌, refl, ap,
  sym, subst, ◌∙◌, arith, if◌then◌else◌, ltb, length, take, drop, length-take, length-drop,
  take_all, take-append-drop, append_assoc, append-nil, dec_lt, eq→==,
}
use network_camp.Transfer.Int.{int_half}
use network_camp.StopWait.{
  Packet, Phase, reading, waiting, finished, Sender, Receiver, sender_round, take_ack, is_running,
  receive_packet,
}
use network_camp.StopWait.System.{
  System, post, file_size_int-length, sized, start, transmit, deliver, acknowledge, lose_ack, Steps,
  here, next, Reach, AcksOnce, StepsOnce,
}
use network_camp.StopWait.Stall.{IsStalled, stalled_for_ever}

-- Both sides between two rounds, `n` bytes into a file of `size` bytes.
abbrev pub between : ℕ → ℕ → ℕ → List ℕ → List ℕ → Option Packet → System
between size k n unread written current = record {
  sender = record {
    unread = unread;
    read_len = n;
    file_size = size;
    pkt_seq = k;
    current_file = current;
    phase = reading;
  };
  receiver = record { written = written; read_len = n; file_size = size; ack_seq = k };
  packets = [];
  acks = [];
}

module _ (b size k n : ℕ) (unread written : List ℕ) (current : Option Packet) where
  abbrev pub bytes : List ℕ
  bytes = take b unread

  abbrev pub packet : Packet
  packet = record { sequence = k; message = bytes }

  -- The sender after a round that sends.
  abbrev pub sent : Phase → Sender
  sent phase = record {
    unread = drop b unread;
    read_len = n + length bytes;
    file_size = size;
    pkt_seq = k;
    current_file = some packet;
    phase = phase;
  }

  abbrev pub received : Receiver
  received = record {
    written = written ++ bytes;
    read_len = n + length bytes;
    file_size = size;
    ack_seq = k + 1;
  }

  abbrev on_the_way : Phase → System
  on_the_way phase = record {
    sender = sent phase;
    receiver = record { written = written; read_len = n; file_size = size; ack_seq = k };
    packets = packet ∷ [];
    acks = [];
  }

  -- The packet has arrived, and its acknowledgement is on its way.
  abbrev pub arrived : Phase → System
  arrived phase = record { sender = sent phase; receiver = received; packets = []; acks = k ∷ [] }

  pub round_eq :
      (phase : Phase)
      → n < size
      → 0 < length bytes
      → (if ltb (length bytes) b then finished else waiting) ≡ phase
      → sender_round b (between size k n unread written current).sender ≡ (sent phase, some packet)
  unfolding sender_round
  round_eq phase more some_bytes e =
      let t : ltb n size ≡ true = ground arith in
      let u : ltb 0 (length bytes) ≡ true = ground arith in rw (t, u, e)

  pub receive_eq :
      receive_packet (between size k n unread written current).receiver packet ≡ (received, some k)
  unfolding receive_packet
  receive_eq = rw (eq→== k k refl)

  pub arrives :
      (s : System) (phase : Phase)
      → n < size
      → 0 < length bytes
      → (if ltb (length bytes) b then finished else waiting) ≡ phase
      → StepsOnce b s (between size k n unread written current)
      → StepsOnce b s (arrived phase)
  arrives s phase more some_bytes e r =
      let start_at = between size k n unread written current in
      let at_once : StepsOnce b s (on_the_way phase) =
        subst (StepsOnce b s)
          (ap
            (λ (o : Sender × Option Packet). record start_at {
              sender = o.0;
              packets = post o.1 [];
            })
            (round_eq phase more some_bytes e))
          (next r.0 (transmit refl), (r.1, tt)) in
      subst (StepsOnce b s)
        (ap
          (λ (o : Receiver × Option ℕ). record (on_the_way phase) {
            receiver = o.0;
            packets = [];
            acks = post o.1 [];
          })
          receive_eq)
        (next at_once.0 (deliver [] [] packet refl (ground arith)), (at_once.1, tt))

  -- A whole round: the next chunk is sent, taken and acknowledged.
  full_round :
      (s : System)
      → n < size
      → 0 < b
      → b ≤ length unread
      → StepsOnce b s (between size k n unread written current)
      → StepsOnce b s
          (between size (k + 1) (n + length bytes) (drop b unread) (written ++ bytes) (some packet))
  unfolding take_ack
  full_round s more pos long r =
      let full : length bytes ≡ b = omega (arith, length-take b unread) in
      let e : (if ltb (length bytes) b then finished else waiting) ≡ waiting = ground arith in
      let before = arrives s waiting more (omega arith) e r in
      subst (StepsOnce b s) (rw (eq→== k k refl))
        (next before.0 (acknowledge [] [] k refl refl), (before.1, tt))

-- How a transfer ends well.
record Delivered (b : ℕ) (s : System) (file : List ℕ) : Type 0 where
  last : System
  run : StepsOnce b s last
  complete : last.receiver.written ≡ file
  stopped : is_running last.receiver ≡ false
  ended : last.sender.phase ≡ finished

module _ (b size : ℕ) (pos : 0 < b) (s : System) where
  -- The sender finds that all is sent.
  at_end :
      (k n : ℕ) (unread written : List ℕ) (current : Option Packet)
      → ¬ (n < size)
      → n + length unread ≡ size
      → StepsOnce b s (between size k n unread written current)
      → Delivered b s (written ++ unread)
  unfolding sender_round
  at_end k n (x ∷ unread) written current over e r = absurd (omega arith)
  at_end k n [] written current over e r =
      let t : ltb n size ≡ false = ground arith in
      record {
        last = record (between size k n [] written current) {
          sender = record {
            unread = [];
            read_len = n;
            file_size = size;
            pkt_seq = k;
            current_file = current;
            phase = finished;
          };
        };
        run = subst (StepsOnce b s) (rw t) (next r.0 (transmit refl), (r.1, tt));
        complete = sym (append-nil written);
        stopped = t;
        ended = refl;
      }

  -- The last packet is shorter than the others.
  at_last :
      (k n : ℕ) (unread written : List ℕ) (current : Option Packet)
      → n < size
      → length unread < b
      → n + length unread ≡ size
      → StepsOnce b s (between size k n unread written current)
      → Delivered b s (written ++ unread)
  at_last k n unread written current more short e r =
      let all : take b unread ≡ unread = take_all b unread (omega arith) in
      let len : length (take b unread) ≡ length unread = ap length all in
      let phase : (if ltb (length (take b unread)) b then finished else waiting) ≡ finished =
        ground arith in
      record {
        last = arrived b size k n unread written current finished;
        run = arrives b size k n unread written current s finished more (omega arith) phase r;
        complete = ap (◌++◌ written) all;
        stopped = ground arith;
        ended = refl;
      }

  delivers :
      (fuel k n : ℕ) (unread written : List ℕ) (current : Option Packet)
      → length unread ≤ fuel
      → n + length unread ≡ size
      → StepsOnce b s (between size k n unread written current)
      → Delivered b s (written ++ unread)
  delivers zero k n unread written current h e r =
      at_end k n unread written current (omega arith) e r
  delivers (suc fuel) k n unread written current h e r = elim (dec_lt n size) [
    | no over ↦ at_end k n unread written current over e r
    | yes more ↦ elim (dec_lt (length unread) b) [
      | yes short ↦ at_last k n unread written current more short e r
      | no long ↦
          let rest =
            delivers fuel (k + 1) (n + length (take b unread)) (drop b unread)
              (written ++ take b unread) (some (record { sequence = k; message = take b unread }))
              (omega (arith, length-drop b unread))
              (omega (arith, length-take b unread, length-drop b unread))
              (full_round b size k n unread written current s more pos (omega arith) r) in
          subst (Delivered b s)
            (append_assoc written (take b unread) (drop b unread)
              ∙ ap (◌++◌ written) (take-append-drop b unread))
            rest
    ]
  ]

-- The state at the start, with the size of the file.
pub starts :
    (b : ℕ) (file : List ℕ)
    → length file < int_half
    → StepsOnce b (start file) (between (length file) 0 0 file [] none)
starts b file lt =
    subst (λ n. StepsOnce b (start file) (sized n file)) (file_size_int-length (length file) lt)
      (here, tt)

-- For a BUF_SIZE that is not 0 every file below 2 ^ 31 bytes can be transferred: there is a run,
-- without an acknowledgement being repeated, at the end of which both loops have ended and the
-- receiver has written the file.
pub delivery :
    (b : ℕ) (file : List ℕ)
    → 0 < b
    → length file < int_half
    → (t : System) × (r : Reach b file t) × AcksOnce b r
      × (t.receiver.written ≡ file)
      × (is_running t.receiver ≡ false)
      × (t.sender.phase ≡ finished)
delivery b file pos lt =
    let d =
      delivers b (length file) pos (start file) (length file) 0 0 file [] none (omega arith)
        (omega arith) (starts b file lt) in
    (d.last, d.run.0, d.run.1, d.complete, d.stopped, d.ended)

-- For every file that fills a packet, and a BUF_SIZE that is not 0, the transfer can come to a
-- state where the sender waits for an acknowledgement that was lost (`IsStalled`).
stall_reachable :
    (b : ℕ) (file : List ℕ)
    → 0 < b
    → b ≤ length file
    → length file < int_half
    → (s : System) × StepsOnce b (start file) s × IsStalled s
stall_reachable b file pos long lt =
    let full : length (take b file) ≡ b = omega (arith, length-take b file) in
    let phase : (if ltb (length (take b file)) b then finished else waiting) ≡ waiting =
      ground arith in
    let before =
      arrives b (length file) 0 0 file [] none (start file) waiting (omega arith) (omega arith)
        phase (starts b file lt) in
    (
      record (arrived b (length file) 0 0 file [] none waiting) { acks = [] },
      (next before.0 (lose_ack [] [] 0 refl), (before.1, tt)),
      record { waits = refl; acked = refl; lost = refl },
    )

-- For every file that fills a packet and is below 2 ^ 31 bytes, and a BUF_SIZE that is not 0, the
-- transfer can come to a state where the sender waits and nothing that happens later changes the
-- sender or the receiver.
pub stalls_for_ever :
    (b : ℕ) (file : List ℕ)
    → 0 < b
    → b ≤ length file
    → length file < int_half
    → (s : System) × Reach b file s
      × (s.sender.phase ≡ waiting)
      × ((t : System) → Steps b s t → (t.sender ≡ s.sender) × (t.receiver ≡ s.receiver))
stalls_for_ever b file pos long lt =
    let (s, reach, stall) = stall_reachable b file pos long lt in
    (
      s,
      reach.0,
      stall.waits,
      λ t rest. stalled_for_ever b file s t reach.0 pos lt reach.1 stall rest,
    )
