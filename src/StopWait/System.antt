-- ===== src/StopWait/System.antt =====
-- The sender (stop_wait_clnt.c) and the receiver (stop_wait_serv.c) over a network that may lose,
-- delay, reorder and repeat packets and acknowledgements. The file info that the
-- sender sends first has arrived.

use network_camp.Prelude.{
  ℕ, ◌%◌, ◌<◌, arith, Option, none, some, List, [], ◌∷◌, ◌++◌, ◌≡◌, true, length, ltb,
  if◌then◌else◌,
}
use network_camp.Transfer.Int.{int_size, int_half}
use network_camp.StopWait.{
  Packet, reading, waiting, Sender, Receiver, sender_round, take_ack, is_running, receive_packet,
}

-- Both sides, and what is on its way in each direction.
pub record System : Type 0 where
  pub sender : Sender
  pub receiver : Receiver
  pub packets : List Packet
  pub acks : List ℕ

-- A datagram that was sent, if any, in front of those on their way.
abbrev pub post {ℓ} : {A : Type ℓ} → Option A → List A → List A
post none net = net
post (some d) net = d ∷ net

-- `file_size`, which is an `int`, for the `long` that `ftell` returns. It is only compared with a number of
-- bytes, so that 0 stands for what is below 0.
unfoldable pub file_size_int : ℕ → ℕ
file_size_int size = let low = size % int_size in if ltb low int_half then low else 0

-- Below 2 ^ 31 bytes the size that is sent is the size.
pub file_size_int-length : (n : ℕ) → n < int_half → file_size_int n ≡ n
unfolding file_size_int
file_size_int-length n lt = ground arith

-- Both sides with a size, before the first packet.
abbrev pub sized : ℕ → List ℕ → System
sized size file = record {
  sender = record {
    unread = file;
    read_len = 0;
    file_size = size;
    pkt_seq = 0;
    current_file = none;
    phase = reading;
  };
  receiver = record { written = []; read_len = 0; file_size = size; ack_seq = 0 };
  packets = [];
  acks = [];
}

abbrev pub start : List ℕ → System
start file = sized (file_size_int (length file)) file

module _ (buf_size : ℕ) where
  -- What can happen next. `expire` is `recvfrom` interrupted by the alarm.
  pub data Step (s : System) : System → Type 0 where
    transmit :
        s.sender.phase ≡ reading
        → Step s (record s {
          sender = (sender_round buf_size s.sender).0;
          packets = post (sender_round buf_size s.sender).1 s.packets;
        })
    expire :
        s.sender.phase ≡ waiting
        → Step s (record s { packets = post s.sender.current_file s.packets })
    deliver :
        (pre rest : List Packet) (p : Packet)
        → s.packets ≡ pre ++ p ∷ rest
        → is_running s.receiver ≡ true
        → Step s (record s {
          receiver = (receive_packet s.receiver p).0;
          packets = pre ++ rest;
          acks = post (receive_packet s.receiver p).1 s.acks;
        })
    acknowledge :
        (pre rest : List ℕ) (ack_seq : ℕ)
        → s.acks ≡ pre ++ ack_seq ∷ rest
        → s.sender.phase ≡ waiting
        → Step s (record s { sender = take_ack s.sender ack_seq; acks = pre ++ rest })
    lose_packet :
        (pre rest : List Packet) (p : Packet)
        → s.packets ≡ pre ++ p ∷ rest
        → Step s (record s { packets = pre ++ rest })
    duplicate_packet :
        (pre rest : List Packet) (p : Packet)
        → s.packets ≡ pre ++ p ∷ rest
        → Step s (record s { packets = p ∷ s.packets })
    duplicate_ack :
        (pre rest : List ℕ) (ack_seq : ℕ)
        → s.acks ≡ pre ++ ack_seq ∷ rest
        → Step s (record s { acks = ack_seq ∷ s.acks })
    lose_ack :
        (pre rest : List ℕ) (ack_seq : ℕ)
        → s.acks ≡ pre ++ ack_seq ∷ rest
        → Step s (record s { acks = pre ++ rest })

  pub data Steps (s : System) : System → Type 0 where
    here : Steps s s
    next : {t u : System} → Steps s t → Step t u → Steps s u

  -- The states that a transfer of a file can be in.
  abbrev pub Reach : List ℕ → System → Type 0
  Reach file s = Steps (start file) s

  -- No acknowledgement is repeated.
  abbrev pub IsOnce : {s t : System} → Step s t → Type 0
  IsOnce (transmit e) = Unit
  IsOnce (expire e) = Unit
  IsOnce (deliver pre rest p e f) = Unit
  IsOnce (acknowledge pre rest a e f) = Unit
  IsOnce (lose_packet pre rest p e) = Unit
  IsOnce (duplicate_packet pre rest p e) = Unit
  IsOnce (duplicate_ack pre rest a e) = ⊥
  IsOnce (lose_ack pre rest a e) = Unit

  abbrev pub AcksOnce : {s t : System} → Steps s t → Type 0
  AcksOnce here = Unit
  AcksOnce (next r st) = AcksOnce r × IsOnce st

  -- The steps from one state to another, where no acknowledgement is repeated.
  abbrev pub StepsOnce : System → System → Type 0
  StepsOnce s t = (r : Steps s t) × AcksOnce r
