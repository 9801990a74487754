-- ===== src/StopWait/Opening.antt =====
-- The file info in front of the packets: `Send_File_Info` of stop_wait_clnt.c, and the first `recvfrom`
-- of stop_wait_serv.c.
use network_camp.Prelude.{ℕ, true, Option, none, some, List, [], ◌∷◌, ◌++◌, ◌≡◌, length}
use network_camp.StopWait.{
  Packet, reading, waiting, Sender, Receiver, sender_round, is_running, receive_packet,
}
use network_camp.StopWait.System.{System, post, file_size_int, Step}

-- `file_t`
pub record FileInfo : Type 0 where
  pub file_name : List ℕ
  pub file_size : ℕ

-- `Send_File_Info`: what is sent; `main` keeps the size.
unfoldable pub send_file_info : List ℕ → List ℕ → FileInfo
send_file_info file_name file = record {
  file_name = file_name;
  file_size = file_size_int (length file);
}

-- What `main` of stop_wait_serv.c does with the first datagram.
abbrev pub receive_file_info : FileInfo → List ℕ × Receiver
receive_file_info info =
    (info.file_name, record { written = []; read_len = 0; file_size = info.file_size; ack_seq = 0 })

-- Both sides, the receiver with the name of its file once it has one, and what is on its way.
pub record Opening : Type 0 where
  pub sender : Sender
  pub listener : Option (List ℕ × Receiver)
  pub infos : List FileInfo
  pub packets : List Packet
  pub acks : List ℕ

-- Once the receiver has its name.
abbrev pub running : Opening → Receiver → System
running o r = record { sender = o.sender; receiver = r; packets = o.packets; acks = o.acks }

abbrev pub with_system : Opening → List ℕ → System → Opening
with_system o name s = record o {
  sender = s.sender;
  listener = some (name, s.receiver);
  packets = s.packets;
  acks = s.acks;
}

abbrev pub announced : List ℕ → List ℕ → Opening
announced file_name file = record {
  sender = record {
    unread = file;
    read_len = 0;
    file_size = (send_file_info file_name file).file_size;
    pkt_seq = 0;
    current_file = none;
    phase = reading;
  };
  listener = none;
  infos = send_file_info file_name file ∷ [];
  packets = [];
  acks = [];
}

module _ (buf_size : ℕ) (as_info : Packet → FileInfo) (as_packet : FileInfo → Packet) where
  -- What can happen before and after the receiver has its first datagram. `as_info` is what the bytes of
  -- a packet are as a `file_t`, and `as_packet` what those of a `file_t` are as a packet.
  pub data Move (o : Opening) : Opening → Type 0 where
    sends :
        o.listener ≡ none
        → o.sender.phase ≡ reading
        → Move o (record o {
          sender = (sender_round buf_size o.sender).0;
          packets = post (sender_round buf_size o.sender).1 o.packets;
        })
    sends_again :
        o.listener ≡ none
        → o.sender.phase ≡ waiting
        → Move o (record o { packets = post o.sender.current_file o.packets })
    loses :
        (pre rest : List Packet) (p : Packet)
        → o.listener ≡ none
        → o.packets ≡ pre ++ p ∷ rest
        → Move o (record o { packets = pre ++ rest })
    doubles :
        (pre rest : List Packet) (p : Packet)
        → o.listener ≡ none
        → o.packets ≡ pre ++ p ∷ rest
        → Move o (record o { packets = p ∷ o.packets })
    doubles_info :
        (pre rest : List FileInfo) (info : FileInfo)
        → o.infos ≡ pre ++ info ∷ rest
        → Move o (record o { infos = info ∷ o.infos })
    loses_info :
        (pre rest : List FileInfo) (info : FileInfo)
        → o.infos ≡ pre ++ info ∷ rest
        → Move o (record o { infos = pre ++ rest })
    opens :
        (pre rest : List FileInfo) (info : FileInfo)
        → o.listener ≡ none
        → o.infos ≡ pre ++ info ∷ rest
        → Move o (record o { listener = some (receive_file_info info); infos = pre ++ rest })
    misreads :
        (pre rest : List Packet) (p : Packet)
        → o.listener ≡ none
        → o.packets ≡ pre ++ p ∷ rest
        → Move o
            (record o { listener = some (receive_file_info (as_info p)); packets = pre ++ rest })
    misreads_info :
        (name : List ℕ) (r : Receiver) (pre rest : List FileInfo) (info : FileInfo)
        → o.listener ≡ some (name, r)
        → is_running r ≡ true
        → o.infos ≡ pre ++ info ∷ rest
        → Move o (record o {
          listener = some (name, (receive_packet r (as_packet info)).0);
          infos = pre ++ rest;
          acks = post (receive_packet r (as_packet info)).1 o.acks;
        })
    goes_on :
        (name : List ℕ) (r : Receiver) (s : System)
        → o.listener ≡ some (name, r)
        → Step buf_size (running o r) s
        → Move o (with_system o name s)

  pub data Moves (o : Opening) : Opening → Type 0 where
    begins : Moves o o
    then_moves : {p q : Opening} → Moves o p → Move p q → Moves o q

  -- The first datagram is the file info, and no other datagram is.
  abbrev pub IsHeard : {o p : Opening} → Moves o p → Type 0
  IsHeard begins = Unit
  IsHeard (then_moves m (sends e f)) = IsHeard m
  IsHeard (then_moves m (sends_again e f)) = IsHeard m
  IsHeard (then_moves m (loses pre rest p e f)) = IsHeard m
  IsHeard (then_moves m (doubles pre rest p e f)) = IsHeard m
  IsHeard (then_moves m (doubles_info pre rest info e)) = IsHeard m
  IsHeard (then_moves m (loses_info pre rest info e)) = IsHeard m
  IsHeard (then_moves m (opens pre rest info e f)) = IsHeard m
  IsHeard (then_moves m (misreads pre rest p e f)) = ⊥
  IsHeard (then_moves m (misreads_info name r pre rest info e f g)) = ⊥
  IsHeard (then_moves m (goes_on name r s e st)) = IsHeard m
