-- ===== src/StopWait.antt =====
-- The stop-and-wait file transfer over UDP: 숙제#2/Client Code(Sender)/stop_wait_clnt.c and
-- 숙제#2/Server Code(Receiver)/stop_wait_serv.c, for any value of BUF_SIZE (4096 in both files).
pub mod System
pub mod Invariant
pub mod Moves
pub mod Safety
pub mod Stall
pub mod Delivery
pub mod Repeated
pub mod Opening
pub mod Heard
use network_camp.Prelude.{
  ℕ, suc, ◌+◌, Bool, Option, none, some, List, [], ◌∷◌, ◌++◌, if◌then◌else◌, ◌==◌, ltb, length,
  take, drop,
}

-- `packet_t`; `message` is the array up to `message_size`.
pub record Packet : Type 0 where
  pub sequence : ℕ
  pub message : List ℕ

-- Where the sender stands: at the head of the loop in `main`, in `recvfrom` of `Wait_For_ACK`, or
-- behind the loop.
pub data Phase : Type 0 where
  reading waiting finished : Phase

-- The sender: the bytes of the file that `fread` has not returned yet, the locals `read_len` and
-- `file_size`, and the globals `pkt_seq` and `current_file`.
pub record Sender : Type 0 where
  pub unread : List ℕ
  pub read_len : ℕ
  pub file_size : ℕ
  pub pkt_seq : ℕ
  pub current_file : Option Packet
  pub phase : Phase

-- The receiver: the bytes that `fwrite` has written, and its locals.
pub record Receiver : Type 0 where
  pub written : List ℕ
  pub read_len : ℕ
  pub file_size : ℕ
  pub ack_seq : ℕ

module _ (buf_size : ℕ) where
  -- A round of the sender's loop, from its test to `Wait_For_ACK` or to the end of the loop, and the
  -- packet that `Send_Packet` sends on the way, if any.
  unfoldable pub sender_round : Sender → Sender × Option Packet
  sender_round s =
      let message = take buf_size s.unread in
      let bytes_read = length message in
      let packet : Packet = record { sequence = s.pkt_seq; message = message } in
      let sent : Option Packet = if ltb 0 bytes_read then some packet else none in
      if ltb s.read_len s.file_size
      then (
        record {
          unread = drop buf_size s.unread;
          read_len = s.read_len + bytes_read;
          file_size = s.file_size;
          pkt_seq = s.pkt_seq;
          current_file = if ltb 0 bytes_read then some packet else s.current_file;
          phase = if ltb bytes_read buf_size then finished else waiting;
        },
        sent,
      )
      else (record s { phase = finished }, none)

-- `Wait_For_ACK` once `recvfrom` returns a sequence number: any of them ends the wait.
unfoldable pub take_ack : Sender → ℕ → Sender
take_ack s ack_seq =
    if ack_seq == s.pkt_seq
    then record s { pkt_seq = s.pkt_seq + 1; phase = reading }
    else record s { phase = reading }

-- The test of the receiver's loop.
abbrev pub is_running : Receiver → Bool
is_running r = ltb r.read_len r.file_size

-- The body of the receiver's loop for a packet, and the acknowledgement that it sends.
unfoldable pub receive_packet : Receiver → Packet → Receiver × Option ℕ
receive_packet r p =
    if p.sequence == r.ack_seq
    then (
      record {
        written = r.written ++ p.message;
        read_len = r.read_len + length p.message;
        file_size = r.file_size;
        ack_seq = r.ack_seq + 1;
      },
      some p.sequence,
    )
    else (r, none)
