-- ===== src/P2p/Session.antt =====
-- `main` of p2p.c: the sender from its file to the segments that it has written, and a receiver up to the
-- segments that its connections bring.
pub mod Spread
pub mod Whole
use network_camp.Prelude.{
  ℕ, Bool, true, ◌&&◌, ◌+◌, zero, suc, Option, none, some, List, [], ◌∷◌, if◌then◌else◌, ◌==◌,
  length, ◌>>=◌,
}
use network_camp.P2p.{FileInfo, Segment, Receiver}
use network_camp.P2p.Sender.{prepare_file, send_info, Sent, send_segment}
use network_camp.P2p.Mesh.{wait_connections, receive_info}
use network_camp.P2p.Storage.Assembled.{written_to}
use network_camp.P2p.Stream.{Item, read_segments}
use network_camp.P2p.Threads.{Role, accpt_snd_seg, accpt_rcv_seg}

-- What the sender has when it ends: `file_info` and `receiver_array` as they were sent, and the segments.
pub record Sending : Type 0 where
  pub file_info : FileInfo
  pub receiver_array : List Receiver
  pub segments : List Sent

-- `main` of the sender, for the connections in the order in which they come.
unfoldable pub sender_main : List ℕ → List ℕ → ℕ → ℕ → List (Receiver × ℕ) → Option Sending
sender_main file_name file segment_size receiver_max conns =
    prepare_file file_name (length file) segment_size receiver_max >>= λ info.
    wait_connections receiver_max 0 conns >>= λ receivers.
    send_segment info receiver_max file >>= λ out.
    some (record { file_info = info; receiver_array = send_info info receivers; segments = out })

-- Whether the first `n` reads are whole: those of the `file_info_t` and of each `receiver_t`.
unfoldable pub all_whole : (ℕ → Bool) → ℕ → Bool
all_whole whole zero = true
all_whole whole (suc n) = whole n && all_whole whole n

-- `main` of a receiver up to its thread `accpt_snd_seg`: `Receive_Info`, then the segments that the sender
-- was to write to this one. `none` where it does not find itself, and where
-- `read` returns a part of a structure: what follows is then taken at the wrong place.
unfoldable pub receiver_main :
    (ℕ → ℕ)
    → (ℕ → Bool)
    → ℕ
    → FileInfo
    → List Receiver
    → List Item
    → Option (List Segment × List Item)
unfolding all_whole
receiver_main limits whole this_port info sent stream =
    let told = info.max_receiver_cnt + 1 in
    let taken = (receive_info this_port info.max_receiver_cnt sent).this_receiver >>= λ this.
    read_segments limits whole this.segment_from_receiver_cnt told stream in
    if all_whole whole told then taken else none

-- What the threads of receiver `i` have to read: the one for the sender the segments that it writes to
-- `i`, and the one for each other receiver `j` those that it writes to `j`, which `flood_segment` of `j`
-- passes on.
unfoldable pub peer_threads : ℕ → ℕ → List Sent → List (Role × List Segment)
peer_threads i zero out = []
peer_threads i (suc j) out =
    (if j == i then accpt_snd_seg else accpt_rcv_seg, written_to j out) ∷ peer_threads i j out
