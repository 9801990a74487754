-- ===== src/P2p/Display.antt =====
-- The progress that p2p.c shows, but for the times and throughputs: Print_Sender_Progress,
-- Print_Receiver_Progress and their calls.
pub mod Sending
pub mod Receiving
use network_camp.Prelude.{
  ℕ, ◌+◌, Option, none, some, List, [], ◌∷◌, if◌then◌else◌, ◌==◌, leb, length, ◌>>=◌,
}
use network_camp.Progress.{Bar, bar}
use network_camp.P2p.{FileInfo, Segment, Receiver}
use network_camp.P2p.Sender.{Sent}

-- What a call prints: the bar with the bytes behind it, below it the line of a segment, with the peer
-- (none for -1) and its bytes, and how many lines the cursor moves down at the end.
pub record Shown : Type 0 where
  pub total_bar : Bar
  pub accum_sent_len : ℕ
  pub line : ℕ
  pub peer_num : Option ℕ
  pub sent_len : ℕ
  pub moves_down : ℕ

-- `none` where the program ends by the division by 0.
unfoldable pub print_sender_progress : FileInfo → ℕ → ℕ → ℕ → ℕ → Option Shown
print_sender_progress info accum count peer_num sent_len = bar accum info.total_file_size >>= λ b.
    some (record {
      total_bar = b;
      accum_sent_len = accum;
      line = count + 1;
      peer_num = some peer_num;
      sent_len = sent_len;
      moves_down = if leb info.total_file_size accum then count + 2 else 0;
    })

unfoldable pub print_receiver_progress : FileInfo → ℕ → ℕ → Option ℕ → ℕ → Option Shown
print_receiver_progress info accum count peer_num sent_len = bar accum info.total_file_size >>= λ b.
    some (record {
      total_bar = b;
      accum_sent_len = accum;
      line = count + 1;
      peer_num = peer_num;
      sent_len = sent_len;
      moves_down = 0;
    })

-- What `Send_Segment` shows while it sends, with `accum` bytes sent before.
unfoldable pub show_sent : FileInfo → ℕ → List Sent → Option (List Shown)
unfolding print_sender_progress
show_sent info accum [] = some []
show_sent info accum (s ∷ sent) =
    let bytes_read = length s.file_segment.segment in
    let later = show_sent info (accum + bytes_read) sent in
    print_sender_progress info (accum + bytes_read) s.file_segment.nth_segment s.rr_index bytes_read
    >>= λ shown. later >>= λ rest. some (shown ∷ rest)

-- `Find_Nth_Receiver` over `recv_sock_array` and `receiver_array`, which it reads side by side; `none`
-- for -1.
unfoldable pub find_nth_receiver : List ℕ → List Receiver → ℕ → Option ℕ
find_nth_receiver [] receivers sockfd = none
find_nth_receiver (sock ∷ socks) [] sockfd = none
find_nth_receiver (sock ∷ socks) (r ∷ receivers) sockfd =
    let later = find_nth_receiver socks receivers sockfd in
    if sock == sockfd then some r.nth_receiver else later

-- A segment that was stored, by `accpt_snd_seg` or by the `accpt_rcv_seg` of a socket.
pub data Stored : Type 0 where
  by_sender : Segment → Stored
  by_receiver : (recv_sock : ℕ) → Segment → Stored

abbrev pub stored_segment : Stored → Segment
stored_segment (by_sender s) = s
stored_segment (by_receiver sock s) = s

module _ (socks : List ℕ) (receivers : List Receiver) where
  unfoldable pub peer_of : Stored → Option ℕ
  unfolding find_nth_receiver
  peer_of (by_sender s) = none
  peer_of (by_receiver recv_sock s) = find_nth_receiver socks receivers recv_sock

  -- What the threads of a receiving peer show between lock and unlock, one after the other, with the
  -- bytes and the segments counted before.
  unfoldable pub show_stored : FileInfo → ℕ → ℕ → List Stored → Option (List Shown)
  unfolding print_receiver_progress peer_of
  show_stored info accum current_segment_cnt [] = some []
  show_stored info accum current_segment_cnt (e ∷ events) =
      let sement_size = length (stored_segment e).segment in
      let later = show_stored info (accum + sement_size) (current_segment_cnt + 1) events in
      print_receiver_progress info (accum + sement_size) current_segment_cnt (peer_of e) sement_size
      >>= λ shown. later >>= λ rest. some (shown ∷ rest)
