-- ===== src/Tests/Peers.antt =====
-- Tests of the receiving side of the peer-to-peer transfer (p2p.c), and its theorems at work.
use network_camp.Prelude.{ℕ, some, none, List, [], ◌∷◌, ◌≡◌, refl, arith, if◌then◌else◌, ◌==◌}
use network_camp.P2p.{FileInfo, Segment, Receiver}
use network_camp.P2p.Sender.{prepare_file, set_counts, bump_counts, send_info, Sent, send_segment}
use network_camp.P2p.Split.{sent_from, send_segment-eq-sent_from}
use network_camp.P2p.Mesh.{wait_connections, receive_info, connects_to, accepts}
use network_camp.P2p.Mesh.Pairs.{connects_to-receive_info}
use network_camp.P2p.Storage.{
  from_sender, receive_segments, receive_segment, save_segment, signal_finish, flood, fresh,
}
use network_camp.P2p.Storage.Flood.{written_on, written_on-receive_segments}

abbrev pub file : List ℕ
file = 1 ∷ 2 ∷ 3 ∷ 4 ∷ 5 ∷ []

abbrev pub receiver : ℕ → ℕ → ℕ → Receiver
receiver i each port = record {
  nth_receiver = i;
  segment_from_receiver_cnt = each;
  address = 1;
  port = port;
}

abbrev receivers : List Receiver
receivers = receiver 0 0 9000 ∷ receiver 1 0 9001 ∷ []

abbrev pub info : FileInfo
info = record {
  file_name = [];
  total_file_size = 5;
  segment_count = 3;
  segment_size = 2;
  max_receiver_cnt = 2;
}

abbrev pub out : List Sent
out = sent_from 2 2 file 0 3

pub prepared : prepare_file [] 5 2 2 ≡ some info
unfolding prepare_file
prepared = refl

pub sent : send_segment info 2 file ≡ some out
sent = send_segment-eq-sent_from [] file 2 2 info (omega arith) prepared

abbrev pub part : ℕ → List ℕ → Segment
part k bytes = record { nth_segment = k; segment = bytes }

written_on-receive_segments_example :
    written_on 0 ((0, part 0 (7 ∷ [])) ∷ []) ≡ part 0 (7 ∷ []) ∷ []
written_on-receive_segments_example =
    written_on-receive_segments 1 0 (from_sender (part 0 (7 ∷ [])) ∷ []) (fresh 1)
      (record {
        segment_count = 1;
        segment_array = λ k. if k == 0 then some (part 0 (7 ∷ [])) else none;
        current_segment_cnt = 1;
        finished_segment_cnt = 1;
        signals = 1;
      })
      ((0, part 0 (7 ∷ [])) ∷ []) (omega arith)
      (unfold receive_segments receive_segment save_segment signal_finish flood in refl)

abbrev connections : List (Receiver × ℕ)
connections = (receiver 0 0 9000, 1) ∷ (receiver 0 0 9001, 1) ∷ []

accepted : wait_connections 2 0 connections ≡ some receivers
unfolding wait_connections
accepted = refl

announced_all : send_info info receivers ≡ receiver 0 2 9000 ∷ receiver 1 1 9001 ∷ []
unfolding send_info set_counts bump_counts
announced_all = refl

-- The first of two receivers connects to the second one.
connects_to-receive_info_example :
    (connects_to
        (receiver 0 2 9000)
        (receive_info 9000 2 (receiver 0 2 9000 ∷ receiver 1 1 9001 ∷ []))
      ≡ receiver 1 1 9001 ∷ [])
    × (accepts (receiver 0 2 9000) ≡ 0)
connects_to-receive_info_example =
    connects_to-receive_info info 2 connections receivers [] (receiver 1 1 9001 ∷ []) []
      (receiver 0 2 9000) (omega arith) accepted announced_all tt ((λ e. ground arith), tt)

-- A file of one segment, that goes to the only receiver.
abbrev pub short : List ℕ
short = 7 ∷ []

abbrev pub info_one : FileInfo
info_one = record {
  file_name = [];
  total_file_size = 1;
  segment_count = 1;
  segment_size = 2;
  max_receiver_cnt = 1;
}

pub prepared_one : prepare_file [] 1 2 1 ≡ some info_one
unfolding prepare_file
prepared_one = refl

pub sent_one : send_segment info_one 1 short ≡ some (sent_from 2 1 short 0 1)
sent_one = send_segment-eq-sent_from [] short 2 1 info_one (omega arith) prepared_one
