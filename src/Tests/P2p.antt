-- ===== src/Tests/P2p.antt =====
-- Tests of the peer-to-peer transfer (p2p.c), and its theorems at work.
use network_camp.Prelude.{ℕ, some, List, [], ◌∷◌, ◌≡◌, refl, arith}
use network_camp.P2p.{FileInfo, Receiver}
use network_camp.P2p.Sender.{prepare_file, send_info, set_counts, bump_counts, send_segment}
use network_camp.P2p.Split.{sent_from, send_segment-eq-sent_from}
use network_camp.P2p.Share.{announced}

abbrev file : List ℕ
file = 1 ∷ 2 ∷ 3 ∷ 4 ∷ 5 ∷ []

abbrev receiver : ℕ → Receiver
receiver i = record { nth_receiver = i; segment_from_receiver_cnt = 0; address = 1; port = 9000 }

abbrev receivers : List Receiver
receivers = receiver 0 ∷ receiver 1 ∷ []

-- Five bytes in segments of two: three segments.
abbrev info : FileInfo
info = record {
  file_name = [];
  total_file_size = 5;
  segment_count = 3;
  segment_size = 2;
  max_receiver_cnt = 2;
}

prepare_file_test : prepare_file [] 5 2 2 ≡ some info
unfolding prepare_file
prepare_file_test = refl

send_segment-eq-sent_from_example : send_segment info 2 file ≡ some (sent_from 2 2 file 0 3)
send_segment-eq-sent_from_example =
    send_segment-eq-sent_from [] file 2 2 info (omega arith) prepare_file_test

-- The second of two receivers gets one of three segments.
announced_test : announced 1 (send_info info receivers) ≡ some 1
unfolding send_info
announced_test = unfold set_counts bump_counts in refl
