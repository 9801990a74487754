-- ===== src/Tests/Transfer.antt =====
-- A whole transfer of the peer-to-peer program (p2p.c) at work.
use network_camp.Prelude.{ℕ, true, some, List, [], ◌∷◌, ◌≡◌, refl, arith}
use network_camp.P2p.{Receiver}
use network_camp.P2p.Split.{sent_from}
use network_camp.P2p.Storage.{write_file}
use network_camp.P2p.Sender.{send_info, set_counts, bump_counts}
use network_camp.P2p.Mesh.{wait_connections}
use network_camp.P2p.Storage.Assembled.{written_to}
use network_camp.P2p.Stream.{wires}
use network_camp.P2p.Threads.{
  Process, Steps, WaitsApart, here, next, run, wait, write, written, begin, move, store_segment,
  count_current, count_finished, signal_finished,
}
use network_camp.P2p.Session.{Sending, sender_main, receiver_main, peer_threads}
use network_camp.P2p.Session.Whole.{transfer-written, transfer-completes}
use network_camp.Tests.Peers.{
  short, info_one, prepared_one, sent_one, file, info, out, prepared, sent, receiver,
}

-- The second receiver connects from another port than the first.
abbrev connections : List (Receiver × ℕ)
connections = (receiver 7 0 9000, 1) ∷ (receiver 7 0 9001, 1) ∷ []

abbrev sending : Sending
sending = record {
  file_info = info;
  receiver_array = receiver 0 2 9000 ∷ receiver 1 1 9001 ∷ [];
  segments = out;
}

sender_main_test : sender_main [] file 2 2 connections ≡ some sending
unfolding sender_main wait_connections send_info set_counts bump_counts
sender_main_test = rw (prepared, sent) refl

-- The only receiver of a file of one segment, whose `main` waits first.
abbrev sending_one : Sending
sending_one = record {
  file_info = info_one;
  receiver_array = receiver 0 1 9000 ∷ [];
  segments = sent_from 2 1 short 0 1;
}

sender_main_one : sender_main [] short 2 1 ((receiver 7 0 9000, 1) ∷ []) ≡ some sending_one
unfolding sender_main wait_connections send_info set_counts bump_counts
sender_main_one = rw (prepared_one, sent_one) refl

run_one :
    (p : Process) × (r : Steps (begin 1 (peer_threads 0 1 sending_one.segments)) p) × WaitsApart r
    × (p.shared.main ≡ written (some short))
unfolding peer_threads sent_from move store_segment count_current count_finished signal_finished
    write_file
run_one =
    let a0 = next here (wait refl) in
    let a1 = next a0 (run [] [] _ _ _ _ refl refl) in
    let a2 = next a1 (run [] [] _ _ _ _ refl refl) in
    let a3 = next a2 (run [] [] _ _ _ _ refl refl) in
    let a4 = next a3 (run [] [] _ _ _ _ refl refl) in
    let a5 = next a4 (run [] [] _ _ _ _ refl refl) in
    (_, next a5 (write refl), (((((((tt, (refl, tt)), tt), tt), tt), tt), tt), tt), refl)

transfer-written_example :
    (receiver_main
        (λ j. 0)
        (λ j. true)
        9000
        info_one
        sending_one.receiver_array
        (wires (written_to 0 sending_one.segments))
      ≡ some (written_to 0 sending_one.segments, []))
    × (some short ≡ some short)
transfer-written_example =
    transfer-written (λ j. 0) (λ j. true) [] short 2 1 ((receiver 7 0 9000, 1) ∷ []) sending_one []
      [] (receiver 0 1 9000) run_one.0 (some short) run_one.1 (λ k. refl) (omega arith)
      (omega arith) sender_main_one refl tt tt run_one.2 run_one.3

transfer-completes_example :
    (s : Sending) × (sender_main [] file 2 2 connections ≡ some s)
    × ((q : Process) × Steps (begin s.file_info.segment_count (peer_threads 1 2 s.segments)) q
        × (q.shared.main ≡ written (some file)))
transfer-completes_example =
    transfer-completes [] file 2 2 1 connections (omega arith) (omega arith) (omega arith)
      (omega arith)
