-- ===== src/Tests/StopWait.antt =====
-- Tests of the stop-and-wait transfer (stop_wait_clnt.c, stop_wait_serv.c), and its theorems at work.
use network_camp.Prelude.{ℕ, ◌*◌, refl, some, false, List, [], ◌∷◌, ◌≡◌, arith, length, take}
use network_camp.StopWait.Opening.{
  FileInfo, send_file_info, receive_file_info, Opening, running, announced, opens, Moves, begins,
  then_moves,
}
use network_camp.StopWait.Heard.{heard-Reach}
use network_camp.StopWait.{Packet, waiting, finished, is_running}
use network_camp.StopWait.System.{System, Steps, Reach, AcksOnce}
use network_camp.StopWait.Safety.{written-prefix, written_complete}
use network_camp.StopWait.Delivery.{delivery, stalls_for_ever}

abbrev file : List ℕ
file = 10 ∷ 20 ∷ 30 ∷ []

delivery_example :
    (t : System) × (r : Reach 2 file t) × AcksOnce 2 r
    × (t.receiver.written ≡ file)
    × (is_running t.receiver ≡ false)
    × (t.sender.phase ≡ finished)
delivery_example = delivery 2 file (omega arith) (omega arith)

abbrev last : System
last = (delivery 2 file (omega arith) (omega arith)).0

abbrev run : Reach 2 file last
run = (delivery 2 file (omega arith) (omega arith)).1

run-AcksOnce : AcksOnce 2 run
run-AcksOnce = (delivery 2 file (omega arith) (omega arith)).2

written-prefix_example :
    (last.receiver.written ≡ take (last.receiver.ack_seq * 2) file)
    × (last.receiver.read_len ≡ length last.receiver.written)
written-prefix_example = written-prefix 2 file last run (omega arith) (omega arith) run-AcksOnce

written_complete_example : last.receiver.written ≡ file
written_complete_example =
    written_complete 2 file last run (omega arith) (omega arith) run-AcksOnce
      (delivery 2 file (omega arith) (omega arith)).4

stalls_for_ever_example :
    (s : System) × Reach 2 file s
    × (s.sender.phase ≡ waiting)
    × ((t : System) → Steps 2 s t → (t.sender ≡ s.sender) × (t.receiver ≡ s.receiver))
stalls_for_ever_example = stalls_for_ever 2 file (omega arith) (omega arith) (omega arith)

-- The file info is heard, then a packet is sent and taken.
abbrev as_info : Packet → FileInfo
as_info p = record { file_name = []; file_size = p.sequence }

abbrev as_packet : FileInfo → Packet
as_packet info = record { sequence = info.file_size; message = info.file_name }

abbrev name : List ℕ
name = b't' ∷ []

abbrev heard : Opening
heard = record (announced name file) {
  listener = some (receive_file_info (send_file_info name file));
  infos = [];
}

abbrev hears : Moves 2 as_info as_packet (announced name file) heard
hears = then_moves begins (opens [] [] (send_file_info name file) refl refl)

heard-Reach_example :
    (name ≡ name) × Reach 2 file (running heard (receive_file_info (send_file_info name file)).1)
unfolding send_file_info
heard-Reach_example =
    heard-Reach 2 as_info as_packet name file heard hears name
      (receive_file_info (send_file_info name file)).1 (omega arith) tt refl
