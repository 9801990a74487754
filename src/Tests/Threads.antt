-- ===== src/Tests/Threads.antt =====
-- The theorems on the threads of a receiving peer (p2p.c) at work.
use mathlib.Core.List.Permᴰ
use network_camp.Prelude.{some, List, [], ◌∷◌, ◌≡◌, refl, arith, ◌≤◌, inl, All}
use network_camp.P2p.{Segment}
use network_camp.P2p.Split.{sent_from}
use network_camp.P2p.Storage.{write_file}
use network_camp.P2p.Threads.{
  Role, accpt_snd_seg, accpt_rcv_seg, written, waiting, set_main, Process, Step, Steps, here, next,
  WaitsApart, run, wait, write, move, store_segment, count_current, count_finished, signal_finished,
  begin,
}
use network_camp.P2p.Threads.Outcome.{IsAtRest, main-written}
use network_camp.P2p.Threads.Runs.{steps_taken, steps_taken-le}
use network_camp.P2p.Threads.Signal.{main-written_of_waiting, main_waits_for_ever}
use network_camp.Tests.Peers.{
  short, info_one, prepared_one, sent_one, file, info, out, prepared, sent, part,
}

-- The first of two receivers: segments 0 and 2 come from the sender, and 1 from the other receiver.
abbrev both : List (Role × List Segment)
both =
    (accpt_snd_seg, part 0 (1 ∷ 2 ∷ []) ∷ part 2 (5 ∷ []) ∷ [])
    ∷ (accpt_rcv_seg, part 1 (3 ∷ 4 ∷ []) ∷ [])
    ∷ []

main-written_of_waiting_example :
    (q : Process) × Steps (set_main (begin 3 both) waiting) q
    × (q.shared.main ≡ written (some file))
main-written_of_waiting_example =
    main-written_of_waiting [] file 2 2 info out both (set_main (begin 3 both) waiting)
      (omega arith) (omega arith) prepared sent
      (unfold sent_from in Permᴰ.cons refl (Permᴰ.swap refl refl)) (next here (wait refl)) refl refl

main_waits_for_ever_example :
    (p : Process) × Steps (begin 3 both) p
    × (p.shared.main ≡ waiting)
    × (p.shared.finished_segment_cnt ≡ 3)
    × ((q : Process) → ¬ Step p q)
main_waits_for_ever_example =
    main_waits_for_ever [] file 2 2 info out both (omega arith) (omega arith) prepared sent
      (unfold sent_from in Permᴰ.cons refl (Permᴰ.swap refl refl))

-- Its segments go to the only receiver.
abbrev one : List (Role × List Segment)
one = (accpt_snd_seg, part 0 short ∷ []) ∷ []

-- Its thread does five steps, between the two of `main`.
run_one :
    (p : Process) × (r : Steps (begin 1 one) p) × WaitsApart r
    × (p.shared.main ≡ written (some short))
    × All IsAtRest p.threads
unfolding move store_segment count_current count_finished signal_finished write_file
run_one =
    let a0 = next here (wait refl) in
    let a1 = next a0 (run [] [] _ _ _ _ refl refl) in
    let a2 = next a1 (run [] [] _ _ _ _ refl refl) in
    let a3 = next a2 (run [] [] _ _ _ _ refl refl) in
    let a4 = next a3 (run [] [] _ _ _ _ refl refl) in
    let a5 = next a4 (run [] [] _ _ _ _ refl refl) in
    (
      _,
      next a5 (write refl),
      (((((((tt, (refl, tt)), tt), tt), tt), tt), tt), tt),
      refl,
      ((refl, inl refl), tt),
    )

main-written_example : some short ≡ some short
main-written_example =
    main-written [] short 2 1 info_one (sent_from 2 1 short 0 1) one run_one.0 (some short)
      run_one.1 (omega arith) (omega arith) prepared_one sent_one
      (unfold sent_from in Permᴰ.refl (part 0 short ∷ [])) run_one.2 run_one.3

steps_taken-le_example : steps_taken run_one.1 ≤ 11
steps_taken-le_example = steps_taken-le 1 one run_one.0 run_one.1
