-- ===== src/P2p/Threads.antt =====
-- The threads of a receiving peer (p2p.c), interleaved in any order: `accpt_snd_seg` with its
-- `flood_segment`, an `accpt_rcv_seg` for each connection, and `main` in `Wait_All_Segment`. What is
-- between lock and unlock is one step, which the wait of `main` without the lock can break (`WaitsApart`).
-- A wake-up without a signal is not modelled.
pub mod Counts
pub mod Moves
pub mod Invariant
pub mod Runs
pub mod Outcome
pub mod Wakeup
pub mod Signal
use network_camp.Prelude.{
  ℕ, ◌+◌, Bool, true, false, All, Option, none, some, List, [], ◌∷◌, ◌++◌, ◌≡◌, if◌then◌else◌, ◌==◌,
  ltb, leb,
}
use network_camp.P2p.{Segment}
use network_camp.P2p.Storage.{write_file}

-- `main`: before `pthread_cond_wait`, in it, behind it, and behind the loop that writes the file.
pub data Main : Type 0 where
  starting waiting woken : Main
  written : Option (List ℕ) → Main

-- The globals that the threads share.
pub record Shared : Type 0 where
  pub segment_count : ℕ
  pub segment_array : ℕ → Option Segment
  pub current_segment_cnt : ℕ
  pub finished_segment_cnt : ℕ
  pub signals : ℕ
  pub main : Main

-- Which function a thread runs.
pub data Role : Type 0 where
  accpt_snd_seg accpt_rcv_seg : Role

-- Where a thread stands: in `read` of the next structure, with a segment before it is stored in the
-- array, before the counters, in `flood_segment` before its first and its second lock, before the test
-- at the end of the loop of `accpt_rcv_seg`, before the lock behind that loop, or at the end.
pub data Place : Type 0 where
  reading : Place
  storing : Segment → Place
  counting flooding checking testing leaving ended : Place

-- A thread, and the segments that its connection brings yet.
pub record Thread : Type 0 where
  pub role : Role
  pub place : Place
  pub todo : List Segment

-- `pthread_cond_signal(&cond_finish)`: it wakes `main` if it waits.
abbrev pub wake : Main → Main
wake starting = starting
wake waiting = woken
wake woken = woken
wake (written o) = written o

-- The test of `finished_segment_cnt` with the signal.
unfoldable pub signal_finished : Shared → Shared
signal_finished g =
    if leb g.segment_count g.finished_segment_cnt
    then record g { signals = g.signals + 1; main = wake g.main }
    else g

unfoldable pub store_segment : Shared → Segment → Shared
store_segment g s = record g {
  segment_array = λ k. if k == s.nth_segment then some s else g.segment_array k;
}

unfoldable pub count_current : Shared → Shared
count_current g = record g { current_segment_cnt = g.current_segment_cnt + 1 }

unfoldable pub count_finished : Shared → Shared
count_finished g = record g { finished_segment_cnt = g.finished_segment_cnt + 1 }

-- The next step of a thread; `none` at its end, and for a segment outside the array. With nothing more
-- to read `accpt_snd_seg` has counted all its segments, and in `accpt_rcv_seg` `read` returns 0 once the
-- connection is closed.
unfoldable pub move : Shared → Role → Place → List Segment → Option (Shared × Place × List Segment)
move g role reading (s ∷ todo) = some (g, storing s, todo)
move g accpt_snd_seg reading [] = some (g, ended, [])
move g accpt_rcv_seg reading [] = some (g, leaving, [])
move g role (storing s) todo =
    if ltb s.nth_segment g.segment_count then some (store_segment g s, counting, todo) else none
move g accpt_snd_seg counting todo = some (count_current g, flooding, todo)
move g accpt_rcv_seg counting todo = some (count_finished (count_current g), testing, todo)
move g role flooding todo = some (count_finished g, checking, todo)
move g role checking todo = some (signal_finished g, reading, todo)
move g role testing todo =
    some (g, if leb g.segment_count g.current_segment_cnt then leaving else reading, todo)
move g role leaving todo = some (signal_finished g, ended, todo)
move g role ended todo = none

-- A peer.
pub record Process : Type 0 where
  pub shared : Shared
  pub threads : List Thread

abbrev pub set_main : Process → Main → Process
set_main p m = record { shared = record p.shared { main = m }; threads = p.threads }

pub data Step (p : Process) : Process → Type 0 where
  run :
      (pre post : List Thread) (t : Thread) (g : Shared) (place : Place) (todo : List Segment)
      → p.threads ≡ pre ++ t ∷ post
      → move p.shared t.role t.place t.todo ≡ some (g, place, todo)
      → Step p (record {
        shared = g;
        threads = pre ++ record { role = t.role; place = place; todo = todo } ∷ post;
      })
  wait : p.shared.main ≡ starting → Step p (set_main p waiting)
  write :
      p.shared.main ≡ woken
      → Step p
          (set_main p (written (write_file p.shared.segment_array 0 p.shared.current_segment_cnt)))

-- Whether the next step of a thread at a place is between lock and unlock.
abbrev pub locks : Place → Bool
locks reading = false
locks (storing s) = false
locks counting = true
locks flooding = true
locks checking = true
locks testing = false
locks leaving = true
locks ended = false

-- `pthread_cond_wait` is called without `mutx`: when it is, no thread is before a lock.
abbrev pub IsApart : {p q : Process} → Step p q → Type 0
IsApart (run pre post t g place todo e f) = Unit
IsApart {p} (wait e) = All (λ (t : Thread). locks t.place ≡ false) p.threads
IsApart (write e) = Unit

pub data Steps (p : Process) : Process → Type 0 where
  here : Steps p p
  next : {q r : Process} → Steps p q → Step q r → Steps p r

abbrev pub WaitsApart : {p q : Process} → Steps p q → Type 0
WaitsApart here = Unit
WaitsApart (next r st) = WaitsApart r × IsApart st

-- A peer before its threads read anything, with what each will read.
abbrev pub idle_threads : List (Role × List Segment) → List Thread
idle_threads [] = []
idle_threads ((role, todo) ∷ ts) =
    record { role = role; place = reading; todo = todo } ∷ idle_threads ts

abbrev pub begin : ℕ → List (Role × List Segment) → Process
begin segment_count ts = record {
  shared = record {
    segment_count = segment_count;
    segment_array = λ k. none;
    current_segment_cnt = 0;
    finished_segment_cnt = 0;
    signals = 0;
    main = starting;
  };
  threads = idle_threads ts;
}
