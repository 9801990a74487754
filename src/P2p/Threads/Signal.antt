-- ===== src/P2p/Threads/Signal.antt =====
-- `Wait_All_Segment` (p2p.c): what becomes of `main` when it begins to wait before the signal, and what
-- when it begins after it.
use mathlib.Core.List.{Permᴰ}
use network_camp.Prelude.{
  ℕ, ◌+◌, ◌<◌, none, some, List, ◌≡◌, refl, ap, sym, subst, ◌∙◌, arith, length, map, All,
  All_middle,
}
use network_camp.P2p.{FileInfo, Segment}
use network_camp.P2p.Sender.{prepare_file, Sent, send_segment}
use network_camp.P2p.Storage.{write_file}
use network_camp.P2p.Storage.Assembled.{part}
use network_camp.P2p.Threads.{
  Main, starting, waiting, woken, written, wake, Role, Place, ended, Shared, move, Process, Step,
  run, wait, write, set_main, Steps, here, next, begin,
}
use network_camp.P2p.Threads.Counts.{total}
use network_camp.P2p.Threads.Runs.{thread_rank, brought}
use network_camp.P2p.Threads.Outcome.{Delivered, reached}
use network_camp.P2p.Threads.Wakeup.{IsEnded, Waits, IsStarting, rest, ended-Inv}

pub Steps_append : {p q r : Process} → Steps p q → Steps q r → Steps p r
Steps_append a here = a
Steps_append a (next b s) = next (Steps_append a b) s

kept-Waits : (m : Main) (n : ℕ) → Waits m n → Waits (wake m) (n + 1)
kept-Waits starting n h = elim h [ ]
kept-Waits (written o) n h = elim h [ ]
kept-Waits waiting n h = tt
kept-Waits woken n h = tt

kept-IsStarting : (m : Main) (n : ℕ) → IsStarting m n → IsStarting (wake m) (n + 1)
kept-IsStarting starting n h = tt
kept-IsStarting waiting n h = elim h [ ]
kept-IsStarting woken n h = elim h [ ]
kept-IsStarting (written o) n h = elim h [ ]

awake : (m : Main) (n : ℕ) → Waits m n → 0 < n → m ≡ woken
awake starting n h pos = elim h [ ]
awake (written o) n h pos = elim h [ ]
awake waiting n h pos = absurd (omega arith)
awake woken n h pos = refl

is_starting : (m : Main) (n : ℕ) → IsStarting m n → m ≡ starting
is_starting starting n h = refl
is_starting waiting n h = elim h [ ]
is_starting woken n h = elim h [ ]
is_starting (written o) n h = elim h [ ]

move-ended :
    (g : Shared) (role : Role) (place : Place) (todo : List Segment)
    → place ≡ ended
    → move g role place todo ≡ none
unfolding move
move-ended g role place todo e = rw e refl

-- When the file is not empty and there is a receiver, the file was prepared and its segments were
-- sent, and the connections of a peer bring each segment once, and `main` came to wait when nothing
-- was signalled yet, there is a way to go on at the end of which `main` has written the file of the
-- sender.
pub main-written_of_waiting :
    (name file : List ℕ) (size m : ℕ) (info : FileInfo) (out : List Sent)
    (ts : List (Role × List Segment)) (p : Process)
    → 0 < m
    → 0 < length file
    → prepare_file name (length file) size m ≡ some info
    → send_segment info m file ≡ some out
    → Permᴰ (map (λ (x : Sent). x.file_segment) out) (brought ts)
    → Steps (begin info.segment_count ts) p
    → p.shared.main ≡ waiting
    → p.shared.signals ≡ 0
    → (q : Process) × Steps p q × (q.shared.main ≡ written (some file))
main-written_of_waiting name file size m info out ts p a b c e f r w none_yet =
    let d : Delivered name file size m info out ts = record {
      receivers = a;
      content = b;
      prepared = c;
      sent = e;
      brings = f;
    } in
    let seg = part size m file in
    let begun : Waits p.shared.main p.shared.signals =
      subst (λ x. Waits x p.shared.signals) (sym w) none_yet in
    let end =
      rest Waits kept-Waits seg info.segment_count file (total thread_rank p.threads + 1) p
        (omega arith) (λ q more. reached d (Steps_append r more)) begun in
    let last = end.last in
    let runs = Steps_append r end.runs in
    let (_, called) = ended-Inv seg info.segment_count file last (reached d runs) end.ends in
    let up = awake last.shared.main last.shared.signals end.keeps called in
    let (_, whole) = (reached d (next runs (write up))).main in
    (
      set_main last
          (written (write_file last.shared.segment_array 0 last.shared.current_segment_cnt)),
      next end.runs (write up),
      ap written whole,
    )

-- When the file is not empty and there is a receiver, the file was prepared and its segments were
-- sent, and the connections of a peer bring each segment once, there is an order of the steps after
-- which all segments are finished and `main` waits, and no step is possible any more: the signal
-- came before the wait.
pub main_waits_for_ever :
    (name file : List ℕ) (size m : ℕ) (info : FileInfo) (out : List Sent)
    (ts : List (Role × List Segment))
    → 0 < m
    → 0 < length file
    → prepare_file name (length file) size m ≡ some info
    → send_segment info m file ≡ some out
    → Permᴰ (map (λ (x : Sent). x.file_segment) out) (brought ts)
    → (p : Process) × Steps (begin info.segment_count ts) p
      × (p.shared.main ≡ waiting)
      × (p.shared.finished_segment_cnt ≡ info.segment_count)
      × ((q : Process) → ¬ Step p q)
main_waits_for_ever name file size m info out ts a b c e f =
    let d : Delivered name file size m info out ts = record {
      receivers = a;
      content = b;
      prepared = c;
      sent = e;
      brings = f;
    } in
    let seg = part size m file in
    let first = begin info.segment_count ts in
    let end =
      rest IsStarting kept-IsStarting seg info.segment_count file
        (total thread_rank first.threads + 1) first (omega arith) (λ q more. reached d more) tt in
    let last = end.last in
    let h = reached d end.runs in
    let (all, _) = ended-Inv seg info.segment_count file last h end.ends in
    (
      set_main last waiting,
      next end.runs (wait (is_starting last.shared.main last.shared.signals end.keeps)),
      refl,
      omega (arith, h.finished, all),
      λ q s. stuck last end.ends s,
    )
  where
    stuck :
        (last : Process)
        → All IsEnded last.threads
        → {q : Process} → Step (set_main last waiting) q
        → ⊥
    stuck last ends (run pre post t g place todo at e) =
        let off = (All_middle IsEnded pre post t (subst (All IsEnded) at ends)).0 in
        cc (sym (move-ended (set_main last waiting).shared t.role t.place t.todo off) ∙ e)
    stuck last ends (wait e) = cc
    stuck last ends (write e) = cc
