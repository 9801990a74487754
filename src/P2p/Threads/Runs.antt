-- ===== src/P2p/Threads/Runs.antt =====
-- How long the threads of a peer can run (p2p.c).
use mathlib.Core.Option.{some-injective}
use network_camp.Prelude.{
  ℕ, ◌+◌, ◌*◌, ◌≤◌, ◌<◌, Bool, true, false, some, List, [], ◌∷◌, ◌++◌, ◌≡◌, inl, inr, refl, ap,
  subst, arith, if◌then◌else◌, leb, ltb, length, length-append, Bool-cases,
}
use network_camp.P2p.{Segment}
use network_camp.P2p.Threads.{
  Main, starting, waiting, woken, written, wake, Shared, Role, accpt_snd_seg, accpt_rcv_seg, Place,
  reading, storing, counting, flooding, checking, testing, leaving, ended, Thread, signal_finished,
  store_segment, count_current, count_finished, move, Process, Step, run, wait, write, Steps, here,
  next, begin, idle_threads,
}
use network_camp.P2p.Threads.Counts.{total, total_middle}

-- How far a place is from the end, when nothing more is to be read.
abbrev pub rank : Place → ℕ
rank reading = 2
rank (storing s) = 7
rank counting = 6
rank flooding = 5
rank checking = 4
rank testing = 4
rank leaving = 1
rank ended = 0

abbrev pub main_rank : Main → ℕ
main_rank starting = 3
main_rank waiting = 2
main_rank woken = 1
main_rank (written o) = 0

abbrev pub thread_rank : Thread → ℕ
thread_rank t = 6 * length t.todo + rank t.place

abbrev pub measure : Process → ℕ
measure p = main_rank p.shared.main + total thread_rank p.threads

main_rank-wake : (m : Main) → main_rank (wake m) ≤ main_rank m
main_rank-wake starting = omega arith
main_rank-wake waiting = omega arith
main_rank-wake woken = omega arith
main_rank-wake (written o) = omega arith

abbrev Lower : Shared → Place → List Segment → Shared × Place × List Segment → Type 0
Lower g place todo r =
    (main_rank r.0.main ≤ main_rank g.main)
    × (6 * length r.2 + rank r.1 < 6 * length todo + rank place)

signal-main_rank : (g : Shared) → main_rank (signal_finished g).main ≤ main_rank g.main
unfolding signal_finished
signal-main_rank g = elim (Bool-cases (leb g.segment_count g.finished_segment_cnt)) [
  | inl all ↦ rw all (main_rank-wake g.main)
  | inr more ↦ rw more (omega arith)
]

pub move-Lower :
    (g : Shared) (role : Role) (place : Place) (todo : List Segment)
    (r : Shared × Place × List Segment)
    → move g role place todo ≡ some r
    → Lower g place todo r
unfolding move store_segment count_current count_finished
move-Lower g role reading (s ∷ todo) r e =
    subst (Lower g reading (s ∷ todo)) (some-injective _ r e) (omega arith, omega arith)
move-Lower g accpt_snd_seg reading [] r e =
    subst (Lower g reading []) (some-injective _ r e) (omega arith, omega arith)
move-Lower g accpt_rcv_seg reading [] r e =
    subst (Lower g reading []) (some-injective _ r e) (omega arith, omega arith)
move-Lower g role (storing s) todo r e = elim (Bool-cases (ltb s.nth_segment g.segment_count)) [
  | inl inside ↦
      subst (Lower g (storing s) todo) (some-injective _ r (rw inside at e))
        (omega arith, omega arith)
  | inr outside ↦ cc (rw outside at e)
]
move-Lower g accpt_snd_seg counting todo r e =
    subst (Lower g counting todo) (some-injective _ r e) (omega arith, omega arith)
move-Lower g accpt_rcv_seg counting todo r e =
    subst (Lower g counting todo) (some-injective _ r e) (omega arith, omega arith)
move-Lower g role flooding todo r e =
    subst (Lower g flooding todo) (some-injective _ r e) (omega arith, omega arith)
move-Lower g role checking todo r e =
    subst (Lower g checking todo) (some-injective _ r e) (signal-main_rank g, omega arith)
move-Lower g role testing todo r e =
    subst (Lower g testing todo) (some-injective _ r e)
      (omega arith, by_test (leb g.segment_count g.current_segment_cnt))
  where
    by_test :
        (b : Bool) → 6 * length todo + rank (if b then leaving else reading) < 6 * length todo + 4
    by_test true = omega arith
    by_test false = omega arith
move-Lower g role leaving todo r e =
    subst (Lower g leaving todo) (some-injective _ r e) (signal-main_rank g, omega arith)
move-Lower g role ended todo r e = cc

measure-Step : {p q : Process} → Step p q → measure q < measure p
measure-Step {p} (run pre post t g place todo at e) =
    let t' : Thread = record { role = t.role; place = place; todo = todo } in
    let (m, l) = move-Lower p.shared t.role t.place t.todo (g, place, todo) e in
    omega (
      arith,
      m,
      l,
      total_middle thread_rank pre post t,
      total_middle thread_rank pre post t',
      ap (total thread_rank) at,
    )
measure-Step {p} (wait e) = omega (arith, ap main_rank e)
measure-Step {p} (write e) = omega (arith, ap main_rank e)

-- The number of steps of a run.
abbrev pub steps_taken : {p q : Process} → Steps p q → ℕ
steps_taken here = 0
steps_taken (next r st) = steps_taken r + 1

pub steps_taken-measure : {p q : Process} (r : Steps p q) → steps_taken r + measure q ≤ measure p
steps_taken-measure here = omega arith
steps_taken-measure (next r st) = omega (arith, measure-Step st, steps_taken-measure r)

-- The segments that the threads read, all together.
abbrev pub brought : List (Role × List Segment) → List Segment
brought [] = []
brought ((role, todo) ∷ ts) = todo ++ brought ts

total-thread_rank :
    (ts : List (Role × List Segment))
    → total thread_rank (idle_threads ts) ≡ 6 * length (brought ts) + 2 * length ts
total-thread_rank [] = refl
total-thread_rank ((role, todo) ∷ ts) =
    omega (arith, total-thread_rank ts, length-append todo (brought ts))

-- The threads of a peer and `main` take at most six steps for each segment that the connections
-- bring, two for each thread and three more, whatever the order: no loop goes on for ever.
pub steps_taken-le :
    (segment_count : ℕ) (ts : List (Role × List Segment)) (p : Process)
    (r : Steps (begin segment_count ts) p)
    → steps_taken r ≤ 6 * length (brought ts) + 2 * length ts + 3
steps_taken-le segment_count ts p r = omega (arith, steps_taken-measure r, total-thread_rank ts)
