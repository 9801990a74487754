-- ===== src/P2p/Threads/Wakeup.antt =====
-- When `main` of a peer begins to wait (p2p.c): before the signal, and after it.
use network_camp.Prelude.{
  ℕ, zero, suc, ◌+◌, ◌≤◌, ◌<◌, Bool, true, false, some, List, [], ◌∷◌, ◌++◌, ◌≡◌, ◌⊎◌, inl, inr,
  refl, ap, subst, arith, leb, ltb, length, All, All_middle, Bool-cases,
}
use network_camp.P2p.{Segment}
use network_camp.P2p.Threads.{
  Main, starting, waiting, woken, written, wake, Shared, Role, accpt_snd_seg, accpt_rcv_seg, Place,
  reading, storing, counting, flooding, checking, testing, leaving, ended, Thread, signal_finished,
  store_segment, count_current, count_finished, move, Process, Step, run, Steps, here, next,
}
use network_camp.P2p.Threads.Counts.{
  total, total_middle, unfinished, closing, closing_place, held_unfinished,
}
use network_camp.P2p.Threads.Moves.{Held}
use network_camp.P2p.Threads.Invariant.{IsProper, Inv}
use network_camp.P2p.Threads.Runs.{thread_rank, move-Lower}

abbrev is_ended : Place → Bool
is_ended ended = true
is_ended _ = false

abbrev pub IsEnded : Thread → Type 0
IsEnded t = t.place ≡ ended

is_ended-eq : (p : Place) → is_ended p ≡ true → p ≡ ended
is_ended-eq ended e = refl
is_ended-eq reading e = cc
is_ended-eq (storing s) e = cc
is_ended-eq counting e = cc
is_ended-eq flooding e = cc
is_ended-eq checking e = cc
is_ended-eq testing e = cc
is_ended-eq leaving e = cc

-- A thread that can still go on.
record Active (ts : List Thread) : Type 0 where
  pre : List Thread
  post : List Thread
  thread : Thread
  at : ts ≡ pre ++ thread ∷ post
  goes_on : is_ended thread.place ≡ false

find-Active : (ts : List Thread) → All IsEnded ts ⊎ Active ts
find-Active [] = inl tt
find-Active (t ∷ ts) = elim (Bool-cases (is_ended t.place)) [
  | inr on ↦ inr (record { pre = []; post = ts; thread = t; at = refl; goes_on = on })
  | inl off ↦ elim (find-Active ts) [
    | inl all ↦ inl (is_ended-eq t.place off, all)
    | inr a ↦ inr (record {
      pre = t ∷ a.pre;
      post = a.post;
      thread = a.thread;
      at = ap (◌∷◌ t) a.at;
      goes_on = a.goes_on;
    })
  ]
]

Steps_first : {p q r : Process} → Step p q → Steps q r → Steps p r
Steps_first s here = next here s
Steps_first s (next r t) = next (Steps_first s r) t

-- What `main` and the number of signals keep to while only the other threads run.
abbrev Kept : (Main → ℕ → Type 0) → Type 0
Kept P = (m : Main) (n : ℕ) → P m n → P (wake m) (n + 1)

module _ (P : Main → ℕ → Type 0) (kept : Kept P) where
  abbrev Of : Shared → Type 0
  Of g = P g.main g.signals

  signal-Of : (g : Shared) → Of g → Of (signal_finished g)
  unfolding signal_finished
  signal-Of g h = elim (Bool-cases (leb g.segment_count g.finished_segment_cnt)) [
    | inl all ↦ rw all (kept g.main g.signals h)
    | inr more ↦ rw more h
  ]

  module _ (seg : ℕ → Segment) (count : ℕ) (whole : List ℕ) where
    abbrev Goes : Shared → Role → Place → List Segment → Type 0
    Goes g role place todo =
        (r : Shared × Place × List Segment) × (move g role place todo ≡ some r) × Of r.0

    goes :
        (g : Shared) (role : Role) (place : Place) (todo : List Segment)
        → g.segment_count ≡ count
        → Held seg count whole place todo
        → is_ended place ≡ false
        → Of g
        → Goes g role place todo
    unfolding move store_segment count_current count_finished
    goes g role reading (s ∷ todo) c held on h = (_, refl, h)
    goes g accpt_snd_seg reading [] c held on h = (_, refl, h)
    goes g accpt_rcv_seg reading [] c held on h = (_, refl, h)
    goes g role (storing s) todo c held on h =
        let inside : ltb s.nth_segment g.segment_count ≡ true = ground (arith, held.1) in
        ((store_segment g s, counting, todo), rw inside refl, h)
    goes g accpt_snd_seg counting todo c held on h = (_, refl, h)
    goes g accpt_rcv_seg counting todo c held on h = (_, refl, h)
    goes g role flooding todo c held on h = (_, refl, h)
    goes g role checking todo c held on h = (_, refl, signal-Of g h)
    goes g role testing todo c held on h = (_, refl, h)
    goes g role leaving todo c held on h = (_, refl, signal-Of g h)
    goes g role ended todo c held on h = cc

    -- The threads can run to their ends, whatever `main` does.
    pub record Rest (p : Process) : Type 0 where
      pub last : Process
      pub runs : Steps p last
      pub ends : All IsEnded last.threads
      pub keeps : Of last.shared

    -- A step of a thread that can go on.
    record Forward (p : Process) : Type 0 where
      after : Process
      step : Step p after
      lower : total thread_rank after.threads < total thread_rank p.threads
      keeps : Of after.shared

    forward :
        (p : Process)
        → Inv seg count whole p.shared p.threads
        → Of p.shared
        → Active p.threads
        → Forward p
    forward p inv h a =
        let t = a.thread in
        let proper =
          (All_middle (IsProper seg count whole) a.pre a.post t
            (subst (All (IsProper seg count whole)) a.at inv.proper)).0 in
        let ((g, place, todo), e, keeps) =
          goes p.shared t.role t.place t.todo inv.sized proper.1 a.goes_on h in
        let t' : Thread = record { role = t.role; place = place; todo = todo } in
        let (_, l) = move-Lower p.shared t.role t.place t.todo (g, place, todo) e in
        record {
          after = record { shared = g; threads = a.pre ++ t' ∷ a.post };
          step = run a.pre a.post t g place todo a.at e;
          lower = omega (
            arith,
            l,
            total_middle thread_rank a.pre a.post t,
            total_middle thread_rank a.pre a.post t',
            ap (total thread_rank) a.at,
          );
          keeps = keeps;
        }

    pub rest :
        (fuel : ℕ) (p : Process)
        → total thread_rank p.threads < fuel
        → ((q : Process) → Steps p q → Inv seg count whole q.shared q.threads)
        → Of p.shared
        → Rest p
    rest zero p le inv h = absurd (omega arith)
    rest (suc fuel) p le inv h = elim (find-Active p.threads) [
      | inl all ↦ record { last = p; runs = here; ends = all; keeps = h }
      | inr a ↦
          let f = forward p (inv p here) h a in
          let r =
            rest fuel f.after (omega (arith, f.lower)) (λ q more. inv q (Steps_first f.step more))
              f.keeps in
          record { last = r.last; runs = Steps_first f.step r.runs; ends = r.ends; keeps = r.keeps }
    ]

module _ (seg : ℕ → Segment) (count : ℕ) (whole : List ℕ) where
  ended-totals :
      (ts : List Thread)
      → All (IsProper seg count whole) ts
      → All IsEnded ts
      → (total unfinished ts ≡ 0) × (total closing ts ≡ 0)
  ended-totals [] p a = (refl, refl)
  ended-totals (t ∷ ts) p a =
      let (u, c) = ended-totals ts p.1 a.1 in
      let none_left : t.todo ≡ [] = subst (λ x. Held seg count whole x t.todo) a.0 p.0.1 in
      (
        omega (arith, u, ap (length {0}) none_left, ap held_unfinished a.0),
        omega (arith, c, ap closing_place a.0),
      )

  -- At the end of all threads everything is finished and the signal was given.
  pub ended-Inv :
      (p : Process)
      → Inv seg count whole p.shared p.threads
      → All IsEnded p.threads
      → (count ≤ p.shared.finished_segment_cnt) × (0 < p.shared.signals)
  ended-Inv p h a =
      let (u, c) = ended-totals p.threads h.proper a in
      let all : count ≤ p.shared.finished_segment_cnt = omega (arith, h.finished, u) in
      (all, omega (arith, h.called all, c))

abbrev pub Waits : Main → ℕ → Type 0
Waits starting n = ⊥
Waits waiting n = n ≡ 0
Waits woken n = Unit
Waits (written o) n = ⊥

abbrev pub IsStarting : Main → ℕ → Type 0
IsStarting starting n = Unit
IsStarting waiting n = ⊥
IsStarting woken n = ⊥
IsStarting (written o) n = ⊥
