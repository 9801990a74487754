-- ===== src/P2p/Threads/Invariant.antt =====
-- The invariant of a peer whose threads interleave (p2p.c).
use network_camp.Prelude.{
  ℕ, ◌+◌, ◌≤◌, ◌<◌, Option, some, List, [], ◌∷◌, ◌++◌, ◌≡◌, inl, inr, ap, subst, ◌∙◌, arith, All,
  All_middle,
}
use network_camp.P2p.{Segment}
use network_camp.P2p.Storage.{write_file}
use network_camp.P2p.Storage.Taken.{IsPart}
use network_camp.P2p.Threads.{
  Shared, Place, Thread, Process, Step, run, wait, write, Steps, here, next,
}
use network_camp.P2p.Threads.Counts.{
  total, total_middle, uncounted, unfinished, missing, closing, missing-total, uncounted-total,
}
use network_camp.P2p.Threads.Moves.{MainInv, Held, Stored, Local, move-Local}

All-insert :
    (P : Thread → Type 0) (pre post : List Thread) (t : Thread)
    → P t
    → All P (pre ++ post)
    → All P (pre ++ t ∷ post)
All-insert P [] post t p a = (p, a)
All-insert P (x ∷ pre) post t p a = (a.0, All-insert P pre post t p a.1)

module _ (seg : ℕ → Segment) (count : ℕ) (whole : List ℕ) where
  abbrev pub IsProper : Thread → Type 0
  IsProper t = All (IsPart seg count) t.todo × Held seg count whole t.place t.todo

  pub record Inv (g : Shared) (ts : List Thread) : Type 0 where
    pub sized : g.segment_count ≡ count
    pub counted : g.current_segment_cnt + total uncounted ts ≡ count
    pub finished : g.finished_segment_cnt + total unfinished ts ≡ count
    pub proper : All IsProper ts
    pub stored : Stored seg count whole g (λ k. total (missing k) ts)
    pub called : count ≤ g.finished_segment_cnt → 0 < g.signals + total closing ts
    pub main : MainInv seg count whole g.main g.finished_segment_cnt

  abbrev others : (Thread → ℕ) → List Thread → List Thread → ℕ
  others w pre post = total w pre + total w post

  abbrev LocalAt : List Thread → List Thread → Shared → Place → List Segment → Type 0
  LocalAt pre post =
      Local seg count whole (others uncounted pre post) (others unfinished pre post)
        (others closing pre post) (λ k. others (missing k) pre post)

  Local_of_Inv :
      (g : Shared) (pre post : List Thread) (t : Thread)
      → Inv g (pre ++ t ∷ post)
      → LocalAt pre post g t.place t.todo
  Local_of_Inv g pre post t h =
      let ((parts, held), _) = All_middle IsProper pre post t h.proper in
      record {
        sized = h.sized;
        order = omega (arith, uncounted-total pre, uncounted-total post);
        counted = omega (arith, h.counted, total_middle uncounted pre post t);
        finished = omega (arith, h.finished, total_middle unfinished pre post t);
        parts = parts;
        held = held;
        stored = λ k lt. elim (h.stored k lt) [
          | inl e ↦ inl e
          | inr e ↦ inr (omega (arith, e, total_middle (missing k) pre post t))
        ];
        called = λ all. omega (arith, h.called all, total_middle closing pre post t);
        main = h.main;
      }

  Inv-of_Local :
      (g : Shared) (pre post : List Thread) (t : Thread)
      → LocalAt pre post g t.place t.todo
      → All IsProper (pre ++ post)
      → Inv g (pre ++ t ∷ post)
  Inv-of_Local g pre post t h a = record {
    sized = h.sized;
    counted = omega (arith, h.counted, total_middle uncounted pre post t);
    finished = omega (arith, h.finished, total_middle unfinished pre post t);
    proper = All-insert IsProper pre post t (h.parts, h.held) a;
    stored = λ k lt. elim (h.stored k lt) [
      | inl e ↦ inl e
      | inr e ↦ inr (omega (arith, e, total_middle (missing k) pre post t))
    ];
    called = λ all. omega (arith, h.called all, total_middle closing pre post t);
    main = h.main;
  }

  -- When all is finished, all is stored and counted.
  pub all_stored :
      (g : Shared) (ts : List Thread)
      → Inv g ts
      → count ≤ g.finished_segment_cnt
      → (g.current_segment_cnt ≡ count) × ((k : ℕ) → k < count → g.segment_array k ≡ some (seg k))
  all_stored g ts h all = (
    omega (arith, h.counted, h.finished, uncounted-total ts),
    λ k lt. elim (h.stored k lt) [
      | inl e ↦ e
      | inr e ↦ absurd (omega (arith, e, h.finished, missing-total k ts))
    ],
  )

  module _
      (assembles : (arr : ℕ → Option Segment)
        → ((k : ℕ) → k < count → arr k ≡ some (seg k))
        → write_file arr 0 count ≡ some whole) where
    Step-Inv : {p q : Process} → Step p q → Inv p.shared p.threads → Inv q.shared q.threads
    Step-Inv {p} (run pre post t g place todo at e) h =
        let h' = subst (Inv p.shared) at h in
        Inv-of_Local g pre post (record { role = t.role; place = place; todo = todo })
          (move-Local seg count whole (others uncounted pre post) (others unfinished pre post)
            (others closing pre post) (λ k. others (missing k) pre post) p.shared t.role t.place
            t.todo (g, place, todo) e (Local_of_Inv p.shared pre post t h'))
          (All_middle IsProper pre post t h'.proper).1
    Step-Inv {p} (wait e) h = record {
      sized = h.sized;
      counted = h.counted;
      finished = h.finished;
      proper = h.proper;
      stored = h.stored;
      called = h.called;
      main = tt;
    }
    Step-Inv {p} (write e) h =
        let all = subst (λ m. MainInv seg count whole m p.shared.finished_segment_cnt) e h.main in
        let (current, stored) = all_stored p.shared p.threads h all in
        record {
          sized = h.sized;
          counted = h.counted;
          finished = h.finished;
          proper = h.proper;
          stored = h.stored;
          called = h.called;
          main = (
            all,
            ap (write_file p.shared.segment_array 0) current
                ∙ assembles p.shared.segment_array stored,
          );
        }

    pub Steps-Inv : {p q : Process} → Steps p q → Inv p.shared p.threads → Inv q.shared q.threads
    Steps-Inv here h = h
    Steps-Inv (next r st) h = Step-Inv st (Steps-Inv r h)
