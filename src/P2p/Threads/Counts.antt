-- ===== src/P2p/Threads/Counts.antt =====
-- What the threads of a peer have still to do, in numbers (p2p.c).
use network_camp.Prelude.{ℕ, ◌+◌, ◌≤◌, List, [], ◌∷◌, ◌++◌, ◌≡◌, arith, if◌then◌else◌, ◌==◌, length}
use network_camp.P2p.{Segment}
use network_camp.P2p.Threads.{
  Place, reading, storing, counting, flooding, checking, testing, leaving, ended, Thread,
}

module _ (weight : Thread → ℕ) where
  abbrev pub total : List Thread → ℕ
  total [] = 0
  total (t ∷ ts) = weight t + total ts

  pub total_middle :
      (pre post : List Thread) (t : Thread)
      → total (pre ++ t ∷ post) ≡ total pre + weight t + total post
  total_middle [] post t = omega arith
  total_middle (x ∷ pre) post t = omega (arith, total_middle pre post t)

pub total-le :
    (v w : Thread → ℕ) (ts : List Thread) → ((t : Thread) → v t ≤ w t) → total v ts ≤ total w ts
total-le v w [] h = omega arith
total-le v w (t ∷ ts) h = omega (arith, h t, total-le v w ts h)

-- Segments that `current_segment_cnt` does not count yet.
abbrev pub held_uncounted : Place → ℕ
held_uncounted (storing s) = 1
held_uncounted counting = 1
held_uncounted _ = 0

abbrev pub uncounted : Thread → ℕ
uncounted t = length t.todo + held_uncounted t.place

-- Segments that `finished_segment_cnt` does not count yet.
abbrev pub held_unfinished : Place → ℕ
held_unfinished (storing s) = 1
held_unfinished counting = 1
held_unfinished flooding = 1
held_unfinished _ = 0

abbrev pub unfinished : Thread → ℕ
unfinished t = length t.todo + held_unfinished t.place

-- Segments with number `k` that are not stored yet.
abbrev pub numbered : ℕ → List Segment → ℕ
numbered k [] = 0
numbered k (s ∷ ss) = (if k == s.nth_segment then 1 else 0) + numbered k ss

abbrev pub held_missing : ℕ → Place → ℕ
held_missing k (storing s) = if k == s.nth_segment then 1 else 0
held_missing k _ = 0

abbrev pub missing : ℕ → Thread → ℕ
missing k t = numbered k t.todo + held_missing k t.place

-- Threads that have still to look whether all is finished.
abbrev pub closing_place : Place → ℕ
closing_place checking = 1
closing_place testing = 1
closing_place leaving = 1
closing_place _ = 0

abbrev pub closing : Thread → ℕ
closing t = closing_place t.place

numbered-le : (k : ℕ) (ss : List Segment) → numbered k ss ≤ length ss
numbered-le k [] = omega arith
numbered-le k (s ∷ ss) = ground (arith, numbered-le k ss)

missing-le-unfinished : (k : ℕ) (t : Thread) → missing k t ≤ unfinished t
missing-le-unfinished k t = omega (arith, numbered-le k t.todo, held t.place)
  where
    held : (p : Place) → held_missing k p ≤ held_unfinished p
    held (storing s) = ground arith
    held counting = omega arith
    held flooding = omega arith
    held reading = omega arith
    held checking = omega arith
    held testing = omega arith
    held leaving = omega arith
    held ended = omega arith

uncounted-le-unfinished : (t : Thread) → uncounted t ≤ unfinished t
uncounted-le-unfinished t = omega (arith, held t.place)
  where
    held : (p : Place) → held_uncounted p ≤ held_unfinished p
    held (storing s) = omega arith
    held counting = omega arith
    held flooding = omega arith
    held reading = omega arith
    held checking = omega arith
    held testing = omega arith
    held leaving = omega arith
    held ended = omega arith

pub missing-total : (k : ℕ) (ts : List Thread) → total (missing k) ts ≤ total unfinished ts
missing-total k ts = total-le (missing k) unfinished ts (missing-le-unfinished k)

pub uncounted-total : (ts : List Thread) → total uncounted ts ≤ total unfinished ts
uncounted-total ts = total-le uncounted unfinished ts uncounted-le-unfinished
