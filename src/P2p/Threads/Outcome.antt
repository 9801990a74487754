-- ===== src/P2p/Threads/Outcome.antt =====
-- What comes out when the threads of a peer interleave (p2p.c).
use mathlib.Core.List.{Memᴰ, Permᴰ}
use mathlib.Core.List.Memᴰ
use mathlib.Core.Option.{some-injective}
use network_camp.Prelude.{
  ℕ, zero, suc, ◌+◌, ◌<◌, Option, some, List, [], ◌∷◌, ◌++◌, ◌≡◌, ◌⊎◌, inl, inr, refl, ap, sym,
  subst, ◌∙◌, arith, length, length-append, map, All, eq→==,
}
use network_camp.P2p.{FileInfo, Segment}
use network_camp.P2p.Sender.{prepare_file, Sent, send_segment}
use network_camp.P2p.Split.{sent_from, joined, send_segment-eq-sent_from, joined-send_segment}
use network_camp.P2p.Storage.Taken.{IsPart, All-Permᴰ, Memᴰ-Permᴰ, length-Permᴰ}
use network_camp.P2p.Storage.Assembled.{
  part, segments, write_file_lem, parts_mem, parts-IsPart, length-parts,
}
use network_camp.P2p.Threads.{
  written, Role, reading, ended, Thread, Process, Steps, WaitsApart, begin, idle_threads,
}
use network_camp.P2p.Threads.Counts.{
  total, uncounted, unfinished, missing, closing, numbered, held_unfinished, closing_place,
}
use network_camp.P2p.Threads.Moves.{MainInv}
use network_camp.P2p.Threads.Invariant.{IsProper, Inv, Steps-Inv}
use network_camp.P2p.Threads.Runs.{brought}

total-uncounted :
    (ts : List (Role × List Segment)) → total uncounted (idle_threads ts) ≡ length (brought ts)
total-uncounted [] = refl
total-uncounted ((role, todo) ∷ ts) =
    omega (arith, total-uncounted ts, length-append todo (brought ts))

total-unfinished :
    (ts : List (Role × List Segment)) → total unfinished (idle_threads ts) ≡ length (brought ts)
total-unfinished [] = refl
total-unfinished ((role, todo) ∷ ts) =
    omega (arith, total-unfinished ts, length-append todo (brought ts))

numbered-append :
    (k : ℕ) (xs ys : List Segment) → numbered k (xs ++ ys) ≡ numbered k xs + numbered k ys
numbered-append k [] ys = omega arith
numbered-append k (x ∷ xs) ys = omega (arith, numbered-append k xs ys)

total-missing :
    (k : ℕ) (ts : List (Role × List Segment))
    → total (missing k) (idle_threads ts) ≡ numbered k (brought ts)
total-missing k [] = refl
total-missing k ((role, todo) ∷ ts) =
    omega (arith, total-missing k ts, numbered-append k todo (brought ts))

numbered_mem : (s : Segment) {ss : List Segment} → Memᴰ s ss → 0 < numbered s.nth_segment ss
numbered_mem s {ss = []} m = elim (Memᴰ.not-nil m) [ ]
numbered_mem s {ss = x ∷ ss} (Memᴰ.head e) =
    let here = eq→== s.nth_segment x.nth_segment (ap (λ (y : Segment). y.nth_segment) e) in
    ground (arith, here)
numbered_mem s {ss = x ∷ ss} (Memᴰ.tail m) = omega (arith, numbered_mem s m)

module _ (seg : ℕ → Segment) (count : ℕ) (whole : List ℕ) where
  IsProper-idle_threads :
      (ts : List (Role × List Segment))
      → All (IsPart seg count) (brought ts)
      → All (IsProper seg count whole) (idle_threads ts)
  IsProper-idle_threads [] a = tt
  IsProper-idle_threads ((role, todo) ∷ ts) a =
      let (front, back) = All-split todo (brought ts) a in
      ((front, tt), IsProper-idle_threads ts back)
    where
      All-split :
          (xs ys : List Segment)
          → All (IsPart seg count) (xs ++ ys)
          → All (IsPart seg count) xs × All (IsPart seg count) ys
      All-split [] ys a = (tt, a)
      All-split (x ∷ xs) ys a = let (f, b) = All-split xs ys a.1 in ((a.0, f), b)

-- The hypotheses on a file: how it was prepared and sent, and that the threads of the peer bring its
-- segments, each once, in any order.
pub record Delivered (name file : List ℕ) (size m : ℕ) (info : FileInfo) (out : List Sent)
    (ts : List (Role × List Segment)) : Type 0 where
  pub receivers : 0 < m
  pub content : 0 < length file
  pub prepared : prepare_file name (length file) size m ≡ some info
  pub sent : send_segment info m file ≡ some out
  pub brings : Permᴰ (map (λ (x : Sent). x.file_segment) out) (brought ts)

module _ {name file : List ℕ} {size m : ℕ} {info : FileInfo} {out : List Sent}
    {ts : List (Role × List Segment)} (d : Delivered name file size m info out ts) where
  abbrev n : ℕ
  n = info.segment_count

  same : out ≡ sent_from size m file 0 n
  same =
      some-injective _ _
        (sym d.sent ∙ send_segment-eq-sent_from name file size m info d.receivers d.prepared)

  whole : joined (sent_from size m file 0 n) ≡ file
  whole =
      ap joined (sym same)
      ∙ joined-send_segment name file size m info out d.receivers d.prepared d.sent

  perm : Permᴰ (segments size m file (sent_from size m file 0 n)) (brought ts)
  perm = subst (λ l. Permᴰ (map (λ (x : Sent). x.file_segment) l) (brought ts)) same d.brings

  pub size_brought : length (brought ts) ≡ n
  size_brought = sym (length-Permᴰ perm) ∙ length-parts size m file n 0

  pub some_segments : 0 < n
  unfolding sent_from
  some_segments = at_least_one n whole
    where
      at_least_one : (k : ℕ) → joined (sent_from size m file 0 k) ≡ file → 0 < k
      at_least_one zero e = absurd (omega (arith, ap (length {0}) e, d.content))
      at_least_one (suc k) e = omega arith

  begin-Inv : Inv (part size m file) n file (begin n ts).shared (begin n ts).threads
  begin-Inv = record {
    sized = refl;
    counted = omega (arith, total-uncounted ts, size_brought);
    finished = omega (arith, total-unfinished ts, size_brought);
    proper = IsProper-idle_threads (part size m file) n file ts (
        All-Permᴰ (IsPart (part size m file) n) perm
          (parts-IsPart size m file n n 0 (omega arith)));
    stored = λ k lt. inr (
        omega (
          arith,
          total-missing k ts,
          numbered_mem (part size m file k)
              (Memᴰ-Permᴰ perm (parts_mem size m file n 0 k (omega arith) (omega arith))),
        ));
    called = λ all. absurd (omega (arith, all, some_segments));
    main = tt;
  }

  pub reached :
      {p : Process} → Steps (begin n ts) p → Inv (part size m file) n file p.shared p.threads
  reached r =
      Steps-Inv (part size m file) n file
        (λ arr h. write_file_lem size m file arr n 0 (λ k lo hi. h k (omega arith)) ∙ ap some whole)
        r begin-Inv

-- When the file is not empty and there is a receiver, the file was prepared and its segments were
-- sent, and the connections of a peer bring each segment once, then, in whatever order the steps of
-- the threads and of `main` interleave, when no thread is about to take a lock at the moment at
-- which `main` begins to wait, which it does without the lock, what `main` writes, if it comes to
-- that, is the file of the sender.
pub main-written :
    (name file : List ℕ) (size m : ℕ) (info : FileInfo) (out : List Sent)
    (ts : List (Role × List Segment)) (p : Process) (o : Option (List ℕ))
    (r : Steps (begin info.segment_count ts) p)
    → 0 < m
    → 0 < length file
    → prepare_file name (length file) size m ≡ some info
    → send_segment info m file ≡ some out
    → Permᴰ (map (λ (x : Sent). x.file_segment) out) (brought ts)
    → WaitsApart r
    → p.shared.main ≡ written o
    → o ≡ some file
main-written name file size m info out ts p o r a b c e f apart w =
    let d : Delivered name file size m info out ts = record {
      receivers = a;
      content = b;
      prepared = c;
      sent = e;
      brings = f;
    } in
    (subst (λ x. MainInv (part size m file) info.segment_count file x p.shared.finished_segment_cnt)
      w (reached d r).main).1

-- A thread that has read all its segments and is behind its counters and tests.
abbrev pub IsAtRest : Thread → Type 0
IsAtRest t = (t.todo ≡ []) × ((t.place ≡ reading) ⊎ (t.place ≡ ended))

pub at_rest-total :
    (ts : List Thread) → All IsAtRest ts → (total unfinished ts ≡ 0) × (total closing ts ≡ 0)
at_rest-total [] a = (refl, refl)
at_rest-total (t ∷ ts) a =
    let (u, c) = at_rest-total ts a.1 in
    elim a.0.1 [
      | inl e ↦ (
        omega (arith, u, ap (length {0}) a.0.0, ap held_unfinished e),
        omega (arith, c, ap closing_place e),
      )
      | inr e ↦ (
        omega (arith, u, ap (length {0}) a.0.0, ap held_unfinished e),
        omega (arith, c, ap closing_place e),
      )
    ]

-- When the file is not empty and there is a receiver, the file was prepared and its segments were
-- sent, and the connections of a peer bring each segment once, then, in whatever order the steps
-- interleave, once every thread has read all its segments and is behind its counters and tests, the
-- end was signalled.
pub signals-at_rest :
    (name file : List ℕ) (size m : ℕ) (info : FileInfo) (out : List Sent)
    (ts : List (Role × List Segment)) (p : Process)
    → 0 < m
    → 0 < length file
    → prepare_file name (length file) size m ≡ some info
    → send_segment info m file ≡ some out
    → Permᴰ (map (λ (x : Sent). x.file_segment) out) (brought ts)
    → Steps (begin info.segment_count ts) p
    → All IsAtRest p.threads
    → 0 < p.shared.signals
signals-at_rest name file size m info out ts p a b c e f r rest =
    let d : Delivered name file size m info out ts = record {
      receivers = a;
      content = b;
      prepared = c;
      sent = e;
      brings = f;
    } in
    let h = reached d r in
    let (u, k) = at_rest-total p.threads rest in
    omega (arith, h.called (omega (arith, h.finished, u)), k)
