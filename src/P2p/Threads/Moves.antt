-- ===== src/P2p/Threads/Moves.antt =====
-- A step of one thread of a peer (p2p.c) keeps the invariant of the peer.
use mathlib.Core.Option.{some-injective}
use network_camp.Prelude.{
  ℕ, ◌+◌, ◌≤◌, ◌<◌, some, List, [], ◌∷◌, ◌≡◌, ◌⊎◌, inl, inr, refl, ap, sym, subst, ◌∙◌, arith,
  if◌then◌else◌, ◌==◌, ltb, leb, length, All, Bool-cases, ==→eq,
}
use network_camp.P2p.{Segment}
use network_camp.P2p.Storage.Taken.{IsPart}
use network_camp.P2p.Threads.{
  Main, starting, waiting, woken, written, wake, Shared, Role, accpt_snd_seg, accpt_rcv_seg, Place,
  reading, storing, counting, flooding, checking, testing, leaving, ended, signal_finished,
  store_segment, count_current, count_finished, move,
}
use network_camp.P2p.Threads.Counts.{
  held_uncounted, held_unfinished, numbered, held_missing, closing_place,
}

no_more : (todo : List Segment) → length todo ≡ 0 → todo ≡ []
no_more [] e = refl
no_more (s ∷ todo) e = absurd (omega arith)

-- For a file of `count` segments, the `k`-th of them `seg k`, whose bytes are `whole`.
module _ (seg : ℕ → Segment) (count : ℕ) (whole : List ℕ) where
  -- `main` is woken when all is finished, and writes the file.
  abbrev pub MainInv : Main → ℕ → Type 0
  MainInv starting finished = Unit
  MainInv waiting finished = Unit
  MainInv woken finished = count ≤ finished
  MainInv (written o) finished = (count ≤ finished) × (o ≡ some whole)

  -- What a thread holds is a part of the file; one that leaves has read everything.
  abbrev pub Held : Place → List Segment → Type 0
  Held (storing s) todo = IsPart seg count s
  Held leaving todo = todo ≡ []
  Held ended todo = todo ≡ []
  Held _ todo = Unit

  -- What is stored, or that somebody has still to store it.
  abbrev pub Stored : Shared → (ℕ → ℕ) → Type 0
  Stored g left = (k : ℕ) → k < count → (g.segment_array k ≡ some (seg k)) ⊎ (0 < left k)

  -- The invariant seen from one thread: `u`, `f`, `c` and `m` are the sums over the other threads.
  pub record Local (u f c : ℕ) (m : ℕ → ℕ) (g : Shared) (place : Place) (todo : List Segment)
      : Type 0 where
    pub sized : g.segment_count ≡ count
    pub order : u ≤ f
    pub counted : g.current_segment_cnt + (length todo + held_uncounted place + u) ≡ count
    pub finished : g.finished_segment_cnt + (length todo + held_unfinished place + f) ≡ count
    pub parts : All (IsPart seg count) todo
    pub held : Held place todo
    pub stored : Stored g (λ k. numbered k todo + held_missing k place + m k)
    pub called : count ≤ g.finished_segment_cnt → 0 < g.signals + closing_place place + c
    pub main : MainInv g.main g.finished_segment_cnt

  MainInv-wake : (m : Main) (n : ℕ) → count ≤ n → MainInv m n → MainInv (wake m) n
  MainInv-wake starting n h i = tt
  MainInv-wake waiting n h i = h
  MainInv-wake woken n h i = h
  MainInv-wake (written o) n h i = i

  MainInv-suc : (m : Main) (n : ℕ) → MainInv m n → MainInv m (n + 1)
  MainInv-suc starting n i = tt
  MainInv-suc waiting n i = tt
  MainInv-suc woken n i = omega arith
  MainInv-suc (written o) n i = (omega (arith, i.0), i.1)

  module _ (u f c : ℕ) (m : ℕ → ℕ) where
    abbrev Here : Shared → Place → List Segment → Type 0
    Here = Local u f c m

    Local-read :
        (g : Shared) (s : Segment) (todo : List Segment)
        → Here g reading (s ∷ todo)
        → Here g (storing s) todo
    Local-read g s todo h = record {
      sized = h.sized;
      order = h.order;
      counted = omega (arith, h.counted);
      finished = omega (arith, h.finished);
      parts = h.parts.1;
      held = h.parts.0;
      stored = λ k lt. elim (h.stored k lt) [ inl e ↦ inl e | inr e ↦ inr (omega (arith, e)) ];
      called = λ all. omega (arith, h.called all);
      main = h.main;
    }

    Local-store :
        (g : Shared) (s : Segment) (todo : List Segment)
        → Here g (storing s) todo
        → Here (store_segment g s) counting todo
    unfolding store_segment
    Local-store g s todo h = record {
      sized = h.sized;
      order = h.order;
      counted = omega (arith, h.counted);
      finished = omega (arith, h.finished);
      parts = h.parts;
      held = tt;
      stored = λ k lt. elim (Bool-cases (k == s.nth_segment)) [
        | inl same ↦ inl (rw same (ap some (h.held.0 ∙ ap seg (sym (==→eq k s.nth_segment same)))))
        | inr other ↦ elim (h.stored k lt) [
          | inl e ↦ inl (rw other e)
          | inr e ↦ inr (ground (arith, e, other))
        ]
      ];
      called = λ all. omega (arith, h.called all);
      main = h.main;
    }

    -- The steps that only count, or move on.
    Local-count_current :
        (g : Shared) (todo : List Segment)
        → Here g counting todo
        → Here (count_current g) flooding todo
    unfolding count_current
    Local-count_current g todo h = record {
      sized = h.sized;
      order = h.order;
      counted = omega (arith, h.counted);
      finished = omega (arith, h.finished);
      parts = h.parts;
      held = tt;
      stored = h.stored;
      called = λ all. omega (arith, h.called all);
      main = h.main;
    }

    Local-count_finished :
        (g : Shared) (todo : List Segment)
        → Here g flooding todo
        → Here (count_finished g) checking todo
    unfolding count_finished
    Local-count_finished g todo h = record {
      sized = h.sized;
      order = h.order;
      counted = omega (arith, h.counted);
      finished = omega (arith, h.finished);
      parts = h.parts;
      held = tt;
      stored = h.stored;
      called = λ all. omega arith;
      main = MainInv-suc g.main g.finished_segment_cnt h.main;
    }

    -- A thread goes to a place where it holds as much.
    Local-place :
        (g : Shared) (place place' : Place) (todo : List Segment)
        → held_uncounted place ≡ held_uncounted place'
        → held_unfinished place ≡ held_unfinished place'
        → ((k : ℕ) → held_missing k place ≡ held_missing k place')
        → Held place' todo
        → (count ≤ g.finished_segment_cnt → 0 < g.signals + closing_place place' + c)
        → Here g place todo
        → Here g place' todo
    Local-place g place place' todo a b d held called h = record {
      sized = h.sized;
      order = h.order;
      counted = omega (arith, a, h.counted);
      finished = omega (arith, b, h.finished);
      parts = h.parts;
      held = held;
      stored = λ k lt. elim (h.stored k lt) [ inl e ↦ inl e | inr e ↦ inr (omega (arith, e, d k)) ];
      called = called;
      main = h.main;
    }

    -- `accpt_rcv_seg` goes on only while not all is counted.
    Local-tested :
        (g : Shared) (todo : List Segment)
        → Here g testing todo
        → Here g (if leb g.segment_count g.current_segment_cnt then leaving else reading) todo
    Local-tested g todo h = elim (Bool-cases (leb g.segment_count g.current_segment_cnt)) [
      | inl all ↦ rw all (
          Local-place g testing leaving todo refl refl (λ k. refl)
            (no_more todo (ground (arith, all, h.sized, h.counted))) h.called h)
      | inr more ↦ rw more (
          Local-place g testing reading todo refl refl (λ k. refl) tt
            (λ all. absurd (ground (arith, h.sized, h.order, h.counted, h.finished, all))) h)
    ]

    -- The signal is given if all is finished.
    Local-signal :
        (g : Shared) (place : Place) (todo : List Segment)
        → Here g place todo
        → (Here (signal_finished g) place todo)
          × (count ≤ (signal_finished g).finished_segment_cnt → 0 < (signal_finished g).signals)
    unfolding signal_finished
    Local-signal g place todo h = elim (Bool-cases (leb g.segment_count g.finished_segment_cnt)) [
      | inl all ↦ rw all (
        record {
          sized = h.sized;
          order = h.order;
          counted = h.counted;
          finished = h.finished;
          parts = h.parts;
          held = h.held;
          stored = h.stored;
          called = λ _. omega arith;
          main = MainInv-wake g.main g.finished_segment_cnt (ground (arith, h.sized)) h.main;
        },
        λ _. omega arith,
      )
      | inr more ↦ rw more (h, λ all. absurd (ground (arith, h.sized, all)))
    ]

    Local-signalled :
        (g : Shared) (place place' : Place) (todo : List Segment)
        → held_uncounted place ≡ held_uncounted place'
        → held_unfinished place ≡ held_unfinished place'
        → ((k : ℕ) → held_missing k place ≡ held_missing k place')
        → Held place' todo
        → Here g place todo
        → Here (signal_finished g) place' todo
    Local-signalled g place place' todo a b d held h =
        let (h', called) = Local-signal g place todo h in
        Local-place (signal_finished g) place place' todo a b d held
          (λ all. omega (arith, called all)) h'

    abbrev After : Shared × Place × List Segment → Type 0
    After r = Here r.0 r.1 r.2

    pub move-Local :
        (g : Shared) (role : Role) (place : Place) (todo : List Segment)
        (r : Shared × Place × List Segment)
        → move g role place todo ≡ some r
        → Here g place todo
        → After r
    unfolding move
    move-Local g role reading (s ∷ todo) r e h =
        subst After (some-injective _ r e) (Local-read g s todo h)
    move-Local g accpt_snd_seg reading [] r e h =
        subst After (some-injective _ r e)
          (Local-place g reading ended [] refl refl (λ k. refl) refl h.called h)
    move-Local g accpt_rcv_seg reading [] r e h =
        subst After (some-injective _ r e)
          (Local-place g reading leaving [] refl refl (λ k. refl) refl (λ all. omega arith) h)
    move-Local g role (storing s) todo r e h =
        elim (Bool-cases (ltb s.nth_segment g.segment_count)) [
          | inl inside ↦ subst After (some-injective _ r (rw inside at e)) (Local-store g s todo h)
          | inr outside ↦ cc (rw outside at e)
        ]
    move-Local g accpt_snd_seg counting todo r e h =
        subst After (some-injective _ r e) (Local-count_current g todo h)
    move-Local g accpt_rcv_seg counting todo r e h = subst After (some-injective _ r e) (
        let h' = Local-count_finished (count_current g) todo (Local-count_current g todo h) in
        Local-place (count_finished (count_current g)) checking testing todo refl refl (λ k. refl)
          tt h'.called h')
    move-Local g role flooding todo r e h =
        subst After (some-injective _ r e) (Local-count_finished g todo h)
    move-Local g role checking todo r e h =
        subst After (some-injective _ r e)
          (Local-signalled g checking reading todo refl refl (λ k. refl) tt h)
    move-Local g role testing todo r e h =
        subst After (some-injective _ r e) (Local-tested g todo h)
    move-Local g role leaving todo r e h =
        subst After (some-injective _ r e)
          (Local-signalled g leaving ended todo refl refl (λ k. refl) h.held h)
    move-Local g role ended todo r e h = cc
