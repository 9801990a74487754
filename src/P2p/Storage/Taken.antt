-- ===== src/P2p/Storage/Taken.antt =====
-- What a receiving peer has taken of its segments (p2p.c).
use mathlib.Core.List.{Memᴰ, Permᴰ}
use mathlib.Core.List.Memᴰ
use network_camp.Prelude.{
  ℕ, suc, ◌+◌, ◌<◌, true, false, Option, some, List, [], ◌∷◌, ◌++◌, ◌≡◌, inl, inr, refl, ap, ap₂,
  sym, subst, ◌∙◌, arith, if◌then◌else◌, ◌==◌, ltb, leb, length, map, All, Bool-cases, ==→eq, eq→==,
}
use network_camp.P2p.{Segment}
use network_camp.P2p.Storage.{
  Peer, Event, from_sender, from_receiver, segment_of, save_segment, signal_finish, receive_segment,
  receive_segments, flood,
}

-- Rearranged lists have the same members and lengths.
pub All-Permᴰ : (P : Segment → Type 0) {xs ys : List Segment} → Permᴰ xs ys → All P xs → All P ys
All-Permᴰ P Permᴰ.nil h = tt
All-Permᴰ P (Permᴰ.cons e p) h = (subst P e h.0, All-Permᴰ P p h.1)
All-Permᴰ P (Permᴰ.swap e f) h = (subst P f h.1.0, (subst P e h.0, h.1.1))
All-Permᴰ P (Permᴰ.trans p q) h = All-Permᴰ P q (All-Permᴰ P p h)

pub Memᴰ-Permᴰ : {x : Segment} {xs ys : List Segment} → Permᴰ xs ys → Memᴰ x xs → Memᴰ x ys
Memᴰ-Permᴰ Permᴰ.nil m = m
Memᴰ-Permᴰ (Permᴰ.cons e p) (Memᴰ.head f) = Memᴰ.head (f ∙ e)
Memᴰ-Permᴰ (Permᴰ.cons e p) (Memᴰ.tail m) = Memᴰ.tail (Memᴰ-Permᴰ p m)
Memᴰ-Permᴰ (Permᴰ.swap e f) (Memᴰ.head g) = Memᴰ.tail (Memᴰ.head (g ∙ e))
Memᴰ-Permᴰ (Permᴰ.swap e f) (Memᴰ.tail (Memᴰ.head g)) = Memᴰ.head (g ∙ f)
Memᴰ-Permᴰ (Permᴰ.swap e f) (Memᴰ.tail (Memᴰ.tail m)) = Memᴰ.tail (Memᴰ.tail m)
Memᴰ-Permᴰ (Permᴰ.trans p q) m = Memᴰ-Permᴰ q (Memᴰ-Permᴰ p m)

pub length-Permᴰ : {xs ys : List Segment} → Permᴰ xs ys → length xs ≡ length ys
length-Permᴰ Permᴰ.nil = refl
length-Permᴰ (Permᴰ.cons e p) = ap suc (length-Permᴰ p)
length-Permᴰ (Permᴰ.swap e f) = refl
length-Permᴰ (Permᴰ.trans p q) = length-Permᴰ p ∙ length-Permᴰ q

module _ (seg : ℕ → Segment) (count : ℕ) where
  -- A segment in its place.
  abbrev pub IsPart : Segment → Type 0
  IsPart s = (s ≡ seg s.nth_segment) × (s.nth_segment < count)

  abbrev pub put : (ℕ → Option Segment) → Segment → ℕ → Option Segment
  put arr s k = if k == s.nth_segment then some s else arr k

  abbrev pub store : List Segment → (ℕ → Option Segment) → ℕ → Option Segment
  store [] arr = arr
  store (s ∷ ss) arr = store ss (put arr s)

  store_keeps :
      (ss : List Segment) (arr : ℕ → Option Segment) (k : ℕ)
      → All IsPart ss
      → arr k ≡ some (seg k)
      → store ss arr k ≡ some (seg k)
  store_keeps [] arr k a e = e
  store_keeps (s ∷ ss) arr k a e =
      store_keeps ss (put arr s) k a.1 (elim (Bool-cases (k == s.nth_segment)) [
        | inl same ↦ rw same (ap some (a.0.0 ∙ ap seg (sym (==→eq k s.nth_segment same))))
        | inr other ↦ rw other e
      ])

  pub store_mem :
      (s : Segment) {ss : List Segment}
      → Memᴰ s ss
      → (arr : ℕ → Option Segment) → All IsPart ss
      → store ss arr s.nth_segment ≡ some (seg s.nth_segment)
  store_mem s {ss = []} m arr a = elim (Memᴰ.not-nil m) [ ]
  store_mem s {ss = s' ∷ ss} (Memᴰ.head e) arr a = store_keeps ss (put arr s') s.nth_segment a.1 (
      rw (eq→== s.nth_segment s'.nth_segment (ap (λ (x : Segment). x.nth_segment) e))
        (ap some (a.0.0 ∙ ap (λ (x : Segment). seg x.nth_segment) (sym e))))
  store_mem s {ss = s' ∷ ss} (Memᴰ.tail m) arr a = store_mem s m (put arr s') a.1

  -- A peer that has taken the segments.
  abbrev pub taken : Peer → List Segment → ℕ → Peer
  taken p ss signals = record {
    segment_count = p.segment_count;
    segment_array = store ss p.segment_array;
    current_segment_cnt = p.current_segment_cnt + length ss;
    finished_segment_cnt = p.finished_segment_cnt + length ss;
    signals = signals;
  }

  -- One segment more: the condition is signalled if it is the last.
  abbrev next_signals : Peer → ℕ
  next_signals p = if leb count (p.current_segment_cnt + 1) then p.signals + 1 else p.signals

  receive_segment_lem :
      (receivers : ℕ) (p : Peer) (e : Event)
      → p.segment_count ≡ count
      → p.current_segment_cnt ≡ p.finished_segment_cnt
      → IsPart (segment_of e)
      → (out : List (ℕ × Segment)) × (receive_segment receivers p e
          ≡ some (taken p (segment_of e ∷ []) (next_signals p), out))
  unfolding receive_segment save_segment signal_finish
  receive_segment_lem receivers p (from_sender s) c same part =
      let inside : ltb s.nth_segment p.segment_count ≡ true = ground (arith, part.1) in
      elim (Bool-cases (leb count (p.current_segment_cnt + 1))) [
        | inl last ↦
            let over : leb p.segment_count (p.finished_segment_cnt + 1) ≡ true = ground arith in
            (flood receivers 0 s, rw (inside, last, over) refl)
        | inr more ↦
            let under : leb p.segment_count (p.finished_segment_cnt + 1) ≡ false = ground arith in
            (flood receivers 0 s, rw (inside, more, under) refl)
      ]
  receive_segment_lem receivers p (from_receiver s) c same part =
      let inside : ltb s.nth_segment p.segment_count ≡ true = ground (arith, part.1) in
      elim (Bool-cases (leb count (p.current_segment_cnt + 1))) [
        | inl last ↦
            let over : leb p.segment_count (p.finished_segment_cnt + 1) ≡ true = ground arith in
            let over' : leb p.segment_count (p.current_segment_cnt + 1) ≡ true = ground arith in
            ([], rw (inside, last, over', over) refl)
        | inr more ↦
            let under : leb p.segment_count (p.current_segment_cnt + 1) ≡ false = ground arith in
            ([], rw (inside, more, under) refl)
      ]

  -- All of the segments, the last of them among them.
  pub receive_segments_lem :
      (receivers : ℕ) (e : Event) (es : List Event) (p : Peer)
      → p.segment_count ≡ count
      → p.current_segment_cnt ≡ p.finished_segment_cnt
      → All IsPart (map segment_of (e ∷ es))
      → p.current_segment_cnt + length (e ∷ es) ≡ count
      → (out : List (ℕ × Segment)) × (receive_segments receivers p (e ∷ es)
          ≡ some (taken p (map segment_of (e ∷ es)) (p.signals + 1), out))
  unfolding receive_segments
  receive_segments_lem receivers e [] p c same a total =
      let (out, q) = receive_segment_lem receivers p e c same a.0 in
      let last : leb count (p.current_segment_cnt + 1) ≡ true = ground arith in
      (out ++ [], rw (q, last) refl)
  receive_segments_lem receivers e (e' ∷ es) p c same a total =
      let (out, q) = receive_segment_lem receivers p e c same a.0 in
      let more : leb count (p.current_segment_cnt + 1) ≡ false = ground arith in
      let now = taken p (segment_of e ∷ []) p.signals in
      let (outs, r) = receive_segments_lem receivers e' es now c (omega arith) a.1 (omega arith) in
      (
        out ++ outs,
        rw (q, more, r)
            (ap₂ (λ i j. some (at_counts i j, out ++ outs))
              {x = p.current_segment_cnt + 1 + length (map segment_of (e' ∷ es))}
              {y = p.current_segment_cnt + suc (length (map segment_of (e' ∷ es)))}
              {u = p.finished_segment_cnt + 1 + length (map segment_of (e' ∷ es))}
              {v = p.finished_segment_cnt + suc (length (map segment_of (e' ∷ es)))} (omega arith)
              (omega arith)),
      )
    where
      at_counts : ℕ → ℕ → Peer
      at_counts i j = record {
        segment_count = p.segment_count;
        segment_array = store (map segment_of (e ∷ e' ∷ es)) p.segment_array;
        current_segment_cnt = i;
        finished_segment_cnt = j;
        signals = p.signals + 1;
      }
