-- ===== src/P2p/Storage/Assembled.antt =====
-- The file that a receiving peer writes (p2p.c).
use mathlib.Core.Option.{some-injective}
use mathlib.Core.List.{Memᴰ, Permᴰ}
use mathlib.Core.List.Permᴰ
use network_camp.Prelude.{
  ℕ, zero, suc, ◌+◌, ◌≤◌, ◌<◌, Option, none, some, List, [], ◌∷◌, ◌++◌, ◌≡◌, inl, inr, refl, ap,
  sym, subst, ◌∙◌, arith, if◌then◌else◌, ◌==◌, length, length-map, map, All, Bool-cases, ==→eq,
}
use network_camp.P2p.{FileInfo, Segment}
use network_camp.P2p.Sender.{prepare_file, Sent, send_segment}
use network_camp.P2p.Split.{
  nth_sent, sent_from, send_segment-eq-sent_from, joined, joined-send_segment,
}
use network_camp.P2p.Storage.{
  Peer, Event, from_sender, from_receiver, segment_of, receive_segments, write_file, written_file,
  fresh,
}
use network_camp.P2p.Storage.Taken.{
  All-Permᴰ, Memᴰ-Permᴰ, length-Permᴰ, IsPart, store, taken, store_mem, receive_segments_lem,
}

-- The segments of a file.
module _ (size m : ℕ) (file : List ℕ) where
  abbrev pub part : ℕ → Segment
  part k = (nth_sent size m file k).file_segment

  abbrev pub segments : List Sent → List Segment
  segments out = map (λ (x : Sent). x.file_segment) out

  pub write_file_lem :
      (arr : ℕ → Option Segment) (n i : ℕ)
      → ((k : ℕ) → i ≤ k → k < i + n → arr k ≡ some (part k))
      → write_file arr i n ≡ some (joined (sent_from size m file i n))
  unfolding write_file sent_from
  write_file_lem arr zero i h = refl
  write_file_lem arr (suc n) i h =
      rw
        (
          h i (omega arith) (omega arith),
          write_file_lem arr n (i + 1) (λ k lo hi. h k (omega arith) (omega arith)),
        )
        refl

  pub parts_mem :
      (n i k : ℕ) → i ≤ k → k < i + n → Memᴰ (part k) (segments (sent_from size m file i n))
  unfolding sent_from
  parts_mem zero i k lo hi = absurd (omega arith)
  parts_mem (suc n) i k lo hi = elim (Bool-cases (i == k)) [
    | inl same ↦ Memᴰ.head (ap part (sym (==→eq i k same)))
    | inr other ↦ Memᴰ.tail (parts_mem n (i + 1) k (ground arith) (omega arith))
  ]

  pub parts-IsPart :
      (count n i : ℕ)
      → i + n ≤ count
      → All (IsPart part count) (segments (sent_from size m file i n))
  unfolding sent_from
  parts-IsPart count zero i h = tt
  parts-IsPart count (suc n) i h = ((refl, omega arith), parts-IsPart count n (i + 1) (omega arith))

  pub length-parts : (n i : ℕ) → length (segments (sent_from size m file i n)) ≡ n
  unfolding sent_from
  length-parts zero i = refl
  length-parts (suc n) i = ap suc (length-parts n (i + 1))

  -- A peer that takes all the segments, in any order, can write them one after the other.
  take_parts :
      (receivers n : ℕ) (events : List Event)
      → 0 < n
      → Permᴰ (segments (sent_from size m file 0 n)) (map segment_of events)
      → (p : Peer) × (sent : List (ℕ × Segment)) × (receive_segments receivers (fresh n) events
          ≡ some (p, sent))
        × (written_file p ≡ some (joined (sent_from size m file 0 n)))
        × (p.signals ≡ 1)
  take_parts receivers n [] pos perm = absurd (omega (arith, length-Permᴰ perm, length-parts n 0))
  take_parts receivers n (e ∷ es) pos perm =
      let members = map segment_of (e ∷ es) in
      let wf : All (IsPart part n) members =
        All-Permᴰ (IsPart part n) perm (parts-IsPart n n 0 (omega arith)) in
      let total : length members ≡ n = sym (length-Permᴰ perm) ∙ length-parts n 0 in
      let total' : length (e ∷ es) ≡ n = sym (length-map segment_of (e ∷ es)) ∙ total in
      let (sent, r) =
        receive_segments_lem part n receivers e es (fresh n) refl refl wf (omega arith) in
      (
        taken part n (fresh n) members 1,
        sent,
        r,
        ap (write_file (store part n members (λ k. none)) 0) (omega (arith, total))
            ∙ write_file_lem (store part n members (λ k. none)) n 0 (λ k lo hi.
              store_mem part n (part k) (Memᴰ-Permᴰ perm (parts_mem n 0 k lo hi)) (λ j. none) wf),
        refl,
      )

-- What a peer takes from the sender, and from the other receivers.
abbrev pub from_sender_segments : List Event → List Segment
from_sender_segments [] = []
from_sender_segments (from_sender s ∷ es) = s ∷ from_sender_segments es
from_sender_segments (from_receiver s ∷ es) = from_sender_segments es

abbrev pub from_receiver_segments : List Event → List Segment
from_receiver_segments [] = []
from_receiver_segments (from_sender s ∷ es) = from_receiver_segments es
from_receiver_segments (from_receiver s ∷ es) = s ∷ from_receiver_segments es

-- What the sender writes to receiver `i`, and what it writes to the others.
abbrev pub written_to : ℕ → List Sent → List Segment
written_to i [] = []
written_to i (x ∷ xs) =
    if x.rr_index == i then x.file_segment ∷ written_to i xs else written_to i xs

abbrev pub written_elsewhere : ℕ → List Sent → List Segment
written_elsewhere i [] = []
written_elsewhere i (x ∷ xs) =
    if x.rr_index == i then written_elsewhere i xs else x.file_segment ∷ written_elsewhere i xs

Permᴰ_middle : (x : Segment) (xs ys : List Segment) → Permᴰ (x ∷ (xs ++ ys)) (xs ++ x ∷ ys)
Permᴰ_middle x [] ys = Permᴰ.refl (x ∷ ys)
Permᴰ_middle x (y ∷ xs) ys =
    Permᴰ.trans (Permᴰ.swap refl refl) (Permᴰ.cons refl (Permᴰ_middle x xs ys))

Permᴰ-events :
    (es : List Event)
    → Permᴰ (from_sender_segments es ++ from_receiver_segments es) (map segment_of es)
Permᴰ-events [] = Permᴰ.nil
Permᴰ-events (from_sender s ∷ es) = Permᴰ.cons refl (Permᴰ-events es)
Permᴰ-events (from_receiver s ∷ es) =
    Permᴰ.trans (Permᴰ.symm (Permᴰ_middle s (from_sender_segments es) (from_receiver_segments es)))
      (Permᴰ.cons refl (Permᴰ-events es))

Permᴰ-written :
    (i : ℕ) (out : List Sent)
    → Permᴰ (map (λ (x : Sent). x.file_segment) out) (written_to i out ++ written_elsewhere i out)
Permᴰ-written i [] = Permᴰ.nil
Permᴰ-written i (x ∷ xs) = elim (Bool-cases (x.rr_index == i)) [
  | inl here ↦ rw here (Permᴰ.cons refl (Permᴰ-written i xs))
  | inr there ↦ rw there (
      Permᴰ.trans (Permᴰ.cons refl (Permᴰ-written i xs))
        (Permᴰ_middle x.file_segment (written_to i xs) (written_elsewhere i xs)))
]

-- When a peer takes from the sender what the sender writes to it, and from the other receivers, in
-- any order and interleaving, what the sender writes to them, it takes every segment of the
-- prepared file without leaving `segment_array`, the file that it writes is the file of the sender,
-- and the end was signalled once; the file is not empty and there is a receiver.
pub written_file-receive_segments :
    (name file : List ℕ) (size receiver_max i receivers : ℕ) (info : FileInfo) (out : List Sent)
    (events : List Event)
    → 0 < receiver_max
    → 0 < length file
    → prepare_file name (length file) size receiver_max ≡ some info
    → send_segment info receiver_max file ≡ some out
    → from_sender_segments events ≡ written_to i out
    → Permᴰ (written_elsewhere i out) (from_receiver_segments events)
    → (p : Peer) × (sent : List (ℕ × Segment)) × (receive_segments receivers
          (fresh info.segment_count)
          events
        ≡ some (p, sent))
      × (written_file p ≡ some file)
      × (p.signals ≡ 1)
unfolding sent_from
written_file-receive_segments name file size m i receivers info out events pos some_bytes e sent own
      others =
    let same =
      some-injective _ _ (sym sent ∙ send_segment-eq-sent_from name file size m info pos e) in
    let whole = joined-send_segment name file size m info out pos e sent in
    let perm = Permᴰ.trans (Permᴰ-written i out) (
      Permᴰ.trans
        (subst
          (λ l.
            Permᴰ (l ++ written_elsewhere i out)
              (from_sender_segments events ++ from_receiver_segments events))
          own (Permᴰ.append_left (from_sender_segments events) others))
        (Permᴰ-events events)) in
    let (p, outs, r, w, s) =
      take_parts size m file receivers info.segment_count events
        (at_least_one info.segment_count same whole)
        (subst (λ l. Permᴰ (map (λ (x : Sent). x.file_segment) l) (map segment_of events)) same
          perm) in
    (p, outs, r, w ∙ ap (λ l. some (joined l)) (sym same) ∙ ap some whole, s)
  where
    at_least_one : (n : ℕ) → out ≡ sent_from size m file 0 n → joined out ≡ file → 0 < n
    at_least_one zero a b = absurd (omega (arith, ap (length {0}) (sym b ∙ ap joined a)))
    at_least_one (suc n) a b = omega arith
