-- ===== src/P2p/Display/Receiving.antt =====
-- What a receiving peer shows (p2p.c).
use mathlib.Core.List.{Permᴰ}
use network_camp.Prelude.{
  ℕ, ◌+◌, ◌<◌, some, List, [], ◌∷◌, ◌++◌, ◌≡◌, refl, ap, sym, ◌∙◌, arith, length, length-append,
  length-map, map,
}
use network_camp.Progress.{bar, IsBar, full_bar, bar_lem, bar_full}
use network_camp.P2p.{FileInfo, Segment, Receiver}
use network_camp.P2p.Sender.{prepare_file, Sent, send_segment}
use network_camp.P2p.Split.{joined, joined-send_segment}
use network_camp.P2p.Storage.Taken.{length-Permᴰ}
use network_camp.P2p.Display.{
  Shown, Stored, stored_segment, peer_of, print_receiver_progress, show_stored,
}
use network_camp.P2p.Display.Sending.{prepare_file-total}

-- The bytes of segments.
abbrev bytes : List Segment → ℕ
bytes [] = 0
bytes (s ∷ ss) = length s.segment + bytes ss

bytes-Permᴰ : {xs ys : List Segment} → Permᴰ xs ys → bytes xs ≡ bytes ys
bytes-Permᴰ Permᴰ.nil = refl
bytes-Permᴰ (Permᴰ.cons e p) =
    omega (arith, ap (λ (s : Segment). length s.segment) e, bytes-Permᴰ p)
bytes-Permᴰ (Permᴰ.swap e f) =
    omega
      (arith, ap (λ (s : Segment). length s.segment) e, ap (λ (s : Segment). length s.segment) f)
bytes-Permᴰ (Permᴰ.trans p q) = bytes-Permᴰ p ∙ bytes-Permᴰ q

bytes-joined :
    (out : List Sent) → bytes (map (λ (x : Sent). x.file_segment) out) ≡ length (joined out)
bytes-joined [] = refl
bytes-joined (x ∷ out) =
    omega (arith, bytes-joined out, length-append x.file_segment.segment (joined out))

-- The line of each call is below that of the call before, and every bar fits.
abbrev pub AreLines : ℕ → List Shown → Type 0
AreLines line [] = Unit
AreLines line (s ∷ shown) = ((s.line ≡ line) × IsBar s.total_bar) × AreLines (line + 1) shown

module _ (socks : List ℕ) (receivers : List Receiver) (info : FileInfo) where
  show_stored_lem :
      (e : Stored) (events : List Stored) (accum count : ℕ)
      → 0 < info.total_file_size
      → accum + bytes (map stored_segment (e ∷ events)) ≡ info.total_file_size
      → (shown : List Shown) × (end : Shown) × (show_stored socks receivers info accum count
            (e ∷ events)
          ≡ some (shown ++ end ∷ []))
        × AreLines (count + 1) (shown ++ end ∷ [])
        × (end.total_bar ≡ full_bar)
        × (end.line ≡ count + length (e ∷ events))
  unfolding show_stored print_receiver_progress
  show_stored_lem e [] accum count pos t =
      let len = length (stored_segment e).segment in
      let full : bar (accum + len) info.total_file_size ≡ some full_bar =
        ap (λ a. bar a info.total_file_size) {x = accum + len} {y = info.total_file_size}
          (omega (arith, t))
        ∙ bar_full info.total_file_size pos in
      (
        [],
        record {
          total_bar = full_bar;
          accum_sent_len = accum + len;
          line = count + 1;
          peer_num = peer_of socks receivers e;
          sent_len = len;
          moves_down = 0;
        },
        rw full refl,
        ((refl, (omega arith, omega arith)), tt),
        refl,
        refl,
      )
  show_stored_lem e (f ∷ events) accum count pos t =
      let len = length (stored_segment e).segment in
      let (b, at, fits) = bar_lem (accum + len) info.total_file_size pos (omega (arith, t)) in
      let (shown, end, r, a, z, l) =
        show_stored_lem f events (accum + len) (count + 1) pos (omega (arith, t)) in
      (
        record {
          total_bar = b;
          accum_sent_len = accum + len;
          line = count + 1;
          peer_num = peer_of socks receivers e;
          sent_len = len;
          moves_down = 0;
        }
            ∷ shown,
        end,
        rw (at, r) refl,
        ((refl, fits), a),
        z,
        omega (arith, l),
      )

-- When a peer stores each segment of a prepared file that is not empty once, in any order, every
-- bar that it shows fits its places, each segment is shown on the line below the one before, and
-- the last bar is full.
pub show_stored-Permᴰ :
    (name file : List ℕ) (size m : ℕ) (info : FileInfo) (out : List Sent) (socks : List ℕ)
    (receivers : List Receiver) (events : List Stored)
    → 0 < m
    → 0 < length file
    → prepare_file name (length file) size m ≡ some info
    → send_segment info m file ≡ some out
    → Permᴰ (map (λ (x : Sent). x.file_segment) out) (map stored_segment events)
    → (shown : List Shown) × (end : Shown) × (show_stored socks receivers info 0 0 events
        ≡ some (shown ++ end ∷ []))
      × AreLines 1 (shown ++ end ∷ [])
      × (end.total_bar ≡ full_bar)
      × (end.line ≡ length out)
show_stored-Permᴰ name file size m info out socks receivers events pos some_bytes e sent perm =
    let total = prepare_file-total name (length file) size m info e in
    let sum =
      ap (length {0}) (sym (joined-send_segment name file size m info out pos e sent))
      ∙ sym (bytes-joined out)
      ∙ bytes-Permᴰ perm in
    by_events events (omega (arith, total, some_bytes)) (omega (arith, total, sum)) (
      omega (
        arith,
        length-Permᴰ perm,
        length-map stored_segment events,
        length-map (λ (x : Sent). x.file_segment) out,
      ))
  where
    by_events :
        (events : List Stored)
        → 0 < info.total_file_size
        → bytes (map stored_segment events) ≡ info.total_file_size
        → length events ≡ length out
        → (shown : List Shown) × (end : Shown) × (show_stored socks receivers info 0 0 events
            ≡ some (shown ++ end ∷ []))
          × AreLines 1 (shown ++ end ∷ [])
          × (end.total_bar ≡ full_bar)
          × (end.line ≡ length out)
    by_events [] pos sum len = absurd (omega arith)
    by_events (x ∷ events) pos sum len =
        let (shown, end, r, a, z, l) =
          show_stored_lem socks receivers info x events 0 0 pos (omega (arith, sum)) in
        (shown, end, r, a, z, omega (arith, l, len))
