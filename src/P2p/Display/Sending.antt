-- ===== src/P2p/Display/Sending.antt =====
-- What the sender shows (p2p.c).
use mathlib.Core.Option.{some-injective}
use network_camp.Prelude.{
  ℕ, zero, suc, ◌+◌, ◌-◌, ◌*◌, ◌/◌, ◌<◌, true, false, some, List, [], ◌∷◌, ◌++◌, ◌≡◌, refl, ap, sym,
  subst, ◌∙◌, arith, leb, length, length-append, length-take, take, drop, ◌%◌, All,
}
use network_camp.Progress.{bar, IsBar, full_bar, bar_lem, bar_full}
use network_camp.P2p.{FileInfo}
use network_camp.P2p.Sender.{prepare_file, Sent, send_segment}
use network_camp.P2p.Split.{
  sent_from, joined, send_segment-eq-sent_from, joined-send_segment, prepare_file-count,
  segment_count-fits,
}
use network_camp.P2p.Display.{Shown, print_sender_progress, show_sent}

-- Shown before the end: a bar that fits, and no move to the end of the lines.
abbrev pub IsUnderWay : Shown → Type 0
IsUnderWay s = IsBar s.total_bar × (s.moves_down ≡ 0)

-- The last call.
abbrev pub IsEnd : ℕ → ℕ → Shown → Type 0
IsEnd total last s =
    (s.total_bar ≡ full_bar)
    × (s.accum_sent_len ≡ total)
    × (s.line ≡ last)
    × (s.moves_down ≡ last + 1)

module _ (info : FileInfo) (size m : ℕ) (file : List ℕ) where
  show_sent_lem :
      (n k accum : ℕ)
      → n * size < length (joined (sent_from size m file k (suc n)))
      → accum + length (joined (sent_from size m file k (suc n))) ≡ info.total_file_size
      → (shown : List Shown) × (end : Shown) × (show_sent info accum
            (sent_from size m file k (suc n))
          ≡ some (shown ++ end ∷ []))
        × All IsUnderWay shown
        × IsEnd info.total_file_size (k + suc n) end
  unfolding show_sent print_sender_progress sent_from
  show_sent_lem zero k accum lt e =
      let seg = take size (drop (k * size) file) in
      let sum = length-append seg [] in
      let all : accum + length seg ≡ info.total_file_size = omega (arith, e, sum) in
      let done : leb info.total_file_size (accum + length seg) ≡ true = ground arith in
      let full : bar (accum + length seg) info.total_file_size ≡ some full_bar =
        ap (λ a. bar a info.total_file_size) all
        ∙ bar_full info.total_file_size (omega (arith, all, lt, sum)) in
      (
        [],
        record {
          total_bar = full_bar;
          accum_sent_len = accum + length seg;
          line = k + 1;
          peer_num = some (k % m);
          sent_len = length seg;
          moves_down = k + 2;
        },
        rw (full, done) refl,
        tt,
        (refl, all, refl, omega arith),
      )
  show_sent_lem (suc n) k accum lt e =
      let seg = take size (drop (k * size) file) in
      let rest = joined (sent_from size m file (k + 1) (suc n)) in
      let sum = length-append seg rest in
      let short = length-take size (drop (k * size) file) in
      let below : n * size < length rest = omega (arith, lt, sum, short) in
      let (b, at, fits) =
        bar_lem (accum + length seg) info.total_file_size (omega (arith, e, sum, below))
          (omega (arith, e, sum)) in
      let (shown, end, r, a, z) =
        show_sent_lem n (k + 1) (accum + length seg) below (omega (arith, e, sum)) in
      let early : leb info.total_file_size (accum + length seg) ≡ false =
        ground (arith, e, sum, below) in
      (
        record {
          total_bar = b;
          accum_sent_len = accum + length seg;
          line = k + 1;
          peer_num = some (k % m);
          sent_len = length seg;
          moves_down = 0;
        }
            ∷ shown,
        end,
        rw (at, r, early) refl,
        ((fits, refl), a),
        subst (λ j. IsEnd info.total_file_size j end) {x = k + 1 + suc n} {y = k + suc (suc n)}
            (omega arith) z,
      )

pub prepare_file-total :
    (name : List ℕ) (len size receiver_max : ℕ) (info : FileInfo)
    → prepare_file name len size receiver_max ≡ some info
    → info.total_file_size ≡ len
unfolding prepare_file
prepare_file-total name len size receiver_max info e = ground arith

show_all :
    (n size m : ℕ) (info : FileInfo) (file : List ℕ)
    → 0 < size
    → 0 < length file
    → info.total_file_size ≡ length file
    → (length file + size - 1) / size ≡ n
    → joined (sent_from size m file 0 n) ≡ file
    → (shown : List Shown) × (end : Shown) × (show_sent info 0 (sent_from size m file 0 n)
        ≡ some (shown ++ end ∷ []))
      × All IsUnderWay shown
      × IsEnd info.total_file_size n end
unfolding sent_from
show_all zero size m info file pos some_bytes t c j =
    absurd (omega (arith, ap (length {0}) j, some_bytes))
show_all (suc n) size m info file pos some_bytes t c j =
    let (lo, hi) = segment_count-fits n size (length file) pos c in
    let len = ap (length {0}) j in
    let (shown, end, r, a, z) =
      show_sent_lem info size m file n 0 0 (omega (arith, lo, len)) (omega (arith, t, len)) in
    (
      shown,
      end,
      r,
      a,
      subst (λ j. IsEnd info.total_file_size j end) {x = 0 + suc n} {y = suc n} (omega arith) z,
    )

-- When a file that is not empty was prepared and its segments sent to at least one receiver, every
-- bar that the sender shows fits its places, and the cursor moves to the end of the lines for the
-- last segment and for no other, with a full bar and all bytes counted.
pub show_sent-send_segment :
    (name file : List ℕ) (size m : ℕ) (info : FileInfo) (out : List Sent)
    → 0 < m
    → 0 < length file
    → prepare_file name (length file) size m ≡ some info
    → send_segment info m file ≡ some out
    → (shown : List Shown) × (end : Shown) × (show_sent info 0 out ≡ some (shown ++ end ∷ []))
      × All IsUnderWay shown
      × IsEnd (length file) info.segment_count end
show_sent-send_segment name file size m info out pos some_bytes e sent =
    let (pos', s, c) = prepare_file-count name (length file) size m info e in
    let total = prepare_file-total name (length file) size m info e in
    let same : sent_from size m file 0 info.segment_count ≡ out =
      some-injective _ _ (sym (send_segment-eq-sent_from name file size m info pos e) ∙ sent) in
    let (shown, end, r, a, z) =
      show_all info.segment_count size m info file (omega (arith, pos', s)) some_bytes total (sym c)
        (ap joined same ∙ joined-send_segment name file size m info out pos e sent) in
    (
      shown,
      end,
      ap (show_sent info 0) (sym same) ∙ r,
      a,
      subst (λ t. IsEnd t info.segment_count end) total z,
    )
