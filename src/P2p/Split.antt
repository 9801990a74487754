-- ===== src/P2p/Split.antt =====
-- How `Send_Segment` (p2p.c) cuts a file.
use native.Mathlib.Nat.{
  zero-mod, mod-lt, mod_self, mod-eq_of_lt, mod-add-mod, le-div_iff_mul-le, div-lt_iff_lt-mul,
}
use mathlib.Core.Option.{some-injective}
use network_camp.Prelude.{
  dec_lt, ℕ, zero, suc, ◌+◌, ◌-◌, ◌*◌, ◌/◌, ◌%◌, ◌≤◌, ◌<◌, true, false, some, List, [], ◌∷◌, ◌++◌,
  ◌≡◌, refl, ap, sym, ◌∙◌, arith, ltb, leb, length, take, drop, length-take, length-drop, drop-drop,
  take_all, take_add, take_nil, ◌>>=◌,
}
use network_camp.P2p.{FileInfo}
use network_camp.P2p.Sender.{prepare_file, Sent, next_receiver, send_loop, send_segment}

-- The `k`-th segment of a file, for the receiver `k % receiver_max`.
abbrev pub nth_sent : ℕ → ℕ → List ℕ → ℕ → Sent
nth_sent size receiver_max file k = record {
  rr_index = k % receiver_max;
  file_segment = record { nth_segment = k; segment = take size (drop (k * size) file) };
}

-- The segments from the `k`-th on, `n` of them.
unfoldable pub sent_from : ℕ → ℕ → List ℕ → ℕ → ℕ → List Sent
sent_from size receiver_max file k zero = []
sent_from size receiver_max file k (suc n) =
    nth_sent size receiver_max file k ∷ sent_from size receiver_max file (k + 1) n

next_receiver-mod : (m k : ℕ) → 0 < m → next_receiver m (k % m) ≡ (k + 1) % m
unfolding next_receiver
next_receiver-mod m k pos = elim (dec_lt (k % m + 1) m) [
  | yes inside ↦ ground (arith, mod-add-mod k m 1, mod-eq_of_lt inside)
  | no wraps ↦
      let e : k % m + 1 ≡ m = let lt = mod-lt k pos in omega arith in
      ground (arith, mod-add-mod k m 1, ap (λ x. x % m) e, mod_self m)
]

module _ (info : FileInfo) (receiver_max : ℕ) (pos : 0 < receiver_max) (file : List ℕ) where
  abbrev this_sent : ℕ → List ℕ → ℕ → Sent
  this_sent k unread rr = record {
    rr_index = rr;
    file_segment = record { nth_segment = k; segment = take info.segment_size unread };
  }

  send_loop_stop :
      (fuel k : ℕ) (unread : List ℕ) (rr : ℕ)
      → 0 < length (take info.segment_size unread)
      → info.segment_count ≤ k + 1
      → send_loop info receiver_max (suc fuel) unread rr k ≡ some (this_sent k unread rr ∷ [])
  unfolding send_loop
  send_loop_stop fuel k unread rr a b =
      let a' : ltb 0 (length (take info.segment_size unread)) ≡ true = ground arith in
      let b' : leb info.segment_count (k + 1) ≡ true = ground arith in rw (a', b')

  send_loop_step :
      (fuel k : ℕ) (unread : List ℕ) (rr : ℕ)
      → 0 < length (take info.segment_size unread)
      → k + 1 < info.segment_count
      → send_loop info receiver_max (suc fuel) unread rr k ≡ (
          send_loop info receiver_max fuel
            (drop info.segment_size unread)
            (next_receiver receiver_max rr)
            (k + 1)
          >>= λ rest. some (this_sent k unread rr ∷ rest))
  unfolding send_loop
  send_loop_step fuel k unread rr a b =
      let a' : ltb 0 (length (take info.segment_size unread)) ≡ true = ground arith in
      let b' : leb info.segment_count (k + 1) ≡ false = ground arith in rw (a', b')

  this_sent-nth_sent :
      (k : ℕ) (unread : List ℕ) (rr : ℕ)
      → unread ≡ drop (k * info.segment_size) file
      → rr ≡ k % receiver_max
      → this_sent k unread rr ≡ nth_sent info.segment_size receiver_max file k
  this_sent-nth_sent k unread rr u r = cc

  -- `n + 1` segments are left, from the `k`-th on.
  send_loop_lem :
      (fuel n k : ℕ) (unread : List ℕ) (rr : ℕ)
      → 0 < info.segment_size
      → unread ≡ drop (k * info.segment_size) file
      → rr ≡ k % receiver_max
      → k + suc n ≡ info.segment_count
      → n * info.segment_size < length unread
      → n < fuel
      → send_loop info receiver_max fuel unread rr k
        ≡ some (sent_from info.segment_size receiver_max file k (suc n))
  unfolding sent_from
  send_loop_lem zero n k unread rr size u r c lo f = absurd (omega arith)
  send_loop_lem (suc fuel) zero k unread rr size u r c lo f =
      send_loop_stop fuel k unread rr (omega (arith, length-take info.segment_size unread))
        (omega arith)
      ∙ ap (λ x. some (x ∷ [])) (this_sent-nth_sent k unread rr u r)
  send_loop_lem (suc fuel) (suc n) k unread rr size u r c lo f =
      send_loop_step fuel k unread rr (omega (arith, length-take info.segment_size unread))
        (omega arith)
      ∙ rw
          (send_loop_lem fuel n (k + 1) (drop info.segment_size unread)
            (next_receiver receiver_max rr) size
            (ap (drop info.segment_size) u
              ∙ drop-drop info.segment_size (k * info.segment_size) file
              ∙ ap (λ j. drop j file) {x = k * info.segment_size + info.segment_size}
                  {y = (k + 1) * info.segment_size} (omega arith))
            (ap (next_receiver receiver_max) r ∙ next_receiver-mod receiver_max k pos) (omega arith)
            (omega (arith, length-drop info.segment_size unread)) (omega arith))
          (ap (λ x. some (x ∷ sent_from info.segment_size receiver_max file (k + 1) (suc n)))
            (this_sent-nth_sent k unread rr u r))

-- How the number of segments fits the file.
pub segment_count-fits :
    (n size len : ℕ)
    → 0 < size
    → (len + size - 1) / size ≡ suc n
    → (n * size < len) × (len ≤ suc n * size)
segment_count-fits n size len pos e =
    let lo = (le-div_iff_mul-le {k = size} {x = suc n} {y = len + size - 1} pos).0 (omega arith) in
    let hi =
      (div-lt_iff_lt-mul {k = size} {x = len + size - 1} {y = suc (suc n)} pos).0 (omega arith) in
    (omega (arith, lo), omega (arith, hi))

no_segments : (size len : ℕ) → 0 < size → (len + size - 1) / size ≡ 0 → len ≡ 0
no_segments size len pos e =
    let hi = (div-lt_iff_lt-mul {k = size} {x = len + size - 1} {y = 1} pos).0 (omega arith) in
    omega (arith, hi)

pub prepare_file-count :
    (name : List ℕ) (len size receiver_max : ℕ) (info : FileInfo)
    → prepare_file name len size receiver_max ≡ some info
    → (0 < info.segment_size)
      × (info.segment_size ≡ size)
      × (info.segment_count ≡ (len + size - 1) / size)
unfolding prepare_file
prepare_file-count name len size receiver_max info e = ground arith

send_loop_empty :
    (info : FileInfo) (receiver_max fuel : ℕ)
    → info.segment_count ≡ 0
    → send_loop info receiver_max (suc fuel) [] 0 0 ≡ some []
unfolding send_loop
send_loop_empty info receiver_max fuel e =
    let none_left : leb info.segment_count 0 ≡ true = ground arith in
    rw (take_nil info.segment_size, none_left)

send_segment_count :
    (n size receiver_max : ℕ) (file : List ℕ) (info : FileInfo)
    → 0 < receiver_max
    → 0 < size
    → info.segment_size ≡ size
    → info.segment_count ≡ (length file + size - 1) / size
    → info.segment_count ≡ n
    → send_loop info receiver_max (suc n) file 0 0 ≡ some (sent_from size receiver_max file 0 n)
unfolding sent_from
send_segment_count zero size receiver_max [] info pos pos' s c n =
    send_loop_empty info receiver_max 0 n
send_segment_count zero size receiver_max (x ∷ file) info pos pos' s c n =
    absurd (omega (arith, no_segments size (suc (length file)) pos' (sym c ∙ n)))
send_segment_count (suc n) size receiver_max file info pos pos' s c e =
    let fits = segment_count-fits n size (length file) pos' (sym c ∙ e) in
    send_loop_lem info receiver_max pos file (suc (suc n)) n 0 file 0 (omega arith)
      (ap (λ j. drop j file) {x = 0} {y = 0 * info.segment_size} (omega arith))
      (sym (zero-mod receiver_max)) (omega arith) (ground (arith, fits)) (omega arith)
    ∙ ap (λ z. some (sent_from z receiver_max file 0 (suc n))) s

-- For a prepared file and at least one receiver, `Send_Segment` ends, and it sends the segments of
-- the file in their order, the `k`-th to the receiver `k % receiver_max`, as many as
-- `Prepare_File_Via_Seg` has counted.
pub send_segment-eq-sent_from :
    (name file : List ℕ) (size receiver_max : ℕ) (info : FileInfo)
    → 0 < receiver_max
    → prepare_file name (length file) size receiver_max ≡ some info
    → send_segment info receiver_max file
      ≡ some (sent_from size receiver_max file 0 info.segment_count)
unfolding send_segment
send_segment-eq-sent_from name file size receiver_max info pos e =
    let (pos', s, c) = prepare_file-count name (length file) size receiver_max info e in
    ap (λ f. send_loop info receiver_max f file 0 0) {x = info.segment_count + 1}
      {y = suc info.segment_count} (omega arith)
    ∙ send_segment_count info.segment_count size receiver_max file info pos (omega arith) s c refl

-- The bytes of a list of segments, one after the other.
abbrev pub joined : List Sent → List ℕ
joined [] = []
joined (x ∷ xs) = x.file_segment.segment ++ joined xs

joined-sent_from :
    (n size receiver_max k : ℕ) (file : List ℕ)
    → joined (sent_from size receiver_max file k n) ≡ take (n * size) (drop (k * size) file)
unfolding sent_from
joined-sent_from zero size receiver_max k file =
    ap (λ j. take j (drop (k * size) file)) {x = 0} {y = 0 * size} (omega arith)
joined-sent_from (suc n) size receiver_max k file =
    ap (◌++◌ (take size (drop (k * size) file))) (
      joined-sent_from n size receiver_max (k + 1) file
      ∙ ap (take (n * size)) (
          ap (λ j. drop j file) {x = (k + 1) * size} {y = k * size + size} (omega arith)
          ∙ sym (drop-drop size (k * size) file)))
    ∙ sym (take_add size (n * size) (drop (k * size) file))
    ∙ ap (λ j. take j (drop (k * size) file)) {x = size + n * size} {y = suc n * size} (omega arith)

-- For a prepared file and at least one receiver, the segments that `Send_Segment` sends make up the
-- file.
pub joined-send_segment :
    (name file : List ℕ) (size receiver_max : ℕ) (info : FileInfo) (out : List Sent)
    → 0 < receiver_max
    → prepare_file name (length file) size receiver_max ≡ some info
    → send_segment info receiver_max file ≡ some out
    → joined out ≡ file
joined-send_segment name file size receiver_max info out pos e sent =
    let (pos', s, c) = prepare_file-count name (length file) size receiver_max info e in
    let all = send_segment-eq-sent_from name file size receiver_max info pos e in
    ap joined (some-injective _ _ (sym sent ∙ all))
    ∙ joined-sent_from info.segment_count size receiver_max 0 file
    ∙ ap (λ j. take (info.segment_count * size) (drop j file)) {x = 0 * size} {y = 0} (omega arith)
    ∙ take_all (info.segment_count * size) file
        (covered info.segment_count size (length file) (omega arith) (sym c))
  where
    covered : (n size len : ℕ) → 0 < size → (len + size - 1) / size ≡ n → len ≤ n * size
    covered zero size len p q = omega (arith, no_segments size len p q)
    covered (suc n) size len p q = (segment_count-fits n size len p q).1
