-- ===== src/P2p/Share.antt =====
-- `Send_Info` announces to each receiver what `Send_Segment` sends it (p2p.c).
use mathlib.Core.Option.{some-injective}
use native.Mathlib.Nat.{
  mod-lt, mod_self, mod-add-mod, mod-eq_of_lt, div-add-mod, mul-add-div, div-eq_of_lt, div_self,
  zero-mod, zero-div,
}
use network_camp.Prelude.{
  ℕ, zero, suc, ◌+◌, ◌*◌, ◌/◌, ◌%◌, ◌<◌, Option, some, List, [], ◌∷◌, ◌≡◌, refl, ap, sym, ◌∙◌,
  arith, if◌then◌else◌, ◌==◌, ltb, length, get_elem?, map, dec_lt,
}
use network_camp.P2p.{FileInfo, Receiver}
use network_camp.P2p.Sender.{prepare_file, set_counts, bump_counts, send_info, Sent, send_segment}
use network_camp.P2p.Split.{sent_from, send_segment-eq-sent_from}

-- The segments written to a receiver's socket.
unfoldable pub sent_to : ℕ → List Sent → ℕ
sent_to i [] = 0
sent_to i (x ∷ xs) = (if x.rr_index == i then 1 else 0) + sent_to i xs

-- The share of receiver `i` in `n` segments.
abbrev pub share : ℕ → ℕ → ℕ → ℕ
share m n i = n / m + (if ltb i (n % m) then 1 else 0)

module _ (m k : ℕ) (pos : 0 < m) where
  div-suc_inside : k % m + 1 < m → ((k + 1) / m ≡ k / m) × ((k + 1) % m ≡ k % m + 1)
  div-suc_inside h = (
    ap (λ j. j / m) {x = k + 1} {y = m * (k / m) + (k % m + 1)} (omega (arith, div-add-mod k m))
        ∙ mul-add-div pos (k / m) (k % m + 1)
        ∙ omega (arith, div-eq_of_lt h),
    sym (mod-add-mod k m 1) ∙ mod-eq_of_lt h,
  )

  div-suc_wraps : k % m + 1 ≡ m → ((k + 1) / m ≡ k / m + 1) × ((k + 1) % m ≡ 0)
  div-suc_wraps h = (
    ap (λ j. j / m) {x = k + 1} {y = m * (k / m) + m} (omega (arith, div-add-mod k m))
        ∙ mul-add-div pos (k / m) m
        ∙ omega (arith, div_self pos),
    sym (mod-add-mod k m 1) ∙ ap (λ j. j % m) h ∙ mod_self m,
  )

  -- The next segment goes to the receiver whose share grows.
  share-suc : (i : ℕ) → i < m → share m (k + 1) i ≡ share m k i + (if k % m == i then 1 else 0)
  share-suc i lt = elim (dec_lt (k % m + 1) m) [
    | yes inside ↦ let (d, r) = div-suc_inside inside in ground (arith, d, r)
    | no over ↦
        let top = mod-lt k pos in
        let (d, r) = div-suc_wraps (omega arith) in ground (arith, d, r, top)
  ]

sent_to-sent_from :
    (n size m k i : ℕ) (file : List ℕ)
    → 0 < m
    → i < m
    → sent_to i (sent_from size m file k n) + share m k i ≡ share m (k + n) i
unfolding sent_to sent_from
sent_to-sent_from zero size m k i file pos lt =
    let e : share m k i ≡ share m (k + 0) i =
      ap (λ j. share m j i) {x = k} {y = k + 0} (omega arith) in
    omega (arith, e)
sent_to-sent_from (suc n) size m k i file pos lt =
    let rest = sent_to-sent_from n size m (k + 1) i file pos lt in
    let e : share m (k + 1 + n) i ≡ share m (k + suc n) i =
      ap (λ j. share m j i) {x = k + 1 + n} {y = k + suc n} (omega arith) in
    omega (arith, rest, e, share-suc m k pos i lt)

-- The number of segments that a receiver is told to wait for.
abbrev pub announced : ℕ → List Receiver → Option ℕ
announced i rs = get_elem? (map (λ (r : Receiver). r.segment_from_receiver_cnt) rs) i

announced-set_counts :
    (each i : ℕ) (rs : List Receiver) → i < length rs → announced i (set_counts each rs) ≡ some each
unfolding set_counts
announced-set_counts each i [] h = absurd (omega arith)
announced-set_counts each zero (r ∷ rs) h = refl
announced-set_counts each (suc i) (r ∷ rs) h = announced-set_counts each i rs (omega arith)

announced-bump_counts :
    (n i each : ℕ) (rs : List Receiver)
    → announced i rs ≡ some each
    → announced i (bump_counts n rs) ≡ some (each + (if ltb i n then 1 else 0))
unfolding bump_counts
announced-bump_counts zero i each rs h = h ∙ ap some (ground arith)
announced-bump_counts (suc n) i each [] h = cc
announced-bump_counts (suc n) zero each (r ∷ rs) h = ground arith
announced-bump_counts (suc n) (suc i) each (r ∷ rs) h =
    announced-bump_counts n i each rs h ∙ ap some (ground arith)

-- When the file was prepared for the receivers and its segments were sent, the number of segments
-- that `Send_Info` announces to each receiver is the number that `Send_Segment` wrote to it.
pub announced-send_info :
    (name file : List ℕ) (size i : ℕ) (receivers : List Receiver) (info : FileInfo)
    (out : List Sent)
    → i < length receivers
    → prepare_file name (length file) size (length receivers) ≡ some info
    → send_segment info (length receivers) file ≡ some out
    → announced i (send_info info receivers) ≡ some (sent_to i out)
unfolding send_info
announced-send_info name file size i receivers info out lt e sent =
    let m : ℕ = length receivers in
    let all = send_segment-eq-sent_from name file size m info (omega arith) e in
    let count = sent_to-sent_from info.segment_count size m 0 i file (omega arith) lt in
    let none_yet : share m 0 i ≡ 0 = ground (arith, zero-div m, zero-mod m) in
    announced-bump_counts (info.segment_count % m) i (info.segment_count / m)
      (set_counts (info.segment_count / m) receivers)
      (announced-set_counts (info.segment_count / m) i receivers lt)
    ∙ ap some (
        ap (λ j. share m j i) {x = info.segment_count} {y = 0 + info.segment_count} (omega arith)
        ∙ sym count
        ∙ omega (arith, none_yet)
        ∙ ap (sent_to i) (some-injective _ _ (sym all ∙ sent)))
