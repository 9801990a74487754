-- ===== src/P2p/Stream/Whole.antt =====
-- A receiver reads the segments that were written to its socket (p2p.c).
use mathlib.Core.Option.{some-injective}
use network_camp.Prelude.{
  ℕ, Bool, zero, suc, ◌+◌, ◌-◌, ◌≤◌, ◌<◌, true, false, some, List, [], ◌∷◌, ◌++◌, ◌≡◌, refl, ap,
  sym, ◌∙◌, arith, ◌==◌, leb, length, length-take, length-drop, length-append, take, drop,
  take-append-drop, map, min, append_assoc, append-nil,
}
use network_camp.P2p.{FileInfo, Segment, Receiver}
use network_camp.P2p.Sender.{prepare_file, send_info, Sent, send_segment}
use network_camp.P2p.Share.{sent_to, announced, announced-send_info}
use network_camp.P2p.Storage.Assembled.{written_to}
use network_camp.P2p.Stream.{Item, byte, wire, wires, read_bytes, fill_segment, read_segments}

read_bytes_lem :
    (n : ℕ) (xs : List ℕ) (rest : List Item)
    → n ≤ length xs
    → read_bytes n (map byte xs ++ rest) ≡ some (take n xs, map byte (drop n xs) ++ rest)
unfolding read_bytes
read_bytes_lem zero xs rest h = refl
read_bytes_lem (suc n) [] rest h = absurd (omega arith)
read_bytes_lem (suc n) (x ∷ xs) rest h = rw (read_bytes_lem n xs rest (omega arith)) refl

module _ (limits : ℕ → ℕ) where
  fill_segment_lem :
      (fuel j size : ℕ) (got xs : List ℕ) (rest : List Item)
      → length got + length xs ≡ size
      → length xs < fuel
      → (j' : ℕ) × (fill_segment limits fuel j size got (map byte xs ++ rest)
          ≡ some (got ++ xs, rest, j'))
  unfolding fill_segment
  fill_segment_lem zero j size got xs rest e h = absurd (omega arith)
  fill_segment_lem (suc fuel) j size got [] rest e h =
      let enough : leb size (length got) ≡ true = ground arith in
      (j, rw (enough, append-nil got) refl)
  fill_segment_lem (suc fuel) j size got (x ∷ xs) rest e h =
      let n = min (size - length got) (limits j + 1) in
      let all = x ∷ xs in
      let short : leb size (length got) ≡ false = ground arith in
      let fits : n ≤ length all = ground arith in
      let some_bytes : (length (take n all) == 0) ≡ false = ground (arith, length-take n all) in
      let (j', r) =
        fill_segment_lem fuel (j + 1) size (got ++ take n all) (drop n all) rest
          (ground (arith, length-append got (take n all), length-take n all, length-drop n all))
          (ground (arith, length-drop n all)) in
      (
        j',
        rw (short, read_bytes_lem n all rest fits, some_bytes)
            (r
              ∙ ap (λ l. some (l, rest, j'))
                  (append_assoc got (take n all) (drop n all)
                    ∙ ap (◌++◌ got) (take-append-drop n all))),
      )

  -- When each `read` of a structure returns all of it, however the network cuts the other bytes, a
  -- receiver that waits for as many segments as were written to its socket reads just these, and leaves
  -- in the connection what follows.
  pub read_segments-wires :
      (whole : ℕ → Bool) (j : ℕ) (ss : List Segment) (rest : List Item)
      → ((k : ℕ) → whole k ≡ true)
      → read_segments limits whole (length ss) j (wires ss ++ rest) ≡ some (ss, rest)
  unfolding read_segments wires wire
  read_segments-wires whole j [] rest h = refl
  read_segments-wires whole j (s ∷ ss) rest h =
      let (j', r) =
        fill_segment_lem (length s.segment + 1) (j + 1) (length s.segment) [] s.segment
          (wires ss ++ rest) (omega arith) (omega arith) in
      rw
        (
          h j,
          append_assoc (map byte s.segment) (wires ss) rest,
          r,
          read_segments-wires whole j' ss rest h,
        )
        refl

length-written_to : (i : ℕ) (out : List Sent) → length (written_to i out) ≡ sent_to i out
unfolding sent_to
length-written_to i [] = refl
length-written_to i (x ∷ out) = ground (arith, length-written_to i out)

-- For a prepared file whose segments were sent, a receiver that waits for as many segments as
-- `Send_Info` announces to it reads the segments that `Send_Segment` writes to it, and leaves what
-- follows in the connection, when each `read` of a structure returns all of it, however the network
-- cuts the other bytes.
pub read_segments-send_info :
    (limits : ℕ → ℕ) (whole : ℕ → Bool) (j : ℕ) (name file : List ℕ) (size i count : ℕ)
    (receivers : List Receiver) (info : FileInfo) (out : List Sent) (rest : List Item)
    → i < length receivers
    → prepare_file name (length file) size (length receivers) ≡ some info
    → send_segment info (length receivers) file ≡ some out
    → announced i (send_info info receivers) ≡ some count
    → ((k : ℕ) → whole k ≡ true)
    → read_segments limits whole count j (wires (written_to i out) ++ rest)
      ≡ some (written_to i out, rest)
read_segments-send_info limits whole j name file size i count receivers info out rest lt e sent told
      h =
    let same : count ≡ length (written_to i out) =
      some-injective _ _
        (sym told ∙ announced-send_info name file size i receivers info out lt e sent)
      ∙ sym (length-written_to i out) in
    ap (λ n. read_segments limits whole n j (wires (written_to i out) ++ rest)) same
    ∙ read_segments-wires limits whole j (written_to i out) rest h
