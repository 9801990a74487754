-- ===== src/P2p/Stream.antt =====
-- How a segment comes out of a connection (p2p.c): the loop of `accpt_snd_seg` up to where a segment is
-- processed. `accpt_rcv_seg` reads in the same way.
pub mod Whole
use network_camp.Prelude.{
  ℕ, Bool, zero, suc, ◌+◌, ◌-◌, Option, none, some, List, [], ◌∷◌, ◌++◌, if◌then◌else◌, ◌==◌, leb,
  length, map, min, ◌>>=◌,
}
use network_camp.P2p.{Segment}

-- The contents of a connection: a `segment_t`, which `read_segments` may read in part, of which `nthSegment` and `sement_size` are used at
-- the other end, or a byte of data.
pub data Item : Type 0 where
  header : (nth_segment sement_size : ℕ) → Item
  byte : ℕ → Item

-- The two writes of a segment.
unfoldable pub wire : Segment → List Item
wire s = header s.nth_segment (length s.segment) ∷ map byte s.segment

unfoldable pub wires : List Segment → List Item
unfolding wire
wires [] = []
wires (s ∷ ss) = wire s ++ wires ss

-- `read` of at most `n` bytes; an empty connection is one that was closed. `none` stands for a structure
-- that is read as data.
unfoldable pub read_bytes : ℕ → List Item → Option (List ℕ × List Item)
read_bytes zero stream = some ([], stream)
read_bytes (suc n) [] = some ([], [])
read_bytes (suc n) (header i size ∷ stream) = none
read_bytes (suc n) (byte b ∷ stream) = read_bytes n stream >>= λ (bs, rest). some (b ∷ bs, rest)

-- The `j`-th `read` returns at most `limits j + 1` bytes.
module _ (limits : ℕ → ℕ) where
  -- The loop that fills `file_segment->segment`, on fuel: the data, what is left in the connection and
  -- the number of reads so far.
  unfoldable pub fill_segment : ℕ → ℕ → ℕ → List ℕ → List Item → Option (List ℕ × List Item × ℕ)
  fill_segment zero j sement_size data_read stream = none
  fill_segment (suc fuel) j sement_size data_read stream =
      let later =
        read_bytes (min (sement_size - length data_read) (limits j + 1)) stream >>= λ (bs, rest).
        let again = fill_segment fuel (j + 1) sement_size (data_read ++ bs) rest in
        if length bs == 0 then some (data_read, rest, j + 1) else again in
      if leb sement_size (length data_read) then some (data_read, stream, j) else later

-- The `j`-th `read`, of a structure, returns all of it where `whole j` says so.
module _ (limits : ℕ → ℕ) (whole : ℕ → Bool) where
  -- The `for` loop over the segments that the receiver was told to wait for; it ends early where the
  -- connection is closed. `none` stands for a structure of which `read` returns a part: the rest of it is
  -- then taken for data.
  unfoldable pub read_segments : ℕ → ℕ → List Item → Option (List Segment × List Item)
  unfolding fill_segment
  read_segments zero j stream = some ([], stream)
  read_segments (suc n) j [] = some ([], [])
  read_segments (suc n) j (byte b ∷ stream) = none
  read_segments (suc n) j (header nth size ∷ stream) =
      let taken = fill_segment limits (size + 1) (j + 1) size [] stream >>= λ (bytes, rest, j').
      read_segments n j' rest >>= λ (ss, left).
      some (record { nth_segment = nth; segment = bytes } ∷ ss, left) in
      if whole j then taken else none
