-- ===== src/P2p/Storage.antt =====
-- A receiving peer (p2p.c): `accpt_snd_seg` with `flood_segment`, `accpt_rcv_seg` and
-- `Wait_All_Segment`, on segments that have been read from their sockets.
pub mod Taken
pub mod Assembled
pub mod Flood
use network_camp.Prelude.{
  ℕ, zero, suc, ◌+◌, Option, none, some, List, [], ◌∷◌, ◌++◌, if◌then◌else◌, ◌==◌, ltb, leb, length,
  ◌>>=◌,
}
use network_camp.P2p.{Segment}

-- The globals: `file_info->segment_count`, `segment_array` (`none` where nothing was written), the
-- counters, and how often `cond_finish` was signalled.
pub record Peer : Type 0 where
  pub segment_count : ℕ
  pub segment_array : ℕ → Option Segment
  pub current_segment_cnt : ℕ
  pub finished_segment_cnt : ℕ
  pub signals : ℕ

-- A segment that a peer reads, from the sender or from another receiver.
pub data Event : Type 0 where
  from_sender from_receiver : Segment → Event

abbrev pub segment_of : Event → Segment
segment_of (from_sender s) = s
segment_of (from_receiver s) = s

-- `segment_array[file_segment->nthSegment] = *file_segment`; `none` outside the array.
unfoldable pub save_segment : Peer → Segment → Option Peer
save_segment p s =
    if ltb s.nth_segment p.segment_count
    then some
        (record p { segment_array = λ k. if k == s.nth_segment then some s else p.segment_array k })
    else none

-- `pthread_cond_signal(&cond_finish)` where all segments are finished.
unfoldable pub signal_finish : Peer → Peer
signal_finish p =
    if leb p.segment_count p.finished_segment_cnt then record p { signals = p.signals + 1 } else p

-- The writes of `flood_segment`: to the first `receivers` entries of `recv_sock_array`, from `i` on.
unfoldable pub flood : ℕ → ℕ → Segment → List (ℕ × Segment)
flood zero i s = []
flood (suc receivers) i s = (i, s) ∷ flood receivers (suc i) s

-- A round of `accpt_snd_seg` with its `flood_segment`, or of `accpt_rcv_seg`, which looks at
-- `finished_segment_cnt` when it leaves its loop; and what is written to the other receivers.
unfoldable pub receive_segment : ℕ → Peer → Event → Option (Peer × List (ℕ × Segment))
receive_segment receivers p (from_sender s) = save_segment p s >>= λ q. some (
  signal_finish (record q {
    current_segment_cnt = q.current_segment_cnt + 1;
    finished_segment_cnt = q.finished_segment_cnt + 1;
  }),
  flood receivers 0 s,
)
receive_segment receivers p (from_receiver s) = save_segment p s >>= λ q.
    let counted : Peer = record q {
      current_segment_cnt = q.current_segment_cnt + 1;
      finished_segment_cnt = q.finished_segment_cnt + 1;
    } in
    some (
      if leb counted.segment_count counted.current_segment_cnt
          then signal_finish counted
          else counted,
      [],
    )

-- The segments of a peer in the order in which its threads take them.
unfoldable pub receive_segments : ℕ → Peer → List Event → Option (Peer × List (ℕ × Segment))
receive_segments receivers p [] = some (p, [])
receive_segments receivers p (e ∷ es) = receive_segment receivers p e >>= λ (q, out).
    receive_segments receivers q es >>= λ (r, outs). some (r, out ++ outs)

-- The loop of `Wait_All_Segment` that writes the file; `none` where a segment is missing.
unfoldable pub write_file : (ℕ → Option Segment) → ℕ → ℕ → Option (List ℕ)
write_file segment_array i zero = some []
write_file segment_array i (suc n) =
    segment_array i >>= λ s. write_file segment_array (i + 1) n >>= λ rest. some (s.segment ++ rest)

abbrev pub written_file : Peer → Option (List ℕ)
written_file p = write_file p.segment_array 0 p.current_segment_cnt

-- A peer that has read the file info.
abbrev pub fresh : ℕ → Peer
fresh segment_count = record {
  segment_count = segment_count;
  segment_array = λ k. none;
  current_segment_cnt = 0;
  finished_segment_cnt = 0;
  signals = 0;
}
