-- ===== src/P2p/Sender.antt =====
-- The sending peer (p2p.c): `Prepare_File_Via_Seg`, `Send_Info` and `Send_Segment`.
use network_camp.Prelude.{
  ℕ, zero, suc, ◌+◌, ◌-◌, ◌/◌, ◌%◌, Option, none, some, List, [], ◌∷◌, if◌then◌else◌, ◌==◌, ltb,
  leb, length, take, drop, ◌>>=◌,
}
use network_camp.P2p.{FileInfo, Segment, Receiver}

-- `Prepare_File_Via_Seg` for a file of `file_size` bytes; `none` for the division by a `segment_size`
-- of 0.
unfoldable pub prepare_file : List ℕ → ℕ → ℕ → ℕ → Option FileInfo
prepare_file file_name file_size segment_size receiver_max =
    if segment_size == 0
    then none
    else some (record {
      file_name = file_name;
      total_file_size = file_size;
      segment_count = (file_size + segment_size - 1) / segment_size;
      segment_size = segment_size;
      max_receiver_cnt = receiver_max;
    })

-- The two loops of `Send_Info` over `receiver_array`: every receiver gets the same number of segments,
-- and the first `remainder` receivers one more.
unfoldable pub set_counts : ℕ → List Receiver → List Receiver
set_counts each [] = []
set_counts each (r ∷ rs) = record r { segment_from_receiver_cnt = each } ∷ set_counts each rs

unfoldable pub bump_counts : ℕ → List Receiver → List Receiver
bump_counts zero rs = rs
bump_counts (suc n) [] = []
bump_counts (suc n) (r ∷ rs) =
    record r { segment_from_receiver_cnt = r.segment_from_receiver_cnt + 1 } ∷ bump_counts n rs

unfoldable pub send_info : FileInfo → List Receiver → List Receiver
send_info info receivers =
    let receiver_max = length receivers in
    bump_counts (info.segment_count % receiver_max)
      (set_counts (info.segment_count / receiver_max) receivers)

-- A segment and the index in `recv_sock_array` of the receiver that it is written to.
pub record Sent : Type 0 where
  pub rr_index : ℕ
  pub file_segment : Segment

-- `rr_index++`, back to 0 behind the last receiver.
unfoldable pub next_receiver : ℕ → ℕ → ℕ
next_receiver receiver_max rr_index = if leb receiver_max (rr_index + 1) then 0 else rr_index + 1

-- The loop of `Send_Segment`, on fuel; `unread` is what `fread` has not returned yet. `none` means that
-- the fuel ran out.
module _ (info : FileInfo) (receiver_max : ℕ) where
  unfoldable pub send_loop : ℕ → List ℕ → ℕ → ℕ → Option (List Sent)
  send_loop zero unread rr_index nth_segment = none
  send_loop (suc fuel) unread rr_index nth_segment =
      let buffer = take info.segment_size unread in
      let sent : Sent = record {
        rr_index = rr_index;
        file_segment = record { nth_segment = nth_segment; segment = buffer };
      } in
      let after_write =
        send_loop fuel (drop info.segment_size unread) (next_receiver receiver_max rr_index)
          (nth_segment + 1) in
      let again = send_loop fuel unread rr_index nth_segment in
      if ltb 0 (length buffer)
      then (if leb info.segment_count (nth_segment + 1)
          then some (sent ∷ [])
          else after_write >>= λ rest. some (sent ∷ rest))
      else if leb info.segment_count nth_segment
      then some []
      else again

-- `Send_Segment`: a round for each segment, and one more.
unfoldable pub send_segment : FileInfo → ℕ → List ℕ → Option (List Sent)
unfolding send_loop
send_segment info receiver_max file = send_loop info receiver_max (info.segment_count + 1) file 0 0
