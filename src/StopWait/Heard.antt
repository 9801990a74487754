-- ===== src/StopWait/Heard.antt =====
-- A transfer that begins with the file info (stop_wait_clnt.c, stop_wait_serv.c) is one of `System`.
use network_camp.Prelude.{
  ℕ, ◌<◌, length, Option, none, some, List, [], ◌∷◌, ◌++◌, ◌≡◌, refl, ap, sym, ◌∙◌, subst, All,
}
use network_camp.Transfer.Int.{int_half}
use network_camp.StopWait.{Packet, Receiver}
use network_camp.StopWait.System.{
  System, start, here, next, Reach, transmit, expire, lose_packet, duplicate_packet,
}
use network_camp.StopWait.Opening.{
  FileInfo, send_file_info, receive_file_info, Opening, running, announced, Move, sends,
  sends_again, loses, doubles, doubles_info, loses_info, opens, misreads, misreads_info, goes_on,
  Moves, begins, then_moves, IsHeard,
}

module _ (buf_size : ℕ) (as_info : Packet → FileInfo) (as_packet : FileInfo → Packet)
    (file_name file : List ℕ) where
  -- The receiver that waits for the file info counts as one that has it and does nothing.
  abbrev Listens : (Receiver → System) → Option (List ℕ × Receiver) → Type 0
  Listens view none = Reach buf_size file (view (start file).receiver)
  Listens view (some (name, r)) = (name ≡ file_name) × Reach buf_size file (view r)

  abbrev Heard : Opening → Type 0
  Heard o =
      All (λ (i : FileInfo). i ≡ send_file_info file_name file) o.infos
      × Listens (running o) o.listener

  without :
      (pre rest : List FileInfo) (info : FileInfo)
      → All (λ (i : FileInfo). i ≡ send_file_info file_name file) (pre ++ info ∷ rest)
      → (info ≡ send_file_info file_name file)
        × All (λ (i : FileInfo). i ≡ send_file_info file_name file) (pre ++ rest)
  without [] rest info a = a
  without (i ∷ pre) rest info a = let (e, b) = without pre rest info a.1 in (e, (a.0, b))

  abbrev Infos : List FileInfo → Type 0
  Infos is = All (λ (i : FileInfo). i ≡ send_file_info file_name file) is

  first_receiver :
      (receive_file_info (send_file_info file_name file)) ≡ (file_name, (start file).receiver)
  unfolding send_file_info
  first_receiver = refl

  Move-Heard :
      {o p q : Opening} (m : Moves buf_size as_info as_packet o p)
      (mv : Move buf_size as_info as_packet p q)
      → IsHeard buf_size as_info as_packet (then_moves m mv)
      → Heard p
      → Heard q
  Move-Heard {p = p} {q = q} m (sends e f) h (is, l) = (
    is,
    subst (Listens (running q)) (sym e) (next (subst (Listens (running p)) e l) (transmit f)),
  )
  Move-Heard {p = p} {q = q} m (sends_again e f) h (is, l) =
      (is, subst (Listens (running q)) (sym e) (next (subst (Listens (running p)) e l) (expire f)))
  Move-Heard {p = p} {q = q} m (loses pre rest d e f) h (is, l) = (
    is,
    subst (Listens (running q)) (sym e)
        (next (subst (Listens (running p)) e l) (lose_packet pre rest d f)),
  )
  Move-Heard {p = p} {q = q} m (doubles pre rest d e f) h (is, l) = (
    is,
    subst (Listens (running q)) (sym e)
        (next (subst (Listens (running p)) e l) (duplicate_packet pre rest d f)),
  )
  Move-Heard {p = p} m (doubles_info pre rest info e) h (is, l) =
      (((without pre rest info (subst Infos e is)).0, is), l)
  Move-Heard {p = p} m (loses_info pre rest info e) h (is, l) =
      ((without pre rest info (subst Infos e is)).1, l)
  Move-Heard {p = p} m (opens pre rest info e f) h (is, l) =
      let (same, others) = without pre rest info (subst Infos f is) in
      (
        others,
        subst (Listens (running p)) (ap some (sym (ap receive_file_info same ∙ first_receiver)))
            (refl, subst (Listens (running p)) e l),
      )
  Move-Heard {p = p} m (misreads pre rest d e f) h hp = elim h [ ]
  Move-Heard {p = p} m (misreads_info name r pre rest info e f g) h hp = elim h [ ]
  Move-Heard {p = p} m (goes_on name r s e st) h (is, l) =
      let (named, reach) = subst (Listens (running p)) e l in (is, (named, next reach st))

  announced-Heard : Heard (announced file_name file)
  unfolding send_file_info
  announced-Heard = ((refl, tt), here)

  Moves-Heard :
      {o : Opening} (m : Moves buf_size as_info as_packet (announced file_name file) o)
      → IsHeard buf_size as_info as_packet m
      → Heard o
  Moves-Heard begins h = announced-Heard
  Moves-Heard (then_moves m (sends e f)) h = Move-Heard m (sends e f) h (Moves-Heard m h)
  Moves-Heard (then_moves m (sends_again e f)) h =
      Move-Heard m (sends_again e f) h (Moves-Heard m h)
  Moves-Heard (then_moves m (loses pre rest d e f)) h =
      Move-Heard m (loses pre rest d e f) h (Moves-Heard m h)
  Moves-Heard (then_moves m (doubles pre rest d e f)) h =
      Move-Heard m (doubles pre rest d e f) h (Moves-Heard m h)
  Moves-Heard (then_moves m (doubles_info pre rest info e)) h =
      Move-Heard m (doubles_info pre rest info e) h (Moves-Heard m h)
  Moves-Heard (then_moves m (loses_info pre rest info e)) h =
      Move-Heard m (loses_info pre rest info e) h (Moves-Heard m h)
  Moves-Heard (then_moves m (opens pre rest info e f)) h =
      Move-Heard m (opens pre rest info e f) h (Moves-Heard m h)
  Moves-Heard (then_moves m (goes_on name r s e st)) h =
      Move-Heard m (goes_on name r s e st) h (Moves-Heard m h)
  Moves-Heard (then_moves m (misreads pre rest d e f)) h = elim h [ ]
  Moves-Heard (then_moves m (misreads_info name r pre rest info e f g)) h = elim h [ ]

  -- For a file below 2 ^ 31 bytes, when the first datagram that the receiver takes is the file info
  -- and no copy of it is taken later, whatever else is lost, repeated or reordered, the receiver
  -- has the name of the sender, and both sides with what is on its way are in a state that the
  -- transfer of that file can be in (`Reach`).
  pub heard-Reach :
      (o : Opening) (m : Moves buf_size as_info as_packet (announced file_name file) o)
      (name : List ℕ) (r : Receiver)
      → length file < int_half
      → IsHeard buf_size as_info as_packet m
      → o.listener ≡ some (name, r)
      → (name ≡ file_name) × Reach buf_size file (running o r)
  heard-Reach o m name r lt h e = subst (Listens (running o)) e (Moves-Heard m h).1
