-- ===== src/P2p/Session/Whole.antt =====
-- A transfer from the sender to a receiver (p2p.c), with the threads of that receiver.
use mathlib.Core.Option.{some-injective}
use mathlib.Core.List.{Permᴰ}
use network_camp.Prelude.{
  ◌-◌, ◌/◌, ◌≤◌, leb, ◌==◌, false, Bool-cases, inl, inr, Bool, true, zero, suc, ℕ, ◌+◌, ◌<◌, Option,
  some, List, [], ◌∷◌, ◌++◌, ◌≡◌, ◌≢◌, refl, ap, ap₂, ◌>>=◌, sym, ◌∙◌, subst, arith, length,
  length-append, append-nil, map, All, >>=-eq-some,
}
use network_camp.P2p.{FileInfo, Receiver}
use network_camp.P2p.Sender.{prepare_file, send_info, Sent, send_segment}
use network_camp.P2p.Split.{sent_from, send_segment-eq-sent_from}
use network_camp.P2p.Share.{announced}
use network_camp.P2p.Mesh.{Info, wait_connections, receive_info, receive_info-others}
use network_camp.P2p.Mesh.Pairs.{send_info-length}
use network_camp.P2p.Storage.Assembled.{written_to}
use network_camp.P2p.Stream.{wires, read_segments}
use network_camp.P2p.Stream.Whole.{read_segments-send_info}
use network_camp.P2p.Threads.Signal.{Steps_append, main-written_of_waiting}
use network_camp.P2p.Threads.{
  here, next, wait, waiting, set_main, written, Process, Steps, WaitsApart, begin,
}
use network_camp.P2p.Threads.Runs.{brought}
use network_camp.P2p.Threads.Outcome.{main-written}
use network_camp.P2p.Session.{Sending, sender_main, all_whole, receiver_main, peer_threads}
use network_camp.P2p.Session.Spread.{Permᴰ-peer_threads}

-- What went into the transfer.
record Sources (name file : List ℕ) (size m : ℕ) (conns : List (Receiver × ℕ)) (s : Sending)
    : Type 0 where
  receivers : List Receiver
  prepared : prepare_file name (length file) size m ≡ some s.file_info
  waited : wait_connections m 0 conns ≡ some receivers
  sent : send_segment s.file_info m file ≡ some s.segments
  told : s.receiver_array ≡ send_info s.file_info receivers

sender_main-Sources :
    (name file : List ℕ) (size m : ℕ) (conns : List (Receiver × ℕ)) (s : Sending)
    → sender_main name file size m conns ≡ some s
    → Sources name file size m conns s
unfolding sender_main
sender_main-Sources name file size m conns s e =
    let (info, a, e1) = >>=-eq-some (prepare_file name (length file) size m) _ e in
    let (receivers, b, e2) = >>=-eq-some (wait_connections m 0 conns) _ e1 in
    let (out, c, e3) = >>=-eq-some (send_segment info m file) _ e2 in
    let same = some-injective _ s e3 in
    subst (Sources name file size m conns) same
      (record { receivers = receivers; prepared = a; waited = b; sent = c; told = refl })

announced-middle :
    (pre post : List Receiver) (own : Receiver)
    → announced (length pre) (pre ++ own ∷ post) ≡ some own.segment_from_receiver_cnt
announced-middle [] post own = refl
announced-middle (r ∷ pre) post own = announced-middle pre post own

max_receiver_cnt-prepare_file :
    (name : List ℕ) (len size m : ℕ) (info : FileInfo)
    → prepare_file name len size m ≡ some info
    → info.max_receiver_cnt ≡ m
unfolding prepare_file
max_receiver_cnt-prepare_file name len size m info e = ground arith

all_whole_lem : (whole : ℕ → Bool) → ((k : ℕ) → whole k ≡ true) → (n : ℕ) → all_whole whole n ≡ true
unfolding all_whole
all_whole_lem whole h zero = refl
all_whole_lem whole h (suc n) = rw (h n, all_whole_lem whole h n) refl

-- When the file is not empty and there is a receiver, `main` of the sender has come to its end with
-- the connections that it got, a receiver has a port that no other one has, and each `read` of a
-- structure returns all of it, then, however the network cuts the data of the segments, this
-- receiver finds itself in what it is sent and reads the segments that the sender writes to it and
-- nothing more; and in whatever order its threads, for these segments and for those that each other
-- receiver passes on, and its `main` interleave, when no thread is about to take a lock at the
-- moment at which `main` begins to wait, which it does without the lock, what `main` writes, if it
-- comes to that, is the file of the sender.
pub transfer-written :
    (limits : ℕ → ℕ) (whole : ℕ → Bool) (name file : List ℕ) (size m : ℕ)
    (conns : List (Receiver × ℕ)) (s : Sending) (pre post : List Receiver) (own : Receiver)
    (p : Process) (o : Option (List ℕ))
    (r : Steps (begin s.file_info.segment_count (peer_threads (length pre) m s.segments)) p)
    → ((k : ℕ) → whole k ≡ true)
    → 0 < m
    → 0 < length file
    → sender_main name file size m conns ≡ some s
    → s.receiver_array ≡ pre ++ own ∷ post
    → All (λ (r : Receiver). r.port ≢ own.port) pre
    → All (λ (r : Receiver). r.port ≢ own.port) post
    → WaitsApart r
    → p.shared.main ≡ written o
    → (receiver_main limits whole own.port s.file_info s.receiver_array
          (wires (written_to (length pre) s.segments))
        ≡ some (written_to (length pre) s.segments, []))
      × (o ≡ some file)
unfolding receiver_main
transfer-written limits whole name file size m conns s pre post own p o r full pos long e split a b
      apart w =
    let src = sender_main-Sources name file size m conns s e in
    let i = length pre in
    let (accepted, total) = send_info-length s.file_info m conns src.receivers pos src.waited in
    let size_of = length-append pre (own ∷ post) in
    let count : m ≡ length pre + 1 + length post =
      omega (arith, total, ap (length {0}) (sym src.told ∙ split), size_of) in
    let max : s.file_info.max_receiver_cnt ≡ m =
      max_receiver_cnt-prepare_file name (length file) size m s.file_info src.prepared in
    let same = send_segment-eq-sent_from name file size m s.file_info pos src.prepared in
    let out : s.segments ≡ sent_from size m file 0 s.file_info.segment_count =
      some-injective _ _ (sym src.sent ∙ same) in
    let told : announced i (send_info s.file_info src.receivers)
        ≡ some own.segment_from_receiver_cnt =
      ap (announced i) (sym src.told ∙ split) ∙ announced-middle pre post own in
    let found : (receive_info own.port s.file_info.max_receiver_cnt s.receiver_array).this_receiver
        ≡ some own =
      ap (λ (x : Info). x.this_receiver)
        (ap₂ (receive_info own.port) (max ∙ count)
            (split ∙ ap (λ l. pre ++ own ∷ l) (sym (append-nil post)))
          ∙ receive_info-others pre post [] own a b) in
    (
      let told_reads = s.file_info.max_receiver_cnt + 1 in
          rw (all_whole_lem whole full told_reads) (
            ap
              (λ x. x >>= λ this.
                read_segments limits whole this.segment_from_receiver_cnt told_reads
                  (wires (written_to i s.segments)))
              found
            ∙ ap (read_segments limits whole own.segment_from_receiver_cnt told_reads)
                (sym (append-nil (wires (written_to i s.segments))))
            ∙ read_segments-send_info limits whole told_reads name file size i
                own.segment_from_receiver_cnt src.receivers s.file_info s.segments []
                (omega (arith, accepted, count))
                (subst (λ n. prepare_file name (length file) size n ≡ some s.file_info)
                  (sym accepted) src.prepared)
                (subst (λ n. send_segment s.file_info n file ≡ some s.segments) (sym accepted)
                  src.sent)
                told full),
      main-written name file size m s.file_info s.segments (peer_threads i m s.segments) p o r pos
          long src.prepared src.sent
          (subst (λ l. Permᴰ (map (λ (x : Sent). x.file_segment) l) (brought (peer_threads i m l)))
            (sym out) (Permᴰ-peer_threads i size m s.file_info.segment_count file pos))
          apart w,
    )

wait_connections-total :
    (m k : ℕ) (conns : List (Receiver × ℕ))
    → k < m
    → m ≤ k + length conns
    → (rs : List Receiver) × (wait_connections m k conns ≡ some rs)
unfolding wait_connections
wait_connections-total m k [] lt le = absurd (omega arith)
wait_connections-total m k ((r, from) ∷ conns) lt le =
    let entry = record r { address = from; nth_receiver = k } in
    elim (Bool-cases (leb m (k + 1))) [
      | inl last ↦ (entry ∷ [], rw last refl)
      | inr more ↦
          let (rs, e) = wait_connections-total m (k + 1) conns (ground arith) (omega arith) in
          (entry ∷ rs, rw (more, e) refl)
    ]

prepare_file-total :
    (name : List ℕ) (len size m : ℕ)
    → 0 < size
    → (info : FileInfo) × (prepare_file name len size m ≡ some info)
unfolding prepare_file
prepare_file-total name len size m pos =
    let nonzero : (size == 0) ≡ false = ground arith in
    (
      record {
        file_name = name;
        total_file_size = len;
        segment_count = (len + size - 1) / size;
        segment_size = size;
        max_receiver_cnt = m;
      },
      rw nonzero refl,
    )

-- For a file and a segment size that are not empty, and at least as many connections as the
-- receivers, of which there is one, `main` of the sender comes to its end, and for each receiver
-- the steps of its threads, for the segments that the sender writes to it and those that each other
-- receiver passes on, and of its `main` can go on to where `main` has written the file of the
-- sender.
pub transfer-completes :
    (name file : List ℕ) (size m i : ℕ) (conns : List (Receiver × ℕ))
    → 0 < size
    → 0 < m
    → 0 < length file
    → m ≤ length conns
    → (s : Sending) × (sender_main name file size m conns ≡ some s)
      × ((q : Process) × Steps (begin s.file_info.segment_count (peer_threads i m s.segments)) q
          × (q.shared.main ≡ written (some file)))
unfolding sender_main
transfer-completes name file size m i conns some_size pos long enough =
    let (info, prepared) = prepare_file-total name (length file) size m some_size in
    let (rs, waited) = wait_connections-total m 0 conns pos (omega arith) in
    let out = sent_from size m file 0 info.segment_count in
    let sent = send_segment-eq-sent_from name file size m info pos prepared in
    let ts = peer_threads i m out in
    let begun = next here (wait refl) in
    let (q, run, end) =
      main-written_of_waiting name file size m info out ts
        (set_main (begin info.segment_count ts) waiting) pos long prepared sent
        (Permᴰ-peer_threads i size m info.segment_count file pos) begun refl refl in
    (
      record { file_info = info; receiver_array = send_info info rs; segments = out },
      rw (prepared, waited, sent) refl,
      (q, Steps_append begun run, end),
    )
