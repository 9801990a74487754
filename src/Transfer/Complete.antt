-- ===== src/Transfer/Complete.antt =====
-- What the loops of `Transfer` do to a file (download_serv.c, download_clnt.c).
use network_camp.Prelude.{
  ℕ, zero, suc, ◌+◌, ◌≤◌, ◌<◌, some, List, [], ◌∷◌, ◌++◌, ◌≡◌, refl, ap, ◌∙◌, arith, if◌then◌else◌,
  ltb, leb, length, take, drop, min, length-take, length-drop, length-append, take-append-drop,
  take_all, drop_all, append_assoc, append-nil, Bool-cases, inl, inr,
}
use network_camp.Transfer.{Limits, done, send_file, receive_file}

abbrev pub flat : List (List ℕ) → List ℕ
flat [] = []
flat (b ∷ bs) = b ++ flat bs

pub flat_buffer :
    (b : List ℕ) (bs : List (List ℕ))
    → flat (if ltb 0 (length b) then b ∷ bs else bs) ≡ b ++ flat bs
flat_buffer [] bs = refl
flat_buffer (x ∷ b) bs = ground arith

-- The sending loop ends, after at most as many rounds as the file has bytes and one more, and sends
-- the bytes of the file.
pub send_file-total :
    (buf_size fuel : ℕ) (file : List ℕ)
    → 0 < buf_size
    → length file < fuel
    → (bs : List (List ℕ)) × (send_file buf_size fuel file ≡ some bs) × (flat bs ≡ file)
unfolding send_file
send_file-total b zero file pos h = absurd (omega arith)
send_file-total b (suc fuel) file pos h = elim (Bool-cases (ltb (length (take b file)) b)) [
  | inl last ↦ (
    if ltb 0 (length (take b file)) then take b file ∷ [] else [],
    rw last,
    flat_buffer (take b file) []
        ∙ append-nil (take b file)
        ∙ take_all b file (ground (arith, length-take b file)),
  )
  | inr more ↦
      let long : b ≤ length (take b file) = ground arith in
      let (bs, e, q) =
        send_file-total b fuel (drop b file) pos
          (omega (arith, length-drop b file, length-take b file)) in
      (
        if ltb 0 (length (take b file)) then take b file ∷ bs else bs,
        rw (more, e),
        flat_buffer (take b file) bs ∙ ap (◌++◌ (take b file)) q ∙ take-append-drop b file,
      )
]

-- What the receiving loop has written and what it has left make up the stream, and it stops only
-- when it has written enough.
receive_file_lem :
    (buf_size : ℕ) (limits : Limits) (fuel j file_size : ℕ) (written stream : List ℕ)
    → 0 < buf_size
    → length stream < fuel
    → 0 < length stream
    → length written < file_size
    → file_size ≡ length written + length stream
    → (reads : ℕ) × (receive_file buf_size limits fuel j file_size written stream
        ≡ done (written ++ stream) [] reads)
unfolding receive_file
receive_file_lem b limits zero j size written stream pos h k w e = absurd (omega arith)
receive_file_lem b limits (suc fuel) j size written [] pos h k w e = absurd (omega arith)
receive_file_lem b limits (suc fuel) j size written (x ∷ stream) pos h k w e =
    let n = min b (limits j + 1) in
    let some_bytes : 0 < n = ground arith in
    let split = take-append-drop n (x ∷ stream) in
    let lengths : length (written ++ take n (x ∷ stream))
        ≡ length written + min n (length (x ∷ stream)) =
      length-append written (take n (x ∷ stream))
      ∙ ap (◌+◌ (length written)) (length-take n (x ∷ stream)) in
    elim (Bool-cases (leb size (length (written ++ take n (x ∷ stream))))) [
      | inl enough ↦
          let all : length (x ∷ stream) ≤ n = ground arith in
          (j + 1, rw (enough, take_all n (x ∷ stream) all, drop_all n (x ∷ stream) all) refl)
      | inr more ↦
          let (reads, r) =
            receive_file_lem b limits fuel (j + 1) size (written ++ take n (x ∷ stream))
              (drop n (x ∷ stream)) pos (ground (arith, length-drop n (x ∷ stream)))
              (ground (arith, length-drop n (x ∷ stream))) (ground arith)
              (ground (arith, length-drop n (x ∷ stream))) in
          (
            reads,
            rw more (
                r
                ∙ ap (λ l. done l [] reads)
                    (append_assoc written (take n (x ∷ stream)) (drop n (x ∷ stream))
                      ∙ ap (◌++◌ written) split)),
          )
    ]

-- The receiving loop on a file that is not empty.
pub receive_file_whole :
    (buf_size : ℕ) (limits : Limits) (file : List ℕ)
    → 0 < buf_size
    → 0 < length file
    → (reads : ℕ) × (receive_file buf_size limits (length file + 1) 0 (length file) [] file
        ≡ done file [] reads)
receive_file_whole b limits file pos some_bytes =
    receive_file_lem b limits (length file + 1) 0 (length file) [] file pos (omega arith) some_bytes
      some_bytes (omega arith)

-- For a file that is not empty and a buffer that is not empty, the sending loop ends, and however
-- the network cuts the bytes, the receiving loop with the length of the file as `file_size` ends
-- with the bytes of the file written and nothing left in the connection.
pub download :
    (buf_size : ℕ) (limits : Limits) (file : List ℕ)
    → 0 < buf_size
    → 0 < length file
    → (bs : List (List ℕ)) × (send_file buf_size (length file + 1) file ≡ some bs)
      × ((reads : ℕ) × (receive_file buf_size limits (length file + 1) 0 (length file) [] (flat bs)
            ≡ done file [] reads))
download b limits file pos some_bytes =
    let (bs, e, q) = send_file-total b (length file + 1) file pos (omega arith) in
    (bs, e, rw q (receive_file_whole b limits file pos some_bytes))
