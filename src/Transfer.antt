-- ===== src/Transfer.antt =====
-- Files over a TCP connection, a buffer at a time: the sending loop and the receiving loop that
-- 숙제#1 (download_serv.c, download_clnt.c) and 숙제#3 (simple_remote_shell_serv.c,
-- simple_remote_shell_clnt.c) share, for any BUFSIZE.
pub mod Complete
pub mod Int
use network_camp.Prelude.{
  ℕ, zero, suc, ◌+◌, Option, none, some, List, [], ◌∷◌, ◌++◌, if◌then◌else◌, ltb, leb, length, take,
  drop, min, ◌>>=◌,
}

-- How much the network hands over at once: the `j`-th `read` returns at most `limits j + 1` bytes of
-- those that are there, and at least one.
abbrev pub Limits : Type 0
Limits = ℕ → ℕ

-- What a receiving loop comes to: it ends, with the bytes written to the file, the bytes that stay in
-- the connection and the number of reads; or `read` waits for bytes that nobody sends.
pub data Outcome : Type 0 where
  done : (written rest : List ℕ) (reads : ℕ) → Outcome
  blocked : (written : List ℕ) → Outcome
  out_of_fuel : Outcome

module _ (buf_size : ℕ) where
  -- `Send_File` of download_serv.c: the arguments of the calls of `send`, one after the other. A round
  -- that reads less than a buffer is the last. `none` means that the fuel ran out.
  unfoldable pub send_file : ℕ → List ℕ → Option (List (List ℕ))
  send_file zero unread = none
  send_file (suc fuel) unread =
      let buffer = take buf_size unread in
      let rest = send_file fuel (drop buf_size unread) in
      if ltb (length buffer) buf_size
      then some (if ltb 0 (length buffer) then buffer ∷ [] else [])
      else rest >>= λ bs. some (if ltb 0 (length buffer) then buffer ∷ bs else bs)

  -- The loop of `GetFile` in simple_remote_shell_serv.c and of `Download_File` in
  -- simple_remote_shell_clnt.c: `written` holds the `file_len` bytes so far, a `long`.
  unfoldable pub receive_file : Limits → ℕ → ℕ → ℕ → List ℕ → List ℕ → Outcome
  receive_file limits zero j file_size written stream = out_of_fuel
  receive_file limits (suc fuel) j file_size written [] = blocked written
  receive_file limits (suc fuel) j file_size written (x ∷ stream) =
      let n = min buf_size (limits j + 1) in
      let written' = written ++ take n (x ∷ stream) in
      let rest = drop n (x ∷ stream) in
      let later = receive_file limits fuel (j + 1) file_size written' rest in
      if leb file_size (length written') then done written' rest (j + 1) else later
