-- ===== src/Lab.antt =====
-- The exercises: 실습#1/file_multi_serv.c and 실습#3/multiple_access_serv.c serve a picture to each client
-- that connects, 실습#1/file_client.c (the same as 실습#3/file_client.c) writes what it is sent.
pub mod Picture
pub mod Watched
use network_camp.Prelude.{
  ℕ, zero, suc, ◌+◌, Option, none, some, List, [], ◌∷◌, ◌++◌, if◌then◌else◌, ◌==◌, ltb, length,
  take, drop, min, ◌>>=◌,
}
use network_camp.Transfer.{Limits}
use network_camp.Search.Clients.{Clients, remove_client}

-- The loop of `Send_File` of file_multi_serv.c and of `handle_clnt` of multiple_access_serv.c, on fuel:
-- the arguments of `write`.
unfoldable pub send_picture : ℕ → ℕ → List ℕ → Option (List (List ℕ))
send_picture size zero unread = none
send_picture size (suc fuel) unread =
    let msg = take size unread in
    let later = send_picture size fuel (drop size unread) >>= λ bs. some (msg ∷ bs) in
    if ltb (length msg) size then some (msg ∷ []) else later

-- `BUF_SIZE` of multiple_access_serv.c
abbrev pub buf_size : ℕ
buf_size = 1024

-- `handle_clnt` of multiple_access_serv.c: what is written, and the array of clients behind it. The loop
-- that takes the client from the array is that of search_server.c.
unfoldable pub handle_clnt : Clients → ℕ → List ℕ → Option (List (List ℕ) × Clients)
handle_clnt clients clnt_sock picture = send_picture buf_size (length picture + 1) picture >>= λ bs.
    some (bs, remove_client clients clnt_sock)

-- The loop of file_client.c on fuel: it ends when the connection is closed and empty. `none` means that
-- the fuel ran out.
unfoldable pub receive_picture : ℕ → Limits → ℕ → ℕ → List ℕ → Option (List ℕ)
receive_picture size limits zero j stream = none
receive_picture size limits (suc fuel) j [] = some []
receive_picture size limits (suc fuel) j (b ∷ stream) =
    let n = min size (limits j + 1) in
    receive_picture size limits fuel (j + 1) (drop n (b ∷ stream)) >>= λ rest.
    some (take n (b ∷ stream) ++ rest)

-- `reads` and `fd_max` of `main` in file_multi_serv.c.
pub record Watch : Type 0 where
  pub reads : List ℕ
  pub fd_max : ℕ

-- `FD_SET` and `FD_CLR`
unfoldable pub fd_set : ℕ → List ℕ → List ℕ
fd_set fd [] = fd ∷ []
fd_set fd (x ∷ xs) = if x == fd then x ∷ xs else x ∷ fd_set fd xs

unfoldable pub fd_clr : ℕ → List ℕ → List ℕ
fd_clr fd [] = []
fd_clr fd (x ∷ xs) = if x == fd then fd_clr fd xs else x ∷ fd_clr fd xs

-- What a descriptor that is ready brings: a connection, the end of one, or a message.
pub data Ready : Type 0 where
  connects : (clnt_sock : ℕ) → Ready
  closes : (i : ℕ) → Ready
  message : (i : ℕ) → Ready

-- The body of the loop over the descriptors.
unfoldable pub handle_ready : Watch → Ready → Watch
unfolding fd_set fd_clr
handle_ready w (connects clnt_sock) = record {
  reads = fd_set clnt_sock w.reads;
  fd_max = if ltb w.fd_max clnt_sock then clnt_sock else w.fd_max;
}
handle_ready w (closes i) = record w { reads = fd_clr i w.reads }
handle_ready w (message i) = w

unfoldable pub handle_all : Watch → List Ready → Watch
handle_all w [] = w
handle_all w (r ∷ rs) = handle_all (handle_ready w r) rs
