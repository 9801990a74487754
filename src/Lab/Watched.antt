-- ===== src/Lab/Watched.antt =====
-- The descriptors that `select` watches (file_multi_serv.c).
use network_camp.Prelude.{
  ℕ, ◌≤◌, List, [], ◌∷◌, arith, if◌then◌else◌, ltb, ◌==◌, All, Bool-cases, inl, inr,
}
use network_camp.Lab.{
  Watch, fd_set, fd_clr, Ready, connects, closes, message, handle_ready, handle_all,
}

-- `select(fd_max + 1, ...)` looks at all that is watched.
abbrev pub IsWatched : Watch → Type 0
IsWatched w = All (λ fd. fd ≤ w.fd_max) w.reads

All-fd_set : (P : ℕ → Type 0) (fd : ℕ) (xs : List ℕ) → P fd → All P xs → All P (fd_set fd xs)
unfolding fd_set
All-fd_set P fd [] p a = (p, tt)
All-fd_set P fd (x ∷ xs) p (q, a) = elim (Bool-cases (x == fd)) [
  | inl same ↦ rw same (q, a)
  | inr other ↦ rw other (q, All-fd_set P fd xs p a)
]

All-fd_clr : (P : ℕ → Type 0) (fd : ℕ) (xs : List ℕ) → All P xs → All P (fd_clr fd xs)
unfolding fd_clr
All-fd_clr P fd [] a = tt
All-fd_clr P fd (x ∷ xs) (q, a) = elim (Bool-cases (x == fd)) [
  | inl same ↦ rw same (All-fd_clr P fd xs a)
  | inr other ↦ rw other (q, All-fd_clr P fd xs a)
]

All_mono : (m n : ℕ) (xs : List ℕ) → m ≤ n → All (λ fd. fd ≤ m) xs → All (λ fd. fd ≤ n) xs
All_mono m n [] le a = tt
All_mono m n (x ∷ xs) le (h, a) = (omega arith, All_mono m n xs le a)

handle_ready-IsWatched : (w : Watch) (r : Ready) → IsWatched w → IsWatched (handle_ready w r)
unfolding handle_ready
handle_ready-IsWatched w (connects clnt_sock) a =
    let top = if ltb w.fd_max clnt_sock then clnt_sock else w.fd_max in
    All-fd_set (λ fd. fd ≤ top) clnt_sock w.reads (ground arith)
      (All_mono w.fd_max top w.reads (ground arith) a)
handle_ready-IsWatched w (closes i) a = All-fd_clr (λ fd. fd ≤ w.fd_max) i w.reads a
handle_ready-IsWatched w (message i) a = a

-- What is watched stays below `fd_max + 1`.
pub handle_all-IsWatched : (w : Watch) (rs : List Ready) → IsWatched w → IsWatched (handle_all w rs)
unfolding handle_all
handle_all-IsWatched w [] a = a
handle_all-IsWatched w (r ∷ rs) a =
    handle_all-IsWatched (handle_ready w r) rs (handle_ready-IsWatched w r a)
