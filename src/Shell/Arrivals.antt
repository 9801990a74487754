-- ===== src/Shell/Arrivals.antt =====
-- Clients that come to the server of the remote shell and leave it (simple_remote_shell_serv.c).
use mathlib.Core.Option.{some-injective}
use network_camp.Prelude.{
  ℕ, suc, ◌+◌, ◌-◌, false, none, some, List, [], ◌∷◌, ◌++◌, ◌≡◌, ◌≢◌, refl, ap, sym, ◌∙◌, arith,
  ◌==◌, ltb, length, take-append, drop, All, Bool-cases, inl, inr, eq→==,
}
use network_camp.Shell.{epoll_size, Client, Server, find_client, get_struct, connect, disconnect}

find_client_new :
    (pre rest : List Client) (new : Client) (sock : ℕ)
    → new.sockfd ≡ sock
    → All (λ (c : Client). c.sockfd ≢ sock) pre
    → find_client (suc (length pre)) (pre ++ new ∷ rest) sock ≡ some new
unfolding find_client
find_client_new [] rest new sock h a = rw (eq→== new.sockfd sock h) refl
find_client_new (c ∷ pre) rest new sock h a =
    let miss : (c.sockfd == sock) ≡ false = ground (arith, a.0) in
    rw (miss, find_client_new pre rest new sock h a.1) refl

-- A server with `last` in the last slot that counts.
abbrev pub server : List Client → List Client → Client → Client → Server
server pre rest last default = record {
  clients = pre ++ last ∷ rest;
  client_cnt = length pre + 1;
  default_directory = default;
}

module _ (pre rest : List Client) (last : Client) where
  find_client_past :
      (ds : List Client) (k : ℕ)
      → All (λ (c : Client). c.sockfd ≢ k) ds
      → find_client (length ds) (ds ++ last ∷ rest) k ≡ none
  unfolding find_client
  find_client_past [] k a = refl
  find_client_past (d ∷ ds) k a =
      let miss : (d.sockfd == k) ≡ false = ground (arith, a.0) in
      rw (miss, find_client_past ds k a.1) refl

  find_client_more :
      (ds : List Client) (k : ℕ)
      → k ≢ last.sockfd
      → find_client (length ds) (ds ++ last ∷ rest) k
        ≡ find_client (suc (length ds)) (ds ++ last ∷ rest) k
  unfolding find_client
  find_client_more [] k h =
      let miss : (last.sockfd == k) ≡ false = ground (arith, h) in rw miss refl
  find_client_more (d ∷ ds) k h = rw (find_client_more ds k h) refl

-- When a client leaves that is not the last one registered, it is still found as before, and the
-- last one, whose socket no other before it has, is not found any more.
pub disconnect-get_struct :
    (pre rest : List Client) (last default : Client) (sock : ℕ)
    → All (λ (c : Client). c.sockfd ≢ last.sockfd) pre
    → sock ≢ last.sockfd
    → (get_struct (disconnect (server pre rest last default) sock) sock
        ≡ get_struct (server pre rest last default) sock)
      × (get_struct (disconnect (server pre rest last default) sock) last.sockfd ≡ none)
unfolding disconnect get_struct
disconnect-get_struct pre rest last default sock a h =
    let all = pre ++ last ∷ rest in
    let less : length pre + 1 - 1 ≡ length pre = omega arith in
    (
      ap (λ n. find_client n all sock) less
          ∙ find_client_more pre rest last pre sock h
          ∙ ap (λ n. find_client n all sock) {x = suc (length pre)} {y = length pre + 1}
              (omega arith),
      ap (λ n. find_client n all last.sockfd) less
          ∙ find_client_past pre rest last pre last.sockfd a,
    )

-- When a client is accepted with a socket that no registered client has, it is found with the
-- starting directory and its listing.
pub connect-get_struct :
    (pre rest : List Client) (default : Client) (sock : ℕ) (s : Server)
    → All (λ (c : Client). c.sockfd ≢ sock) pre
    → connect
        (record { clients = pre ++ rest; client_cnt = length pre; default_directory = default })
        sock
      ≡ some s
    → get_struct s sock ≡ some (record default { sockfd = sock })
unfolding connect get_struct
connect-get_struct pre rest default sock s a e = elim (Bool-cases (ltb (length pre) epoll_size)) [
  | inr full ↦ cc (rw full at e)
  | inl room ↦
      ap (λ (x : Server). find_client x.client_cnt x.clients sock)
        (sym (some-injective _ s (rw room at e)))
      ∙ rw (take-append pre rest (length pre) refl) (
          ap
            (λ n.
              find_client n
                (pre ++ record default { sockfd = sock } ∷ drop (length pre + 1) (pre ++ rest))
                sock)
            {x = length pre + 1} {y = suc (length pre)} (omega arith)
          ∙ find_client_new pre (drop (length pre + 1) (pre ++ rest))
              (record default { sockfd = sock }) sock refl a)
]
