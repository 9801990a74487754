-- ===== src/Accept.antt =====
-- The loop of `main` that accepts clients in 숙제#4/Server Code/search_server.c, and with the same code in
-- 실습#3/multiple_access_serv.c, and the threads that it creates. A thread gets the address of `clnt_sock`,
-- the variable of `main`, and reads it when it runs.
pub mod Prompt
pub mod Shared
use network_camp.Prelude.{ℕ, zero, suc, Option, some, List, [], ◌∷◌, ◌++◌, ◌≡◌}
use network_camp.Search.Clients.{Clients, max_clnt, add_client, remove_client}

-- `main` in `accept`, before the lock, and before `pthread_create`.
pub data Main : Type 0 where
  accepting registering creating : Main

-- A thread before `*((int *)arg)` is read, with the socket that it serves, and at its end.
pub data Thread : Type 0 where
  starts : Thread
  serves : (clnt_sock : ℕ) → Thread
  ended : Thread

-- `clnt_sock` of `main`, the array of clients, the threads, and the connections that `accept` will give.
pub record Acceptor : Type 0 where
  pub clnt_sock : ℕ
  pub clients : Clients
  pub main : Main
  pub threads : List Thread
  pub coming : List ℕ

-- What can happen next.
pub data Step (a : Acceptor) : Acceptor → Type 0 where
  accept :
      (sock : ℕ) (coming : List ℕ)
      → a.main ≡ accepting
      → a.coming ≡ sock ∷ coming
      → Step a (record a { clnt_sock = sock; main = registering; coming = coming })
  register :
      (c : Clients)
      → a.main ≡ registering
      → add_client a.clients a.clnt_sock ≡ some c
      → Step a (record a { clients = c; main = creating })
  create :
      a.main ≡ creating → Step a (record a { threads = a.threads ++ starts ∷ []; main = accepting })
  read_arg :
      (pre post : List Thread)
      → a.threads ≡ pre ++ starts ∷ post
      → Step a (record a { threads = pre ++ serves a.clnt_sock ∷ post })
  leave :
      (pre post : List Thread) (sock : ℕ)
      → a.threads ≡ pre ++ serves sock ∷ post
      → Step a (record a { threads = pre ++ ended ∷ post; clients = remove_client a.clients sock })

pub data Steps (a : Acceptor) : Acceptor → Type 0 where
  here : Steps a a
  next : {b c : Acceptor} → Steps a b → Step b c → Steps a c

-- An array of zeros, as a global is.
abbrev pub zeros : ℕ → List ℕ
zeros zero = []
zeros (suc n) = 0 ∷ zeros n

abbrev pub begin : List ℕ → Acceptor
begin coming = record {
  clnt_sock = 0;
  clients = record { socks = zeros max_clnt; cnt = 0 };
  main = accepting;
  threads = [];
  coming = coming;
}
