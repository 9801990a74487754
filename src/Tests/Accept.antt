-- ===== src/Tests/Accept.antt =====
-- The theorems on the loop that accepts (search_server.c, multiple_access_serv.c) at work.
use network_camp.Prelude.{ℕ, some, List, [], ◌∷◌, ◌++◌, ◌≡◌, refl, arith, map, set}
use network_camp.Search.Clients.{Clients, add_client, registered, max_clnt}
use network_camp.Accept.{
  accepting, serves, Acceptor, accept, register, create, read_arg, Steps, here, next, zeros, begin,
}
use network_camp.Accept.Prompt.{threads-IsPrompt}
use network_camp.Accept.Shared.{all_serve_last}

-- Client 5 is accepted, while client 6 waits, and its thread reads the socket.
abbrev joined : Clients
joined = record { socks = set (zeros max_clnt) 0 5; cnt = 1 }

abbrev serving : Acceptor
serving = record {
  clnt_sock = 5;
  clients = joined;
  main = accepting;
  threads = serves 5 ∷ [];
  coming = 6 ∷ [];
}

abbrev run : Steps (begin (5 ∷ 6 ∷ [])) serving
run =
    let joins : add_client (record { socks = zeros max_clnt; cnt = 0 }) 5 ≡ some joined =
      unfold add_client in refl in
    next
      (next (next (next here (accept 5 (6 ∷ []) refl refl)) (register joined refl joins))
        (create refl))
      (read_arg [] [] refl)

threads-IsPrompt_example :
    (handed : List ℕ) × (handed ++ 6 ∷ [] ≡ 5 ∷ 6 ∷ [])
    × (serves 5 ∷ [] ≡ map serves handed)
    × (registered joined ≡ handed)
threads-IsPrompt_example = threads-IsPrompt (5 ∷ 6 ∷ []) serving run (tt, tt) refl (tt, tt)

all_serve_last_example :
    (a : Acceptor) × Steps (begin (4 ∷ 5 ∷ 6 ∷ [])) a
    × (a.threads ≡ serves 6 ∷ serves 6 ∷ serves 6 ∷ [])
    × (registered a.clients ≡ 4 ∷ 5 ∷ 6 ∷ [])
all_serve_last_example = all_serve_last (4 ∷ 5 ∷ []) 6 (omega arith)
