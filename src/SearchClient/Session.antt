-- ===== src/SearchClient/Session.antt =====
-- A whole search: the keys, the requests, the answers of search_server.c and what search_clnt.c shows.
use network_camp.Prelude.{ℕ, List, [], ◌∷◌}
use network_camp.SearchClient.{Output, clears, requests, Next, goes_on, returns, exits}

-- What is written to the server.
abbrev pub written : List Output → List (List ℕ)
written [] = []
written (clears ∷ out) = written out
written (requests w ∷ out) = w ∷ written out

abbrev outputs : Next → List Output
outputs (goes_on t out) = out
outputs (returns out) = out
outputs (exits out) = out
