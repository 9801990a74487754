-- ===== src/Accept/Shared.antt =====
-- Threads that read their socket after other clients were accepted (search_server.c,
-- multiple_access_serv.c).
use network_camp.Prelude.{
  ℕ, suc, ◌+◌, ◌-◌, ◌<◌, true, some, List, [], ◌∷◌, ◌++◌, ◌≡◌, refl, ap, ap₂, sym, subst, ◌∙◌,
  arith, ltb, length, length-append, map, map-append, set, set-append, take-append, append_assoc,
  append-nil,
}
use network_camp.Search.Clients.{Clients, max_clnt, registered, add_client}
use network_camp.Accept.{
  accepting, starts, serves, Acceptor, accept, register, create, read_arg, Steps, here, next, zeros,
  begin,
}

Steps_append : {a b c : Acceptor} → Steps a b → Steps b c → Steps a c
Steps_append r here = r
Steps_append r (next q st) = next (Steps_append r q) st

abbrev clients_of : List ℕ → Clients
clients_of handed = record {
  socks = handed ++ zeros (max_clnt - length handed);
  cnt = length handed;
}

add_client-clients_of :
    (handed : List ℕ) (sock : ℕ)
    → length handed < max_clnt
    → add_client (clients_of handed) sock ≡ some (clients_of (handed ++ sock ∷ []))
unfolding add_client
add_client-clients_of handed sock lt =
    let room : ltb (length handed) max_clnt ≡ true = ground arith in
    let left = max_clnt - (length handed + 1) in
    let len = length-append handed (sock ∷ []) in
    let slots : max_clnt - length handed ≡ suc left = omega arith in
    rw room (
      ap₂ (λ socks n. some (record { socks = socks; cnt = n }))
        (ap (λ k. set (handed ++ zeros k) (length handed) sock) slots
          ∙ set-append handed (zeros left) (length handed) 0 sock refl
          ∙ sym (append_assoc handed (sock ∷ []) (zeros left))
          ∙ ap (λ k. (handed ++ sock ∷ []) ++ zeros (max_clnt - k)) (sym len))
        (sym len))

-- Clients were accepted, and no thread has run.
abbrev accepted : List ℕ → ℕ → List ℕ → Acceptor
accepted handed clnt_sock coming = record {
  clnt_sock = clnt_sock;
  clients = clients_of handed;
  main = accepting;
  threads = map (λ s. starts) handed;
  coming = coming;
}

accept_one :
    (handed coming : List ℕ) (before sock : ℕ)
    → length handed < max_clnt
    → Steps (accepted handed before (sock ∷ coming)) (accepted (handed ++ sock ∷ []) sock coming)
accept_one handed coming before sock lt =
    let a1 = next here (accept sock coming refl refl) in
    let a2 =
      next a1
        (register (clients_of (handed ++ sock ∷ [])) refl (add_client-clients_of handed sock lt)) in
    subst
      (λ ts.
        Steps (accepted handed before (sock ∷ coming))
          (record (accepted (handed ++ sock ∷ []) sock coming) { threads = ts }))
      (sym (map-append (λ s. starts) handed (sock ∷ []))) (next a2 (create refl))

accept_all :
    (socks handed : List ℕ) (before sock : ℕ)
    → length handed + length socks < max_clnt
    → Steps
        (accepted handed before (socks ++ sock ∷ []))
        (accepted (handed ++ (socks ++ sock ∷ [])) sock [])
accept_all [] handed before sock lt = accept_one handed [] before sock (omega arith)
accept_all (s ∷ socks) handed before sock lt =
    subst (λ l. Steps (accepted handed before (s ∷ (socks ++ sock ∷ []))) (accepted l sock []))
      (append_assoc handed (s ∷ []) (socks ++ sock ∷ []))
      (Steps_append (accept_one handed (socks ++ sock ∷ []) before s (omega arith))
        (accept_all socks (handed ++ s ∷ []) s sock (omega (arith, length-append handed (s ∷ [])))))

module _ (a : Acceptor) where
  abbrev reading : List ℕ → List ℕ → Acceptor
  reading pre post = record a {
    threads = map (λ s. serves a.clnt_sock) pre ++ map (λ s. starts) post;
  }

  read_all :
      (pre post : List ℕ)
      → Steps
          (reading pre post)
          (record a { threads = map (λ s. serves a.clnt_sock) (pre ++ post) })
  read_all pre [] =
      subst (λ ts. Steps (reading pre []) (record a { threads = ts }))
        (append-nil (map (λ s. serves a.clnt_sock) pre)
          ∙ ap (map (λ s. serves a.clnt_sock)) (sym (append-nil pre)))
        here
  read_all pre (s ∷ post) =
      let one =
        next here (read_arg (map (λ s. serves a.clnt_sock) pre) (map (λ s. starts) post) refl) in
      let later = read_all (pre ++ s ∷ []) post in
      let front : map (λ s. serves a.clnt_sock) (pre ++ s ∷ []) ++ map (λ s. starts) post
          ≡ map (λ s. serves a.clnt_sock) pre ++ serves a.clnt_sock ∷ map (λ s. starts) post =
        ap (λ l. l ++ map (λ s. starts) post) (map-append (λ s. serves a.clnt_sock) pre (s ∷ []))
        ∙ append_assoc (map (λ s. serves a.clnt_sock) pre) (serves a.clnt_sock ∷ [])
            (map (λ s. starts) post) in
      let end = ap (map (λ s. serves a.clnt_sock)) (append_assoc pre (s ∷ []) post) in
      Steps_append one (
        subst
          (λ ts.
            Steps (record a { threads = ts })
              (record a { threads = map (λ s. serves a.clnt_sock) (pre ++ s ∷ post) }))
          front
          (subst (λ ts. Steps (reading (pre ++ s ∷ []) post) (record a { threads = ts })) end
            later))

-- For fewer than `MAX_CLNT` clients and one more behind them there is an order of the steps after
-- which all are registered and every thread serves the last one: a thread reads its socket from the
-- variable of `main`.
pub all_serve_last :
    (socks : List ℕ) (sock : ℕ)
    → length socks < max_clnt
    → (a : Acceptor) × Steps (begin (socks ++ sock ∷ [])) a
      × (a.threads ≡ map (λ s. serves sock) (socks ++ sock ∷ []))
      × (registered a.clients ≡ socks ++ sock ∷ [])
all_serve_last socks sock lt =
    let all = socks ++ sock ∷ [] in
    (
      record (accepted all sock []) { threads = map (λ s. serves sock) all },
      Steps_append (accept_all socks [] 0 sock (omega arith))
          (read_all (accepted all sock []) [] all),
      refl,
      take-append all (zeros (max_clnt - length all)) (length all) refl,
    )
