-- ===== src/Shell/Loop/Welcome.antt =====
-- What a client finds that comes to the server of the remote shell (simple_remote_shell_serv.c).
use mathlib.Core.Option.{some-injective}
use network_camp.Prelude.{
  ℕ, zero, suc, ◌+◌, ◌≤◌, false, Option, none, some, List, [], ◌∷◌, ◌++◌, ◌≡◌, ◌≢◌, refl, ap, sym,
  subst, ◌∙◌, arith, if◌then◌else◌, ◌==◌, ltb, take, drop, All, Bool-cases, inl, inr, >>=-eq-some,
  length, length-append, length-take, eq→==,
}
use network_camp.Transfer.{Limits}
use network_camp.Shell.{
  Dirent, Client, Server, epoll_size, name_size, create_array, find_client, get_struct, put_client,
  connect, create_new_from_default,
}
use network_camp.Shell.Sessions.{Touched, Touched-get_struct}
use network_camp.Shell.Handler.{Effect}
use network_camp.Shell.Handler.Files.{handle_request-Touched}
use network_camp.Shell.Loop.{
  Event, connection, closing, request, start_server, handle_event, handle_events,
}
use network_camp.Shell.Loop.Others.{IsOfOther, handle_events-get_struct}

-- An event before a client has come: no connection has its socket.
abbrev pub IsBefore : ℕ → Event → Type 0
IsBefore sock (connection clnt_sock) = clnt_sock ≢ sock
IsBefore sock (closing fd) = ⊥
IsBefore sock (request fd option text uploaded stream) = sock ≢ fd

-- A server that has no client with a socket, with its starting directory.
record Awaits (sock : ℕ) (default : Client) (s : Server) : Type 0 where
  room : s.client_cnt ≤ length s.clients
  unknown : get_struct s sock ≡ none
  starts : s.default_directory ≡ default

find_client-take-none :
    (n : ℕ) (cs more : List Client) (new : Client) (sock : ℕ)
    → n ≤ length cs
    → find_client n cs sock ≡ none
    → find_client (suc n) (take n cs ++ new ∷ more) sock
      ≡ (if new.sockfd == sock then some new else none)
unfolding find_client
find_client-take-none zero cs more new sock le e = refl
find_client-take-none (suc n) [] more new sock le e = absurd (omega arith)
find_client-take-none (suc n) (d ∷ cs) more new sock le e = elim (Bool-cases (d.sockfd == sock)) [
  | inl hit ↦ cc (rw hit at e)
  | inr miss ↦ rw miss (find_client-take-none n cs more new sock (omega arith) (rw miss at e))
]

length-put_client :
    (n : ℕ) (cs : List Client) (sock : ℕ) (c : Client) → length (put_client n cs sock c) ≡ length cs
unfolding put_client
length-put_client zero cs sock c = refl
length-put_client (suc n) [] sock c = refl
length-put_client (suc n) (d ∷ cs) sock c = elim (Bool-cases (d.sockfd == sock)) [
  | inl hit ↦ rw hit refl
  | inr miss ↦ rw miss (ap suc (length-put_client n cs sock c))
]

Touched-Awaits :
    (s s' : Server) (fd sock : ℕ) (default : Client)
    → Touched s fd s'
    → sock ≢ fd
    → Awaits sock default s
    → Awaits sock default s'
Touched-Awaits s s' fd sock default t h a = record {
  room = room t;
  unknown = Touched-get_struct s s' fd sock t h ∙ a.unknown;
  starts = starts t;
}
  where
    room : Touched s fd s' → s'.client_cnt ≤ length s'.clients
    room (inl same) = subst (λ (x : Server). x.client_cnt ≤ length x.clients) (sym same) a.room
    room (inr (c', e, put)) =
        subst (λ (x : Server). x.client_cnt ≤ length x.clients) (sym put)
          (omega (arith, a.room, length-put_client s.client_cnt s.clients fd c'))

    starts : Touched s fd s' → s'.default_directory ≡ default
    starts (inl same) = ap (λ (x : Server). x.default_directory) same ∙ a.starts
    starts (inr (c', e, put)) = ap (λ (x : Server). x.default_directory) put ∙ a.starts

connected :
    (s s' : Server) (clnt_sock : ℕ)
    → connect s clnt_sock ≡ some s'
    → record s {
      clients =
          take s.client_cnt s.clients
          ++ create_new_from_default s.default_directory clnt_sock
            ∷ drop (s.client_cnt + 1) s.clients;
      client_cnt = s.client_cnt + 1;
    }
      ≡ s'
unfolding connect
connected s s' clnt_sock e = elim (Bool-cases (ltb s.client_cnt epoll_size)) [
  | inr full ↦ cc (rw full at e)
  | inl room ↦ some-injective _ s' (rw room at e)
]

-- What is found of a socket when one has connected.
connect_finds :
    (s s' : Server) (clnt_sock sock : ℕ) (default : Client)
    → Awaits sock default s
    → connect s clnt_sock ≡ some s'
    → get_struct s' sock
      ≡ (if clnt_sock == sock then some (record default { sockfd = clnt_sock }) else none)
unfolding get_struct
connect_finds s s' clnt_sock sock default a e =
    let more = drop (s.client_cnt + 1) s.clients in
    let new = create_new_from_default s.default_directory clnt_sock in
    ap (λ (x : Server). find_client x.client_cnt x.clients sock) (sym (connected s s' clnt_sock e))
    ∙ ap (λ n. find_client n (take s.client_cnt s.clients ++ new ∷ more) sock)
        {x = s.client_cnt + 1} {y = suc s.client_cnt} (omega arith)
    ∙ find_client-take-none s.client_cnt s.clients more new sock a.room a.unknown
    ∙ ap
        (λ (d : Client). if clnt_sock == sock then some (record d { sockfd = clnt_sock }) else none)
        a.starts

connect-Awaits :
    (s s' : Server) (clnt_sock sock : ℕ) (default : Client)
    → clnt_sock ≢ sock
    → connect s clnt_sock ≡ some s'
    → Awaits sock default s
    → Awaits sock default s'
connect-Awaits s s' clnt_sock sock default h e a =
    let other : (clnt_sock == sock) ≡ false = ground (arith, h) in
    let new = create_new_from_default s.default_directory clnt_sock in
    let same = connected s s' clnt_sock e in
    record {
      room =
          subst (λ (x : Server). x.client_cnt ≤ length x.clients) same
            (omega (
              arith,
              a.room,
              length-append (take s.client_cnt s.clients) (new ∷ drop (s.client_cnt + 1) s.clients),
              length-take s.client_cnt s.clients,
            ));
      unknown =
          connect_finds s s' clnt_sock sock default a e
          ∙ ap (λ b. if b then some (record default { sockfd = clnt_sock }) else none) other;
      starts = ap (λ (x : Server). x.default_directory) (sym same) ∙ a.starts;
    }

start_server-Awaits :
    (open_size : List ℕ → Option ℕ) (read_dir : List ℕ → Option (List Dirent)) (path : List ℕ)
    (serv_sock sock : ℕ) (s : Server)
    → start_server open_size read_dir path serv_sock ≡ some s
    → Awaits sock s.default_directory s
unfolding start_server get_struct find_client
start_server-Awaits open_size read_dir path serv_sock sock s e =
    elim (Bool-cases (ltb (length (path ++ b'/' ∷ [])) name_size)) [
      | inr long ↦ cc (rw long at e)
      | inl fits ↦
          let (c, listed, q) = >>=-eq-some (create_array open_size read_dir _) _ (rw fits at e) in
          let empty : Awaits sock c
              (record { clients = []; client_cnt = 0; default_directory = c }) =
            record { room = omega arith; unknown = refl; starts = refl } in
          let same = some-injective _ s q in
          subst (λ (x : Server). Awaits sock x.default_directory x) same empty
    ]

module _ (open_size : List ℕ → Option ℕ) (read_dir : List ℕ → Option (List Dirent))
    (contents : List ℕ → Option (List ℕ)) (dirname : List ℕ → List ℕ) (limits : Limits) where
  handle_event-Awaits :
      (s s' : Server) (effect : Effect) (e : Event) (sock : ℕ) (default : Client)
      → IsBefore sock e
      → handle_event open_size read_dir contents dirname limits s e ≡ some (s', effect)
      → Awaits sock default s
      → Awaits sock default s'
  unfolding handle_event
  handle_event-Awaits s s' effect (connection clnt_sock) sock default o e a =
      let (t, came, q) = >>=-eq-some (connect s clnt_sock) _ e in
      subst (Awaits sock default) (ap (λ (x : Server × Effect). x.0) (some-injective _ _ q))
        (connect-Awaits s t clnt_sock sock default o came a)
  handle_event-Awaits s s' effect (closing fd) sock default o e a = elim o [ ]
  handle_event-Awaits s s' effect (request fd option text uploaded stream) sock default o e a =
      Touched-Awaits s s' fd sock default
        (handle_request-Touched open_size read_dir contents dirname limits s s' fd option text
          uploaded stream effect e)
        o a

  handle_events_welcome :
      (before after : List Event) (s s' : Server) (effects : List Effect) (sock : ℕ)
      (default : Client)
      → Awaits sock default s
      → All (IsBefore sock) before
      → All (IsOfOther sock) after
      → handle_events open_size read_dir contents dirname limits s
          (before ++ connection sock ∷ after)
        ≡ some (s', effects)
      → get_struct s' sock ≡ some (record default { sockfd = sock })
  unfolding handle_events handle_event
  handle_events_welcome [] after s s' effects sock default w a b e =
      let ((t, effect), came, e1) =
        >>=-eq-some (handle_event open_size read_dir contents dirname limits s (connection sock)) _
          e in
      let ((t', rest), later, e2) =
        >>=-eq-some (handle_events open_size read_dir contents dirname limits t after) _ e1 in
      let (t'', joins, q) = >>=-eq-some (connect s sock) _ came in
      let found : get_struct t'' sock ≡ some (record default { sockfd = sock }) =
        connect_finds s t'' sock sock default w joins
        ∙ ap (λ b. if b then some (record default { sockfd = sock }) else none)
            (eq→== sock sock refl) in
      ap (λ (y : Server × List Effect). get_struct y.0 sock) (sym (some-injective _ _ e2))
      ∙ handle_events-get_struct open_size read_dir contents dirname limits after t t' rest sock
          (record default { sockfd = sock })
          (ap (λ (y : Server × Effect). get_struct y.0 sock) (sym (some-injective _ _ q)) ∙ found) b
          later
  handle_events_welcome (x ∷ before) after s s' effects sock default w a b e =
      let ((t, effect), first, e1) =
        >>=-eq-some (handle_event open_size read_dir contents dirname limits s x) _ e in
      let ((t', rest), later, e2) =
        >>=-eq-some
          (handle_events open_size read_dir contents dirname limits t
            (before ++ connection sock ∷ after))
          _ e1 in
      let same : t' ≡ s' = ap (λ (y : Server × List Effect). y.0) (some-injective _ _ e2) in
      subst (λ u. get_struct u sock ≡ some (record default { sockfd = sock })) same
        (handle_events_welcome before after t t' rest sock default
          (handle_event-Awaits s t effect x sock default a.0 first w) a.1 b later)

  -- When the server could begin, and the events bring one connection with a socket, before it
  -- others with other sockets and requests, behind it connections and requests of others, and no
  -- client leaves, then at the end the server has for that socket the starting directory with its
  -- listing.
  pub start_server-get_struct :
      (path : List ℕ) (serv_sock sock : ℕ) (before after : List Event) (s s' : Server)
      (effects : List Effect)
      → start_server open_size read_dir path serv_sock ≡ some s
      → All (IsBefore sock) before
      → All (IsOfOther sock) after
      → handle_events open_size read_dir contents dirname limits s
          (before ++ connection sock ∷ after)
        ≡ some (s', effects)
      → get_struct s' sock ≡ some (record s.default_directory { sockfd = sock })
  start_server-get_struct path serv_sock sock before after s s' effects e a b =
      handle_events_welcome before after s s' effects sock s.default_directory
        (start_server-Awaits open_size read_dir path serv_sock sock s e) a b
