-- ===== src/Shell/Loop/Others.antt =====
-- What a client of the server keeps while others are served (simple_remote_shell_serv.c).
use mathlib.Core.Option.{some-injective}
use network_camp.Prelude.{
  ℕ, zero, suc, ◌+◌, Option, some, List, [], ◌∷◌, ◌++◌, ◌≡◌, ◌≢◌, ap, sym, subst, ◌∙◌, arith, ◌==◌,
  ltb, take, drop, All, Bool-cases, inl, inr, >>=-eq-some,
}
use network_camp.Transfer.{Limits}
use network_camp.Shell.{
  Dirent, Client, Server, epoll_size, find_client, get_struct, connect, create_new_from_default,
}
use network_camp.Shell.Handler.{Effect}
use network_camp.Shell.Handler.Files.{handle_request-get_struct}
use network_camp.Shell.Loop.{Event, connection, closing, request, handle_event, handle_events}

-- An event that is not a request of the client, nor the end of any.
abbrev pub IsOfOther : ℕ → Event → Type 0
IsOfOther sock (connection clnt_sock) = Unit
IsOfOther sock (closing fd) = ⊥
IsOfOther sock (request fd option text uploaded stream) = sock ≢ fd

pub find_client-take :
    (n : ℕ) (cs more : List Client) (sock : ℕ) (c : Client)
    → find_client n cs sock ≡ some c
    → find_client (suc n) (take n cs ++ more) sock ≡ some c
unfolding find_client
find_client-take zero cs more sock c e = cc
find_client-take (suc n) [] more sock c e = cc
find_client-take (suc n) (d ∷ cs) more sock c e = elim (Bool-cases (d.sockfd == sock)) [
  | inl hit ↦ rw hit (rw hit at e)
  | inr miss ↦ rw miss (find_client-take n cs more sock c (rw miss at e))
]

connect_keeps :
    (s s' : Server) (clnt_sock sock : ℕ) (c : Client)
    → get_struct s sock ≡ some c
    → connect s clnt_sock ≡ some s'
    → get_struct s' sock ≡ some c
unfolding get_struct connect
connect_keeps s s' clnt_sock sock c g e = elim (Bool-cases (ltb s.client_cnt epoll_size)) [
  | inr full ↦ cc (rw full at e)
  | inl room ↦
      let more =
        create_new_from_default s.default_directory clnt_sock ∷ drop (s.client_cnt + 1) s.clients in
      ap (λ (x : Server). find_client x.client_cnt x.clients sock)
        (sym (some-injective _ s' (rw room at e)))
      ∙ ap (λ n. find_client n (take s.client_cnt s.clients ++ more) sock) {x = s.client_cnt + 1}
          {y = suc s.client_cnt} (omega arith)
      ∙ find_client-take s.client_cnt s.clients more sock c g
]

module _ (open_size : List ℕ → Option ℕ) (read_dir : List ℕ → Option (List Dirent))
    (contents : List ℕ → Option (List ℕ)) (dirname : List ℕ → List ℕ) (limits : Limits) where
  handle_event_keeps :
      (s s' : Server) (effect : Effect) (e : Event) (sock : ℕ) (c : Client)
      → get_struct s sock ≡ some c
      → IsOfOther sock e
      → handle_event open_size read_dir contents dirname limits s e ≡ some (s', effect)
      → get_struct s' sock ≡ some c
  unfolding handle_event
  handle_event_keeps s s' effect (connection clnt_sock) sock c g o e =
      let (t, a, q) = >>=-eq-some (connect s clnt_sock) _ e in
      ap (λ (x : Server × Effect). get_struct x.0 sock) (sym (some-injective _ _ q))
      ∙ connect_keeps s t clnt_sock sock c g a
  handle_event_keeps s s' effect (closing fd) sock c g o e = elim o [ ]
  handle_event_keeps s s' effect (request fd option text uploaded stream) sock c g o e =
      handle_request-get_struct open_size read_dir contents dirname limits s s' fd sock option text
        uploaded stream effect e o
      ∙ g

  -- What the server has for a client stays as it is over any number of events, as long as no client
  -- leaves and none of the requests is its own, whatever the others request and whoever connects.
  pub handle_events-get_struct :
      (events : List Event) (s s' : Server) (effects : List Effect) (sock : ℕ) (c : Client)
      → get_struct s sock ≡ some c
      → All (IsOfOther sock) events
      → handle_events open_size read_dir contents dirname limits s events ≡ some (s', effects)
      → get_struct s' sock ≡ some c
  unfolding handle_events
  handle_events-get_struct [] s s' effects sock c g a e =
      ap (λ (x : Server × List Effect). get_struct x.0 sock) (sym (some-injective _ _ e)) ∙ g
  handle_events-get_struct (x ∷ events) s s' effects sock c g a e =
      let ((t, effect), first, e1) =
        >>=-eq-some (handle_event open_size read_dir contents dirname limits s x) _ e in
      let ((t', rest), later, e2) =
        >>=-eq-some (handle_events open_size read_dir contents dirname limits t events) _ e1 in
      let same : t' ≡ s' = ap (λ (x : Server × List Effect). x.0) (some-injective _ _ e2) in
      subst (λ u. get_struct u sock ≡ some c) same
        (handle_events-get_struct events t t' rest sock c
          (handle_event_keeps s t effect x sock c g a.0 first) a.1 later)
