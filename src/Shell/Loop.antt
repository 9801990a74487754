-- ===== src/Shell/Loop.antt =====
-- The loop of `main` over the events of epoll (simple_remote_shell_serv.c).
pub mod Others
pub mod Welcome
use network_camp.Prelude.{
  ℕ, Option, none, some, List, [], ◌∷◌, ◌++◌, if◌then◌else◌, ltb, length, ◌>>=◌,
}
use network_camp.Transfer.{Limits}
use network_camp.Shell.{File, Dirent, Server, name_size, create_array, connect, disconnect}
use network_camp.Shell.Handler.{Effect, nothing, handle_request}

-- An event: a connection that is accepted, a client whose `read` returns at most 0, or one with a
-- request, and what that brings behind it.
pub data Event : Type 0 where
  connection : (clnt_sock : ℕ) → Event
  closing : (fd : ℕ) → Event
  request : (fd option : ℕ) (text : List ℕ) (uploaded : File) (stream : List ℕ) → Event

-- `CreateDefaultDirectory` in front of the loop, with the path that `realpath` gives: the server as it
-- begins. `none` for a path that is too long for `directory`, or a directory that cannot be read.
unfoldable pub start_server :
    (List ℕ → Option ℕ) → (List ℕ → Option (List Dirent)) → List ℕ → ℕ → Option Server
start_server open_size read_dir path serv_sock =
    let directory = path ++ b'/' ∷ [] in
    let listed =
      create_array open_size read_dir
        (record { sockfd = serv_sock; directory = directory; files = [] }) in
    if ltb (length directory) name_size
    then (listed >>= λ c. some (record { clients = []; client_cnt = 0; default_directory = c }))
    else none

module _ (open_size : List ℕ → Option ℕ) (read_dir : List ℕ → Option (List Dirent))
    (contents : List ℕ → Option (List ℕ)) (dirname : List ℕ → List ℕ) (limits : Limits) where
  -- A round of the loop: the threads that are created are joined at once.
  unfoldable pub handle_event : Server → Event → Option (Server × Effect)
  handle_event s (connection clnt_sock) = connect s clnt_sock >>= λ s'. some (s', nothing)
  handle_event s (closing fd) = some (disconnect s fd, nothing)
  handle_event s (request fd option text uploaded stream) =
      handle_request open_size read_dir contents dirname limits s fd option text uploaded stream

  -- Rounds, one after the other, and their effects.
  unfoldable pub handle_events : Server → List Event → Option (Server × List Effect)
  unfolding handle_event
  handle_events s [] = some (s, [])
  handle_events s (e ∷ events) = handle_event s e >>= λ (s', effect).
      handle_events s' events >>= λ (s'', effects). some (s'', effect ∷ effects)
