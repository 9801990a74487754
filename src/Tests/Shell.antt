-- ===== src/Tests/Shell.antt =====
-- Tests of the server of the remote shell (simple_remote_shell_serv.c), and its theorems at work.
use network_camp.Prelude.{false, ℕ, Option, some, none, List, [], ◌∷◌, ◌≡◌, refl, arith, same_word}
use network_camp.Shell.{
  File, Client, regular, folder, Dirent, Server, add_file, add_entry, scan_entry, scan_entries,
  create_array, update_directory, find_client, get_struct, put_client, connect, disconnect,
}
use network_camp.Shell.Requests.{move_dir}
use network_camp.Shell.Handler.{Effect, handle_request}
use network_camp.Shell.Loop.Welcome.{start_server-get_struct}
use network_camp.Shell.Loop.{Event, connection, request, start_server, handle_event, handle_events}
use network_camp.Shell.Arrivals.{server, disconnect-get_struct}

-- Every file has 9 bytes, and every directory a file `a` and a directory `b`.
abbrev pub open_size : List ℕ → Option ℕ
open_size name = some 9

abbrev pub entries : List Dirent
entries =
    record { d_name = b'a' ∷ []; d_type = regular }
    ∷ record { d_name = b'b' ∷ []; d_type = folder }
    ∷ []

abbrev pub read_dir : List ℕ → Option (List Dirent)
read_dir directory = some entries

abbrev pub client : ℕ → Client
client sock = record { sockfd = sock; directory = b'/' ∷ []; files = [] }

abbrev pub two_clients : Server
two_clients = server (client 4 ∷ []) [] (client 5) (client 3)

disconnect-get_struct_example :
    (get_struct (disconnect two_clients 4) 4 ≡ get_struct two_clients 4)
    × (get_struct (disconnect two_clients 4) 5 ≡ none)
disconnect-get_struct_example =
    disconnect-get_struct (client 4 ∷ []) [] (client 5) (client 3) 4 ((λ e. ground arith), tt)
      (λ e. ground arith)

-- The server can open every file, with two bytes in it.
abbrev pub contents : List ℕ → Option (List ℕ)
contents name = some (1 ∷ 2 ∷ [])

abbrev pub file_a : File
file_a = record { file_name = b'a' ∷ []; file_size = 2; is_directory = false }

abbrev pub listed : Server
listed = server [] [] (record (client 4) { files = file_a ∷ [] }) (client 3)

-- The server begins, and client 5 comes between client 4 and client 7.
begun : (s : Server) × (start_server open_size read_dir (b'/' ∷ []) 3 ≡ some s)
unfolding start_server create_array scan_entries scan_entry
begun = unfold add_entry add_file same_word in (_, refl)

abbrev after : List Event
after = connection 7 ∷ request 4 2 (b'b' ∷ []) file_a [] ∷ []

came :
    (s' : Server) × (effects : List Effect) × (handle_events open_size read_dir contents
        (λ d. d)
        (λ j. 0)
        begun.0
        (connection 4 ∷ connection 5 ∷ after)
      ≡ some (s', effects))
unfolding begun handle_events handle_event handle_request connect move_dir get_struct find_client
    put_client update_directory create_array scan_entries scan_entry
came = unfold add_entry add_file same_word in (_, _, refl)

start_server-get_struct_example :
    get_struct came.0 5 ≡ some (record begun.0.default_directory { sockfd = 5 })
start_server-get_struct_example =
    start_server-get_struct open_size read_dir contents (λ d. d) (λ j. 0) (b'/' ∷ []) 3 5
      (connection 4 ∷ []) after begun.0 came.0 came.1 begun.1 ((λ e. ground arith), tt)
      (tt, ((λ e. ground arith), tt)) came.2
