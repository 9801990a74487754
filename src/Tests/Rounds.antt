-- ===== src/Tests/Rounds.antt =====
-- The theorems on the client and the server of the remote shell together (simple_remote_shell_clnt.c,
-- simple_remote_shell_serv.c) at work.
use network_camp.Prelude.{ℕ, false, some, List, [], ◌∷◌, ◌≡◌, refl, arith, All, same_word}
use network_camp.Shell.{
  Server, get_struct, find_client, put_client, connect, update_directory, create_array,
  scan_entries, scan_entry, add_entry, add_file,
}
use network_camp.Shell.Requests.{find_file, show_dir}
use network_camp.Shell.Handler.{handle_request}
use network_camp.Shell.Loop.{connection, request, handle_event, handle_events}
use network_camp.Shell.Loop.Others.{IsOfOther}
use network_camp.ShellClient.Parsing.{command}
use network_camp.ShellClient.{is_blank, receive_files, do_client_request}
use network_camp.ShellClient.Rounds.{
  Disk, Turn, Round, downloaded, uploaded, no_file, received_table, do_action, whole_round,
  shell_round, shell_rounds,
}
use network_camp.ShellClient.Rounds.Sound.{IsSound, shell_rounds-IsSound, shell_rounds-get_struct}
use network_camp.ShellClient.Rounds.Completes.{
  listed, IsListed, shell_round-downloads, shell_round-uploads,
}
use network_camp.Tests.Shell.{read_dir, contents, entries, client, two_clients, file_a}

-- Every file has the two bytes that it has.
abbrev disk : Disk
disk = record { open_size = λ name. some 2; read_dir = read_dir; contents = contents }

abbrev turn : List ℕ → Turn
turn msg = record {
  msg = msg;
  local = λ name. some (7 ∷ 8 ∷ []);
  before = [];
  between = [];
  short_read = false;
  at_show = disk;
  at_command = disk;
}

abbrev gets_a : Turn
gets_a = turn (command b'd' (b'a' ∷ []))

abbrev puts_c : Turn
puts_c = turn (command b'u' (b'c' ∷ []))

abbrev dirname : List ℕ → List ℕ
dirname d = d

is_listed : (t : List ℕ) → IsListed dirname (λ j. 0) 4 two_clients (client 4) (turn t) entries
is_listed t = (
  unfold get_struct find_client in refl,
  omega arith,
  refl,
  unfold same_word in (omega arith, (omega arith, tt)),
  unfold same_word in omega arith,
  refl,
  refl,
  refl,
)

shell_round-downloads_example :
    (r : Round) × (shell_round dirname (λ j. 0) 4 two_clients gets_a ≡ some r)
    × (r.table ≡ listed dirname (λ j. 0) 4 two_clients (client 4) gets_a entries)
    × (r.deed ≡ downloaded (b'a' ∷ []) (1 ∷ 2 ∷ []))
shell_round-downloads_example =
    shell_round-downloads dirname (λ j. 0) 4 two_clients (client 4) gets_a entries b'a' []
      (1 ∷ 2 ∷ []) file_a (is_listed (command b'd' (b'a' ∷ []))) refl
      (unfold is_blank in (refl, tt)) (omega arith) (unfold find_file same_word in refl) refl refl
      refl (omega arith)

shell_round-uploads_example :
    (r : Round) × (shell_round dirname (λ j. 0) 4 two_clients puts_c ≡ some r)
    × (r.table ≡ listed dirname (λ j. 0) 4 two_clients (client 4) puts_c entries)
    × (r.deed ≡ uploaded (b'c' ∷ []) (b'/' ∷ b'/' ∷ b'c' ∷ []) (7 ∷ 8 ∷ []))
shell_round-uploads_example =
    shell_round-uploads dirname (λ j. 0) 4 two_clients (client 4) puts_c entries b'c' []
      (7 ∷ 8 ∷ []) (is_listed (command b'u' (b'c' ∷ []))) refl (unfold is_blank in (refl, tt))
      (omega arith) refl (omega arith)

-- Client 4 refreshes, while client 7 comes before and client 5 asks for its listing in between.
abbrev refreshes_r : Turn
refreshes_r = record (turn (b'r' ∷ b'\n' ∷ [])) {
  before = connection 7 ∷ [];
  between = request 5 3 [] no_file [] ∷ [];
}

busy :
    (s' : Server) × (rounds : List Round) × (shell_rounds dirname
        (λ j. 0)
        4
        two_clients
        (refreshes_r ∷ [])
      ≡ some (s', rounds))
unfolding shell_rounds shell_round whole_round received_table do_action handle_events handle_event
    handle_request show_dir update_directory create_array scan_entries scan_entry add_entry add_file
    get_struct find_client put_client receive_files do_client_request connect same_word
busy = (_, _, refl)

quiet : All (IsOfOther 4) (request 5 3 [] no_file [] ∷ [])
quiet = ((λ e. ground arith), tt)

shell_rounds-IsSound_example : All (IsSound dirname (λ j. 0) 4) busy.1
shell_rounds-IsSound_example =
    shell_rounds-IsSound dirname (λ j. 0) 4 two_clients busy.0 (refreshes_r ∷ []) busy.1 (quiet, tt)
      busy.2

-- Client 4 refreshes while others connect.
abbrev meets_others : Turn
meets_others = record refreshes_r { between = connection 8 ∷ [] }

calm :
    (s' : Server) × (rounds : List Round) × (shell_rounds dirname
        (λ j. 0)
        4
        two_clients
        (meets_others ∷ [])
      ≡ some (s', rounds))
unfolding shell_rounds shell_round whole_round received_table do_action handle_events handle_event
    handle_request show_dir update_directory create_array scan_entries scan_entry add_entry add_file
    get_struct find_client put_client receive_files do_client_request connect same_word
calm = (_, _, refl)

shell_rounds-get_struct_example : get_struct calm.0 5 ≡ some (client 5)
shell_rounds-get_struct_example =
    shell_rounds-get_struct dirname (λ j. 0) 4 two_clients calm.0 (meets_others ∷ []) calm.1 5
      (client 5) (λ e. ground arith) (unfold get_struct find_client in refl)
      (((tt, tt), (tt, tt), (tt, tt)), tt) calm.2
