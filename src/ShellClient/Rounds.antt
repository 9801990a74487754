-- ===== src/ShellClient/Rounds.antt =====
-- The loop of `main` in simple_remote_shell_clnt.c, with the server (simple_remote_shell_serv.c) that
-- answers each request before the client goes on.
pub mod Answers
pub mod Handled
pub mod Options
pub mod Sound
pub mod Completes
use network_camp.Prelude.{
  ℕ, Bool, true, false, Option, none, some, List, [], ◌∷◌, ◌>>=◌, if◌then◌else◌,
}
use network_camp.Transfer.{Limits, Outcome, done, blocked, out_of_fuel}
use network_camp.Transfer.Complete.{flat}
use network_camp.Shell.{File, Dirent, Server}
use network_camp.Shell.Loop.{Event, handle_events}
use network_camp.Shell.Handler.{Effect, nothing, sends, writes, lists, handle_request}
use network_camp.ShellClient.{
  Action, quits, refreshes, refused, downloads, uploads, moves, do_client_request, receive_files,
  download_file, upload_file,
}

-- What the server finds on its disk.
pub record Disk : Type 0 where
  pub open_size : List ℕ → Option ℕ
  pub read_dir : List ℕ → Option (List Dirent)
  pub contents : List ℕ → Option (List ℕ)

-- What a turn of the loop finds: the line that is typed, the contents of the files of the client, what the
-- server handles for others before `SHOW` and between that and the command, whether a `read` of a
-- structure, that is of a request, of the count or of a `file_t`, returns only a part of it, and the disk
-- of the server up to `SHOW` and behind it.
pub record Turn : Type 0 where
  pub msg : List ℕ
  pub local : List ℕ → Option (List ℕ)
  pub before : List Event
  pub between : List Event
  pub short_read : Bool
  pub at_show : Disk
  pub at_command : Disk

-- What a command has done.
pub data Deed : Type 0 where
  left nothing_sent moved : Deed
  downloaded : (name written : List ℕ) → Deed
  uploaded : (name path written : List ℕ) → Deed

-- `exit` after `q`.
abbrev pub goes_on : Deed → Bool
goes_on left = false
goes_on nothing_sent = true
goes_on moved = true
goes_on (downloaded name written) = true
goes_on (uploaded name path written) = true

-- What there is after a turn: the server after `SHOW`, the table of the client then, what was done, and
-- the server at the end.
pub record Round : Type 0 where
  pub turn : Turn
  pub shown : Server
  pub table : List File
  pub deed : Deed
  pub after : Server

-- `SHOW` goes with an empty text, and only an upload has a `file_t` and bytes behind it.
abbrev pub no_file : File
no_file = record { file_name = []; file_size = 0; is_directory = false }

-- What `write` and `send` leave in the connection for `Download_File`.
abbrev pub sent : Effect → List ℕ
sent nothing = []
sent (sends buffers) = flat buffers
sent (writes path outcome) = []
sent (lists count files) = []

-- A loop that has ended with nothing left in the connection. `none` where it waits for ever, or where
-- the next request or answer does not start at its first byte.
unfoldable pub finished : Outcome → Option (List ℕ)
finished (done written [] reads) = some written
finished (done written (x ∷ rest) reads) = none
finished (blocked written) = none
finished out_of_fuel = none

-- `Receive_Files` for what the server sends: the table. `none` where the client waits for a first
-- structure.
unfoldable pub received_table : Effect → Option (List File)
received_table nothing = none
received_table (sends buffers) = none
received_table (writes path outcome) = none
received_table (lists count []) = none
received_table (lists count (f ∷ files)) =
    receive_files count 0 (f ∷ files) >>= λ (table, rest). some table

unfoldable pub stored : List ℕ → Effect → Option Deed
unfolding finished
stored name nothing = none
stored name (sends buffers) = none
stored name (lists count files) = none
stored name (writes path outcome) = finished outcome >>= λ bytes. some (uploaded name path bytes)

module _ (dirname : List ℕ → List ℕ) (limits : Limits) (sock : ℕ) where
  -- `HandleClientRequest` for a request of this client.
  abbrev pub asks :
      Disk → Server → (option : ℕ) → (text : List ℕ) → File → List ℕ → Option (Server × Effect)
  asks disk s option text file stream =
      handle_request disk.open_size disk.read_dir disk.contents dirname limits s sock option text
        file stream

  -- The command of a turn. `none` where a program ends or waits, and for an upload of a file that the
  -- client cannot open: the server waits for it.
  unfoldable pub do_action : Turn → Server → List File → Action → Option (Server × Deed)
  unfolding finished stored
  do_action t s table quits = some (s, left)
  do_action t s table refreshes = some (s, nothing_sent)
  do_action t s table refused = some (s, nothing_sent)
  do_action t s table (downloads request i) =
      asks t.at_command s request.option request.request_text no_file [] >>= λ (s', effect).
      download_file limits table i (sent effect) >>= λ outcome.
      finished outcome >>= λ bytes. some (s', downloaded request.request_text bytes)
  do_action t s table (uploads request) = t.local request.request_text >>= λ bytes.
      upload_file request.request_text bytes >>= λ (file, (buffers, bars)).
      asks t.at_command s request.option request.request_text file (flat buffers)
      >>= λ (s', effect). stored request.request_text effect >>= λ deed. some (s', deed)
  do_action t s table (moves request) =
      asks t.at_command s request.option request.request_text no_file [] >>= λ (s', effect).
      some (s', moved)

  -- What the server does for others.
  abbrev pub serves_others : Disk → Server → List Event → Option (Server × List Effect)
  serves_others disk s events =
      handle_events disk.open_size disk.read_dir disk.contents dirname limits s events

  -- `Request_Directory`, then `Do_Client_Request`.
  unfoldable pub whole_round : Server → Turn → Option Round
  unfolding received_table do_action
  whole_round s t = serves_others t.at_show s t.before >>= λ (s0, others).
      asks t.at_show s0 3 [] no_file [] >>= λ (s1, listing). received_table listing >>= λ table.
      do_client_request table t.msg >>= λ action.
      serves_others t.at_command s1 t.between >>= λ (s2, more).
      do_action t s2 table action >>= λ (s3, deed).
      some (record { turn = t; shown = s1; table = table; deed = deed; after = s3 })

  -- `none` where a structure is read in part: the rest of it is then taken for what follows.
  unfoldable pub shell_round : Server → Turn → Option Round
  unfolding whole_round
  shell_round s t = let whole = whole_round s t in if t.short_read then none else whole

  -- The turns up to the one that quits, and the server then.
  unfoldable pub shell_rounds : Server → List Turn → Option (Server × List Round)
  unfolding shell_round
  shell_rounds s [] = some (s, [])
  shell_rounds s (t ∷ turns) = shell_round s t >>= λ r.
      let later = shell_rounds r.after turns >>= λ (s', rounds). some (s', r ∷ rounds) in
      if goes_on r.deed then later else some (r.after, r ∷ [])
