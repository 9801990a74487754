-- ===== src/ShellClient/Rounds/Completes.antt =====
-- The turns of the remote shell that transfer a file (simple_remote_shell_clnt.c,
-- simple_remote_shell_serv.c) come to their end.
use mathlib.Core.Option.{some-injective}
use network_camp.Prelude.{
  ℕ, ◌<◌, true, false, some, List, [], ◌∷◌, ◌++◌, ◌≡◌, refl, ap, sym, ◌∙◌, arith, ltb, length, take,
  append-nil, length-take, same_word, All,
}
use network_camp.Transfer.{Limits}
use network_camp.Shell.{File, Client, Dirent, Server, file_count, name_size, get_struct}
use network_camp.Shell.Requests.{find_file}
use network_camp.Shell.Listing.{IsShort, listing}
use network_camp.Shell.Loop.{Event, handle_events}
use network_camp.Shell.Handler.{lists}
use network_camp.ShellClient.{
  is_blank, Action, quits, refreshes, refused, downloads, uploads, moves, do_command,
  do_client_request, receive_files,
}
use network_camp.ShellClient.Parsing.{
  IsSolid, do_client_request-downloads, command, scan_command-command,
}
use network_camp.ShellClient.Session.{request_directory, download_session, upload_session}
use network_camp.ShellClient.Rounds.{
  Disk, Turn, Deed, downloaded, uploaded, Round, no_file, asks, serves_others, finished, stored,
  received_table, do_action, whole_round, shell_round,
}

-- A command to upload is sent whatever the listing is.
do_client_request-uploads :
    (files : List File) (c : ℕ) (name : List ℕ)
    → IsSolid (c ∷ name)
    → length (c ∷ name) < name_size
    → do_client_request files (command b'u' (c ∷ name))
      ≡ some (uploads (record { option = 1; request_text = c ∷ name }))
unfolding do_client_request do_command same_word is_blank
do_client_request-uploads files c name a short =
    let fits : ltb (length (c ∷ name)) name_size ≡ true = ground arith in
    rw (scan_command-command b'u' c name refl a, fits) refl

abbrev request_text : Action → List ℕ
request_text quits = []
request_text refreshes = []
request_text refused = []
request_text (downloads request i) = request.request_text
request_text (uploads request) = request.request_text
request_text (moves request) = request.request_text

received_table_lem :
    (count : ℕ) (files : List File)
    → 0 < length files
    → receive_files count 0 (files ++ []) ≡ some (files, [])
    → received_table (lists count files) ≡ some files
unfolding received_table
received_table_lem count [] pos e = absurd (omega arith)
received_table_lem count (f ∷ files) pos e =
    let alone : receive_files count 0 (f ∷ files) ≡ some (f ∷ files, []) =
      ap (receive_files count 0) (sym (append-nil (f ∷ files))) ∙ e in
    rw alone refl

module _ (dirname : List ℕ → List ℕ) (limits : Limits) (sock : ℕ) (s : Server) (cl : Client)
    (t : Turn) (ds : List Dirent) where
  -- The table that the client shows first.
  abbrev pub listed : List File
  listed = take file_count (listing t.at_show.open_size ds)

  -- The server knows the client, its directory can be read and is not empty, the names fit, each `read` of a
  -- structure returns all of it, and nothing is done for others.
  abbrev pub IsListed : Type 0
  IsListed =
      (get_struct s sock ≡ some cl)
      × (length cl.directory < name_size)
      × (t.at_show.read_dir cl.directory ≡ some ds)
      × All IsShort (listing t.at_show.open_size ds)
      × (0 < length (listing t.at_show.open_size ds))
      × (t.short_read ≡ false)
      × (t.before ≡ [])
      × (t.between ≡ [])

  serves_none :
      (disk : Disk) (u : Server) (events : List Event)
      → events ≡ []
      → serves_others dirname limits sock disk u events ≡ some (u, [])
  unfolding handle_events
  serves_none disk u events e = ap (serves_others dirname limits sock disk u) e

  shell_round-action :
      (deed : Deed)
      → IsListed
      → ((s1 : Server)
          → get_struct s1 sock ≡ some (record cl { files = listed })
          → (action : Action) × (s2 : Server) × (do_client_request listed t.msg ≡ some action)
            × (do_action dirname limits sock t s1 listed action ≡ some (s2, deed)))
      → (r : Round) × (shell_round dirname limits sock s t ≡ some r)
        × (r.table ≡ listed)
        × (r.deed ≡ deed)
  unfolding shell_round whole_round
  shell_round-action deed (g, short, r, a, pos, whole, before, between) acts =
      let (s1, count, files, shown, all, q, kept) =
        request_directory t.at_show.open_size t.at_show.read_dir t.at_show.contents dirname limits s
          sock cl ds [] [] no_file [] g short r a pos in
      let show : asks dirname limits sock t.at_show s 3 [] no_file []
          ≡ some (s1, lists count listed) =
        shown ∙ ap (λ l. some (s1, lists count l)) q in
      let received =
        received_table_lem count listed
          (omega (arith, length-take file_count (listing t.at_show.open_size ds)))
          (sym (ap (λ l. receive_files count 0 (l ++ [])) q) ∙ all ∙ ap (λ l. some (l, [])) q) in
      let (action, s2, m, acted) = acts s1 (kept ∙ ap (λ l. some (record cl { files = l })) q) in
      (
        record { turn = t; shown = s1; table = listed; deed = deed; after = s2 },
        rw
            (
              whole,
              serves_none t.at_show s t.before before,
              show,
              received,
              m,
              serves_none t.at_command s1 t.between between,
              acted,
            )
            refl,
        refl,
        refl,
      )

  -- When the server does nothing for others in the turn and knows the client, whose directory can
  -- be read, shows at least one entry and has names that fit, each `read` of a structure returns
  -- all of it, and the user types the command `d` for a file of the table with a name without
  -- blanks that fits, which is not empty and has at the server the size that the table says, then
  -- the turn goes through, however the network cuts the bytes of the file: the client has shown the
  -- first `FILE_COUNT` shown entries and has written the bytes of the file.
  pub shell_round-downloads :
      (c : ℕ) (name bytes : List ℕ) (f : File)
      → IsListed
      → t.msg ≡ command b'd' (c ∷ name)
      → IsSolid (c ∷ name)
      → length (c ∷ name) < name_size
      → find_file listed (c ∷ name) ≡ some f
      → f.is_directory ≡ false
      → t.at_command.contents f.file_name ≡ some bytes
      → f.file_size ≡ length bytes
      → 0 < length bytes
      → (r : Round) × (shell_round dirname limits sock s t ≡ some r)
        × (r.table ≡ listed)
        × (r.deed ≡ downloaded (c ∷ name) bytes)
  unfolding do_action finished
  shell_round-downloads c name bytes f h m solid short found plain k size pos =
      let (i, asked, at) = do_client_request-downloads listed c name f solid short found plain in
      shell_round-action (downloaded (c ∷ name) bytes) h (λ s1 known.
        let (request, j, buffers, reads, asks_for, sends_them, got) =
          download_session t.at_command.open_size t.at_command.read_dir t.at_command.contents
            dirname limits s1 sock (record cl { files = listed }) c name bytes [] f no_file solid
            short known found plain k size pos in
        let named : request.request_text ≡ c ∷ name =
          ap request_text (some-injective _ _ (sym asks_for ∙ asked)) in
        (
          downloads request j,
          s1,
          ap (do_client_request listed) m ∙ asks_for,
          rw (sends_them, got) (ap (λ n. some (s1, downloaded n bytes)) named),
        ))

  -- When the server does nothing for others in the turn and knows the client, whose directory can
  -- be read, shows at least one entry and has names that fit, each `read` of a structure returns
  -- all of it, and the user types the command `u` for a file of the client with a name without
  -- blanks that fits, which is not empty, then the turn goes through, however the network cuts the
  -- bytes of the file: the client has shown the first `FILE_COUNT` shown entries, and the server
  -- has written the bytes of the file below the directory of the client.
  pub shell_round-uploads :
      (c : ℕ) (name bytes : List ℕ)
      → IsListed
      → t.msg ≡ command b'u' (c ∷ name)
      → IsSolid (c ∷ name)
      → length (c ∷ name) < name_size
      → t.local (c ∷ name) ≡ some bytes
      → 0 < length bytes
      → (r : Round) × (shell_round dirname limits sock s t ≡ some r)
        × (r.table ≡ listed)
        × (r.deed ≡ uploaded (c ∷ name) (cl.directory ++ b'/' ∷ c ∷ name) bytes)
  unfolding do_action finished stored
  shell_round-uploads c name bytes h m solid short l pos =
      shell_round-action (uploaded (c ∷ name) (cl.directory ++ b'/' ∷ c ∷ name) bytes) h
        (λ s1 known.
          let (file, buffers, bars, reads, sent_file, fits, wrote) =
            upload_session t.at_command.open_size t.at_command.read_dir t.at_command.contents
              dirname limits s1 sock (record cl { files = listed }) (c ∷ name) bytes known pos in
          (
            uploads (record { option = 1; request_text = c ∷ name }),
            s1,
            ap (do_client_request listed) m ∙ do_client_request-uploads listed c name solid short,
            rw (l, sent_file, wrote) refl,
          ))
