-- ===== src/ShellClient/Session.antt =====
-- The client and the server of the remote shell (simple_remote_shell_clnt.c,
-- simple_remote_shell_serv.c).
use network_camp.Prelude.{
  ℕ, ◌+◌, ◌≤◌, ◌<◌, true, false, Option, some, List, [], ◌∷◌, ◌++◌, ◌≡◌, refl, ap, ◌∙◌, arith, ◌==◌,
  ltb, leb, length, length-take, take, All,
}
use network_camp.Transfer.{Limits, done, receive_file}
use network_camp.Transfer.Complete.{flat, receive_file_whole}
use network_camp.Shell.{File, Client, Dirent, Server, file_count, name_size, get_struct}
use network_camp.Shell.Requests.{find_file}
use network_camp.Shell.Listing.{IsShort, listing}
use network_camp.Shell.Sessions.{show_dir-listing}
use network_camp.Shell.Handler.{buf_size, sends, handle_request, lists, writes}
use network_camp.Shell.Handler.Files.{answer_download-contents, answer_upload-file}
use network_camp.ShellClient.{
  Request, downloads, do_client_request, receive_files, download_file, upload_file,
}
use network_camp.ShellClient.Parsing.{IsSolid, command, do_client_request-downloads}
use network_camp.Progress.{Bar, IsBar, full_bar}
use network_camp.ShellClient.Upload.{upload_file_lem}

receive_files_lem :
    (count index : ℕ) (f : File) (fs rest : List File)
    → index + length (f ∷ fs) ≡ count
    → count ≤ file_count
    → receive_files count index ((f ∷ fs) ++ rest) ≡ some (f ∷ fs, rest)
unfolding receive_files
receive_files_lem count index f [] rest e le =
    let fits : ltb index file_count ≡ true = ground arith in
    let last : leb count (index + 1) ≡ true = ground arith in rw (fits, last) refl
receive_files_lem count index f (g ∷ fs) rest e le =
    let fits : ltb index file_count ≡ true = ground arith in
    let more : leb count (index + 1) ≡ false = ground arith in
    rw (fits, more, receive_files_lem count (index + 1) g fs rest (omega arith) le) refl

receive_all_files :
    (fs rest : List File)
    → 0 < length fs
    → length fs ≤ file_count
    → receive_files (length fs) 0 (fs ++ rest) ≡ some (fs, rest)
receive_all_files [] rest pos le = absurd (omega arith)
receive_all_files (f ∷ fs) rest pos le =
    receive_files_lem (length (f ∷ fs)) 0 f fs rest (omega arith) le

module _ (open_size : List ℕ → Option ℕ) (read_dir : List ℕ → Option (List Dirent))
    (contents : List ℕ → Option (List ℕ)) (dirname : List ℕ → List ℕ) (limits : Limits) where
  -- When the server knows the client, whose directory can be read, and the directory and the shown
  -- names fit their arrays and there is one, then the table that the client reads is the one that
  -- the server sends and keeps for that client: the first `FILE_COUNT` shown entries; what follows
  -- is left in the connection.
  pub request_directory :
      (s : Server) (sock : ℕ) (c : Client) (ds : List Dirent) (text stream : List ℕ)
      (uploaded : File) (rest : List File)
      → get_struct s sock ≡ some c
      → length c.directory < name_size
      → read_dir c.directory ≡ some ds
      → All IsShort (listing open_size ds)
      → 0 < length (listing open_size ds)
      → (s' : Server) × (count : ℕ) × (files : List File) × (handle_request open_size read_dir
            contents dirname limits s sock 3 text uploaded stream
          ≡ some (s', lists count files))
        × (receive_files count 0 (files ++ rest) ≡ some (files, rest))
        × (files ≡ take file_count (listing open_size ds))
        × (get_struct s' sock ≡ some (record c { files = files }))
  unfolding handle_request
  request_directory s sock c ds text stream uploaded rest g short r a pos =
      let (s', shown, kept) = show_dir-listing open_size read_dir s sock c ds g short r a in
      let files = take file_count (listing open_size ds) in
      (
        s',
        length files,
        files,
        rw shown refl,
        receive_all_files files rest (omega (arith, length-take file_count (listing open_size ds)))
            (omega (arith, length-take file_count (listing open_size ds))),
        refl,
        kept,
      )

  -- When a file of the client's table, with a name without blanks that fits `file_name`, is not
  -- empty and has the size that its contents have at the server, then the command `d` with its name
  -- makes a request to which the server sends buffers, from which `Download_File` writes the bytes
  -- of the file, however the network cuts them, and leaves nothing.
  pub download_session :
      (s : Server) (sock : ℕ) (cl : Client) (c : ℕ) (name bytes stream : List ℕ) (f uploaded : File)
      → IsSolid (c ∷ name)
      → length (c ∷ name) < name_size
      → get_struct s sock ≡ some cl
      → find_file cl.files (c ∷ name) ≡ some f
      → f.is_directory ≡ false
      → contents f.file_name ≡ some bytes
      → f.file_size ≡ length bytes
      → 0 < length bytes
      → (request : Request) × (i : ℕ) × (buffers : List (List ℕ)) × (reads : ℕ) × (do_client_request
            cl.files
            (command b'd' (c ∷ name))
          ≡ some (downloads request i))
        × (handle_request open_size read_dir contents dirname limits s sock request.option
              request.request_text uploaded stream
            ≡ some (s, sends buffers))
        × (download_file limits cl.files i (flat buffers) ≡ some (done bytes [] reads))
  unfolding handle_request download_file
  download_session s sock cl c name bytes stream f uploaded solid short g found plain k size pos =
      let (i, asked, at) = do_client_request-downloads cl.files c name f solid short found plain in
      let (buffers, sent, q) =
        answer_download-contents contents s sock (c ∷ name) bytes cl f g found k in
      let (reads, whole) = receive_file_whole buf_size limits bytes (omega arith) pos in
      let nonzero : (f.file_size == 0) ≡ false = ground arith in
      (
        record { option = 0; request_text = c ∷ name },
        i,
        buffers,
        reads,
        asked,
        rw sent refl,
        rw (at, nonzero, q)
            (ap (λ n. some (receive_file buf_size limits (length bytes + 1) 0 n [] bytes)) size
              ∙ ap some whole),
      )

  -- When a known client uploads a file that is not empty, every bar that it shows has at most
  -- `MAX_PROGESS` places filled and at most 100 percent, the last one is full, and the server
  -- writes the bytes of the file below the directory of the client.
  pub upload_session :
      (s : Server) (sock : ℕ) (cl : Client) (name bytes : List ℕ)
      → get_struct s sock ≡ some cl
      → 0 < length bytes
      → (uploaded : File) × (buffers : List (List ℕ)) × (bars : List Bar) × (reads : ℕ)
        × (upload_file name bytes ≡ some (uploaded, (buffers, bars ++ full_bar ∷ [])))
        × All IsBar bars
        × (handle_request open_size read_dir contents dirname limits s sock 1 name uploaded
              (flat buffers)
            ≡ some (s, writes (cl.directory ++ b'/' ∷ name) (done bytes [] reads)))
  unfolding handle_request
  upload_session s sock cl name bytes g pos =
      let (buffers, bars, r, q, a) = upload_file_lem name bytes pos in
      let uploaded : File = record {
        file_name = name;
        file_size = length bytes;
        is_directory = false;
      } in
      let (reads, w) = answer_upload-file limits s sock cl uploaded bytes g refl pos in
      (uploaded, buffers, bars, reads, r, a, rw (q, w) refl)
