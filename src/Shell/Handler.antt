-- ===== src/Shell/Handler.antt =====
-- `HandleClientRequest` with `SendFile` and `GetFile` (simple_remote_shell_serv.c).
pub mod Files
use network_camp.Prelude.{
  ℕ, ◌+◌, Option, none, some, List, [], ◌∷◌, ◌++◌, if◌then◌else◌, ◌==◌, length, ◌>>=◌,
}
use network_camp.Transfer.{Limits, Outcome, send_file, receive_file}
use network_camp.Shell.{File, Dirent, Server, get_struct}
use network_camp.Shell.Requests.{search_file, move_dir, show_dir}

-- `BUFSIZE`
abbrev pub buf_size : ℕ
buf_size = 4096

-- What a request does besides: the buffers that are sent, the file that is written and how its loop
-- ends, or the listing that is sent.
pub data Effect : Type 0 where
  nothing : Effect
  sends : List (List ℕ) → Effect
  writes : (path : List ℕ) → Outcome → Effect
  lists : (count : ℕ) → List File → Effect

-- `SendFile`. `fopen` is called with the name alone; `contents` is what the server can open so. `none`
-- where the client is not known or the file cannot be opened.
unfoldable pub answer_download : (List ℕ → Option (List ℕ)) → Server → ℕ → List ℕ → Option Effect
answer_download contents s sock text = search_file s sock text >>= λ found. elim found [
  | none ↦ some nothing
  | some f ↦ contents f.file_name >>= λ bytes.
      send_file buf_size (length bytes + 1) bytes >>= λ buffers. some (sends buffers)
]

-- `GetFile`: `uploaded` is the `file_t` that the client sends first, `stream` what follows it.
unfoldable pub answer_upload : Limits → Server → ℕ → File → List ℕ → Option Effect
answer_upload limits s sock uploaded stream = get_struct s sock >>= λ c. some (
    writes (c.directory ++ b'/' ∷ uploaded.file_name)
      (receive_file buf_size limits (length stream + 1) 0 uploaded.file_size [] stream))

module _ (open_size : List ℕ → Option ℕ) (read_dir : List ℕ → Option (List Dirent))
    (contents : List ℕ → Option (List ℕ)) (dirname : List ℕ → List ℕ) where
  -- `HandleClientRequest`, for the options `DOWNLOAD`, `UPLOAD`, `MOVEDIR` and `SHOW`.
  unfoldable pub handle_request :
      Limits → Server → ℕ → ℕ → List ℕ → File → List ℕ → Option (Server × Effect)
  handle_request limits s sock option text uploaded stream =
      let download = answer_download contents s sock text >>= λ e. some (s, e) in
      let upload = answer_upload limits s sock uploaded stream >>= λ e. some (s, e) in
      let move = move_dir open_size read_dir dirname s sock text >>= λ s'. some (s', nothing) in
      let show =
        show_dir open_size read_dir s sock >>= λ (s', (n, files)). some (s', lists n files) in
      if option == 0
      then download
      else if option == 1
      then upload
      else if option == 2
      then move
      else if option == 3
      then show
      else some (s, nothing)
