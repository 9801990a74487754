-- ===== src/Shell/Requests.antt =====
-- The requests `MOVEDIR` and `SHOW` of a client, and the search for the file of a `DOWNLOAD`
-- (simple_remote_shell_serv.c).
use network_camp.Prelude.{
  ℕ, Option, none, some, List, [], ◌∷◌, ◌++◌, if◌then◌else◌, ltb, length, ◌>>=◌, same_word,
}
use network_camp.Shell.{
  File, Client, Dirent, Server, update_directory, get_struct, put_client, send_directory,
}

-- `strcmp` over a list of files: the first one with that name.
unfoldable pub find_file : List File → List ℕ → Option File
find_file [] name = none
find_file (f ∷ files) name =
    let later = find_file files name in if same_word f.file_name name then some f else later

-- `SearchFile`; `none` where the client is not found, `some none` where the file is not.
unfoldable pub search_file : Server → ℕ → List ℕ → Option (Option File)
unfolding find_file
search_file s sock text = get_struct s sock >>= λ c. some (find_file c.files text)

module _ (open_size : List ℕ → Option ℕ) (read_dir : List ℕ → Option (List Dirent)) where
  -- A change of the client's structure in its place.
  abbrev pub update_client : Server → ℕ → Client → List ℕ → Option Server
  update_client s sock c new_dir = update_directory open_size read_dir c new_dir >>= λ c'.
      some (record s { clients = put_client s.client_cnt s.clients sock c' })

  -- `MoveDir`. The test for a `/` at the end looks at the last byte of the array `new_dir`, behind the
  -- string, so that it changes nothing. `none` where the server ends.
  module _ (dirname : List ℕ → List ℕ) where
    unfoldable pub move_dir : Server → ℕ → List ℕ → Option Server
    move_dir s sock text = get_struct s sock >>= λ c.
        let up =
          let parent = dirname c.directory in
          if same_word c.directory (b'.' ∷ b'/' ∷ [])
          then some s
          else if ltb 0 (length parent)
          then update_client s sock c (parent ++ b'/' ∷ [])
          else some s in
        let down = update_client s sock c (c.directory ++ text ++ b'/' ∷ []) in
        if same_word text (b'.' ∷ b'.' ∷ []) then up else down

  -- `ShowDir`: the server, and what is written.
  unfoldable pub show_dir : Server → ℕ → Option (Server × (ℕ × List File))
  show_dir s sock = get_struct s sock >>= λ c.
      update_directory open_size read_dir c c.directory >>= λ c'.
      some (record s { clients = put_client s.client_cnt s.clients sock c' }, send_directory c')
