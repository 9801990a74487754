-- ===== src/Shell.antt =====
-- The server of the remote shell: 숙제#3/Server Code/simple_remote_shell_serv.c. The file system is a
-- parameter: what `readdir` lists, the size of a file that `fopen` opens, and `dirname`.
pub mod Requests
pub mod Listing
pub mod Sessions
pub mod Arrivals
pub mod Handler
pub mod Loop
use network_camp.Prelude.{
  ℕ, zero, suc, ◌+◌, ◌-◌, Bool, true, false, Option, none, some, List, [], ◌∷◌, ◌++◌, if◌then◌else◌,
  ◌==◌, ltb, length, take, drop, ◌>>=◌, same_word,
}

-- `FILE_COUNT`, `FILE_NAME` and `EPOLL_SIZE`.
abbrev pub file_count : ℕ
file_count = 64

abbrev pub name_size : ℕ
name_size = 64

abbrev pub epoll_size : ℕ
epoll_size = 50

-- `file_t` and `client_t`; `file_t_array` up to `entry_count`.
pub record File : Type 0 where
  pub file_name : List ℕ
  pub file_size : ℕ
  pub is_directory : Bool

pub record Client : Type 0 where
  pub sockfd : ℕ
  pub directory : List ℕ
  pub files : List File

-- What `d_type` says of an entry of a directory.
pub data Kind : Type 0 where
  regular folder other : Kind

pub record Dirent : Type 0 where
  pub d_name : List ℕ
  pub d_type : Kind

-- The globals: `client_t_array` as far as it was written, `client_cnt` and `default_directory`.
pub record Server : Type 0 where
  pub clients : List Client
  pub client_cnt : ℕ
  pub default_directory : Client

-- One entry more, if there is room; `none` for a name that is too long for `file_name`.
unfoldable pub add_file : List File → File → Option (List File)
add_file files f =
    if ltb (length files) file_count
    then (if ltb (length f.file_name) name_size then some (files ++ f ∷ []) else none)
    else some files

-- The body of the loop of `CreateArrayFromDirectory` for a name: whether it is ".", what it names, and
-- the size of the file where `fopen` opens one.
unfoldable pub add_entry : List File → List ℕ → Bool → Kind → Option ℕ → Option (List File)
add_entry files name true k opened = some files
add_entry files name false regular none = some files
add_entry files name false regular (some size) =
    add_file files (record { file_name = name; file_size = size; is_directory = false })
add_entry files name false folder opened =
    add_file files (record { file_name = name; file_size = 0; is_directory = true })
add_entry files name false other opened = some files

module _ (open_size : List ℕ → Option ℕ) where
  -- `fopen` is called with the name alone, so that it looks in the working directory of the server.
  unfoldable pub scan_entry : List File → Dirent → Option (List File)
  unfolding add_entry add_file
  scan_entry files d =
      add_entry files d.d_name (same_word d.d_name (b'.' ∷ [])) d.d_type (open_size d.d_name)

  unfoldable pub scan_entries : List File → List Dirent → Option (List File)
  unfolding scan_entry
  scan_entries files [] = some files
  scan_entries files (d ∷ ds) = scan_entry files d >>= λ files'. scan_entries files' ds

  module _ (read_dir : List ℕ → Option (List Dirent)) where
    -- `CreateArrayFromDirectory`; `none` where the server ends by `error_handling` or leaves an array.
    unfoldable pub create_array : Client → Option Client
    unfolding scan_entries
    create_array c = read_dir c.directory >>= λ ds.
        scan_entries [] ds >>= λ files. some (record c { files = files })

    -- `UpdateDirectory`
    unfoldable pub update_directory : Client → List ℕ → Option Client
    unfolding create_array
    update_directory c new_dir =
        if ltb (length new_dir) name_size
        then create_array (record c { directory = new_dir })
        else none

-- The first client with a socket, among those that count: `GetStructWithSock`.
unfoldable pub find_client : ℕ → List Client → ℕ → Option Client
find_client zero cs sock = none
find_client (suc n) [] sock = none
find_client (suc n) (c ∷ cs) sock =
    let later = find_client n cs sock in if c.sockfd == sock then some c else later

unfoldable pub get_struct : Server → ℕ → Option Client
unfolding find_client
get_struct s sock = find_client s.client_cnt s.clients sock

-- A write through the pointer that `GetStructWithSock` returns.
unfoldable pub put_client : ℕ → List Client → ℕ → Client → List Client
put_client zero cs sock c' = cs
put_client (suc n) [] sock c' = []
put_client (suc n) (c ∷ cs) sock c' =
    let later = c ∷ put_client n cs sock c' in if c.sockfd == sock then c' ∷ cs else later

-- `CreateNewFromDefault`
abbrev pub create_new_from_default : Client → ℕ → Client
create_new_from_default default new_sockfd = record default { sockfd = new_sockfd }

-- What `Send_Directory` writes: the number of files, then the files.
abbrev pub send_directory : Client → ℕ × List File
send_directory c = (length c.files, c.files)

-- `HandleClientConnection`; `none` where `client_t_array` is full.
unfoldable pub connect : Server → ℕ → Option Server
connect s sock =
    if ltb s.client_cnt epoll_size
    then some (record s {
      clients =
          take s.client_cnt s.clients
          ++ create_new_from_default s.default_directory sock ∷ drop (s.client_cnt + 1) s.clients;
      client_cnt = s.client_cnt + 1;
    })
    else none

-- The branch of `main` for a client that has closed its connection. It was counted when it came, so
-- that `client_cnt` is not 0.
unfoldable pub disconnect : Server → ℕ → Server
disconnect s sock = record s { client_cnt = s.client_cnt - 1 }
