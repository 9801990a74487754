-- ===== src/Download.antt =====
-- The file downloader: 숙제#1/Server Code/download_serv.c and 숙제#1/Client Code/download_clnt.c. What
-- `readdir` lists and what `fopen` opens is a parameter.
pub mod Session
pub mod Loop
use network_camp.Prelude.{
  ℕ, zero, suc, ◌+◌, ◌||◌, Option, none, some, Bool, List, [], ◌∷◌, ◌++◌, if◌then◌else◌, ltb, leb,
  length, get_elem?, same_word, ◌>>=◌,
}
use network_camp.Transfer.{Limits, Outcome, send_file}
use network_camp.Transfer.Int.{receive_file_int}

-- `FILE_COUNT`, `BUFSIZE` and the size of `file_name`, the same in both files.
abbrev pub file_count : ℕ
file_count = 4

abbrev pub buf_size : ℕ
buf_size = 4096

abbrev pub name_size : ℕ
name_size = 64

-- `file_t`
pub record Entry : Type 0 where
  pub file_name : List ℕ
  pub file_size : ℕ

-- What `readdir` lists: a name, and whether it is that of a regular file.
pub record Listed : Type 0 where
  pub d_name : List ℕ
  pub is_regular : Bool

module _ (contents : List ℕ → Option (List ℕ)) where
  -- A round of the loop of `CreateArrayFromDirectory`. `none` where the file cannot be opened, or where
  -- `file_t_array` or `file_name` is left.
  unfoldable pub add_listed : List Entry → Listed → Option (List Entry)
  add_listed files d =
      let added = contents d.d_name >>= λ bytes.
      if ltb (length files) file_count
      then (if ltb (length d.d_name) name_size
          then some (files ++ record { file_name = d.d_name; file_size = length bytes } ∷ [])
          else none)
      else none in
      if same_word d.d_name (b'.' ∷ []) || same_word d.d_name (b'.' ∷ b'.' ∷ [])
      then some files
      else if d.is_regular
      then added
      else some files

  unfoldable pub create_array : List Entry → List Listed → Option (List Entry)
  unfolding add_listed
  create_array files [] = some files
  create_array files (d ∷ ds) = add_listed files d >>= λ files'. create_array files' ds

  -- A round of the server's `while` loop for a request: what is sent. `none` for an index outside the
  -- array, or a file that cannot be opened.
  unfoldable pub answer : List Entry → ℕ → Option (List (List ℕ))
  answer files request_index = get_elem? files request_index >>= λ f.
      contents f.file_name >>= λ bytes. send_file buf_size (length bytes + 1) bytes

-- The loop of `Receive_Files` of the client with `index` structures read: the array, and what is left.
-- `none` for a write behind the array.
unfoldable pub receive_entries : ℕ → ℕ → List Entry → Option (List Entry × List Entry)
receive_entries count index [] = some ([], [])
receive_entries count index (f ∷ stream) =
    let later = receive_entries count (index + 1) stream >>= λ (fs, rest). some (f ∷ fs, rest) in
    if ltb index file_count
    then (if leb count (index + 1) then some (f ∷ [], stream) else later)
    else none

-- What the user chooses: -1, or an index.
pub data Choice : Type 0 where
  leave : Choice
  choose : ℕ → Choice

-- A round of the client's `while` loop: the index that is sent, the name of the file that is written, and
-- how its loop ends.
pub data Round : Type 0 where
  over : Round
  got : (index : ℕ) → (name : List ℕ) → Outcome → Round

-- `stream` is what the server sends for the index. `none` for an index outside the array.
unfoldable pub client_round : Limits → List Entry → Choice → List ℕ → Option Round
client_round limits files leave stream = some over
client_round limits files (choose index) stream = get_elem? files index >>= λ f. some (
    got index f.file_name
      (receive_file_int buf_size limits (length stream + 1) 0 f.file_size 0 [] stream))
