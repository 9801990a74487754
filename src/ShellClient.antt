-- ===== src/ShellClient.antt =====
-- The client of the remote shell: 숙제#3/Client Code/simple_remote_shell_clnt.c.
pub mod Parsing
pub mod Upload
pub mod Session
pub mod Rounds
use network_camp.Prelude.{
  ℕ, zero, suc, ◌+◌, ◌-◌, ◌*◌, ◌/◌, ◌||◌, ◌&&◌, not, Option, none, some, Bool, true, false, List,
  [], ◌∷◌, ◌++◌, if◌then◌else◌, ◌==◌, ltb, leb, length, take, drop, get_elem?, same_word, ◌>>=◌,
}
use network_camp.Transfer.{Limits, Outcome, blocked, receive_file}
use network_camp.Progress.{Bar, bar}
use network_camp.Shell.{File, file_count, name_size}
use network_camp.Shell.Handler.{buf_size}

-- `request_t`
pub record Request : Type 0 where
  pub option : ℕ
  pub request_text : List ℕ

-- What `isspace` says in the C locale.
unfoldable pub is_blank : ℕ → Bool
is_blank c = c == b' ' || leb 9 c && leb c 13

-- `sscanf`: blanks are skipped, and `%s` takes what is not blank.
unfoldable pub skip_blanks : List ℕ → List ℕ
unfolding is_blank
skip_blanks [] = []
skip_blanks (c ∷ line) = let rest = skip_blanks line in if is_blank c then rest else c ∷ line

unfoldable pub scan_word : List ℕ → List ℕ
unfolding is_blank
scan_word [] = []
scan_word (c ∷ line) = let rest = scan_word line in if is_blank c then [] else c ∷ rest

-- `sscanf(msg, " %c %s", &option, file_name)`, where both are converted.
abbrev scan_name : ℕ → List ℕ → Option (ℕ × List ℕ)
scan_name option [] = none
scan_name option (c ∷ name) = some (option, c ∷ name)

abbrev scan_option : List ℕ → Option (ℕ × List ℕ)
scan_option [] = none
scan_option (option ∷ line) = scan_name option (scan_word (skip_blanks line))

unfoldable pub scan_command : List ℕ → Option (ℕ × List ℕ)
unfolding skip_blanks scan_word
scan_command msg = scan_option (skip_blanks msg)

-- `Find_File_Index` and `Find_Dir_Index`, from index `i` on; `none` for -1.
unfoldable pub find_file_index : ℕ → List File → List ℕ → Option ℕ
find_file_index i [] name = none
find_file_index i (f ∷ files) name =
    let later = find_file_index (i + 1) files name in
    if same_word f.file_name name && not f.is_directory then some i else later

unfoldable pub find_dir_index : ℕ → List File → List ℕ → Option ℕ
find_dir_index i [] name = none
find_dir_index i (f ∷ files) name =
    let later = find_dir_index (i + 1) files name in
    if same_word f.file_name name && f.is_directory then some i else later

-- What a command comes to: the end of the program, a message only, or a request that is sent, with what
-- is done then.
pub data Action : Type 0 where
  quits refreshes refused : Action
  downloads : Request → (file_index : ℕ) → Action
  uploads : Request → Action
  moves : Request → Action

-- The `switch` of `Do_Client_Request`.
unfoldable pub do_command : List File → ℕ → List ℕ → Action
do_command files option name =
    let request : ℕ → Request = λ n. record { option = n; request_text = name } in
    if option == b'd'
    then (elim (find_file_index 0 files name) [ none ↦ refused | some i ↦ downloads (request 0) i ])
    else if option == b'u'
    then uploads (request 1)
    else if option == b'm'
    then (elim (find_dir_index 0 files name) [ none ↦ refused | some i ↦ moves (request 2) ])
    else refused

-- `Do_Client_Request` for a line; `none` for a name that is too long for `file_name`.
unfoldable pub do_client_request : List File → List ℕ → Option Action
do_client_request files msg =
    if same_word msg (b'q' ∷ b'\n' ∷ [])
    then some quits
    else if same_word msg (b'r' ∷ b'\n' ∷ [])
    then some refreshes
    else elim (scan_command msg) [
      | none ↦ some refused
      | some (option, name) ↦
          if ltb (length name) name_size then some (do_command files option name) else none
    ]

-- The loop of `Receive_Files` with `index` structures read, each as a whole: the array, and what is
-- left. `none` for a write behind the array. A turn of `Rounds` has the reads that are not whole.
unfoldable pub receive_files : ℕ → ℕ → List File → Option (List File × List File)
receive_files count index [] = some ([], [])
receive_files count index (f ∷ stream) =
    let later = receive_files count (index + 1) stream >>= λ (fs, rest). some (f ∷ fs, rest) in
    if ltb index file_count
    then (if leb count (index + 1) then some (f ∷ [], stream) else later)
    else none

-- The loop of `Upload_File` on fuel: the buffers that are sent and the bars that are shown. `none` where
-- the program ends by a division by 0, or where the fuel ran out.
unfoldable pub upload_loop : ℕ → ℕ → ℕ → List ℕ → Option (List (List ℕ) × List Bar)
unfolding bar
upload_loop zero file_size file_len unread = none
upload_loop (suc fuel) file_size file_len unread =
    let buffer = take buf_size unread in
    let read = file_len + length buffer in
    let later = upload_loop fuel file_size read (drop buf_size unread) in
    bar read file_size >>= λ b.
    let more = later >>= λ (buffers, bars).
    some (if ltb 0 (length buffer) then buffer ∷ buffers else buffers, b ∷ bars) in
    if ltb (length buffer) buf_size
    then some (if ltb 0 (length buffer) then buffer ∷ [] else [], b ∷ [])
    else more

-- `Upload_File` for the contents that `fopen` finds: the `file_t` that is sent first, the buffers and the
-- bars.
unfoldable pub upload_file : List ℕ → List ℕ → Option (File × (List (List ℕ) × List Bar))
unfolding upload_loop
upload_file name contents = upload_loop (length contents + 1) (length contents) 0 contents >>= λ r.
    some (record { file_name = name; file_size = length contents; is_directory = false }, r)

-- `Download_File`: `none` where a byte comes for a file of size 0, and the program ends by the division
-- for the bar.
unfoldable pub download_file : Limits → List File → ℕ → List ℕ → Option Outcome
download_file limits files file_index stream = get_elem? files file_index >>= λ f.
    if f.file_size == 0 && ltb 0 (length stream)
    then none
    else some (receive_file buf_size limits (length stream + 1) 0 f.file_size [] stream)
