-- ===== src/ShellClient/Rounds/Answers.antt =====
-- What the answers of the server (simple_remote_shell_serv.c) are to the client.
use mathlib.Core.Option.{some-injective}
use network_camp.Prelude.{
  ℕ, zero, suc, ◌+◌, true, false, ◌&&◌, Option, none, some, List, [], ◌∷◌, ◌++◌, ◌≡◌, ◌⊎◌, ap, sym,
  ◌∙◌, subst, arith, ◌==◌, ltb, leb, min, length, take, drop, get_elem?, append_assoc, append-nil,
  take-append-drop, >>=-eq-some, same_word, same_word→eq, Bool-cases, inl, inr, ◌>>=◌,
}
use network_camp.Transfer.{Limits, Outcome, done, send_file, receive_file}
use network_camp.Transfer.Complete.{flat, send_file-total}
use network_camp.Shell.{file_count, File, Client, Dirent, Server, get_struct}
use network_camp.Shell.Requests.{find_file, search_file, show_dir}
use network_camp.Shell.Sessions.{show_dir-get_struct}
use network_camp.Shell.Handler.{
  buf_size, Effect, nothing, sends, writes, lists, answer_download, answer_upload,
}
use network_camp.ShellClient.{receive_files, download_file}
use network_camp.ShellClient.Rounds.{Deed, uploaded, sent, finished, received_table, stored}

-- All that is sent is read.
pub receive_files-all :
    (count index : ℕ) (f : File) (fs table rest : List File)
    → index + length (f ∷ fs) ≡ count
    → receive_files count index (f ∷ fs) ≡ some (table, rest)
    → table ≡ f ∷ fs
unfolding receive_files
receive_files-all count index f [] table rest h e = elim (Bool-cases (ltb index file_count)) [
  | inr full ↦ cc (rw full at e)
  | inl room ↦
      let last : leb count (index + 1) ≡ true = ground arith in
      sym (ap (λ (x : List File × List File). x.0) (some-injective _ _ (rw (room, last) at e)))
]
receive_files-all count index f (g ∷ fs) table rest h e =
    let go = receive_files-all count (index + 1) g fs in
    elim (Bool-cases (ltb index file_count)) [
      | inr full ↦ cc (rw full at e)
      | inl room ↦
          let more : leb count (index + 1) ≡ false = ground arith in
          let ((t, u), a, b) =
            >>=-eq-some (receive_files count (index + 1) (g ∷ fs)) _ (rw (room, more) at e) in
          sym (ap (λ (x : List File × List File). x.0) (some-injective _ _ b))
          ∙ ap (◌∷◌ f) (go t u (omega arith) a)
    ]

finished_done :
    (written rest bytes : List ℕ) (reads : ℕ)
    → finished (done written rest reads) ≡ some bytes
    → bytes ≡ written ++ rest
unfolding finished
finished_done written [] bytes reads e = sym (some-injective _ _ e) ∙ sym (append-nil written)
finished_done written (x ∷ rest) bytes reads e = cc

-- A loop that has finished has written all.
pub receive_file-finished :
    (b : ℕ) (limits : Limits) (fuel j size : ℕ) (written stream bytes : List ℕ)
    → finished (receive_file b limits fuel j size written stream) ≡ some bytes
    → bytes ≡ written ++ stream
unfolding receive_file finished
receive_file-finished b limits zero j size written stream bytes e = cc
receive_file-finished b limits (suc fuel) j size written [] bytes e = cc
receive_file-finished b limits (suc fuel) j size written (x ∷ stream) bytes e =
    let n = min b (limits j + 1) in
    let written' = written ++ take n (x ∷ stream) in
    let rest = drop n (x ∷ stream) in
    let whole =
      append_assoc written (take n (x ∷ stream)) rest
      ∙ ap (◌++◌ written) (take-append-drop n (x ∷ stream)) in
    elim (Bool-cases (leb size (length written'))) [
      | inl enough ↦ finished_done written' rest bytes (j + 1) (rw enough at e) ∙ whole
      | inr more ↦
          receive_file-finished b limits fuel (j + 1) size written' rest bytes (rw more at e)
          ∙ whole
    ]

pub find_file-name :
    (files : List File) (name : List ℕ) (f : File)
    → find_file files name ≡ some f
    → f.file_name ≡ name
unfolding find_file
find_file-name [] name f e = cc
find_file-name (g ∷ files) name f e = elim (Bool-cases (same_word g.file_name name)) [
  | inl hit ↦
      subst (λ (x : File). x.file_name ≡ name) (some-injective g f (rw hit at e))
        (same_word→eq g.file_name name hit)
  | inr miss ↦ find_file-name files name f (rw miss at e)
]

-- `Download_File` does not finish on nothing.
pub download_file-empty :
    (limits : Limits) (table : List File) (i : ℕ) (outcome : Outcome)
    → download_file limits table i [] ≡ some outcome
    → finished outcome ≡ none
unfolding download_file receive_file finished
download_file-empty limits table i outcome d =
    let (f, g, d1) = >>=-eq-some (get_elem? table i) _ d in
    elim (Bool-cases (f.file_size == 0)) [
      | inl empty ↦ ap finished (sym (some-injective _ _ (rw empty at d1)))
      | inr full ↦ ap finished (sym (some-injective _ _ (rw full at d1)))
    ]

-- `Download_File` that has finished has written what was sent.
pub download_file-finished :
    (limits : Limits) (table : List File) (i : ℕ) (stream bytes : List ℕ) (outcome : Outcome)
    → download_file limits table i stream ≡ some outcome
    → finished outcome ≡ some bytes
    → bytes ≡ stream
unfolding download_file
download_file-finished limits table i stream bytes outcome d e =
    let (f, g, d1) = >>=-eq-some (get_elem? table i) _ d in
    elim (Bool-cases (f.file_size == 0 && ltb 0 (length stream))) [
      | inl ends ↦ cc (rw ends at d1)
      | inr goes ↦
          receive_file-finished buf_size limits (length stream + 1) 0 f.file_size [] stream bytes
            (ap finished (some-injective _ _ (rw goes at d1)) ∙ e)
    ]

-- What an answer to `DOWNLOAD` puts in the connection: nothing, or what the server can open.
pub answer_download-sent :
    (contents : List ℕ → Option (List ℕ)) (s : Server) (sock : ℕ) (text : List ℕ) (effect : Effect)
    → answer_download contents s sock text ≡ some effect
    → (sent effect ≡ []) ⊎ (contents text ≡ some (sent effect))
unfolding answer_download search_file
answer_download-sent contents s sock text effect a =
    let (found, sf, a1) = >>=-eq-some (search_file s sock text) _ a in
    let (c, g, q) = >>=-eq-some (get_struct s sock) _ sf in
    go found c.files (some-injective _ _ q) a1
  where
    go :
        (found : Option File) (files : List File)
        → find_file files text ≡ found
        → (elim found [
          | none ↦ some nothing
          | some f ↦ contents f.file_name >>= λ bytes.
              send_file buf_size (length bytes + 1) bytes >>= λ buffers. some (sends buffers)
        ])
          ≡ some effect
        → (sent effect ≡ []) ⊎ (contents text ≡ some (sent effect))
    go none files f e = inl (ap sent (sym (some-injective _ _ e)))
    go (some f) files h e =
        let (bytes, k, e1) = >>=-eq-some (contents f.file_name) _ e in
        let (buffers, m, e2) = >>=-eq-some (send_file buf_size (length bytes + 1) bytes) _ e1 in
        let (bs, m', q) =
          send_file-total buf_size (length bytes + 1) bytes (omega arith) (omega arith) in
        inr (
          ap contents (sym (find_file-name files text f h))
          ∙ k
          ∙ ap some
              (sym q ∙ ap flat (some-injective _ _ (sym m' ∙ m)) ∙ ap sent (some-injective _ _ e2)))

-- What `Download_File` has written when it has finished is what the server can open under the name.
pub download_file-contents :
    (contents : List ℕ → Option (List ℕ)) (limits : Limits) (s : Server) (sock i : ℕ)
    (text bytes : List ℕ) (table : List File) (effect : Effect) (outcome : Outcome)
    → answer_download contents s sock text ≡ some effect
    → download_file limits table i (sent effect) ≡ some outcome
    → finished outcome ≡ some bytes
    → contents text ≡ some bytes
download_file-contents contents limits s sock i text bytes table effect outcome a d e =
    elim (answer_download-sent contents s sock text effect a) [
      | inl nothing_there ↦ cc (
          download_file-empty limits table i outcome
            (ap (download_file limits table i) (sym nothing_there) ∙ d))
      | inr opened ↦
          opened
          ∙ ap some (sym (download_file-finished limits table i (sent effect) bytes outcome d e))
    ]

-- The table that the client has read is the one that the server keeps for it.
pub received_table-show_dir :
    (open_size : List ℕ → Option ℕ) (read_dir : List ℕ → Option (List Dirent)) (s s' : Server)
    (sock count : ℕ) (files table : List File)
    → show_dir open_size read_dir s sock ≡ some (s', (count, files))
    → received_table (lists count files) ≡ some table
    → (c : Client) × (get_struct s' sock ≡ some c) × (c.files ≡ table)
unfolding received_table
received_table-show_dir open_size read_dir s s' sock count [] table w e =
    let (c, g, kept, n) = show_dir-get_struct open_size read_dir s s' sock count [] w in (c, g, cc)
received_table-show_dir open_size read_dir s s' sock count (f ∷ files) table w e =
    let (c, g, kept, n) = show_dir-get_struct open_size read_dir s s' sock count (f ∷ files) w in
    let ((t, rest), a, b) = >>=-eq-some (receive_files count 0 (f ∷ files)) _ e in
    (
      c,
      g,
      kept
          ∙ sym (receive_files-all count 0 f files t rest (omega (arith, n)) a)
          ∙ some-injective _ _ b,
    )

-- What the server has written below the directory of the client.
pub stored-answer_upload :
    (limits : Limits) (s : Server) (sock : ℕ) (name : List ℕ) (file : File) (stream : List ℕ)
    (effect : Effect) (deed : Deed)
    → answer_upload limits s sock file stream ≡ some effect
    → stored name effect ≡ some deed
    → (c : Client) × (get_struct s sock ≡ some c)
      × (deed ≡ uploaded name (c.directory ++ b'/' ∷ file.file_name) stream)
unfolding answer_upload stored
stored-answer_upload limits s sock name file stream effect deed a e =
    let (c, g, a1) = >>=-eq-some (get_struct s sock) _ a in
    let path = c.directory ++ b'/' ∷ file.file_name in
    let outcome = receive_file buf_size limits (length stream + 1) 0 file.file_size [] stream in
    let e1 : stored name (writes path outcome) ≡ some deed =
      ap (stored name) (some-injective _ _ a1) ∙ e in
    let (bytes, f, q) = >>=-eq-some (finished outcome) _ e1 in
    (
      c,
      g,
      sym (some-injective _ _ q)
          ∙ ap (uploaded name path) (
              receive_file-finished buf_size limits (length stream + 1) 0 file.file_size [] stream
                bytes f),
    )
