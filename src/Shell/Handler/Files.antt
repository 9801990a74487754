-- ===== src/Shell/Handler/Files.antt =====
-- What the requests of a client come to (simple_remote_shell_serv.c).
use mathlib.Core.Option.{some-injective}
use network_camp.Prelude.{
  ℕ, ◌+◌, ◌<◌, Option, some, List, [], ◌∷◌, ◌++◌, ◌≡◌, ◌≢◌, refl, ap, sym, subst, ◌∙◌, arith, ◌==◌,
  length, >>=-eq-some, Bool-cases, inl, inr,
}
use network_camp.Transfer.{Limits, done, receive_file}
use network_camp.Transfer.Complete.{flat, send_file-total, receive_file_whole}
use network_camp.Shell.{File, Client, Dirent, Server, get_struct}
use network_camp.Shell.Requests.{find_file, search_file, move_dir, show_dir}
use network_camp.Shell.Sessions.{Touched, Touched-get_struct, move_dir-Touched, show_dir-Touched}
use network_camp.Shell.Handler.{
  buf_size, nothing, sends, writes, lists, Effect, answer_download, answer_upload, handle_request,
}

-- A client that asks for a file of its listing that the server can open is sent the bytes of the
-- file, in buffers.
pub answer_download-contents :
    (contents : List ℕ → Option (List ℕ)) (s : Server) (sock : ℕ) (text bytes : List ℕ) (c : Client)
    (f : File)
    → get_struct s sock ≡ some c
    → find_file c.files text ≡ some f
    → contents f.file_name ≡ some bytes
    → (buffers : List (List ℕ)) × (answer_download contents s sock text ≡ some (sends buffers))
      × (flat buffers ≡ bytes)
unfolding answer_download search_file
answer_download-contents contents s sock text bytes c f g h k =
    let (buffers, e, q) =
      send_file-total buf_size (length bytes + 1) bytes (omega arith) (omega arith) in
    (buffers, rw (g, h, k, e) refl, q)

-- A known client that uploads a file that is not empty gets it written below its directory,
-- whatever the network makes of the bytes.
pub answer_upload-file :
    (limits : Limits) (s : Server) (sock : ℕ) (c : Client) (uploaded : File) (bytes : List ℕ)
    → get_struct s sock ≡ some c
    → uploaded.file_size ≡ length bytes
    → 0 < length bytes
    → (reads : ℕ) × (answer_upload limits s sock uploaded bytes
        ≡ some (writes (c.directory ++ b'/' ∷ uploaded.file_name) (done bytes [] reads)))
unfolding answer_upload
answer_upload-file limits s sock c uploaded bytes g size pos =
    let (reads, r) = receive_file_whole buf_size limits bytes (omega arith) pos in
    let whole : receive_file buf_size limits (length bytes + 1) 0 uploaded.file_size [] bytes
        ≡ done bytes [] reads =
      ap (λ n. receive_file buf_size limits (length bytes + 1) 0 n [] bytes) size ∙ r in
    (reads, rw (g, whole) refl)

-- Whatever a client requests, only its own structure changes.
pub handle_request-Touched :
    (open_size : List ℕ → Option ℕ) (read_dir : List ℕ → Option (List Dirent))
    (contents : List ℕ → Option (List ℕ)) (dirname : List ℕ → List ℕ) (limits : Limits)
    (s s' : Server) (sock option : ℕ) (text : List ℕ) (uploaded : File) (stream : List ℕ)
    (effect : Effect)
    → handle_request open_size read_dir contents dirname limits s sock option text uploaded stream
      ≡ some (s', effect)
    → Touched s sock s'
unfolding handle_request
handle_request-Touched open_size read_dir contents dirname limits s s' sock option text uploaded
      stream effect e =
    let stays : (a : Effect) → some (s, a) ≡ some (s', effect) → Touched s sock s' =
      λ a q. inl (ap (λ (x : Server × Effect). x.0) (sym (some-injective _ _ q))) in
    let after : (t : Server) (a : Effect)
        → some (t, a) ≡ some (s', effect)
        → Touched s sock t
        → Touched s sock s' =
      λ t a q. subst (Touched s sock) (ap (λ (x : Server × Effect). x.0) (some-injective _ _ q)) in
    elim (Bool-cases (option == 0)) [
      | inl d ↦
          let (a, _, q) = >>=-eq-some (answer_download contents s sock text) _ (rw d at e) in
          stays a q
      | inr nd ↦ elim (Bool-cases (option == 1)) [
        | inl u ↦
            let (a, _, q) =
              >>=-eq-some (answer_upload limits s sock uploaded stream) _ (rw (nd, u) at e) in
            stays a q
        | inr nu ↦ elim (Bool-cases (option == 2)) [
          | inl m ↦
              let (t, a, q) =
                >>=-eq-some (move_dir open_size read_dir dirname s sock text) _
                  (rw (nd, nu, m) at e) in
              after t nothing q (move_dir-Touched open_size read_dir dirname s t sock text a)
          | inr nm ↦ elim (Bool-cases (option == 3)) [
            | inl w ↦
                let ((t, sent), a, q) =
                  >>=-eq-some (show_dir open_size read_dir s sock) _ (rw (nd, nu, nm, w) at e) in
                after t (lists sent.0 sent.1) q
                  (show_dir-Touched open_size read_dir s t sock sent a)
            | inr nw ↦ stays nothing (rw (nd, nu, nm, nw) at e)
          ]
        ]
      ]
    ]

-- Whatever a client requests, what the server has for every other socket stays as it was.
pub handle_request-get_struct :
    (open_size : List ℕ → Option ℕ) (read_dir : List ℕ → Option (List Dirent))
    (contents : List ℕ → Option (List ℕ)) (dirname : List ℕ → List ℕ) (limits : Limits)
    (s s' : Server) (sock other option : ℕ) (text : List ℕ) (uploaded : File) (stream : List ℕ)
    (effect : Effect)
    → handle_request open_size read_dir contents dirname limits s sock option text uploaded stream
      ≡ some (s', effect)
    → other ≢ sock
    → get_struct s' other ≡ get_struct s other
handle_request-get_struct open_size read_dir contents dirname limits s s' sock other option text
      uploaded stream effect e =
    Touched-get_struct s s' sock other (
      handle_request-Touched open_size read_dir contents dirname limits s s' sock option text
        uploaded stream effect e)
