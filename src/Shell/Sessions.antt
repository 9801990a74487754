-- ===== src/Shell/Sessions.antt =====
-- The clients of the remote shell (simple_remote_shell_serv.c): whose structure a request changes, and
-- what becomes of the others when a client comes or leaves.
use mathlib.Core.Option.{some-injective}
use network_camp.Prelude.{
  ℕ, zero, suc, ◌<◌, true, false, Option, some, List, [], ◌∷◌, ◌≡◌, ◌≢◌, refl, ap, sym, ◌∙◌, subst,
  arith, ◌==◌, ltb, length, take, All, >>=-eq-some, same_word, ◌⊎◌, Bool-cases, inl, inr, eq→==,
  ==→eq,
}
use network_camp.Shell.{
  file_count, name_size, scan_entries, File, Client, Dirent, Server, create_array, update_directory,
  find_client, get_struct, put_client,
}
use network_camp.Shell.Listing.{IsShort, listing, create_array-listing}
use network_camp.Shell.Requests.{update_client, move_dir, show_dir}

find_client_hit :
    (n : ℕ) (cs : List Client) (sock : ℕ) (c : Client)
    → find_client n cs sock ≡ some c
    → c.sockfd ≡ sock
unfolding find_client
find_client_hit zero cs sock c e = cc
find_client_hit (suc n) [] sock c e = cc
find_client_hit (suc n) (x ∷ cs) sock c e = elim (Bool-cases (x.sockfd == sock)) [
  | inl hit ↦
      subst (λ (y : Client). y.sockfd ≡ sock) (some-injective x c (rw hit at e))
        (==→eq x.sockfd sock hit)
  | inr miss ↦ find_client_hit n cs sock c (rw miss at e)
]

-- A client put in the place of one with the same socket is not seen by the others.
find_client_put :
    (n : ℕ) (cs : List Client) (sock other : ℕ) (c' : Client)
    → c'.sockfd ≡ sock
    → other ≢ sock
    → find_client n (put_client n cs sock c') other ≡ find_client n cs other
unfolding find_client put_client
find_client_put zero cs sock other c' e h = refl
find_client_put (suc n) [] sock other c' e h = refl
find_client_put (suc n) (x ∷ cs) sock other c' e h = elim (Bool-cases (x.sockfd == sock)) [
  | inl hit ↦
      let a : (x.sockfd == other) ≡ false = ground (arith, h) in
      let b : (c'.sockfd == other) ≡ false = ground (arith, h) in rw (hit, a, b) refl
  | inr miss ↦ rw (miss, find_client_put n cs sock other c' e h) refl
]

find_client_same :
    (n : ℕ) (cs : List Client) (sock : ℕ) (c c' : Client)
    → find_client n cs sock ≡ some c
    → c'.sockfd ≡ sock
    → find_client n (put_client n cs sock c') sock ≡ some c'
unfolding find_client put_client
find_client_same zero cs sock c c' e h = cc
find_client_same (suc n) [] sock c c' e h = cc
find_client_same (suc n) (x ∷ cs) sock c c' e h = elim (Bool-cases (x.sockfd == sock)) [
  | inl hit ↦ rw (hit, eq→== c'.sockfd sock h) refl
  | inr miss ↦ rw (miss, find_client_same n cs sock c c' (rw miss at e) h, miss) refl
]

-- All that changed is the structure of the client with a socket.
abbrev pub Touched : Server → ℕ → Server → Type 0
Touched s sock s' =
    (s' ≡ s)
    ⊎ ((c' : Client) × (c'.sockfd ≡ sock)
        × (s' ≡ record s { clients = put_client s.client_cnt s.clients sock c' }))

pub Touched-get_struct :
    (s s' : Server) (sock other : ℕ)
    → Touched s sock s'
    → other ≢ sock
    → get_struct s' other ≡ get_struct s other
unfolding get_struct
Touched-get_struct s s' sock other (inl same) h =
    ap (λ (x : Server). find_client x.client_cnt x.clients other) same
Touched-get_struct s s' sock other (inr (c', e, put)) h =
    ap (λ (x : Server). find_client x.client_cnt x.clients other) put
    ∙ find_client_put s.client_cnt s.clients sock other c' e h

module _ (open_size : List ℕ → Option ℕ) (read_dir : List ℕ → Option (List Dirent)) where
  update_directory-sockfd :
      (c c' : Client) (new_dir : List ℕ)
      → update_directory open_size read_dir c new_dir ≡ some c'
      → c'.sockfd ≡ c.sockfd
  unfolding update_directory create_array
  update_directory-sockfd c c' new_dir e = elim (Bool-cases (ltb (length new_dir) name_size)) [
    | inl fits ↦
        let (ds, _, e1) = >>=-eq-some (read_dir new_dir) _ (rw fits at e) in
        let (files, _, e2) = >>=-eq-some (scan_entries open_size [] ds) _ e1 in
        ap (λ (x : Client). x.sockfd) (sym (some-injective _ c' e2))
    | inr long ↦ cc (rw long at e)
  ]

  update_client-Touched :
      (s s' : Server) (sock : ℕ) (c : Client) (new_dir : List ℕ)
      → get_struct s sock ≡ some c
      → update_client open_size read_dir s sock c new_dir ≡ some s'
      → Touched s sock s'
  unfolding get_struct
  update_client-Touched s s' sock c new_dir g e =
      let (c', a, b) = >>=-eq-some (update_directory open_size read_dir c new_dir) _ e in
      inr (
        c',
        update_directory-sockfd c c' new_dir a ∙ find_client_hit s.client_cnt s.clients sock c g,
        sym (some-injective _ _ b),
      )

  -- A client that moves to another directory changes its own structure alone.
  pub move_dir-Touched :
      (dirname : List ℕ → List ℕ) (s s' : Server) (sock : ℕ) (text : List ℕ)
      → move_dir open_size read_dir dirname s sock text ≡ some s'
      → Touched s sock s'
  unfolding move_dir
  move_dir-Touched dirname s s' sock text e =
      let (c, g, e1) = >>=-eq-some (get_struct s sock) _ e in
      let stays : some s ≡ some s' → Touched s sock s' = λ q. inl (sym (some-injective s s' q)) in
      elim (Bool-cases (same_word text (b'.' ∷ b'.' ∷ []))) [
        | inr down ↦ update_client-Touched s s' sock c _ g (rw down at e1)
        | inl up ↦ elim (Bool-cases (same_word c.directory (b'.' ∷ b'/' ∷ []))) [
          | inl root ↦ stays (rw (up, root) at e1)
          | inr below ↦ elim (Bool-cases (ltb 0 (length (dirname c.directory)))) [
            | inl parent ↦ update_client-Touched s s' sock c _ g (rw (up, below, parent) at e1)
            | inr alone ↦ stays (rw (up, below, alone) at e1)
          ]
        ]
      ]

  -- So does a client that asks for its directory.
  pub show_dir-Touched :
      (s s' : Server) (sock : ℕ) (sent : ℕ × List File)
      → show_dir open_size read_dir s sock ≡ some (s', sent)
      → Touched s sock s'
  unfolding show_dir get_struct
  show_dir-Touched s s' sock sent e =
      let (c, g, e1) = >>=-eq-some (get_struct s sock) _ e in
      let (c', a, b) = >>=-eq-some (update_directory open_size read_dir c c.directory) _ e1 in
      inr (
        c',
        update_directory-sockfd c c' c.directory a
            ∙ find_client_hit s.client_cnt s.clients sock c g,
        ap (λ (x : Server × (ℕ × List File)). x.0) (sym (some-injective _ _ b)),
      )

  -- What `ShowDir` sends is what the server keeps for the client.
  pub show_dir-get_struct :
      (s s' : Server) (sock count : ℕ) (files : List File)
      → show_dir open_size read_dir s sock ≡ some (s', (count, files))
      → (c : Client) × (get_struct s' sock ≡ some c) × (c.files ≡ files) × (count ≡ length files)
  unfolding show_dir get_struct
  show_dir-get_struct s s' sock count files e =
      let (c, g, e1) = >>=-eq-some (get_struct s sock) _ e in
      let (c', a, b) = >>=-eq-some (update_directory open_size read_dir c c.directory) _ e1 in
      let same = some-injective _ _ b in
      let hit =
        update_directory-sockfd c c' c.directory a
        ∙ find_client_hit s.client_cnt s.clients sock c g in
      let sent = ap (λ (x : Server × (ℕ × List File)). x.1.1) same in
      (
        c',
        ap (λ (x : Server × (ℕ × List File)). find_client x.0.client_cnt x.0.clients sock)
              (sym same)
            ∙ find_client_same s.client_cnt s.clients sock c c' g hit,
        sent,
        sym (ap (λ (x : Server × (ℕ × List File)). x.1.0) same) ∙ ap (length {0}) sent,
      )

  -- When the client is known, its directory can be read, and the directory and the shown names fit
  -- their arrays, `ShowDir` sends the first `FILE_COUNT` shown entries behind their number, and the
  -- server keeps them for that client.
  pub show_dir-listing :
      (s : Server) (sock : ℕ) (c : Client) (ds : List Dirent)
      → get_struct s sock ≡ some c
      → length c.directory < name_size
      → read_dir c.directory ≡ some ds
      → All IsShort (listing open_size ds)
      → (s' : Server) × (show_dir open_size read_dir s sock
          ≡ some (
            s',
            (
              length (take file_count (listing open_size ds)),
              take file_count (listing open_size ds),
            ),
          ))
        × (get_struct s' sock ≡ some (record c { files = take file_count (listing open_size ds) }))
  unfolding show_dir update_directory get_struct
  show_dir-listing s sock c ds g short r a =
      let fits : ltb (length c.directory) name_size ≡ true = ground arith in
      let c' = record c { files = take file_count (listing open_size ds) } in
      (
        record s { clients = put_client s.client_cnt s.clients sock c' },
        rw (g, fits, create_array-listing open_size read_dir c ds r a) refl,
        find_client_same s.client_cnt s.clients sock c c' g
            (find_client_hit s.client_cnt s.clients sock c g),
      )
