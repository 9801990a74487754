-- ===== src/Download/Session.antt =====
-- Whole sessions of the downloader (download_serv.c, download_clnt.c).
use mathlib.Core.Option.{some-injective}
use network_camp.Prelude.{
  ℕ, zero, suc, ◌+◌, ◌≤◌, ◌<◌, true, false, ◌||◌, Option, some, List, [], ◌∷◌, ◌++◌, ◌≡◌, refl, ap,
  subst, ◌∙◌, arith, ltb, leb, length, length-append, get_elem?, All, same_word, Bool-cases, inl,
  inr, >>=-eq-some,
}
use network_camp.Transfer.{Limits, done, blocked}
use network_camp.Transfer.Int.{
  int_half, receive_file_int, receive_file_int-eq, receive_file_int-blocks,
}
use network_camp.Transfer.Complete.{flat, send_file-total, receive_file_whole}
use network_camp.Download.{
  file_count, name_size, buf_size, Entry, Listed, add_listed, create_array, answer, receive_entries,
  choose, got, client_round,
}

receive_entries_lem :
    (count index : ℕ) (f : Entry) (fs rest : List Entry)
    → index + length (f ∷ fs) ≡ count
    → count ≤ file_count
    → receive_entries count index ((f ∷ fs) ++ rest) ≡ some (f ∷ fs, rest)
unfolding receive_entries
receive_entries_lem count index f [] rest e le =
    let fits : ltb index file_count ≡ true = ground arith in
    let last : leb count (index + 1) ≡ true = ground arith in rw (fits, last) refl
receive_entries_lem count index f (g ∷ fs) rest e le =
    let fits : ltb index file_count ≡ true = ground arith in
    let more : leb count (index + 1) ≡ false = ground arith in
    rw (fits, more, receive_entries_lem count (index + 1) g fs rest (omega arith) le) refl

module _ (contents : List ℕ → Option (List ℕ)) where
  -- An entry with the size of its file.
  abbrev pub IsSized : Entry → Type 0
  IsSized f = (bytes : List ℕ) × (contents f.file_name ≡ some bytes) × (f.file_size ≡ length bytes)

  All-snoc : (fs : List Entry) (f : Entry) → All IsSized fs → IsSized f → All IsSized (fs ++ f ∷ [])
  All-snoc [] f a h = (h, tt)
  All-snoc (g ∷ fs) f a h = (a.0, All-snoc fs f a.1 h)

  abbrev Good : List Entry → Type 0
  Good fs = All IsSized fs × (length fs ≤ file_count)

  add_listed_lem :
      (files files' : List Entry) (d : Listed)
      → Good files
      → add_listed contents files d ≡ some files'
      → Good files'
  unfolding add_listed
  add_listed_lem files files' d (a, le) e =
      elim (Bool-cases (same_word d.d_name (b'.' ∷ []) || same_word d.d_name (b'.' ∷ b'.' ∷ []))) [
        | inl dot ↦ subst Good (some-injective files files' (rw dot at e)) (a, le)
        | inr name ↦ elim (Bool-cases d.is_regular) [
          | inr other ↦ subst Good (some-injective files files' (rw (name, other) at e)) (a, le)
          | inl regular ↦
              let (bytes, opened, e1) =
                >>=-eq-some (contents d.d_name) _ (rw (name, regular) at e) in
              elim (Bool-cases (ltb (length files) file_count)) [
                | inr full ↦ cc (rw full at e1)
                | inl room ↦ elim (Bool-cases (ltb (length d.d_name) name_size)) [
                  | inr long ↦ cc (rw (room, long) at e1)
                  | inl short ↦
                      let f : Entry = record { file_name = d.d_name; file_size = length bytes } in
                      subst Good (some-injective (files ++ f ∷ []) files' (rw (room, short) at e1))
                        (
                          All-snoc files f a (bytes, opened, refl),
                          ground (arith, length-append files (f ∷ [])),
                        )
                ]
              ]
        ]
      ]

  create_array_lem :
      (ds : List Listed) (files files' : List Entry)
      → Good files
      → create_array contents files ds ≡ some files'
      → Good files'
  unfolding create_array
  create_array_lem [] files files' h e = subst Good (some-injective files files' e) h
  create_array_lem (d ∷ ds) files files' h e =
      let (fs, a, b) = >>=-eq-some (add_listed contents files d) _ e in
      create_array_lem ds fs files' (add_listed_lem files fs d h a) b

  get-IsSized :
      (files : List Entry) (i : ℕ)
      → All IsSized files
      → i < length files
      → (f : Entry) × (get_elem? files i ≡ some f) × IsSized f
  get-IsSized [] i a h = absurd (omega arith)
  get-IsSized (f ∷ files) zero a h = (f, refl, a.0)
  get-IsSized (f ∷ files) (suc i) a h = get-IsSized files i a.1 (omega arith)

  -- What the server sends for an index.
  serves :
      (ds : List Listed) (files : List Entry) (i : ℕ)
      → create_array contents [] ds ≡ some files
      → i < length files
      → (f : Entry) × (bytes : List ℕ) × (buffers : List (List ℕ)) × (get_elem? files i ≡ some f)
        × (contents f.file_name ≡ some bytes)
        × (f.file_size ≡ length bytes)
        × (answer contents files i ≡ some buffers)
        × (flat buffers ≡ bytes)
  unfolding answer
  serves ds files i e lt =
      let (sized, _) = create_array_lem ds [] files (tt, omega arith) e in
      let (f, at, (bytes, opened, size)) = get-IsSized files i sized lt in
      let (buffers, sent, q) =
        send_file-total buf_size (length bytes + 1) bytes (omega arith) (omega arith) in
      (f, bytes, buffers, at, opened, size, rw (at, opened, sent) refl, q)

  round-receive_file_int :
      (files : List Entry) (f : Entry) (i : ℕ) (limits : Limits) (bytes stream : List ℕ)
      → get_elem? files i ≡ some f
      → f.file_size ≡ length bytes
      → stream ≡ bytes
      → client_round limits files (choose i) stream
        ≡ some (
            got i f.file_name
              (receive_file_int buf_size limits (length bytes + 1) 0 (length bytes) 0 [] bytes))
  unfolding client_round
  round-receive_file_int files f i limits bytes stream at size q =
      rw (at, q)
        (ap
          (λ n. some (
            got i f.file_name (receive_file_int buf_size limits (length bytes + 1) 0 n 0 [] bytes)))
          size)

  -- From the directory to the file.
  pub client_round-answer :
      (ds : List Listed) (files : List Entry) (rest : List Entry) (i : ℕ) (limits : Limits)
      → create_array contents [] ds ≡ some files
      → i < length files
      → ((f : Entry) → get_elem? files i ≡ some f → (0 < f.file_size) × (f.file_size < int_half))
      → (receive_entries (length files) 0 (files ++ rest) ≡ some (files, rest))
        × ((f : Entry) × (bytes : List ℕ) × (buffers : List (List ℕ)) × (reads : ℕ) × (get_elem?
                files i
              ≡ some f)
            × (contents f.file_name ≡ some bytes)
            × (answer contents files i ≡ some buffers)
            × (client_round limits files (choose i) (flat buffers)
                ≡ some (got i f.file_name (done bytes [] reads))))
  client_round-answer ds files rest i limits e lt full =
      let (f, bytes, buffers, at, opened, size, sent, q) = serves ds files i e lt in
      let (some_bytes, small) = full f at in
      let (_, le) = create_array_lem ds [] files (tt, omega arith) e in
      let (reads, whole) =
        receive_file_whole buf_size limits bytes (omega arith) (omega (arith, some_bytes, size)) in
      (
        received files lt le,
        (
          f,
          bytes,
          buffers,
          reads,
          at,
          opened,
          sent,
          round-receive_file_int files f i limits bytes (flat buffers) at size q
              ∙ ap (λ o. some (got i f.file_name o))
                  (receive_file_int-eq buf_size limits (length bytes + 1) 0 (length bytes) [] bytes
                      (omega (arith, small, size))
                    ∙ whole),
        ),
      )
    where
      received :
          (files : List Entry)
          → i < length files
          → length files ≤ file_count
          → receive_entries (length files) 0 (files ++ rest) ≡ some (files, rest)
      received [] lt le = absurd (omega arith)
      received (f ∷ files) lt le =
          receive_entries_lem (length (f ∷ files)) 0 f files rest (omega arith) le

  -- When the server could make its table from the directory, and the user chooses the index of a
  -- file of 2 ^ 31 bytes or more, the client writes all bytes of that file and then stays in its
  -- loop: its counter is an `int`.
  pub client_round-blocks :
      (ds : List Listed) (files : List Entry) (i : ℕ) (limits : Limits)
      → create_array contents [] ds ≡ some files
      → i < length files
      → ((f : Entry) → get_elem? files i ≡ some f → int_half ≤ f.file_size)
      → (f : Entry) × (bytes : List ℕ) × (buffers : List (List ℕ)) × (get_elem? files i ≡ some f)
        × (contents f.file_name ≡ some bytes)
        × (answer contents files i ≡ some buffers)
        × (client_round limits files (choose i) (flat buffers)
            ≡ some (got i f.file_name (blocked bytes)))
  client_round-blocks ds files i limits e lt big =
      let (f, bytes, buffers, at, opened, size, sent, q) = serves ds files i e lt in
      (
        f,
        bytes,
        buffers,
        at,
        opened,
        sent,
        round-receive_file_int files f i limits bytes (flat buffers) at size q
            ∙ ap (λ o. some (got i f.file_name o))
                (receive_file_int-blocks buf_size limits (length bytes + 1) 0 (length bytes) 0 []
                  bytes (omega arith) (omega (arith, big f at, size)) (omega arith)),
      )
