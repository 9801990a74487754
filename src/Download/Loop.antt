-- ===== src/Download/Loop.antt =====
-- A connection of the downloader from the table to the last file: `main` of download_clnt.c with `main` of
-- download_serv.c.
use network_camp.Prelude.{
  ℕ, ◌<◌, Option, none, some, List, [], ◌∷◌, ◌++◌, ◌≡◌, refl, ap, ap₂, sym, ◌∙◌, arith, length, map,
  append-nil, get_elem?, All, ◌>>=◌,
}
use network_camp.Transfer.{Limits, done, blocked, out_of_fuel}
use network_camp.Transfer.Int.{int_half}
use network_camp.Transfer.Complete.{flat}
use network_camp.Download.{
  Entry, Listed, create_array, answer, receive_entries, Choice, leave, choose, Round, over, got,
  client_round,
}
use network_camp.Download.Session.{client_round-answer}

-- A file that is closed: its name and what was written, with nothing left in the connection, where the
-- next file begins. `none` where the loop waits for ever.
unfoldable pub closed : Round → Option (List ℕ × List ℕ)
closed over = none
closed (got index name (done written [] reads)) = some (name, written)
closed (got index name (done written (x ∷ rest) reads)) = none
closed (got index name (blocked written)) = none
closed (got index name out_of_fuel) = none

-- The table that the client receives. `none` where it waits for a first entry.
unfoldable pub received_entries : List Entry → Option (List Entry)
received_entries [] = none
received_entries (f ∷ files) =
    receive_entries (length (f ∷ files)) 0 (f ∷ files) >>= λ (table, rest). some table

module _ (contents : List ℕ → Option (List ℕ)) (limits : Limits) where
  -- The loops of both, for the table of the server and that of the client.
  unfoldable pub client_rounds :
      List Entry → List Entry → List Choice → Option (List (List ℕ × List ℕ))
  unfolding closed
  client_rounds files table [] = some []
  client_rounds files table (leave ∷ choices) = some []
  client_rounds files table (choose index ∷ choices) = answer contents files index >>= λ buffers.
      client_round limits table (choose index) (flat buffers) >>= λ r.
      closed r >>= λ file. client_rounds files table choices >>= λ others. some (file ∷ others)

  unfoldable pub download_files : List Listed → List Choice → Option (List (List ℕ × List ℕ))
  unfolding received_entries client_rounds
  download_files ds choices = create_array contents [] ds >>= λ files.
      received_entries files >>= λ table. client_rounds files table choices

  -- The name of the file with an index.
  abbrev pub name_at : List Entry → ℕ → Option (List ℕ)
  name_at files i = get_elem? files i >>= λ f. some f.file_name

  -- An index of the table, of a file that is not empty and not too long for the counter.
  abbrev pub IsWanted : List Entry → ℕ → Type 0
  IsWanted files i =
      (i < length files)
      × ((f : Entry) → get_elem? files i ≡ some f → (0 < f.file_size) × (f.file_size < int_half))

  client_rounds-files :
      (ds : List Listed) (files : List Entry) (indices : List ℕ) (later : List Choice)
      → create_array contents [] ds ≡ some files
      → All (IsWanted files) indices
      → (saved : List (List ℕ × List ℕ)) × (client_rounds files files
            (map choose indices ++ leave ∷ later)
          ≡ some saved)
        × All (λ (x : List ℕ × List ℕ). contents x.0 ≡ some x.1) saved
        × (map (λ (x : List ℕ × List ℕ). some x.0) saved ≡ map (name_at files) indices)
  unfolding client_rounds closed
  client_rounds-files ds files [] later e a = ([], refl, tt, refl)
  client_rounds-files ds files (i ∷ indices) later e ((lt, good), a) =
      let (saved, r, opened, names) = client_rounds-files ds files indices later e a in
      let (_, (f, bytes, buffers, reads, at, c, sent, round)) =
        client_round-answer contents ds files [] i limits e lt good in
      (
        (f.file_name, bytes) ∷ saved,
        rw (sent, round, r) refl,
        (c, opened),
        ap₂ (◌∷◌) (sym (ap (λ x. x >>= λ g. some g.file_name) at)) names,
      )

  -- When the server could make its table from the directory, and the user chooses at least one
  -- index, all of them of files of the table with more than 0 and fewer than 2 ^ 31 bytes, and then
  -- leaves, the connection comes to its end, and for each choice, in their order, the client has
  -- written the file of that name with its bytes, however the network cuts them.
  pub download_files-contents :
      (ds : List Listed) (files : List Entry) (i : ℕ) (indices : List ℕ) (later : List Choice)
      → create_array contents [] ds ≡ some files
      → All (IsWanted files) (i ∷ indices)
      → (saved : List (List ℕ × List ℕ)) × (download_files ds
            (map choose (i ∷ indices) ++ leave ∷ later)
          ≡ some saved)
        × All (λ (x : List ℕ × List ℕ). contents x.0 ≡ some x.1) saved
        × (map (λ (x : List ℕ × List ℕ). some x.0) saved ≡ map (name_at files) (i ∷ indices))
  unfolding download_files received_entries
  download_files-contents ds files i indices later e a =
      let (saved, r, opened, names) = client_rounds-files ds files (i ∷ indices) later e a in
      let ((lt, good), _) = a in
      let (all, _) = client_round-answer contents ds files [] i limits e lt good in
      (saved, rw (e, received files lt all) r, opened, names)
    where
      received :
          (table : List Entry)
          → i < length table
          → receive_entries (length table) 0 (table ++ []) ≡ some (table, [])
          → received_entries table ≡ some table
      received [] lt all = absurd (omega arith)
      received (f ∷ table) lt all =
          ap (λ x. x >>= λ (t, rest). some t)
            (ap (receive_entries (length (f ∷ table)) 0) (sym (append-nil (f ∷ table))) ∙ all)
