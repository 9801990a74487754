-- ===== src/Shell/Listing.antt =====
-- The listing of a directory (simple_remote_shell_serv.c).
use network_camp.Prelude.{
  Bool, ℕ, ◌≤◌, ◌<◌, true, false, Option, none, some, List, [], ◌∷◌, ◌++◌, ◌≡◌, refl, ap, sym,
  subst, ◌∙◌, arith, ltb, length, length-append, take, take-append, take_all, append_assoc,
  append-nil, All, same_word, Bool-cases, inl, inr, Option-cases,
}
use network_camp.Shell.{
  file_count, name_size, File, Client, regular, folder, other, Kind, Dirent, add_file, add_entry,
  scan_entry, scan_entries, create_array,
}

abbrev pub IsShort : File → Type 0
IsShort f = length f.file_name < name_size

-- The file that an entry stands for, if it is shown.
abbrev pub file_of : List ℕ → Bool → Kind → Option ℕ → Option File
file_of name true k opened = none
file_of name false regular none = none
file_of name false regular (some size) =
    some (record { file_name = name; file_size = size; is_directory = false })
file_of name false folder opened =
    some (record { file_name = name; file_size = 0; is_directory = true })
file_of name false other opened = none

abbrev add_option : List File → Option File → Option (List File)
add_option files none = some files
add_option files (some f) = add_file files f

add_entry-file_of :
    (files : List File) (name : List ℕ) (dot : Bool) (k : Kind) (opened : Option ℕ)
    → add_entry files name dot k opened ≡ add_option files (file_of name dot k opened)
unfolding add_entry
add_entry-file_of files name true k opened = refl
add_entry-file_of files name false regular none = refl
add_entry-file_of files name false regular (some size) = refl
add_entry-file_of files name false folder opened = refl
add_entry-file_of files name false other opened = refl

abbrev prepend : Option File → List File → List File
prepend none fs = fs
prepend (some f) fs = f ∷ fs

module _ (open_size : List ℕ → Option ℕ) where
  abbrev pub shown : Dirent → Option File
  shown d = file_of d.d_name (same_word d.d_name (b'.' ∷ [])) d.d_type (open_size d.d_name)

  -- The entries that are shown, in their order.
  abbrev pub listing : List Dirent → List File
  listing [] = []
  listing (d ∷ ds) = prepend (shown d) (listing ds)

  scan_entry-shown :
      (files : List File) (d : Dirent) → scan_entry open_size files d ≡ add_option files (shown d)
  unfolding scan_entry
  scan_entry-shown files d =
      add_entry-file_of files d.d_name (same_word d.d_name (b'.' ∷ [])) d.d_type
        (open_size d.d_name)

  scan_entries_lem :
      (files : List File) (ds : List Dirent)
      → All IsShort (listing ds)
      → length files ≤ file_count
      → scan_entries open_size files ds ≡ some (take file_count (files ++ listing ds))
  unfolding scan_entries add_file
  scan_entries_lem files [] a fits = ap some (
      sym (
        take_all file_count (files ++ []) (omega (arith, length-append files []))
        ∙ append-nil files))
  scan_entries_lem files (d ∷ ds) a fits = elim (Option-cases (shown d)) [
    | inl hidden ↦
        rw (scan_entry-shown files d, hidden)
          (scan_entries_lem files ds (subst (λ o. All IsShort (prepend o (listing ds))) hidden a)
            fits)
    | inr (f, seen) ↦
        let (short, rest) = subst (λ o. All IsShort (prepend o (listing ds))) seen a in
        let short' : ltb (length f.file_name) name_size ≡ true = ground arith in
        elim (Bool-cases (ltb (length files) file_count)) [
          | inl room ↦
              rw (scan_entry-shown files d, seen, room, short')
                (scan_entries_lem (files ++ f ∷ []) ds rest
                    (ground (arith, length-append files (f ∷ [])))
                  ∙ ap (λ l. some (take file_count l)) (append_assoc files (f ∷ []) (listing ds)))
          | inr full ↦
              let size : length files ≡ file_count = ground arith in
              rw (scan_entry-shown files d, seen, full)
                (scan_entries_lem files ds rest fits
                  ∙ ap some (
                      take-append files (listing ds) file_count size
                      ∙ sym (take-append files (f ∷ listing ds) file_count size)))
        ]
  ]

-- On a directory that can be read, whose shown names fit `file_name`, `CreateArrayFromDirectory`
-- lists the entries that are shown, in their order, the first `FILE_COUNT` of them.
pub create_array-listing :
    (open_size : List ℕ → Option ℕ) (read_dir : List ℕ → Option (List Dirent)) (c : Client)
    (ds : List Dirent)
    → read_dir c.directory ≡ some ds
    → All IsShort (listing open_size ds)
    → create_array open_size read_dir c
      ≡ some (record c { files = take file_count (listing open_size ds) })
unfolding create_array
create_array-listing open_size read_dir c ds e a =
    rw (e, scan_entries_lem open_size [] ds a (omega arith)) refl
