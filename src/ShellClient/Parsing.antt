-- ===== src/ShellClient/Parsing.antt =====
-- How the client of the remote shell reads a command (simple_remote_shell_clnt.c).
use network_camp.Prelude.{
  ℕ, suc, ◌+◌, ◌<◌, true, false, some, List, [], ◌∷◌, ◌++◌, ◌≡◌, refl, ap, ◌∙◌, arith, ltb, length,
  get_elem?, All, Bool-cases, inl, inr, same_word,
}
use mathlib.Core.Option.{some-injective}
use network_camp.Shell.{File, name_size}
use network_camp.Shell.Requests.{find_file}
use network_camp.ShellClient.{
  is_blank, skip_blanks, scan_word, scan_command, find_file_index, downloads, do_command,
  do_client_request,
}

abbrev pub IsSolid : List ℕ → Type 0
IsSolid w = All (λ c. is_blank c ≡ false) w

scan_word_lem : (w : List ℕ) → IsSolid w → scan_word (w ++ b'\n' ∷ []) ≡ w
unfolding scan_word is_blank
scan_word_lem [] a = refl
scan_word_lem (c ∷ w) a = rw (a.0, scan_word_lem w a.1) refl

skip_blanks_solid : (c : ℕ) (w : List ℕ) → is_blank c ≡ false → skip_blanks (c ∷ w) ≡ c ∷ w
unfolding skip_blanks
skip_blanks_solid c w e = rw e refl

-- A command is an option and a name behind a blank.
abbrev pub command : ℕ → List ℕ → List ℕ
command option name = option ∷ b' ' ∷ (name ++ b'\n' ∷ [])

skip_blanks-space : (w : List ℕ) → skip_blanks (b' ' ∷ w) ≡ skip_blanks w
unfolding skip_blanks is_blank
skip_blanks-space w = refl

pub scan_command-command :
    (option c : ℕ) (name : List ℕ)
    → is_blank option ≡ false
    → IsSolid (c ∷ name)
    → scan_command (command option (c ∷ name)) ≡ some (option, c ∷ name)
unfolding scan_command
scan_command-command option c name e a =
    rw
      (
        skip_blanks_solid option (b' ' ∷ ((c ∷ name) ++ b'\n' ∷ [])) e,
        skip_blanks-space ((c ∷ name) ++ b'\n' ∷ []),
        skip_blanks_solid c (name ++ b'\n' ∷ []) a.0,
        scan_word_lem (c ∷ name) a,
      )
      refl

-- The client finds the file that the server finds, when it is no directory.
pub find_file_index_lem :
    (j : ℕ) (files : List File) (name : List ℕ) (f : File)
    → find_file files name ≡ some f
    → f.is_directory ≡ false
    → (i : ℕ) × (find_file_index j files name ≡ some (j + i)) × (get_elem? files i ≡ some f)
unfolding find_file find_file_index
find_file_index_lem j [] name f e d = cc
find_file_index_lem j (g ∷ files) name f e d = elim (Bool-cases (same_word g.file_name name)) [
  | inl hit ↦
      let same = some-injective g f (rw hit at e) in
      let plain : g.is_directory ≡ false = ap (λ (x : File). x.is_directory) same ∙ d in
      (0, rw (hit, plain) (ap some {x = j} {y = j + 0} (omega arith)), ap some same)
  | inr miss ↦
      let (i, p, q) = find_file_index_lem (j + 1) files name f (rw miss at e) d in
      (suc i, rw (miss, p) (ap some {x = j + 1 + i} {y = j + suc i} (omega arith)), q)
]

-- A command to download a file of the listing is sent to the server.
pub do_client_request-downloads :
    (files : List File) (c : ℕ) (name : List ℕ) (f : File)
    → IsSolid (c ∷ name)
    → length (c ∷ name) < name_size
    → find_file files (c ∷ name) ≡ some f
    → f.is_directory ≡ false
    → (i : ℕ) × (do_client_request files (command b'd' (c ∷ name))
        ≡ some (downloads (record { option = 0; request_text = c ∷ name }) i))
      × (get_elem? files i ≡ some f)
unfolding do_client_request do_command same_word is_blank
do_client_request-downloads files c name f a short e d =
    let (i, p, q) = find_file_index_lem 0 files (c ∷ name) f e d in
    let fits : ltb (length (c ∷ name)) name_size ≡ true = ground arith in
    (
      0 + i,
      rw (scan_command-command b'd' c name refl a, fits, p) refl,
      ap (get_elem? files) {x = 0 + i} {y = i} (omega arith) ∙ q,
    )
