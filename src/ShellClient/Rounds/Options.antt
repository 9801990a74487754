-- ===== src/ShellClient/Rounds/Options.antt =====
-- Each request that `Do_Client_Request` sends has the option of its command (simple_remote_shell_clnt.c).
use mathlib.Core.Option.{some-injective}
use network_camp.Prelude.{
  ℕ, Option, none, some, List, [], ◌∷◌, ◌≡◌, refl, subst, ◌==◌, ltb, length, same_word, Bool-cases,
  inl, inr, if◌then◌else◌,
}
use network_camp.Shell.{File, name_size}
use network_camp.ShellClient.{
  Action, quits, refreshes, refused, downloads, uploads, moves, scan_command, find_file_index,
  find_dir_index, do_command, do_client_request,
}

-- The option that goes with an action.
abbrev pub HasOption : Action → Type 0
HasOption quits = Unit
HasOption refreshes = Unit
HasOption refused = Unit
HasOption (downloads request i) = request.option ≡ 0
HasOption (uploads request) = request.option ≡ 1
HasOption (moves request) = request.option ≡ 2

do_command-HasOption :
    (files : List File) (option : ℕ) (name : List ℕ) → HasOption (do_command files option name)
unfolding do_command
do_command-HasOption files option name = elim (Bool-cases (option == b'd')) [
  | inl d ↦ rw d (found (find_file_index 0 files name))
  | inr nd ↦ elim (Bool-cases (option == b'u')) [
    | inl u ↦ rw (nd, u) refl
    | inr nu ↦ elim (Bool-cases (option == b'm')) [
      | inl m ↦ rw (nd, nu, m) (found_dir (find_dir_index 0 files name))
      | inr nm ↦ rw (nd, nu, nm) tt
    ]
  ]
]
  where
    found :
        (i : Option ℕ)
        → HasOption (elim i [
          | none ↦ refused
          | some i ↦ downloads (record { option = 0; request_text = name }) i
        ])
    found none = tt
    found (some i) = refl

    found_dir :
        (i : Option ℕ)
        → HasOption (elim i [
          | none ↦ refused
          | some i ↦ moves (record { option = 2; request_text = name })
        ])
    found_dir none = tt
    found_dir (some i) = refl

pub do_client_request-HasOption :
    (files : List File) (msg : List ℕ) (action : Action)
    → do_client_request files msg ≡ some action
    → HasOption action
unfolding do_client_request
do_client_request-HasOption files msg action e =
    elim (Bool-cases (same_word msg (b'q' ∷ b'\n' ∷ []))) [
      | inl q ↦ subst HasOption (some-injective quits action (rw q at e)) tt
      | inr nq ↦ elim (Bool-cases (same_word msg (b'r' ∷ b'\n' ∷ []))) [
        | inl r ↦ subst HasOption (some-injective refreshes action (rw (nq, r) at e)) tt
        | inr nr ↦ scanned (scan_command msg) (rw (nq, nr) at e)
      ]
    ]
  where
    scanned :
        (scan : Option (ℕ × List ℕ))
        → (elim scan [
          | none ↦ some refused
          | some (option, name) ↦
              if ltb (length name) name_size then some (do_command files option name) else none
        ])
          ≡ some action
        → HasOption action
    scanned none q = subst HasOption (some-injective refused action q) tt
    scanned (some (option, name)) q = elim (Bool-cases (ltb (length name) name_size)) [
      | inl fits ↦
          subst HasOption (some-injective _ action (rw fits at q))
            (do_command-HasOption files option name)
      | inr long ↦ cc (rw long at q)
    ]
