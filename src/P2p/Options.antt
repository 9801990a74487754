-- ===== src/P2p/Options.antt =====
-- GetOptArgs (p2p.c). `getopt` and `atoi` are parameters: `Scan` is what `getopt` keeps, `optind` with it.
pub mod Reported
use network_camp.Prelude.{
  ℕ, zero, suc, ◌+◌, ◌*◌, Option, none, some, Bool, true, List, [], ◌∷◌, if◌then◌else◌, ◌==◌, ltb,
  length, get_elem?,
}

-- The globals that the options set.
pub record Args : Type 0 where
  pub rflag : Bool
  pub sflag : Bool
  pub receiver_max : ℕ
  pub file_name : List ℕ
  pub segment_size : ℕ
  pub this_port_num : ℕ
  pub sender_address : List ℕ
  pub sender_port_num : ℕ

-- How it ends: `exit(1)`, a return, a `strcpy` behind its array; or the fuel ran out.
pub data Parsed : Type 0 where
  exits overflows out_of_fuel : Parsed
  returns : Args → Parsed

-- `sender_address` and `file_name` have 64 bytes.
abbrev pub text_size : ℕ
text_size = 64

abbrev pub mode_spec : List ℕ
mode_spec = b'r' ∷ b's' ∷ []

abbrev pub receiver_spec : List ℕ
receiver_spec = b'a' ∷ b':' ∷ b'p' ∷ b':' ∷ []

abbrev pub sender_spec : List ℕ
sender_spec = b'n' ∷ b':' ∷ b'f' ∷ b':' ∷ b'g' ∷ b':' ∷ b'p' ∷ b':' ∷ []

-- `getopt` gives an option with `optarg` and what it keeps then, or none for -1; `skip` is `optind++`.
module _ (Scan : Type 0) (getopt : List (List ℕ) → List ℕ → Scan → Option (ℕ × List ℕ × Scan))
    (optind : Scan → ℕ) (skip : Scan → Scan) (atoi : List ℕ → ℕ) where
  -- The loop of the case 'r' on fuel.
  unfoldable pub receiver_loop : ℕ → List (List ℕ) → Args → Scan → Parsed
  receiver_loop zero argv args scan = out_of_fuel
  receiver_loop (suc fuel) argv args scan = elim (getopt argv receiver_spec scan) [
    | none ↦ returns args
    | some (c, optarg, scan') ↦
        if c == b'a'
        then (elim (get_elem? argv (optind scan')) [
          | none ↦ returns args
          | some port ↦
              if ltb (length optarg) text_size
              then receiver_loop fuel argv
                  (record args { sender_address = optarg; sender_port_num = atoi port })
                  (skip scan')
              else overflows
        ])
        else if c == b'p'
        then receiver_loop fuel argv (record args { this_port_num = atoi optarg }) scan'
        else exits
  ]

  -- The loop of the case 's' on fuel.
  unfoldable pub sender_loop : ℕ → List (List ℕ) → Args → Scan → Parsed
  sender_loop zero argv args scan = out_of_fuel
  sender_loop (suc fuel) argv args scan = elim (getopt argv sender_spec scan) [
    | none ↦ returns args
    | some (c, optarg, scan') ↦
        if c == b'n'
        then sender_loop fuel argv (record args { receiver_max = atoi optarg }) scan'
        else if c == b'f'
        then (if ltb (length optarg) text_size
            then sender_loop fuel argv (record args { file_name = optarg }) scan'
            else overflows)
        else if c == b'g'
        then sender_loop fuel argv (record args { segment_size = atoi optarg * 1000 }) scan'
        else if c == b'p'
        then sender_loop fuel argv (record args { this_port_num = atoi optarg }) scan'
        else exits
  ]

  -- `GetOptArgs` with fuel for its loop.
  unfoldable pub get_opt_args : ℕ → List (List ℕ) → Args → Scan → Parsed
  unfolding receiver_loop sender_loop
  get_opt_args fuel argv args scan = elim (getopt argv mode_spec scan) [
    | none ↦ exits
    | some (c, optarg, scan') ↦
        if c == b'r'
        then (if length argv == 7
            then receiver_loop fuel argv (record args { rflag = true }) scan'
            else exits)
        else if c == b's'
        then (if length argv == 10
            then sender_loop fuel argv (record args { sflag = true }) scan'
            else exits)
        else exits
  ]
