-- ===== src/Tests/Options.antt =====
-- The theorems on GetOptArgs (p2p.c) at work, with a small `getopt` for options of one letter.
use network_camp.Prelude.{
  ℕ, suc, ◌+◌, ◌-◌, Option, none, some, Bool, true, false, List, [], ◌∷◌, ◌≡◌, refl, arith,
  if◌then◌else◌, ◌==◌, get_elem?,
}
use network_camp.P2p.Options.{Args, returns, get_opt_args}
use network_camp.P2p.Options.Reported.{
  address, own_port, stops, at_address, at_port, get_opt_args-Receives,
}

-- Whether a letter takes an argument.
abbrev takes : List ℕ → ℕ → Option Bool
takes [] c = none
takes (d ∷ []) c = if d == c then some false else none
takes (d ∷ (x ∷ spec)) c =
    let later = takes (x ∷ spec) c in if d == c then some (x == b':') else later

abbrev with_argument : ℕ → ℕ → Option (List ℕ) → Option (ℕ × List ℕ × ℕ)
with_argument i c none = some (b'?', [], i + 1)
with_argument i c (some arg) = some (c, arg, i + 2)

abbrev as_option : List (List ℕ) → List ℕ → ℕ → List ℕ → Option (ℕ × List ℕ × ℕ)
as_option argv spec i [] = none
as_option argv spec i (d ∷ []) = none
as_option argv spec i (d ∷ (c ∷ word)) =
    let option : Option (ℕ × List ℕ × ℕ) = elim (takes spec c) [
      | none ↦ some (b'?', [], i + 1)
      | some arg ↦ if arg then with_argument i c (get_elem? argv (i + 1)) else some (c, [], i + 1)
    ] in
    if d == b'-' then option else none

abbrev getopt : List (List ℕ) → List ℕ → ℕ → Option (ℕ × List ℕ × ℕ)
getopt argv spec i = elim (get_elem? argv i) [
  | none ↦ none
  | some word ↦ as_option argv spec i word
]

-- A number of one digit.
abbrev atoi : List ℕ → ℕ
atoi [] = 0
atoi (c ∷ cs) = c - b'0'

abbrev unset : Args
unset = record {
  rflag = false;
  sflag = false;
  receiver_max = 0;
  file_name = [];
  segment_size = 0;
  this_port_num = 0;
  sender_address = [];
  sender_port_num = 0;
}

abbrev letter : ℕ → List ℕ
letter c = b'-' ∷ c ∷ []

abbrev receiver_argv : List (List ℕ)
receiver_argv =
    (b's' ∷ [])
    ∷ letter b'r'
    ∷ letter b'a'
    ∷ (b'h' ∷ [])
    ∷ (b'7' ∷ [])
    ∷ letter b'p'
    ∷ (b'8' ∷ [])
    ∷ []

get_opt_args-Receives_example :
    get_opt_args ℕ getopt (λ i. i) suc atoi 3 receiver_argv unset 1
    ≡ returns (record unset {
      rflag = true;
      sender_address = b'h' ∷ [];
      sender_port_num = 7;
      this_port_num = 8;
    })
get_opt_args-Receives_example =
    get_opt_args-Receives ℕ getopt (λ i. i) suc atoi 3 receiver_argv unset 1 2 []
      (address (b'h' ∷ []) (b'7' ∷ []) ∷ own_port (b'8' ∷ []) ∷ []) refl refl
      (at_address refl refl (omega arith) (at_port refl (stops refl))) (omega arith)
