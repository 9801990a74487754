-- ===== src/P2p/Options/Reported.antt =====
-- What GetOptArgs makes of the options that `getopt` reports (p2p.c).
use network_camp.Prelude.{
  ℕ, zero, suc, ◌*◌, ◌<◌, true, inl, inr, Option, none, some, List, [], ◌∷◌, ◌≡◌, refl, arith,
  if◌then◌else◌, ◌==◌, ltb, length, All, ◌⊎◌, get_elem?,
}
use network_camp.P2p.Options.{
  Args, returns, text_size, mode_spec, receiver_spec, sender_spec, sender_loop, receiver_loop,
  get_opt_args,
}

-- The value of the last of the options `c`, or what stood there before.
module _ {A : Type 0} (value : List ℕ → A) where
  abbrev pub latest : ℕ → A → List (ℕ × List ℕ) → A
  latest c before [] = before
  latest c before ((d, arg) ∷ opts) = latest c (if d == c then value arg else before) opts

-- An option of the sender, a file name one that fits.
abbrev pub IsSenderOption : ℕ × List ℕ → Type 0
IsSenderOption (c, arg) =
    (c ≡ b'n') ⊎ ((c ≡ b'f') × (length arg < text_size)) ⊎ (c ≡ b'g') ⊎ (c ≡ b'p')

module _ (Scan : Type 0) (getopt : List (List ℕ) → List ℕ → Scan → Option (ℕ × List ℕ × Scan))
    (optind : Scan → ℕ) (skip : Scan → Scan) (atoi : List ℕ → ℕ) where
  -- Calls of `getopt`, one after the other, that report options up to the end.
  pub data Reports (argv : List (List ℕ)) (spec : List ℕ) : Scan → List (ℕ × List ℕ) → Type 0 where
    ends : {s : Scan} → getopt argv spec s ≡ none → Reports argv spec s []
    option :
        {s s' : Scan} {c : ℕ} {arg : List ℕ} {opts : List (ℕ × List ℕ)}
        → getopt argv spec s ≡ some (c, arg, s')
        → Reports argv spec s' opts
        → Reports argv spec s ((c, arg) ∷ opts)

  -- What the options of the sender set.
  abbrev pub set_sender : Args → List (ℕ × List ℕ) → Args
  set_sender args opts = record args {
    receiver_max = latest atoi b'n' args.receiver_max opts;
    file_name = latest (λ arg. arg) b'f' args.file_name opts;
    segment_size = latest (λ arg. atoi arg * 1000) b'g' args.segment_size opts;
    this_port_num = latest atoi b'p' args.this_port_num opts;
  }

  sender_loop_lem :
      (fuel : ℕ) (argv : List (List ℕ)) (args : Args) (scan : Scan) (opts : List (ℕ × List ℕ))
      → Reports argv sender_spec scan opts
      → All IsSenderOption opts
      → length opts < fuel
      → sender_loop Scan getopt optind skip atoi fuel argv args scan
        ≡ returns (set_sender args opts)
  unfolding sender_loop
  sender_loop_lem zero argv args scan opts r a lt = absurd (omega arith)
  sender_loop_lem (suc fuel) argv args scan [] (ends e) a lt = rw (sender_loop, e) refl
  sender_loop_lem (suc fuel) argv args scan ((c, arg) ∷ opts) (option {s' = s'} e r) (a, b) lt =
      let later : (args : Args)
          → sender_loop Scan getopt optind skip atoi fuel argv args s'
            ≡ returns (set_sender args opts) =
        λ args. sender_loop_lem fuel argv args s' opts r b (omega arith) in
      elim a [
        | inl n ↦ rw (sender_loop, e, n) (later (record args { receiver_max = atoi arg }))
        | inr (inl (f, fits)) ↦
            let short : ltb (length arg) text_size ≡ true = ground (arith, fits) in
            rw (sender_loop, e, f, short) (later (record args { file_name = arg }))
        | inr (inr (inl g)) ↦
            rw (sender_loop, e, g) (later (record args { segment_size = atoi arg * 1000 }))
        | inr (inr (inr p)) ↦
            rw (sender_loop, e, p) (later (record args { this_port_num = atoi arg }))
      ]

  -- With ten arguments and the mode `s`, for known options, in any order and number, as `getopt`
  -- reports them, with file names that fit, and more fuel than options, `GetOptArgs` returns, and
  -- every variable has the value of the last option for it, the segment size in thousands.
  pub get_opt_args-Reports :
      (fuel : ℕ) (argv : List (List ℕ)) (args : Args) (scan scan' : Scan) (arg : List ℕ)
      (opts : List (ℕ × List ℕ))
      → length argv ≡ 10
      → getopt argv mode_spec scan ≡ some (b's', arg, scan')
      → Reports argv sender_spec scan' opts
      → All IsSenderOption opts
      → length opts < fuel
      → get_opt_args Scan getopt optind skip atoi fuel argv args scan
        ≡ returns (set_sender (record args { sflag = true }) opts)
  unfolding get_opt_args
  get_opt_args-Reports fuel argv args scan scan' arg opts ten e r a lt =
      rw (get_opt_args, e, ten)
        (sender_loop_lem fuel argv (record args { sflag = true }) scan' opts r a lt)

  -- The options of the receiver: an address with the port behind it, or its own port.
  pub data ReceiverOption : Type 0 where
    address : (ip port : List ℕ) → ReceiverOption
    own_port : (arg : List ℕ) → ReceiverOption

  -- Calls of `getopt` with the port behind an address skipped.
  pub data Receives (argv : List (List ℕ)) : Scan → List ReceiverOption → Type 0 where
    stops : {s : Scan} → getopt argv receiver_spec s ≡ none → Receives argv s []
    at_address :
        {s s' : Scan} {ip port : List ℕ} {opts : List ReceiverOption}
        → getopt argv receiver_spec s ≡ some (b'a', ip, s')
        → get_elem? argv (optind s') ≡ some port
        → length ip < text_size
        → Receives argv (skip s') opts
        → Receives argv s (address ip port ∷ opts)
    at_port :
        {s s' : Scan} {arg : List ℕ} {opts : List ReceiverOption}
        → getopt argv receiver_spec s ≡ some (b'p', arg, s')
        → Receives argv s' opts
        → Receives argv s (own_port arg ∷ opts)

  -- The value of the last option of a kind, or what stood there before.
  abbrev pub last_address : List ℕ × ℕ → List ReceiverOption → List ℕ × ℕ
  last_address before [] = before
  last_address before (address ip port ∷ opts) = last_address (ip, atoi port) opts
  last_address before (own_port arg ∷ opts) = last_address before opts

  abbrev pub last_port : ℕ → List ReceiverOption → ℕ
  last_port before [] = before
  last_port before (address ip port ∷ opts) = last_port before opts
  last_port before (own_port arg ∷ opts) = last_port (atoi arg) opts

  abbrev pub set_receiver : Args → List ReceiverOption → Args
  set_receiver args opts = record args {
    sender_address = (last_address (args.sender_address, args.sender_port_num) opts).0;
    sender_port_num = (last_address (args.sender_address, args.sender_port_num) opts).1;
    this_port_num = last_port args.this_port_num opts;
  }

  receiver_loop_lem :
      (fuel : ℕ) (argv : List (List ℕ)) (args : Args) (scan : Scan) (opts : List ReceiverOption)
      → Receives argv scan opts
      → length opts < fuel
      → receiver_loop Scan getopt optind skip atoi fuel argv args scan
        ≡ returns (set_receiver args opts)
  unfolding receiver_loop
  receiver_loop_lem zero argv args scan opts r lt = absurd (omega arith)
  receiver_loop_lem (suc fuel) argv args scan [] (stops e) lt = rw (receiver_loop, e) refl
  receiver_loop_lem (suc fuel) argv args scan (address ip port ∷ opts)
        (at_address {s' = s'} e at fits r) lt =
      let short : ltb (length ip) text_size ≡ true = ground (arith, fits) in
      rw (receiver_loop, e, at, short)
        (receiver_loop_lem fuel argv
          (record args { sender_address = ip; sender_port_num = atoi port }) (skip s') opts r
          (omega arith))
  receiver_loop_lem (suc fuel) argv args scan (own_port arg ∷ opts) (at_port {s' = s'} e r) lt =
      rw (receiver_loop, e)
        (receiver_loop_lem fuel argv (record args { this_port_num = atoi arg }) s' opts r
          (omega arith))

  -- With seven arguments and the mode `r`, for addresses that fit with a port behind them and own
  -- ports, in any order, as `getopt` reports them with the port skipped, and more fuel than
  -- options, `GetOptArgs` returns, and every variable has the value of the last option for it.
  pub get_opt_args-Receives :
      (fuel : ℕ) (argv : List (List ℕ)) (args : Args) (scan scan' : Scan) (arg : List ℕ)
      (opts : List ReceiverOption)
      → length argv ≡ 7
      → getopt argv mode_spec scan ≡ some (b'r', arg, scan')
      → Receives argv scan' opts
      → length opts < fuel
      → get_opt_args Scan getopt optind skip atoi fuel argv args scan
        ≡ returns (set_receiver (record args { rflag = true }) opts)
  unfolding get_opt_args
  get_opt_args-Receives fuel argv args scan scan' arg opts seven e r lt =
      rw (get_opt_args, e, seven)
        (receiver_loop_lem fuel argv (record args { rflag = true }) scan' opts r lt)
