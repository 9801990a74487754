-- ===== src/P2p/Mesh.antt =====
-- Who connects to whom (p2p.c): `Wait_Receiver_Connection` at the sender, `Receive_Info`,
-- `conn_receiver` and `accpt_receiver` at a receiver.
pub mod Pairs
use network_camp.Prelude.{
  ℕ, zero, suc, ◌+◌, ◌-◌, ◌≤◌, ◌<◌, true, false, Option, none, some, List, [], ◌∷◌, ◌++◌, ◌≡◌, ◌≢◌,
  refl, ap, sym, ◌∙◌, arith, if◌then◌else◌, ◌==◌, ltb, leb, length, drop, append_assoc, append-nil,
  length-append, All, ◌>>=◌, length-map, drop-append, map,
}
use network_camp.P2p.{Receiver}

-- `Wait_Receiver_Connection`: the connections in the order in which they are accepted, each with the
-- structure that it sends and the address it comes from. The loop ends after `receiver_max` of them, or
-- waits for more (`none`).
unfoldable pub wait_connections : ℕ → ℕ → List (Receiver × ℕ) → Option (List Receiver)
wait_connections receiver_max current [] = none
wait_connections receiver_max current ((r, from) ∷ rest) =
    let entry = record r { address = from; nth_receiver = current } in
    let later = wait_connections receiver_max (current + 1) rest in
    if leb receiver_max (current + 1) then some (entry ∷ []) else later >>= λ rs. some (entry ∷ rs)

-- The globals that `Receive_Info` fills.
pub record Info : Type 0 where
  pub this_receiver : Option Receiver
  pub receiver_array : List Receiver

-- The loop of `Receive_Info` over the structures that the sender sends, `saved` of them so far, each read
-- as a whole: `receiver_main` has the reads that are not.
unfoldable pub receive_loop : ℕ → ℕ → ℕ → Info → List Receiver → Info
receive_loop this_port max_receiver_cnt saved info [] = info
receive_loop this_port max_receiver_cnt saved info (r ∷ rest) =
    let info' : Info =
      if r.port == this_port
      then record info { this_receiver = some r }
      else if ltb (length info.receiver_array) (max_receiver_cnt - 1)
      then record info { receiver_array = info.receiver_array ++ r ∷ [] }
      else info in
    let later = receive_loop this_port max_receiver_cnt (saved + 1) info' rest in
    if leb max_receiver_cnt (saved + 1) then info' else later

unfoldable pub receive_info : ℕ → ℕ → List Receiver → Info
unfolding receive_loop
receive_info this_port max_receiver_cnt sent =
    receive_loop this_port max_receiver_cnt 0 (record { this_receiver = none; receiver_array = [] })
      sent

-- `conn_receiver`: the receivers that this one connects to.
unfoldable pub connects_to : Receiver → Info → List Receiver
connects_to this info = drop this.nth_receiver info.receiver_array

-- `accpt_receiver`: the number of connections that this one accepts.
abbrev pub accepts : Receiver → ℕ
accepts this = this.nth_receiver

abbrev gathered : Option Receiver → List Receiver → Info
gathered this others = record { this_receiver = this; receiver_array = others }

module _ (port max : ℕ) where
  receive_other :
      (saved : ℕ) (this : Option Receiver) (others : List Receiver) (r : Receiver)
      (rest : List Receiver)
      → r.port ≢ port
      → saved + 1 < max
      → length others + 1 < max
      → receive_loop port max saved (gathered this others) (r ∷ rest)
        ≡ receive_loop port max (saved + 1) (gathered this (others ++ r ∷ [])) rest
  unfolding receive_loop
  receive_other saved this others r rest a lt room =
      let differs : (r.port == port) ≡ false = ground (arith, a) in
      let fits : ltb (length others) (max - 1) ≡ true = ground arith in
      let more : leb max (saved + 1) ≡ false = ground arith in rw (differs, fits, more)

  -- Structures of other receivers are appended.
  receive_others :
      (saved : ℕ) (this : Option Receiver) (others pre rest : List Receiver)
      → All (λ (r : Receiver). r.port ≢ port) pre
      → saved + length pre < max
      → length others + length pre < max
      → receive_loop port max saved (gathered this others) (pre ++ rest)
        ≡ receive_loop port max (saved + length pre) (gathered this (others ++ pre)) rest
  receive_others saved this others [] rest a lt room = rw append-nil (
      ap (λ n. receive_loop port max n (gathered this others) rest) {x = saved} {y = saved + 0}
        (omega arith))
  receive_others saved this others (r ∷ pre) rest a lt room =
      receive_other saved this others r (pre ++ rest) a.0 (omega arith) (omega arith)
      ∙ receive_others (saved + 1) this (others ++ r ∷ []) pre rest a.1 (omega arith)
          (omega (arith, length-append others (r ∷ [])))
      ∙ ap (λ l. receive_loop port max (saved + 1 + length pre) (gathered this l) rest)
          (append_assoc others (r ∷ []) pre)
      ∙ ap (λ n. receive_loop port max n (gathered this (others ++ r ∷ pre)) rest)
          {x = saved + 1 + length pre} {y = saved + suc (length pre)} (omega arith)

  -- The last structure ends the loop.
  receive_last :
      (saved : ℕ) (this : Option Receiver) (others : List Receiver) (r : Receiver)
      (rest : List Receiver)
      → r.port ≢ port
      → saved + 1 ≡ max
      → length others + 1 < max
      → receive_loop port max saved (gathered this others) (r ∷ rest)
        ≡ gathered this (others ++ r ∷ [])
  unfolding receive_loop
  receive_last saved this others r rest a eq room =
      let differs : (r.port == port) ≡ false = ground (arith, a) in
      let fits : ltb (length others) (max - 1) ≡ true = ground arith in
      let over : leb max (saved + 1) ≡ true = ground arith in rw (differs, fits, over)

  receive_tail :
      (saved : ℕ) (this : Option Receiver) (others : List Receiver) (r : Receiver)
      (post rest : List Receiver)
      → All (λ (q : Receiver). q.port ≢ port) (r ∷ post)
      → saved + length (r ∷ post) ≡ max
      → length others + length (r ∷ post) < max
      → receive_loop port max saved (gathered this others) ((r ∷ post) ++ rest)
        ≡ gathered this (others ++ r ∷ post)
  receive_tail saved this others r [] rest a eq room =
      receive_last saved this others r rest a.0 (omega arith) (omega arith)
  receive_tail saved this others r (q ∷ post) rest a eq room =
      receive_other saved this others r ((q ∷ post) ++ rest) a.0 (omega arith) (omega arith)
      ∙ receive_tail (saved + 1) this (others ++ r ∷ []) q post rest a.1 (omega arith)
          (omega (arith, length-append others (r ∷ [])))
      ∙ ap (gathered this) (append_assoc others (r ∷ []) (q ∷ post))

  receive_own :
      (saved : ℕ) (others : List Receiver) (own : Receiver) (post rest : List Receiver)
      → own.port ≡ port
      → All (λ (q : Receiver). q.port ≢ port) post
      → saved + 1 + length post ≡ max
      → length others + length post < max
      → receive_loop port max saved (gathered none others) (own ∷ (post ++ rest))
        ≡ gathered (some own) (others ++ post)
  unfolding receive_loop
  receive_own saved others own [] rest same a eq room =
      let same' : (own.port == port) ≡ true = ground arith in
      let over : leb max (saved + 1) ≡ true = ground arith in rw (same', over, append-nil)
  receive_own saved others own (q ∷ post) rest same a eq room =
      let same' : (own.port == port) ≡ true = ground arith in
      let more : leb max (saved + 1) ≡ false = ground arith in
      rw (same', more)
        (receive_tail (saved + 1) (some own) others q post rest a (omega arith) (omega arith))

-- When no other receiver has its port, `Receive_Info` finds its own structure among those that the
-- sender sends, keeps the others in their order, and leaves what follows in the connection.
pub receive_info-others :
    (pre post rest : List Receiver) (own : Receiver)
    → All (λ (r : Receiver). r.port ≢ own.port) pre
    → All (λ (r : Receiver). r.port ≢ own.port) post
    → receive_info own.port (length pre + 1 + length post) (pre ++ own ∷ (post ++ rest))
      ≡ record { this_receiver = some own; receiver_array = pre ++ post }
unfolding receive_info
receive_info-others pre post rest own a b =
    receive_others own.port (length pre + 1 + length post) 0 none [] pre (own ∷ (post ++ rest)) a
      (omega arith) (omega arith)
    ∙ receive_own own.port (length pre + 1 + length post) (0 + length pre) pre own post rest refl b
        (omega arith) (omega arith)
