-- ===== src/P2p/Connecting/Ready.antt =====
-- What the connecting threads come to (p2p.c).
use mathlib.Core.List.{Permᴰ}
use mathlib.Core.List.Permᴰ
use mathlib.Core.Option.{some-injective}
use network_camp.Prelude.{
  ℕ, ◌+◌, ◌-◌, ◌≤◌, ◌<◌, true, some, List, [], ◌∷◌, ◌++◌, ◌≡◌, refl, ap, sym, ◌∙◌, subst,
  append_assoc, append-nil, arith, ltb, leb, length, length-append, Bool-cases, inl, inr, ◌⊎◌,
}
use network_camp.P2p.Connecting.{
  Sockets, Connector, busy, done, save_sock, signal_ready, advance, Pair, Step, conn_receiver,
  accpt_receiver, wait, Steps, here, next, begin,
}

-- What a thread still stores, and whether it has ended.
abbrev pub left : Connector → ℕ
left (busy socks) = length socks
left done = 0

abbrev pub running : Connector → ℕ
running (busy socks) = 1
running done = 0

-- The threads store as many sockets as there is room for, and the last one to end signals.
pub record Inv (max : ℕ) (g : Sockets) (c d : Connector) : Type 0 where
  pub sized : g.receiver_max ≡ max
  pub written : length g.recv_sock_array ≡ g.current_receiver_cnt
  pub counted : g.current_receiver_cnt + left c + left d ≡ max
  pub signalled : running c + running d ≡ 0 → 0 < g.signals

idle-left : (c : Connector) → running c ≡ 0 → left c ≡ 0
idle-left (busy socks) h = absurd (omega arith)
idle-left done h = refl

pub Inv-swap : (max : ℕ) (g : Sockets) (c d : Connector) → Inv max g c d → Inv max g d c
Inv-swap max g c d h = record {
  sized = h.sized;
  written = h.written;
  counted = omega (arith, h.counted);
  signalled = λ idle. h.signalled (omega (arith, idle));
}

pub advance-Inv :
    (max : ℕ) (g g' : Sockets) (c c' d : Connector)
    → Inv max g c d
    → advance g c ≡ some (g', c')
    → Inv max g' c' d
unfolding advance save_sock signal_ready
advance-Inv max g g' done c' d h e = cc
advance-Inv max g g' (busy []) c' d h e =
    let same = some-injective _ _ e in
    elim (Bool-cases (leb g.receiver_max g.current_receiver_cnt)) [
      | inl all ↦
          subst (λ (x : Sockets × Connector). Inv max x.0 x.1 d) (rw all at same)
            (record {
              sized = h.sized;
              written = h.written;
              counted = omega (arith, h.counted);
              signalled = λ idle. omega arith;
            })
      | inr some_left ↦
          subst (λ (x : Sockets × Connector). Inv max x.0 x.1 d) (rw some_left at same)
            (record {
              sized = h.sized;
              written = h.written;
              counted = omega (arith, h.counted);
              signalled = λ idle. absurd (
                  ground (arith, some_left, h.sized, h.counted, idle-left d (omega (arith, idle))));
            })
    ]
advance-Inv max g g' (busy (s ∷ ss)) c' d h e =
    elim (Bool-cases (ltb g.current_receiver_cnt g.receiver_max)) [
      | inr full ↦ cc (rw full at e)
      | inl room ↦
          subst (λ (x : Sockets × Connector). Inv max x.0 x.1 d) (some-injective _ _ (rw room at e))
            (record {
              sized = h.sized;
              written = omega (arith, length-append g.recv_sock_array (s ∷ []), h.written);
              counted = omega (arith, h.counted);
              signalled = λ idle. absurd (omega (arith, idle));
            })
    ]

Step-Inv :
    (max : ℕ) {p q : Pair}
    → Step p q
    → Inv max p.sockets p.conn p.accpt
    → Inv max q.sockets q.conn q.accpt
Step-Inv max {p} (conn_receiver g c e) h = advance-Inv max p.sockets g p.conn c p.accpt h e
Step-Inv max {p} (accpt_receiver g c e) h =
    Inv-swap max g c p.conn
      (advance-Inv max p.sockets g p.accpt c p.conn (Inv-swap max p.sockets p.conn p.accpt h) e)
Step-Inv max (wait e) h = record {
  sized = h.sized;
  written = h.written;
  counted = h.counted;
  signalled = h.signalled;
}

-- What a thread still has to store.
abbrev pub to_store : Connector → List ℕ
to_store (busy socks) = socks
to_store done = []

-- The sockets of both threads are those in the array and those that are to come.
module _ (all : List ℕ) where
  abbrev Kept : Sockets → Connector → Connector → Type 0
  Kept g c d = Permᴰ all (g.recv_sock_array ++ (to_store c ++ to_store d))

  Kept-swap : (g : Sockets) (c d : Connector) → Kept g c d → Kept g d c
  Kept-swap g c d h =
      Permᴰ.trans h
        (Permᴰ.append_left g.recv_sock_array (Permᴰ.append_comm (to_store c) (to_store d)))

  advance-Kept :
      (g g' : Sockets) (c c' d : Connector)
      → Kept g c d
      → advance g c ≡ some (g', c')
      → Kept g' c' d
  unfolding advance save_sock signal_ready
  advance-Kept g g' done c' d h e = cc
  advance-Kept g g' (busy []) c' d h e =
      let same = some-injective _ _ e in
      elim (Bool-cases (leb g.receiver_max g.current_receiver_cnt)) [
        | inl all_there ↦
            subst (λ (x : Sockets × Connector). Kept x.0 x.1 d) (rw all_there at same) h
        | inr some_left ↦
            subst (λ (x : Sockets × Connector). Kept x.0 x.1 d) (rw some_left at same) h
      ]
  advance-Kept g g' (busy (s ∷ ss)) c' d h e =
      elim (Bool-cases (ltb g.current_receiver_cnt g.receiver_max)) [
        | inr full ↦ cc (rw full at e)
        | inl room ↦
            subst (λ (x : Sockets × Connector). Kept x.0 x.1 d) (some-injective _ _ (rw room at e))
              (subst (Permᴰ all) (sym (append_assoc g.recv_sock_array (s ∷ []) (ss ++ to_store d)))
                h)
      ]

  Step-Kept :
      {p q : Pair} → Step p q → Kept p.sockets p.conn p.accpt → Kept q.sockets q.conn q.accpt
  Step-Kept {p} (conn_receiver g c e) h = advance-Kept p.sockets g p.conn c p.accpt h e
  Step-Kept {p} (accpt_receiver g c e) h =
      Kept-swap g c p.conn
        (advance-Kept p.sockets g p.accpt c p.conn (Kept-swap p.sockets p.conn p.accpt h) e)
  Step-Kept (wait e) h = h

  Steps-Kept :
      {p q : Pair} → Steps p q → Kept p.sockets p.conn p.accpt → Kept q.sockets q.conn q.accpt
  Steps-Kept here h = h
  Steps-Kept (next r st) h = Step-Kept st (Steps-Kept r h)

module _ (max : ℕ) (conn accpt : List ℕ) (fits : length conn + length accpt ≡ max) where
  pub reached : {p : Pair} → Steps (begin max conn accpt) p → Inv max p.sockets p.conn p.accpt
  reached here = record {
    sized = refl;
    written = refl;
    counted = omega (arith, fits);
    signalled = λ idle. absurd (omega (arith, idle));
  }
  reached (next r st) = Step-Inv max st (reached r)

-- A socket finds its place.
pub stores :
    (g : Sockets) (c d : Connector) (sock : ℕ) (socks : List ℕ) (max : ℕ)
    → Inv max g c d
    → c ≡ busy (sock ∷ socks)
    → (g' : Sockets) × (save_sock g sock ≡ some g') × (g'.waiter ≡ g.waiter)
unfolding save_sock
stores g c d sock socks max h e =
    let room : ltb g.current_receiver_cnt g.receiver_max ≡ true =
      ground (arith, h.sized, h.counted, ap left e) in
    (
      record g {
        recv_sock_array = g.recv_sock_array ++ sock ∷ [];
        current_receiver_cnt = g.current_receiver_cnt + 1;
      },
      rw room refl,
      refl,
    )

-- The bounds.
pub save_sock_fits :
    (receiver_max nth : ℕ) (conn accpt : List ℕ) (p : Pair) (sock : ℕ) (socks : List ℕ)
    → nth ≤ receiver_max
    → length conn ≡ receiver_max - nth
    → length accpt ≡ nth
    → Steps (begin receiver_max conn accpt) p
    → (p.conn ≡ busy (sock ∷ socks)) ⊎ (p.accpt ≡ busy (sock ∷ socks))
    → (g : Sockets) × (save_sock p.sockets sock ≡ some g)
save_sock_fits receiver_max nth conn accpt p sock socks le a b r (inl c) =
    let h = reached receiver_max conn accpt (omega (arith, a, b)) r in
    let (g, e, _) = stores p.sockets p.conn p.accpt sock socks receiver_max h c in (g, e)
save_sock_fits receiver_max nth conn accpt p sock socks le a b r (inr c) =
    let h = reached receiver_max conn accpt (omega (arith, a, b)) r in
    let (g, e, _) =
      stores p.sockets p.accpt p.conn sock socks receiver_max
        (Inv-swap receiver_max p.sockets p.conn p.accpt h) c in
    (g, e)

-- When a receiver gets `nth` connections from those in front of it, which are at most
-- `receiver_MAX`, and makes `receiver_MAX - nth` itself, then, in whatever order the steps
-- interleave, once both connecting threads have ended, `recv_sock_array` holds each of the sockets
-- of both threads once and nothing else, is full, and the wait for them was signalled.
pub ready-at_end :
    (receiver_max nth : ℕ) (conn accpt : List ℕ) (p : Pair)
    → nth ≤ receiver_max
    → length conn ≡ receiver_max - nth
    → length accpt ≡ nth
    → Steps (begin receiver_max conn accpt) p
    → p.conn ≡ done
    → p.accpt ≡ done
    → Permᴰ (conn ++ accpt) p.sockets.recv_sock_array
      × (length p.sockets.recv_sock_array ≡ receiver_max)
      × (0 < p.sockets.signals)
ready-at_end receiver_max nth conn accpt p le a b r c d =
    let h = reached receiver_max conn accpt (omega (arith, a, b)) r in
    (
      subst (Permᴰ (conn ++ accpt))
          (ap (◌++◌ p.sockets.recv_sock_array)
              (ap (λ x. to_store x ++ to_store p.accpt) c ∙ ap to_store d)
            ∙ append-nil p.sockets.recv_sock_array)
          (Steps-Kept (conn ++ accpt) r (Permᴰ.refl (conn ++ accpt))),
      omega (arith, h.written, h.counted, ap left c, ap left d),
      h.signalled (omega (arith, ap running c, ap running d)),
    )
