-- ===== src/P2p/Connecting/Lost.antt =====
-- An order of the steps in which the signal for accpt_snd_seg is lost (p2p.c).
use network_camp.Prelude.{
  ℕ, ◌+◌, ◌-◌, ◌≤◌, ◌<◌, some, List, [], ◌∷◌, ◌≡◌, refl, ap, ◌∙◌, arith, leb, length, Bool-cases,
  inl, inr, ◌>>=◌,
}
use network_camp.P2p.Connecting.{
  starting, waiting, wake, Sockets, Connector, busy, done, signal_ready, advance, Pair, Step,
  conn_receiver, accpt_receiver, wait, Steps, here, next, begin,
}
use network_camp.P2p.Connecting.Ready.{Inv, Inv-swap, advance-Inv, stores, reached}

Steps_append : {p q r : Pair} → Steps p q → Steps q r → Steps p r
Steps_append a here = a
Steps_append a (next b st) = next (Steps_append a b) st

-- A thread that runs to its end before anything else.
module _ (max : ℕ) (make : Sockets → Connector → Pair)
    (lift : (g g' : Sockets) (c c' : Connector)
      → advance g c ≡ some (g', c')
      → Step (make g c) (make g' c')) where
  drain :
      (socks : List ℕ) (g : Sockets) (d : Connector)
      → Inv max g (busy socks) d
      → g.waiter ≡ starting
      → (g' : Sockets) × Steps (make g (busy socks)) (make g' done)
        × (g'.waiter ≡ starting)
        × Inv max g' done d
  unfolding advance signal_ready
  drain [] g d h w =
      let one = advance-Inv max g (signal_ready g) (busy []) done d h refl in
      (signal_ready g, next here (lift g (signal_ready g) (busy []) done refl), still g w, one)
    where
      still : (g : Sockets) → g.waiter ≡ starting → (signal_ready g).waiter ≡ starting
      still g w = elim (Bool-cases (leb g.receiver_max g.current_receiver_cnt)) [
        | inl all ↦ rw all (ap wake w)
        | inr some_left ↦ rw some_left w
      ]
  drain (s ∷ socks) g d h w =
      let (t, e, idle) = stores g (busy (s ∷ socks)) d s socks max h refl in
      let first : advance g (busy (s ∷ socks)) ≡ some (t, busy socks) =
        ap (λ o. o >>= λ g'. some (g', busy socks)) e in
      let (g', runs, w', h') =
        drain socks t d (advance-Inv max g t (busy (s ∷ socks)) (busy socks) d h first)
          (idle ∙ w) in
      (g', Steps_append (next here (lift g t (busy (s ∷ socks)) (busy socks) first)) runs, w', h')

-- When a receiver gets `nth` connections from those in front of it, which are at most
-- `receiver_MAX`, and makes `receiver_MAX - nth` itself, there is an order of the steps after which
-- both threads have ended and signalled, `accpt_snd_seg` waits, and no step is possible any more:
-- the signal came before the wait.
pub snd_waits_for_ever :
    (receiver_max nth : ℕ) (conn accpt : List ℕ)
    → nth ≤ receiver_max
    → length conn ≡ receiver_max - nth
    → length accpt ≡ nth
    → (p : Pair) × Steps (begin receiver_max conn accpt) p
      × (p.sockets.waiter ≡ waiting)
      × (0 < p.sockets.signals)
      × ((q : Pair) → ¬ Step p q)
unfolding advance
snd_waits_for_ever receiver_max nth conn accpt le a b =
    let fits : length conn + length accpt ≡ receiver_max = omega (arith, a, b) in
    let first = begin receiver_max conn accpt in
    let (g, runs, w, h) =
      drain receiver_max (λ g c. record { sockets = g; conn = c; accpt = busy accpt })
        (λ g g' c c' e. conn_receiver g' c' e) conn first.sockets (busy accpt)
        (reached receiver_max conn accpt fits here) refl in
    let (g', runs', w', h') =
      drain receiver_max (λ g c. record { sockets = g; conn = done; accpt = c })
        (λ g g' c c' e. accpt_receiver g' c' e) accpt g done
        (Inv-swap receiver_max g done (busy accpt) h) w in
    (
      record { sockets = record g' { waiter = waiting }; conn = done; accpt = done },
      next (Steps_append runs runs') (wait w'),
      refl,
      h'.signalled refl,
      λ q s. stuck g' s,
    )
  where
    stuck :
        (g : Sockets) {q : Pair}
        → Step (record { sockets = record g { waiter = waiting }; conn = done; accpt = done }) q
        → ⊥
    stuck g (conn_receiver t c e) = cc
    stuck g (accpt_receiver t c e) = cc
    stuck g (wait e) = cc
