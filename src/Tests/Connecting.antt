-- ===== src/Tests/Connecting.antt =====
-- The theorems on the connecting threads of p2p.c at work: the second of three receivers.
use mathlib.Core.List.{Permᴰ}
use network_camp.Prelude.{[], ◌∷◌, ◌≡◌, refl, arith, ◌<◌, length}
use network_camp.P2p.Connecting.{
  waiting, done, save_sock, signal_ready, advance, Pair, Step, conn_receiver, accpt_receiver, Steps,
  here, next, begin,
}
use network_camp.P2p.Connecting.Ready.{ready-at_end}
use network_camp.P2p.Connecting.Lost.{snd_waits_for_ever}

-- The accepting thread ends first.
run : (p : Pair) × Steps (begin 2 (8 ∷ []) (9 ∷ [])) p × (p.conn ≡ done) × (p.accpt ≡ done)
unfolding advance save_sock signal_ready
run =
    let a1 = next here (accpt_receiver _ _ refl) in
    let a2 = next a1 (accpt_receiver _ _ refl) in
    let a3 = next a2 (conn_receiver _ _ refl) in (_, next a3 (conn_receiver _ _ refl), refl, refl)

ready-at_end_example :
    Permᴰ (8 ∷ 9 ∷ []) run.0.sockets.recv_sock_array
    × (length run.0.sockets.recv_sock_array ≡ 2)
    × (0 < run.0.sockets.signals)
ready-at_end_example =
    ready-at_end 2 1 (8 ∷ []) (9 ∷ []) run.0 (omega arith) refl refl run.1 run.2 run.3

snd_waits_for_ever_example :
    (p : Pair) × Steps (begin 2 (8 ∷ []) (9 ∷ [])) p
    × (p.sockets.waiter ≡ waiting)
    × (0 < p.sockets.signals)
    × ((q : Pair) → ¬ Step p q)
snd_waits_for_ever_example = snd_waits_for_ever 2 1 (8 ∷ []) (9 ∷ []) (omega arith) refl refl
