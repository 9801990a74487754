-- ===== src/P2p/Connecting.antt =====
-- The threads that connect the receivers of p2p.c, conn_receiver and accpt_receiver, interleaved in any
-- order, and the wait of accpt_snd_seg for them. What is between lock and unlock is one step. A wake-up
-- without a signal is not modelled.
pub mod Ready
pub mod Lost
use network_camp.Prelude.{
  ℕ, ◌+◌, Option, none, some, List, [], ◌∷◌, ◌++◌, ◌≡◌, if◌then◌else◌, ltb, leb, ◌>>=◌,
}

-- `accpt_snd_seg` before `pthread_cond_wait`, in it, and behind it.
pub data Waiter : Type 0 where
  starting waiting woken : Waiter

-- The globals; `recv_sock_array` as far as it was written.
pub record Sockets : Type 0 where
  pub receiver_max : ℕ
  pub recv_sock_array : List ℕ
  pub current_receiver_cnt : ℕ
  pub signals : ℕ
  pub waiter : Waiter

-- A connecting thread: in its loop, with the sockets that it gets yet, or at its end.
pub data Connector : Type 0 where
  busy : (socks : List ℕ) → Connector
  done : Connector

-- `recv_sock_array[current_receiver_cnt++] = sock`; `none` behind the array.
unfoldable pub save_sock : Sockets → ℕ → Option Sockets
save_sock g sock =
    if ltb g.current_receiver_cnt g.receiver_max
    then some (record g {
      recv_sock_array = g.recv_sock_array ++ sock ∷ [];
      current_receiver_cnt = g.current_receiver_cnt + 1;
    })
    else none

-- `pthread_cond_signal(&cond)`
abbrev pub wake : Waiter → Waiter
wake starting = starting
wake waiting = woken
wake woken = woken

-- The test behind the loop.
unfoldable pub signal_ready : Sockets → Sockets
signal_ready g =
    if leb g.receiver_max g.current_receiver_cnt
    then record g { signals = g.signals + 1; waiter = wake g.waiter }
    else g

-- The next step of a connecting thread; `none` at its end, and for a socket behind the array.
unfoldable pub advance : Sockets → Connector → Option (Sockets × Connector)
advance g (busy (sock ∷ socks)) = save_sock g sock >>= λ g'. some (g', busy socks)
advance g (busy []) = some (signal_ready g, done)
advance g done = none

-- The globals with both threads.
pub record Pair : Type 0 where
  pub sockets : Sockets
  pub conn : Connector
  pub accpt : Connector

pub data Step (p : Pair) : Pair → Type 0 where
  conn_receiver :
      (g : Sockets) (c : Connector)
      → advance p.sockets p.conn ≡ some (g, c)
      → Step p (record { sockets = g; conn = c; accpt = p.accpt })
  accpt_receiver :
      (g : Sockets) (c : Connector)
      → advance p.sockets p.accpt ≡ some (g, c)
      → Step p (record { sockets = g; conn = p.conn; accpt = c })
  wait :
      p.sockets.waiter ≡ starting
      → Step p (record p { sockets = record p.sockets { waiter = waiting } })

pub data Steps (p : Pair) : Pair → Type 0 where
  here : Steps p p
  next : {q r : Pair} → Steps p q → Step q r → Steps p r

-- Both threads before their loops.
abbrev pub begin : ℕ → List ℕ → List ℕ → Pair
begin receiver_max conn accpt = record {
  sockets = record {
    receiver_max = receiver_max;
    recv_sock_array = [];
    current_receiver_cnt = 0;
    signals = 0;
    waiter = starting;
  };
  conn = busy conn;
  accpt = busy accpt;
}
