-- ===== src/Search/Clients.antt =====
-- The array `clnt_socks` of connected clients (search_server.c): `main` adds to it, `handle_clnt`
-- takes from it.
use mathlib.Core.Option.{some-injective}
use network_camp.Prelude.{
  append-nil, ℕ, zero, suc, ◌+◌, ◌-◌, false, Option, none, some, List, [], ◌∷◌, ◌++◌, ◌≡◌, ◌≢◌,
  refl, ap, ap₂, sym, ◌∙◌, arith, if◌then◌else◌, ◌==◌, ltb, length, get_or, set, take, append_assoc,
  length-append, set-append, get_or-append, take-append, All, Bool-cases, inl, inr, eq→==,
}

-- `MAX_CLNT`
abbrev pub max_clnt : ℕ
max_clnt = 256

-- `clnt_socks`, the whole array, and `clnt_cnt`.
pub record Clients : Type 0 where
  pub socks : List ℕ
  pub cnt : ℕ

-- The sockets that are registered.
abbrev pub registered : Clients → List ℕ
registered c = take c.cnt c.socks

-- `clnt_socks[clnt_cnt++] = clnt_sock`, between lock and unlock in `main`; `none` where the array is
-- full.
unfoldable pub add_client : Clients → ℕ → Option Clients
add_client c sock =
    if ltb c.cnt max_clnt
    then some (record { socks = set c.socks c.cnt sock; cnt = c.cnt + 1 })
    else none

-- `while (i++ < clnt_cnt - 1) clnt_socks[i] = clnt_socks[i + 1];` with `n` rounds to go. The read
-- at `clnt_cnt` in the last round is of a slot that holds no client; behind the array it reads 0.
unfoldable pub shift : ℕ → ℕ → List ℕ → List ℕ
shift zero i socks = socks
shift (suc n) i socks = shift n (suc i) (set socks (suc i) (get_or socks (suc (suc i)) 0))

-- The `for` loop that looks for the client, with `n` slots to go.
unfoldable pub find_and_shift : ℕ → ℕ → ℕ → List ℕ → List ℕ
find_and_shift zero i sock socks = socks
find_and_shift (suc n) i sock socks =
    let later = find_and_shift n (suc i) sock socks in
    if sock == get_or socks i 0 then shift n i socks else later

-- `handle_clnt` between lock and unlock, after the client has gone.
unfoldable pub remove_client : Clients → ℕ → Clients
unfolding find_and_shift shift
remove_client c sock = record { socks = find_and_shift c.cnt 0 sock c.socks; cnt = c.cnt - 1 }

-- When `main` adds a client, it stands registered behind the others.
pub registered-add_client :
    (clients rest : List ℕ) (old sock : ℕ) (c : Clients)
    → add_client (record { socks = clients ++ old ∷ rest; cnt = length clients }) sock ≡ some c
    → registered c ≡ clients ++ sock ∷ []
unfolding add_client
registered-add_client clients rest old sock c e =
    elim (Bool-cases (ltb (length clients) max_clnt)) [
      | inl room ↦
          let same = sym (some-injective _ c (rw (room, add_client) at e)) in
          ap registered same
          ∙ rw (set-append clients rest (length clients) old sock refl) (
              rw (← append_assoc clients (sock ∷ []) rest) (
                take-append (clients ++ sock ∷ []) rest (length clients + 1)
                  (length-append clients (sock ∷ []) ∙ omega arith)))
      | inr full ↦ cc (rw (full, add_client) at e)
    ]

shift_step :
    (front xs : List ℕ) (n t p i : ℕ)
    → length front ≡ suc i
    → shift (suc n) i (front ++ t ∷ p ∷ xs) ≡ shift n (suc i) ((front ++ p ∷ []) ++ p ∷ xs)
unfolding shift
shift_step front xs n t p i h = ap (shift n (suc i)) (
    ap (set (front ++ t ∷ p ∷ xs) (suc i)) (next front t i h)
    ∙ set-append front (p ∷ xs) (suc i) t p h
    ∙ sym (append_assoc front (p ∷ []) (p ∷ xs)))
  where
    next :
        (front : List ℕ) (t i : ℕ)
        → length front ≡ suc i
        → get_or (front ++ t ∷ p ∷ xs) (suc (suc i)) 0 ≡ p
    next front t i h = rw (← append_assoc front (t ∷ []) (p ∷ xs)) (
        get_or-append (front ++ t ∷ []) xs (suc (suc i)) p 0
          (length-append front (t ∷ []) ∙ omega arith))

-- The shift drops the client behind the one that is found.
shift_lem :
    (front post rest : List ℕ) (t i : ℕ)
    → length front ≡ suc i
    → take
        (length front + length post)
        (shift (suc (length post)) i (front ++ ((t ∷ post) ++ rest)))
      ≡ front ++ post
shift_lem front [] rest t i h =
    unfold shift in
    ap (take (length front + 0))
      (set-append front rest (suc i) t (get_or (front ++ t ∷ rest) (suc (suc i)) 0) h)
    ∙ take-append front (get_or (front ++ t ∷ rest) (suc (suc i)) 0 ∷ rest) (length front + 0)
        (omega arith)
    ∙ sym (append-nil front)
shift_lem front (p ∷ post) rest t i h =
    rw (shift_step front (post ++ rest) (suc (length post)) t p i h) (
      ap
        (λ n.
          take n (shift (suc (length post)) (suc i) ((front ++ p ∷ []) ++ ((p ∷ post) ++ rest))))
        (omega (arith, length-append front (p ∷ [])))
      ∙ shift_lem (front ++ p ∷ []) post rest p (suc i) (length-append front (p ∷ []) ∙ omega arith)
      ∙ append_assoc front (p ∷ []) post)

-- The search stops at the first slot that holds the socket.
find_and_shift_lem :
    (cnt : ℕ) (front pre xs : List ℕ) (sock n i : ℕ)
    → cnt ≡ length pre + suc n
    → length front ≡ i
    → All (λ s. sock ≢ s) pre
    → find_and_shift cnt i sock (front ++ (pre ++ sock ∷ xs))
      ≡ shift n (i + length pre) (front ++ (pre ++ sock ∷ xs))
unfolding find_and_shift
find_and_shift_lem zero front pre xs sock n i c h a = absurd (omega arith)
find_and_shift_lem (suc cnt) front [] xs sock n i c h a =
    rw (get_or-append front xs i sock 0 h, eq→== sock sock refl)
      (ap₂ (λ k j. shift k j (front ++ sock ∷ xs)) (omega arith) (omega arith))
find_and_shift_lem (suc cnt) front (p ∷ pre) xs sock n i c h a =
    let other : (sock == p) ≡ false = ground (arith, a.0) in
    rw (get_or-append front (pre ++ sock ∷ xs) i p 0 h, other)
      (ap (find_and_shift cnt (suc i) sock) (sym (append_assoc front (p ∷ []) (pre ++ sock ∷ xs)))
        ∙ find_and_shift_lem cnt (front ++ p ∷ []) pre xs sock n (suc i) (omega arith)
            (length-append front (p ∷ []) ∙ omega arith) a.1
        ∙ ap₂ (shift n) (omega arith) (append_assoc front (p ∷ []) (pre ++ sock ∷ xs)))

-- When the client that leaves is the last one registered and no other slot in front holds its
-- socket, the others stay registered as they are.
pub registered-remove_last :
    (pre rest : List ℕ) (sock : ℕ)
    → All (λ s. sock ≢ s) pre
    → registered (remove_client (record { socks = pre ++ sock ∷ rest; cnt = length pre + 1 }) sock)
      ≡ pre
unfolding remove_client
registered-remove_last pre rest sock a =
    ap (take (length pre + 1 - 1))
      (find_and_shift_lem (length pre + 1) [] pre rest sock 0 0 (omega arith) refl a)
    ∙ take-append pre (sock ∷ rest) (length pre + 1 - 1) (omega arith)

inner :
    (pre post rest : List ℕ) (sock next : ℕ)
    → All (λ s. sock ≢ s) pre
    → take (length pre + (2 + length post) - 1) (
        find_and_shift
          (length pre + (2 + length post))
          0
          sock
          (pre ++ sock ∷ next ∷ (post ++ rest)))
      ≡ pre ++ sock ∷ post
inner pre post rest sock next a =
    ap₂ take {x = length pre + (2 + length post) - 1} {y = length (pre ++ sock ∷ []) + length post}
      (omega (arith, length-append pre (sock ∷ [])))
      (find_and_shift_lem (length pre + (2 + length post)) [] pre (next ∷ (post ++ rest)) sock
          (suc (length post)) 0 (omega arith) refl a
        ∙ ap (shift (suc (length post)) (0 + length pre))
            (sym (append_assoc pre (sock ∷ []) (next ∷ (post ++ rest)))))
    ∙ shift_lem (pre ++ sock ∷ []) post rest next (0 + length pre)
        (length-append pre (sock ∷ []) ∙ omega arith)
    ∙ append_assoc pre (sock ∷ []) post

-- When a client leaves whose socket no slot in front of it holds and another client stands behind
-- it, the one that leaves stays registered and the next one is forgotten in its place.
pub registered-remove_inner :
    (pre post rest : List ℕ) (sock next : ℕ)
    → All (λ s. sock ≢ s) pre
    → registered (
        remove_client
          (record {
            socks = pre ++ (sock ∷ next ∷ (post ++ rest));
            cnt = length pre + (2 + length post);
          })
          sock)
      ≡ pre ++ sock ∷ post
unfolding remove_client
registered-remove_inner pre post rest sock next a = inner pre post rest sock next a
