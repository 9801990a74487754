-- ===== src/Accept/Prompt.antt =====
-- Threads that read their socket before the next client is accepted (search_server.c,
-- multiple_access_serv.c).
use mathlib.Core.Option.{some-injective}
use network_camp.Prelude.{
  ℕ, suc, ◌+◌, ◌-◌, some, List, [], ◌∷◌, ◌++◌, ◌≡◌, refl, ap, ap₂, sym, ◌∙◌, arith, ltb, length,
  length-append, map, map-append, set, set-append, take, take-append, append_assoc, append-nil, All,
  Bool-cases, inl, inr,
}
use network_camp.Search.Clients.{Clients, max_clnt, registered, add_client}
use network_camp.Accept.{
  Main, accepting, registering, creating, Thread, starts, serves, ended, Acceptor, Step, accept,
  register, create, read_arg, leave, Steps, here, next, zeros, begin,
}

abbrev pub IsServing : Thread → Type 0
IsServing starts = ⊥
IsServing (serves sock) = Unit
IsServing ended = ⊥

-- No client is accepted while a thread has not read its socket, and none has gone.
abbrev pub IsPrompt : {a b : Acceptor} → Steps a b → Type 0
IsPrompt here = Unit
IsPrompt (next {b = b} r (accept sock coming m e)) = IsPrompt r × All IsServing b.threads
IsPrompt (next r (register c m e)) = IsPrompt r
IsPrompt (next r (create m)) = IsPrompt r
IsPrompt (next r (read_arg pre post e)) = IsPrompt r
IsPrompt (next r (leave pre post sock e)) = ⊥

-- The socket that a thread serves or will read as things stand.
abbrev pub view : ℕ → Thread → ℕ
view clnt_sock starts = clnt_sock
view clnt_sock (serves sock) = sock
view clnt_sock ended = 0

-- The clients accepted and handed to a thread, and the one that `main` has in hand.
abbrev in_hand : Main → ℕ → List ℕ
in_hand accepting sock = []
in_hand registering sock = sock ∷ []
in_hand creating sock = sock ∷ []

abbrev entered : Main → ℕ → List ℕ
entered accepting sock = []
entered registering sock = []
entered creating sock = sock ∷ []

record Inv (all : List ℕ) (a : Acceptor) : Type 0 where
  handed : List ℕ
  every : handed ++ (in_hand a.main a.clnt_sock ++ a.coming) ≡ all
  views : map (view a.clnt_sock) a.threads ≡ handed
  count : a.clients.cnt ≡ length (handed ++ entered a.main a.clnt_sock)
  array :
      a.clients.socks
      ≡ (handed ++ entered a.main a.clnt_sock)
        ++ zeros (max_clnt - length (handed ++ entered a.main a.clnt_sock))

view_serving : (x y : ℕ) (ts : List Thread) → All IsServing ts → map (view x) ts ≡ map (view y) ts
view_serving x y [] a = refl
view_serving x y (starts ∷ ts) a = elim a.0 [ ]
view_serving x y (ended ∷ ts) a = elim a.0 [ ]
view_serving x y (serves sock ∷ ts) a = ap (◌∷◌ sock) (view_serving x y ts a.1)

view_read :
    (x : ℕ) (pre post : List Thread)
    → map (view x) (pre ++ serves x ∷ post) ≡ map (view x) (pre ++ starts ∷ post)
view_read x [] post = refl
view_read x (t ∷ pre) post = ap (◌∷◌ (view x t)) (view_read x pre post)

-- The array with one client more.
pub register_lem :
    (handed : List ℕ) (clients c : Clients) (sock : ℕ)
    → clients.cnt ≡ length handed
    → clients.socks ≡ handed ++ zeros (max_clnt - length handed)
    → add_client clients sock ≡ some c
    → (c.cnt ≡ length (handed ++ sock ∷ []))
      × (c.socks ≡ (handed ++ sock ∷ []) ++ zeros (max_clnt - length (handed ++ sock ∷ [])))
unfolding add_client
register_lem handed clients c sock n s e = elim (Bool-cases (ltb clients.cnt max_clnt)) [
  | inr full ↦ cc (rw full at e)
  | inl room ↦
      let same = some-injective _ c (rw room at e) in
      let len = length-append handed (sock ∷ []) in
      let left = max_clnt - (length handed + 1) in
      let slots : max_clnt - length handed ≡ suc left = ground (arith, n) in
      (
        ap (λ (x : Clients). x.cnt) (sym same) ∙ omega (arith, n, len),
        ap (λ (x : Clients). x.socks) (sym same)
            ∙ ap (λ l. set l clients.cnt sock) (s ∙ ap (λ k. handed ++ zeros k) slots)
            ∙ set-append handed (zeros left) clients.cnt 0 sock (sym n)
            ∙ sym (append_assoc handed (sock ∷ []) (zeros left))
            ∙ ap (λ k. (handed ++ sock ∷ []) ++ zeros (max_clnt - k)) {x = length handed + 1}
                {y = length (handed ++ sock ∷ [])} (omega (arith, len)),
      )
]

Step-Inv :
    (all : List ℕ) {a b c : Acceptor} (r : Steps a b) (st : Step b c)
    → IsPrompt (next r st)
    → Inv all b
    → Inv all c
Step-Inv all {b = b} r (accept sock coming m e) p h =
    let none_left = ap (λ x. in_hand x b.clnt_sock) m in
    let none_in = ap (λ x. h.handed ++ entered x b.clnt_sock) m in
    record {
      handed = h.handed;
      every = ap (λ l. h.handed ++ l) (sym (ap₂ (◌++◌) none_left e)) ∙ h.every;
      views = view_serving sock b.clnt_sock b.threads p.1 ∙ h.views;
      count = h.count ∙ ap (length {0}) none_in;
      array = h.array ∙ ap (λ l. l ++ zeros (max_clnt - length l)) none_in;
    }
Step-Inv all {b = b} r (register c m e) p h =
    let in_main = ap (λ x. in_hand x b.clnt_sock) m in
    let none_in = ap (λ x. h.handed ++ entered x b.clnt_sock) m ∙ append-nil h.handed in
    let (count, array) =
      register_lem h.handed b.clients c b.clnt_sock (h.count ∙ ap (length {0}) none_in)
        (h.array ∙ ap (λ l. l ++ zeros (max_clnt - length l)) none_in) e in
    record {
      handed = h.handed;
      every = ap (λ l. h.handed ++ (l ++ b.coming)) (sym in_main) ∙ h.every;
      views = h.views;
      count = count;
      array = array;
    }
Step-Inv all {b = b} r (create m) p h =
    let in_main = ap (λ x. in_hand x b.clnt_sock) m in
    let whole =
      ap (λ x. h.handed ++ entered x b.clnt_sock) m
      ∙ sym (append-nil (h.handed ++ b.clnt_sock ∷ [])) in
    record {
      handed = h.handed ++ b.clnt_sock ∷ [];
      every =
          append_assoc h.handed (b.clnt_sock ∷ []) b.coming
          ∙ ap (λ l. h.handed ++ (l ++ b.coming)) (sym in_main)
          ∙ h.every;
      views =
          map-append (view b.clnt_sock) b.threads (starts ∷ [])
          ∙ ap (λ l. l ++ b.clnt_sock ∷ []) h.views;
      count = h.count ∙ ap (length {0}) whole;
      array = h.array ∙ ap (λ l. l ++ zeros (max_clnt - length l)) whole;
    }
Step-Inv all {b = b} r (read_arg pre post e) p h = record {
  handed = h.handed;
  every = h.every;
  views = view_read b.clnt_sock pre post ∙ ap (map (view b.clnt_sock)) (sym e) ∙ h.views;
  count = h.count;
  array = h.array;
}
Step-Inv all r (leave pre post sock e) p h = elim p [ ]

begin-Inv : (all : List ℕ) → Inv all (begin all)
begin-Inv all = record { handed = []; every = refl; views = refl; count = refl; array = refl }

Steps-Inv : (all : List ℕ) {a : Acceptor} (r : Steps (begin all) a) → IsPrompt r → Inv all a
Steps-Inv all here p = begin-Inv all
Steps-Inv all (next r (accept sock coming m e)) p =
    Step-Inv all r (accept sock coming m e) p (Steps-Inv all r p.0)
Steps-Inv all (next r (register c m e)) p = Step-Inv all r (register c m e) p (Steps-Inv all r p)
Steps-Inv all (next r (create m)) p = Step-Inv all r (create m) p (Steps-Inv all r p)
Steps-Inv all (next r (read_arg pre post e)) p =
    Step-Inv all r (read_arg pre post e) p (Steps-Inv all r p)
Steps-Inv all (next r (leave pre post sock e)) p = elim p [ ]

serving_views : (x : ℕ) (ts : List Thread) → All IsServing ts → ts ≡ map serves (map (view x) ts)
serving_views x [] a = refl
serving_views x (starts ∷ ts) a = elim a.0 [ ]
serving_views x (ended ∷ ts) a = elim a.0 [ ]
serving_views x (serves sock ∷ ts) a = ap (◌∷◌ (serves sock)) (serving_views x ts a.1)

-- When no client was accepted while a thread had not read its socket, and none has left, then once
-- `main` is in `accept` and every thread serves a socket, the threads serve the clients that were
-- accepted, one each and in their order, the same clients are registered, and the others are still
-- to come.
pub threads-IsPrompt :
    (all : List ℕ) (a : Acceptor) (r : Steps (begin all) a)
    → IsPrompt r
    → a.main ≡ accepting
    → All IsServing a.threads
    → (handed : List ℕ) × (handed ++ a.coming ≡ all)
      × (a.threads ≡ map serves handed)
      × (registered a.clients ≡ handed)
threads-IsPrompt all a r p m s =
    let h = Steps-Inv all r p in
    let idle = ap (λ x. in_hand x a.clnt_sock) m in
    let whole = ap (λ x. h.handed ++ entered x a.clnt_sock) m ∙ append-nil h.handed in
    let held = h.handed in
    (
      held,
      ap (λ l. held ++ (l ++ a.coming)) (sym idle) ∙ h.every,
      serving_views a.clnt_sock a.threads s ∙ ap (map serves) h.views,
      ap₂ take (h.count ∙ ap (length {0}) whole)
            (h.array ∙ ap (λ l. l ++ zeros (max_clnt - length l)) whole)
          ∙ take-append held (zeros (max_clnt - length held)) (length held) refl,
    )
