-- ===== src/Search/Serving.antt =====
-- The loop of `handle_clnt` over the requests of a client (search_server.c), and what it writes to the
-- connection.
use network_camp.Prelude.{
  true, false, ◌&&◌, ℕ, ◌+◌, ◌<◌, ◌≢◌, ◌≡◌, refl, arith, Option, none, some, List, [], ◌∷◌, ◌++◌,
  if◌then◌else◌, ◌==◌, ltb, length, map, All, ◌>>=◌,
}
use network_camp.Trie.{Word, copies_fit}
use network_camp.Search.Data.{Reading, to_lower}
use network_camp.Search.Engine.{Reply, search_engine}

-- What `write` puts on the connection: the count, or a structure.
pub data Item : Type 0 where
  count : ℕ → Item
  entry : Word → Item

abbrev pub items : Reply → List Item
items reply = count reply.count ∷ map entry reply.sent

-- The sizes of `msg` and of `client_request`.
abbrev pub msg_size : ℕ
msg_size = 100

abbrev pub request_size : ℕ
request_size = 64

-- A string in an array: up to the terminator.
unfoldable pub c_string : List ℕ → List ℕ
c_string [] = []
c_string (c ∷ cs) = let rest = c_string cs in if c == 0 then [] else c ∷ rest

-- The loop of `handle_clnt`, with what each `read` returns, from the `j`-th on; `word j` is the array
-- `word` of the `j`-th call of `SearchEngine`, which is not initialised. `read` returns nothing
-- where the client has left. `none` for a write behind `msg`, `client_request` or a `word` of
-- `found_array` or `temp_array`.
unfoldable pub serve : Reading → (ℕ → List ℕ) → ℕ → List (List ℕ) → Option (List Item)
unfolding c_string
serve r word j [] = some []
serve r word j ([] ∷ reads) = some []
serve r word j ((c ∷ text) ∷ reads) =
    let msg = c ∷ text in
    let request = c_string msg in
    let later = serve r word (j + 1) reads in
    if ltb (length msg) msg_size
    then (if ltb (length request) request_size && copies_fit (to_lower request) r.root (word j)
        then (later >>= λ rest. some (items (search_engine r (word j) request) ++ rest))
        else none)
    else none

-- A request that is read as it was written: not empty, no terminator in it, and not too long.
abbrev pub IsRequest : List ℕ → Type 0
IsRequest request =
    All (λ (c : ℕ). c ≢ 0) request × (0 < length request) × (length request < request_size)

c_string-text : (text : List ℕ) → All (λ (c : ℕ). c ≢ 0) text → c_string text ≡ text
unfolding c_string
c_string-text [] a = refl
c_string-text (c ∷ text) a =
    let inside : (c == 0) ≡ false = ground (arith, a.0) in rw (inside, c_string-text text a.1) refl

-- The answers, one after the other.
abbrev pub answers : Reading → (ℕ → List ℕ) → ℕ → List (List ℕ) → List Reply
answers r word j [] = []
answers r word j (request ∷ requests) =
    search_engine r (word j) request ∷ answers r word (j + 1) requests

abbrev pub all_items : List Reply → List Item
all_items [] = []
all_items (reply ∷ replies) = items reply ++ all_items replies

-- Whether the copies of each request fit.
abbrev pub CopiesFit : Reading → (ℕ → List ℕ) → ℕ → List (List ℕ) → Type 0
CopiesFit r word j [] = Unit
CopiesFit r word j (request ∷ requests) =
    (copies_fit (to_lower request) r.root (word j) ≡ true) × CopiesFit r word (j + 1) requests

-- Each request is answered.
pub serve-answers :
    (r : Reading) (word : ℕ → List ℕ) (j : ℕ) (requests : List (List ℕ))
    → All IsRequest requests
    → CopiesFit r word j requests
    → serve r word j requests ≡ some (all_items (answers r word j requests))
unfolding serve
serve-answers r word j [] a fit = refl
serve-answers r word j ([] ∷ requests) ((text, pos, short), a) fit = absurd (omega arith)
serve-answers r word j ((c ∷ cs) ∷ requests) ((text, pos, short), a) fit =
    let request = c ∷ cs in
    let whole = c_string-text request text in
    let t1 : ltb (length request) msg_size ≡ true = ground (arith, short) in
    let t2 : ltb (length request) request_size ≡ true = ground (arith, short) in
    rw (whole, t1, t2, fit.0, serve-answers r word (j + 1) requests a fit.1) refl
