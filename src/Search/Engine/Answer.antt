-- ===== src/Search/Engine/Answer.antt =====
-- What a client of the search server (search_server.c) is sent.
use mathlib.Core.List.{Memᴰ, Perm}
use mathlib.Core.List
use mathlib.Core.List.Perm
use native.Mathlib.Bridge.{from_ℕ}
use network_camp.Prelude.{
  ℕ, zero, suc, ◌<◌, true, some, List, [], ◌∷◌, ◌++◌, ◌≡◌, ◌≢◌, ◌↔◌, refl, ap, sym, ◌∙◌, map, arith,
  if◌then◌else◌, ltb, length, take, drop, take-append-drop, length-take, All, min,
}
use network_camp.Trie.{Word, copies_fit, find_match, complete_words}
use network_camp.Trie.Labels.{entries, word_counts}
use network_camp.Trie.Match.{sub_seq, hits}
use network_camp.Trie.Query.{query-eq-hits, mem-hits}
use network_camp.Trie.Shape.{IsKey}
use network_camp.Trie.Contents.{mem-entries}
use network_camp.Search.Data.{Reading, to_lower_char, to_lower, find_word, read_data}
use network_camp.Search.Index.{IsIndex, last_index, index_from_lem, read_data-IsIndex}
use network_camp.Search.Sort.{
  sort_array, Below, IsDescending, sort_array-IsDescending, sort_array-perm,
}
use network_camp.Search.Serving.{request_size}
use network_camp.Search.Engine.{max_sent, array_to_send, search_engine}

-- The positions in `word_array` of the words that a request asks for.
abbrev pub positions : Reading → List ℕ → List ℕ
positions r request = hits request (entries r.root)

map-word_counts :
    (words : List Word) (ws : List Word)
    → map (λ (w : Word). find_word words w.search_count) ws ≡ map (find_word words) (word_counts ws)
map-word_counts words [] = refl
map-word_counts words (w ∷ ws) =
    ap (◌∷◌ (find_word words w.search_count)) (map-word_counts words ws)

-- When the data file was read, the words collected for a request that is not empty, does not begin
-- with the character 0, fits `client_request`, and for which all that is copied fits its arrays
-- (`copies_fit`), are the words of the array at the positions that match the request, in the order
-- of the walk, whatever else stands in the array that is not initialised.
pub array_to_send-positions :
    (lines : List (List ℕ)) (r : Reading) (word : List ℕ) (c : ℕ) (s : List ℕ)
    → read_data lines ≡ some r
    → c ≢ 0
    → length (c ∷ s) < request_size
    → copies_fit (c ∷ s) r.root word ≡ true
    → array_to_send r word (c ∷ s) ≡ map (find_word r.words) (positions r (c ∷ s))
unfolding array_to_send
array_to_send-positions lines r word c s e h short fit =
    map-word_counts r.words (complete_words (find_match (c ∷ s) r.root word [] 0) [])
    ∙ ap (map (find_word r.words))
        (query-eq-hits r.root c s word (λ p. h (p ∙ (read_data-IsIndex lines r e).top)) fit)

-- When the data file was read, a position matches a request exactly if it is that of the last line
-- of some word over the alphabet, case ignored, that has the characters of the request in their
-- order, gaps allowed.
pub mem-positions :
    (lines : List (List ℕ)) (r : Reading) (request : List ℕ) (k : ℕ)
    → read_data lines ≡ some r
    → Memᴰ k (positions r request)
      ↔ ((v : List ℕ) × (last_index v r.words ≡ some k) × IsKey v × (sub_seq request v ≡ true))
mem-positions lines r request k e = (
  λ m.
      let (v, n, q) = (mem-hits request k (entries r.root)).0 m in
      let (found, key) = (mem-entries r.root v k inv.wf).0 n in
      (v, sym (inv.holds v key) ∙ found, key, q),
  λ (v, last, key, q).
      (mem-hits request k (entries r.root)).1
        (v, (mem-entries r.root v k inv.wf).1 (inv.holds v key ∙ last, key), q),
)
  where
    inv : IsIndex r
    inv = read_data-IsIndex lines r e

pub positions_bound :
    (lines : List (List ℕ)) (r : Reading) (request : List ℕ) (k : ℕ)
    → read_data lines ≡ some r
    → Memᴰ k (positions r request)
    → k < length r.words
positions_bound lines r request k e m =
    let (v, last, key, q) = (mem-positions lines r request k e).0 m in
    omega (arith, (index_from_lem 0 v r.words k last).1)

-- `tolower` maps what it returns to itself.
to_lower-to_lower : (s : List ℕ) → to_lower (to_lower s) ≡ to_lower s
unfolding to_lower to_lower_char
to_lower-to_lower [] = refl
to_lower-to_lower (c ∷ s) = ground (arith, to_lower-to_lower s)

-- A request gets the same answer when it is put into lower case first.
pub search_engine-to_lower :
    (r : Reading) (word request : List ℕ)
    → search_engine r word (to_lower request) ≡ search_engine r word request
unfolding search_engine
search_engine-to_lower r word request = rw (to_lower-to_lower request)

from_length : (xs : List Word) → length xs ≡ from_ℕ (List.length xs)
from_length [] = refl
from_length (x ∷ xs) = ap suc (from_length xs)

length-perm : {xs ys : List Word} → Perm xs ys → length xs ≡ length ys
length-perm {xs} {ys} p = from_length xs ∙ ap from_ℕ (Perm.length-eq p) ∙ sym (from_length ys)

Descending-take :
    (n : ℕ) (xs : List Word)
    → IsDescending xs
    → IsDescending (take n xs) × All (Below (drop n xs)) (take n xs)
Descending-take zero xs h = (tt, tt)
Descending-take (suc n) [] h = (tt, tt)
Descending-take (suc n) (x ∷ xs) h =
    let (d, b) = Descending-take n xs h.1 in ((Below-take n xs h.0, d), (Below-drop n xs h.0, b))
  where
    Below-take : (n : ℕ) (xs : List Word) → Below xs x → Below (take n xs) x
    Below-take zero xs b = tt
    Below-take (suc n) [] b = tt
    Below-take (suc n) (y ∷ xs) b = (b.0, Below-take n xs b.1)

    Below-drop : (n : ℕ) (xs : List Word) → Below xs x → Below (drop n xs) x
    Below-drop zero xs b = b
    Below-drop (suc n) [] b = tt
    Below-drop (suc n) (y ∷ xs) b = Below-drop n xs b.1

-- The answer to a request has the words in decreasing order of their counts, at most ten and as
-- many as the count that is sent first; with the words that are left out they make up all that were
-- collected, and none left out is counted more often than one that is sent.
pub search_engine-top :
    (r : Reading) (word request : List ℕ)
    → (rest : List Word) × Perm
        ((search_engine r word request).sent ++ rest)
        (array_to_send r word (to_lower request))
      × IsDescending (search_engine r word request).sent
      × All (Below rest) (search_engine r word request).sent
      × (length (search_engine r word request).sent ≡ (search_engine r word request).count)
      × ((search_engine r word request).count
          ≡ min max_sent (length (array_to_send r word (to_lower request))))
unfolding search_engine
search_engine-top r word request =
    let found = array_to_send r word (to_lower request) in
    let count = if ltb max_sent (length found) then max_sent else length found in
    let (order, below) = Descending-take count (sort_array found) (sort_array-IsDescending found) in
    (
      drop count (sort_array found),
      rw take-append-drop (sort_array-perm found),
      order,
      below,
      length-take count (sort_array found) ∙ ground (arith, length-perm (sort_array-perm found)),
      ground arith,
    )
