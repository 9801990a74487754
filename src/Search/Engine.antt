-- ===== src/Search/Engine.antt =====
-- `SearchEngine` (search_server.c): what one request sends back.
pub mod Answer
use network_camp.Prelude.{ℕ, List, [], map, if◌then◌else◌, ltb, length, take}
use network_camp.Trie.{Word, find_match, complete_words}
use network_camp.Search.Data.{Reading, to_lower, find_word}
use network_camp.Search.Sort.{sort_array}

-- The largest number of words that are sent.
abbrev pub max_sent : ℕ
max_sent = 10

-- What is written to the socket: first the count, then that many words.
pub record Reply : Type 0 where
  pub count : ℕ
  pub sent : List Word

-- `array_to_send`, before it is sorted. `word` is the array of that name, which the source does not
-- initialise. `found_array` and `temp_array` are lists; whether they hold what is copied to them is
-- `copies_fit`.
unfoldable pub array_to_send : Reading → List ℕ → List ℕ → List Word
array_to_send r word request =
    map (λ (w : Word). find_word r.words w.search_count)
      (complete_words (find_match request r.root word [] 0) [])

-- The answer, where the request and the copies fit: `serve` has these tests.
unfoldable pub search_engine : Reading → List ℕ → List ℕ → Reply
unfolding array_to_send
search_engine r word search_word =
    let found = array_to_send r word (to_lower search_word) in
    let count = if ltb max_sent (length found) then max_sent else length found in
    record { count = count; sent = take count (sort_array found) }
