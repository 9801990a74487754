-- ===== src/Tests/Search.antt =====
-- Tests of the search server (search_server.c), and its theorems at work.
use mathlib.Core.List.{Memᴰ, Perm}
use network_camp.Prelude.{
  ◌++◌, min, refl, ℕ, true, some, List, [], ◌∷◌, ◌≡◌, ◌≢◌, ◌↔◌, arith, map, length, All,
}
use network_camp.Trie.{
  Word, insert_trie, make_trienode, nulls, child_at, set_child, slot_of, child_or_new, copies_fit,
  find_match, complete_words, find_complete, append_char,
}
use network_camp.Trie.Match.{sub_seq}
use network_camp.Trie.Shape.{IsKey}
use network_camp.Trie.Insert.{lookup}
use network_camp.Search.Data.{
  Reading, in_scan_set, scan_set, after_set, scan_int, chop, scanned, read_line, read_lines,
  read_data, find_word, to_lower, to_lower_char,
}
use network_camp.Search.Index.{last_index, lookup-read_data}
use network_camp.Search.Load.{line_of, IsEntry, texts, read_data_total}
use network_camp.Search.Sort.{Below, IsDescending}
use network_camp.Search.Engine.{array_to_send, search_engine, max_sent}
use network_camp.Search.Engine.Answer.{
  positions, array_to_send-positions, mem-positions, search_engine-top,
}
use network_camp.Search.Clients.{registered, remove_client, registered-remove_inner}

-- `car 5` and `Cat 9`.
abbrev data_file : List (List ℕ × List ℕ)
data_file = (b'c' ∷ b'a' ∷ b'r' ∷ [], b'5' ∷ []) ∷ (b'C' ∷ b'a' ∷ b't' ∷ [], b'9' ∷ []) ∷ []

abbrev lines : List (List ℕ)
lines = map line_of data_file

data_file-IsEntry : All IsEntry data_file
unfolding in_scan_set
data_file-IsEntry = (
  ((refl, (refl, (refl, tt))), omega arith, refl),
  (((refl, (refl, (refl, tt))), omega arith, refl), tt),
)

read_data_total_example :
    (r : Reading) × (read_data lines ≡ some r)
    × (texts r.words ≡ (b'c' ∷ b'a' ∷ b'r' ∷ []) ∷ (b'C' ∷ b'a' ∷ b't' ∷ []) ∷ [])
read_data_total_example = read_data_total data_file data_file-IsEntry (omega arith)

-- What is read, and that the copies for the request `ct` fit.
loaded :
    (r : Reading) × (read_data lines ≡ some r) × (copies_fit (b'c' ∷ b't' ∷ []) r.root [] ≡ true)
unfolding read_data read_lines read_line scanned scan_set after_set in_scan_set scan_int chop
    to_lower to_lower_char insert_trie make_trienode nulls child_at set_child slot_of child_or_new
    copies_fit find_match complete_words find_complete append_char
loaded = (_, refl, refl)

abbrev reading : Reading
reading = loaded.0

abbrev cat : List ℕ
cat = b'c' ∷ b'a' ∷ b't' ∷ []

cat-IsKey : IsKey cat
cat-IsKey = ground arith

lookup-read_data_example : lookup reading.root cat ≡ last_index cat reading.words
lookup-read_data_example = lookup-read_data lines reading cat loaded.1 cat-IsKey

array_to_send-positions_example :
    array_to_send reading [] (b'c' ∷ b't' ∷ [])
    ≡ map (find_word reading.words) (positions reading (b'c' ∷ b't' ∷ []))
array_to_send-positions_example =
    array_to_send-positions lines reading [] b'c' (b't' ∷ []) loaded.1 (λ e. ground arith)
      (omega arith) loaded.2

mem-positions_example : Memᴰ 1 (positions reading (b'c' ∷ b't' ∷ [])) ↔ (
    (v : List ℕ) × (last_index v reading.words ≡ some 1)
    × IsKey v
    × (sub_seq (b'c' ∷ b't' ∷ []) v ≡ true))
mem-positions_example = mem-positions lines reading (b'c' ∷ b't' ∷ []) 1 loaded.1

abbrev two : List Word
two = record { word = []; search_count = 3 } ∷ record { word = []; search_count = 8 } ∷ []

-- Clients 4, 5 and 6.
abbrev left : All (λ (s : ℕ). 5 ≢ s) (4 ∷ [])
left = ground arith

registered-remove_inner_example :
    registered (remove_client (record { socks = 4 ∷ 5 ∷ 6 ∷ 0 ∷ []; cnt = 3 }) 5) ≡ 4 ∷ 5 ∷ []
registered-remove_inner_example = registered-remove_inner (4 ∷ []) [] (0 ∷ []) 5 6 left

search_engine-top_example :
    (rest : List Word) × Perm
      ((search_engine reading [] (b'C' ∷ [])).sent ++ rest)
      (array_to_send reading [] (to_lower (b'C' ∷ [])))
    × IsDescending (search_engine reading [] (b'C' ∷ [])).sent
    × All (Below rest) (search_engine reading [] (b'C' ∷ [])).sent
    × (length (search_engine reading [] (b'C' ∷ [])).sent
        ≡ (search_engine reading [] (b'C' ∷ [])).count)
    × ((search_engine reading [] (b'C' ∷ [])).count
        ≡ min max_sent (length (array_to_send reading [] (to_lower (b'C' ∷ [])))))
search_engine-top_example = search_engine-top reading [] (b'C' ∷ [])
