-- ===== src/Tests/Trie.antt =====
-- Tests of the trie (trie.c), and its theorems at work.
use network_camp.Prelude.{ℕ, true, false, some, List, [], ◌∷◌, ◌≡◌, refl, arith}
use network_camp.Trie.{
  TrieNode, node, make_trienode, nulls, child_at, set_child, slot_of, child_or_new, insert_trie,
  copies_fit, find_match, complete_words, find_complete, append_char,
}
use network_camp.Trie.Labels.{entries, word_counts}
use network_camp.Trie.Match.{sub_seq, hits}
use network_camp.Trie.Query.{query-eq-hits}
use network_camp.Trie.Shape.{IsKey, IsTrie, make_trienode-IsTrie}

abbrev car : List ℕ
car = b'c' ∷ b'a' ∷ b'r' ∷ []

abbrev cat : List ℕ
cat = b'c' ∷ b'a' ∷ b't' ∷ []

abbrev root : TrieNode
root = make_trienode 0

car-IsKey : IsKey car
car-IsKey = ground arith

root-IsTrie : IsTrie root
root-IsTrie = make_trienode-IsTrie 0

-- The trie of one word.
abbrev pub with_car : TrieNode
with_car =
    node 0
      (set_child (nulls 27) 2 (
        node b'c'
          (set_child (nulls 27) 0
            (node b'a' (set_child (nulls 27) 17 (node b'r' (nulls 27) 7 true)) 0 false))
          0 false))
      0 false

inserted : insert_trie root car 7 ≡ some with_car
unfolding insert_trie make_trienode nulls child_at set_child slot_of child_or_new
inserted = refl

fits : copies_fit (b'c' ∷ b'r' ∷ []) with_car [] ≡ true
unfolding nulls set_child copies_fit find_match complete_words find_complete append_char
fits = refl

query-eq-hits_example :
    word_counts (complete_words (find_match (b'c' ∷ b'r' ∷ []) with_car [] [] 0) [])
    ≡ hits (b'c' ∷ b'r' ∷ []) (entries with_car)
query-eq-hits_example = query-eq-hits with_car b'c' (b'r' ∷ []) [] (λ e. ground arith) fits

-- A request for "cr" meets "car".
gap_test : sub_seq (b'c' ∷ b'r' ∷ []) car ≡ true
unfolding sub_seq
gap_test = refl
