-- ===== src/Trie.antt =====
-- The trie of the search server: 숙제#4/Server Code/trie.h and trie.c.
pub mod Labels
pub mod Match
pub mod Query
pub mod Shape
pub mod Contents
pub mod Insert
use network_camp.Prelude.{
  ℕ, zero, suc, ◌-◌, Bool, true, false, ◌&&◌, Option, none, some, List, [], ◌∷◌, ◌++◌,
  if◌then◌else◌, ◌==◌, ltb, leb, length, map, get_or, ◌>>=◌,
}

-- `N`, the number of slots of `children`: 26 letters and the space.
abbrev pub slot_count : ℕ
slot_count = 27

-- `TrieNode`, and its array `children`, slot by slot: a null pointer or a child. `is_complete` is
-- 0 or 1 in the source. A child is reached by one pointer only, so the tree is a value.
mutual
  pub data TrieNode : Type 0 where
    node : (ch : ℕ) → Children → (is_leaf : ℕ) → (is_complete : Bool) → TrieNode

  pub data Children : Type 0 where
    end : Children
    null : Children → Children
    child : TrieNode → Children → Children

abbrev pub char_of : TrieNode → ℕ
char_of (node d cs l b) = d

unfoldable pub nulls : ℕ → Children
nulls zero = end
nulls (suc n) = null (nulls n)

unfoldable pub make_trienode : ℕ → TrieNode
make_trienode d = node d (nulls slot_count) 0 false

-- `children[i]`, `none` for a null pointer.
unfoldable pub child_at : Children → ℕ → Option TrieNode
child_at end i = none
child_at (null cs) zero = none
child_at (child t cs) zero = some t
child_at (null cs) (suc i) = child_at cs i
child_at (child t cs) (suc i) = child_at cs i

-- `children[i] = t`
unfoldable pub set_child : Children → ℕ → TrieNode → Children
set_child end i t = end
set_child (null cs) zero t = child t cs
set_child (child u cs) zero t = child t cs
set_child (null cs) (suc i) t = null (set_child cs i t)
set_child (child u cs) (suc i) t = child u (set_child cs i t)

-- The slot of a character; `none` where the source would index outside `children`.
unfoldable pub slot_of : ℕ → Option ℕ
slot_of c =
    if c == b' '
    then some 26
    else if leb b'a' c && ltb (c - b'a') slot_count
    then some (c - b'a')
    else none

-- The child in a slot, made by `make_trienode` where the pointer is null.
unfoldable pub child_or_new : Option TrieNode → ℕ → TrieNode
child_or_new none c = make_trienode c
child_or_new (some t) c = t

-- `insert_trie`: the walk down the word, with the changed child written back on the way up. `none`
-- where the source would write outside an array.
unfoldable pub insert_trie : TrieNode → List ℕ → ℕ → Option TrieNode
insert_trie (node d cs l b) [] count = some (node d cs count true)
insert_trie (node d cs l b) (c ∷ word) count = slot_of c >>= λ i.
    insert_trie (child_or_new (child_at cs i) c) word count >>= λ t.
    some (node d (set_child cs i t) l b)

-- `found_t` and `word_t`.
pub record Found : Type 0 where
  pub word : List ℕ
  pub root : TrieNode

pub record Word : Type 0 where
  pub word : List ℕ
  pub search_count : ℕ

-- `strcat(newWord, toStr)`: the character 0 is the empty string.
unfoldable pub append_char : List ℕ → ℕ → List ℕ
append_char word d = if d == 0 then word else word ++ d ∷ []

-- `Find_Match_Prefix_Node`: `found` is `found_array[0 .. *index)`, `n` is `nthMatch`. The terminator
-- of `search_word` reads as 0. `newWord` has the room that it takes; whether `strcpy` finds room in the
-- array is `copies_fit`.
unfoldable mutual
  pub find_match : List ℕ → TrieNode → List ℕ → List Found → ℕ → List Found
  find_match search_word (node d cs l b) word found n =
      let new_word = append_char word d in
      let hit = get_or search_word n 0 == d in
      let rest = find_match_children search_word cs new_word found (if hit then suc n else n) in
      if hit && suc n == length search_word
      then found ++ record { word = new_word; root = node d cs l b } ∷ []
      else rest

  pub find_match_children : List ℕ → Children → List ℕ → List Found → ℕ → List Found
  find_match_children search_word end word found n = found
  find_match_children search_word (null cs) word found n =
      find_match_children search_word cs word found n
  find_match_children search_word (child t cs) word found n =
      find_match_children search_word cs word (find_match search_word t word found n) n

-- `Find_Complete_InChild`: `words` is `word_array[0 .. *index)`; whether `strcpy` finds room there is
-- `copies_fit`.
unfoldable mutual
  pub find_complete : TrieNode → List ℕ → List Word → List Word
  find_complete (node d cs l b) word words =
      find_complete_children cs word
        (if b then words ++ record { word = word; search_count = l } ∷ [] else words)

  pub find_complete_children : Children → List ℕ → List Word → List Word
  find_complete_children end word words = words
  find_complete_children (null cs) word words = find_complete_children cs word words
  find_complete_children (child t cs) word words =
      find_complete_children cs word (find_complete t (append_char word (char_of t)) words)

-- `Get_Complete_Words`, with `word_array` filled so far.
unfoldable pub complete_words : List Found → List Word → List Word
complete_words [] words = words
complete_words (f ∷ found) words = complete_words found (find_complete f.root f.word words)

-- The size of the arrays `word` of `found_t` and `word_t`, and that of the two arrays that
-- `SearchEngine` has of these.
abbrev pub found_word_size : ℕ
found_word_size = 64

abbrev pub found_array_size : ℕ
found_array_size = 100

-- Whether a word with its terminator fits, for each word.
unfoldable words_fit : List (List ℕ) → Bool
words_fit [] = true
words_fit (w ∷ ws) = ltb (length w) found_word_size && words_fit ws

-- Whether each `strcpy` of a query, into `found_array` and then into `word_array`, stays inside its
-- array.
unfoldable pub copies_fit : List ℕ → TrieNode → List ℕ → Bool
unfolding words_fit
copies_fit search_word root word =
    let found = find_match search_word root word [] 0 in
    let words = complete_words found [] in
    words_fit (map (λ (f : Found). f.word) found)
    && leb (length found) found_array_size
    && words_fit (map (λ (w : Word). w.word) words)
    && leb (length words) found_array_size
