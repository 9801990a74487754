-- ===== src/Search/Data.antt =====
-- `ReadData_MakeTrie`, `toLower` and `FindWordInArray` (search_server.c): the trie and the array of
-- words that are made of data.txt.
use network_camp.Prelude.{
  ℕ, ◌+◌, ◌-◌, ◌*◌, Bool, ◌&&◌, ◌||◌, Option, none, some, List, [], ◌∷◌, ◌++◌, if◌then◌else◌, ◌==◌,
  ltb, leb, length, get_or, ◌>>=◌,
}
use network_camp.Trie.{TrieNode, Word, make_trienode, insert_trie}

-- `WORD_NUM`, and the size of the arrays `char word[64]`.
abbrev pub word_num : ℕ
word_num = 100

abbrev pub word_size : ℕ
word_size = 64

-- `tolower` of the C locale, and `toLower`.
unfoldable pub to_lower_char : ℕ → ℕ
to_lower_char c = if leb b'A' c && leb c b'Z' then c + 32 else c

unfoldable pub to_lower : List ℕ → List ℕ
to_lower [] = []
to_lower (c ∷ s) = to_lower_char c ∷ to_lower s

-- The conversions of `sscanf(line, "%[a-zA-Z ] %d", word, &search_count)`: the longest run of the
-- set, then blanks, then digits. A sign in front of the digits is not modelled.
unfoldable pub in_scan_set : ℕ → Bool
in_scan_set c = (leb b'a' c && leb c b'z') || (leb b'A' c && leb c b'Z') || c == b' '

unfoldable pub scan_set : List ℕ → List ℕ
scan_set [] = []
scan_set (c ∷ line) = let rest = scan_set line in if in_scan_set c then c ∷ rest else []

unfoldable pub after_set : List ℕ → List ℕ
after_set [] = []
after_set (c ∷ line) = let rest = after_set line in if in_scan_set c then rest else c ∷ line

is_digit : ℕ → Bool
is_digit c = leb b'0' c && leb c b'9'

is_blank : ℕ → Bool
is_blank c = c == b' ' || leb 9 c && leb c 13

digits : ℕ → List ℕ → ℕ
digits acc [] = acc
digits acc (c ∷ line) =
    let rest = digits (acc * 10 + (c - b'0')) line in if is_digit c then rest else acc

-- `%d` into a variable: a failed conversion leaves it as it was.
unfoldable pub scan_int : ℕ → List ℕ → ℕ
unfolding digits is_digit is_blank
scan_int old [] = old
scan_int old (c ∷ line) =
    let rest = scan_int old line in
    if is_blank c then rest else if is_digit c then digits 0 (c ∷ line) else old

-- `word[strlen(word) - 1] = '\0'`; `none` for a write in front of the array.
unfoldable pub chop : List ℕ → Option (List ℕ)
chop [] = none
chop (c ∷ []) = some []
chop (c ∷ d ∷ s) = chop (d ∷ s) >>= λ t. some (c ∷ t)

-- The globals `root_node` and `word_array[0 .. array_index)`, with the locals `word` and
-- `search_count`, which keep their values from line to line.
pub record Reading : Type 0 where
  pub root : TrieNode
  pub words : List Word
  pub word : List ℕ
  pub search_count : ℕ

-- The variables after `sscanf`: a line that does not begin in the set is not converted at all.
unfoldable pub scanned : Reading → List ℕ → Reading
scanned r line =
    let text = scan_set line in
    if length text == 0
    then r
    else record r { word = text; search_count = scan_int r.search_count (after_set line) }

-- One round of the `while` loop. `none` where the source writes outside an array: a word of 64
-- characters or more, more than `WORD_NUM` lines, an empty word, or a slot outside `children`.
unfoldable pub read_line : Reading → List ℕ → Option Reading
read_line r line =
    let s = scanned r line in
    if ltb (length s.word) word_size && ltb (length r.words) word_num
    then (chop s.word >>= λ text. insert_trie r.root (to_lower text) (length r.words) >>= λ root.
        some (record {
          root = root;
          words = r.words ++ record { word = text; search_count = s.search_count } ∷ [];
          word = to_lower text;
          search_count = s.search_count;
        }))
    else none

unfoldable pub read_lines : Reading → List (List ℕ) → Option Reading
read_lines r [] = some r
read_lines r (line ∷ lines) = read_line r line >>= λ r'. read_lines r' lines

-- `ReadData_MakeTrie(root_node)` for the trie that `main` makes. The array `word` is not initialised
-- and is read as empty.
unfoldable pub read_data : List (List ℕ) → Option Reading
unfolding read_lines read_line scanned
read_data lines =
    read_lines (record { root = make_trienode 0; words = []; word = []; search_count = 0 }) lines

-- `FindWordInArray`: the global array is zero where nothing was written.
unfoldable pub find_word : List Word → ℕ → Word
find_word words i = get_or words i (record { word = []; search_count = 0 })
