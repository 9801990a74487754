-- ===== src/SearchClient.antt =====
-- The search client: 숙제#4/Client Code/search_clnt.c.
pub mod Typing
pub mod Result
pub mod Answers
pub mod Session
use network_camp.Prelude.{
  ℕ, zero, suc, ◌+◌, ◌-◌, ◌&&◌, Option, none, some, Bool, true, false, List, [], ◌∷◌, ◌++◌,
  if◌then◌else◌, ◌==◌, ltb, leb, length, take, drop, set, ◌>>=◌,
}
use network_camp.Search.Data.{to_lower}
use network_camp.Trie.{Word}

-- `BUFSIZE`
abbrev pub buf_size : ℕ
buf_size = 100

-- The array `word_in_search`, `idx + 1`, and `search_word_len`.
pub record Input : Type 0 where
  pub word_in_search : List ℕ
  pub next_idx : ℕ
  pub search_word_len : ℕ

-- `strlen` of an array; `none` where no terminator stands in it.
unfoldable pub strlen : List ℕ → Option ℕ
strlen [] = none
strlen (c ∷ cs) = let rest = strlen cs in if c == 0 then some 0 else rest >>= λ n. some (suc n)

-- What a key does besides: `Print_Result(0)`, or a request that is sent; then the loop goes on, has
-- ended, or the program has.
pub data Output : Type 0 where
  clears : Output
  requests : List ℕ → Output

pub data Next : Type 0 where
  goes_on : Input → List Output → Next
  returns exits : List Output → Next

-- The end of the loop's body.
unfoldable pub send_word : Input → Option Next
unfolding strlen
send_word t = strlen t.word_in_search >>= λ n. some (
    goes_on (record t { search_word_len = n })
      ((if leb n 0 then clears else requests (take n t.word_in_search)) ∷ []))

-- A round of `send_search_word` for a key. `none` for a write behind the array, or a word without a
-- terminator.
unfoldable pub press : Input → ℕ → Option Next
unfolding send_word
press t ch =
    let typed = send_word (record t {
      word_in_search = set t.word_in_search t.next_idx ch;
      next_idx = t.next_idx + 1;
    }) in
    let erased = send_word (record t {
      word_in_search = set t.word_in_search (t.next_idx - 1) 0;
      next_idx = t.next_idx - 1;
    }) in
    let same = send_word t in
    if ch == 4
    then some (if t.next_idx == 0 then exits [] else goes_on t [])
    else if ch == 127
    then (if ltb 0 t.next_idx then erased else same)
    else if ch == b'\n'
    then some (returns [])
    else if ltb t.next_idx buf_size
    then typed
    else none

abbrev behind : List Output → Next → Next
behind out (goes_on t more) = goes_on t (out ++ more)
behind out (returns more) = returns (out ++ more)
behind out (exits more) = exits (out ++ more)

-- The loop of `send_search_word` over the keys, and all that it does.
unfoldable pub type_keys : Input → List ℕ → Option Next
type_keys t [] = some (goes_on t [])
type_keys t (ch ∷ keys) = press t ch >>= λ n. elim n [
  | goes_on t' out ↦ type_keys t' keys >>= λ more. some (behind out more)
  | returns out ↦ some (returns out)
  | exits out ↦ some (exits out)
]

-- `strstr`: where the needle begins for the first time.
unfoldable pub is_prefix : List ℕ → List ℕ → Bool
is_prefix [] word = true
is_prefix (c ∷ s) [] = false
is_prefix (c ∷ s) (d ∷ word) = c == d && is_prefix s word

unfoldable pub strstr : List ℕ → List ℕ → Option ℕ
unfolding is_prefix
strstr [] s = if is_prefix s [] then some 0 else none
strstr (d ∷ word) s =
    let later = strstr word s in
    if is_prefix s (d ∷ word) then some 0 else later >>= λ p. some (suc p)

-- A line that is printed: the part in colour and what stands around it.
pub record Line : Type 0 where
  pub before : List ℕ
  pub colored : List ℕ
  pub after : List ℕ

-- The body of the loop of `Print_Result`; `none` where nothing is printed.
unfoldable pub print_word : List ℕ → List ℕ → Option Line
print_word word_in_search word = strstr (to_lower word) (to_lower word_in_search) >>= λ pos.
    some (record {
      before = take pos word;
      colored = take (length word_in_search) (drop pos word);
      after = drop (pos + length word_in_search) word;
    })

-- The loop of `Print_Result` over the words in the array.
unfoldable pub print_result : List ℕ → List (List ℕ) → List Line
print_result word_in_search [] = []
print_result word_in_search (w ∷ words) = elim (print_word word_in_search w) [
  | some l ↦ l ∷ print_result word_in_search words
  | none ↦ print_result word_in_search words
]

-- `word_t_array` has 10 entries.
abbrev pub array_size : ℕ
array_size = 10

-- The loop of `Receive_Rearch_Result` with `index` words read, over the structures that come: the words
-- in the array, and what is left. `none` for a write behind the array.
unfoldable pub receive_words : ℕ → ℕ → List Word → Option (List (List ℕ) × List Word)
receive_words word_count index [] = some ([], [])
receive_words word_count index (w ∷ stream) =
    let later = receive_words word_count (index + 1) stream >>= λ (words, rest).
    some (w.word ∷ words, rest) in
    if ltb index array_size
    then (if leb word_count (index + 1) then some (w.word ∷ [], stream) else later)
    else none

-- The array after `memset`.
abbrev pub cleared : ℕ → List (List ℕ)
cleared zero = []
cleared (suc n) = [] ∷ cleared n

-- A round of `recv_search_result` for a count and what comes behind it: the lines that are printed, and
-- what is left. Where the connection ends before all words have come, the others are empty. Where the
-- count is 0 the array is not looked at.
unfoldable pub receive_result : List ℕ → ℕ → List Word → Option (List Line × List Word)
receive_result word_in_search count stream =
    let words = receive_words count 0 stream in
    if ltb 0 count
    then (words >>= λ (ws, rest).
        some (print_result word_in_search (take count (ws ++ cleared array_size)), rest))
    else some ([], stream)
