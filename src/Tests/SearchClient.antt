-- ===== src/Tests/SearchClient.antt =====
-- The theorems on the search client (search_clnt.c) at work.
use network_camp.Prelude.{
  ℕ, All, some, List, [], ◌∷◌, ◌++◌, ◌≡◌, refl, arith, ◌<◌, drop, leb, true, false,
}
use network_camp.Search.Data.{Reading, to_lower, to_lower_char}
use network_camp.SearchClient.{
  Line, print_word, strstr, is_prefix, type_keys, goes_on, clears, requests,
}
use network_camp.SearchClient.Typing.{IsText, holding, type_keys-edits}
use network_camp.SearchClient.Result.{print_word-line}
use network_camp.Tests.Trie.{with_car}

-- `a`, `b`, the key that erases, and that key three times more.
abbrev keys : List ℕ
keys = b'a' ∷ b'b' ∷ 127 ∷ 127 ∷ 127 ∷ b'c' ∷ []

text : (c : ℕ) → leb 11 c ≡ true → IsText c
text c h = (λ e. ground arith, λ e. ground arith, λ e. ground arith)

all_text : All IsText keys
all_text = (
  text b'a' refl,
  (text b'b' refl, (text 127 refl, (text 127 refl, (text 127 refl, (text b'c' refl, tt))))),
)

type_keys-edits_example :
    type_keys (holding []) keys
    ≡ some (
        goes_on (holding (b'c' ∷ [])) (
          requests (b'a' ∷ [])
          ∷ requests (b'a' ∷ b'b' ∷ [])
          ∷ requests (b'a' ∷ [])
          ∷ clears
          ∷ clears
          ∷ requests (b'c' ∷ [])
          ∷ []))
type_keys-edits_example = type_keys-edits keys all_text (omega arith)

abbrev found : List ℕ
found = b'x' ∷ b'A' ∷ b'b' ∷ b'c' ∷ []

abbrev shown : Line
shown = record { before = b'x' ∷ []; colored = b'A' ∷ b'b' ∷ []; after = b'c' ∷ [] }

printed : print_word (b'a' ∷ b'B' ∷ []) found ≡ some shown
unfolding print_word strstr is_prefix to_lower to_lower_char
printed = refl

print_word-line_example :
    (shown.before ++ (shown.colored ++ shown.after) ≡ found)
    × (to_lower (b'A' ∷ b'b' ∷ []) ≡ to_lower (b'a' ∷ b'B' ∷ []))
    × ((k : ℕ) → k < 1 → is_prefix (to_lower (b'a' ∷ b'B' ∷ [])) (drop k (to_lower found)) ≡ false)
print_word-line_example = print_word-line (b'a' ∷ b'B' ∷ []) found shown printed

-- The requests `a`, `ab`, `a`, `c`, and the words in search that the answers to them find.
abbrev finds : List (List ℕ)
finds = (b'a' ∷ []) ∷ (b'a' ∷ []) ∷ (b'a' ∷ []) ∷ (b'c' ∷ []) ∷ []

-- A server with the word `car`, whose array `word` is empty at each call.
abbrev reading : Reading
reading = record { root = with_car; words = []; word = []; search_count = 0 }
