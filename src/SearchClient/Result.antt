-- ===== src/SearchClient/Result.antt =====
-- What the search client shows of an answer (search_clnt.c).
use mathlib.Core.Option.{some-injective}
use network_camp.Prelude.{
  take-append, length-map, ℕ, zero, suc, ◌+◌, ◌≤◌, ◌<◌, true, false, none, some, List, [], ◌∷◌,
  ◌++◌, ◌≡◌, refl, ap, sym, subst, ◌∙◌, arith, ltb, leb, length, map, length-take, take, drop,
  drop-drop, take-append-drop, Bool-cases, inl, inr, >>=-eq-some, Option-cases,
}
use network_camp.Trie.{Word}
use network_camp.Search.Data.{Reading, to_lower, to_lower_char}
use network_camp.Search.Engine.{search_engine}
use network_camp.Search.Engine.Answer.{search_engine-top}
use network_camp.SearchClient.{
  cleared, is_prefix, strstr, Line, print_word, print_result, array_size, receive_words,
  receive_result,
}

is_prefix-take : (s word : List ℕ) → is_prefix s word ≡ true → take (length s) word ≡ s
unfolding is_prefix
is_prefix-take [] word e = refl
is_prefix-take (c ∷ s) [] e = cc
is_prefix-take (c ∷ s) (d ∷ word) e = ground (arith, is_prefix-take s word)

-- `strstr` finds the first place.
strstr_found :
    (word s : List ℕ) (p : ℕ)
    → strstr word s ≡ some p
    → (is_prefix s (drop p word) ≡ true) × ((k : ℕ) → k < p → is_prefix s (drop k word) ≡ false)
unfolding strstr
strstr_found [] s p e = elim (Bool-cases (is_prefix s [])) [
  | inl hit ↦
      subst
        (λ q.
          (is_prefix s (drop q []) ≡ true) × ((k : ℕ) → k < q → is_prefix s (drop k []) ≡ false))
        (some-injective 0 p (rw hit at e)) (hit, λ k lt. absurd (omega arith))
  | inr miss ↦ cc (rw miss at e)
]
strstr_found (d ∷ word) s p e = elim (Bool-cases (is_prefix s (d ∷ word))) [
  | inl hit ↦
      subst
        (λ q.
          (is_prefix s (drop q (d ∷ word)) ≡ true)
          × ((k : ℕ) → k < q → is_prefix s (drop k (d ∷ word)) ≡ false))
        (some-injective 0 p (rw hit at e)) (hit, λ k lt. absurd (omega arith))
  | inr miss ↦
      let (q, a, b) = >>=-eq-some (strstr word s) _ (rw miss at e) in
      let (found, first) = strstr_found word s q a in
      subst
        (λ x.
          (is_prefix s (drop x (d ∷ word)) ≡ true)
          × ((k : ℕ) → k < x → is_prefix s (drop k (d ∷ word)) ≡ false))
        (some-injective (suc q) p b) (found, before miss first)
]
  where
    before :
        {q : ℕ}
        → is_prefix s (d ∷ word) ≡ false
        → ((k : ℕ) → k < q → is_prefix s (drop k word) ≡ false)
        → (k : ℕ) → k < suc q
        → is_prefix s (drop k (d ∷ word)) ≡ false
    before miss first zero lt = miss
    before miss first (suc k) lt = first k (omega arith)

strstr-none :
    (word s : List ℕ) (k : ℕ)
    → strstr word s ≡ none
    → k ≤ length word
    → is_prefix s (drop k word) ≡ false
unfolding strstr
strstr-none [] s zero e le = ground arith
strstr-none [] s (suc k) e le = absurd (omega arith)
strstr-none (d ∷ word) s zero e le = ground arith
strstr-none (d ∷ word) s (suc k) e le = ground (arith, strstr-none word s k)

drop-to_lower : (k : ℕ) (w : List ℕ) → drop k (to_lower w) ≡ to_lower (drop k w)
unfolding to_lower
drop-to_lower zero w = refl
drop-to_lower (suc k) [] = refl
drop-to_lower (suc k) (c ∷ w) = drop-to_lower k w

take-to_lower : (k : ℕ) (w : List ℕ) → take k (to_lower w) ≡ to_lower (take k w)
unfolding to_lower
take-to_lower zero w = refl
take-to_lower (suc k) [] = refl
take-to_lower (suc k) (c ∷ w) = ap (◌∷◌ (to_lower_char c)) (take-to_lower k w)

length-to_lower : (w : List ℕ) → length (to_lower w) ≡ length w
unfolding to_lower
length-to_lower [] = refl
length-to_lower (c ∷ w) = ap suc (length-to_lower w)

-- When `Print_Result` prints a word, the three parts of the line make up the word, the coloured one
-- is the word in search but for case, and it stands where that occurs in the word for the first
-- time.
pub print_word-line :
    (word_in_search w : List ℕ) (l : Line)
    → print_word word_in_search w ≡ some l
    → (l.before ++ (l.colored ++ l.after) ≡ w)
      × (to_lower l.colored ≡ to_lower word_in_search)
      × ((k : ℕ)
          → k < length l.before
          → is_prefix (to_lower word_in_search) (drop k (to_lower w)) ≡ false)
unfolding print_word
print_word-line s w l e =
    let (p, a, b) = >>=-eq-some (strstr (to_lower w) (to_lower s)) _ e in
    let (found, first) = strstr_found (to_lower w) (to_lower s) p a in
    subst
      (λ (x : Line).
        (x.before ++ (x.colored ++ x.after) ≡ w)
        × (to_lower x.colored ≡ to_lower s)
        × ((k : ℕ) → k < length x.before → is_prefix (to_lower s) (drop k (to_lower w)) ≡ false))
      (some-injective _ l b)
      (
        ap (λ x. take p w ++ (take (length s) (drop p w) ++ x)) (sym (drop-drop (length s) p w))
            ∙ ap (◌++◌ (take p w)) (take-append-drop (length s) (drop p w))
            ∙ take-append-drop p w,
        sym (take-to_lower (length s) (drop p w))
            ∙ ap (take (length s)) (sym (drop-to_lower p w))
            ∙ ap (λ n. take n (drop p (to_lower w))) (sym (length-to_lower s))
            ∙ is_prefix-take (to_lower s) (drop p (to_lower w)) found,
        λ k lt. first k (omega (arith, length-take p w, lt)),
      )

-- Nothing is printed of a word in which the text stands nowhere, and only then.
pub print_word-none :
    (word_in_search w : List ℕ) (k : ℕ)
    → print_word word_in_search w ≡ none
    → k ≤ length w
    → is_prefix (to_lower word_in_search) (drop k (to_lower w)) ≡ false
unfolding print_word
print_word-none s w k e le = elim (Option-cases (strstr (to_lower w) (to_lower s))) [
  | inl nowhere ↦ strstr-none (to_lower w) (to_lower s) k nowhere (omega (arith, length-to_lower w))
  | inr (p, found) ↦ cc (rw found at e)
]

receive_words_lem :
    (count index : ℕ) (w : Word) (ws rest : List Word)
    → index + length (w ∷ ws) ≡ count
    → count ≤ array_size
    → receive_words count index ((w ∷ ws) ++ rest)
      ≡ some (map (λ (x : Word). x.word) (w ∷ ws), rest)
unfolding receive_words
receive_words_lem count index w [] rest e le =
    let fits : ltb index array_size ≡ true = ground arith in
    let last : leb count (index + 1) ≡ true = ground arith in rw (fits, last) refl
receive_words_lem count index w (v ∷ ws) rest e le =
    let fits : ltb index array_size ≡ true = ground arith in
    let more : leb count (index + 1) ≡ false = ground arith in
    rw (fits, more, receive_words_lem count (index + 1) v ws rest (omega arith) le) refl

receive_result_lem :
    (word_in_search : List ℕ) (ws rest : List Word) (count : ℕ)
    → length ws ≡ count
    → count ≤ array_size
    → receive_result word_in_search count (ws ++ rest)
      ≡ some (print_result word_in_search (map (λ (x : Word). x.word) ws), rest)
unfolding receive_result print_result
receive_result_lem s [] rest count e le =
    let empty : ltb 0 count ≡ false = ground arith in rw empty refl
receive_result_lem s (w ∷ ws) rest count e le =
    let some_words : ltb 0 count ≡ true = ground arith in
    let words = map (λ (x : Word). x.word) (w ∷ ws) in
    let held =
      take-append words (cleared array_size) count
        (omega (arith, length-map (λ (x : Word). x.word) ws)) in
    rw (some_words, receive_words_lem count 0 w ws rest (omega arith) le)
      (ap (λ xs. some (print_result s xs, rest)) held)

-- Whatever the server answers to a request, the client reads exactly the words of that answer
-- without leaving `word_t_array`, prints the lines for them and leaves what follows in the
-- connection.
pub receive_result-search_engine :
    (r : Reading) (word request word_in_search : List ℕ) (rest : List Word)
    → receive_result word_in_search
        (search_engine r word request).count
        ((search_engine r word request).sent ++ rest)
      ≡ some (
        print_result word_in_search
            (map (λ (x : Word). x.word) (search_engine r word request).sent),
        rest,
      )
receive_result-search_engine r word request s rest =
    let (_, _, _, _, size, top) = search_engine-top r word request in
    receive_result_lem s (search_engine r word request).sent rest
      (search_engine r word request).count size (omega (arith, top))
