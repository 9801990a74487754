-- ===== src/Search/Index.antt =====
-- The trie that `ReadData_MakeTrie` (search_server.c) builds is an index of `word_array`.
use mathlib.Core.Option.{some-injective}
use network_camp.Prelude.{
  same_word, ℕ, suc, ◌+◌, ◌≤◌, ◌<◌, true, false, Option, none, some, List, [], ◌∷◌, ◌++◌, ◌≡◌, refl,
  ap, sym, subst, ◌∙◌, arith, if◌then◌else◌, ◌==◌, ◌&&◌, ltb, length, >>=-eq-some, All, Bool-cases,
  inl, inr,
}
use network_camp.Trie.{Word, char_of, make_trienode, insert_trie}
use network_camp.Trie.Shape.{IsChar, IsKey, IsTrie, make_trienode-IsTrie}
use network_camp.Trie.Insert.{lookup, insert_trie-IsTrie, lookup-insert_trie, lookup_empty}
use network_camp.Search.Data.{
  to_lower_char, to_lower, in_scan_set, scan_set, after_set, scan_int, chop, Reading, scanned,
  read_line, read_lines, read_data, word_size, word_num,
}

-- The index of the last word whose lower case is `v`, counted from `n`.
unfoldable pub index_from : ℕ → List ℕ → List Word → Option ℕ
index_from n v [] = none
index_from n v (x ∷ xs) = elim (index_from (suc n) v xs) [
  | some k ↦ some k
  | none ↦ if same_word (to_lower x.word) v then some n else none
]

abbrev pub last_index : List ℕ → List Word → Option ℕ
last_index v xs = index_from 0 v xs

index_from-snoc :
    (n : ℕ) (v : List ℕ) (xs : List Word) (x : Word)
    → index_from n v (xs ++ x ∷ [])
      ≡ (if same_word (to_lower x.word) v then some (n + length xs) else index_from n v xs)
unfolding index_from
index_from-snoc n v [] x = ground arith
index_from-snoc n v (y ∷ xs) x = ground (arith, index_from-snoc (suc n) v xs x)

-- An index found is that of a word with that lower case.
pub index_from_lem :
    (n : ℕ) (v : List ℕ) (xs : List Word) (k : ℕ)
    → index_from n v xs ≡ some k
    → (n ≤ k) × (k < n + length xs)
unfolding index_from
index_from_lem n v [] k e = cc
index_from_lem n v (x ∷ xs) k e = ground (arith, index_from_lem (suc n) v xs k)

-- Text that `%[a-zA-Z ]` accepts.
abbrev pub IsText : List ℕ → Type 0
IsText w = All (λ c. in_scan_set c ≡ true) w

scan_set-IsText : (line : List ℕ) → IsText (scan_set line)
unfolding scan_set
scan_set-IsText [] = tt
scan_set-IsText (c ∷ line) = elim (Bool-cases (in_scan_set c)) [
  | inl h ↦ rw h (h, scan_set-IsText line)
  | inr h ↦ rw h tt
]

IsText-chop : (w t : List ℕ) → IsText w → chop w ≡ some t → IsText t
unfolding chop
IsText-chop [] t h e = cc
IsText-chop (c ∷ []) t h e = subst IsText (some-injective [] t e) tt
IsText-chop (c ∷ d ∷ w) t h e =
    let (s, p, q) = >>=-eq-some (chop (d ∷ w)) (λ s. some (c ∷ s)) e in
    subst IsText (some-injective (c ∷ s) t q) (h.0, IsText-chop (d ∷ w) s h.1 p)

-- The lower case of such text is a word over the alphabet of the trie.
to_lower_char-IsChar : (c : ℕ) → in_scan_set c ≡ true → IsChar (to_lower_char c)
unfolding in_scan_set to_lower_char
to_lower_char-IsChar c h = ground arith

pub to_lower-IsKey : (w : List ℕ) → IsText w → IsKey (to_lower w)
unfolding to_lower
to_lower-IsKey [] h = tt
to_lower-IsKey (c ∷ w) h = (to_lower_char-IsChar c h.0, to_lower-IsKey w h.1)

IsChar-IsText : (c : ℕ) → IsChar c → in_scan_set c ≡ true
unfolding in_scan_set
IsChar-IsText c h = ground arith

IsKey-IsText : (w : List ℕ) → IsKey w → IsText w
IsKey-IsText [] h = tt
IsKey-IsText (c ∷ w) h = (IsChar-IsText c h.0, IsKey-IsText w h.1)

-- The invariant of the loop over the lines.
pub record IsIndex (r : Reading) : Type 0 where
  pub wf : IsTrie r.root
  pub top : char_of r.root ≡ 0
  pub holds : (v : List ℕ) → IsKey v → lookup r.root v ≡ last_index v r.words
  pub text : IsText r.word

scanned-IsText : (r : Reading) (line : List ℕ) → IsText r.word → IsText (scanned r line).word
unfolding scanned
scanned-IsText r line h = elim (Bool-cases (length (scan_set line) == 0)) [
  | inl e ↦ rw e h
  | inr e ↦ rw e (scan_set-IsText line)
]

scanned-rest :
    (r : Reading) (line : List ℕ)
    → ((scanned r line).words ≡ r.words) × ((scanned r line).root ≡ r.root)
unfolding scanned
scanned-rest r line = ground arith

-- What a round that returns has done.
record Round (r : Reading) (line : List ℕ) (r' : Reading) : Type 0 where
  text : List ℕ
  chopped : chop (scanned r line).word ≡ some text
  grown : insert_trie r.root (to_lower text) (length r.words) ≡ some r'.root
  appended :
      r'.words
      ≡ r.words ++ record { word = text; search_count = (scanned r line).search_count } ∷ []
  lowered : r'.word ≡ to_lower text
  room : length r.words < word_num

read_line-Round :
    (r : Reading) (line : List ℕ) (r' : Reading) → read_line r line ≡ some r' → Round r line r'
unfolding read_line
read_line-Round r line r' e =
    elim (Bool-cases
      (ltb (length (scanned r line).word) word_size && ltb (length r.words) word_num)) [
        | inl fits ↦
            let (text, p, q) =
              >>=-eq-some (chop (scanned r line).word) _ (rw (fits, read_line) at e) in
            let (root, g, f) =
              >>=-eq-some (insert_trie r.root (to_lower text) (length r.words)) _ q in
            let same = sym (some-injective _ _ f) in
            record {
              text = text;
              chopped = p;
              grown = g ∙ ap (λ (x : Reading). some x.root) (sym same);
              appended = ap (λ (x : Reading). x.words) same;
              lowered = ap (λ (x : Reading). x.word) same;
              room = ground arith;
            }
        | inr full ↦ cc (rw (full, read_line) at e)
      ]

pub read_line-IsIndex :
    (r : Reading) (line : List ℕ) (r' : Reading)
    → IsIndex r
    → read_line r line ≡ some r'
    → IsIndex r'
read_line-IsIndex r line r' h e =
    let w = read_line-Round r line r' e in
    let text = IsText-chop _ w.text (scanned-IsText r line h.text) w.chopped in
    let key = to_lower-IsKey w.text text in
    let (u, g, wf, top) = insert_trie-IsTrie r.root (to_lower w.text) (length r.words) h.wf key in
    let same = some-injective u r'.root (sym g ∙ w.grown) in
    record {
      wf = subst IsTrie same wf;
      top = ap char_of (sym same) ∙ top ∙ h.top;
      holds = λ v k.
          lookup-insert_trie r.root (to_lower w.text) (length r.words) r'.root v h.wf key w.grown k
          ∙ rw (w.appended, index_from-snoc 0 v r.words) (ground (arith, h.holds v k));
      text = rw w.lowered (IsKey-IsText (to_lower w.text) key);
    }

read_lines-IsIndex :
    (lines : List (List ℕ)) (r r' : Reading) → IsIndex r → read_lines r lines ≡ some r' → IsIndex r'
unfolding read_lines
read_lines-IsIndex [] r r' h e = subst IsIndex (some-injective r r' e) h
read_lines-IsIndex (line ∷ lines) r r' h e =
    let (s, p, q) = >>=-eq-some (read_line r line) (λ s. read_lines s lines) e in
    read_lines-IsIndex lines s r' (read_line-IsIndex r line s h p) q

abbrev pub start : Reading
start = record { root = make_trienode 0; words = []; word = []; search_count = 0 }

pub start-IsIndex : IsIndex start
unfolding make_trienode index_from
start-IsIndex = record {
  wf = make_trienode-IsTrie 0;
  top = refl;
  holds = λ v k. lookup_empty 0 v;
  text = tt;
}

-- A round over a line that fits returns, and appends its text and its number.
pub read_line_returns :
    (r : Reading) (line text : List ℕ)
    → IsIndex r
    → 0 < length (scan_set line)
    → length (scan_set line) < word_size
    → length r.words < word_num
    → chop (scan_set line) ≡ some text
    → (r' : Reading) × (read_line r line ≡ some r')
      × (r'.words
          ≡ r.words
            ++ record { word = text; search_count = scan_int r.search_count (after_set line) } ∷ [])
unfolding read_line scanned
read_line_returns r line text h long fits room e =
    let key = to_lower-IsKey text (IsText-chop (scan_set line) text (scan_set-IsText line) e) in
    let (u, g, wf, top) = insert_trie-IsTrie r.root (to_lower text) (length r.words) h.wf key in
    let full : (length (scan_set line) == 0) ≡ false = ground arith in
    let a : ltb (length (scan_set line)) word_size ≡ true = ground arith in
    let b : ltb (length r.words) word_num ≡ true = ground arith in
    (
      record {
        root = u;
        words =
            r.words
            ++ record { word = text; search_count = scan_int r.search_count (after_set line) } ∷ [];
        word = to_lower text;
        search_count = scan_int r.search_count (after_set line);
      },
      rw (full, a, b, e, g),
      refl,
    )

-- Whatever the lines are, when `ReadData_MakeTrie` returns the trie indexes the array.
pub read_data-IsIndex : (lines : List (List ℕ)) (r : Reading) → read_data lines ≡ some r → IsIndex r
unfolding read_data
read_data-IsIndex lines r e = read_lines-IsIndex lines start r start-IsIndex e

-- When the data file was read, the trie holds for every word over its alphabet the index of the
-- last line of that word in `word_array`, case ignored, and nothing if no line has that word.
pub lookup-read_data :
    (lines : List (List ℕ)) (r : Reading) (v : List ℕ)
    → read_data lines ≡ some r
    → IsKey v
    → lookup r.root v ≡ last_index v r.words
lookup-read_data lines r v e k = (read_data-IsIndex lines r e).holds v k
