-- ===== src/Search/Load.antt =====
-- `ReadData_MakeTrie` (search_server.c) on a data file whose lines fit its arrays.
use network_camp.Prelude.{
  ℕ, ◌+◌, ◌≤◌, ◌<◌, Option, none, some, List, [], ◌∷◌, ◌++◌, ◌≡◌, true, false, refl, ap, ap₂, All,
  sym, ◌∙◌, map, map-append, append_assoc, append-nil, arith, length, length-append,
}
use network_camp.Trie.{Word}
use network_camp.Search.Data.{
  in_scan_set, scan_set, chop, Reading, read_lines, read_data, word_size, word_num,
}
use network_camp.Search.Index.{IsIndex, start, start-IsIndex, read_line-IsIndex, read_line_returns}

-- A line that begins with a text that fits the array `word`.
abbrev IsLine : List ℕ → Type 0
IsLine line = (0 < length (scan_set line)) × (length (scan_set line) < word_size)

abbrev AreLines : List (List ℕ) → Type 0
AreLines [] = Unit
AreLines (line ∷ lines) = IsLine line × AreLines lines

abbrev pub texts : List Word → List (List ℕ)
texts xs = map (λ (x : Word). x.word) xs

-- What such a line puts into the array: its text without the last character.
abbrev text_or_nil : Option (List ℕ) → List ℕ
text_or_nil none = []
text_or_nil (some text) = text

abbrev line_text : List ℕ → List ℕ
line_text line = text_or_nil (chop (scan_set line))

chop_total : (w : List ℕ) → 0 < length w → (t : List ℕ) × (chop w ≡ some t)
unfolding chop
chop_total [] h = absurd (omega arith)
chop_total (c ∷ []) h = ([], refl)
chop_total (c ∷ d ∷ w) h = let (t, e) = chop_total (d ∷ w) (omega arith) in (c ∷ t, rw e)

read_lines_total :
    (lines : List (List ℕ)) (r : Reading)
    → IsIndex r
    → AreLines lines
    → length r.words + length lines ≤ word_num
    → (r' : Reading) × (read_lines r lines ≡ some r')
      × (texts r'.words ≡ texts r.words ++ map line_text lines)
unfolding read_lines
read_lines_total [] r h a room = (r, refl, sym (append-nil (texts r.words)))
read_lines_total (line ∷ lines) r h a room =
    let (text, e) = chop_total (scan_set line) a.0.0 in
    let (s, p, q) = read_line_returns r line text h a.0.0 a.0.1 (omega arith) e in
    let (r', p', q') =
      read_lines_total lines s (read_line-IsIndex r line s h p) a.1
        (rw q (omega (arith, length-append {0} r.words))) in
    (
      r',
      rw p p',
      q' ∙ ap (λ xs. texts xs ++ map line_text lines) q ∙ rw e (simp (map-append, append_assoc)),
    )

-- The data on a file whose lines are texts with a blank and a rest behind them.
abbrev pub line_of : List ℕ × List ℕ → List ℕ
line_of (text, rest) = text ++ b' ' ∷ rest

abbrev pub IsOutside : List ℕ → Type 0
IsOutside [] = Unit
IsOutside (c ∷ rest) = in_scan_set c ≡ false

-- A text of letters and blanks that fits with its blank, and a rest that begins with another character.
abbrev pub IsEntry : List ℕ × List ℕ → Type 0
IsEntry (text, rest) =
    All (λ (c : ℕ). in_scan_set c ≡ true) text × (length text + 1 < word_size) × IsOutside rest

scan_set-line_of :
    (text rest : List ℕ)
    → All (λ (c : ℕ). in_scan_set c ≡ true) text
    → IsOutside rest
    → scan_set (line_of (text, rest)) ≡ text ++ b' ' ∷ []
unfolding scan_set in_scan_set
scan_set-line_of [] [] a out = refl
scan_set-line_of [] (c ∷ rest) a out = rw out refl
scan_set-line_of (c ∷ text) rest a out = rw (a.0, scan_set-line_of text rest a.1 out) refl

chop-append : (text : List ℕ) (c : ℕ) → chop (text ++ c ∷ []) ≡ some text
unfolding chop
chop-append [] c = refl
chop-append (d ∷ []) c = refl
chop-append (d ∷ e ∷ text) c = rw (chop-append (e ∷ text) c) refl

line_text-line_of :
    (es : List (List ℕ × List ℕ))
    → All IsEntry es
    → map line_text (map line_of es) ≡ map (λ (e : List ℕ × List ℕ). e.0) es
line_text-line_of [] a = refl
line_text-line_of ((text, rest) ∷ es) a =
    ap₂ (◌∷◌)
      (ap (λ l. text_or_nil (chop l)) (scan_set-line_of text rest a.0.0 a.0.2)
        ∙ ap text_or_nil (chop-append text b' '))
      (line_text-line_of es a.1)

AreLines-line_of : (es : List (List ℕ × List ℕ)) → All IsEntry es → AreLines (map line_of es)
AreLines-line_of [] a = tt
AreLines-line_of ((text, rest) ∷ es) a =
    let len = ap length (scan_set-line_of text rest a.0.0 a.0.2) in
    let sum = length-append text (b' ' ∷ []) in
    ((omega (arith, len, sum), omega (arith, len, sum, a.0.1)), AreLines-line_of es a.1)

length-line_of : (es : List (List ℕ × List ℕ)) → length (map line_of es) ≡ length es
length-line_of [] = refl
length-line_of (e ∷ es) = omega (arith, length-line_of es)

-- A file of at most `WORD_NUM` lines, each a text of letters and blanks shorter than 63 characters,
-- a blank, and a rest that does not begin with a letter or a blank, is read without leaving an
-- array, and the array of words has just these texts in their order.
pub read_data_total :
    (es : List (List ℕ × List ℕ))
    → All IsEntry es
    → length es ≤ word_num
    → (r : Reading) × (read_data (map line_of es) ≡ some r)
      × (texts r.words ≡ map (λ (e : List ℕ × List ℕ). e.0) es)
unfolding read_data
read_data_total es a room =
    let (r, p, q) =
      read_lines_total (map line_of es) start start-IsIndex (AreLines-line_of es a)
        (omega (arith, length-line_of es)) in
    (r, p, q ∙ line_text-line_of es a)
