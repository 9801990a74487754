-- ===== src/SearchClient/Typing.antt =====
-- What is typed and what is asked for (search_clnt.c).
use network_camp.Prelude.{
  ℕ, zero, suc, ◌+◌, ◌-◌, ◌≤◌, ◌<◌, true, false, some, List, [], ◌∷◌, ◌++◌, ◌≡◌, ◌≢◌, refl, ap, ap₂,
  sym, ◌∙◌, arith, if◌then◌else◌, ◌==◌, ltb, leb, length, length-append, take, take-append, set,
  set-append, append_assoc, All, Bool-cases, inl, inr, ==→eq,
}
use network_camp.SearchClient.{
  buf_size, Input, strlen, Output, clears, requests, goes_on, send_word, press, type_keys,
}

abbrev zeros : ℕ → List ℕ
zeros zero = []
zeros (suc n) = 0 ∷ zeros n

-- The array holds the text, terminated.
abbrev pub holding : List ℕ → Input
holding text = record {
  word_in_search = text ++ zeros (buf_size - length text);
  next_idx = length text;
  search_word_len = length text;
}

-- A line editor: a key is appended, and 127 takes the last character away.
abbrev but_last : List ℕ → List ℕ
but_last [] = []
but_last (c ∷ []) = []
but_last (c ∷ d ∷ cs) = c ∷ but_last (d ∷ cs)

abbrev pub edit : List ℕ → ℕ → List ℕ
edit text ch = if ch == 127 then but_last text else text ++ ch ∷ []

-- What is asked for with a text.
abbrev pub asked : List ℕ → Output
asked [] = clears
asked (c ∷ cs) = requests (c ∷ cs)

-- The keys of the loop, but for the end of the input and of the line; the terminator is not typed.
abbrev pub IsText : ℕ → Type 0
IsText ch = (ch ≢ 0) × (ch ≢ 4) × (ch ≢ b'\n')

abbrev pub IsWord : List ℕ → Type 0
IsWord text = All (λ (c : ℕ). c ≢ 0) text

strlen_lem :
    (text : List ℕ) (n : ℕ) → IsWord text → strlen (text ++ zeros (suc n)) ≡ some (length text)
unfolding strlen
strlen_lem [] n a = refl
strlen_lem (c ∷ text) n a =
    let inside : (c == 0) ≡ false = ground (arith, a.0) in rw (inside, strlen_lem text n a.1) refl

send_word_lem :
    (text : List ℕ) (array : List ℕ) (len : ℕ)
    → IsWord text
    → length text < buf_size
    → array ≡ text ++ zeros (buf_size - length text)
    → send_word (record { word_in_search = array; next_idx = length text; search_word_len = len })
      ≡ some (goes_on (holding text) (asked text ∷ []))
unfolding send_word
send_word_lem text array len a lt e =
    let room : buf_size - length text ≡ suc (buf_size - length text - 1) = omega arith in
    let found : strlen array ≡ some (length text) =
      ap strlen (e ∙ ap (λ n. text ++ zeros n) room)
      ∙ strlen_lem text (buf_size - length text - 1) a in
    rw (found, e) (by_text text (zeros (buf_size - length text)))
  where
    by_text :
        (text more : List ℕ)
        → some (
            goes_on
              (record {
                word_in_search = text ++ more;
                next_idx = length text;
                search_word_len = length text;
              })
              ((if leb (length text) 0
                  then clears
                  else requests (take (length text) (text ++ more)))
                ∷ []))
          ≡ some (
              goes_on
                (record {
                  word_in_search = text ++ more;
                  next_idx = length text;
                  search_word_len = length text;
                })
                (asked text ∷ []))
    by_text [] more = refl
    by_text (c ∷ text) more =
        let some_text : leb (suc (length text)) 0 ≡ false = ground arith in
        rw (take-append (c ∷ text) more (suc (length text)) refl, some_text) refl

split_last : (text : List ℕ) → 0 < length text → (d : ℕ) × (text ≡ but_last text ++ d ∷ [])
split_last [] h = absurd (omega arith)
split_last (c ∷ []) h = (c, refl)
split_last (c ∷ d ∷ text) h = let (e, q) = split_last (d ∷ text) (omega arith) in (e, ap (◌∷◌ c) q)

IsWord-but_last : (text : List ℕ) → IsWord text → IsWord (but_last text)
IsWord-but_last [] a = tt
IsWord-but_last (c ∷ []) a = tt
IsWord-but_last (c ∷ d ∷ text) a = (a.0, IsWord-but_last (d ∷ text) a.1)

IsWord-snoc : (text : List ℕ) (c : ℕ) → IsWord text → c ≢ 0 → IsWord (text ++ c ∷ [])
IsWord-snoc [] c a h = (h, tt)
IsWord-snoc (d ∷ text) c a h = (a.0, IsWord-snoc text c a.1 h)

press_typed :
    (text : List ℕ) (ch : ℕ)
    → IsWord text
    → IsText ch
    → ch ≢ 127
    → length text + 1 < buf_size
    → press (holding text) ch
      ≡ some (goes_on (holding (text ++ ch ∷ [])) (asked (text ++ ch ∷ []) ∷ []))
unfolding press
press_typed text ch a (nz, n4, nl) h lt =
    let t1 : (ch == 4) ≡ false = ground (arith, n4) in
    let t2 : (ch == 127) ≡ false = ground (arith, h) in
    let t3 : (ch == b'\n') ≡ false = ground (arith, nl) in
    let t4 : ltb (length text) buf_size ≡ true = ground arith in
    let len = length-append text (ch ∷ []) in
    rw (t1, t2, t3, t4)
      (ap
          (λ n. send_word (record {
            word_in_search = set (text ++ zeros (buf_size - length text)) (length text) ch;
            next_idx = n;
            search_word_len = length text;
          }))
          (sym len)
        ∙ send_word_lem (text ++ ch ∷ [])
            (set (text ++ zeros (buf_size - length text)) (length text) ch) (length text)
            (IsWord-snoc text ch a nz) (omega (arith, len))
            (ap (λ n. set (text ++ zeros n) (length text) ch) {x = buf_size - length text}
                {y = suc (buf_size - (length text + 1))} (omega arith)
              ∙ set-append text (zeros (buf_size - (length text + 1))) (length text) 0 ch refl
              ∙ sym (append_assoc text (ch ∷ []) (zeros (buf_size - (length text + 1))))
              ∙ ap (λ n. (text ++ ch ∷ []) ++ zeros (buf_size - n)) (sym len)))

erase_array :
    (kept : List ℕ) (d k : ℕ)
    → set ((kept ++ d ∷ []) ++ zeros k) (length kept) 0 ≡ kept ++ zeros (suc k)
erase_array kept d k =
    ap (λ l. set l (length kept) 0) (append_assoc kept (d ∷ []) (zeros k))
    ∙ set-append kept (zeros k) (length kept) d 0 refl

press_erased :
    (text : List ℕ)
    → IsWord text
    → length text < buf_size
    → press (holding text) 127
      ≡ some (goes_on (holding (but_last text)) (asked (but_last text) ∷ []))
unfolding press
press_erased text a lt = elim (Bool-cases (ltb 0 (length text))) [
  | inr empty ↦ rw empty (by_empty text (ground arith))
  | inl full ↦
      let (d, e) = split_last text (ground arith) in
      let len : length text ≡ length (but_last text) + 1 =
        ap (length {0}) e ∙ length-append (but_last text) (d ∷ []) in
      let kept = but_last text in
      rw full (
        ap
          (λ n. send_word (record {
            word_in_search = set (text ++ zeros (buf_size - length text)) (length text - 1) 0;
            next_idx = n;
            search_word_len = length text;
          }))
          {x = length text - 1} {y = length kept} (omega (arith, len))
        ∙ send_word_lem kept (set (text ++ zeros (buf_size - length text)) (length text - 1) 0)
            (length text) (IsWord-but_last text a) (omega (arith, len))
            (ap₂ (λ l n. set (l ++ zeros (buf_size - length text)) n 0) {u = length text - 1}
                {v = length kept} e (omega (arith, len))
              ∙ erase_array kept d (buf_size - length text)
              ∙ ap (λ n. kept ++ zeros n) {x = suc (buf_size - length text)}
                  {y = buf_size - length kept} (omega (arith, len))))
]
  where
    by_empty :
        (text : List ℕ)
        → length text ≡ 0
        → send_word (holding text)
          ≡ some (goes_on (holding (but_last text)) (asked (but_last text) ∷ []))
    by_empty [] e = send_word_lem [] (zeros buf_size) 0 tt (omega arith) refl
    by_empty (c ∷ text) e = absurd (omega arith)

press-edit :
    (text : List ℕ) (ch : ℕ)
    → IsWord text
    → IsText ch
    → length text + 1 < buf_size
    → press (holding text) ch ≡ some (goes_on (holding (edit text ch)) (asked (edit text ch) ∷ []))
press-edit text ch a h lt = elim (Bool-cases (ch == 127)) [
  | inl erase ↦
      rw erase (ap (press (holding text)) (==→eq ch 127 erase) ∙ press_erased text a (omega arith))
  | inr type ↦ rw type (press_typed text ch a h (ground (arith, type)) lt)
]

pub IsWord-edit : (text : List ℕ) (ch : ℕ) → IsWord text → IsText ch → IsWord (edit text ch)
IsWord-edit text ch a h = elim (Bool-cases (ch == 127)) [
  | inl erase ↦ rw erase (IsWord-but_last text a)
  | inr type ↦ rw type (IsWord-snoc text ch a h.0)
]

length-but_last : (text : List ℕ) → length (but_last text) ≤ length text
length-but_last [] = omega arith
length-but_last (c ∷ []) = omega arith
length-but_last (c ∷ d ∷ text) = omega (arith, length-but_last (d ∷ text))

pub length-edit : (text : List ℕ) (ch : ℕ) → length (edit text ch) ≤ length text + 1
length-edit text ch = ground (arith, length-but_last text, length-append text (ch ∷ []))

-- The text after the keys, and what is asked for on the way.
abbrev pub edits : List ℕ → List ℕ → List ℕ
edits text [] = text
edits text (ch ∷ keys) = edits (edit text ch) keys

abbrev pub questions : List ℕ → List ℕ → List Output
questions text [] = []
questions text (ch ∷ keys) = asked (edit text ch) ∷ questions (edit text ch) keys

type_keys_lem :
    (text keys : List ℕ)
    → IsWord text
    → All IsText keys
    → length text + length keys < buf_size
    → type_keys (holding text) keys
      ≡ some (goes_on (holding (edits text keys)) (questions text keys))
unfolding type_keys
type_keys_lem text [] a b lt = refl
type_keys_lem text (ch ∷ keys) a b lt =
    rw
      (
        press-edit text ch a b.0 (omega arith),
        type_keys_lem (edit text ch) keys (IsWord-edit text ch a b.0) b.1
            (omega (arith, length-edit text ch)),
      )
      refl

-- For fewer than `BUFSIZE` keys, none of them the end of the input or of the line or the
-- terminator, `word_in_search` is never left, always holds the terminated text of a line editor,
-- and each key asks for the text it makes, or clears the answer when that is empty.
pub type_keys-edits :
    (keys : List ℕ)
    → All IsText keys
    → length keys < buf_size
    → type_keys (holding []) keys ≡ some (goes_on (holding (edits [] keys)) (questions [] keys))
type_keys-edits keys b lt = type_keys_lem [] keys tt b (omega arith)
