-- ===== src/Transfer/Int.antt =====
-- The receiving loop with a counter that is an `int`, as `file_len` of download_clnt.c is: an `int` is its
-- 32 bits, and those from 2 ^ 31 on are below 0.
use network_camp.Prelude.{
  ℕ, zero, suc, ◌+◌, ◌%◌, ◌≤◌, ◌<◌, Bool, true, false, ◌&&◌, List, [], ◌∷◌, ◌++◌, ◌≡◌, refl, ap,
  sym, ◌∙◌, arith, if◌then◌else◌, ltb, leb, length, take, drop, min, length-append, length-drop,
  append_assoc, append-nil, take-append-drop,
}
use network_camp.Transfer.{Limits, Outcome, done, blocked, out_of_fuel, receive_file}

abbrev pub int_size : ℕ
int_size = 0x1_0000_0000

-- The first that is below 0.
abbrev pub int_half : ℕ
int_half = 0x8000_0000

unfoldable pub add_int : ℕ → ℕ → ℕ
add_int a b = (a + b) % int_size

-- `file_len >= file_size`, where `file_size` is a `long` that is not below 0.
unfoldable pub at_least : ℕ → ℕ → Bool
at_least file_len file_size = ltb file_len int_half && leb file_size file_len

-- The loop of `main` in download_clnt.c.
unfoldable pub receive_file_int : ℕ → Limits → ℕ → ℕ → ℕ → ℕ → List ℕ → List ℕ → Outcome
unfolding add_int at_least
receive_file_int buf_size limits zero j file_size file_len written stream = out_of_fuel
receive_file_int buf_size limits (suc fuel) j file_size file_len written [] = blocked written
receive_file_int buf_size limits (suc fuel) j file_size file_len written (x ∷ stream) =
    let n = min buf_size (limits j + 1) in
    let buf = take n (x ∷ stream) in
    let rest = drop n (x ∷ stream) in
    let read = add_int file_len (length buf) in
    let later =
      receive_file_int buf_size limits fuel (j + 1) file_size read (written ++ buf) rest in
    if at_least read file_size then done (written ++ buf) rest (j + 1) else later

-- Below 2 ^ 31 bytes the counter counts.
pub receive_file_int-eq :
    (buf_size : ℕ) (limits : Limits) (fuel j file_size : ℕ) (written stream : List ℕ)
    → length written + length stream < int_half
    → receive_file_int buf_size limits fuel j file_size (length written) written stream
      ≡ receive_file buf_size limits fuel j file_size written stream
unfolding receive_file_int receive_file add_int at_least
receive_file_int-eq b limits zero j size written stream h = refl
receive_file_int-eq b limits (suc fuel) j size written [] h = refl
receive_file_int-eq b limits (suc fuel) j size written (x ∷ stream) h =
    let n = min b (limits j + 1) in
    let buf = take n (x ∷ stream) in
    let rest = drop n (x ∷ stream) in
    let lens = length-append written buf in
    let split = sym (length-append buf rest) ∙ ap (length {0}) (take-append-drop n (x ∷ stream)) in
    let small : length written + length buf < int_size = omega (arith, h, split) in
    let counts : add_int (length written) (length buf) ≡ length (written ++ buf) =
      omega (arith, lens, small) in
    let same : at_least (add_int (length written) (length buf)) size
        ≡ leb size (length (written ++ buf)) =
      ap (λ m. at_least m size) counts
      ∙ by_half (length (written ++ buf)) (omega (arith, lens, h, split)) in
    rw
      (
        same,
        counts,
        receive_file_int-eq b limits fuel (j + 1) size (written ++ buf) rest
            (omega (arith, lens, h, split)),
      )
      refl
  where
    by_half : (m : ℕ) → m < int_half → at_least m size ≡ leb size m
    by_half m lt = let low : ltb m int_half ≡ true = ground arith in rw low refl

-- From 2 ^ 31 bytes on the loop never ends by its test.
pub receive_file_int-blocks :
    (buf_size : ℕ) (limits : Limits) (fuel j file_size file_len : ℕ) (written stream : List ℕ)
    → 0 < buf_size
    → int_half ≤ file_size
    → length stream < fuel
    → receive_file_int buf_size limits fuel j file_size file_len written stream
      ≡ blocked (written ++ stream)
unfolding receive_file_int at_least
receive_file_int-blocks b limits zero j size len written stream pos big h = absurd (omega arith)
receive_file_int-blocks b limits (suc fuel) j size len written [] pos big h =
    ap blocked (sym (append-nil written))
receive_file_int-blocks b limits (suc fuel) j size len written (x ∷ stream) pos big h =
    let n = min b (limits j + 1) in
    let read = add_int len (length (take n (x ∷ stream))) in
    let never : at_least read size ≡ false = ground arith in
    rw never (
      receive_file_int-blocks b limits fuel (j + 1) size read (written ++ take n (x ∷ stream))
        (drop n (x ∷ stream)) pos big (omega (arith, length-drop n (x ∷ stream)))
      ∙ ap blocked (
          append_assoc written (take n (x ∷ stream)) (drop n (x ∷ stream))
          ∙ ap (◌++◌ written) (take-append-drop n (x ∷ stream))))
