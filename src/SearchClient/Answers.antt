-- ===== src/SearchClient/Answers.antt =====
-- The loop of `recv_search_result` over what the server has written (search_clnt.c).
use network_camp.Prelude.{
  ◌&&◌, ltb, false, if◌then◌else◌, ℕ, ◌+◌, ◌≡◌, refl, ap, sym, ◌∙◌, arith, Option, none, some, List,
  [], ◌∷◌, ◌++◌, length, map, append-nil, ◌>>=◌,
}
use network_camp.Trie.{Word}
use network_camp.Search.Data.{Reading}
use network_camp.Search.Engine.Answer.{search_engine-top}
use network_camp.Search.Engine.{Reply, search_engine}
use network_camp.Search.Serving.{Item, count, entry, items, all_items, answers}
use network_camp.SearchClient.{Line, print_result, receive_result}
use network_camp.SearchClient.Result.{receive_result-search_engine}

-- The structures that come before the next count, and what stands behind them.
unfoldable pub words_ahead : List Item → List Word × List Item
words_ahead [] = ([], [])
words_ahead (count n ∷ stream) = ([], count n ∷ stream)
words_ahead (entry w ∷ stream) = let (ws, rest) = words_ahead stream in (w ∷ ws, rest)

-- A round of the loop: `Receive_Count`, and what is read for it. `none` where the connection has ended,
-- or where a structure is read for a count or a count for a structure.
unfoldable pub receive_answer : List ℕ → List Item → Option (List Line × List Item)
unfolding words_ahead
receive_answer word_in_search [] = none
receive_answer word_in_search (entry w ∷ stream) = none
receive_answer word_in_search (count n ∷ stream) =
    let (ws, rest) = words_ahead stream in
    let answer = receive_result word_in_search n ws >>= λ (lines, unread).
    some (lines, map entry unread ++ rest) in
    if ltb (length ws) n && ltb 0 (length rest) then none else answer

-- Rounds, one after the other, each with the word in search that it finds.
unfoldable pub receive_answers : List (List ℕ) → List Item → Option (List (List Line) × List Item)
unfolding receive_answer
receive_answers [] stream = some ([], stream)
receive_answers (word_in_search ∷ words) stream =
    receive_answer word_in_search stream >>= λ (lines, rest).
    receive_answers words rest >>= λ (more, left). some (lines ∷ more, left)

words_ahead-items :
    (sent : List Word) (replies : List Reply)
    → words_ahead (map entry sent ++ all_items replies) ≡ (sent, all_items replies)
unfolding words_ahead
words_ahead-items [] [] = refl
words_ahead-items [] (reply ∷ replies) = refl
words_ahead-items (w ∷ sent) replies = rw (words_ahead-items sent replies) refl

-- The lines for an answer.
abbrev pub lines_for : List ℕ → Reply → List Line
lines_for word_in_search reply = print_result word_in_search (map (λ (x : Word). x.word) reply.sent)

-- What is shown for the answers, with the word in search that each of them finds.
abbrev pub displays : List (List ℕ) → List Reply → List (List Line)
displays [] replies = []
displays (w ∷ words) [] = []
displays (w ∷ words) (reply ∷ replies) = lines_for w reply ∷ displays words replies

pub receive_answer-items :
    (r : Reading) (word request word_in_search : List ℕ) (replies : List Reply)
    → receive_answer word_in_search (items (search_engine r word request) ++ all_items replies)
      ≡ some (lines_for word_in_search (search_engine r word request), all_items replies)
unfolding receive_answer
receive_answer-items r word request w replies =
    let reply = search_engine r word request in
    let alone : receive_result w reply.count reply.sent ≡ some (lines_for w reply, []) =
      ap (receive_result w reply.count) (sym (append-nil reply.sent))
      ∙ receive_result-search_engine r word request w [] in
    let (_, _, _, _, size, _) = search_engine-top r word request in
    let all : ltb (length reply.sent) reply.count ≡ false = ground (arith, size) in
    rw (words_ahead-items reply.sent replies, all, alone) refl

-- All the answers are read.
pub receive_answers-answers :
    (r : Reading) (word : ℕ → List ℕ) (j : ℕ) (requests words : List (List ℕ))
    → length words ≡ length requests
    → receive_answers words (all_items (answers r word j requests))
      ≡ some (displays words (answers r word j requests), [])
unfolding receive_answers
receive_answers-answers r word j [] [] e = refl
receive_answers-answers r word j [] (w ∷ words) e = absurd (omega arith)
receive_answers-answers r word j (request ∷ requests) [] e = absurd (omega arith)
receive_answers-answers r word j (request ∷ requests) (w ∷ words) e =
    rw
      (
        receive_answer-items r (word j) request w (answers r word (j + 1) requests),
        receive_answers-answers r word (j + 1) requests words (omega arith),
      )
      refl
