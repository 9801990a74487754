-- ===== src/Trie/Query.antt =====
-- A query of the trie, `Find_Match_Prefix_Node` followed by `Get_Complete_Words` (trie.c), in terms
-- of the labels that the trie stores.
use mathlib.Core.List.{Sublist, Sublistᴰ, Memᴰ}
use mathlib.Core.List.Memᴰ
use mathlib.Core.Logic.{∥∥₁_elim}
use mathlib.Core.Bool.{So-prop}
use network_camp.Prelude.{
  ℕ, true, List, [], ◌∷◌, ◌≡◌, ◌≢◌, ◌↔◌, refl, ap, sym, ◌∙◌, arith, ◌==◌, Bool-cases, inl, inr,
  ==→eq,
}
use network_camp.Trie.{TrieNode, char_of, copies_fit, find_match, complete_words}
use network_camp.Trie.Labels.{Entry, entries, word_counts, counts-complete_words}
use network_camp.Trie.Match.{sub_seq, hits, hits-push, found-match}

-- Skipping a character never loses a match.
sub_seq-skip : (s : List ℕ) (c d : ℕ) (w : List ℕ) → sub_seq (c ∷ s) w ≡ true → sub_seq s w ≡ true
unfolding sub_seq
sub_seq-skip [] c d w h = refl
sub_seq-skip (b ∷ s) c d [] h = cc
sub_seq-skip (b ∷ s) c d (e ∷ w) h =
    ground (arith, sub_seq-skip s b d w, sub_seq-skip (b ∷ s) c d w)

sub_seq-cons : (s : List ℕ) (d : ℕ) (w : List ℕ) → sub_seq s w ≡ true → sub_seq s (d ∷ w) ≡ true
unfolding sub_seq
sub_seq-cons [] d w h = refl
sub_seq-cons (c ∷ s) d w h = ground (arith, sub_seq-skip s c d w)

Sublist→sub_seq : {s w : List ℕ} → Sublistᴰ s w → sub_seq s w ≡ true
unfolding sub_seq
Sublist→sub_seq Sublistᴰ.slnil = refl
Sublist→sub_seq (Sublistᴰ.cons {a = a} {l₁ = s} {l₂ = w} h) = sub_seq-cons s a w (Sublist→sub_seq h)
Sublist→sub_seq (Sublistᴰ.cons-cons {a = a} {b = b} e h) =
    let ih = Sublist→sub_seq h in ground arith

nil-Sublistᴰ : (w : List ℕ) → Sublistᴰ [] w
nil-Sublistᴰ [] = Sublistᴰ.slnil
nil-Sublistᴰ (d ∷ w) = Sublistᴰ.cons (nil-Sublistᴰ w)

sub_seq→Sublist : (s w : List ℕ) → sub_seq s w ≡ true → Sublistᴰ s w
unfolding sub_seq
sub_seq→Sublist [] w h = nil-Sublistᴰ w
sub_seq→Sublist (c ∷ s) [] h = cc
sub_seq→Sublist (c ∷ s) (d ∷ w) h = elim (Bool-cases (c == d)) [
  | inl same ↦ Sublistᴰ.cons-cons (==→eq c d same) (sub_seq→Sublist s w (rw (same, sub_seq) at h))
  | inr other ↦ Sublistᴰ.cons (sub_seq→Sublist (c ∷ s) w (rw (other, sub_seq) at h))
]

-- The greedy test decides the library's subsequence relation.
pub sub_seq_iff : (s w : List ℕ) → (sub_seq s w ≡ true) ↔ Sublist s w
sub_seq_iff s w = (λ h. ∣ sub_seq→Sublist s w h ∣₁, λ h. ∥∥₁_elim h (So-prop _) Sublist→sub_seq)

-- For a search word that does not begin with the character of the node where the search starts,
-- when all that is copied fits its arrays (`copies_fit`), the counts that come out are those of the
-- labels below that node that have the search word as a subsequence, in the order of the walk,
-- whatever else stands in the buffer `word`.
pub query-eq-hits :
    (root : TrieNode) (c : ℕ) (s word : List ℕ)
    → c ≢ char_of root
    → copies_fit (c ∷ s) root word ≡ true
    → word_counts (complete_words (find_match (c ∷ s) root word [] 0) [])
      ≡ hits (c ∷ s) (entries root)
query-eq-hits root c s word h fit =
    counts-complete_words (find_match (c ∷ s) root word [] 0) []
    ∙ found-match (c ∷ s) root word [] 0 (omega arith)
    ∙ hits-push c s (char_of root) (entries root)
    ∙ ap (λ l. hits l (entries root)) (ground arith)

mem_of_hits :
    (s : List ℕ) (k : ℕ) (es : List Entry)
    → Memᴰ k (hits s es)
    → (w : List ℕ) × Memᴰ (w, k) es × (sub_seq s w ≡ true)
unfolding hits
mem_of_hits s k [] m = elim (Memᴰ.not-nil m) [ ]
mem_of_hits s k ((w, j) ∷ es) m = elim (Bool-cases (sub_seq s w)) [
  | inl hit ↦ elim (Memᴰ.cases_cons (rw hit at m)) [
    | inl e ↦ (w, Memᴰ.head (ap (λ i. (w, i)) e), hit)
    | inr r ↦ let (v, n, h) = mem_of_hits s k es r in (v, Memᴰ.tail n, h)
  ]
  | inr miss ↦ let (v, n, h) = mem_of_hits s k es (rw miss at m) in (v, Memᴰ.tail n, h)
]

hits_of_mem :
    (s : List ℕ) {w : List ℕ} {k : ℕ} (es : List Entry)
    → Memᴰ (w, k) es
    → sub_seq s w ≡ true
    → Memᴰ k (hits s es)
unfolding hits
hits_of_mem s [] m h = elim (Memᴰ.not-nil m) [ ]
hits_of_mem s {w} {k} ((v, j) ∷ es) (Memᴰ.head e) h =
    rw (ap (sub_seq s) (ap (λ p. p.0) (sym e)) ∙ h) (Memᴰ.head (ap (λ p. p.1) e))
hits_of_mem s ((v, j) ∷ es) (Memᴰ.tail m) h =
    let ih = hits_of_mem s es m h in
    elim (Bool-cases (sub_seq s v)) [ inl hit ↦ rw hit (Memᴰ.tail ih) | inr miss ↦ rw miss ih ]

-- A count is a hit exactly when some label of that count matches.
pub mem-hits :
    (s : List ℕ) (k : ℕ) (es : List Entry)
    → Memᴰ k (hits s es) ↔ ((w : List ℕ) × Memᴰ (w, k) es × (sub_seq s w ≡ true))
mem-hits s k es = (mem_of_hits s k es, λ r. hits_of_mem s es r.1 r.2)
