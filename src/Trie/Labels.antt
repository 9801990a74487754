-- ===== src/Trie/Labels.antt =====
-- What a trie node stores, as a list of label and count in the order of the walk, and
-- `Find_Complete_InChild` (trie.c) as that list.
use network_camp.Prelude.{
  ℕ, Bool, true, false, List, [], ◌∷◌, ◌++◌, ◌≡◌, refl, ap, sym, ◌∙◌, map, map-append, append-nil,
  append_assoc, if◌then◌else◌,
}
use network_camp.Trie.{
  TrieNode, node, Children, end, null, child, char_of, append_char, Found, Word, find_complete,
  find_complete_children, complete_words,
}

abbrev pub Entry : Type 0
Entry = List ℕ × ℕ

abbrev pub push : ℕ → Entry → Entry
push d (w, k) = (d ∷ w, k)

abbrev pub own : Bool → ℕ → List Entry
own b l = if b then ([], l) ∷ [] else []

-- The labels below a node, its own character left out.
unfoldable mutual
  pub entries : TrieNode → List Entry
  entries (node d cs l b) = own b l ++ child_entries cs

  pub child_entries : Children → List Entry
  child_entries end = []
  child_entries (null cs) = child_entries cs
  child_entries (child t cs) = map (push (char_of t)) (entries t) ++ child_entries cs

abbrev pub counts : List Entry → List ℕ
counts es = map (λ (e : Entry). e.1) es

abbrev pub word_counts : List Word → List ℕ
word_counts ws = map (λ (w : Word). w.search_count) ws

pub counts-push : (d : ℕ) (es : List Entry) → counts (map (push d) es) ≡ counts es
counts-push d [] = refl
counts-push d (e ∷ es) = ap (◌∷◌ e.1) (counts-push d es)

-- The counts that `Find_Complete_InChild` adds are those of the entries, whatever the word is.
mutual
  unfolding find_complete find_complete_children entries child_entries

  counts_complete :
      (t : TrieNode) (word : List ℕ) (words : List Word)
      → word_counts (find_complete t word words) ≡ word_counts words ++ counts (entries t)
  counts_complete (node d cs l true) word words =
      counts-children cs word (words ++ record { word = word; search_count = l } ∷ [])
      ∙ simp (map-append, append_assoc)
  counts_complete (node d cs l false) word words = counts-children cs word words

  counts-children :
      (cs : Children) (word : List ℕ) (words : List Word)
      → word_counts (find_complete_children cs word words)
        ≡ word_counts words ++ counts (child_entries cs)
  counts-children end word words = sym (append-nil _)
  counts-children (null cs) word words = counts-children cs word words
  counts-children (child t cs) word words =
      counts-children cs word (find_complete t (append_char word (char_of t)) words)
      ∙ rw (counts_complete t (append_char word (char_of t)) words)
          (simp (map-append, counts-push, append_assoc))

pub counts-find_complete :
    (t : TrieNode) (word : List ℕ) (words : List Word)
    → word_counts (find_complete t word words) ≡ word_counts words ++ counts (entries t)
counts-find_complete t word words = counts_complete t word words

-- The counts below the nodes that were found, in their order.
abbrev pub found_counts : List Found → List ℕ
found_counts [] = []
found_counts (f ∷ found) = counts (entries f.root) ++ found_counts found

pub found_counts-append :
    (f g : List Found) → found_counts (f ++ g) ≡ found_counts f ++ found_counts g
found_counts-append [] g = refl
found_counts-append (x ∷ f) g = simp (found_counts-append f g, append_assoc)

pub counts-complete_words :
    (found : List Found) (words : List Word)
    → word_counts (complete_words found words) ≡ word_counts words ++ found_counts found
unfolding complete_words
counts-complete_words [] words = sym (append-nil _)
counts-complete_words (f ∷ found) words =
    counts-complete_words found (find_complete f.root f.word words)
    ∙ rw (counts-find_complete f.root f.word words) (simp append_assoc)
