-- ===== src/Trie/Match.antt =====
-- `Find_Match_Prefix_Node` and `Get_Complete_Words` (trie.c) against the subsequence relation.
use network_camp.Prelude.{
  ℕ, suc, ◌<◌, Bool, true, false, List, [], ◌∷◌, ◌++◌, ◌≡◌, refl, ap, sym, ◌∙◌, map, append-nil,
  append_assoc, arith, if◌then◌else◌, ◌==◌, length, get_or, drop, drop-get_or, drop_all, Bool-cases,
  inl, inr, ==→eq,
}
use network_camp.Trie.{
  TrieNode, node, Children, end, null, child, char_of, append_char, Found, find_match,
  find_match_children,
}
use network_camp.Trie.Labels.{
  Entry, push, own, entries, child_entries, counts, found_counts, found_counts-append,
}

-- The characters of the search word stand in the label in their order, with gaps allowed: taken
-- greedily from the left.
unfoldable pub sub_seq : List ℕ → List ℕ → Bool
sub_seq [] w = true
sub_seq (c ∷ s) [] = false
sub_seq (c ∷ s) (d ∷ w) = sub_seq (if c == d then s else c ∷ s) w

-- The counts of the entries whose label has the search word as a subsequence.
unfoldable pub hits : List ℕ → List Entry → List ℕ
unfolding sub_seq
hits s [] = []
hits s ((w, k) ∷ es) = if sub_seq s w then k ∷ hits s es else hits s es

pub hits-append : (s : List ℕ) (es fs : List Entry) → hits s (es ++ fs) ≡ hits s es ++ hits s fs
unfolding hits
hits-append s [] fs = refl
hits-append s ((w, k) ∷ es) fs = ground (arith, hits-append s es fs)

pub hits-nil : (es : List Entry) → hits [] es ≡ counts es
unfolding hits
hits-nil [] = refl
hits-nil ((w, k) ∷ es) = ap (◌∷◌ k) (hits-nil es)

pub hits-push :
    (c : ℕ) (s : List ℕ) (d : ℕ) (es : List Entry)
    → hits (c ∷ s) (map (push d) es) ≡ hits (if c == d then s else c ∷ s) es
unfolding hits
hits-push c s d [] = refl
hits-push c s d ((w, k) ∷ es) = ground (arith, hits-push c s d es)

hits-own : (c : ℕ) (s : List ℕ) (b : Bool) (l : ℕ) → hits (c ∷ s) (own b l) ≡ []
unfolding hits
hits-own c s true l = refl
hits-own c s false l = refl

module _ (s : List ℕ) (n : ℕ) (h : n < length s) (es : List Entry) where
  hits-drop-own : (b : Bool) (l : ℕ) → hits (drop n s) (own b l ++ es) ≡ hits (drop n s) es
  hits-drop-own b l =
      rw (drop-get_or n s 0 h)
        (hits-append _ (own b l) es ∙ rw (hits-own (get_or s n 0) (drop (suc n) s) b l))

  hits-drop-push :
      (d : ℕ)
      → hits (drop n s) (map (push d) es)
        ≡ hits (if get_or s n 0 == d then drop (suc n) s else drop n s) es
  hits-drop-push d = rw (drop-get_or n s 0 h) (hits-push (get_or s n 0) (drop (suc n) s) d es)

mutual
  unfolding find_match find_match_children entries child_entries hits

  pub found-match :
      (s : List ℕ) (t : TrieNode) (word : List ℕ) (found : List Found) (n : ℕ)
      → n < length s
      → found_counts (find_match s t word found n)
        ≡ found_counts found ++ hits (drop n s) (map (push (char_of t)) (entries t))
  found-match s (node d cs l b) word found n h = elim (Bool-cases (get_or s n 0 == d)) [
    | inl hit ↦ elim (Bool-cases (suc n == length s)) [
      | inl last ↦
          rw
            (
              hits-drop-push s n h (own b l ++ child_entries cs) d,
              hit,
              last,
              drop_all (suc n) s (omega (arith, ==→eq (suc n) (length s) last)),
              hits-nil (own b l ++ child_entries cs),
              found_counts-append found
                  (record { word = append_char word d; root = node d cs l b } ∷ []),
            )
            (simp append-nil)
      | inr more ↦
          rw
            (
              hits-drop-push s n h (own b l ++ child_entries cs) d,
              hit,
              more,
              hits-drop-own s (suc n) (ground arith) (child_entries cs) b l,
            )
            (found-match_children s cs (append_char word d) found (suc n) (ground arith))
    ]
    | inr miss ↦
        rw
          (
            hits-drop-push s n h (own b l ++ child_entries cs) d,
            miss,
            hits-drop-own s n h (child_entries cs) b l,
          )
          (found-match_children s cs (append_char word d) found n h)
  ]

  found-match_children :
      (s : List ℕ) (cs : Children) (word : List ℕ) (found : List Found) (n : ℕ)
      → n < length s
      → found_counts (find_match_children s cs word found n)
        ≡ found_counts found ++ hits (drop n s) (child_entries cs)
  found-match_children s end word found n h = sym (append-nil (found_counts found))
  found-match_children s (null cs) word found n h = found-match_children s cs word found n h
  found-match_children s (child t cs) word found n h =
      found-match_children s cs word (find_match s t word found n) n h
      ∙ rw (found-match s t word found n h)
          (simp (hits-append (drop n s) (map (push (char_of t)) (entries t)), append_assoc))
