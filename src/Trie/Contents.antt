-- ===== src/Trie/Contents.antt =====
-- The labels that the walk of the trie meets (trie.c) are the words that were inserted.
use mathlib.Core.List.{Memᴰ}
use mathlib.Core.List.Memᴰ
use mathlib.Core.Option.{some-injective}
use network_camp.Prelude.{
  ℕ, zero, suc, ◌+◌, Bool, true, false, ◌≡◌, ◌↔◌, refl, ap, sym, subst, ◌∙◌, arith, some, List, [],
  ◌∷◌, ◌++◌, map, ◌>>=◌, >>=-eq-some, inl, inr, Memᴰ-map, Memᴰ_of_map,
}
use network_camp.Trie.{TrieNode, node, Children, end, null, child, char_of, child_at, slot_of}
use network_camp.Trie.Labels.{Entry, push, own, entries, child_entries}
use network_camp.Trie.Shape.{IsKey, slot_of-injective, IsTrie, AreTries, AreTries-child_at}
use network_camp.Trie.Insert.{lookup}

-- Where a label below an array of children comes from.
record FromChild (i : ℕ) (cs : Children) (w : List ℕ) (k : ℕ) : Type 0 where
  first : ℕ
  rest : List ℕ
  slot : ℕ
  sub : TrieNode
  split : w ≡ first ∷ rest
  at : slot_of first ≡ some (i + slot)
  here : child_at cs slot ≡ some sub
  key : IsKey (first ∷ rest)
  held : lookup sub rest ≡ some k

FromChild-shift :
    {i : ℕ} {cs ds : Children} {w : List ℕ} {k : ℕ}
    → ((j : ℕ) → child_at ds (suc j) ≡ child_at cs j)
    → FromChild (suc i) cs w k
    → FromChild i ds w k
FromChild-shift e f = record {
  first = f.first;
  rest = f.rest;
  slot = suc f.slot;
  sub = f.sub;
  split = f.split;
  at = f.at ∙ ap some (omega arith);
  here = e f.slot ∙ f.here;
  key = f.key;
  held = f.held;
}

FromChild-lookup :
    (d : ℕ) (cs : Children) (l : ℕ) (b : Bool) {w : List ℕ} {k : ℕ}
    → FromChild 0 cs w k
    → (lookup (node d cs l b) w ≡ some k) × IsKey w
unfolding lookup
FromChild-lookup d cs l b f =
    let e : slot_of f.first ≡ some f.slot = f.at ∙ ap some (omega arith) in
    rw f.split (rw (e, f.here) f.held, f.key)

mutual
  unfolding entries child_entries IsTrie AreTries lookup child_at

  entries-lookup :
      (t : TrieNode) (w : List ℕ) (k : ℕ)
      → IsTrie t
      → Memᴰ (w, k) (entries t)
      → (lookup t w ≡ some k) × IsKey w
  entries-lookup (node d cs l true) w k h m = elim (Memᴰ.append_cases (own true l) m) [
    | inl mine ↦
        subst (λ (x : Entry). (lookup (node d cs l true) x.0 ≡ some x.1) × IsKey x.0)
          (sym (Memᴰ.eq_of_singleton mine)) (refl, tt)
    | inr below ↦ FromChild-lookup d cs l true (children-lookup 0 cs w k h.1 below)
  ]
  entries-lookup (node d cs l false) w k h m =
      FromChild-lookup d cs l false (children-lookup 0 cs w k h.1 m)

  children-lookup :
      (i : ℕ) (cs : Children) (w : List ℕ) (k : ℕ)
      → AreTries i cs
      → Memᴰ (w, k) (child_entries cs)
      → FromChild i cs w k
  children-lookup i end w k h m = elim (Memᴰ.not-nil m) [ ]
  children-lookup i (null cs) w k h m =
      FromChild-shift (λ j. refl) (children-lookup (suc i) cs w k h m)
  children-lookup i (child t cs) w k h m =
      elim (Memᴰ.append_cases (map (push (char_of t)) (entries t)) m) [
        | inl this ↦
            let ((v, j), n, e) = Memᴰ_of_map (push (char_of t)) (entries t) this in
            let (held, key) = entries-lookup t v j h.2 n in
            record {
              first = char_of t;
              rest = v;
              slot = 0;
              sub = t;
              split = ap (λ (x : Entry). x.0) e;
              at = h.0 ∙ ap some (omega arith);
              here = refl;
              key = (h.1, key);
              held = held ∙ ap some (ap (λ (x : Entry). x.1) (sym e));
            }
        | inr later ↦ FromChild-shift (λ j. refl) (children-lookup (suc i) cs w k h.3 later)
      ]

mem-child_entries :
    (cs : Children) (i : ℕ) (t : TrieNode) {v : List ℕ} {k : ℕ}
    → child_at cs i ≡ some t
    → Memᴰ (v, k) (entries t)
    → Memᴰ (char_of t ∷ v, k) (child_entries cs)
unfolding child_at child_entries
mem-child_entries end i t e m = cc
mem-child_entries (null cs) zero t e m = cc
mem-child_entries (null cs) (suc i) t e m = mem-child_entries cs i t e m
mem-child_entries (child u cs) (suc i) t e m =
    Memᴰ.append_right (map (push (char_of u)) (entries u)) (mem-child_entries cs i t e m)
mem-child_entries (child u cs) zero t {v} {k} e m =
    subst (λ x. Memᴰ (char_of t ∷ v, k) (map (push (char_of x)) (entries x) ++ child_entries cs))
      (sym (some-injective u t e))
      (Memᴰ.append_left (child_entries cs) (Memᴰ-map (push (char_of t)) m))

lookup-entries :
    (t : TrieNode) (w : List ℕ) (k : ℕ)
    → IsTrie t
    → IsKey w
    → lookup t w ≡ some k
    → Memᴰ (w, k) (entries t)
unfolding lookup entries IsTrie
lookup-entries (node d cs l true) [] k h key e =
    Memᴰ.head (ap (λ i. ([], i)) (sym (some-injective l k e)))
lookup-entries (node d cs l false) [] k h key e = cc
lookup-entries (node d cs l b) (c ∷ w) k h key e =
    let (i, q, e') = >>=-eq-some (slot_of c) (λ j. child_at cs j >>= λ t. lookup t w) e in
    let (t, at, e'') = >>=-eq-some (child_at cs i) (λ t. lookup t w) e' in
    let r = AreTries-child_at cs 0 i t h.1 at in
    let same : char_of t ≡ c =
      slot_of-injective (char_of t) c r.1 key.0 (r.0 ∙ ap some (omega arith) ∙ sym q) in
    Memᴰ.append_right (own b l) (
      subst (λ x. Memᴰ (x ∷ w, k) (child_entries cs)) same
        (mem-child_entries cs i t at (lookup-entries t w k r.2 key.1 e'')))

-- In a well-formed trie the walk of `Find_Complete_InChild` meets a word with a count exactly if
-- the trie holds that count for that word and the word is over the alphabet.
pub mem-entries :
    (t : TrieNode) (w : List ℕ) (k : ℕ)
    → IsTrie t
    → Memᴰ (w, k) (entries t) ↔ ((lookup t w ≡ some k) × IsKey w)
mem-entries t w k h = (λ m. entries-lookup t w k h m, λ (e, key). lookup-entries t w k h key e)
