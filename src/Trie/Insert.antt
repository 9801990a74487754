-- ===== src/Trie/Insert.antt =====
-- `insert_trie` (trie.c) as an update of a finite map from words to counts.
use mathlib.Core.Option.{some-injective}
use network_camp.Prelude.{
  ℕ, Bool, true, false, ◌≡◌, refl, ap, sym, subst, ◌∙◌, arith, Option, none, some, List, [], ◌∷◌,
  ◌==◌, if◌then◌else◌, ◌>>=◌, Bool-cases, Option-cases, inl, inr, same_word, ==→eq, eq→==,
}
use network_camp.Trie.{
  TrieNode, node, Children, char_of, make_trienode, child_at, set_child, slot_of, slot_count,
  child_or_new, insert_trie,
}
use network_camp.Trie.Shape.{
  IsChar, IsKey, slot_of-total, slot_of-injective, slot_of-lt, slots, IsTrie, AreTries,
  slots-set_child, child_at-set_child, AreTries-set_child, child_at-nulls, make_trienode-IsTrie,
  AreTries-child_at,
}

-- The count stored for a word.
unfoldable pub lookup : TrieNode → List ℕ → Option ℕ
lookup (node d cs l b) [] = if b then some l else none
lookup (node d cs l b) (c ∷ w) = slot_of c >>= λ i. child_at cs i >>= λ t. lookup t w

lookup-make_trienode : (d : ℕ) (w : List ℕ) → lookup (make_trienode d) w ≡ none
unfolding lookup make_trienode
lookup-make_trienode d [] = refl
lookup-make_trienode d (c ∷ w) = elim (Option-cases (slot_of c)) [
  | inl e ↦ rw e
  | inr (i, e) ↦ rw (e, child_at-nulls slot_count i)
]

-- What `insert_trie` finds in a slot: a well-formed child with the character of the slot.
module _ (cs : Children) (h : AreTries 0 cs) {c : ℕ} (k : IsChar c) {i : ℕ}
    (e : slot_of c ≡ some i) where
  child_or_new-IsTrie :
      IsTrie (child_or_new (child_at cs i) c) × (char_of (child_or_new (child_at cs i) c) ≡ c)
  unfolding child_or_new make_trienode
  child_or_new-IsTrie = elim (Option-cases (child_at cs i)) [
    | inl n ↦ rw n (make_trienode-IsTrie c, refl)
    | inr (t, q) ↦
        let r = AreTries-child_at cs 0 i t h q in
        rw q (r.2, slot_of-injective (char_of t) c r.1 k (ground arith))
  ]

char-insert_trie :
    (t : TrieNode) (w : List ℕ) (k : ℕ) {u : TrieNode}
    → insert_trie t w k ≡ some u
    → char_of u ≡ char_of t
unfolding insert_trie
char-insert_trie (node d cs l b) [] k e = ground arith
char-insert_trie (node d cs l b) (c ∷ w) k e = ground arith

lookup-child_or_new :
    (o : Option TrieNode) (c : ℕ) (v : List ℕ)
    → lookup (child_or_new o c) v ≡ (o >>= λ t. lookup t v)
unfolding child_or_new
lookup-child_or_new none c v = lookup-make_trienode c v
lookup-child_or_new (some t) c v = refl

lookup-set_here :
    (d : ℕ) (cs : Children) (l : ℕ) (b : Bool) (k : ℕ) (v : List ℕ)
    → IsKey v
    → lookup (node d cs k true) v ≡ (if same_word [] v then some k else lookup (node d cs l b) v)
unfolding lookup same_word
lookup-set_here d cs l b k [] key = refl
lookup-set_here d cs l b k (c ∷ v) key = refl

-- One level up: what the changed slot makes of the words that begin with its character.
lookup-set_child :
    (d : ℕ) (cs : Children) (l : ℕ) (b : Bool) (c : ℕ) (w : List ℕ) (k i : ℕ) (u : TrieNode)
    → slots cs ≡ slot_count
    → IsChar c
    → slot_of c ≡ some i
    → ((v : List ℕ)
        → IsKey v
        → lookup u v
          ≡ (if same_word w v then some k else lookup (child_or_new (child_at cs i) c) v))
    → (v : List ℕ) → IsKey v
    → lookup (node d (set_child cs i u) l b) v
      ≡ (if same_word (c ∷ w) v then some k else lookup (node d cs l b) v)
unfolding lookup same_word
lookup-set_child d cs l b c w k i u sz ch e ih [] key = refl
lookup-set_child d cs l b c w k i u sz ch e ih (x ∷ v) key =
    let (j, q, lt) = slot_of-total x key.0 in
    rw (q, child_at-set_child u cs i j (omega (arith, slot_of-lt c i e)))
      (elim (Bool-cases (c == x)) [
        | inl same ↦
            let ij : i ≡ j = ground (arith, ap slot_of (==→eq c x same)) in
            rw (same, eq→== i j ij, ih v key.1, lookup-child_or_new (child_at cs i) c v, ij)
        | inr other ↦
            let ij : (i == j) ≡ false = ground (arith, slot_of-injective c x) in rw (other, ij)
      ])

-- What a call returns.
pub record Inserted (t : TrieNode) (w : List ℕ) (k : ℕ) : Type 0 where
  pub result : TrieNode
  pub returns : insert_trie t w k ≡ some result
  pub wf : IsTrie result
  pub stored :
      (v : List ℕ) → IsKey v → lookup result v ≡ (if same_word w v then some k else lookup t v)

-- On words over the alphabet `insert_trie` never leaves its arrays, keeps the trie well-formed, and
-- changes what is stored for that word and for no other.
pub inserted : (t : TrieNode) (w : List ℕ) (k : ℕ) → IsTrie t → IsKey w → Inserted t w k
unfolding insert_trie IsTrie AreTries lookup same_word
inserted (node d cs l b) [] k h key = record {
  result = node d cs k true;
  returns = refl;
  wf = h;
  stored = lookup-set_here d cs l b k;
}
inserted (node d cs l b) (c ∷ w) k h key =
    let (i, e, lt) = slot_of-total c key.0 in
    let (sub, ch) = child_or_new-IsTrie cs h.1 key.0 e in
    let r = inserted (child_or_new (child_at cs i) c) w k sub key.1 in
    record {
      result = node d (set_child cs i r.result) l b;
      returns = rw (e, r.returns);
      wf = (
        slots-set_child r.result cs i ∙ h.0,
        AreTries-set_child r.result cs 0 i h.1
            (ap slot_of (char-insert_trie (child_or_new (child_at cs i) c) w k r.returns ∙ ch)
              ∙ e
              ∙ ap some (omega arith))
            (subst IsChar
              (sym (char-insert_trie (child_or_new (child_at cs i) c) w k r.returns ∙ ch)) key.0)
            r.wf,
      );
      stored = lookup-set_child d cs l b c w k i r.result h.0 key.0 e r.stored;
    }

-- `insert_trie` of a word over the alphabet into a well-formed trie returns a well-formed trie with
-- the same root character: no slot outside `children` is written.
pub insert_trie-IsTrie :
    (t : TrieNode) (w : List ℕ) (k : ℕ)
    → IsTrie t
    → IsKey w
    → (u : TrieNode) × (insert_trie t w k ≡ some u) × IsTrie u × (char_of u ≡ char_of t)
insert_trie-IsTrie t w k h key =
    let r = inserted t w k h key in (r.result, r.returns, r.wf, char-insert_trie t w k r.returns)

-- After `insert_trie` of a word over the alphabet with a count into a well-formed trie, the trie
-- holds that count for that word, and for every other word over the alphabet what it held before.
pub lookup-insert_trie :
    (t : TrieNode) (w : List ℕ) (k : ℕ) (u : TrieNode) (v : List ℕ)
    → IsTrie t
    → IsKey w
    → insert_trie t w k ≡ some u
    → IsKey v
    → lookup u v ≡ (if same_word w v then some k else lookup t v)
lookup-insert_trie t w k u v h key e key' =
    let r = inserted t w k h key in
    ap (λ x. lookup x v) (some-injective u r.result (sym e ∙ r.returns)) ∙ r.stored v key'

-- A new node holds no word.
pub lookup_empty : (d : ℕ) (w : List ℕ) → lookup (make_trienode d) w ≡ none
lookup_empty = lookup-make_trienode
