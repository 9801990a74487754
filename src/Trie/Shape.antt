-- ===== src/Trie/Shape.antt =====
-- Well-formed tries, and the slots of `children` (trie.c).
use mathlib.Core.Option.{some-injective}
use network_camp.Prelude.{
  subst, ℕ, zero, suc, ◌+◌, ◌-◌, ◌≤◌, ◌<◌, ◌≡◌, ◌⊎◌, refl, ap, arith, none, some, List, ◌==◌,
  if◌then◌else◌, All,
}
use network_camp.Trie.{
  TrieNode, node, Children, end, null, child, char_of, nulls, make_trienode, child_at, set_child,
  slot_of, slot_count,
}

-- The characters that the trie is made for: lower case letters and the space.
abbrev pub IsChar : ℕ → Type 0
IsChar c = (c ≡ b' ') ⊎ ((b'a' ≤ c) × (c ≤ b'z'))

abbrev pub IsKey : List ℕ → Type 0
IsKey w = All IsChar w

pub slot_of-total : (c : ℕ) → IsChar c → (i : ℕ) × (slot_of c ≡ some i) × (i < slot_count)
unfolding slot_of
slot_of-total c h = (if c == b' ' then 26 else (c - b'a'), ground arith, ground arith)

pub slot_of-injective : (c d : ℕ) → IsChar c → IsChar d → slot_of c ≡ slot_of d → c ≡ d
unfolding slot_of
slot_of-injective c d h k e = ground arith

pub slot_of-lt : (c i : ℕ) → slot_of c ≡ some i → i < slot_count
unfolding slot_of
slot_of-lt c i e = ground arith

unfoldable pub slots : Children → ℕ
slots end = 0
slots (null cs) = suc (slots cs)
slots (child t cs) = suc (slots cs)

-- Every node has its 27 slots, and each child stands in the slot of its own character.
unfoldable mutual
  pub IsTrie : TrieNode → Type 0
  IsTrie (node d cs l b) = (slots cs ≡ slot_count) × AreTries 0 cs

  pub AreTries : ℕ → Children → Type 0
  AreTries i end = Unit
  AreTries i (null cs) = AreTries (suc i) cs
  AreTries i (child t cs) =
      (slot_of (char_of t) ≡ some i) × IsChar (char_of t) × IsTrie t × AreTries (suc i) cs

module _ (t : TrieNode) where
  pub slots-set_child : (cs : Children) (i : ℕ) → slots (set_child cs i t) ≡ slots cs
  unfolding slots set_child
  slots-set_child end i = refl
  slots-set_child (null cs) zero = refl
  slots-set_child (child u cs) zero = refl
  slots-set_child (null cs) (suc i) = ap suc (slots-set_child cs i)
  slots-set_child (child u cs) (suc i) = ap suc (slots-set_child cs i)

  pub child_at-set_child :
      (cs : Children) (i j : ℕ)
      → i < slots cs
      → child_at (set_child cs i t) j ≡ (if i == j then some t else child_at cs j)
  unfolding slots set_child child_at
  child_at-set_child end i j h = elim h [ ]
  child_at-set_child (null cs) zero zero h = refl
  child_at-set_child (null cs) zero (suc j) h = ground arith
  child_at-set_child (null cs) (suc i) zero h = ground arith
  child_at-set_child (null cs) (suc i) (suc j) h = ground (arith, child_at-set_child cs i j)
  child_at-set_child (child u cs) zero zero h = refl
  child_at-set_child (child u cs) zero (suc j) h = ground arith
  child_at-set_child (child u cs) (suc i) zero h = ground arith
  child_at-set_child (child u cs) (suc i) (suc j) h = ground (arith, child_at-set_child cs i j)

  pub AreTries-set_child :
      (cs : Children) (i j : ℕ)
      → AreTries i cs
      → slot_of (char_of t) ≡ some (i + j)
      → IsChar (char_of t)
      → IsTrie t
      → AreTries i (set_child cs j t)
  unfolding set_child IsTrie AreTries
  AreTries-set_child end i j h e c w = tt
  AreTries-set_child (null cs) i zero h e c w = (ground arith, c, w, h)
  AreTries-set_child (child u cs) i zero h e c w = (ground arith, c, w, h.3)
  AreTries-set_child (null cs) i (suc j) h e c w =
      AreTries-set_child cs (suc i) j h (ground arith) c w
  AreTries-set_child (child u cs) i (suc j) h e c w =
      (h.0, h.1, h.2, AreTries-set_child cs (suc i) j h.3 (ground arith) c w)

pub child_at-nulls : (n i : ℕ) → child_at (nulls n) i ≡ none
unfolding nulls child_at
child_at-nulls zero i = refl
child_at-nulls (suc n) zero = refl
child_at-nulls (suc n) (suc i) = child_at-nulls n i

slots-nulls : (n : ℕ) → slots (nulls n) ≡ n
unfolding nulls slots
slots-nulls zero = refl
slots-nulls (suc n) = ap suc (slots-nulls n)

AreTries-nulls : (n i : ℕ) → AreTries i (nulls n)
unfolding nulls IsTrie AreTries
AreTries-nulls zero i = tt
AreTries-nulls (suc n) i = AreTries-nulls n (suc i)

pub make_trienode-IsTrie : (d : ℕ) → IsTrie (make_trienode d)
unfolding make_trienode IsTrie AreTries
make_trienode-IsTrie d = (slots-nulls slot_count, AreTries-nulls slot_count 0)

-- What a well-formed array of children holds in a slot.
pub AreTries-child_at :
    (cs : Children) (i j : ℕ) (t : TrieNode)
    → AreTries i cs
    → child_at cs j ≡ some t
    → (slot_of (char_of t) ≡ some (i + j)) × IsChar (char_of t) × IsTrie t
unfolding child_at IsTrie AreTries
AreTries-child_at end i j t h e = cc
AreTries-child_at (null cs) i zero t h e = cc
AreTries-child_at (child u cs) i zero t h e =
    subst (λ x. (slot_of (char_of x) ≡ some (i + zero)) × IsChar (char_of x) × IsTrie x)
      (some-injective u t e) (ground arith, h.1, h.2)
AreTries-child_at (null cs) i (suc j) t h e =
    let r = AreTries-child_at cs (suc i) j t h e in (ground arith, r.1, r.2)
AreTries-child_at (child u cs) i (suc j) t h e =
    let r = AreTries-child_at cs (suc i) j t h.3 e in (ground arith, r.1, r.2)
