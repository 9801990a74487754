-- ===== src/Search/Sort.antt =====
-- `Sort_Array` (search_server.c): bubble sort in decreasing order of the search count.
use mathlib.Core.List.{Perm}
use mathlib.Core.List.Perm
use network_camp.Prelude.{
  ℕ, zero, suc, ◌-◌, ◌≤◌, List, [], ◌∷◌, ◌++◌, ◌≡◌, refl, ap, subst, arith, if◌then◌else◌, ltb,
  length, All, append_assoc, append-nil, Bool-cases, inl, inr,
}
use network_camp.Trie.{Word}

-- The inner loop over `j`: `n` comparisons of neighbours from the front.
unfoldable pub pass : ℕ → List Word → List Word
pass zero xs = xs
pass (suc n) [] = []
pass (suc n) (x ∷ []) = x ∷ []
pass (suc n) (x ∷ y ∷ xs) =
    let less = ltb x.search_count y.search_count in
    (if less then y else x) ∷ pass n ((if less then x else y) ∷ xs)

-- The outer loop over `i`, by the number `count - 1 - i` of comparisons that its round makes.
unfoldable pub rounds : ℕ → List Word → List Word
rounds zero xs = xs
rounds (suc n) xs = rounds n (pass (suc n) xs)

unfoldable pub sort_array : List Word → List Word
unfolding rounds pass
sort_array xs = rounds (length xs - 1) xs

abbrev pub Below : List Word → Word → Type 0
Below xs x = All (λ y. y.search_count ≤ x.search_count) xs

-- No word is counted more often than one that stands before it.
abbrev pub IsDescending : List Word → Type 0
IsDescending [] = Unit
IsDescending (x ∷ xs) = Below xs x × IsDescending xs

-- A pass over `x ∷ ys` moves a least element to the end of that part and leaves `back` alone.
record Split (n : ℕ) (x : Word) (ys back : List Word) : Type 1 where
  front : List Word
  last : Word
  splits : pass n (x ∷ ys ++ back) ≡ front ++ last ∷ back
  size : length front ≡ n
  least : All (λ y. last.search_count ≤ y.search_count) front
  low : last.search_count ≤ x.search_count
  keeps : (P : Word → Type 0) → All P (x ∷ ys) → All P front × P last
  perm : Perm (front ++ last ∷ []) (x ∷ ys)

Split-pass : (n : ℕ) (x : Word) (ys back : List Word) → length ys ≡ n → Split n x ys back
unfolding pass
Split-pass zero x [] back h = record {
  front = [];
  last = x;
  splits = refl;
  size = refl;
  least = tt;
  low = omega arith;
  keeps = λ P a. (tt, a.0);
  perm = Perm.refl (x ∷ []);
}
Split-pass zero x (y ∷ ys) back h = absurd (omega arith)
Split-pass (suc n) x [] back h = absurd (omega arith)
Split-pass (suc n) x (y ∷ ys) back h = elim (Bool-cases (ltb x.search_count y.search_count)) [
  | inl less ↦
      let r = Split-pass n x ys back (omega arith) in
      record {
        front = y ∷ r.front;
        last = r.last;
        splits = rw less (ap (◌∷◌ y) r.splits);
        size = ap suc r.size;
        least = (ground (arith, r.low), r.least);
        low = r.low;
        keeps = λ P a. let k = r.keeps P (a.0, a.1.1) in ((a.1.0, k.0), k.1);
        perm = Perm.trans (Perm.cons y r.perm) (Perm.swap x y ys);
      }
  | inr more ↦
      let r = Split-pass n y ys back (omega arith) in
      record {
        front = x ∷ r.front;
        last = r.last;
        splits = rw more (ap (◌∷◌ x) r.splits);
        size = ap suc r.size;
        least = (ground (arith, r.low), r.least);
        low = ground (arith, r.low);
        keeps = λ P a. let k = r.keeps P a.1 in ((a.0, k.0), k.1);
        perm = Perm.cons x r.perm;
      }
]

Below-cons :
    (back : List Word) (last : Word) (front : List Word)
    → All (λ y. last.search_count ≤ y.search_count) front
    → All (Below back) front
    → All (Below (last ∷ back)) front
Below-cons back last [] l b = tt
Below-cons back last (y ∷ front) l b = ((l.0, b.0), Below-cons back last front l.1 b.1)

-- After each round the part behind is in order, and nothing before it is counted less often.
rounds_lem :
    (n : ℕ) (front back : List Word)
    → length front ≡ suc n
    → IsDescending back
    → All (Below back) front
    → IsDescending (rounds n (front ++ back)) × Perm (rounds n (front ++ back)) (front ++ back)
unfolding rounds
rounds_lem n [] back h d a = absurd (omega arith)
rounds_lem zero (x ∷ []) back h d a = ((a.0, d), Perm.refl (x ∷ back))
rounds_lem zero (x ∷ y ∷ front) back h d a = absurd (omega arith)
rounds_lem (suc n) (x ∷ ys) back h d a =
    let r = Split-pass (suc n) x ys back (omega arith) in
    let k = r.keeps (Below back) a in
    let above = Below-cons back r.last r.front r.least k.0 in
    let (order, perm) = rounds_lem n r.front (r.last ∷ back) r.size (k.1, d) above in
    rw r.splits (order, Perm.trans perm (rw append_assoc at (Perm.append_right back r.perm)))

Below-nil : (xs : List Word) → All (Below []) xs
Below-nil [] = tt
Below-nil (x ∷ xs) = (tt, Below-nil xs)

sorted :
    (n : ℕ) (x : Word) (xs : List Word)
    → length xs ≡ n
    → IsDescending (rounds n (x ∷ xs)) × Perm (rounds n (x ∷ xs)) (x ∷ xs)
sorted n x xs h =
    subst (λ l. IsDescending (rounds n l) × Perm (rounds n l) l) (append-nil (x ∷ xs))
      (rounds_lem n (x ∷ xs) [] (ap suc h) tt (Below-nil (x ∷ xs)))

-- `Sort_Array` leaves the words in decreasing order of their counts.
pub sort_array-IsDescending : (xs : List Word) → IsDescending (sort_array xs)
unfolding sort_array
sort_array-IsDescending [] = tt
sort_array-IsDescending (x ∷ xs) = (sorted (suc (length xs) - 1) x xs (omega arith)).0

-- `Sort_Array` only moves words: what it leaves is a permutation of what it was given.
pub sort_array-perm : (xs : List Word) → Perm (sort_array xs) xs
unfolding sort_array
sort_array-perm [] = Perm.refl []
sort_array-perm (x ∷ xs) = (sorted (suc (length xs) - 1) x xs (omega arith)).1
