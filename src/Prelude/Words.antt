-- ===== src/Prelude/Words.antt =====
-- Equality of words, as `strcmp` tests it.
use Prim.Native.Nat.{ℕ}
use mathlib.Core.Path.{◌≡◌, refl}
use mathlib.Core.Bool.{Bool, true, false, ◌&&◌}
use mathlib.Core.List.{List, [], ◌∷◌}
use native.Mathlib.Omega.{arith}
use network_camp.Prelude.Tests.{◌==◌}

unfoldable pub same_word : List ℕ → List ℕ → Bool
same_word [] [] = true
same_word [] (d ∷ v) = false
same_word (c ∷ w) [] = false
same_word (c ∷ w) (d ∷ v) = c == d && same_word w v

pub same_word→eq : (w v : List ℕ) → same_word w v ≡ true → w ≡ v
unfolding same_word
same_word→eq [] [] h = refl
same_word→eq [] (d ∷ v) h = cc
same_word→eq (c ∷ w) [] h = cc
same_word→eq (c ∷ w) (d ∷ v) h = ground (arith, same_word→eq w v)

pub same_word_refl : (w : List ℕ) → same_word w w ≡ true
unfolding same_word
same_word_refl [] = refl
same_word_refl (c ∷ w) = ground (arith, same_word_refl w)
