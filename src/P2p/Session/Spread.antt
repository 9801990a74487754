-- ===== src/P2p/Session/Spread.antt =====
-- The segments of a file are spread over the receivers (p2p.c): each is written to one of them.
use mathlib.Core.List.{Permᴰ}
use mathlib.Core.List.Permᴰ
use native.Mathlib.Nat.{mod-lt}
use network_camp.Prelude.{
  ℕ, zero, suc, ◌+◌, ◌<◌, ◌≤◌, false, inl, inr, List, [], ◌∷◌, ◌++◌, ◌≡◌, refl, ap, sym, arith,
  subst, ◌==◌, map, All, Bool-cases,
}
use network_camp.P2p.{Segment}
use network_camp.P2p.Sender.{Sent}
use network_camp.P2p.Split.{sent_from}
use network_camp.P2p.Storage.Assembled.{written_to}
use network_camp.P2p.Threads.Runs.{brought}
use network_camp.P2p.Session.{peer_threads}

-- What is written to the first receivers, from the last of them on.
abbrev spread : ℕ → List Sent → List Segment
spread zero out = []
spread (suc j) out = written_to j out ++ spread j out

brought-peer_threads : (i m : ℕ) (out : List Sent) → brought (peer_threads i m out) ≡ spread m out
unfolding peer_threads
brought-peer_threads i zero out = refl
brought-peer_threads i (suc j) out = ap (◌++◌ (written_to j out)) (brought-peer_threads i j out)

spread-empty : (m : ℕ) → spread m [] ≡ []
spread-empty zero = refl
spread-empty (suc j) = spread-empty j

spread-elsewhere :
    (m : ℕ) (x : Sent) (out : List Sent) → m ≤ x.rr_index → spread m (x ∷ out) ≡ spread m out
spread-elsewhere zero x out le = refl
spread-elsewhere (suc j) x out le =
    let other : (x.rr_index == j) ≡ false = ground arith in
    rw other (ap (◌++◌ (written_to j out)) (spread-elsewhere j x out (omega arith)))

spread-cons :
    (m : ℕ) (x : Sent) (out : List Sent)
    → x.rr_index < m
    → Permᴰ (x.file_segment ∷ spread m out) (spread m (x ∷ out))
spread-cons zero x out lt = absurd (omega arith)
spread-cons (suc j) x out lt = elim (Bool-cases (x.rr_index == j)) [
  | inl here ↦
      let le : j ≤ x.rr_index = ground arith in
      rw (here, spread-elsewhere j x out le)
        (Permᴰ.refl (x.file_segment ∷ (written_to j out ++ spread j out)))
  | inr there ↦ rw there (
      Permᴰ.trans (Permᴰ.symm (Permᴰ.middle x.file_segment (written_to j out) (spread j out)))
        (Permᴰ.append_left (written_to j out) (spread-cons j x out (ground arith))))
]

Permᴰ-spread :
    (m : ℕ) (out : List Sent)
    → All (λ (x : Sent). x.rr_index < m) out
    → Permᴰ (map (λ (x : Sent). x.file_segment) out) (spread m out)
Permᴰ-spread m [] a = subst (Permᴰ []) (sym (spread-empty m)) Permᴰ.nil
Permᴰ-spread m (x ∷ out) a =
    Permᴰ.trans (Permᴰ.cons refl (Permᴰ-spread m out a.1)) (spread-cons m x out a.0)

sent_from-rr_index :
    (size m k n : ℕ) (file : List ℕ)
    → 0 < m
    → All (λ (x : Sent). x.rr_index < m) (sent_from size m file k n)
unfolding sent_from
sent_from-rr_index size m k zero file pos = tt
sent_from-rr_index size m k (suc n) file pos =
    (mod-lt k pos, sent_from-rr_index size m (k + 1) n file pos)

-- The connections of a receiver bring each segment once.
pub Permᴰ-peer_threads :
    (i size m n : ℕ) (file : List ℕ)
    → 0 < m
    → Permᴰ
        (map (λ (x : Sent). x.file_segment) (sent_from size m file 0 n))
        (brought (peer_threads i m (sent_from size m file 0 n)))
Permᴰ-peer_threads i size m n file pos =
    let out = sent_from size m file 0 n in
    subst (Permᴰ (map (λ (x : Sent). x.file_segment) out)) (sym (brought-peer_threads i m out))
      (Permᴰ-spread m out (sent_from-rr_index size m 0 n file pos))
