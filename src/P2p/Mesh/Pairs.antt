-- ===== src/P2p/Mesh/Pairs.antt =====
-- Each pair of receivers gets one connection (p2p.c).
use mathlib.Core.Option.{some-injective}
use network_camp.Prelude.{
  ℕ, zero, suc, ◌+◌, ◌<◌, some, List, [], ◌∷◌, ◌++◌, ◌≡◌, ◌≢◌, refl, ap, sym, subst, ◌∙◌, arith,
  ◌/◌, ◌%◌, leb, length, length-append, drop-append, All, Bool-cases, inl, inr, >>=-eq-some,
}
use network_camp.P2p.{FileInfo, Receiver}
use network_camp.P2p.Sender.{set_counts, bump_counts, send_info}
use network_camp.P2p.Mesh.{
  wait_connections, receive_info, receive_info-others, connects_to, accepts,
}

-- The receivers carry their places in the array, from `k` on.
abbrev Numbered : ℕ → List Receiver → Type 0
Numbered k [] = Unit
Numbered k (r ∷ rs) = (r.nth_receiver ≡ k) × Numbered (k + 1) rs

Numbered-wait_connections :
    (max k : ℕ) (conns : List (Receiver × ℕ)) (rs : List Receiver)
    → k < max
    → wait_connections max k conns ≡ some rs
    → Numbered k rs × (k + length rs ≡ max)
unfolding wait_connections
Numbered-wait_connections max k [] rs lt e = cc
Numbered-wait_connections max k ((r, from) ∷ conns) rs lt e = elim (Bool-cases (leb max (k + 1))) [
  | inl last ↦
      subst (λ l. Numbered k l × (k + length l ≡ max)) (some-injective _ rs (rw last at e))
        ((refl, tt), ground arith)
  | inr more ↦
      let (later, p, q) = >>=-eq-some (wait_connections max (k + 1) conns) _ (rw more at e) in
      let (n, total) = Numbered-wait_connections max (k + 1) conns later (ground arith) p in
      subst (λ l. Numbered k l × (k + length l ≡ max)) (some-injective _ rs q)
        ((refl, n), omega (arith, total))
]

Numbered-set_counts :
    (each k : ℕ) (rs : List Receiver)
    → Numbered k rs
    → Numbered k (set_counts each rs) × (length (set_counts each rs) ≡ length rs)
unfolding set_counts
Numbered-set_counts each k [] h = (tt, refl)
Numbered-set_counts each k (r ∷ rs) h =
    let (n, l) = Numbered-set_counts each (k + 1) rs h.1 in ((h.0, n), ap suc l)

Numbered-bump_counts :
    (n k : ℕ) (rs : List Receiver)
    → Numbered k rs
    → Numbered k (bump_counts n rs) × (length (bump_counts n rs) ≡ length rs)
unfolding bump_counts
Numbered-bump_counts zero k rs h = (h, refl)
Numbered-bump_counts (suc n) k [] h = (tt, refl)
Numbered-bump_counts (suc n) k (r ∷ rs) h =
    let (m, l) = Numbered-bump_counts n (k + 1) rs h.1 in ((h.0, m), ap suc l)

Numbered-middle :
    (k : ℕ) (pre post : List Receiver) (own : Receiver)
    → Numbered k (pre ++ own ∷ post)
    → own.nth_receiver ≡ k + length pre
Numbered-middle k [] post own h = omega (arith, h.0)
Numbered-middle k (r ∷ pre) post own h = omega (arith, Numbered-middle (k + 1) pre post own h.1)

-- The sender sends as many structures as it has accepted connections.
pub send_info-length :
    (info : FileInfo) (max : ℕ) (conns : List (Receiver × ℕ)) (all : List Receiver)
    → 0 < max
    → wait_connections max 0 conns ≡ some all
    → (length all ≡ max) × (length (send_info info all) ≡ max)
unfolding send_info
send_info-length info max conns all pos waited =
    let (n, total) = Numbered-wait_connections max 0 conns all pos waited in
    let (n1, l1) = Numbered-set_counts (info.segment_count / length all) 0 all n in
    let (n2, l2) =
      Numbered-bump_counts (info.segment_count % length all) 0
        (set_counts (info.segment_count / length all) all) n1 in
    (omega (arith, total), omega (arith, total, l1, l2))

-- When the receivers are those that the sender has accepted, with the counts of `Send_Info`, and no
-- other one has this one's port, this one connects to those behind it in their order, and accepts
-- as many connections as stand before it.
pub connects_to-receive_info :
    (info : FileInfo) (max : ℕ) (conns : List (Receiver × ℕ)) (all pre post rest : List Receiver)
    (own : Receiver)
    → 0 < max
    → wait_connections max 0 conns ≡ some all
    → send_info info all ≡ pre ++ own ∷ post
    → All (λ (r : Receiver). r.port ≢ own.port) pre
    → All (λ (r : Receiver). r.port ≢ own.port) post
    → (connects_to own (receive_info own.port max (pre ++ own ∷ (post ++ rest))) ≡ post)
      × (accepts own ≡ length pre)
unfolding send_info connects_to
connects_to-receive_info info max conns all pre post rest own pos waited sent a b =
    let (n, total) = Numbered-wait_connections max 0 conns all pos waited in
    let (n1, l1) = Numbered-set_counts (info.segment_count / length all) 0 all n in
    let (n2, l2) =
      Numbered-bump_counts (info.segment_count % length all) 0
        (set_counts (info.segment_count / length all) all) n1 in
    let place : own.nth_receiver ≡ length pre =
      Numbered-middle 0 pre post own (subst (Numbered 0) sent n2) ∙ omega arith in
    let size : max ≡ length pre + 1 + length post =
      omega (arith, ap (length {0}) sent, length-append pre (own ∷ post)) in
    (
      rw (size, receive_info-others pre post rest own a b)
          (drop-append pre post own.nth_receiver (sym place)),
      place,
    )
