-- ===== src/P2p/Storage/Flood.antt =====
-- What a receiving peer writes to the other receivers (p2p.c).
use network_camp.Prelude.{
  ℕ, zero, suc, ◌+◌, ◌≤◌, ◌<◌, some, List, [], ◌∷◌, ◌++◌, ◌≡◌, refl, ap, ap₂, sym, ◌∙◌, arith,
  if◌then◌else◌, ◌==◌, >>=-eq-some, Bool-cases, inl, inr,
}
use mathlib.Core.Option.{some-injective}
use network_camp.P2p.{Segment}
use network_camp.P2p.Storage.{
  Peer, Event, from_sender, from_receiver, save_segment, flood, receive_segment, receive_segments,
}
use network_camp.P2p.Storage.Assembled.{from_sender_segments}

-- The segments written to the `k`-th connection.
abbrev pub written_on : ℕ → List (ℕ × Segment) → List Segment
written_on k [] = []
written_on k ((i, s) ∷ out) = if i == k then s ∷ written_on k out else written_on k out

written_on-append :
    (k : ℕ) (xs ys : List (ℕ × Segment))
    → written_on k (xs ++ ys) ≡ written_on k xs ++ written_on k ys
written_on-append k [] ys = refl
written_on-append k ((i, s) ∷ xs) ys = ground (arith, written_on-append k xs ys)

flood_past : (n i k : ℕ) (s : Segment) → k < i → written_on k (flood n i s) ≡ []
unfolding flood
flood_past zero i k s h = refl
flood_past (suc n) i k s h = ground (arith, flood_past n (suc i) k s)

flood_lem : (n i k : ℕ) (s : Segment) → i ≤ k → k < i + n → written_on k (flood n i s) ≡ s ∷ []
unfolding flood
flood_lem zero i k s lo hi = absurd (omega arith)
flood_lem (suc n) i k s lo hi = elim (Bool-cases (i == k)) [
  | inl same ↦ rw same (ap (◌∷◌ s) (flood_past n (suc i) k s (ground arith)))
  | inr other ↦ rw other (flood_lem n (suc i) k s (ground arith) (omega arith))
]

flooded_step :
    (receivers k : ℕ) (p q : Peer) (e : Event) (out : List (ℕ × Segment))
    → k < receivers
    → receive_segment receivers p e ≡ some (q, out)
    → written_on k out ≡ from_sender_segments (e ∷ [])
unfolding receive_segment
flooded_step receivers k p q (from_sender s) out h e =
    let (q', a, b) = >>=-eq-some (save_segment p s) _ e in
    ap (λ (x : Peer × List (ℕ × Segment)). written_on k x.1) (sym (some-injective _ _ b))
    ∙ flood_lem receivers 0 k s (omega arith) (omega arith)
flooded_step receivers k p q (from_receiver s) out h e =
    let (q', a, b) = >>=-eq-some (save_segment p s) _ e in
    ap (λ (x : Peer × List (ℕ × Segment)). written_on k x.1) (sym (some-injective _ _ b))

-- Each of the other receivers that a peer is connected to gets the segments that the peer takes
-- from the sender, in their order, and nothing else.
pub written_on-receive_segments :
    (receivers k : ℕ) (events : List Event) (p q : Peer) (out : List (ℕ × Segment))
    → k < receivers
    → receive_segments receivers p events ≡ some (q, out)
    → written_on k out ≡ from_sender_segments events
unfolding receive_segments
written_on-receive_segments receivers k [] p q out h e =
    ap (λ (x : Peer × List (ℕ × Segment)). written_on k x.1) (sym (some-injective _ _ e))
written_on-receive_segments receivers k (ev ∷ events) p q out h e =
    let ((q1, o1), a, b) = >>=-eq-some (receive_segment receivers p ev) _ e in
    let ((q2, o2), c, d) = >>=-eq-some (receive_segments receivers q1 events) _ b in
    ap (λ (x : Peer × List (ℕ × Segment)). written_on k x.1) (sym (some-injective _ _ d))
    ∙ written_on-append k o1 o2
    ∙ ap₂ ◌++◌ (flooded_step receivers k p q1 ev o1 h a)
        (written_on-receive_segments receivers k events q1 q2 o2 h c)
    ∙ first ev events
  where
    first :
        (ev : Event) (events : List Event)
        → from_sender_segments (ev ∷ []) ++ from_sender_segments events
          ≡ from_sender_segments (ev ∷ events)
    first (from_sender s) events = refl
    first (from_receiver s) events = refl
