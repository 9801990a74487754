-- ===== src/Lab/Picture.antt =====
-- The picture from a server of the exercises to its client (file_multi_serv.c, multiple_access_serv.c,
-- file_client.c).
use network_camp.Prelude.{
  ℕ, zero, suc, ◌+◌, ◌<◌, min, some, List, [], ◌∷◌, ◌≡◌, refl, ap, arith, length, length-drop, drop,
  take-append-drop,
}
use network_camp.Transfer.{Limits}
use network_camp.Search.Clients.{Clients}
use network_camp.Lab.{receive_picture}

-- Nothing is lost on the way, however much each `read` gives.
pub receive_picture_lem :
    (size fuel j : ℕ) (limits : Limits) (stream : List ℕ)
    → 0 < size
    → length stream < fuel
    → receive_picture size limits fuel j stream ≡ some stream
unfolding receive_picture
receive_picture_lem size zero j limits stream pos h = absurd (omega arith)
receive_picture_lem size (suc fuel) j limits [] pos h = refl
receive_picture_lem size (suc fuel) j limits (b ∷ stream) pos h =
    let n = min size (limits j + 1) in
    let rest =
      receive_picture_lem size fuel (j + 1) limits (drop n (b ∷ stream)) pos
        (omega (arith, length-drop n (b ∷ stream))) in
    rw rest (ap some (take-append-drop n (b ∷ stream)))
