-- ===== src/ShellClient/Upload.antt =====
-- `Upload_File` and its bar (simple_remote_shell_clnt.c).
use network_camp.Prelude.{
  ℕ, zero, suc, ◌+◌, ◌≤◌, ◌<◌, false, none, some, List, [], ◌∷◌, ◌++◌, ◌≡◌, refl, ap, ◌∙◌, arith,
  if◌then◌else◌, ltb, length, length-take, length-drop, take, drop, take_all, take-append-drop,
  append-nil, All, Bool-cases, inl, inr,
}
use network_camp.Transfer.Complete.{flat, flat_buffer}
use network_camp.Shell.Handler.{buf_size}
use network_camp.Progress.{Bar, bar, IsBar, full_bar, bar_lem, bar_full}
use network_camp.ShellClient.{upload_loop, upload_file}

upload_loop_lem :
    (fuel size read : ℕ) (unread : List ℕ)
    → 0 < size
    → read + length unread ≡ size
    → length unread < fuel
    → (buffers : List (List ℕ)) × (bars : List Bar) × (upload_loop fuel size read unread
        ≡ some (buffers, bars ++ full_bar ∷ []))
      × (flat buffers ≡ unread)
      × All IsBar bars
unfolding upload_loop
upload_loop_lem zero size read unread pos e h = absurd (omega arith)
upload_loop_lem (suc fuel) size read unread pos e h =
    let buffer = take buf_size unread in
    elim (Bool-cases (ltb (length buffer) buf_size)) [
      | inl last ↦
          let all = take_all buf_size unread (ground (arith, length-take buf_size unread)) in
          let done : bar (read + length buffer) size ≡ some full_bar =
            ap (λ n. bar n size) {x = read + length buffer} {y = size}
              (omega (arith, ap (length {0}) all))
            ∙ bar_full size pos in
          (
            if ltb 0 (length buffer) then buffer ∷ [] else [],
            [],
            rw (done, last) refl,
            flat_buffer buffer [] ∙ append-nil buffer ∙ all,
            tt,
          )
      | inr more ↦
          let long : buf_size ≤ length buffer = ground arith in
          let lens = length-take buf_size unread in
          let (b, at, fits) = bar_lem (read + length buffer) size pos (omega (arith, lens)) in
          let (buffers, bars, r, q, a) =
            upload_loop_lem fuel size (read + length buffer) (drop buf_size unread) pos
              (omega (arith, length-drop buf_size unread, lens))
              (omega (arith, length-drop buf_size unread, lens)) in
          (
            if ltb 0 (length buffer) then buffer ∷ buffers else buffers,
            b ∷ bars,
            rw (at, more, r) refl,
            flat_buffer buffer buffers ∙ ap (◌++◌ buffer) q ∙ take-append-drop buf_size unread,
            (fits, a),
          )
    ]

-- An upload.
pub upload_file_lem :
    (name contents : List ℕ)
    → 0 < length contents
    → (buffers : List (List ℕ)) × (bars : List Bar) × (upload_file name contents
        ≡ some (
          record { file_name = name; file_size = length contents; is_directory = false },
          (buffers, bars ++ full_bar ∷ []),
        ))
      × (flat buffers ≡ contents)
      × All IsBar bars
unfolding upload_file
upload_file_lem name contents pos =
    let (buffers, bars, r, q, a) =
      upload_loop_lem (length contents + 1) (length contents) 0 contents pos (omega arith)
        (omega arith) in
    (buffers, bars, rw r refl, q, a)

-- The client ends at an empty file.
pub upload_empty : (name : List ℕ) → upload_file name [] ≡ none
unfolding upload_file upload_loop bar
upload_empty name = refl
