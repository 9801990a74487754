-- ===== src/Progress.antt =====
-- The progress bar that 숙제#3/Client Code/simple_remote_shell_clnt.c and Final Project/p2p.c print with the
-- same code.
use native.Mathlib.Nat.{div-le_of_le-mul, mul-div_cancel_left}
use network_camp.Prelude.{
  ℕ, ◌*◌, ◌/◌, ◌≤◌, ◌<◌, false, Option, none, some, ◌≡◌, refl, arith, if◌then◌else◌, ◌==◌, ltb,
}

-- A bar of `MAX_PROGESS` places: how many are filled, and the number behind it. `none` for the division
-- by 0.
pub record Bar : Type 0 where
  pub filled : ℕ
  pub percent : ℕ

abbrev pub max_progress : ℕ
max_progress = 20

unfoldable pub bar : ℕ → ℕ → Option Bar
bar file_len file_size =
    let progress = file_len * max_progress / file_size in
    if file_size == 0
    then none
    else some (record {
      filled = if ltb progress max_progress then progress else max_progress;
      percent = file_len * 100 / file_size;
    })

-- A bar that fits its places.
abbrev pub IsBar : Bar → Type 0
IsBar b = (b.filled ≤ max_progress) × (b.percent ≤ 100)

abbrev pub full_bar : Bar
full_bar = record { filled = 20; percent = 100 }

pub bar_lem :
    (read size : ℕ) → 0 < size → read ≤ size → (b : Bar) × (bar read size ≡ some b) × IsBar b
unfolding bar
bar_lem read size pos le =
    let progress = read * max_progress / size in
    let nonzero : (size == 0) ≡ false = ground arith in
    let percent : read * 100 / size ≤ 100 = div-le_of_le-mul size (omega arith) in
    (
      record {
        filled = if ltb progress max_progress then progress else max_progress;
        percent = read * 100 / size;
      },
      rw nonzero refl,
      (ground arith, percent),
    )

pub bar_full : (size : ℕ) → 0 < size → bar size size ≡ some full_bar
unfolding bar
bar_full size pos =
    let nonzero : (size == 0) ≡ false = ground arith in
    rw
      (
        nonzero,
        mul-div_cancel_left max_progress {n = size} pos,
        mul-div_cancel_left 100 {n = size} pos,
      )
      refl
