-- ===== src/ShellClient/Rounds/Sound.antt =====
-- What the client of the remote shell (simple_remote_shell_clnt.c) knows and has done after each turn.
use mathlib.Core.Option.{some-injective}
use network_camp.Prelude.{
  if◌then◌else◌, none, true, Bool, false, ℕ, Option, some, List, [], ◌∷◌, ◌++◌, ◌≡◌, ◌≢◌, refl, ap,
  sym, ◌∙◌, ap₂, subst, arith, All, >>=-eq-some, Bool-cases, inl, inr,
}
use network_camp.Transfer.{Limits}
use network_camp.Transfer.Complete.{flat}
use network_camp.Shell.{File, Client, Server, get_struct}
use network_camp.Shell.Handler.{Effect}
use network_camp.Shell.Handler.Files.{handle_request-get_struct}
use network_camp.Shell.Loop.Others.{IsOfOther, handle_events-get_struct}
use network_camp.Progress.{Bar}
use network_camp.ShellClient.{
  Action, quits, refreshes, refused, downloads, uploads, moves, do_client_request, upload_file,
  download_file,
}
use network_camp.ShellClient.Upload.{upload_file_lem, upload_empty}
use network_camp.ShellClient.Rounds.{
  Disk, Turn, Deed, left, nothing_sent, moved, downloaded, uploaded, Round, no_file, goes_on, asks,
  serves_others, sent, finished, stored, received_table, do_action, whole_round, shell_round,
  shell_rounds,
}
use network_camp.ShellClient.Rounds.Answers.{
  download_file-contents, received_table-show_dir, stored-answer_upload,
}
use network_camp.ShellClient.Rounds.Handled.{
  handle_request-download, handle_request-upload, handle_request-show,
}
use network_camp.ShellClient.Rounds.Options.{HasOption, do_client_request-HasOption}

-- A download has written what the server could open under the name, and an upload has written what the
-- client had under it, below the directory of the client.
abbrev pub IsDone : Client → Turn → Deed → Type 0
IsDone c t left = Unit
IsDone c t nothing_sent = Unit
IsDone c t moved = Unit
IsDone c t (downloaded name bytes) = t.at_command.contents name ≡ some bytes
IsDone c t (uploaded name path bytes) =
    (t.local name ≡ some bytes) × (path ≡ c.directory ++ b'/' ∷ name)

-- An upload that is sent is that of the file.
upload_file-flat :
    (name bytes : List ℕ) (file : File) (buffers : List (List ℕ)) (bars : List Bar)
    → upload_file name bytes ≡ some (file, (buffers, bars))
    → (file.file_name ≡ name) × (flat buffers ≡ bytes)
upload_file-flat name [] file buffers bars e =
    (cc (upload_empty name, e), cc (upload_empty name, e))
upload_file-flat name (x ∷ bytes) file buffers bars e =
    let (bs, b, r, q, a) = upload_file_lem name (x ∷ bytes) (omega arith) in
    let same = some-injective _ _ (sym r ∙ e) in
    (
      ap (λ (y : File × (List (List ℕ) × List Bar)). y.0.file_name) (sym same),
      ap (λ (y : File × (List (List ℕ) × List Bar)). flat y.1.0) (sym same) ∙ q,
    )

module _ (dirname : List ℕ → List ℕ) (limits : Limits) (sock : ℕ) where
  -- The others see nothing of it.
  abbrev Apart : Server → Server → Type 0
  Apart s s' = (other : ℕ) → other ≢ sock → get_struct s' other ≡ get_struct s other

  Apart-asks :
      (disk : Disk) (s s' : Server) (option : ℕ) (text : List ℕ) (file : File) (stream : List ℕ)
      (effect : Effect)
      → asks dirname limits sock disk s option text file stream ≡ some (s', effect)
      → Apart s s'
  Apart-asks disk s s' option text file stream effect e other h =
      handle_request-get_struct disk.open_size disk.read_dir disk.contents dirname limits s s' sock
        other option text file stream effect e h

  IsDone-same :
      (c : Client) (t : Turn) (s s1 s' : Server) (d deed : Deed)
      → IsDone c t d
      → Apart s s1
      → ◌≡◌ {A = Option (Server × Deed)} (some (s1, d)) (some (s', deed))
      → IsDone c t deed × Apart s s'
  IsDone-same c t s s1 s' d deed h apart e = (
    subst (IsDone c t) (ap (λ (x : Server × Deed). x.1) (some-injective _ _ e)) h,
    subst (Apart s) (ap (λ (x : Server × Deed). x.0) (some-injective _ _ e)) apart,
  )

  do_action-IsDone :
      (t : Turn) (s s' : Server) (c : Client) (table : List File) (action : Action) (deed : Deed)
      → HasOption action
      → get_struct s sock ≡ some c
      → do_action dirname limits sock t s table action ≡ some (s', deed)
      → IsDone c t deed × Apart s s'
  unfolding do_action
  do_action-IsDone t s s' c table quits deed o g e =
      IsDone-same c t s s s' left deed tt (λ other h. refl) e
  do_action-IsDone t s s' c table refreshes deed o g e =
      IsDone-same c t s s s' nothing_sent deed tt (λ other h. refl) e
  do_action-IsDone t s s' c table refused deed o g e =
      IsDone-same c t s s s' nothing_sent deed tt (λ other h. refl) e
  do_action-IsDone t s s' c table (downloads request i) deed o g e =
      let disk = t.at_command in
      let text = request.request_text in
      let ((s1, effect), a, e1) =
        >>=-eq-some (asks dirname limits sock disk s request.option text no_file []) _ e in
      let (outcome, d, e2) = >>=-eq-some (download_file limits table i (sent effect)) _ e1 in
      let (bytes, f, e3) = >>=-eq-some (finished outcome) _ e2 in
      let a0 =
        subst (λ n. asks dirname limits sock disk s n text no_file [] ≡ some (s1, effect)) o a in
      let (same, answer) =
        handle_request-download disk.open_size disk.read_dir disk.contents dirname limits s s1 sock
          text no_file [] effect a0 in
      IsDone-same c t s s1 s' (downloaded text bytes) deed
        (download_file-contents disk.contents limits s sock i text bytes table effect outcome answer
          d f)
        (Apart-asks disk s s1 request.option text no_file [] effect a) e3
  do_action-IsDone t s s' c table (uploads request) deed o g e =
      let disk = t.at_command in
      let text = request.request_text in
      let (bytes, l, e1) = >>=-eq-some (t.local text) _ e in
      let ((file, (buffers, bars)), u, e2) = >>=-eq-some (upload_file text bytes) _ e1 in
      let ((s1, effect), a, e3) =
        >>=-eq-some (asks dirname limits sock disk s request.option text file (flat buffers)) _
          e2 in
      let (d, w, e4) = >>=-eq-some (stored text effect) _ e3 in
      let a1 =
        subst (λ n. asks dirname limits sock disk s n text file (flat buffers) ≡ some (s1, effect))
          o a in
      let (same, answer) =
        handle_request-upload disk.open_size disk.read_dir disk.contents dirname limits s s1 sock
          text file (flat buffers) effect a1 in
      let (c', g', q) =
        stored-answer_upload limits s sock text file (flat buffers) effect d answer w in
      let (named, whole) = upload_file-flat text bytes file buffers bars u in
      let path =
        ap₂ (λ (x : Client) n. x.directory ++ b'/' ∷ n) (some-injective c' c (sym g' ∙ g)) named in
      IsDone-same c t s s1 s' d deed (subst (IsDone c t) (sym q) (l ∙ ap some (sym whole), path))
        (Apart-asks disk s s1 request.option text file (flat buffers) effect a) e4
  do_action-IsDone t s s' c table (moves request) deed o g e =
      let disk = t.at_command in
      let text = request.request_text in
      let ((s1, effect), a, e1) =
        >>=-eq-some (asks dirname limits sock disk s request.option text no_file []) _ e in
      IsDone-same c t s s1 s' moved deed tt
        (Apart-asks disk s s1 request.option text no_file [] effect a) e1

  -- After a turn.
  abbrev pub IsSound : Round → Type 0
  IsSound r =
      (c : Client) × (get_struct r.shown sock ≡ some c)
      × (c.files ≡ r.table)
      × IsDone c r.turn r.deed

  -- What a turn came to, call by call.
  record Parts (s : Server) (t : Turn) (r : Round) : Type 0 where
    start : Server
    others : List Effect
    listing : Effect
    action : Action
    command : Server
    more : List Effect
    before : serves_others dirname limits sock t.at_show s t.before ≡ some (start, others)
    show : asks dirname limits sock t.at_show start 3 [] no_file [] ≡ some (r.shown, listing)
    table : received_table listing ≡ some r.table
    asked : do_client_request r.table t.msg ≡ some action
    between :
        serves_others dirname limits sock t.at_command r.shown t.between ≡ some (command, more)
    acted : do_action dirname limits sock t command r.table action ≡ some (r.after, r.deed)
    same : r.turn ≡ t

  whole_round-Parts :
      (s : Server) (t : Turn) (r : Round)
      → whole_round dirname limits sock s t ≡ some r
      → Parts s t r
  unfolding whole_round
  whole_round-Parts s t r e =
      let ((s0, others), a0, e0) =
        >>=-eq-some (serves_others dirname limits sock t.at_show s t.before) _ e in
      let ((s1, listing), a1, e1) =
        >>=-eq-some (asks dirname limits sock t.at_show s0 3 [] no_file []) _ e0 in
      let (table, a2, e2) = >>=-eq-some (received_table listing) _ e1 in
      let (action, a3, e3) = >>=-eq-some (do_client_request table t.msg) _ e2 in
      let ((s2, more), a4, e4) =
        >>=-eq-some (serves_others dirname limits sock t.at_command s1 t.between) _ e3 in
      let ((s3, deed), a5, e5) =
        >>=-eq-some (do_action dirname limits sock t s2 table action) _ e4 in
      subst (Parts s t) (some-injective _ r e5) (record {
        start = s0;
        others = others;
        listing = listing;
        action = action;
        command = s2;
        more = more;
        before = a0;
        show = a1;
        table = a2;
        asked = a3;
        between = a4;
        acted = a5;
        same = refl;
      })

  not_short :
      (b : Bool) (o : Option Round) (r : Round) → (if b then none else o) ≡ some r → o ≡ some r
  not_short true o r e = cc
  not_short false o r e = e

  shell_round-Parts :
      (s : Server) (t : Turn) (r : Round)
      → shell_round dirname limits sock s t ≡ some r
      → Parts s t r
  unfolding shell_round
  shell_round-Parts s t r e =
      whole_round-Parts s t r (not_short t.short_read (whole_round dirname limits sock s t) r e)

  Parts-IsSound :
      (s : Server) (t : Turn) (r : Round) (parts : Parts s t r)
      → All (IsOfOther sock) t.between
      → IsSound r × Apart parts.command r.after
  Parts-IsSound s t r q quiet =
      let disk = t.at_show in
      let later = t.at_command in
      let (count, files, w, l) =
        handle_request-show disk.open_size disk.read_dir disk.contents dirname limits q.start
          r.shown sock [] no_file [] q.listing q.show in
      let (c, g, kept) =
        received_table-show_dir disk.open_size disk.read_dir q.start r.shown sock count files
          r.table w (ap received_table (sym l) ∙ q.table) in
      let known =
        handle_events-get_struct later.open_size later.read_dir later.contents dirname limits
          t.between r.shown q.command q.more sock c g quiet q.between in
      let (h, apart) =
        do_action-IsDone t q.command r.after c r.table q.action r.deed
          (do_client_request-HasOption r.table t.msg q.action q.asked) known q.acted in
      ((c, g, kept, subst (λ u. IsDone c u r.deed) (sym q.same) h), apart)

  -- When the turns of a client with the server go through, and what the server handles in a turn
  -- between `SHOW` and the command are connections and requests of others, then in each turn the
  -- table that the client shows is the one that the server keeps for its socket, a download has
  -- written what the server could open under the name, and an upload has written what the client
  -- had under the name, below the directory of the client.
  pub shell_rounds-IsSound :
      (s s' : Server) (turns : List Turn) (rounds : List Round)
      → All (λ (t : Turn). All (IsOfOther sock) t.between) turns
      → shell_rounds dirname limits sock s turns ≡ some (s', rounds)
      → All IsSound rounds
  unfolding shell_rounds
  shell_rounds-IsSound s s' [] rounds quiet e =
      subst (All IsSound) (ap (λ (x : Server × List Round). x.1) (some-injective _ _ e)) tt
  shell_rounds-IsSound s s' (t ∷ turns) rounds quiet e =
      let (r, a, e1) = >>=-eq-some (shell_round dirname limits sock s t) _ e in
      let (sound, apart) = Parts-IsSound s t r (shell_round-Parts s t r a) quiet.0 in
      let all : (later : List Round) (u : Server)
          → All IsSound later
          → ◌≡◌ {A = Option (Server × List Round)} (some (u, r ∷ later)) (some (s', rounds))
          → All IsSound rounds =
        λ later u h same.
          subst (All IsSound) (ap (λ (x : Server × List Round). x.1) (some-injective _ _ same))
            (sound, h) in
      elim (Bool-cases (goes_on r.deed)) [
        | inr ends ↦ all [] r.after tt (rw ends at e1)
        | inl goes ↦
            let ((s2, later), b, e2) =
              >>=-eq-some (shell_rounds dirname limits sock r.after turns) _ (rw goes at e1) in
            all later s2 (shell_rounds-IsSound r.after s2 turns later quiet.1 b) e2
      ]

  -- Nothing that the server does for others is for the client, nor for another one.
  abbrev pub IsQuiet : ℕ → Turn → Type 0
  IsQuiet other t =
      All (IsOfOther sock) t.between
      × All (IsOfOther other) t.before
      × All (IsOfOther other) t.between

  shell_round-get_struct :
      (s : Server) (t : Turn) (r : Round) (other : ℕ) (c : Client)
      → other ≢ sock
      → get_struct s other ≡ some c
      → IsQuiet other t
      → shell_round dirname limits sock s t ≡ some r
      → get_struct r.after other ≡ some c
  shell_round-get_struct s t r other c h g (quiet, before, between) e =
      let q = shell_round-Parts s t r e in
      let disk = t.at_show in
      let later = t.at_command in
      let (_, apart) = Parts-IsSound s t r q quiet in
      let started =
        handle_events-get_struct disk.open_size disk.read_dir disk.contents dirname limits t.before
          s q.start q.others other c g before q.before in
      let shown =
        Apart-asks disk q.start r.shown 3 [] no_file [] q.listing q.show other h ∙ started in
      apart other h
      ∙ handle_events-get_struct later.open_size later.read_dir later.contents dirname limits
          t.between r.shown q.command q.more other c shown between q.between

  -- When the turns of a client with the server go through, and what the server handles besides are
  -- connections and requests, none of them of another client that it knows, and between `SHOW` and
  -- the command none of the first, then at the end the server has for that other client what it
  -- had.
  pub shell_rounds-get_struct :
      (s s' : Server) (turns : List Turn) (rounds : List Round) (other : ℕ) (c : Client)
      → other ≢ sock
      → get_struct s other ≡ some c
      → All (IsQuiet other) turns
      → shell_rounds dirname limits sock s turns ≡ some (s', rounds)
      → get_struct s' other ≡ some c
  unfolding shell_rounds
  shell_rounds-get_struct s s' [] rounds other c h g quiet e =
      ap (λ (x : Server × List Round). get_struct x.0 other) (sym (some-injective _ _ e)) ∙ g
  shell_rounds-get_struct s s' (t ∷ turns) rounds other c h g quiet e =
      let (r, a, e1) = >>=-eq-some (shell_round dirname limits sock s t) _ e in
      let kept = shell_round-get_struct s t r other c h g quiet.0 a in
      elim (Bool-cases (goes_on r.deed)) [
        | inr ends ↦
            ap (λ (x : Server × List Round). get_struct x.0 other)
              (sym (some-injective _ _ (rw ends at e1)))
            ∙ kept
        | inl goes ↦
            let ((s2, later), b, e2) =
              >>=-eq-some (shell_rounds dirname limits sock r.after turns) _ (rw goes at e1) in
            ap (λ (x : Server × List Round). get_struct x.0 other) (sym (some-injective _ _ e2))
            ∙ shell_rounds-get_struct r.after s2 turns later other c h kept quiet.1 b
      ]
