-- ===== src/ShellClient/Rounds/Handled.antt =====
-- What `HandleClientRequest` (simple_remote_shell_serv.c) answers for each option, told from its result.
use mathlib.Core.Option.{some-injective}
use network_camp.Prelude.{ℕ, Option, some, List, ◌≡◌, ap, sym, ◌∙◌, >>=-eq-some}
use network_camp.Transfer.{Limits}
use network_camp.Shell.{File, Dirent, Server}
use network_camp.Shell.Requests.{show_dir}
use network_camp.Shell.Handler.{Effect, lists, answer_download, answer_upload, handle_request}

module _ (open_size : List ℕ → Option ℕ) (read_dir : List ℕ → Option (List Dirent))
    (contents : List ℕ → Option (List ℕ)) (dirname : List ℕ → List ℕ) (limits : Limits)
    (s s' : Server) (sock : ℕ) (text : List ℕ) (file : File) (stream : List ℕ)
    (effect : Effect) where
  abbrev Handles : ℕ → Type 0
  Handles option =
      handle_request open_size read_dir contents dirname limits s sock option text file stream
      ≡ some (s', effect)

  pub handle_request-download :
      Handles 0 → (s' ≡ s) × (answer_download contents s sock text ≡ some effect)
  unfolding handle_request
  handle_request-download e =
      let (a, q, r) = >>=-eq-some (answer_download contents s sock text) _ e in
      (
        ap (λ (x : Server × Effect). x.0) (sym (some-injective _ _ r)),
        q ∙ ap some (ap (λ (x : Server × Effect). x.1) (some-injective _ _ r)),
      )

  pub handle_request-upload :
      Handles 1 → (s' ≡ s) × (answer_upload limits s sock file stream ≡ some effect)
  unfolding handle_request
  handle_request-upload e =
      let (a, q, r) = >>=-eq-some (answer_upload limits s sock file stream) _ e in
      (
        ap (λ (x : Server × Effect). x.0) (sym (some-injective _ _ r)),
        q ∙ ap some (ap (λ (x : Server × Effect). x.1) (some-injective _ _ r)),
      )

  pub handle_request-show :
      Handles 3
      → (count : ℕ) × (files : List File) × (show_dir open_size read_dir s sock
          ≡ some (s', (count, files)))
        × (effect ≡ lists count files)
  unfolding handle_request
  handle_request-show e =
      let ((t, (count, files)), q, r) = >>=-eq-some (show_dir open_size read_dir s sock) _ e in
      (
        count,
        files,
        q ∙ ap (λ (x : Server × Effect). some (x.0, (count, files))) (some-injective _ _ r),
        ap (λ (x : Server × Effect). x.1) (sym (some-injective _ _ r)),
      )
