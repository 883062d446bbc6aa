-- ===== src/Tests/Spawn.antt =====
-- Copies of the options, the search for the program, and the start of a session at concrete inputs.
use flutter_pty.Prelude.{
  false, ltb, ◌||◌, ℕ, suc, ◌≡◌, ◌≢◌, refl, true, List, [], ◌∷◌, none, some, arith, length, ◌==◌,
  if◌then◌else◌, ◌&&◌,
}
use flutter_pty.Prelude.Int.{pos}
use flutter_pty.Prelude.Text.{codes}
use flutter_pty.Errors.{size_is_valid}
use flutter_pty.Unix.World.{Os, fresh_error}
use flutter_pty.Unix.Spawn.System.{Call, Balanced}
use flutter_pty.Unix.Spawn.Options.{
  view_text, Options, no_options, free_options, clone_options, clone_arguments, clone_environment,
  clone_directory,
}
use flutter_pty.Unix.Spawn.Strings.{copy_string, copy_string_vector, copy_entries, finish_vector}
use flutter_pty.Unix.Spawn.Options.Balance.{held_text, free_options-clone_options}
use flutter_pty.Unix.Spawn.Path.{Access, allowed, denied, eacces, resolve_executable}
use flutter_pty.Unix.Spawn.Path.Ownership.{resolve_executable-Holds}
use flutter_pty.Unix.Spawn.Path.{environment_value, after_key}
use flutter_pty.Unix.Spawn.Path.Entries.{split}
use flutter_pty.Unix.Spawn.Path.Search.{first_allowed, resolve_executable-first_allowed}
use flutter_pty.Unix.Spawn.Descriptors.{elem, close_fds_except, close_fds_except-keeps}
use flutter_pty.Unix.Start.{
  session_start, allocate_session, start_session, prepare_bootstrap, launch_bootstrap,
}
use flutter_pty.Unix.Start.Cleanup.{Undone, session_start-Undone}
use flutter_pty.Tests.Data.{os, no_stats}

-- Each block lies at an address of its own; memory is there for `n` calls.
abbrev pub fresh : List Call → (size : ℕ) → ℕ
fresh log size = suc (length log)

abbrev pub up_to : ℕ → List Call → (size : ℕ) → ℕ
up_to n log size = if length log == n then 0 else suc (length log)

fresh_lem : (log : List Call) (size : ℕ) → fresh log size ≢ 0
fresh_lem log size e = omega arith

abbrev pub options : Options
options = record {
  executable = some (codes "sh");
  arguments = some (some (codes "-c") ∷ some (codes "ls") ∷ []);
  argument_count = pos 2;
  environment = some (some (codes "PATH=/a::/b") ∷ []);
  environment_count = pos 1;
  working_directory = some (codes "/tmp");
  size = record { rows = pos 24; columns = pos 80; pixel_width = pos 0; pixel_height = pos 0 };
  input_buffer_bytes = 1024;
  output_window_bytes = 4096;
  event_port = pos 3;
}

-- Only `/b/sh` may run, `/a/sh` may not.
abbrev runs : List Call → (path : List ℕ) → Access
runs log (s ∷ c ∷ rest) =
    if c == b'b' then allowed else if c == b'a' then denied eacces else denied 2
runs log path = denied 2

-- No thread can be created.
abbrev threadless : Os
threadless = record os { create_thread = λ log kind. 11 }

free_options-clone_options_example :
    let c = clone_options (up_to 5) (some options) no_options (some fresh_error) [] in
    Balanced 3 [] 0 (free_options c.owned c.log).0 0
free_options-clone_options_example =
    free_options-clone_options 3 (up_to 5) options (some fresh_error) []

resolve_executable-Holds_example :
    let r =
      resolve_executable os.strerror fresh runs
        (codes "sh")
        none
        (some (codes "PATH=/a::/b") ∷ [])
        (some fresh_error)
        [] in
    Balanced 9 [] 0 r.0 (held_text 9 r.1)
resolve_executable-Holds_example =
    resolve_executable-Holds 9 os.strerror fresh runs (codes "sh") none
      (some (codes "PATH=/a::/b") ∷ []) (some fresh_error) []

-- What the same file system answers by the path alone.
abbrev runs_at : (path : List ℕ) → Access
runs_at path = runs [] path

runs-at : (log : List Call) (path : List ℕ) → runs log path ≡ runs_at path
runs-at log [] = refl
runs-at log (s ∷ []) = refl
runs-at log (s ∷ c ∷ rest) = refl

resolve_executable-first_allowed_example :
    view_text
      (resolve_executable os.strerror fresh runs
        (codes "sh")
        none
        (some (codes "PATH=/a::/b") ∷ [])
        (some fresh_error)
        []).1
    ≡ first_allowed runs_at none (codes "sh") (split (codes "/a::/b"))
unfolding environment_value after_key
resolve_executable-first_allowed_example =
    resolve_executable-first_allowed os.strerror fresh runs runs_at fresh_lem runs-at (codes "sh")
      none (some (codes "PATH=/a::/b") ∷ []) (some fresh_error) [] refl (omega arith)

session_start-Undone_example :
    Undone 1 [] no_stats (
      session_start threadless fresh 208 96 true (some options) true (some fresh_error) [] no_stats)
unfolding session_start allocate_session start_session prepare_bootstrap launch_bootstrap
    clone_options clone_arguments clone_environment clone_directory copy_string copy_string_vector
    copy_entries finish_vector size_is_valid
session_start-Undone_example =
    session_start-Undone threadless fresh 208 96 1 no_stats (omega arith) true (some options) true
      (some fresh_error) [] refl

-- The supervisor keeps 10, 5 and 7 of twelve open descriptors.
close_fds_except-keeps_example :
    close_fds_except false (10 ∷ 5 ∷ 7 ∷ []) 12 (λ x. true) 7
    ≡ ((ltb 7 3 || elem 7 (10 ∷ 5 ∷ 7 ∷ [])) && true)
close_fds_except-keeps_example =
    close_fds_except-keeps false (10 ∷ 5 ∷ 7 ∷ []) 12 (λ x. true) 7 (omega arith) (omega arith)
