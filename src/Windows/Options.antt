-- ===== src/Windows/Options.antt =====
-- `pty_windows_clone_options` and `pty_windows_free_options` of src/windows/pty_windows_spawn.c. The
-- loops over strings, and so their memory, are those of src/unix/pty_unix_spawn.c, letter for letter;
-- the errors are not, and here a failure leaves it to the caller to free what was copied.
pub mod Balance
use flutter_pty.Prelude.{
  ℕ, ◌+◌, ◌*◌, Bool, true, false, ◌&&◌, not, List, [], ◌∷◌, Option, none, some, is_some, ◌==◌,
  if◌then◌else◌,
}
use flutter_pty.Prelude.Int.{ℤ, pos, pos_part, ltb_ℤ}
use flutter_pty.Prelude.Text.{codes}
use flutter_pty.Errors.{PtyError, internal_domain, invalid_argument, out_of_memory, set}
use flutter_pty.Windows.World.{invalid_parameter, not_enough_memory}
use flutter_pty.Unix.Spawn.System.{Call, allocated}
use flutter_pty.Unix.Spawn.Strings.{
  Text, Vector, Copying, all_copied, null_entry, no_memory, free_text, free_string_vector,
  read_entries, copy_string, copy_entries, finish_vector,
}
use flutter_pty.Unix.Spawn.Options.{Options, Owned, Cloned, no_options, view_text, view_vector}

abbrev windows_fault : Option PtyError → Copying → Option PtyError
windows_fault e all_copied = e
windows_fault e null_entry =
    set e internal_domain invalid_argument (pos invalid_parameter)
      (some (codes "Windows string vector contains a null entry"))
windows_fault e no_memory =
    set e internal_domain out_of_memory (pos not_enough_memory)
      (some (codes "copying Windows spawn string failed"))

abbrev windows_no_memory : Option PtyError → List ℕ → Option PtyError
windows_no_memory e message =
    set e internal_domain out_of_memory (pos not_enough_memory) (some message)

-- `windows_free_vector`
unfoldable pub windows_free_vector : Option Vector → ℕ → List Call → List Call
windows_free_vector v count log = free_string_vector v count log

-- `pty_windows_free_options`, of options that are not NULL.
unfoldable pub windows_free_options : Owned → List Call → List Call × Owned
unfolding windows_free_vector
windows_free_options o log = (
  free_text o.working_directory (
      windows_free_vector o.environment (pos_part o.options.environment_count) (
        windows_free_vector o.arguments (pos_part o.options.argument_count)
          (free_text o.executable log))),
  no_options,
)

module _ (malloc : List Call → (size : ℕ) → ℕ) where
  -- `windows_copy_string`
  unfoldable pub windows_copy_string : Option (List ℕ) → List Call → List Call × Option Text
  windows_copy_string value log = copy_string malloc value log

  -- `windows_copy_vector`: the log, the vector, and the error that the caller sees.
  unfoldable pub windows_copy_vector :
      Option (List (Option (List ℕ)))
      → ℤ
      → Option PtyError
      → List Call
      → List Call × Option Vector × Option PtyError
  windows_copy_vector values count e log =
      let n = pos_part count in
      let a = malloc log ((n + 1) * 8) in
      let copied = copy_entries malloc (read_entries values n) [] (allocated a ∷ log) in
      let made = finish_vector malloc a copied in
      if ltb_ℤ count (pos 0)
      then (
        log,
        none,
        set e internal_domain invalid_argument (pos invalid_parameter)
            (some (codes "invalid Windows string vector length")),
      )
      else if a == 0
      then (log, none, windows_no_memory e (codes "allocating Windows string vector failed"))
      else (made.0, made.1, windows_fault e copied.2)

  -- The last step: the working directory, and the pointers of the copy.
  unfoldable pub windows_clone_directory : Options → Owned → Option PtyError → List Call → Cloned
  windows_clone_directory source o e log =
      let (log', copy) = windows_copy_string source.working_directory log in
      if is_some source.working_directory && not (is_some copy)
      then record {
        log = log';
        owned = record o { working_directory = copy };
        error = windows_no_memory e (codes "copying Windows working directory failed");
        ok = false;
      }
      else record {
        log = log';
        owned = record o {
          options = record (o.options) {
            executable = view_text o.executable;
            arguments = view_vector o.arguments;
            environment = view_vector o.environment;
            working_directory = view_text copy;
          };
          working_directory = copy;
        };
        error = e;
        ok = true;
      }

  unfoldable pub windows_clone_environment : Options → Owned → Option PtyError → List Call → Cloned
  windows_clone_environment source o e log =
      let (log', copy, e') =
        windows_copy_vector source.environment source.environment_count e log in
      let o' = record o { environment = copy } in
      if is_some copy
      then windows_clone_directory source o' e' log'
      else record { log = log'; owned = o'; error = e'; ok = false }

  unfoldable pub windows_clone_arguments : Options → Owned → Option PtyError → List Call → Cloned
  windows_clone_arguments source o e log =
      let (log', copy, e') = windows_copy_vector source.arguments source.argument_count e log in
      let o' = record o { arguments = copy } in
      if is_some copy
      then windows_clone_environment source o' e' log'
      else record { log = log'; owned = o'; error = e'; ok = false }

  -- `pty_windows_clone_options`
  unfoldable pub windows_clone_options : Options → Option PtyError → List Call → Cloned
  windows_clone_options source e log =
      let (log', copy) = windows_copy_string source.executable log in
      let o = record no_options { options = source; executable = copy } in
      if is_some copy then windows_clone_arguments source o e log' else record {
        log = log';
        owned = o;
        error = windows_no_memory e (codes "copying Windows executable failed");
        ok = false;
      }
