-- ===== src/Unix/Spawn/Options.antt =====
-- `pty_unix_clone_options` and `pty_unix_free_options` of src/unix/pty_unix_spawn.c.
pub mod Balance
pub mod Copies
pub mod Success
use flutter_pty.Prelude.{
  ℕ, Bool, true, false, ◌&&◌, not, List, map, Option, none, some, is_some, if◌then◌else◌,
}
use flutter_pty.Prelude.Int.{ℤ, pos, pos_part}
use flutter_pty.Prelude.Text.{codes}
use flutter_pty.Errors.{PtyError, Size, internal_domain, invalid_argument, out_of_memory, set}
use flutter_pty.Unix.World.{einval, enomem}
use flutter_pty.Unix.Spawn.System.{Call}
use flutter_pty.Unix.Spawn.Strings.{
  Text, Vector, free_text, free_string_vector, copy_string, copy_string_vector,
}

-- `PtySpawnOptions`
pub record Options : Type 0 where
  pub executable : Option (List ℕ)
  pub arguments : Option (List (Option (List ℕ)))
  pub argument_count : ℤ
  pub environment : Option (List (Option (List ℕ)))
  pub environment_count : ℤ
  pub working_directory : Option (List ℕ)
  pub size : Size
  pub input_buffer_bytes : ℕ
  pub output_window_bytes : ℕ
  pub event_port : ℤ

abbrev pub view_text : Option Text → Option (List ℕ)
view_text none = none
view_text (some t) = some t.bytes

abbrev pub view_vector : Option Vector → Option (List (Option (List ℕ)))
view_vector none = none
view_vector (some v) = some (map view_text v.entries)

-- `PtyUnixOwnedOptions`
pub record Owned : Type 0 where
  pub options : Options
  pub executable : Option Text
  pub arguments : Option Vector
  pub environment : Option Vector
  pub working_directory : Option Text

-- After `memset(…, 0, …)`.
abbrev pub no_options : Owned
no_options = record {
  options = record {
    executable = none;
    arguments = none;
    argument_count = pos 0;
    environment = none;
    environment_count = pos 0;
    working_directory = none;
    size = record { rows = pos 0; columns = pos 0; pixel_width = pos 0; pixel_height = pos 0 };
    input_buffer_bytes = 0;
    output_window_bytes = 0;
    event_port = pos 0;
  };
  executable = none;
  arguments = none;
  environment = none;
  working_directory = none;
}

-- `pty_unix_free_options`, of options that are not NULL.
unfoldable pub free_options : Owned → List Call → List Call × Owned
free_options o log = (
  free_text o.working_directory (
      free_string_vector o.environment (pos_part o.options.environment_count) (
        free_string_vector o.arguments (pos_part o.options.argument_count)
          (free_text o.executable log))),
  no_options,
)

-- What a clone leaves: the log, the destination, the error that the caller sees, and the result.
pub record Cloned : Type 0 where
  pub log : List Call
  pub owned : Owned
  pub error : Option PtyError
  pub ok : Bool

abbrev copy_failed : Option PtyError → List ℕ → Option PtyError
copy_failed e message = set e internal_domain out_of_memory (pos enomem) (some message)

-- A failure that frees what is there.
abbrev abandon_clone : Owned → Option PtyError → List Call → Cloned
abandon_clone o e log =
    let (log', o') = free_options o log in record { log = log'; owned = o'; error = e; ok = false }

module _ (malloc : List Call → (size : ℕ) → ℕ) where
  -- The last step: the working directory.
  unfoldable pub clone_directory : Options → Owned → Option PtyError → List Call → Cloned
  clone_directory source o e log =
      let (log', copy) = copy_string malloc source.working_directory log in
      if is_some source.working_directory && not (is_some copy)
      then abandon_clone o (copy_failed e (codes "copying working directory failed")) log'
      else record {
        log = log';
        owned = record o {
          options = record (o.options) {
            executable = view_text o.executable;
            arguments = view_vector o.arguments;
            environment = view_vector o.environment;
            working_directory = view_text copy;
          };
          working_directory = copy;
        };
        error = e;
        ok = true;
      }

  unfoldable pub clone_environment : Options → Owned → Option PtyError → List Call → Cloned
  clone_environment source o e log =
      let (log', copy, e') =
        copy_string_vector malloc source.environment source.environment_count 1 e log in
      if is_some copy
      then clone_directory source (record o { environment = copy }) e' log'
      else abandon_clone o e' log'

  unfoldable pub clone_arguments : Options → Owned → Option PtyError → List Call → Cloned
  clone_arguments source o e log =
      let (log', copy, e') =
        copy_string_vector malloc source.arguments source.argument_count 1 e log in
      if is_some copy
      then clone_environment source (record o { arguments = copy }) e' log'
      else abandon_clone o e' log'

  -- `pty_unix_clone_options` into a destination that is not NULL.
  unfoldable pub clone_options : Option Options → Owned → Option PtyError → List Call → Cloned
  clone_options none destination e log = record {
    log = log;
    owned = destination;
    error =
        set e internal_domain invalid_argument (pos einval)
          (some (codes "invalid options clone arguments"));
    ok = false;
  }
  clone_options (some source) destination e log =
      let (log', copy) = copy_string malloc source.executable log in
      let o = record no_options { options = source; executable = copy } in
      if is_some source.executable && not (is_some copy)
      then record {
        log = log';
        owned = o;
        error = copy_failed e (codes "copying executable failed");
        ok = false;
      }
      else clone_arguments source o e log'
