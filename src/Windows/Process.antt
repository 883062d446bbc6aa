-- ===== src/Windows/Process.antt =====
-- `pty_windows_create_process` of src/windows/pty_windows_spawn.c, called with all outputs NULL as
-- `windows_bootstrap` does. Each call of the system is made at most once, so its answer is a field. A
-- handle of `none` is NULL. The log names what was acquired and released.
pub mod Accounting
use flutter_pty.Prelude.{
  ℕ, ◌+◌, Bool, true, false, not, ◌&&◌, ◌||◌, List, [], ◌∷◌, Option, none, some, is_some, ◌==◌,
  if◌then◌else◌,
}
use flutter_pty.Prelude.Int.{ℤ, pos, ltb_ℤ}
use flutter_pty.Prelude.Text.{codes}
use flutter_pty.Errors.{
  PtyError, Domain, Kind, Size, internal_domain, win32, hresult, io, out_of_memory, spawn_failed,
  not_found, permission_denied, working_directory, set,
}
use flutter_pty.Stats.{Stats, pseudo_console_close}
use flutter_pty.Unix.Spawn.Options.{Options}
use flutter_pty.Unix.Start.{is_empty}
use flutter_pty.Windows.Wide.{System, utf8_to_wide}
use flutter_pty.Windows.CommandLine.{build_command_line}
use flutter_pty.Windows.Environment.{build_environment}
use flutter_pty.Windows.World.{not_enough_memory}

-- What the function acquires: the ends of the pipes, the console, the job, the memory and the
-- attribute list in it, the three texts, and the handles of the program and its thread.
pub data Item : Type 0 where
  read_in write_in read_out write_out console job_object attribute_memory attribute_list
        wide_command wide_environment wide_directory process_handle thread_handle :
      Item

pub data Act : Type 0 where
  acquired : Item → Act
  released : Item → Act
  process_ended : Act

-- `ERROR_FILE_NOT_FOUND`, `ERROR_PATH_NOT_FOUND`, `ERROR_ACCESS_DENIED`, `ERROR_DIRECTORY`
abbrev file_not_found : ℕ
file_not_found = 2

abbrev path_not_found : ℕ
path_not_found = 3

abbrev access_denied : ℕ
access_denied = 5

abbrev not_a_directory : ℕ
not_a_directory = 267

pub data Answer (A : Type 0) : Type 0 where
  granted : A → Answer A
  refused : (error_code : ℕ) → Answer A

-- The answers; a call without a result answers with `none` or its error.
pub record ProcessSystem : Type 0 where
  -- `CreatePipe`: the end to read and the end to write
  pub input_pipe : Answer (ℕ × ℕ)
  pub output_pipe : Answer (ℕ × ℕ)
  -- `CreatePseudoConsole`: its result, of which a negative one is a failure, and the console
  pub console_result : Size → ℤ
  pub console_handle : ℕ
  pub create_job : Answer ℕ
  pub configure_job : Option ℕ
  pub attribute_memory_there : Bool
  pub initialize_list : Option ℕ
  pub update_list : Option ℕ
  pub measured : System
  pub copied : System
  pub command_memory : Bool
  pub environment_memory : Bool
  -- `GetFileAttributesW`: whether the path is a directory
  pub is_directory : Option (List ℕ) → Answer Bool
  -- `CreateProcessW`: the handles of the program and of its thread, and the process id
  pub start_process : Option (List ℕ) → Option (List ℕ) → Option (List ℕ) → Answer (ℕ × (ℕ × ℕ))
  pub assign_job : Option ℕ

-- The variables of the function, its log, and the result.
pub record Creation : Type 0 where
  pub input_read : Option ℕ
  pub input_write : Option ℕ
  pub output_read : Option ℕ
  pub output_write : Option ℕ
  pub pseudo_console : Option ℕ
  pub job : Option ℕ
  pub has_attributes : Bool
  pub has_list : Bool
  pub command : Option (List ℕ)
  pub environment : Option (List ℕ)
  pub directory : Option (List ℕ)
  pub process : Option ℕ
  pub process_thread : Option ℕ
  pub process_id : ℕ
  pub error : Option PtyError
  pub stats : Stats
  pub acts : List Act
  pub ok : Bool

abbrev pub nothing_created : Option PtyError → Stats → Creation
nothing_created e s = record {
  input_read = none;
  input_write = none;
  output_read = none;
  output_write = none;
  pseudo_console = none;
  job = none;
  has_attributes = false;
  has_list = false;
  command = none;
  environment = none;
  directory = none;
  process = none;
  process_thread = none;
  process_id = 0;
  error = e;
  stats = s;
  acts = [];
  ok = false;
}

-- `windows_spawn_utf8_to_wide`, which does what `utf8_to_wide` does.
unfoldable pub windows_spawn_utf8_to_wide : System → Option (List ℕ) → Option (List ℕ)
windows_spawn_utf8_to_wide y value = utf8_to_wide y value

-- `windows_spawn_error_kind`
unfoldable pub windows_spawn_error_kind : ℕ → Kind
windows_spawn_error_kind error_code =
    if error_code == file_not_found || error_code == path_not_found
    then not_found
    else if error_code == access_denied
    then permission_denied
    else spawn_failed

-- A release of what is there; `free` and the checks against NULL pass over what is not.
abbrev pub let_go : Item → Bool → List Act → List Act
let_go i there acts = if there then released i ∷ acts else acts

-- The memory, at the end of both ways out.
unfoldable pub free_texts : Creation → List Act
free_texts c = let_go wide_directory (is_some c.directory) (
    let_go wide_environment (is_some c.environment) (
      let_go wide_command (is_some c.command)
        (let_go attribute_memory c.has_attributes (let_go attribute_list c.has_list c.acts))))

-- From the label `failure` on.
unfoldable pub failure : Creation → Creation
unfolding free_texts
failure c = record c {
  acts = let_go read_out (is_some c.output_read) (
      let_go write_in (is_some c.input_write) (
        let_go write_out (is_some c.output_write) (
          let_go read_in (is_some c.input_read) (
            let_go console (is_some c.pseudo_console)
              (let_go job_object (is_some c.job) (free_texts c))))));
  job = none;
  pseudo_console = none;
  input_write = none;
  output_read = none;
  stats = if is_some c.pseudo_console then pseudo_console_close c.stats else c.stats;
}

-- From the label `process_failure` on.
unfoldable pub process_failure : Creation → Creation
process_failure c =
    failure (record c {
      acts = released process_handle ∷ released thread_handle ∷ process_ended ∷ c.acts;
    })

abbrev pub failed_with : Creation → Domain → Kind → ℤ → List ℕ → Creation
failed_with c domain kind code message =
    failure (record c { error = set c.error domain kind code (some message) })

-- The way out with the program started.
unfoldable pub success : Creation → ℕ → ℕ → ℕ → Creation
success c process thread id = record c {
  acts = free_texts c;
  process = some process;
  process_thread = some thread;
  process_id = id;
  ok = true;
}

module _ (y : ProcessSystem) (o : Options) where
  -- `CreateProcessW` and the job, from line 328 on.
  unfoldable pub create_suspended : Creation → Creation
  create_suspended c = elim (y.start_process c.command c.environment c.directory) [
    | refused code ↦
        failed_with c win32 (windows_spawn_error_kind code) (pos code)
          (codes "creating ConPTY process failed")
    | granted (process, (thread, id)) ↦
        let c1 = record c { acts = acquired thread_handle ∷ acquired process_handle ∷ c.acts } in
        elim y.assign_job [
          | none ↦ success c1 process thread id
          | some code ↦ process_failure (record c1 {
            error =
                set c.error win32 spawn_failed (pos code)
                  (some (codes "assigning process to Job Object failed"));
          })
        ]
  ]

  -- The check of the working directory.
  unfoldable pub check_directory : Creation → Creation
  check_directory c =
      if is_empty o.working_directory
      then create_suspended c
      else elim (y.is_directory c.directory) [
        | refused code ↦
            failed_with c win32 working_directory (pos code)
              (codes "checking Windows working directory failed")
        | granted true ↦ create_suspended c
        | granted false ↦
            failed_with c win32 working_directory (pos not_a_directory)
              (codes "Windows working directory is not a directory")
      ]

  abbrev text_acts : Item → Option (List ℕ) → List Act → List Act
  text_acts i text acts = if is_some text then acquired i ∷ acts else acts

  -- The command line, the environment and the working directory.
  unfoldable pub build_texts : Creation → Creation
  build_texts c =
      let command =
        build_command_line y.measured y.command_memory o.executable o.arguments o.argument_count in
      let environment =
        build_environment y.measured y.copied y.environment_memory o.environment
          o.environment_count in
      let directory =
        if is_empty o.working_directory
        then none
        else windows_spawn_utf8_to_wide y.measured o.working_directory in
      let c1 = record c {
        command = command;
        environment = environment;
        directory = directory;
        acts =
            text_acts wide_directory directory
              (text_acts wide_environment environment (text_acts wide_command command c.acts));
      } in
      if not (is_some command)
        || not (is_some environment)
        || (not (is_empty o.working_directory) && not (is_some directory))
      then failed_with c1 win32 out_of_memory (pos not_enough_memory)
          (codes "building Windows process arguments failed")
      else check_directory c1

  -- The attribute list with the console in it.
  unfoldable pub update_attributes : Creation → Creation
  update_attributes c = elim y.update_list [
    | some code ↦
        failed_with c win32 spawn_failed (pos code)
          (codes "configuring ConPTY process attributes failed")
    | none ↦ build_texts c
  ]

  unfoldable pub make_attributes : Creation → Creation
  make_attributes c =
      let c1 = record c { has_attributes = true; acts = acquired attribute_memory ∷ c.acts } in
      if not y.attribute_memory_there
      then failed_with c internal_domain out_of_memory (pos not_enough_memory)
          (codes "allocating ConPTY process attributes failed")
      else elim y.initialize_list [
        | some code ↦
            failed_with c1 win32 spawn_failed (pos code)
              (codes "initializing ConPTY process attributes failed")
        | none ↦
            update_attributes
              (record c1 { has_list = true; acts = acquired attribute_list ∷ c1.acts })
      ]

  -- The ends of the pipes that the console has are closed here.
  unfoldable pub close_ends : Creation → Creation
  close_ends c = make_attributes (record c {
    input_read = none;
    output_write = none;
    acts = released write_out ∷ released read_in ∷ c.acts;
  })

  unfoldable pub make_job : Creation → Creation
  make_job c = elim y.create_job [
    | refused code ↦
        failed_with c win32 spawn_failed (pos code) (codes "creating process Job Object failed")
    | granted job ↦
        let c1 = record c { job = some job; acts = acquired job_object ∷ c.acts } in
        elim y.configure_job [
          | some code ↦
              failed_with c1 win32 spawn_failed (pos code)
                (codes "configuring process Job Object failed")
          | none ↦ close_ends c1
        ]
  ]

  unfoldable pub make_console : Creation → Creation
  make_console c =
      let result = y.console_result o.size in
      if ltb_ℤ result (pos 0)
      then failed_with c hresult spawn_failed result (codes "creating ConPTY failed")
      else make_job
          (record c { pseudo_console = some y.console_handle; acts = acquired console ∷ c.acts })

  -- The second pipe.
  unfoldable pub make_output : Creation → Creation
  make_output c = elim y.output_pipe [
    | refused code ↦ failed_with c win32 io (pos code) (codes "creating ConPTY pipes failed")
    | granted (reading, writing) ↦ make_console (record c {
      output_read = some reading;
      output_write = some writing;
      acts = acquired write_out ∷ acquired read_out ∷ c.acts;
    })
  ]

  -- `pty_windows_create_process`
  unfoldable pub windows_create_process : Option PtyError → Stats → Creation
  windows_create_process e s =
      let c = nothing_created e s in
      elim y.input_pipe [
        | refused code ↦ failed_with c win32 io (pos code) (codes "creating ConPTY pipes failed")
        | granted (reading, writing) ↦ make_output (record c {
          input_read = some reading;
          input_write = some writing;
          acts = acquired write_in ∷ acquired read_in ∷ c.acts;
        })
      ]
