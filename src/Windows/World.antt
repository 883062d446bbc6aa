-- ===== src/Windows/World.antt =====
-- The state of one session of src/windows/pty_windows_session.c, and the system around it, which
-- answers each call by a function of all that has happened so far, the log.
use flutter_pty.Prelude.{ℕ, Bool, true, false, List, ◌∷◌, Option, none, some}
use flutter_pty.Prelude.Int.{ℤ}
use flutter_pty.Errors.{Size}
use flutter_pty.Events.{Event}
use flutter_pty.Queue.{Queue}
use flutter_pty.Session.{Session}
use flutter_pty.Stats.{Stats}

-- `PtyPseudoConsoleState`
pub data ConsoleState : Type 0 where
  owned released releasing closing closed : ConsoleState

-- `PtyWindowsPlatform`, less the mutex and the condition variable. A handle of 0 is NULL.
pub record WindowsPlatform : Type 0 where
  pub input_write : ℕ
  pub output_read : ℕ
  pub pseudo_console : ℕ
  -- whether `release_pseudo_console` is there
  pub can_release : Bool
  pub console_state : ConsoleState
  pub process : ℕ
  pub job : ℕ
  pub process_id : ℕ
  pub reader_thread : ℕ
  pub writer_thread : ℕ
  pub waiter_thread : ℕ
  pub close_thread : ℕ
  pub console_close_thread : ℕ
  pub reader_started : Bool
  pub writer_started : Bool
  pub waiter_started : Bool
  pub reader_done : Bool
  pub writer_done : Bool
  pub waiter_done : Bool
  pub close_started : Bool
  pub close_done : Bool
  pub console_close_started : Bool
  pub console_close_done : Bool
  pub stopping : Bool
  pub termination_requested : Bool
  pub write_backpressured : Bool
  pub discard_output : Bool
  pub output_closed : Bool
  pub input_closed : Bool
  pub session_closed_posted : Bool
  pub write_queue : Queue

pub data WindowsWorker : Type 0 where
  bootstrap reader writer waiter closer console_closer : WindowsWorker

-- What a session does to the world outside it.
pub data WindowsEffect : Type 0 where
  -- an event given to `Dart_PostCObject_DL`, and whether that took it
  posted : Event → Bool → WindowsEffect
  -- `WakeAllConditionVariable`
  woke : WindowsEffect
  -- `ClosePseudoConsole`, and the call of `ReleasePseudoConsole` with its success
  console_closed : WindowsEffect
  console_released : Bool → WindowsEffect
  -- `TerminateJobObject` with its success, and `TerminateProcess`
  job_terminated : Bool → WindowsEffect
  process_terminated : WindowsEffect
  -- `CancelSynchronousIo` and `CloseHandle`
  cancelled : (thread : ℕ) → WindowsEffect
  closed_handle : (handle : ℕ) → WindowsEffect
  -- `WriteFile` and the bytes that it took, `ReadFile` and the bytes that it gave
  wrote : List ℕ → WindowsEffect
  write_failed : (error_code : ℕ) → WindowsEffect
  got : List ℕ → WindowsEffect
  read_failed : (error_code : ℕ) → WindowsEffect
  resized : Size → WindowsEffect
  -- a worker thread and its handle
  thread : WindowsWorker → (handle : ℕ) → WindowsEffect
  -- `ResumeThread` with its success, and a wait for the program to end
  resumed : Bool → WindowsEffect
  awaited : (handle : ℕ) → WindowsEffect
  -- the bootstrap's options and block
  bootstrap_freed : WindowsEffect
  -- `free(session)`
  freed : WindowsEffect

pub data WriteAnswer : Type 0 where
  took : (count : ℕ) → WriteAnswer
  rejected : (error_code : ℕ) → WriteAnswer

pub data ReadAnswer : Type 0 where
  gave : List ℕ → ReadAnswer
  broke : (error_code : ℕ) → ReadAnswer

-- `WaitForSingleObject(process, INFINITE)`
pub data WaitAnswer : Type 0 where
  ended wait_odd : WaitAnswer
  wait_failed : (error_code : ℕ) → WaitAnswer

-- The calls out of the library.
pub record WindowsOs : Type 0 where
  pub post : List WindowsEffect → Event → Bool
  pub create_thread : List WindowsEffect → WindowsWorker → ℕ
  pub release_console : List WindowsEffect → Bool
  pub terminate_job : List WindowsEffect → Bool
  pub write : List WindowsEffect → List ℕ → WriteAnswer
  pub read : List WindowsEffect → (capacity : ℕ) → ReadAnswer
  -- the result of `ResizePseudoConsole`; a negative one is a failure
  pub resize_console : List WindowsEffect → Size → ℤ
  pub wait_process : List WindowsEffect → WaitAnswer
  -- `WaitForSingleObject(process, 0) == WAIT_OBJECT_0`
  pub process_over : List WindowsEffect → Bool
  pub resume : List WindowsEffect → Bool
  pub exit_code : List WindowsEffect → Option ℕ
  -- `ActiveProcesses` of the job
  pub active_processes : List WindowsEffect → Option ℕ
  pub last_error : List WindowsEffect → ℕ

-- The session points to its platform by an address; what lies there is beside it. The latest effect
-- comes first in the log.
pub record WindowsWorld : Type 0 where
  pub session : Session ℕ
  pub platform : WindowsPlatform
  pub stats : Stats
  pub log : List WindowsEffect

abbrev pub did : WindowsEffect → WindowsWorld → WindowsWorld
did e w = record w { log = e ∷ w.log }

abbrev pub on_session : (Session ℕ → Session ℕ) → WindowsWorld → WindowsWorld
on_session f w = record w { session = f w.session }

abbrev pub on_platform : (WindowsPlatform → WindowsPlatform) → WindowsWorld → WindowsWorld
on_platform f w = record w { platform = f w.platform }

abbrev pub on_stats : (Stats → Stats) → WindowsWorld → WindowsWorld
on_stats f w = record w { stats = f w.stats }

abbrev pub is_null : Option ℕ → Bool
is_null none = true
is_null (some _) = false

-- The error numbers of Windows that the code names.
abbrev pub invalid_handle : ℕ
invalid_handle = 6

abbrev pub not_enough_memory : ℕ
not_enough_memory = 8

abbrev pub invalid_data : ℕ
invalid_data = 13

abbrev pub write_fault : ℕ
write_fault = 29

abbrev pub invalid_parameter : ℕ
invalid_parameter = 87

abbrev pub broken_pipe : ℕ
broken_pipe = 109

abbrev pub call_not_implemented : ℕ
call_not_implemented = 120

abbrev pub no_data : ℕ
no_data = 232

abbrev pub operation_aborted : ℕ
operation_aborted = 995
