-- ===== src/Unix/World.antt =====
-- The state of one session of src/unix/pty_unix_session.c, and the system around it. The system
-- answers each call as it likes: an answer is a function of all that has happened so far, the log.
use flutter_pty.Prelude.{ℕ, Bool, List, [], ◌∷◌, none, some}
use flutter_pty.Prelude.Int.{ℤ, pos, negsuc}
use flutter_pty.Errors.{PtyError, Kind, Size}
use flutter_pty.Errors
use flutter_pty.Events.{Event}
use flutter_pty.Queue.{Queue}
use flutter_pty.Session.{Session}
use flutter_pty.Stats.{Stats}

-- `PtyUnixPlatform`, less the mutex and the thread handles. A closed descriptor is -1.
pub record Platform : Type 0 where
  pub master_fd : ℤ
  pub slave_fd : ℤ
  pub process_id : ℤ
  pub exit_fd : ℤ
  pub release_fd : ℤ
  pub process_released : Bool
  pub wake_read_fd : ℤ
  pub wake_write_fd : ℤ
  pub reactor_started : Bool
  pub waiter_started : Bool
  pub reactor_done : Bool
  pub waiter_done : Bool
  pub close_started : Bool
  pub close_done : Bool
  pub stopping : Bool
  pub write_backpressured : Bool
  pub discard_output : Bool
  pub output_hung_up : Bool
  pub output_closed : Bool
  pub input_closed : Bool
  pub session_closed_posted : Bool
  pub write_queue : Queue

pub data Worker : Type 0 where
  bootstrap reactor waiter closer : Worker

-- What a session does to the world outside it.
pub data Effect : Type 0 where
  -- an event given to `Dart_PostCObject_DL`, and whether that took it
  posted : Event → Bool → Effect
  -- `kill(target, signal)`
  killed : (target : ℤ) (signal : ℕ) → Effect
  closed_fd : ℤ → Effect
  -- the marker byte written to the wake pipe
  woke : Effect
  -- `write` on the master, and the bytes that it took
  wrote : List ℕ → Effect
  write_failed : (errno : ℕ) → Effect
  -- `read` on the master, and what it gave
  got : List ℕ → Effect
  read_failed : (errno : ℕ) → Effect
  resized : Size → Effect
  -- a worker thread, and whether it was created
  thread : Worker → Bool → Effect
  -- `pty_unix_release_process`
  released : (process_id : ℤ) → Effect
  -- `free(session)`
  freed : Effect

pub data WriteAnswer : Type 0 where
  took : (count : ℕ) → WriteAnswer
  rejected : (errno : ℕ) → WriteAnswer

pub data ReadAnswer : Type 0 where
  gave : List ℕ → ReadAnswer
  broke : (errno : ℕ) → ReadAnswer

-- `POLLIN` and `POLLOUT` of the master.
pub record Interest : Type 0 where
  pub readable : Bool
  pub writable : Bool

pub data PollAnswer : Type 0 where
  ready : (master : Interest) (hung_up : Bool) (wake : Bool) → PollAnswer  -- `hung_up` is POLLERR, POLLHUP or POLLNVAL
  poll_failed : (errno : ℕ) → PollAnswer

-- `PtyUnixExit`, no report from the supervisor, or an error.
pub data ExitAnswer : Type 0 where
  reported : (signaled : Bool) (value : ℤ) → ExitAnswer
  no_report : ExitAnswer
  exit_failed : (errno : ℕ) → ExitAnswer

-- `pty_unix_spawn`: the descriptors and the process, or the error.
pub data SpawnAnswer : Type 0 where
  spawned : (master_fd slave_fd process_id exit_fd release_fd : ℤ) → SpawnAnswer
  spawn_error : PtyError → SpawnAnswer

-- The platform's memory and mutex, the wake pipe, and the duplicate of the slave: all there, no
-- memory, mutex or pipe, or no duplicate.
pub data SetupAnswer : Type 0 where
  set_up : (slave_fd wake_read_fd wake_write_fd : ℤ) → SetupAnswer
  no_platform : (errno : ℕ) → SetupAnswer
  no_duplicate : (wake_read_fd wake_write_fd : ℤ) (errno : ℕ) → SetupAnswer

-- The calls out of the library. A result of 0 is success, any other the error number.
pub record Os : Type 0 where
  pub post : List Effect → Event → Bool
  pub create_thread : List Effect → Worker → ℕ
  pub foreground : List Effect → ℤ → ℤ
  pub kill : List Effect → ℤ → ℕ → ℕ
  pub write : List Effect → ℤ → List ℕ → WriteAnswer
  pub read : List Effect → ℤ → ℕ → ReadAnswer
  pub set_window : List Effect → ℤ → Size → ℕ
  -- `poll` for the master, if it is watched, with the wanted events, and for the wake pipe
  pub poll : List Effect → Bool → Interest → PollAnswer
  -- `pty_unix_read_exit`
  pub read_exit : List Effect → ℤ → ExitAnswer
  pub spawn : List Effect → SpawnAnswer
  pub setup : List Effect → SetupAnswer
  -- what `errno` holds where no call has just failed
  pub errno : List Effect → ℕ
  pub strerror : ℕ → List ℕ

-- The latest effect comes first in the log.
pub record World : Type 0 where
  pub session : Session Platform
  pub stats : Stats
  pub log : List Effect

abbrev pub did : Effect → World → World
did e w = record w { log = e ∷ w.log }

-- A store into the session, and into the platform under its mutex.
abbrev pub on_session : (Session Platform → Session Platform) → World → World
on_session f w = record w { session = f w.session }

abbrev pub put_platform : Platform → World → World
put_platform p w = record w { session = record (w.session) { platform = some p } }

-- A store into the platform; a session whose platform is gone stays as it is.
abbrev pub on_platform : (Platform → Platform) → World → World
on_platform f w = elim w.session.platform [ none ↦ w | some p ↦ put_platform (f p) w ]

abbrev pub on_stats : (Stats → Stats) → World → World
on_stats f w = record w { stats = f w.stats }

abbrev pub no_fd : ℤ
no_fd = negsuc 0

-- The error numbers of Linux that the code names; EWOULDBLOCK is EAGAIN.
abbrev pub esrch : ℕ
esrch = 3

abbrev pub eintr : ℕ
eintr = 4

abbrev pub eio : ℕ
eio = 5

abbrev pub eagain : ℕ
eagain = 11

abbrev pub enomem : ℕ
enomem = 12

abbrev pub einval : ℕ
einval = 22

abbrev pub epipe : ℕ
epipe = 32

abbrev pub enobufs : ℕ
enobufs = 105

abbrev pub sigkill : ℕ
sigkill = 9

-- The value that an uninitialised `PtyError` on the stack holds is always overwritten.
abbrev pub fresh_error : PtyError
fresh_error = record {
  domain = Errors.no_domain;
  kind = Errors.no_error;
  os_code = pos 0;
  message = [];
}
