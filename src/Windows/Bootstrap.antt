-- ===== src/Windows/Bootstrap.antt =====
-- `windows_bootstrap` of src/windows/pty_windows_session.c, from the outcome of the spawn on. Where it
-- waits for other threads it is cut in two.
pub mod References
use flutter_pty.Prelude.{
  ℕ, ◌+◌, Bool, true, false, not, ◌&&◌, ◌||◌, List, [], ◌∷◌, Option, none, some, is_some, ◌==◌,
  if◌then◌else◌,
}
use flutter_pty.Prelude.Int.{pos}
use flutter_pty.Prelude.Text.{codes}
use flutter_pty.Errors.{PtyError, internal_domain, internal, out_of_memory, win32, set}
use flutter_pty.Errors
use flutter_pty.Events.{Event, spawned, spawn_failed, output_closed, session_closed}
use flutter_pty.Queue.{init}
use flutter_pty.Session.{Session, starting, running, retain, mark_closing, mark_closed}
use flutter_pty.Session
use flutter_pty.Stats.{WorkerKind, worker_started, worker_finished, pseudo_console_close}
use flutter_pty.Stats
use flutter_pty.Unix.World.{fresh_error}
use flutter_pty.Windows.World.{
  WindowsPlatform, WindowsOs, WindowsWorld, WindowsWorker, reader, writer, waiter, owned,
  console_closed, job_terminated, cancelled, closed_handle, thread, resumed, awaited,
  bootstrap_freed, did, on_session, on_platform, on_stats, not_enough_memory,
}
use flutter_pty.Windows.Closing.{
  Progress, returned, asleep, close_handle, windows_release, windows_stop_process,
  windows_start_pseudo_console_close_worker, windows_wait_for_pseudo_console_close,
}
use flutter_pty.Windows.Posting.{
  windows_post_session_event, windows_mark_output_closed, windows_mark_input_closed,
  windows_maybe_post_closed, windows_post_startup_cancelled,
}
use flutter_pty.Windows.Process.{Creation}

-- What `windows_bootstrap` comes to: its end, or a wait for the console's close or for the workers that
-- were started, with what it goes on with.
pub data Bootstrapped : Type 0 where
  ended : WindowsWorld → Bootstrapped
  closing_unstarted : Progress → Bootstrapped
  workers_failed : (synchronous : Bool) → Option PtyError → WindowsWorld → Bootstrapped
  startup_lost : (synchronous : Bool) → WindowsWorld → Bootstrapped

abbrev pub handle_of : Option ℕ → ℕ
handle_of none = 0
handle_of (some h) = h

-- `calloc` and the stores that follow. The threads' handles are 0.
unfoldable pub new_windows_platform :
    Creation → (can_release : Bool) → (limit : ℕ) → WindowsPlatform
new_windows_platform c can_release limit = record {
  input_write = handle_of c.input_write;
  output_read = handle_of c.output_read;
  pseudo_console = handle_of c.pseudo_console;
  can_release = can_release;
  console_state = owned;
  process = handle_of c.process;
  job = handle_of c.job;
  process_id = c.process_id;
  reader_thread = 0;
  writer_thread = 0;
  waiter_thread = 0;
  close_thread = 0;
  console_close_thread = 0;
  reader_started = false;
  writer_started = false;
  waiter_started = false;
  reader_done = false;
  writer_done = false;
  waiter_done = false;
  close_started = false;
  close_done = false;
  console_close_started = false;
  console_close_done = false;
  stopping = false;
  termination_requested = false;
  write_backpressured = false;
  discard_output = false;
  output_closed = false;
  input_closed = false;
  session_closed_posted = false;
  write_queue = init limit;
}

module _ (os : WindowsOs) where
  abbrev post : Event → WindowsWorld → WindowsWorld
  post e w = (windows_post_session_event os e w).0

  -- The end of each way out: the options and the block are freed, and the bootstrap's reference goes.
  unfoldable pub bootstrap_end : WindowsWorld → WindowsWorld
  bootstrap_end w = windows_release (did bootstrap_freed w)

  -- The posts of a spawn that failed, before there is a platform.
  unfoldable pub windows_spawn_failure : Option PtyError → WindowsWorld → WindowsWorld
  windows_spawn_failure e w =
      let w1 = post output_closed (post (spawn_failed e) w) in
      bootstrap_end (post session_closed (on_session mark_closed (on_session mark_closing w1)))

  -- Without memory for the platform everything that the spawn gave is closed.
  unfoldable pub windows_platform_failure : Creation → WindowsWorld → WindowsWorld
  windows_platform_failure c w =
      let e =
        set (some fresh_error) internal_domain out_of_memory (pos not_enough_memory)
          (some (codes "allocating Windows PTY session failed")) in
      let w1 = did (job_terminated (os.terminate_job w.log)) w in
      let w2 = did (closed_handle (handle_of c.job)) (
        did (closed_handle (handle_of c.process_thread))
          (did (closed_handle (handle_of c.process)) w1)) in
      let w3 =
        did (closed_handle (handle_of c.output_read))
          (did (closed_handle (handle_of c.input_write)) w2) in
      windows_spawn_failure e (did console_closed (on_stats pseudo_console_close w3))

  -- `windows_finish_unstarted_close` up to its wait for the console.
  unfoldable pub windows_finish_unstarted_close : (process_thread : ℕ) → WindowsWorld → Progress
  windows_finish_unstarted_close process_thread w =
      let w1 = did (awaited w.platform.process) (windows_stop_process os w) in
      windows_start_pseudo_console_close_worker os (close_handle process_thread w1)

  -- `windows_finish_unstarted_close` from there on, and the end of the bootstrap.
  unfoldable pub windows_finish_unstarted_close_end : WindowsWorld → Progress
  windows_finish_unstarted_close_end w = elim (windows_wait_for_pseudo_console_close w) [
    | asleep w1 ↦ asleep w1
    | returned w1 ↦
        let w2 =
          on_platform
            (λ p. record p {
              reader_done = true;
              writer_done = true;
              waiter_done = true;
              close_done = true;
              session_closed_posted = true;
            })
            w1 in
        let w3 =
          windows_mark_input_closed os none
            (windows_mark_output_closed os (windows_post_startup_cancelled os w2)) in
        returned (bootstrap_end (post session_closed (on_session mark_closed w3)))
  ]

  -- The block that reserves a synchronous cleanup: whether it did.
  abbrev reserve_cleanup : WindowsWorld → WindowsWorld × Bool
  reserve_cleanup w =
      (on_platform (λ p. record p { close_started = true }) w, not w.platform.close_started)

  abbrev resume_and_close : (process_thread : ℕ) → WindowsWorld → WindowsWorld
  resume_and_close process_thread w =
      did (closed_handle process_thread) (did (resumed (os.resume w.log)) w)

  -- `windows_finish_worker_startup_failure` up to its waits for the workers.
  unfoldable pub windows_finish_worker_startup_failure :
      (process_thread : ℕ) → Option PtyError → WindowsWorld → Bootstrapped
  windows_finish_worker_startup_failure process_thread e w =
      let (w1, synchronous) = reserve_cleanup w in
      let w2 = windows_stop_process os w1 in
      let w3 = if process_thread == 0 then w2 else resume_and_close process_thread w2 in
      workers_failed synchronous e w3

  -- The start of the console's close, after the waits for the workers.
  unfoldable pub startup_failure_close : WindowsWorld → Progress
  startup_failure_close w = windows_start_pseudo_console_close_worker os w

  -- `windows_finish_worker_startup_failure` from its wait for the console on, and the bootstrap's end.
  unfoldable pub startup_failure_end : Bool → Option PtyError → WindowsWorld → Progress
  startup_failure_end synchronous e w = elim (windows_wait_for_pseudo_console_close w) [
    | asleep w1 ↦ asleep w1
    | returned w1 ↦
        let w2 =
          on_platform
            (λ p. record p {
              reader_done = p.reader_done || not p.reader_started;
              writer_done = p.writer_done || not p.writer_started;
              waiter_done = p.waiter_done || not p.waiter_started;
              close_done = p.close_done || synchronous;
            })
            w1 in
        let w3 = post (spawn_failed e) (on_session mark_closing w2) in
        let w4 = windows_mark_input_closed os none (windows_mark_output_closed os w3) in
        returned (bootstrap_end (windows_maybe_post_closed os w4))
  ]

  -- `windows_bootstrap` when the session was closed while the workers started, up to its waits for them,
  -- and from the wait for the console on.
  unfoldable pub windows_lost_startup : (process_thread : ℕ) → WindowsWorld → Bootstrapped
  windows_lost_startup process_thread w =
      let (w1, synchronous) = reserve_cleanup w in
      startup_lost synchronous (resume_and_close process_thread (windows_stop_process os w1))

  unfoldable pub lost_startup_end : Bool → WindowsWorld → Progress
  lost_startup_end synchronous w = elim (windows_wait_for_pseudo_console_close w) [
    | asleep w1 ↦ asleep w1
    | returned w1 ↦
        let w2 = on_platform (λ p. record p { close_done = p.close_done || synchronous }) w1 in
        returned
          (bootstrap_end (windows_maybe_post_closed os (windows_post_startup_cancelled os w2)))
  ]

  -- A worker's counter, reference and thread; `put` stores the handle and the flag. The error number
  -- is there when there is no thread.
  unfoldable pub start_windows_worker :
      WorkerKind
      → WindowsWorker
      → (ℕ → Bool → WindowsPlatform → WindowsPlatform)
      → (cancels : Bool) → WindowsWorld
      → WindowsWorld × Option ℕ
  start_windows_worker kind worker put cancels w =
      let w1 = on_session retain (on_stats (worker_started kind) w) in
      let handle = os.create_thread w1.log worker in
      let w2 = did (thread worker handle) w1 in
      let w3 = on_platform (put handle (not (handle == 0))) w2 in
      if handle == 0
      then (windows_release (on_stats (worker_finished kind) w3), some (os.last_error w2.log))
      else if cancels && w3.platform.stopping
      then (did (cancelled handle) w3, none)
      else (w3, none)

  abbrev pub put_reader : ℕ → Bool → WindowsPlatform → WindowsPlatform
  put_reader h b p = record p { reader_thread = h; reader_started = b || p.reader_started }

  abbrev pub put_writer : ℕ → Bool → WindowsPlatform → WindowsPlatform
  put_writer h b p = record p { writer_thread = h; writer_started = b || p.writer_started }

  abbrev pub put_waiter : ℕ → Bool → WindowsPlatform → WindowsPlatform
  put_waiter h b p = record p { waiter_thread = h; waiter_started = b || p.waiter_started }

  -- `worker_error` after the three starts: the first failure's.
  abbrev first_error : Option ℕ → Option ℕ → Option ℕ → ℕ
  first_error (some code) _ _ = code
  first_error none (some code) _ = code
  first_error none none (some code) = code
  first_error none none none = not_enough_memory

  -- The three workers, and `worker_error`.
  unfoldable pub start_windows_workers : WindowsWorld → WindowsWorld × ℕ
  start_windows_workers w =
      let (w1, e1) = start_windows_worker Stats.read reader put_reader true w in
      let (w2, e2) = start_windows_worker Stats.write writer put_writer true w1 in
      let (w3, e3) = start_windows_worker Stats.wait waiter put_waiter false w2 in
      (w3, first_error e1 e2 e3)

  -- PTY_CAPABILITY_RELIABLE_PROCESS_TREE_KILL and PTY_CAPABILITY_CONPTY
  abbrev windows_capabilities : ℕ
  windows_capabilities = 8 + 16

  -- The session runs: the program goes on, and the caller is told.
  unfoldable pub resume_program : (process_thread process_id : ℕ) → WindowsWorld → Bootstrapped
  resume_program process_thread process_id w =
      let ok = os.resume w.log in
      let w1 = did (resumed ok) w in
      let e =
        set (some fresh_error) win32 Errors.spawn_failed (pos (os.last_error w1.log))
          (some (codes "resuming ConPTY process failed")) in
      let w2 =
        post (spawned (pos process_id) windows_capabilities)
          (did (closed_handle process_thread) w1) in
      if ok
      then ended (bootstrap_end w2)
      else windows_finish_worker_startup_failure process_thread e w1

  -- `windows_bootstrap` after the three starts.
  unfoldable pub run_program :
      (process_thread process_id worker_error : ℕ) → WindowsWorld → Bootstrapped
  run_program process_thread process_id worker_error w =
      let p = w.platform in
      let e =
        set (some fresh_error) internal_domain internal (pos worker_error)
          (some (codes "starting Windows PTY workers failed")) in
      let w1 = on_session (λ s. record s { lifecycle = running }) w in
      if not p.reader_started || not p.writer_started || not p.waiter_started
      then windows_finish_worker_startup_failure process_thread e w
      else elim w.session.lifecycle [
        | starting ↦ resume_program process_thread process_id w1
        | _ ↦ windows_lost_startup process_thread w
      ]

  abbrev is_session_closing : WindowsWorld → Bool
  is_session_closing w = elim w.session.lifecycle [ Session.closing ↦ true | _ ↦ false ]

  -- `windows_bootstrap` once the platform is there, `address` being where it lies.
  unfoldable pub publish_windows_platform :
      (address : ℕ) (can_release : Bool) → Creation → WindowsWorld → Bootstrapped
  publish_windows_platform address can_release c w =
      let w1 =
        on_session (λ s. record s { platform = some address })
          (record w {
            platform = new_windows_platform c can_release w.session.input_buffer_limit;
          }) in
      let (w2, worker_error) = start_windows_workers w1 in
      if is_session_closing w1
      then closing_unstarted (windows_finish_unstarted_close (handle_of c.process_thread) w1)
      else run_program (handle_of c.process_thread) c.process_id worker_error w2

  -- `windows_bootstrap`, given what `pty_windows_create_process` did; an address of 0 is NULL.
  unfoldable pub windows_bootstrap :
      (address : ℕ) (can_release : Bool) → Creation → WindowsWorld → Bootstrapped
  windows_bootstrap address can_release c w =
      if not c.ok
      then ended (windows_spawn_failure c.error w)
      else if address == 0
      then ended (windows_platform_failure c w)
      else publish_windows_platform address can_release c w
