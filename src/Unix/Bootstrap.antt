-- ===== src/Unix/Bootstrap.antt =====
-- Starting a session in src/unix/pty_unix_session.c: `pty_session_start` and its bootstrap worker,
-- with each way in which the start fails.
use flutter_pty.Prelude.{ℕ, ◌+◌, Bool, true, false, ◌||◌, Option, none, some, ◌==◌, if◌then◌else◌}
use flutter_pty.Prelude.Int.{ℤ, pos, neg, ltb_ℤ}
use flutter_pty.Prelude.Text.{codes}
use flutter_pty.Errors.{
  PtyError, Kind, Size, out_of_memory, internal, internal_domain, invalid_argument, set, clear,
  set_errno, size_is_valid,
}
use flutter_pty.Errors
use flutter_pty.Events.{Event, spawn_failed, output_closed, session_closed, spawned}
use flutter_pty.Queue
use flutter_pty.Session.{Lifecycle, starting, running, closing, retain, mark_closing, mark_closed}
use flutter_pty.Stats.{Stats, worker_started, worker_finished}
use flutter_pty.Stats
use flutter_pty.Unix.World.{
  Platform, Os, World, Worker, reactor, waiter, SpawnAnswer, spawn_error, SetupAnswer, set_up,
  no_platform, no_duplicate, killed, closed_fd, thread, released, did, on_session, on_platform,
  put_platform, on_stats, no_fd, sigkill, einval, enomem, epipe, fresh_error,
}
use flutter_pty.Unix.World
use flutter_pty.Unix.Close.{
  close_fd, wake_reactor, release, stop_process, post_session_event, maybe_post_session_closed,
}
use flutter_pty.Unix.Input.{errno_error}
use flutter_pty.Unix.Workers.{release_process}

module _ (os : Os) where
  post : Event → World → World
  post e w = (post_session_event os e w).0

  -- `post_startup_cancelled`
  unfoldable pub post_startup_cancelled : World → World
  unfolding post
  post_startup_cancelled w =
      post
        (spawn_failed (
          set (some fresh_error) internal_domain Errors.closed (pos epipe)
            (some (codes "PTY session closed during startup"))))
        w

  -- `finish_unstarted_close`
  unfoldable pub finish_unstarted_close : World → World
  unfolding post
  finish_unstarted_close w = elim w.session.platform [
    | none ↦ w
    | some p ↦
        let w1 =
          on_platform
            (λ q. record q {
              master_fd = no_fd;
              slave_fd = no_fd;
              stopping = true;
              reactor_done = true;
              waiter_done = true;
              close_done = true;
              output_closed = true;
              session_closed_posted = true;
            })
            (stop_process os w) in
        let w2 = release_process (close_fd p.slave_fd (close_fd p.master_fd w1)) in
        let w3 = on_session (λ s. record s { output_closed = true }) (post_startup_cancelled w2) in
        post session_closed (post output_closed (on_session mark_closed w3))
  ]

  -- `bootstrap_worker` when the spawn fails
  unfoldable pub spawn_failure : PtyError → World → World
  unfolding post
  spawn_failure e w =
      let w1 = post output_closed (post (spawn_failed (some e)) w) in
      release (post session_closed (on_session (λ s. mark_closed (mark_closing s)) w1))

  -- `cleanup_spawned_process`
  unfoldable pub cleanup_spawned_process : ℤ → ℤ → ℤ → World → World
  cleanup_spawned_process process_id exit_fd release_fd w =
      let killed_it = did (killed process_id sigkill) (did (killed (neg process_id) sigkill) w) in
      let w1 = if ltb_ℤ (pos 0) process_id then killed_it else w in
      close_fd exit_fd (close_fd release_fd (did (released process_id) w1))

  -- `bootstrap_worker` when there is no platform, wake pipe or slave to keep; the wake pipe has
  -- been closed.
  unfoldable pub setup_failure : ℕ → ℤ → ℤ → ℤ → ℤ → ℤ → World → World
  unfolding post
  setup_failure errno master_fd slave_fd process_id exit_fd release_fd w =
      let w1 =
        cleanup_spawned_process process_id exit_fd release_fd
          (did (closed_fd slave_fd) (did (closed_fd master_fd) w)) in
      let e = errno_error os out_of_memory errno (codes "allocating Unix PTY session failed") in
      let w2 = on_session (λ s. mark_closed (mark_closing s)) (post (spawn_failed e) w1) in
      release (post session_closed w2)

  -- The flags with which `bootstrap_worker` keeps a concurrent close from starting a worker.
  reserve_reactor : Platform → Platform
  reserve_reactor p =
      let stopped = record p {
        stopping = true;
        reactor_done = true;
        waiter_done = true;
        output_closed = true;
      } in
      let reserved = record stopped {
        close_started = true;
        close_done = true;
        session_closed_posted = true;
      } in
      if p.close_started then stopped else reserved

  reserve_waiter : Platform → Platform
  reserve_waiter p =
      let stopped = record p { stopping = true; waiter_done = true } in
      let reserved = record stopped { close_started = true; close_done = true } in
      if p.close_started then stopped else reserved

  reserve_close : Platform → Platform
  reserve_close p =
      let stopped = record p { stopping = true } in
      let reserved = record stopped { close_started = true; close_done = true } in
      if p.close_started then stopped else reserved

  abbrev close_is_started : Option Platform → Bool
  close_is_started none = false
  close_is_started (some p) = p.close_started

  -- `bootstrap_worker` when the reactor's thread cannot be created
  unfoldable pub reactor_failure : ℕ → World → World
  unfolding post reserve_reactor
  reactor_failure result w =
      let w1 = on_session mark_closing (release (on_stats (worker_finished Stats.read) w)) in
      let w2 = release_process (stop_process os w1) in
      let e = errno_error os internal result (codes "starting PTY reactor failed") in
      let w3 = post (spawn_failed e) (on_platform reserve_reactor w2) in
      let w4 = post output_closed (on_session (λ s. record s { output_closed = true }) w3) in
      let later = maybe_post_session_closed os w4 in
      let now = post session_closed (on_session mark_closed w4) in
      release (if close_is_started w2.session.platform then later else now)

  -- `bootstrap_worker` when the waiter's thread cannot be created
  unfoldable pub waiter_failure : ℕ → World → World
  unfolding post reserve_waiter
  waiter_failure result w =
      let w1 = on_platform reserve_waiter (release (on_stats (worker_finished Stats.wait) w)) in
      let w2 = release_process (wake_reactor (stop_process os w1)) in
      let e = errno_error os internal result (codes "starting PTY waiter failed") in
      release (maybe_post_session_closed os (post (spawn_failed e) (on_session mark_closing w2)))

  -- `bootstrap_worker` when the session was closed while it started
  unfoldable pub lost_startup : World → World
  unfolding reserve_close
  lost_startup w =
      let w1 = wake_reactor (stop_process os (on_platform reserve_close w)) in
      release (maybe_post_session_closed os (post_startup_cancelled w1))

  -- PTY_CAPABILITY_POSIX_SIGNALS, FOREGROUND_PROCESS_GROUPS and PIXEL_DIMENSIONS
  abbrev capabilities : ℕ
  capabilities = 1 + 2 + 4

  -- `bootstrap_worker` once both workers run
  unfoldable pub publish_running : ℤ → World → World
  unfolding post
  publish_running process_id w = elim w.session.lifecycle [
    | starting ↦ release (
        post (spawned process_id capabilities)
          (on_session (λ s. record s { lifecycle = running }) w))
    | _ ↦ lost_startup w
  ]

  -- The counter and the reference that come before a worker's thread, and its creation.
  unfoldable pub create_worker : Worker → World → World
  create_worker kind w =
      let w1 = on_session retain w in did (thread kind (os.create_thread w1.log kind == 0)) w1

  -- `bootstrap_worker` from the waiter on
  unfoldable pub start_waiter : ℤ → World → World
  start_waiter process_id w =
      let w0 =
        on_stats (worker_started Stats.wait)
          (on_platform (λ p. record p { reactor_started = true }) w) in
      let result = os.create_thread w0.log waiter in
      let w1 = create_worker waiter w0 in
      if result == 0
      then publish_running process_id (on_platform (λ p. record p { waiter_started = true }) w1)
      else waiter_failure result w1

  -- `bootstrap_worker` from the reactor on
  unfoldable pub start_workers : ℤ → World → World
  start_workers process_id w =
      let w0 = on_stats (worker_started Stats.read) w in
      let result = os.create_thread w0.log reactor in
      let w1 = create_worker reactor w0 in
      if result == 0 then start_waiter process_id w1 else reactor_failure result w1

  -- The platform that `bootstrap_worker` publishes.
  unfoldable pub new_platform : ℤ → ℤ → ℤ → ℤ → ℤ → ℤ → ℤ → ℕ → Platform
  new_platform master_fd slave_fd process_id exit_fd release_fd wake_read_fd wake_write_fd limit =
      record {
        master_fd = master_fd;
        slave_fd = slave_fd;
        process_id = process_id;
        exit_fd = exit_fd;
        release_fd = release_fd;
        process_released = false;
        wake_read_fd = wake_read_fd;
        wake_write_fd = wake_write_fd;
        reactor_started = false;
        waiter_started = false;
        reactor_done = false;
        waiter_done = false;
        close_started = false;
        close_done = false;
        stopping = false;
        write_backpressured = false;
        discard_output = false;
        output_hung_up = false;
        output_closed = false;
        input_closed = false;
        session_closed_posted = false;
        write_queue = Queue.init limit;
      }

  abbrev is_closing : Lifecycle → Bool
  is_closing closing = true
  is_closing _ = false

  -- `bootstrap_worker` once the platform is set up
  unfoldable pub publish_platform : ℤ → Platform → World → World
  publish_platform process_id p w =
      let w1 = put_platform p w in
      if p.stopping || is_closing w.session.lifecycle
      then release (finish_unstarted_close w1)
      else start_workers process_id w1

  -- `bootstrap_worker`
  unfoldable pub bootstrap_worker : World → World
  unfolding new_platform
  bootstrap_worker w = elim (os.spawn w.log) [
    | spawn_error e ↦ spawn_failure e w
    | World.spawned master_fd slave_fd process_id exit_fd release_fd ↦ elim (os.setup w.log) [
      | no_platform errno ↦ setup_failure errno master_fd slave_fd process_id exit_fd release_fd w
      | no_duplicate wake_read_fd wake_write_fd errno ↦
          setup_failure errno master_fd slave_fd process_id exit_fd release_fd
            (close_fd wake_write_fd (close_fd wake_read_fd w))
      | set_up kept_fd wake_read_fd wake_write_fd ↦
          publish_platform process_id
            (new_platform master_fd kept_fd process_id exit_fd release_fd wake_read_fd wake_write_fd
              w.session.input_buffer_limit)
            (did (closed_fd slave_fd) w)
    ]
  ]
