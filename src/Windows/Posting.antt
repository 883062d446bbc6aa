-- ===== src/Windows/Posting.antt =====
-- Posting events, and the close of a session, in src/windows/pty_windows_session.c.
use flutter_pty.Prelude.{
  ℕ, zero, suc, ◌/◌, Bool, true, false, not, ◌&&◌, ◌||◌, List, Option, none, some, leb, ◌==◌,
  if◌then◌else◌,
}
use flutter_pty.Prelude.Int.{pos}
use flutter_pty.Prelude.Text.{codes}
use flutter_pty.Errors.{PtyError, Kind, internal_domain, set}
use flutter_pty.Errors
use flutter_pty.Events.{
  Event, session_closed, output_closed, input_closed, async_error, spawn_failed, writable,
}
use flutter_pty.Queue.{Chunk, dequeue, complete_chunk, pending_bytes}
use flutter_pty.Session.{Session, Lifecycle, starting, running, retain, mark_abandoned, mark_closed}
use flutter_pty.Session
use flutter_pty.Stats.{worker_started, worker_finished}
use flutter_pty.Stats
use flutter_pty.Unix.World.{fresh_error}
use flutter_pty.Windows.World.{
  WindowsPlatform, WindowsOs, WindowsWorld, closer, posted, thread, did, on_session, on_platform,
  on_stats, is_null, broken_pipe, operation_aborted,
}
use flutter_pty.Windows.World
use flutter_pty.Windows.Closing.{
  Progress, returned, asleep, is_state, win32_error, windows_release, windows_stop_process,
  windows_start_pseudo_console_close_worker, windows_wait_for_pseudo_console_close,
}

-- How far `windows_begin_close` comes before its fallback.
pub data CloseStep : Type 0 where
  settled : WindowsWorld → CloseStep
  unstarted : WindowsWorld → CloseStep

module _ (os : WindowsOs) where
  -- The flag, the counter and the two references that come before the close worker, and its thread.
  unfoldable pub launch_close_worker : WindowsWorld → WindowsWorld
  launch_close_worker w =
      let w1 =
        on_session (λ s. retain (retain s))
          (on_stats (worker_started Stats.close)
            (on_platform (λ p. record p { close_started = true }) w)) in
      let handle = os.create_thread w1.log closer in
      on_platform (λ p. record p { close_thread = handle }) (did (thread closer handle) w1)

  -- `windows_begin_close` when the close worker cannot be created, up to its fallback.
  unfoldable pub close_without_worker : WindowsWorld → WindowsWorld
  close_without_worker w =
      let w1 = windows_release (windows_release (on_stats (worker_finished Stats.close) w)) in
      windows_stop_process os
        (on_platform (λ p. record p { stopping = true; close_done = true }) w1)

  -- `windows_begin_close` after its loop.
  unfoldable pub close_windows_platform : WindowsWorld → CloseStep
  close_windows_platform w =
      let w1 = launch_close_worker w in
      if is_null w.session.platform || w.platform.close_started || w.platform.close_done
      then settled w
      else if w1.platform.close_thread == 0
      then unstarted (close_without_worker w1)
      else settled (windows_release w1)

  -- `windows_begin_close` up to its fallback. Its loop is one transition of the life cycle.
  unfoldable pub begin_windows_close : WindowsWorld → CloseStep
  begin_windows_close w = elim w.session.lifecycle [
    | starting ↦ settled (on_session (λ s. record s { lifecycle = Session.closing }) w)
    | running ↦
        close_windows_platform (on_session (λ s. record s { lifecycle = Session.closing }) w)
    | Session.closing ↦ close_windows_platform w
    | Session.closed ↦ settled w
  ]

  -- `windows_begin_close(session, 0)`
  unfoldable pub windows_begin_close_quickly : WindowsWorld → WindowsWorld
  windows_begin_close_quickly w = elim (begin_windows_close w) [
    | settled w1 ↦ w1
    | unstarted w1 ↦ w1
  ]

  -- `pty_session_abandon`
  unfoldable pub windows_abandon : WindowsWorld → WindowsWorld
  windows_abandon w =
      let (s, first) = mark_abandoned w.session in
      let w1 = record w { session = s } in
      if first then windows_release (windows_begin_close_quickly w1) else w1

  -- `post_session_event`
  unfoldable pub windows_post_session_event : Event → WindowsWorld → WindowsWorld × Bool
  windows_post_session_event e w =
      let ok = os.post w.log e in
      let w1 = did (posted e ok) w in
      if w.session.abandoned
      then (w, false)
      else if ok
      then (w1, true)
      else (windows_abandon w1, false)

  -- `windows_post_error`
  unfoldable pub windows_post_error : Kind → ℕ → List ℕ → WindowsWorld → WindowsWorld
  windows_post_error kind error_code operation w =
      (windows_post_session_event (async_error (win32_error kind error_code operation)) w).0

  -- `windows_mark_output_closed`
  unfoldable pub windows_mark_output_closed : WindowsWorld → WindowsWorld
  windows_mark_output_closed w =
      let w1 =
        on_session (λ s. record s { output_closed = true })
          (on_platform (λ p. record p { output_closed = true }) w) in
      if w.platform.output_closed then w else (windows_post_session_event output_closed w1).0

  abbrev pub windows_closing_reason : Option PtyError → Option PtyError
  windows_closing_reason none = win32_error Errors.closed broken_pipe (codes "PTY input closed")
  windows_closing_reason (some given) = some given

  -- `windows_mark_input_closed`; `none` is a NULL error.
  unfoldable pub windows_mark_input_closed : Option PtyError → WindowsWorld → WindowsWorld
  windows_mark_input_closed e w =
      let w1 =
        on_session (λ s. record s { input_closed = true })
          (on_platform (λ p. record p { input_closed = true }) w) in
      if w.platform.input_closed
      then w
      else (windows_post_session_event (input_closed (windows_closing_reason e)) w1).0

  -- The test of `windows_maybe_post_closed`.
  abbrev pub windows_all_done : WindowsPlatform → Bool
  windows_all_done p =
      p.stopping
      && p.reader_done
      && p.writer_done
      && p.waiter_done
      && p.close_done
      && is_state p.console_state World.closed
      && not p.session_closed_posted

  -- `windows_maybe_post_closed`
  unfoldable pub windows_maybe_post_closed : WindowsWorld → WindowsWorld
  windows_maybe_post_closed w =
      let w1 =
        on_session mark_closed (on_platform (λ p. record p { session_closed_posted = true }) w) in
      if windows_all_done w.platform then (windows_post_session_event session_closed w1).0 else w

  -- `windows_maybe_post_writable`
  unfoldable pub windows_maybe_post_writable : WindowsWorld → WindowsWorld
  windows_maybe_post_writable w =
      if w.platform.write_backpressured
        && leb (pending_bytes w.platform.write_queue) (w.session.input_buffer_limit / 2)
      then (windows_post_session_event writable
          (on_platform (λ p. record p { write_backpressured = false }) w)).0
      else w

  -- What follows `windows_start_pseudo_console_close_worker` in the fallback.
  close_console_then : (WindowsWorld → WindowsWorld) → Progress → Progress
  close_console_then further (asleep w) = asleep w
  close_console_then further (returned w) = elim (windows_wait_for_pseudo_console_close w) [
    | asleep w1 ↦ asleep w1
    | returned w1 ↦ returned (further w1)
  ]

  -- `pty_session_begin_close`, which is `windows_begin_close(session, 1)`.
  unfoldable pub windows_begin_close : WindowsWorld → Progress
  unfolding close_console_then
  windows_begin_close w = elim (begin_windows_close w) [
    | settled w1 ↦ returned w1
    | unstarted w1 ↦
        close_console_then windows_maybe_post_closed
          (windows_start_pseudo_console_close_worker os w1)
  ]

  -- `windows_close_worker` up to its wait for the console, and from there on.
  unfoldable pub windows_close_worker_start : WindowsWorld → Progress
  windows_close_worker_start w =
      windows_start_pseudo_console_close_worker os (windows_stop_process os w)

  unfoldable pub windows_close_worker_end : WindowsWorld → Progress
  windows_close_worker_end w = elim (windows_wait_for_pseudo_console_close w) [
    | asleep w1 ↦ asleep w1
    | returned w1 ↦
        let w2 =
          on_stats (worker_finished Stats.close)
            (on_platform (λ p. record p { close_done = true }) w1) in
        returned (windows_release (windows_maybe_post_closed w2))
  ]

  -- `windows_post_startup_cancelled`
  unfoldable pub windows_post_startup_cancelled : WindowsWorld → WindowsWorld
  windows_post_startup_cancelled w =
      (windows_post_session_event
        (spawn_failed (
          set (some fresh_error) internal_domain Errors.closed (pos operation_aborted)
            (some (codes "PTY session closed during startup"))))
        w).0

-- The queue operations on the platform's queue.
unfoldable pub windows_take_chunk : WindowsWorld → WindowsWorld × Option Chunk
windows_take_chunk w =
    let (q, s, c) = dequeue w.platform.write_queue w.stats in
    (record (on_platform (λ p. record p { write_queue = q }) w) { stats = s }, c)

unfoldable pub windows_finish_chunk : Chunk → WindowsWorld → WindowsWorld
windows_finish_chunk c w =
    let (q, s) = complete_chunk w.platform.write_queue w.stats c in
    record (on_platform (λ p. record p { write_queue = q }) w) { stats = s }

-- The loop of `windows_discard_pending_writes`, with the number of rounds as fuel.
unfoldable pub windows_discard_chunks : ℕ → WindowsWorld → WindowsWorld
windows_discard_chunks zero w = w
windows_discard_chunks (suc rounds) w =
    let w1 = (windows_take_chunk w).0 in
    elim (windows_take_chunk w).1 [
      | none ↦ w1
      | some c ↦ windows_discard_chunks rounds (windows_finish_chunk c w1)
    ]

-- `windows_discard_pending_writes`
unfoldable pub windows_discard_pending_writes : ℕ → WindowsWorld → WindowsWorld
windows_discard_pending_writes rounds w =
    on_platform (λ p. record p { write_backpressured = false }) (windows_discard_chunks rounds w)
