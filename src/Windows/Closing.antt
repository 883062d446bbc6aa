-- ===== src/Windows/Closing.antt =====
-- Ending a session in src/windows/pty_windows_session.c: posting, abandoning, closing, stopping the
-- process, closing the pseudo console, and freeing. A block under the mutex is one update of the
-- platform; a thread that sleeps on the condition variable leaves the state as it is.
use flutter_pty.Prelude.{
  ℕ, Bool, true, false, not, ◌&&◌, ◌||◌, List, [], ◌∷◌, Option, none, some, ◌==◌, if◌then◌else◌,
}
use flutter_pty.Prelude.Int.{pos}
use flutter_pty.Errors.{PtyError, Kind, win32, set}
use flutter_pty.Queue
use flutter_pty.Session.{retain, drop_reference}
use flutter_pty.Stats.{
  session_finished, worker_started, worker_finished, pseudo_console_close, pseudo_console_release,
  pseudo_console_close_worker,
}
use flutter_pty.Stats
use flutter_pty.Unix.World.{fresh_error}
use flutter_pty.Windows.World.{
  ConsoleState, owned, released, releasing, closing, closed, WindowsOs, WindowsWorld,
  console_closer, woke, console_closed, console_released, job_terminated, process_terminated,
  cancelled, closed_handle, thread, freed, did, on_session, on_platform, on_stats, is_null,
}

abbrev pub is_state : ConsoleState → ConsoleState → Bool
is_state owned owned = true
is_state released released = true
is_state releasing releasing = true
is_state closing closing = true
is_state closed closed = true
is_state _ _ = false

abbrev pub win32_error : Kind → ℕ → List ℕ → Option PtyError
win32_error kind error_code operation =
    set (some fresh_error) win32 kind (pos error_code) (some operation)

-- What a call that may sleep leads to: it returns, or sleeps, with the world as it is.
pub data Progress : Type 0 where
  returned : WindowsWorld → Progress
  asleep : WindowsWorld → Progress

-- `windows_mark_pseudo_console_closed`
unfoldable pub windows_mark_pseudo_console_closed : WindowsWorld → WindowsWorld
windows_mark_pseudo_console_closed w =
    did woke (on_platform (λ p. record p { console_state = closed; console_close_done = true }) w)

-- `ClosePseudoConsole` with its counter, and the mark
unfoldable pub close_console : WindowsWorld → WindowsWorld
close_console w =
    windows_mark_pseudo_console_closed (did console_closed (on_stats pseudo_console_close w))

-- The block that reserves the close for its caller.
unfoldable pub reserve_console : WindowsWorld → WindowsWorld
reserve_console w =
    on_platform (λ p. record p { console_state = closing; console_close_started = true }) w

-- `windows_wait_for_pseudo_console_close`
unfoldable pub windows_wait_for_pseudo_console_close : WindowsWorld → Progress
windows_wait_for_pseudo_console_close w =
    if not (is_null w.session.platform)
      && is_state w.platform.console_state closing
      && not w.platform.console_close_done
    then asleep w
    else returned w

-- `windows_close_pseudo_console_now`
unfoldable pub windows_close_pseudo_console_now : WindowsWorld → Progress
windows_close_pseudo_console_now w =
    if is_null w.session.platform || w.platform.pseudo_console == 0
    then returned w
    else if is_state w.platform.console_state releasing
    then asleep w
    else if is_state w.platform.console_state closed
    then returned w
    else if is_state w.platform.console_state closing
    then windows_wait_for_pseudo_console_close w
    else returned (close_console (reserve_console w))

-- The handles that `windows_free_session` closes, each if it is there.
abbrev pub close_handle : ℕ → WindowsWorld → WindowsWorld
close_handle h w = if h == 0 then w else did (closed_handle h) w

unfoldable pub close_handles : List ℕ → WindowsWorld → WindowsWorld
close_handles [] w = w
close_handles (h ∷ hs) w = close_handles hs (close_handle h w)

-- The memory of `windows_free_session`, once the console is closed.
unfoldable pub free_memory : WindowsWorld → WindowsWorld
free_memory w =
    let (q, s) = Queue.dispose w.platform.write_queue w.stats in
    did freed (record (on_platform (λ p. record p { write_queue = q }) w) {
      stats = s;
      session = record (w.session) { platform = none };
    })

-- `windows_free_session`
unfoldable pub windows_free_session : WindowsWorld → Progress
unfolding close_handles
windows_free_session w =
    let p = w.platform in
    let w1 =
      close_handles
        (p.reader_thread ∷ p.writer_thread ∷ p.waiter_thread ∷ p.close_thread
          ∷ p.console_close_thread ∷ p.input_write ∷ p.output_read ∷ p.process ∷ p.job ∷ [])
        w in
    if is_null w.session.platform
    then returned (did freed w)
    else elim (windows_close_pseudo_console_now w1) [
      | returned w2 ↦ returned (free_memory w2)
      | asleep w2 ↦ asleep w2
    ]

-- `pty_session_release`, where the last reference finds the console closed or free to be closed.
unfoldable pub windows_release : WindowsWorld → WindowsWorld
windows_release w =
    let (s, last) = drop_reference w.session in
    let w1 = record w { session = s } in
    let w2 = on_stats session_finished w1 in
    if not last
    then w1
    else if s.has_free_function
    then elim (windows_free_session w2) [ returned w3 ↦ w3 | asleep w3 ↦ w3 ]
    else did freed w2

module _ (os : WindowsOs) where
  -- `windows_stop_process`
  unfoldable pub windows_stop_process : WindowsWorld → WindowsWorld
  windows_stop_process w =
      let p = w.platform in
      let w1 = did woke (on_platform (λ q. record q { stopping = true }) w) in
      let killed = not (p.job == 0) && os.terminate_job w1.log in
      let w2 = if p.job == 0 then w1 else did (job_terminated (os.terminate_job w1.log)) w1 in
      let w3 = if not killed && not (p.process == 0) then did process_terminated w2 else w2 in
      let w4 =
        if p.reader_started && not (p.reader_thread == 0)
        then did (cancelled p.reader_thread) w3
        else w3 in
      if p.writer_started && not (p.writer_thread == 0)
      then did (cancelled p.writer_thread) w4
      else w4

  -- `windows_start_pseudo_console_close_worker` once the close is reserved: the worker's thread, or the
  -- close right here.
  unfoldable pub launch_console_closer : WindowsWorld → WindowsWorld
  launch_console_closer w =
      let w1 = on_session retain (on_stats (worker_started Stats.pseudo_console) w) in
      let handle = os.create_thread w1.log console_closer in
      let w2 = did (thread console_closer handle) w1 in
      if handle == 0
      then close_console (windows_release (on_stats (worker_finished Stats.pseudo_console) w2))
      else on_platform (λ p. record p { console_close_thread = handle }) w2

  -- `windows_start_pseudo_console_close_worker`
  unfoldable pub windows_start_pseudo_console_close_worker : WindowsWorld → Progress
  windows_start_pseudo_console_close_worker w =
      if is_null w.session.platform || w.platform.pseudo_console == 0
      then returned w
      else if is_state w.platform.console_state releasing
      then asleep w
      else if is_state w.platform.console_state closed || is_state w.platform.console_state closing
      then returned w
      else returned (launch_console_closer (reserve_console w))

  -- `windows_pseudo_console_close_worker`
  unfoldable pub windows_pseudo_console_close_worker : WindowsWorld → WindowsWorld
  windows_pseudo_console_close_worker w =
      let w1 = on_stats pseudo_console_close_worker w in
      let w2 =
        if is_null w.session.platform || w.platform.pseudo_console == 0
        then w1
        else close_console w1 in
      windows_release (on_stats (worker_finished Stats.pseudo_console) w2)

  -- `windows_release_pseudo_console_ownership`, once the release is reserved: the call itself, and its
  -- outcome.
  unfoldable pub release_console_now : WindowsWorld → Progress
  release_console_now w =
      let ok = os.release_console w.log in
      let w1 = did (console_released ok) w in
      let kept = did woke (on_platform (λ p. record p { console_state = owned }) w1) in
      let gone = did woke (
        on_platform (λ p. record p { console_state = released })
          (on_stats pseudo_console_release w1)) in
      if ok then returned gone else windows_start_pseudo_console_close_worker kept

  -- `windows_release_pseudo_console_ownership`
  unfoldable pub windows_release_pseudo_console_ownership : WindowsWorld → Progress
  windows_release_pseudo_console_ownership w =
      if is_null w.session.platform || w.platform.pseudo_console == 0
      then returned w
      else if not (is_state w.platform.console_state owned)
      then returned w
      else if w.platform.can_release
      then release_console_now (on_platform (λ p. record p { console_state = releasing }) w)
      else windows_start_pseudo_console_close_worker w
