-- ===== src/Windows/Api.antt =====
-- The calls of src/windows/pty_windows_session.c on a session, other than closing.
use flutter_pty.Prelude.{
  ℕ, Bool, true, false, not, ◌&&◌, ◌||◌, List, Option, none, some, ltb, leb, ◌==◌, if◌then◌else◌,
  is_some,
}
use flutter_pty.Prelude.Int.{ℤ, pos, negsuc, ltb_ℤ}
use flutter_pty.Prelude.Text.{codes}
use flutter_pty.Errors.{
  PtyError, Kind, Size, io, invalid_argument, out_of_memory, unsupported, internal_domain, win32,
  hresult, set, clear, size_is_valid,
}
use flutter_pty.Errors
use flutter_pty.Queue.{WriteResult, accepted, backpressured, closed, error, try_enqueue}
use flutter_pty.Session.{lifecycle_code, output_credit_after_ack}
use flutter_pty.Windows.World.{
  WindowsPlatform, WindowsOs, WindowsWorld, woke, job_terminated, resized, did, on_session,
  on_platform, is_null, invalid_handle, not_enough_memory, invalid_parameter, call_not_implemented,
  operation_aborted,
}

abbrev fault : Option PtyError → Kind → ℕ → List ℕ → Option PtyError
fault e kind error_code message = set e internal_domain kind (pos error_code) (some message)

abbrev pub is_shut : WindowsWorld → Bool
is_shut w = w.platform.stopping || leb 2 (lifecycle_code w.session.lifecycle)

-- `pty_session_pid`
unfoldable pub windows_session_pid : WindowsWorld → ℤ
windows_session_pid w = if is_null w.session.platform then negsuc 0 else pos w.platform.process_id

-- `write_backpressured` is raised by a refusal for lack of room.
abbrev pub windows_raise : WriteResult → WindowsPlatform → WindowsPlatform
windows_raise backpressured p = record p { write_backpressured = true }
windows_raise _ p = p

-- What follows the unlock in `pty_session_try_write`.
unfoldable pub windows_after_enqueue :
    WriteResult → Option PtyError → WindowsWorld → WindowsWorld × Option PtyError × WriteResult
windows_after_enqueue accepted e w = (did woke w, e, accepted)
windows_after_enqueue error e w =
    (w, fault e out_of_memory not_enough_memory (codes "queueing PTY input failed"), error)
windows_after_enqueue r e w = (w, e, r)

-- `pty_session_try_write`: the world, the error that the caller sees, and the result. The flag says
-- whether the queue gets its memory.
unfoldable pub windows_try_write :
    Bool
    → ℕ
    → Option (List ℕ)
    → ℕ
    → Option PtyError
    → WindowsWorld
    → WindowsWorld × Option PtyError × WriteResult
windows_try_write allocated request_id bytes size out_error w =
    let e = clear out_error in
    let (q, s, r) = try_enqueue allocated w.platform.write_queue w.stats bytes size request_id in
    let w1 = record (on_platform (λ p. windows_raise r (record p { write_queue = q })) w) {
      stats = s;
    } in
    if not (is_some bytes) || size == 0
    then (w, fault e invalid_argument invalid_parameter (codes "invalid PTY input write"), error)
    else if is_null w.session.platform
    then (w, e, closed)
    else if w.platform.stopping
        || w.platform.input_closed
        || leb 2 (lifecycle_code w.session.lifecycle)
    then (w, e, closed)
    else windows_after_enqueue r e w1

-- `pty_session_ack_output`
unfoldable pub windows_ack_output : ℕ → WindowsWorld → WindowsWorld
windows_ack_output byte_count w =
    if is_null w.session.platform
    then w
    else did woke (
        on_session
          (λ s. record s {
            output_credit =
                output_credit_after_ack s.output_credit s.output_window_limit byte_count;
          })
          w)

-- `pty_session_discard_output`
unfoldable pub windows_discard_output : WindowsWorld → WindowsWorld
windows_discard_output w =
    if is_null w.session.platform
    then w
    else did woke (
        on_session (λ s. record s { output_credit = s.output_window_limit })
          (on_platform (λ p. record p { discard_output = true }) w))

-- `pty_session_send_signal`
unfoldable pub windows_send_signal :
    ℤ → ℤ → Option PtyError → WindowsWorld → WindowsWorld × Option PtyError × Bool
windows_send_signal signal_number target e w = (
  w,
  fault e unsupported call_not_implemented (codes "POSIX signals are unsupported on Windows"),
  false,
)

module _ (os : WindowsOs) where
  abbrev many : Option ℕ → Bool
  many none = false
  many (some n) = ltb 1 n

  -- `pty_session_has_foreground_process`
  unfoldable pub windows_has_foreground_process : WindowsWorld → Bool
  windows_has_foreground_process w =
      not (is_null w.session.platform)
      && not w.platform.stopping
      && not w.session.process_exited
      && not (w.platform.job == 0)
      && many (os.active_processes w.log)

  -- `pty_session_resize`
  unfoldable pub windows_resize :
      Size → Option PtyError → WindowsWorld → WindowsWorld × Option PtyError × Bool
  windows_resize size out_error w =
      let e = clear out_error in
      let result = os.resize_console w.log size in
      let w1 = did (resized size) w in
      if not (size_is_valid size)
      then (w, fault e invalid_argument invalid_parameter (codes "invalid Windows PTY size"), false)
      else if is_null w.session.platform || w.platform.pseudo_console == 0
      then (w, fault e Errors.closed invalid_handle (codes "PTY session is closed"), false)
      else if is_shut w
      then (w, fault e Errors.closed operation_aborted (codes "PTY session is closed"), false)
      else if ltb_ℤ result (pos 0)
      then (w1, set e hresult io result (some (codes "resizing ConPTY failed")), false)
      else (w1, e, true)

  -- The termination of the job in `pty_session_kill`.
  unfoldable pub terminate : Option PtyError → WindowsWorld → WindowsWorld × Option PtyError × Bool
  terminate e w =
      let w1 = on_platform (λ p. record p { termination_requested = true }) w in
      let ok = os.terminate_job w1.log in
      let w2 = did (job_terminated ok) w1 in
      let undone = on_platform (λ p. record p { termination_requested = false }) w2 in
      if ok then (w2, e, true) else if os.process_over w2.log then (w2, e, true) else (
        undone,
        set e win32 io (pos (os.last_error w2.log))
            (some (codes "terminating PTY Job Object failed")),
        false,
      )

  -- `pty_session_kill`
  unfoldable pub windows_kill :
      Option PtyError → WindowsWorld → WindowsWorld × Option PtyError × Bool
  windows_kill out_error w =
      let e = clear out_error in
      if is_null w.session.platform || w.platform.job == 0
      then (w, fault e Errors.closed invalid_handle (codes "PTY session is closed"), false)
      else if is_shut w
      then (w, fault e Errors.closed operation_aborted (codes "PTY session is closed"), false)
      else if w.session.process_exited
      then (w, e, true)
      else terminate e w
