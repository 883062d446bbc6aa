-- ===== src/Unix/Api.antt =====
-- The calls of src/unix/pty_unix_session.c on a running session, other than writing, acknowledging
-- and closing.
pub mod Released
use flutter_pty.Prelude.{
  ℕ, Bool, true, false, not, ◌&&◌, ◌||◌, Option, none, some, ltb, leb, ◌==◌, if◌then◌else◌,
}
use flutter_pty.Prelude.Int.{ℤ, pos, pos_part, neg, leb_ℤ, ltb_ℤ, eqb_ℤ}
use flutter_pty.Prelude.Text.{codes}
use flutter_pty.Errors.{
  PtyError, Kind, Size, io, invalid_argument, internal_domain, set, clear, set_errno, size_is_valid,
}
use flutter_pty.Errors
use flutter_pty.Unix.World.{Platform, Os, World, killed, resized, did, no_fd, einval, epipe, esrch}
use flutter_pty.Unix.Close.{wake_reactor, stop_process}

-- The error of a call on a session with no platform or no master.
abbrev closed_error : Option PtyError → Option PtyError
closed_error e =
    set e internal_domain Errors.closed (pos epipe) (some (codes "PTY session is closed"))

-- `pty_session_pid`
unfoldable pub session_pid : World → ℤ
session_pid w = elim w.session.platform [ none ↦ no_fd | some p ↦ p.process_id ]

module _ (os : Os) where
  -- `pty_session_has_foreground_process`
  unfoldable pub has_foreground_process : World → Bool
  has_foreground_process w = elim w.session.platform [
    | none ↦ false
    | some p ↦
        let foreground = os.foreground w.log p.master_fd in
        not p.process_released
        && not w.session.process_exited
        && leb_ℤ (pos 0) p.master_fd
        && ltb_ℤ (pos 0) foreground
        && not (eqb_ℤ foreground p.process_id)
  ]

  -- `pty_session_resize`: the world, the error that the caller sees, and the result.
  unfoldable pub resize : Size → Option PtyError → World → World × Option PtyError × Bool
  resize size out_error w =
      let e = clear out_error in
      if not (size_is_valid size)
      then (
        w,
        set e internal_domain invalid_argument (pos einval) (some (codes "invalid Unix PTY size")),
        false,
      )
      else elim w.session.platform [
        | none ↦ (w, closed_error e, false)
        | some p ↦
            let answer = os.set_window w.log p.master_fd size in
            let w1 = did (resized size) w in
            if ltb_ℤ p.master_fd (pos 0)
            then (w, closed_error e, false)
            else if answer == 0
            then (w1, e, true)
            else (w1, set_errno os.strerror e io answer (some (codes "resizing PTY failed")), false)
      ]

  -- `pty_session_kill`
  unfoldable pub kill_session : Option PtyError → World → World × Option PtyError × Bool
  kill_session out_error w = elim w.session.platform [
    | none ↦ (w, closed_error (clear out_error), false)
    | some p ↦ (wake_reactor (stop_process os w), clear out_error, true)
  ]

  -- `kill` on a target, in `pty_session_send_signal`. A target that is gone is no error.
  deliver_signal : ℤ → ℕ → Option PtyError → World → World × Option PtyError × Bool
  deliver_signal target signal e w =
      let answer = os.kill w.log target signal in
      let w1 = did (killed target signal) w in
      if answer == 0 || answer == esrch then (w1, e, true) else (
        w1,
        set_errno os.strerror e io answer (some (codes "sending POSIX signal failed")),
        false,
      )

  -- The foreground group of the terminal as the target.
  signal_foreground : Platform → ℕ → Option PtyError → World → World × Option PtyError × Bool
  unfolding deliver_signal
  signal_foreground p signal e w =
      let foreground =
        if leb_ℤ (pos 0) p.master_fd then os.foreground w.log p.master_fd else no_fd in
      if leb_ℤ foreground (pos 0)
      then (
        w,
        set_errno os.strerror e io (os.errno w.log)
            (some (codes "finding foreground process group failed")),
        false,
      )
      else deliver_signal (neg foreground) signal e w

  -- `pty_session_send_signal`: to the program (0), its group (1) or the foreground group (2).
  unfoldable pub send_signal : ℤ → ℤ → Option PtyError → World → World × Option PtyError × Bool
  unfolding deliver_signal signal_foreground
  send_signal signal_number target out_error w =
      let e = clear out_error in
      let signal = pos_part signal_number in
      if leb_ℤ signal_number (pos 0)
        || ltb_ℤ (pos 64) signal_number
        || ltb_ℤ target (pos 0)
        || ltb_ℤ (pos 2) target
      then (
        w,
        set e internal_domain invalid_argument (pos einval)
            (some (codes "invalid POSIX signal target")),
        false,
      )
      else elim w.session.platform [
        | none ↦ (w, closed_error e, false)
        | some p ↦
            if p.process_released || w.session.process_exited
            then (w, e, true)
            else if eqb_ℤ target (pos 2)
            then signal_foreground p signal e w
            else if eqb_ℤ target (pos 1)
            then deliver_signal (neg p.process_id) signal e w
            else deliver_signal p.process_id signal e w
      ]
