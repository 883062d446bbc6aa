-- ===== src/Windows/Start.antt =====
-- `pty_session_start` of src/windows/pty_windows_session.c. The session and the bootstrap block lie in
-- the memory of Unix/Spawn/System; the log of a session's effects begins with the session.
pub mod Cleanup
use flutter_pty.Prelude.{
  ℕ, Bool, true, false, not, List, [], ◌∷◌, Option, none, some, ◌==◌, if◌then◌else◌,
}
use flutter_pty.Prelude.Int.{pos}
use flutter_pty.Prelude.Text.{codes}
use flutter_pty.Errors.{
  PtyError, internal_domain, win32, internal, invalid_argument, out_of_memory, clear, set,
}
use flutter_pty.Session.{Session, init, retain, drop_reference}
use flutter_pty.Stats.{Stats}
use flutter_pty.Unix.Spawn.System.{Call, allocated, freed}
use flutter_pty.Unix.Spawn.Options.{Options, Owned, Cloned}
use flutter_pty.Unix.Start.{valid_start}
use flutter_pty.Windows.World.{
  WindowsOs, WindowsWorld, bootstrap, thread, closed_handle, did, on_session, invalid_parameter,
  not_enough_memory,
}
use flutter_pty.Windows.Closing.{windows_release}
use flutter_pty.Windows.Options.{windows_free_options, windows_clone_options}
use flutter_pty.Windows.Process.{nothing_created}
use flutter_pty.Windows.Bootstrap.{new_windows_platform}

-- `PtyWindowsBootstrap`, less the session that it points to.
pub record WindowsBootstrap : Type 0 where
  pub address : ℕ
  pub options : Owned

-- What a start leaves: the memory, the counters, the session in `*out_session`, the block that the
-- bootstrap worker owns, the error that the caller sees, and the result.
pub record WindowsStarted : Type 0 where
  pub log : List Call
  pub stats : Stats
  pub session : Option WindowsWorld
  pub bootstrap : Option WindowsBootstrap
  pub error : Option PtyError
  pub ok : Bool

abbrev windows_not_started : Option PtyError → List Call → Stats → WindowsStarted
windows_not_started e log s = record {
  log = log;
  stats = s;
  session = none;
  bootstrap = none;
  error = e;
  ok = false;
}

-- The session after `pty_session_init` and the stores that follow. It has no platform; an empty one
-- stands in its place.
unfoldable pub new_windows_world : Options → Stats → WindowsWorld
unfolding new_windows_platform
new_windows_world o s =
    let (fresh, counted) = init s in
    record {
      session = record fresh {
        event_port = o.event_port;
        input_buffer_limit = o.input_buffer_bytes;
        output_window_limit = o.output_window_bytes;
        output_credit = o.output_window_bytes;
        has_free_function = true;
      };
      platform = new_windows_platform (nothing_created none s) false 0;
      stats = counted;
      log = [];
    }

-- `pty_session_release` of the session at an address.
unfoldable pub windows_release_session : ℕ → WindowsWorld → List Call → List Call × WindowsWorld
windows_release_session a w log =
    (if (drop_reference w.session).1 then freed a ∷ log else log, windows_release w)

module _ (os : WindowsOs) (malloc : List Call → (size : ℕ) → ℕ)
    (session_size bootstrap_size : ℕ) where
  -- The bootstrap worker's thread, the options being cloned.
  unfoldable pub launch_windows_bootstrap : ℕ → ℕ → WindowsWorld → Cloned → WindowsStarted
  launch_windows_bootstrap a b w c =
      let w1 = on_session retain w in
      let handle = os.create_thread w1.log bootstrap in
      let w2 = did (thread bootstrap handle) w1 in
      let thread_error = os.last_error w2.log in
      let (log3, w3) = windows_release_session a w2 c.log in
      let (log4, emptied) = windows_free_options c.owned log3 in
      let (log5, w5) = windows_release_session a w3 (freed b ∷ log4) in
      if handle == 0
      then windows_not_started
          (set c.error win32 internal (pos thread_error)
            (some (codes "starting PTY bootstrap failed")))
          log5 w5.stats
      else record {
        log = c.log;
        stats = w2.stats;
        session = some (did (closed_handle handle) w2);
        bootstrap = some (record { address = b; options = c.owned });
        error = c.error;
        ok = true;
      }

  -- The bootstrap block is there.
  unfoldable pub prepare_windows_bootstrap : ℕ → ℕ → WindowsWorld → Cloned → WindowsStarted
  prepare_windows_bootstrap a b w c =
      let (log1, emptied) = windows_free_options c.owned c.log in
      let (log2, w2) = windows_release_session a w (freed b ∷ log1) in
      if c.ok then launch_windows_bootstrap a b w c else windows_not_started c.error log2 w2.stats

  -- The session is there. Without memory for the bootstrap block no error is set.
  unfoldable pub start_windows_session :
      ℕ → WindowsWorld → Options → Option PtyError → List Call → WindowsStarted
  start_windows_session a w o e log =
      let b = malloc log bootstrap_size in
      let (log1, w1) = windows_release_session a w log in
      if b == 0
      then windows_not_started e log1 w1.stats
      else prepare_windows_bootstrap a b w (windows_clone_options malloc o e (allocated b ∷ log))

  unfoldable pub allocate_windows_session :
      Options → Option PtyError → List Call → Stats → WindowsStarted
  allocate_windows_session o e log s =
      let a = malloc log session_size in
      if a == 0
      then windows_not_started
          (set e internal_domain out_of_memory (pos not_enough_memory)
            (some (codes "allocating PTY session failed")))
          log s
      else start_windows_session a (new_windows_world o s) o e (allocated a ∷ log)

  -- The check of the options; `none` is NULL.
  unfoldable pub start_checked :
      Option Options → (has_out : Bool) → Option PtyError → List Call → Stats → WindowsStarted
  start_checked none has_out e log s =
      windows_not_started
        (set e internal_domain invalid_argument (pos invalid_parameter)
          (some (codes "invalid Windows PTY session options")))
        log s
  start_checked (some o) has_out e log s =
      if valid_start (some o) has_out
      then allocate_windows_session o e log s
      else windows_not_started
          (set e internal_domain invalid_argument (pos invalid_parameter)
            (some (codes "invalid Windows PTY session options")))
          log s

  -- `pty_session_start`. `available` says whether `Dart_PostCObject_DL` is set, `has_out` whether
  -- `out_session` is.
  unfoldable pub windows_session_start :
      (available : Bool)
      → Option Options
      → (has_out : Bool) → Option PtyError
      → List Call
      → Stats
      → WindowsStarted
  windows_session_start available options has_out e log s =
      if available
      then start_checked options has_out (clear e) log s
      else windows_not_started
          (set (clear e) internal_domain internal (pos 0) (some (codes "Dart API is unavailable")))
          log s
