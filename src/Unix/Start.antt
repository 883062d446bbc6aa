-- ===== src/Unix/Start.antt =====
-- `pty_session_start` of src/unix/pty_unix_session.c. The session and the bootstrap block lie in the
-- memory of Unix/Spawn/System; the log of a session's effects begins with the session.
pub mod Cleanup
use flutter_pty.Prelude.{
  ℕ, Bool, true, false, not, ◌&&◌, ◌||◌, List, [], ◌∷◌, Option, none, some, ◌==◌, if◌then◌else◌,
}
use flutter_pty.Prelude.Int.{pos, ltb_ℤ}
use flutter_pty.Prelude.Text.{codes}
use flutter_pty.Errors.{
  PtyError, Kind, internal_domain, internal, invalid_argument, out_of_memory, clear, set, set_errno,
  size_is_valid,
}
use flutter_pty.Session.{Session, init, retain, drop_reference}
use flutter_pty.Stats.{Stats}
use flutter_pty.Unix.World.{Platform, Os, World, bootstrap, thread, did, on_session, einval, enomem}
use flutter_pty.Unix.Close.{release}
use flutter_pty.Unix.Spawn.System.{Call, allocated, freed}
use flutter_pty.Unix.Spawn.Options.{Options, Owned, Cloned, no_options, free_options, clone_options}

-- `PtyUnixBootstrap`, less the session that it points to.
pub record Bootstrap : Type 0 where
  pub address : ℕ
  pub options : Owned

-- What a start leaves: the memory, the counters, the session in `*out_session`, the block that the
-- bootstrap worker owns, the error that the caller sees, and the result.
pub record Started : Type 0 where
  pub log : List Call
  pub stats : Stats
  pub session : Option World
  pub bootstrap : Option Bootstrap
  pub error : Option PtyError
  pub ok : Bool

abbrev not_started : Option PtyError → List Call → Stats → Started
not_started e log s = record {
  log = log;
  stats = s;
  session = none;
  bootstrap = none;
  error = e;
  ok = false;
}

abbrev pub is_empty : Option (List ℕ) → Bool
is_empty (some (c ∷ cs)) = false
is_empty _ = true

-- The second check of `pty_session_start`.
abbrev pub valid_start : Option Options → Bool → Bool
valid_start none has_out = false
valid_start (some o) has_out = not (
    not has_out
    || is_empty o.executable
    || ltb_ℤ o.argument_count (pos 0)
    || ltb_ℤ o.environment_count (pos 0)
    || o.input_buffer_bytes == 0
    || o.output_window_bytes == 0
    || not (size_is_valid o.size))

-- The session after `pty_session_init` and the stores that follow.
unfoldable pub new_world : Options → Stats → World
new_world o s =
    let (fresh, counted) = init s in
    record {
      session = record fresh {
        event_port = o.event_port;
        input_buffer_limit = o.input_buffer_bytes;
        output_window_limit = o.output_window_bytes;
        output_credit = o.output_window_bytes;
        has_free_function = true;
      };
      stats = counted;
      log = [];
    }

-- `pty_session_release` of the session at an address.
unfoldable pub release_session : ℕ → World → List Call → List Call × World
release_session a w log = (if (drop_reference w.session).1 then freed a ∷ log else log, release w)

module _ (os : Os) (malloc : List Call → (size : ℕ) → ℕ) (session_size bootstrap_size : ℕ) where
  -- The bootstrap worker's thread, the options being cloned.
  unfoldable pub launch_bootstrap : ℕ → ℕ → World → Cloned → Started
  launch_bootstrap a b w c =
      let w1 = on_session retain w in
      let result = os.create_thread w1.log bootstrap in
      let w2 = did (thread bootstrap (result == 0)) w1 in
      let (log3, w3) = release_session a w2 c.log in
      let (log4, emptied) = free_options c.owned log3 in
      let (log5, w5) = release_session a w3 (freed b ∷ log4) in
      if result == 0
      then record {
        log = c.log;
        stats = w2.stats;
        session = some w2;
        bootstrap = some (record { address = b; options = c.owned });
        error = c.error;
        ok = true;
      }
      else not_started
          (set_errno os.strerror c.error internal result
            (some (codes "starting PTY bootstrap failed")))
          log5 w5.stats

  -- The bootstrap block is there.
  unfoldable pub prepare_bootstrap : ℕ → ℕ → World → Cloned → Started
  prepare_bootstrap a b w c =
      let (log1, emptied) = free_options c.owned c.log in
      let (log2, w2) = release_session a w (freed b ∷ log1) in
      if c.ok then launch_bootstrap a b w c else not_started c.error log2 w2.stats

  -- The session is there.
  unfoldable pub start_session : ℕ → World → Options → Option PtyError → List Call → Started
  start_session a w o e log =
      let b = malloc log bootstrap_size in
      let (log1, w1) = release_session a w log in
      if b == 0
      then not_started
          (set e internal_domain out_of_memory (pos enomem)
            (some (codes "allocating PTY bootstrap failed")))
          log1 w1.stats
      else prepare_bootstrap a b w (clone_options malloc (some o) no_options e (allocated b ∷ log))

  unfoldable pub allocate_session : Options → Option PtyError → List Call → Stats → Started
  allocate_session o e log s =
      let a = malloc log session_size in
      if a == 0
      then not_started
          (set e internal_domain out_of_memory (pos enomem)
            (some (codes "allocating PTY session failed")))
          log s
      else start_session a (new_world o s) o e (allocated a ∷ log)

  -- `pty_session_start`. `available` says whether `Dart_PostCObject_DL` is set, `has_out` whether
  -- `out_session` is.
  unfoldable pub session_start :
      (available : Bool)
      → Option Options
      → (has_out : Bool) → Option PtyError
      → List Call
      → Stats
      → Started
  session_start available none has_out e log s =
      if available
      then not_started
          (set (clear e) internal_domain invalid_argument (pos einval)
            (some (codes "invalid PTY session options")))
          log s
      else not_started
          (set (clear e) internal_domain internal (pos 0) (some (codes "Dart API is unavailable")))
          log s
  session_start available (some o) has_out e log s =
      if not available
      then not_started
          (set (clear e) internal_domain internal (pos 0) (some (codes "Dart API is unavailable")))
          log s
      else if not (valid_start (some o) has_out)
      then not_started
          (set (clear e) internal_domain invalid_argument (pos einval)
            (some (codes "invalid PTY session options")))
          log s
      else allocate_session o (clear e) log s
