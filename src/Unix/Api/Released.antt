-- ===== src/Unix/Api/Released.antt =====
-- Which signals the calls of src/unix/pty_unix_session.c send.
use flutter_pty.Prelude.{◌≡◌, true, false, ◌||◌, if◌then◌else◌, arith, List, [], ◌∷◌, Option, some}
use flutter_pty.Prelude.Int.{ℤ, pos, leb_ℤ, ltb_ℤ, neg}
use flutter_pty.Errors.{PtyError}
use flutter_pty.Unix.World.{Platform, Os, World, Effect, killed}
use flutter_pty.Unix.Close.{stop_process, kill_all}
use flutter_pty.Unix.Api.{send_signal, kill_session}

-- The targets of the signals sent, latest first.
abbrev pub targets : List Effect → List ℤ
targets [] = []
targets (killed target signal ∷ log) = target ∷ targets log
targets (_ ∷ log) = targets log

module _ (os : Os) where
  -- Once the program is released or its exit is recorded, so that its process id may be
  -- another's, none of these calls sends a signal: not stopping, not killing, and not
  -- `send_signal` with any signal and target.
  pub no_signal_after_exit :
      (p : Platform) (w : World) (signal target : ℤ) (e : Option PtyError)
      → w.session.platform ≡ some p
      → (p.process_released || w.session.process_exited) ≡ true
      → (targets (stop_process os w).log ≡ targets w.log)
        × (targets (kill_session os e w).0.log ≡ targets w.log)
        × (targets (send_signal os signal target e w).0.log ≡ targets w.log)
  unfolding stop_process kill_session send_signal
  no_signal_after_exit p w signal target e here gone = (ground arith, ground arith, ground arith)

  -- Stopping a program that still runs, with the master open, signals the program and its group,
  -- and before these the terminal's foreground group where the terminal names one.
  pub stop_process-targets :
      (p : Platform) (w : World)
      → w.session.platform ≡ some p
      → (p.process_released || w.session.process_exited) ≡ false
      → leb_ℤ p.process_id (pos 0) ≡ false
      → (foreground : ℤ) → os.foreground w.log p.master_fd ≡ foreground
      → leb_ℤ (pos 0) p.master_fd ≡ true
      → targets (stop_process os w).log
        ≡ p.process_id
          ∷ neg p.process_id
          ∷ (if ltb_ℤ (pos 0) foreground then neg foreground ∷ targets w.log else targets w.log)
  unfolding stop_process kill_all
  stop_process-targets p w here runs named foreground asked set = ground arith
