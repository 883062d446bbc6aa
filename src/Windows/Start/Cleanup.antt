-- ===== src/Windows/Start/Cleanup.antt =====
-- What a failed start of src/windows/pty_windows_session.c leaves behind.
use flutter_pty.Prelude.{
  ℕ, ◌^◌, ◌<◌, ◌≡◌, refl, Bool, true, false, ◌==◌, List, [], ◌∷◌, Option, none, some, inl, inr,
  arith, Bool-cases,
}
use flutter_pty.Errors.{PtyError, clear}
use flutter_pty.Session.{init, retain, drop_reference}
use flutter_pty.Stats.{Stats}
use flutter_pty.Unix.Spawn.System.{Call, allocated, Balanced}
use flutter_pty.Unix.Spawn.Options.{Options, Cloned}
use flutter_pty.Unix.Start.{valid_start}
use flutter_pty.Unix.Start.Cleanup.{finished_started}
use flutter_pty.Windows.World.{WindowsOs, bootstrap}
use flutter_pty.Windows.Closing.{windows_release, windows_free_session}
use flutter_pty.Windows.Options.{windows_free_options, windows_clone_options}
use flutter_pty.Windows.Options.Balance.{windows_free_options-windows_clone_options}
use flutter_pty.Windows.Start.{
  WindowsStarted, new_windows_world, windows_release_session, launch_windows_bootstrap,
  prepare_windows_bootstrap, start_windows_session, allocate_windows_session, start_checked,
  windows_session_start,
}

-- Of a failed start: the memory and the counters are as before, and nothing is handed out.
abbrev pub NotStarted : ℕ → List Call → Stats → WindowsStarted → Type 0
NotStarted x log s r =
    Balanced x log 0 r.log 0 × (r.session ≡ none) × (r.bootstrap ≡ none) × (r.stats ≡ s)

module _ (os : WindowsOs) (malloc : List Call → (size : ℕ) → ℕ)
    (session_size bootstrap_size : ℕ) where
  module _ (x : ℕ) (s : Stats) (small : s.live_sessions < 2 ^ 64) where
    launch-NotStarted :
        (o : Options) (a b : ℕ) (c : Cloned) (log : List Call)
        → Balanced x (allocated b ∷ allocated a ∷ log) 0 (windows_free_options c.owned c.log).0 0
        → let r =
            launch_windows_bootstrap os malloc session_size bootstrap_size a b
              (new_windows_world o s)
              c in
          r.ok ≡ false → NotStarted x log s r
    unfolding launch_windows_bootstrap new_windows_world init retain windows_release_session
        windows_release drop_reference windows_free_session
    launch-NotStarted o a b c log h = elim (Bool-cases (os.create_thread [] bootstrap == 0)) [
      | inr made ↦ rw made (λ k. ground arith)
      | inl bad ↦ rw bad (λ k. (omega (arith, h), refl, refl, finished_started s small))
    ]

    prepare-NotStarted :
        (o : Options) (a b : ℕ) (c : Cloned) (log : List Call)
        → Balanced x (allocated b ∷ allocated a ∷ log) 0 (windows_free_options c.owned c.log).0 0
        → let r =
            prepare_windows_bootstrap os malloc session_size bootstrap_size a b
              (new_windows_world o s)
              c in
          r.ok ≡ false → NotStarted x log s r
    unfolding prepare_windows_bootstrap new_windows_world init retain windows_release_session
        windows_release drop_reference windows_free_session launch_windows_bootstrap
    prepare-NotStarted o a b c log h = elim (Bool-cases c.ok) [
      | inl made ↦ rw made (launch-NotStarted o a b c log h)
      | inr bad ↦ rw bad (λ k. (omega (arith, h), refl, refl, finished_started s small))
    ]

    start-NotStarted :
        (a : ℕ) (o : Options) (e : Option PtyError) (log : List Call)
        → let r =
            start_windows_session os malloc session_size bootstrap_size a
              (new_windows_world o s)
              o
              e
              (allocated a ∷ log) in
          r.ok ≡ false → NotStarted x log s r
    unfolding start_windows_session new_windows_world init retain windows_release_session
        windows_release drop_reference windows_free_session
    start-NotStarted a o e log =
        let b = malloc (allocated a ∷ log) bootstrap_size in
        elim (Bool-cases (b == 0)) [
          | inl out ↦ rw out (λ k. (omega arith, refl, refl, finished_started s small))
          | inr there ↦ rw there (
              prepare-NotStarted o a b
                (windows_clone_options malloc o e (allocated b ∷ allocated a ∷ log)) log
                (windows_free_options-windows_clone_options x malloc o e
                  (allocated b ∷ allocated a ∷ log)))
        ]

    checked-NotStarted :
        (options : Option Options) (has_out : Bool) (e : Option PtyError) (log : List Call)
        → let r = start_checked os malloc session_size bootstrap_size options has_out e log s in
          r.ok ≡ false → NotStarted x log s r
    unfolding start_checked allocate_windows_session
    checked-NotStarted none has_out e log = λ k. (omega arith, refl, refl, refl)
    checked-NotStarted (some o) has_out e log = elim (Bool-cases (valid_start (some o) has_out)) [
      | inr bad ↦ rw bad (λ k. (omega arith, refl, refl, refl))
      | inl good ↦ rw good (elim (Bool-cases (malloc log session_size == 0)) [
        | inl out ↦ rw out (λ k. (omega arith, refl, refl, refl))
        | inr there ↦ rw there (start-NotStarted (malloc log session_size) o e log)
      ])
    ]

    -- If a start fails, whatever memory and the threads answer, then no session and no bootstrap
    -- block is handed out, each address was freed as often as it was given since the start, and the
    -- diagnostic counters, the sessions being fewer than 2 ^ 64, are as before.
    pub windows_session_start-NotStarted :
        (available : Bool) (options : Option Options) (has_out : Bool) (e : Option PtyError)
        (log : List Call)
        → let r =
            windows_session_start os malloc session_size bootstrap_size available options has_out e
              log s in
          r.ok ≡ false → NotStarted x log s r
    unfolding windows_session_start
    windows_session_start-NotStarted true options has_out e log =
        checked-NotStarted options has_out (clear e) log
    windows_session_start-NotStarted false options has_out e log =
        λ k. (omega arith, refl, refl, refl)
