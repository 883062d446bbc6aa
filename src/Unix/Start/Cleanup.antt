-- ===== src/Unix/Start/Cleanup.antt =====
-- What a start of src/unix/pty_unix_session.c leaves behind, failed or not.
use flutter_pty.Prelude.{
  ℕ, ◌^◌, ◌<◌, ◌≡◌, refl, ap, Bool, true, false, not, ◌==◌, List, [], ◌∷◌, Option, none, some, inl,
  inr, arith, Bool-cases,
}
use flutter_pty.Prelude.Words.{add64, sub64}
use flutter_pty.Errors.{PtyError, clear}
use flutter_pty.Session.{init, retain, drop_reference}
use flutter_pty.Stats.{Stats, session_started, session_finished}
use flutter_pty.Unix.World.{Os, World, bootstrap, thread, did, on_session}
use flutter_pty.Unix.Close.{release, free_unix_session}
use flutter_pty.Unix.Spawn.System.{Call, allocated, Balanced}
use flutter_pty.Unix.Spawn.Options.{Options, Cloned, no_options, free_options, clone_options}
use flutter_pty.Unix.Spawn.Options.Balance.{free_options-clone_options}
use flutter_pty.Unix.Spawn.Options.Copies.{copied_options, clone_options-copies}
use flutter_pty.Unix.Start.{
  Bootstrap, Started, new_world, release_session, launch_bootstrap, prepare_bootstrap,
  start_session, allocate_session, session_start, valid_start,
}

pub finished_started :
    (s : Stats) → s.live_sessions < 2 ^ 64 → session_finished (session_started s) ≡ s
unfolding session_finished session_started
finished_started s h =
    ap (λ (n : ℕ). record s { live_sessions = n })
      (let e : add64 (add64 s.live_sessions 1) (sub64 0 1) ≡ s.live_sessions = omega (arith, h) in
        e)

-- The session as the bootstrap thread finds it, and after its creator gave one reference back.
abbrev launched : Os → Options → Stats → World
launched os o s =
    let w = on_session retain (new_world o s) in
    did (thread bootstrap (os.create_thread [] bootstrap == 0)) w

-- Of a failed start: the memory and the counters are as before, and nothing is handed out.
abbrev pub Undone : ℕ → List Call → Stats → Started → Type 0
Undone x log s r =
    Balanced x log 0 r.log 0 × (r.session ≡ none) × (r.bootstrap ≡ none) × (r.stats ≡ s)

-- Of a start that succeeds: what the caller and the bootstrap worker hold.
abbrev pub Launched : Os → Options → Option PtyError → Stats → Started → Type 0
Launched os o e s r =
    (r.session ≡ some (launched os o s))
    × (r.error ≡ e)
    × ((b : Bootstrap) × (r.bootstrap ≡ some b) × (b.options.options ≡ copied_options o))

module _ (os : Os) (malloc : List Call → (size : ℕ) → ℕ) (session_size bootstrap_size : ℕ) where
  module _ (x : ℕ) (s : Stats) (small : s.live_sessions < 2 ^ 64) where
    launch_bootstrap-Undone :
        (o : Options) (a b : ℕ) (c : Cloned) (log : List Call)
        → Balanced x (allocated b ∷ allocated a ∷ log) 0 (free_options c.owned c.log).0 0
        → let r = launch_bootstrap os malloc session_size bootstrap_size a b (new_world o s) c in
          r.ok ≡ false → Undone x log s r
    unfolding launch_bootstrap new_world init retain release_session release drop_reference
        free_unix_session
    launch_bootstrap-Undone o a b c log h = elim (Bool-cases (os.create_thread [] bootstrap == 0)) [
      | inl made ↦ rw made (λ k. ground arith)
      | inr bad ↦ rw bad (λ k. (omega (arith, h), refl, refl, finished_started s small))
    ]

    prepare_bootstrap-Undone :
        (o : Options) (a b : ℕ) (c : Cloned) (log : List Call)
        → Balanced x (allocated b ∷ allocated a ∷ log) 0 (free_options c.owned c.log).0 0
        → let r = prepare_bootstrap os malloc session_size bootstrap_size a b (new_world o s) c in
          r.ok ≡ false → Undone x log s r
    unfolding prepare_bootstrap new_world init retain release_session release drop_reference
        free_unix_session launch_bootstrap
    prepare_bootstrap-Undone o a b c log h = elim (Bool-cases (c.ok)) [
      | inl made ↦ rw made (launch_bootstrap-Undone o a b c log h)
      | inr bad ↦ rw bad (λ k. (omega (arith, h), refl, refl, finished_started s small))
    ]

    start_session-Undone :
        (a : ℕ) (o : Options) (e : Option PtyError) (log : List Call)
        → let r =
            start_session os malloc session_size bootstrap_size a
              (new_world o s)
              o
              e
              (allocated a ∷ log) in
          r.ok ≡ false → Undone x log s r
    unfolding start_session new_world init retain release_session release drop_reference
        free_unix_session
    start_session-Undone a o e log =
        let b = malloc (allocated a ∷ log) bootstrap_size in
        elim (Bool-cases (b == 0)) [
          | inl out ↦ rw out (λ k. (omega arith, refl, refl, finished_started s small))
          | inr there ↦ rw there (
              prepare_bootstrap-Undone o a b
                (clone_options malloc (some o) no_options e (allocated b ∷ allocated a ∷ log)) log
                (free_options-clone_options x malloc o e (allocated b ∷ allocated a ∷ log)))
        ]

    -- If a start fails, whatever memory and the threads answer, then no session and no bootstrap
    -- block is handed out, each address was freed as often as it was given since the start, and the
    -- diagnostic counters, the sessions being fewer than 2 ^ 64, are as before.
    pub session_start-Undone :
        (available : Bool) (options : Option Options) (has_out : Bool) (e : Option PtyError)
        (log : List Call)
        → let r =
            session_start os malloc session_size bootstrap_size available options has_out e log s in
          r.ok ≡ false → Undone x log s r
    unfolding session_start allocate_session
    session_start-Undone true none has_out e log = λ k. (omega arith, refl, refl, refl)
    session_start-Undone false none has_out e log = λ k. (omega arith, refl, refl, refl)
    session_start-Undone false (some o) has_out e log = λ k. (omega arith, refl, refl, refl)
    session_start-Undone true (some o) has_out e log =
        elim (Bool-cases (not (valid_start (some o) has_out))) [
          | inl bad ↦ rw bad (λ k. (omega arith, refl, refl, refl))
          | inr good ↦ rw good (elim (Bool-cases (malloc log session_size == 0)) [
            | inl out ↦ rw out (λ k. (omega arith, refl, refl, refl))
            | inr there ↦ rw there (start_session-Undone (malloc log session_size) o (clear e) log)
          ])
        ]

  launch_bootstrap-Launched :
      (o : Options) (e : Option PtyError) (a b : ℕ) (s : Stats) (c : Cloned)
      → (c.owned.options ≡ copied_options o) × (c.error ≡ e)
      → let r = launch_bootstrap os malloc session_size bootstrap_size a b (new_world o s) c in
        r.ok ≡ true → Launched os o e s r
  unfolding launch_bootstrap new_world init retain
  launch_bootstrap-Launched o e a b s c h = elim (Bool-cases (os.create_thread [] bootstrap == 0)) [
    | inl made ↦ rw made (λ k. (refl, h.1, (record { address = b; options = c.owned }, refl, h.0)))
    | inr bad ↦ rw bad (λ k. ground arith)
  ]

  prepare_bootstrap-Launched :
      (o : Options) (e : Option PtyError) (a b : ℕ) (s : Stats) (c : Cloned)
      → (c.ok ≡ true → (c.owned.options ≡ copied_options o) × (c.error ≡ e))
      → let r = prepare_bootstrap os malloc session_size bootstrap_size a b (new_world o s) c in
        r.ok ≡ true → Launched os o e s r
  unfolding prepare_bootstrap new_world init retain launch_bootstrap
  prepare_bootstrap-Launched o e a b s c h = elim (Bool-cases (c.ok)) [
    | inl made ↦ rw made (launch_bootstrap-Launched o e a b s c (h made))
    | inr bad ↦ rw bad (λ k. ground arith)
  ]

  start_session-Launched :
      (a : ℕ) (o : Options) (e : Option PtyError) (log : List Call) (s : Stats)
      → let r = start_session os malloc session_size bootstrap_size a (new_world o s) o e log in
        r.ok ≡ true → Launched os o e s r
  unfolding start_session
  start_session-Launched a o e log s =
      let b = malloc log bootstrap_size in
      elim (Bool-cases (b == 0)) [
        | inl out ↦ rw out (λ k. ground arith)
        | inr there ↦ rw there (
            prepare_bootstrap-Launched o e a b s
              (clone_options malloc (some o) no_options e (allocated b ∷ log))
              (clone_options-copies malloc o no_options e (allocated b ∷ log)))
      ]

  -- If a start succeeds, then the caller's error is cleared, the bootstrap worker owns a copy of the
  -- options, and the caller holds a session in its first state with the credit, the limits and the
  -- port of the options and two references, its own and the worker's, whose only effect so far is the
  -- worker's thread.
  pub session_start-Launched :
      (available : Bool) (o : Options) (has_out : Bool) (e : Option PtyError) (log : List Call)
      (s : Stats)
      → let r =
          session_start os malloc session_size bootstrap_size available (some o) has_out e log s in
        r.ok ≡ true → Launched os o (clear e) s r
  unfolding session_start allocate_session
  session_start-Launched false o has_out e log s = λ k. ground arith
  session_start-Launched true o has_out e log s =
      elim (Bool-cases (not (valid_start (some o) has_out))) [
        | inl bad ↦ rw bad (λ k. ground arith)
        | inr good ↦ rw good (elim (Bool-cases (malloc log session_size == 0)) [
          | inl out ↦ rw out (λ k. ground arith)
          | inr there ↦ rw there (
              start_session-Launched (malloc log session_size) o (clear e)
                (allocated (malloc log session_size) ∷ log) s)
        ])
      ]
