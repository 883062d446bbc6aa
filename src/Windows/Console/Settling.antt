-- ===== src/Windows/Console/Settling.antt =====
-- How the threads around the pseudo console get on, in src/windows/pty_windows_session.c.
use flutter_pty.Prelude.{
  ℕ, zero, suc, ◌+◌, ◌*◌, ◌≤◌, ◌<◌, ◌≡◌, true, false, ◌||◌, arith, inl, inr, Bool-cases, ltb, ◌==◌,
  ◌⊎◌,
}
use flutter_pty.Windows.World.{owned, releasing, closing, closed}
use flutter_pty.Windows.Console.{
  Console, in_state, ConsoleStep, release_late, release_by_close, release_begin, release_done,
  release_failed, wake_other, start_late, start_reserve, launch, close_late, close_wait,
  close_reserve, call, mark, wait_over, is_fresh_console, ConsoleReach, next,
}
use flutter_pty.Windows.Console.Invariant.{bit, one_state, ConsoleInv, asked_of, Reach-Inv}

-- How often the sleepers may still be woken.
abbrev wakes : Console → ℕ
wakes s =
    2 * s.releasers
    + 2 * s.in_release
    + s.starters
    + s.sleeping_starters
    + s.closers
    + s.sleeping_closers
    + s.launching
    + s.calling
    + s.marking
    + s.other_wakes

-- How much the threads that are awake have left to do.
abbrev work : Console → ℕ
work s =
    7 * s.releasers
    + 6 * s.in_release
    + 5 * s.starters
    + 4 * s.launching
    + 4 * s.closers
    + 3 * s.calling
    + 2 * s.marking
    + s.waiters

-- A step wakes the sleepers, one of the few times left, or it takes some thread on.
Step-less :
    {s t : Console}
    → ConsoleStep s t
    → (wakes t < wakes s) ⊎ ((wakes t ≤ wakes s) × (work t < work s))
Step-less (release_done h) = inl (grind arith)
Step-less (release_failed h) = inl (grind arith)
Step-less (mark h) = inl (grind arith)
Step-less (wake_other h) = inl (grind arith)
Step-less st = inr (grind arith, grind arith)

abbrev threads : Console → ℕ
threads s =
    s.releasers + s.in_release + s.starters + s.launching + s.closers + s.calling + s.marking
    + s.waiters + s.sleeping_starters + s.sleeping_closers + s.sleeping_waiters

abbrev Next : Console → Type 0
Next s = (t : Console) × ConsoleStep s t

starter-Next : (s : Console) → 1 ≤ s.starters → in_state releasing s ≡ false → Next s
starter-Next s h e = elim (Bool-cases (in_state closed s || in_state closing s)) [
  | inl late ↦ (_, start_late h late)
  | inr go ↦ (_, start_reserve h (ground arith))
]

releaser-Next : (s : Console) → 1 ≤ s.releasers → Next s
releaser-Next s h = elim (Bool-cases (in_state owned s)) [
  | inr late ↦ (_, release_late h late)
  | inl own ↦ elim (Bool-cases s.can_release) [
    | inl can ↦ (_, release_begin h own can)
    | inr not_there ↦ (_, release_by_close h own not_there)
  ]
]

closer-Next : (s : Console) → 1 ≤ s.closers → in_state releasing s ≡ false → Next s
closer-Next s h e = elim (Bool-cases (in_state closed s)) [
  | inl late ↦ (_, close_late h late)
  | inr unclosed ↦ elim (Bool-cases (in_state closing s)) [
    | inl wait ↦ (_, close_wait h wait)
    | inr go ↦ (_, close_reserve h (ground arith))
  ]
]

-- While nobody is inside a call of the system, whoever is there can go on.
free-Next :
    (s : Console)
    → 1 ≤ s.releasers + s.starters + s.closers + s.waiters
    → in_state releasing s ≡ false
    → in_state closing s ≡ false
    → Next s
free-Next s h e f = elim (Bool-cases (ltb 0 s.releasers)) [
  | inl k ↦ releaser-Next s (grind arith)
  | inr k ↦ elim (Bool-cases (ltb 0 s.starters)) [
    | inl k1 ↦ starter-Next s (grind arith) e
    | inr k1 ↦ elim (Bool-cases (ltb 0 s.closers)) [
      | inl k2 ↦ closer-Next s (grind arith) e
      | inr k2 ↦ (_, wait_over (grind arith) (ground arith))
    ]
  ]
]

inside-Next : (s : Console) → 1 ≤ s.in_release + s.launching + s.calling + s.marking → Next s
inside-Next s h = elim (Bool-cases (ltb 0 s.in_release)) [
  | inl k ↦ (_, release_done (grind arith))
  | inr k ↦ elim (Bool-cases (ltb 0 s.launching)) [
    | inl k1 ↦ (_, launch (grind arith))
    | inr k1 ↦ elim (Bool-cases (ltb 0 s.calling)) [
      | inl k2 ↦ (_, call (grind arith))
      | inr k2 ↦ (_, mark (grind arith))
    ]
  ]
]

some-Next : {asked : ℕ} (s : Console) → ConsoleInv asked s → 1 ≤ threads s → Next s
some-Next s v h = elim (Bool-cases (ltb 0 (s.in_release + s.launching + s.calling + s.marking))) [
  | inl inside ↦ inside-Next s (grind arith)
  | inr none_inside ↦ free-Next s (grind arith) (grind arith) (grind arith)
]

-- Whichever steps the threads take, there is a further one until `P` holds, and `P` holds in the end.
pub data Settles (P : Console → Type 0) : Console → Type 0 where
  now : {s : Console} → P s → Settles P s
  later : {s : Console} → Next s → ((t : Console) → ConsoleStep s t → Settles P t) → Settles P s

-- All threads have left, and if one was to close the console, `ClosePseudoConsole` was called, once.
abbrev pub Settled : ℕ → Console → Type 0
Settled asked s = (threads s ≡ 0) × (s.closes ≡ bit (in_state closed s)) × (asked ≤ s.closes)

settled : {asked : ℕ} (s : Console) → ConsoleInv asked s → threads s ≡ 0 → Settled asked s
settled s v h = grind (arith, one_state s)

-- Until the sleepers are woken again, the threads that are awake have less and less to do.
until_wake :
    {a : Console} (wakes_left work_left : ℕ) (s : Console)
    → ((t : Console) → ConsoleReach a t → wakes t < wakes_left → Settles (Settled (asked_of a)) t)
    → is_fresh_console a ≡ true
    → ConsoleReach a s
    → wakes s ≤ wakes_left
    → work s < work_left
    → Settles (Settled (asked_of a)) s
until_wake wakes_left zero s woken f reach few short = absurd (omega (arith, short))
until_wake wakes_left (suc work_left) s woken f reach few short =
    elim (Bool-cases (threads s == 0)) [
      | inl left ↦ now (settled s (Reach-Inv f reach) (grind arith))
      | inr more ↦ later (some-Next s (Reach-Inv f reach) (grind arith)) (λ t st.
          elim (Step-less st) [
            | inl wake ↦ woken t (next reach st) (omega (arith, wake))
            | inr less ↦
                until_wake wakes_left work_left t woken f (next reach st) (omega (arith, less.0))
                  (omega (arith, less.1))
          ])
    ]

run_on :
    {a : Console} (wakes_left : ℕ) (s : Console)
    → is_fresh_console a ≡ true
    → ConsoleReach a s
    → wakes s < wakes_left
    → Settles (Settled (asked_of a)) s
run_on zero s f reach few = absurd (omega (arith, few))
run_on (suc wakes_left) s f reach few =
    until_wake wakes_left (suc (work s)) s (λ t r fewer. run_on wakes_left t f r fewer) f reach
      (omega (arith, few)) (omega arith)

-- From every state that threads releasing, closing and awaiting the console reach, where a thread asleep
-- on the condition variable goes on only when the code wakes all sleepers or one of finitely many
-- wake-ups comes from elsewhere: whichever steps the threads take from there, some thread can go on until
-- all have left, and they do, so nobody sleeps for ever. Then the state is closed just if
-- `ClosePseudoConsole` was called, which it was if at the start some thread was to close the console.
pub Reach-Settles :
    {a s : Console}
    → is_fresh_console a ≡ true
    → ConsoleReach a s
    → Settles (Settled (asked_of a)) s
Reach-Settles {s} f reach = run_on (suc (wakes s)) s f reach (omega arith)
