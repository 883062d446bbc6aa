-- ===== src/Session.antt =====
-- The session object of src/pty_internal.h and its reference count, flags and life cycle in
-- src/common/pty_refcount.c. `P` is the platform structure that `platform` points to, `none` being
-- NULL. Each function is one atomic access, and is called on a session that is not NULL.
pub mod Credit
pub mod References
use flutter_pty.Prelude.{
  ℕ, ◌+◌, ◌%◌, ◌^◌, ◌-◌, Bool, true, false, Option, none, ltb, leb, ◌==◌, ◌||◌, if◌then◌else◌,
}
use flutter_pty.Prelude.Int.{ℤ, pos}
use flutter_pty.Stats.{Stats, session_started, session_finished}

-- `PtyLifecycle`
pub data Lifecycle : Type 0 where
  starting running closing closed : Lifecycle

-- The values of the enumeration, which the code compares.
abbrev pub lifecycle_code : Lifecycle → ℕ
lifecycle_code starting = 0
lifecycle_code running = 1
lifecycle_code closing = 2
lifecycle_code closed = 3

-- `PtySession`; `has_free_function` says whether `free_function` is set.
pub record Session (P : Type 0) : Type 0 where
  pub ref_count : ℕ
  pub lifecycle : Lifecycle
  pub process_exited : Bool
  pub output_closed : Bool
  pub input_closed : Bool
  pub abandoned : Bool
  pub event_port : ℤ
  pub input_buffer_limit : ℕ
  pub output_window_limit : ℕ
  pub output_credit : ℕ
  pub platform : Option P
  pub has_free_function : Bool

-- `pty_output_credit_after_ack`
unfoldable pub output_credit_after_ack : ℕ → ℕ → ℕ → ℕ
output_credit_after_ack credit limit byte_count =
    if leb limit credit || ltb (limit - credit) byte_count then limit else credit + byte_count

module _ {P : Type 0} where
  -- `pty_session_init`
  unfoldable pub init : Stats → Session P × Stats
  init s = (
    record {
      ref_count = 1;
      lifecycle = starting;
      process_exited = false;
      output_closed = false;
      input_closed = false;
      abandoned = false;
      event_port = pos 0;
      input_buffer_limit = 0;
      output_window_limit = 0;
      output_credit = 0;
      platform = none;
      has_free_function = false;
    },
    session_started s,
  )

  unfoldable pub retain : Session P → Session P
  retain s = record s { ref_count = (s.ref_count + 1) % 2 ^ 32 }

  -- The count after `atomic_fetch_sub`, and whether the last reference went.
  unfoldable pub drop_reference : Session P → Session P × Bool
  drop_reference s =
      (record s { ref_count = (s.ref_count + 2 ^ 32 - 1) % 2 ^ 32 }, s.ref_count == 1)

  -- `pty_session_mark_abandoned`: true for the first call.
  unfoldable pub mark_abandoned : Session P → Session P × Bool
  mark_abandoned s = (record s { abandoned = true }, if s.abandoned then false else true)

  unfoldable pub mark_closing : Session P → Session P
  mark_closing s = record s { lifecycle = closing }

  unfoldable pub mark_closed : Session P → Session P
  mark_closed s = record s { lifecycle = closed }
