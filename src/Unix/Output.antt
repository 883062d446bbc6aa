-- ===== src/Unix/Output.antt =====
-- Output in src/unix/pty_unix_session.c: reading from the master within the credit, and closing the
-- output.
pub mod Credit
use flutter_pty.Prelude.{
  ℕ, zero, suc, ◌+◌, ◌-◌, ◌*◌, Bool, true, false, not, ◌&&◌, ◌||◌, List, [], ◌∷◌, Option, none,
  some, ltb, leb, ◌==◌, if◌then◌else◌, length,
}
use flutter_pty.Prelude.Int.{ℤ, pos, ltb_ℤ}
use flutter_pty.Prelude.Text.{codes}
use flutter_pty.Prelude.Words.{sub64}
use flutter_pty.Errors.{Kind, io}
use flutter_pty.Events.{Event, output, output_closed, async_error}
use flutter_pty.Session.{output_credit_after_ack}
use flutter_pty.Unix.World.{
  Platform, Os, World, ReadAnswer, gave, broke, got, read_failed, did, on_session, on_platform,
  put_platform, eintr, eagain, eio,
}
use flutter_pty.Unix.Close.{wake_reactor, post_session_event}
use flutter_pty.Unix.Input.{errno_error}

-- `PtyReadResult`; `interrupted` stands for a read that signals still interrupt when the fuel is out.
pub data ReadResult : Type 0 where
  closed empty some_data credit_exhausted interrupted : ReadResult

-- `PTY_REACTOR_BUFFER_SIZE`
abbrev pub reactor_buffer_size : ℕ
reactor_buffer_size = 16 * 1024

-- How much `read_output` asks for.
abbrev pub read_capacity : Bool → ℕ → ℕ
read_capacity discard credit =
    if not discard && ltb credit reactor_buffer_size then credit else reactor_buffer_size

-- The credit after `count` bytes.
abbrev pub credit_after_read : ℕ → ℕ → ℕ
credit_after_read credit count = if leb count credit then sub64 credit count else 0

abbrev pub is_discarding : World → Bool
is_discarding w = elim w.session.platform [ none ↦ false | some p ↦ p.discard_output ]

module _ (os : Os) where
  -- `mark_output_closed`
  unfoldable pub mark_output_closed : World → World
  mark_output_closed w = elim w.session.platform [
    | none ↦ w
    | some p ↦
        let w1 =
          on_session (λ s. record s { output_closed = true })
            (put_platform (record p { output_closed = true }) w) in
        if p.output_closed then w else (post_session_event os output_closed w1).0
  ]

  -- `post_child_error`
  unfoldable pub post_child_error : Kind → ℕ → List ℕ → World → World
  post_child_error kind error_number operation w =
      (post_session_event os (async_error (errno_error os kind error_number operation)) w).0

  -- The bytes of a read: they use up credit and are posted, unless the output is discarded by now.
  -- A post that is not taken turns the rest of the output away.
  unfoldable pub deliver : List ℕ → World → World × ReadResult
  deliver bytes w =
      let charged =
        on_session
          (λ s. record s { output_credit = credit_after_read s.output_credit (length bytes) }) w in
      let (w1, ok) = post_session_event os (output bytes) charged in
      if is_discarding w
      then (w, some_data)
      else if ok
      then (w1, some_data)
      else (on_platform (λ p. record p { discard_output = true }) w1, closed)

  -- The read itself, with the number of tries as fuel, and what its answer leads to.
  unfoldable pub read_master : ℕ → ℤ → ℕ → Bool → World → World × ReadResult
  read_master zero master_fd capacity discard w = (w, interrupted)
  read_master (suc tries) master_fd capacity discard w = elim (os.read w.log master_fd capacity) [
    | gave [] ↦ (did (got []) w, closed)
    | gave (b ∷ bs) ↦
        let w1 = did (got (b ∷ bs)) w in if discard then (w1, some_data) else deliver (b ∷ bs) w1
    | broke errno ↦
        let w1 = did (read_failed errno) w in
        let again = read_master tries master_fd capacity discard w1 in
        if errno == eintr
        then again
        else if errno == eagain
        then (w1, empty)
        else if errno == eio
        then (w1, closed)
        else (post_child_error io errno (codes "reading PTY output failed") w1, closed)
  ]

  -- `read_output`
  unfoldable pub read_output : ℕ → World → World × ReadResult
  read_output tries w = elim w.session.platform [
    | none ↦ (w, closed)
    | some p ↦
        if ltb_ℤ p.master_fd (pos 0)
        then (w, closed)
        else if not p.discard_output && w.session.output_credit == 0
        then (w, credit_exhausted)
        else read_master tries p.master_fd (read_capacity p.discard_output w.session.output_credit)
            p.discard_output w
  ]

  -- `pty_session_ack_output`
  unfoldable pub ack_output : ℕ → World → World
  ack_output byte_count w = elim w.session.platform [
    | none ↦ w
    | some p ↦ wake_reactor (
        on_session
          (λ s. record s {
            output_credit =
                output_credit_after_ack s.output_credit s.output_window_limit byte_count;
          })
          w)
  ]

  -- `pty_session_discard_output`
  unfoldable pub discard_output : World → World
  discard_output w = elim w.session.platform [
    | none ↦ w
    | some p ↦ wake_reactor (put_platform (record p { discard_output = true }) w)
  ]
