-- ===== src/Tests/Unix.antt =====
-- The session of src/unix at concrete inputs.
use flutter_pty.Prelude.{
  ℕ, ◌+◌, ◌≤◌, ◌≡◌, ◌≢◌, ◌↔◌, refl, true, List, [], ◌∷◌, none, some, arith, replicate,
}
use flutter_pty.Prelude.Int.{pos}
use flutter_pty.Events.{output, session_closed}
use flutter_pty.Queue.{accepted, backpressured, try_enqueue}
use flutter_pty.Queue.Invariant.{total}
use flutter_pty.Unix.World.{fresh_error}
use flutter_pty.Unix.Close.{
  post_at, post_session_event, stop_process, maybe_post_session_closed, begin_close,
}
use flutter_pty.Unix.Close.Final.{maybe_post_session_closed_twice}
use flutter_pty.Unix.Close.Once.{begin_close_twice}
use flutter_pty.Unix.Reentry.{post_at-once}
use flutter_pty.Unix.Frames.{Frame, HasRefs, post-Frame}
use flutter_pty.Unix.Input.{unfinished, flush_write_queue, try_write, after_enqueue}
use flutter_pty.Unix.Input.Accept.{try_write-accepted}
use flutter_pty.Unix.Input.Drain.{Flushed, flush_write_queue-Flushed, flush_write_queue-ends}
use flutter_pty.Unix.Output.{read_output}
use flutter_pty.Unix.Output.Credit.{read_output-credit}
use flutter_pty.Unix.Api.{send_signal, kill_session}
use flutter_pty.Unix.Api.Released.{targets, no_signal_after_exit}
use flutter_pty.Tests.Data.{
  os, refusing, os-Bounded, os-Calm, two_writes, two_writes-IsValid, platform, world, ending,
  gone_platform, gone, world-HasRefs, ending-HasRefs,
}

flush_write_queue-ends_example : (flush_write_queue os 10 world).1 ≢ unfinished
flush_write_queue-ends_example =
    flush_write_queue-ends os os-Bounded os-Calm 10 world two_writes refl two_writes-IsValid
      world-HasRefs (omega arith)

flush_write_queue-Flushed_example :
    Flushed
      (1 ∷ 2 ∷ 3 ∷ 4 ∷ 5 ∷ [])
      (flush_write_queue os 10 world).1
      (flush_write_queue os 10 world).0
flush_write_queue-Flushed_example =
    flush_write_queue-Flushed os os-Bounded 10 world two_writes refl two_writes-IsValid
      world-HasRefs
      (flush_write_queue-ends os os-Bounded os-Calm 10 world two_writes refl two_writes-IsValid
        world-HasRefs (omega arith))

post_at-once_example :
    post_at refusing 4 (output (1 ∷ [])) world ≡ post_at refusing 1 (output (1 ∷ [])) world
post_at-once_example = post_at-once refusing 3 (output (1 ∷ [])) world

post-Frame_example :
    Frame world (post_session_event refusing session_closed world).0
    × HasRefs (post_session_event refusing session_closed world).0
post-Frame_example = post-Frame refusing session_closed world world-HasRefs

maybe_post_session_closed_twice_example :
    maybe_post_session_closed refusing (maybe_post_session_closed refusing ending)
    ≡ maybe_post_session_closed refusing ending
maybe_post_session_closed_twice_example =
    maybe_post_session_closed_twice refusing ending ending-HasRefs

begin_close_twice_example : begin_close os (begin_close os world) ≡ begin_close os world
begin_close_twice_example =
    begin_close_twice os world world-HasRefs (λ e. ground arith) (λ log. refl)

try_write-accepted_example :
    ((try_write os true 9 (some (6 ∷ [])) 1 none world).2 ≡ accepted)
    ↔ (total two_writes.chunks + 0 + 1 ≤ two_writes.limit)
try_write-accepted_example =
    try_write-accepted os platform world (6 ∷ []) 1 9 0 none refl (refl, refl, omega arith)
      two_writes-IsValid (omega arith)

abbrev twelve : List ℕ
twelve = replicate 12 b'x'

refused : (try_write os true 9 (some twelve) 12 none world).2 ≡ backpressured
unfolding try_write try_enqueue after_enqueue
refused = refl

-- Twelve bytes find no room beside the five.
-- With a credit of two bytes, two are read and the credit is used up.
read_output-credit_example : (read_output os 1 world).0.session.output_credit + 2 ≡ 2
read_output-credit_example =
    read_output-credit os 0 (1 ∷ 2 ∷ []) platform world world-HasRefs refl refl (omega arith)
      (omega arith) refl refl (omega arith)

no_signal_after_exit_example :
    (targets (stop_process os gone).log ≡ [])
    × (targets (kill_session os (some fresh_error) gone).0.log ≡ [])
    × (targets (send_signal os (pos 15) (pos 1) (some fresh_error) gone).0.log ≡ [])
no_signal_after_exit_example =
    no_signal_after_exit os gone_platform gone (pos 15) (pos 1) (some fresh_error) refl refl
