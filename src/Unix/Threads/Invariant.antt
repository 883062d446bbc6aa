-- ===== src/Unix/Threads/Invariant.antt =====
-- What holds in every interleaving of the threads of src/unix/pty_unix_session.c.
use flutter_pty.Prelude.{ℕ, ◌+◌, ◌*◌, ◌≤◌, ◌≡◌, Bool, true, false, ◌&&◌, ◌||◌, arith, ◌==◌}
use flutter_pty.Unix.Threads.{Threads}
use flutter_pty.Unix.Threads.Steps.{
  ThreadStep, call_begin, call_abandon, abandon_again, abandon_first, drop, begin_late, begin_first,
  retain_first, retain_second, create, release_creator, create_refused, release_first,
  release_second, mark, end_reactor, end_waiter, begin_stop, end_close, call_check, call_check_not,
  call_post, call_post_not, call_send, call_send_refused, main_check, main_check_not, main_post,
  main_post_not, main_send, main_send_refused, main_leave, closer_check, closer_check_not,
  closer_post, closer_post_not, closer_send, closer_send_refused, closer_leave, ThreadReach, here,
  next,
}

abbrev pub bit : Bool → ℕ
bit true = 1
bit false = 0

-- The reactor and the waiter up to their last release, and the close worker likewise.
abbrev pub main_threads : Threads → ℕ
main_threads s =
    s.reactor_loop + s.waiter_loop + s.main_checks + s.main_posts + s.main_sends + s.main_leaves

abbrev pub closer_threads : Threads → ℕ
closer_threads s =
    s.closer_first + s.closer_second + s.closer_checks + s.closer_posts + s.closer_sends
    + s.closer_leaves

-- Those who are to create the close worker or to stand in for it, and those before the post.
abbrev pub owing : Threads → ℕ
owing s = s.reserved + s.retained_once + s.retained + s.refused + s.refused_again + s.marking

abbrev pub on_post : Threads → ℕ
on_post s =
    s.call_posts + s.call_sends + s.main_posts + s.main_sends + s.closer_posts + s.closer_sends

-- The references, the one start of the close, and who posts the last event.
pub record ThreadInv (s : Threads) : Type 0 where
  pub counted :
      s.ref_count + bit s.abandoned
      ≡ 1
        + s.drops
        + main_threads s
        + closer_threads s
        + s.created
        + s.retained_once
        + 2 * s.retained
        + 2 * s.refused
        + s.refused_again
  pub two_main : main_threads s ≤ 2
  pub dropped_once : s.drops ≤ bit s.abandoned
  pub one_closer : owing s + s.closers ≤ bit s.close_started
  pub created_closer : s.created ≤ s.closers
  pub closers_are : closer_threads s ≤ s.closers
  pub close_owed :
      bit s.close_started ≤ owing s + s.closer_first + s.closer_second + bit s.close_done
  pub done_stops : bit s.close_done ≤ bit s.stopping
  pub second_stops : s.closer_second ≤ bit s.stopping
  pub reactor_part : s.reactor_loop + bit s.reactor_done ≡ 1
  pub waiter_part : s.waiter_loop + bit s.waiter_done ≡ 1
  pub posted_once : s.closed_events + on_post s ≤ bit s.session_closed_posted
  pub posted_or_abandoned :
      bit s.session_closed_posted ≤ s.closed_events + on_post s + s.abandon_calls + bit s.abandoned
  pub posted_after :
      3 * bit s.session_closed_posted ≤ bit s.reactor_done + bit s.waiter_done + bit s.close_done
  pub last_checks :
      bit s.stopping + bit s.reactor_done + bit s.waiter_done + bit s.close_done
      ≤ 3 + bit s.session_closed_posted + s.main_checks + s.closer_checks + s.call_checks
  pub freed_late : (s.frees == 0 || (s.abandoned && s.drops + main_threads s == 0)) ≡ true
  pub freed_at_last : 1 ≤ s.ref_count + s.frees

Step-Inv : {s t : Threads} → ThreadInv s → ThreadStep s t → ThreadInv t
Step-Inv {s} v call_begin = grind arith
Step-Inv {s} v call_abandon = grind arith
Step-Inv {s} v (abandon_again h e) = grind arith
Step-Inv {s} v (abandon_first h e) = grind arith
Step-Inv {s} v (drop h) = grind arith
Step-Inv {s} v (begin_late h e) = grind arith
Step-Inv {s} v (begin_first h e) = grind arith
Step-Inv {s} v (retain_first h) = grind arith
Step-Inv {s} v (retain_second h) = grind arith
Step-Inv {s} v (create h) = grind arith
Step-Inv {s} v (release_creator h) = grind arith
Step-Inv {s} v (create_refused h) = grind arith
Step-Inv {s} v (release_first h) = grind arith
Step-Inv {s} v (release_second h) = grind arith
Step-Inv {s} v (mark h) = grind arith
Step-Inv {s} v (end_reactor h) = grind arith
Step-Inv {s} v (end_waiter h) = grind arith
Step-Inv {s} v (begin_stop h) = grind arith
Step-Inv {s} v (end_close h) = grind arith
Step-Inv {s} v (call_check h e) = grind arith
Step-Inv {s} v (call_check_not h e) = grind arith
Step-Inv {s} v (call_post h e) = grind arith
Step-Inv {s} v (call_post_not h e) = grind arith
Step-Inv {s} v (call_send h) = grind arith
Step-Inv {s} v (call_send_refused h) = grind arith
Step-Inv {s} v (main_check h e) = grind arith
Step-Inv {s} v (main_check_not h e) = grind arith
Step-Inv {s} v (main_post h e) = grind arith
Step-Inv {s} v (main_post_not h e) = grind arith
Step-Inv {s} v (main_send h) = grind arith
Step-Inv {s} v (main_send_refused h) = grind arith
Step-Inv {s} v (main_leave h) = grind arith
Step-Inv {s} v (closer_check h e) = grind arith
Step-Inv {s} v (closer_check_not h e) = grind arith
Step-Inv {s} v (closer_post h e) = grind arith
Step-Inv {s} v (closer_post_not h e) = grind arith
Step-Inv {s} v (closer_send h) = grind arith
Step-Inv {s} v (closer_send_refused h) = grind arith
Step-Inv {s} v (closer_leave h) = grind arith

pub Reach-Inv : {s : Threads} → ThreadReach s → ThreadInv s
Reach-Inv here = grind arith
Reach-Inv (next reach st) = Step-Inv (Reach-Inv reach) st
