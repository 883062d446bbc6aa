-- ===== src/Tests/WindowsSession.antt =====
-- A session of src/windows at concrete inputs.
use flutter_pty.Prelude.{
  ℕ, ◌+◌, ◌≤◌, ◌≡◌, refl, true, false, List, [], ◌∷◌, none, some, arith, length, length-take, take,
}
use flutter_pty.Prelude.Int.{pos}
use flutter_pty.Session.{Session, running, mark_abandoned, mark_closed, drop_reference}
use flutter_pty.Unix.World.{fresh_error}
use flutter_pty.Unix.Spawn.System.{Balanced}
use flutter_pty.Windows.Wide.{System}
use flutter_pty.Windows.World.{
  owned, releasing, closing, closed, WindowsPlatform, WindowsOs, WindowsWorld, WindowsEffect, took,
  gave, ended,
}
use flutter_pty.Errors.{size_is_valid}
use flutter_pty.Events.{writable, session_closed}
use flutter_pty.Windows.Closing.{
  windows_release, windows_close_pseudo_console_now, windows_release_pseudo_console_ownership,
  release_console_now, windows_start_pseudo_console_close_worker,
}
use flutter_pty.Windows.Posting.{
  windows_abandon, windows_begin_close_quickly, begin_windows_close, close_windows_platform,
  windows_maybe_post_closed, windows_post_session_event,
}
use flutter_pty.Windows.Workers.{write_bytes, writer_round, reader_round}
use flutter_pty.Windows.Writer.{Wrote, write_bytes-Wrote}
use flutter_pty.Windows.Writer.Finish.{RoundOk, Writing}
use flutter_pty.Windows.Writer.Round.{writer_round-RoundOk}
use flutter_pty.Windows.Credit.{Charged, reader_round-Charged}
use flutter_pty.Windows.Final.{post_events, windows_maybe_post_closed_twice}
use flutter_pty.Windows.Console.{
  Console, close_sleep, wait_sleep, release_begin, release_done, close_reserve, call, ConsoleReach,
  here, next,
}
use flutter_pty.Windows.Console.Invariant.{asked_of, console_closed_once}
use flutter_pty.Windows.Console.Settling.{Settles, Settled, Reach-Settles}
use flutter_pty.Windows.Console.Calls.{
  view, result_of, Run, windows_close_pseudo_console_now-ConsoleReach,
  windows_release_pseudo_console_ownership-Run,
}
use flutter_pty.Windows.Options.{windows_free_options, windows_clone_options}
use flutter_pty.Windows.Options.Balance.{windows_free_options-windows_clone_options}
use flutter_pty.Windows.Process.{ProcessSystem, granted, windows_create_process}
use flutter_pty.Windows.Process.Accounting.{Accounted, windows_create_process-Accounted}
use flutter_pty.Windows.Bootstrap.{start_windows_workers}
use flutter_pty.Windows.Bootstrap.References.{AllStarted, start_windows_workers-AllStarted}
use flutter_pty.Windows.Start.{
  windows_session_start, start_checked, allocate_windows_session, start_windows_session,
}
use flutter_pty.Windows.Start.Cleanup.{NotStarted, windows_session_start-NotStarted}
use flutter_pty.Tests.Data.{no_stats, take_two, take_two-le, first, two_writes, two_writes-IsValid}
use flutter_pty.Tests.Spawn.{up_to, options}

-- Pipes that take two bytes and give three, and a console that cannot be released.
abbrev windows_os : WindowsOs
windows_os = record {
  post = λ log e. true;
  create_thread = λ log worker. 20;
  release_console = λ log. false;
  terminate_job = λ log. true;
  write = λ log bytes. took (take_two bytes);
  read = λ log capacity. gave (take capacity (1 ∷ 2 ∷ 3 ∷ []));
  resize_console = λ log size. pos 0;
  wait_process = λ log. ended;
  process_over = λ log. false;
  resume = λ log. true;
  exit_code = λ log. some 0;
  active_processes = λ log. some 2;
  last_error = λ log. 8;
}

abbrev windows_platform : WindowsPlatform
windows_platform = record {
  input_write = 1;
  output_read = 2;
  pseudo_console = 3;
  can_release = true;
  console_state = owned;
  process = 4;
  job = 5;
  process_id = 6;
  reader_thread = 0;
  writer_thread = 0;
  waiter_thread = 0;
  close_thread = 0;
  console_close_thread = 0;
  reader_started = false;
  writer_started = false;
  waiter_started = false;
  reader_done = false;
  writer_done = false;
  waiter_done = false;
  close_started = false;
  close_done = false;
  console_close_started = false;
  console_close_done = false;
  stopping = false;
  termination_requested = false;
  write_backpressured = true;
  discard_output = false;
  output_closed = false;
  input_closed = false;
  session_closed_posted = false;
  write_queue = two_writes;
}

abbrev windows_session : Session ℕ
windows_session = record {
  ref_count = 5;
  lifecycle = running;
  process_exited = false;
  output_closed = false;
  input_closed = false;
  abandoned = false;
  event_port = pos 1;
  input_buffer_limit = 16;
  output_window_limit = 100;
  output_credit = 2;
  platform = some 9;
  has_free_function = true;
}

abbrev windows_world : WindowsWorld
windows_world = record {
  session = windows_session;
  platform = windows_platform;
  stats = no_stats;
  log = [];
}

takes_two :
    (log : List WindowsEffect) (bytes : List ℕ) (n : ℕ)
    → windows_os.write log bytes ≡ took n
    → n ≤ length bytes
takes_two log bytes n e = ground (arith, take_two-le bytes)

gives_three :
    (log : List WindowsEffect) (capacity : ℕ) (bytes : List ℕ)
    → windows_os.read log capacity ≡ gave bytes
    → length bytes ≤ capacity
gives_three log capacity bytes e = ground (arith, length-take {A = ℕ} capacity (1 ∷ 2 ∷ 3 ∷ []))

windows_world-Writing : Writing windows_world
windows_world-Writing = record {
  valid = two_writes-IsValid;
  whole = (refl, (refl, tt));
  held = record { mine = omega arith; owned = λ e. omega arith; few = λ e. omega arith };
}

write_bytes-Wrote_example :
    Wrote first 0 windows_world (write_bytes windows_os 4 first 0 windows_world)
write_bytes-Wrote_example =
    write_bytes-Wrote windows_os takes_two 4 first 0 windows_world refl (omega arith)

writer_round-RoundOk_example : RoundOk windows_world (writer_round windows_os 17 windows_world)
writer_round-RoundOk_example =
    writer_round-RoundOk windows_os takes_two 17 windows_world windows_world-Writing (omega arith)

reader_round-Charged_example : Charged windows_world (reader_round windows_os windows_world)
reader_round-Charged_example = reader_round-Charged windows_os gives_three windows_world refl

-- A session that is all done, at a port that refuses every event.
abbrev refusing_os : WindowsOs
refusing_os = record windows_os { post = λ log e. false }

abbrev done_world : WindowsWorld
done_world = record windows_world {
  platform = record windows_platform {
    console_state = closed;
    reader_started = true;
    writer_started = true;
    waiter_started = true;
    reader_done = true;
    writer_done = true;
    waiter_done = true;
    close_started = true;
    close_done = true;
    console_close_started = true;
    console_close_done = true;
    stopping = true;
  };
}

-- The first check posts, is refused, and abandons the session.
done_world-posts :
    ((windows_maybe_post_closed refusing_os done_world).session.abandoned ≡ true)
    × ((windows_maybe_post_closed refusing_os done_world).platform.session_closed_posted ≡ true)
unfolding windows_maybe_post_closed windows_post_session_event windows_abandon mark_abandoned
    windows_begin_close_quickly begin_windows_close close_windows_platform windows_release
    mark_closed drop_reference
done_world-posts = (refl, refl)

windows_maybe_post_closed_twice_example :
    windows_maybe_post_closed refusing_os (
      post_events refusing_os
        (writable ∷ session_closed ∷ [])
        (windows_maybe_post_closed refusing_os done_world))
    ≡ post_events refusing_os
        (writable ∷ session_closed ∷ [])
        (windows_maybe_post_closed refusing_os done_world)
windows_maybe_post_closed_twice_example =
    windows_maybe_post_closed_twice refusing_os (writable ∷ session_closed ∷ []) done_world refl

-- A thread that releases the console, one that closes it, and one that waits for the close.
abbrev console_start : Console
console_start = record (view windows_world) {
  releasers = 1;
  closers = 1;
  waiters = 1;
  other_wakes = 1;
}

-- The one that closes has slept during the release, and has left `ClosePseudoConsole`, for which the
-- one that waits sleeps.
abbrev console_calling : Console
console_calling = record console_start {
  console_state = closing;
  releasers = 0;
  releases = 1;
  closers = 0;
  waiters = 0;
  sleeping_waiters = 1;
  marking = 1;
  closes = 1;
}

console_sleeping-Reach : ConsoleReach console_start (record console_start {
  console_state = releasing;
  releasers = 0;
  closers = 0;
  in_release = 1;
  sleeping_closers = 1;
})
console_sleeping-Reach =
    next (next here (release_begin (omega arith) refl refl)) (close_sleep (omega arith) refl)

console_calling-Reach : ConsoleReach console_start console_calling
console_calling-Reach =
    next
      (next
        (next (next console_sleeping-Reach (release_done (omega arith)))
          (close_reserve (omega arith) refl))
        (wait_sleep (omega arith) refl))
      (call (omega arith))

console_closed_once_example :
    (console_calling.closes ≤ 1)
    × (console_calling.releases ≤ 1)
    × (console_calling.in_release + console_calling.launching + console_calling.calling
          + console_calling.marking
        ≤ 1)
console_closed_once_example =
    console_closed_once {a = console_start} {s = console_calling} refl console_calling-Reach

Reach-Settles_example : Settles (Settled (asked_of console_start)) console_calling
Reach-Settles_example =
    Reach-Settles {a = console_start} {s = console_calling} refl console_calling-Reach

windows_close_pseudo_console_now-ConsoleReach_example :
    ConsoleReach
      (record (view windows_world) { closers = 1 })
      (view (result_of (windows_close_pseudo_console_now windows_world)))
unfolding windows_close_pseudo_console_now
windows_close_pseudo_console_now-ConsoleReach_example =
    windows_close_pseudo_console_now-ConsoleReach windows_world refl refl

windows_release_pseudo_console_ownership-Run_example :
    Run
      (record (view windows_world) { releasers = 1 })
      (result_of (windows_release_pseudo_console_ownership windows_os windows_world))
unfolding windows_release_pseudo_console_ownership release_console_now
    windows_start_pseudo_console_close_worker
windows_release_pseudo_console_ownership-Run_example =
    windows_release_pseudo_console_ownership-Run windows_os windows_world refl (omega arith)
      (omega arith) refl

windows_free_options-windows_clone_options_example :
    let c = windows_clone_options (up_to 3) options (some fresh_error) [] in
    Balanced 2 [] 0 (windows_free_options c.owned c.log).0 0
windows_free_options-windows_clone_options_example =
    windows_free_options-windows_clone_options 2 (up_to 3) options (some fresh_error) []

-- A system that keeps a text as it is, and refuses only the job of the program.
abbrev wide_system : System
wide_system = record {
  count = λ text. pos (length text + 1);
  write = λ text units. some text;
  allocated = λ units. true;
}

abbrev process_system : ProcessSystem
process_system = record {
  input_pipe = granted (11, 12);
  output_pipe = granted (13, 14);
  console_result = λ size. pos 0;
  console_handle = 15;
  create_job = granted 16;
  configure_job = none;
  attribute_memory_there = true;
  initialize_list = none;
  update_list = none;
  measured = wide_system;
  copied = wide_system;
  command_memory = true;
  environment_memory = true;
  is_directory = λ path. granted true;
  start_process = λ command environment directory. granted (17, (18, 19));
  assign_job = some 5;
}

windows_create_process-Accounted_example :
    Accounted (windows_create_process process_system options (some fresh_error) no_stats)
windows_create_process-Accounted_example =
    windows_create_process-Accounted process_system options (some fresh_error) no_stats

start_windows_workers-AllStarted_example :
    AllStarted windows_os windows_world (start_windows_workers windows_os windows_world).0
start_windows_workers-AllStarted_example =
    start_windows_workers-AllStarted windows_os windows_world (omega arith) (omega arith) refl

-- The session gets its memory, the bootstrap block does not.
windows_session_start-NotStarted_example : NotStarted 1 [] no_stats (
    windows_session_start windows_os
      (up_to 1)
      208
      96
      true
      (some options)
      true
      (some fresh_error)
      []
      no_stats)
unfolding windows_session_start start_checked size_is_valid allocate_windows_session
    start_windows_session
windows_session_start-NotStarted_example =
    windows_session_start-NotStarted windows_os (up_to 1) 208 96 1 no_stats (omega arith) true
      (some options) true (some fresh_error) [] refl
