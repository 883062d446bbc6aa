-- ===== src/Tests/Data.antt =====
-- A system that answers, and a session with two chunks to write.
use flutter_pty.Prelude.{
  ℕ, ◌≤◌, ◌≡◌, refl, true, false, List, [], ◌∷◌, some, arith, length, take, ◌==◌,
}
use flutter_pty.Prelude.Int.{ℤ, pos, negsuc}
use flutter_pty.Queue.{Chunk, Queue}
use flutter_pty.Queue.Invariant.{IsValid}
use flutter_pty.Session.{Session, running}
use flutter_pty.Stats.{Stats}
use flutter_pty.Unix.World.{
  Platform, Os, World, Effect, took, rejected, gave, poll_failed, no_report, spawned, no_platform,
  eintr,
}
use flutter_pty.Unix.Frames.{HasRefs}

abbrev pub no_stats : Stats
no_stats = record {
  live_sessions = 1;
  live_read_workers = 1;
  live_write_workers = 0;
  live_wait_workers = 1;
  live_close_workers = 0;
  live_pseudo_console_workers = 0;
  pending_write_chunks = 2;
  pending_write_bytes = 5;
  inflight_write_bytes = 0;
  pseudo_console_close_calls = 0;
  pseudo_console_release_calls = 0;
  pseudo_console_close_worker_calls = 0;
}

-- A `write` that takes two bytes at a time.
abbrev pub take_two : List ℕ → ℕ
take_two [] = 0
take_two (b ∷ []) = 1
take_two (b ∷ c ∷ bs) = 2

pub take_two-le : (bytes : List ℕ) → take_two bytes ≤ length bytes
take_two-le [] = omega arith
take_two-le (b ∷ []) = omega arith
take_two-le (b ∷ c ∷ bs) = omega arith

abbrev pub os : Os
os = record {
  post = λ log e. true;
  create_thread = λ log kind. 0;
  foreground = λ log fd. pos 50;
  kill = λ log target signal. 0;
  write = λ log fd bytes. took (take_two bytes);
  read = λ log fd capacity. gave (take capacity (1 ∷ 2 ∷ 3 ∷ []));
  set_window = λ log fd size. 0;
  poll = λ log watched wanted. poll_failed 5;
  read_exit = λ log fd. no_report;
  spawn = λ log. spawned (pos 7) (pos 8) (pos 40) (pos 9) (pos 10);
  setup = λ log. no_platform 12;
  errno = λ log. 5;
  strerror = λ errno. b'E' ∷ [];
}

-- The same with a port that refuses every event.
abbrev pub refusing : Os
refusing = record os { post = λ log e. false }

pub os-Bounded :
    (log : List Effect) (fd : ℤ) (bytes : List ℕ) (n : ℕ)
    → os.write log fd bytes ≡ took n
    → n ≤ length bytes
os-Bounded log fd bytes n e = ground (arith, take_two-le bytes)

pub os-Calm :
    (log : List Effect) (fd : ℤ) (bytes : List ℕ) (errno : ℕ)
    → os.write log fd bytes ≡ rejected errno
    → (errno == eintr) ≡ false
os-Calm log fd bytes errno e = ground arith

abbrev pub first : Chunk
first = record { bytes = 1 ∷ 2 ∷ 3 ∷ []; size = 3; offset = 0; request_id = 7; accounted_bytes = 0 }

abbrev pub second : Chunk
second = record { bytes = 4 ∷ 5 ∷ []; size = 2; offset = 0; request_id = 8; accounted_bytes = 0 }

abbrev pub two_writes : Queue
two_writes = record {
  chunks = first ∷ second ∷ [];
  limit = 16;
  queued_bytes = 5;
  inflight_bytes = 0;
  initialized = true;
}

pub two_writes-IsValid : IsValid two_writes 0
two_writes-IsValid = record {
  live = refl;
  bounded = omega arith;
  chunks_valid = (
    record { size_is = refl; inside = omega arith; small = omega arith },
    (record { size_is = refl; inside = omega arith; small = omega arith }, tt),
  );
  queued_exact = refl;
  inflight_exact = refl;
  within = omega arith;
}

abbrev pub platform : Platform
platform = record {
  master_fd = pos 7;
  slave_fd = negsuc 0;
  process_id = pos 40;
  exit_fd = pos 9;
  release_fd = pos 10;
  process_released = false;
  wake_read_fd = pos 11;
  wake_write_fd = pos 12;
  reactor_started = true;
  waiter_started = true;
  reactor_done = false;
  waiter_done = false;
  close_started = false;
  close_done = false;
  stopping = false;
  write_backpressured = true;
  discard_output = false;
  output_hung_up = false;
  output_closed = false;
  input_closed = false;
  session_closed_posted = false;
  write_queue = two_writes;
}

abbrev pub session : Session Platform
session = record {
  ref_count = 3;
  lifecycle = running;
  process_exited = false;
  output_closed = false;
  input_closed = false;
  abandoned = false;
  event_port = pos 1;
  input_buffer_limit = 16;
  output_window_limit = 100;
  output_credit = 2;
  platform = some platform;
  has_free_function = true;
}

abbrev pub world : World
world = record { session = session; stats = no_stats; log = [] }

-- The session when its workers are done, and when its program has been released.
abbrev pub ending : World
ending = record world {
  session = record session {
    platform = some (record platform {
      stopping = true;
      reactor_done = true;
      waiter_done = true;
      close_done = true;
    });
  };
}

abbrev pub gone_platform : Platform
gone_platform = record platform { process_released = true }

abbrev pub gone : World
gone = record world { session = record session { platform = some gone_platform } }

pub world-HasRefs : HasRefs world
world-HasRefs = record { enough = omega arith; small = omega arith }

pub ending-HasRefs : HasRefs ending
ending-HasRefs = record { enough = omega arith; small = omega arith }
