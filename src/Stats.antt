-- ===== src/Stats.antt =====
-- The process-wide diagnostic counters of src/common/pty_debug_stats.c. Each counter is an atomic
-- 64-bit word that additions wrap around; subtracting `n` is adding the word `-n`.
use flutter_pty.Prelude.{ℕ, Option, none, some}
use flutter_pty.Prelude.Words.{add64, sub64}

pub record Stats : Type 0 where
  pub live_sessions : ℕ
  pub live_read_workers : ℕ
  pub live_write_workers : ℕ
  pub live_wait_workers : ℕ
  pub live_close_workers : ℕ
  pub live_pseudo_console_workers : ℕ
  pub pending_write_chunks : ℕ
  pub pending_write_bytes : ℕ
  pub inflight_write_bytes : ℕ
  pub pseudo_console_close_calls : ℕ
  pub pseudo_console_release_calls : ℕ
  pub pseudo_console_close_worker_calls : ℕ

pub data WorkerKind : Type 0 where
  read write wait close pseudo_console : WorkerKind

-- `add_counter(counter, amount)`
abbrev add_counter : ℕ → ℕ → ℕ
add_counter counter amount = add64 counter amount

-- The word `(uint64_t)-amount`.
abbrev minus : ℕ → ℕ
minus amount = sub64 0 amount

-- `worker_counter` chooses the counter that `add_counter` changes.
abbrev pub add_worker : WorkerKind → ℕ → Stats → Stats
add_worker read n s = record s { live_read_workers = add_counter s.live_read_workers n }
add_worker write n s = record s { live_write_workers = add_counter s.live_write_workers n }
add_worker wait n s = record s { live_wait_workers = add_counter s.live_wait_workers n }
add_worker close n s = record s { live_close_workers = add_counter s.live_close_workers n }
add_worker pseudo_console n s = record s {
  live_pseudo_console_workers = add_counter s.live_pseudo_console_workers n;
}

unfoldable pub worker_started : WorkerKind → Stats → Stats
worker_started kind = add_worker kind 1

unfoldable pub worker_finished : WorkerKind → Stats → Stats
worker_finished kind = add_worker kind (minus 1)

unfoldable pub session_started : Stats → Stats
session_started s = record s { live_sessions = add_counter s.live_sessions 1 }

unfoldable pub session_finished : Stats → Stats
session_finished s = record s { live_sessions = add_counter s.live_sessions (minus 1) }

unfoldable pub pending_write_enqueued : ℕ → Stats → Stats
pending_write_enqueued bytes s = record s {
  pending_write_chunks = add_counter s.pending_write_chunks 1;
  pending_write_bytes = add_counter s.pending_write_bytes bytes;
}

unfoldable pub pending_write_started : ℕ → Stats → Stats
pending_write_started bytes s = record s {
  pending_write_bytes = add_counter s.pending_write_bytes (minus bytes);
  inflight_write_bytes = add_counter s.inflight_write_bytes bytes;
}

unfoldable pub pending_write_requeued : ℕ → ℕ → Stats → Stats
pending_write_requeued inflight_bytes queued_bytes s = record s {
  inflight_write_bytes = add_counter s.inflight_write_bytes (minus inflight_bytes);
  pending_write_bytes = add_counter s.pending_write_bytes queued_bytes;
}

unfoldable pub pending_write_completed : ℕ → Stats → Stats
pending_write_completed bytes s = record s {
  pending_write_chunks = add_counter s.pending_write_chunks (minus 1);
  inflight_write_bytes = add_counter s.inflight_write_bytes (minus bytes);
}

unfoldable pub pending_write_discarded : ℕ → Stats → Stats
pending_write_discarded bytes s = record s {
  pending_write_chunks = add_counter s.pending_write_chunks (minus 1);
  pending_write_bytes = add_counter s.pending_write_bytes (minus bytes);
}

unfoldable pub pseudo_console_close : Stats → Stats
pseudo_console_close s = record s {
  pseudo_console_close_calls = add_counter s.pseudo_console_close_calls 1;
}

unfoldable pub pseudo_console_release : Stats → Stats
pseudo_console_release s = record s {
  pseudo_console_release_calls = add_counter s.pseudo_console_release_calls 1;
}

unfoldable pub pseudo_console_close_worker : Stats → Stats
pseudo_console_close_worker s = record s {
  pseudo_console_close_worker_calls = add_counter s.pseudo_console_close_worker_calls 1;
}

-- `pty_debug_get_stats` copies one counter after the other; `none` is a null pointer.
unfoldable pub get_stats : Option Stats → Stats → Option Stats
get_stats none s = none
get_stats (some out) s = some s
