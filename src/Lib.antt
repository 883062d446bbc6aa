-- ===== src/Lib.antt =====
-- A verification library for the native layer of flutter_pty2, the C code in src/ that runs a
-- program on a pseudo terminal and reports to Dart by posted messages.
--
-- The parts, and where the code and the model of each are:
--   Queue      src/common/pty_write_queue.c: the bounded queue of writes. `try_enqueue`, `dequeue`,
--              `requeue_front`, `complete_chunk` and the three counters carry the code's names. The
--              linked chunks are a list. Queue/Invariant has the byte accounting, Queue/Consumer the
--              histories of callers that write and one consumer that takes chunks, Queue/History
--              their invariant.
--   Session    src/pty_internal.h, src/common/pty_refcount.c: the session object with its reference
--              count modulo 2 ^ 32, its life cycle, its flags and its output credit.
--   Stats      src/common/pty_debug_stats.c: the diagnostic counters, which wrap around at 2 ^ 64.
--   Errors     src/common/pty_error.c, src/flutter_pty.h: error values and the check of a size.
--   Events     src/common/pty_event.c: the messages; Events/Decode is their reader in Dart,
--              lib/src/internal/native_event.dart.
--   Windows    src/windows/pty_windows_commandline.c and pty_windows_environment.c: the command line
--              and the environment block for `CreateProcessW`. The reader of Windows/CommandLine/Reader
--              is written from the documented convention of the C runtime. Windows/Wide has
--              `utf8_to_wide`, with the calls of `MultiByteToWideChar` as a record of answers.
--              src/windows/pty_windows_session.c: one session. Windows/World has its state;
--              Windows/Closing stops the process, closes the pseudo console and frees; Windows/Posting
--              posts, closes and abandons; Windows/Workers has the reader, the writer and the waiter,
--              Windows/Api the calls on a session, Windows/Start and Windows/Bootstrap its start.
--              Windows/Writer has the loops of the writer, Windows/Console the threads around the
--              pseudo console, interleaved in any order.
--              src/windows/pty_windows_spawn.c: Windows/Options has the copies of the options,
--              Windows/Process the creation of the program with a log of what is acquired and
--              released.
--   Unix       src/unix/pty_unix_session.c: one session. Unix/World has its state; Unix/Close posts
--              (`post_session_event`), stops, closes, abandons and frees; Unix/Input accepts writes and
--              flushes them (`pty_unix_flush_write_queue`); Unix/Output reads within the credit;
--              Unix/Api has the other calls (resize, kill, signals); Unix/Workers the reactor, the
--              waiter and the close worker; Unix/Start has `pty_session_start` with the memory that it
--              takes, and Unix/Bootstrap the worker that it starts.
--              Unix/Threads has the close of a running session with its threads interleaved, in any
--              order, Unix/Threads/Steps their steps.
--   Unix/Spawn src/unix/pty_unix_spawn.c: the copies of the options (`pty_unix_clone_options`,
--              `pty_unix_free_options`) and the search for the program (`resolve_executable`), with a
--              log of each block that is allocated and freed; `malloc` and `access` are parameters.
--              Unix/Spawn/Descriptors has `close_fds_except`,
--              Unix/Spawn/Transfer `write_fully` and `read_fully`, and Unix/Spawn/Process the
--              parent's part of `pty_unix_spawn` from the opening of the terminal on.
--   Prelude    names shared by all, words that wrap around, integers, lists.
--   Tests      the theorems at concrete inputs.
--
-- How the parts interact: a session owns a platform, which owns a queue. API calls put writes into
-- the queue and wake the reactor, which flushes the queue to the master and reads output while
-- there is credit. Every part reports by `post_session_event`; a refused event abandons and closes
-- the session, which may post again. The workers hold references, and the last one frees the
-- session.
--
-- On Windows a call that would sleep on the condition variable answers so, with the state as it
-- is, and a worker's loop is given as its round. In Windows/Console the threads at one place in
-- the code are counted, and a step is a block under the mutex or a call of the system. Who sleeps
-- there on the condition variable is counted apart, and takes no step until a thread calls
-- `WakeAllConditionVariable` in the code for the console, or one of finitely many wake-ups comes
-- from elsewhere, from the session's other uses of the same variable or without a cause.
--
-- The system is the record `Os` of Unix/World, and `WindowsOs` of Windows/World: each call out of
-- the library (posting, creating a thread, `kill`, `write`, `read`, `poll`, the spawn) answers by
-- a function of the log of all effects so far. What a theorem needs of an answer is its
-- hypothesis. A block between a lock and its unlock is one update. But for Windows/Console and
-- Unix/Threads the calls are those of one thread, without interleavings. In Unix/Threads the state
-- is what the close reads: the flags, the count, and how many threads stand at each place. Any
-- thread may begin to close or abandon the session at any time, also for an event that was refused,
-- and the loops of the reactor and the waiter may end at any time. A call is counted apart from the
-- thread that makes it and waits for it, so the steps allow more than the code does. The life cycle
-- is left out: it is closed only after the last event is marked as posted, and then the close is
-- done, at which a call returns too. A session may be used there after it was freed, by a
-- caller that is overtaken between its test and its retains, and its count goes on from 0. A
-- call that gets no session, and the atomic orderings, have no counterpart. A session that has
-- been freed stays in the state, with `freed` in the log.
--
-- Fuel: the loops of the flush, of the reads that signals interrupt, of the discard and of the
-- reactor take the number of rounds as fuel. A round of the flush takes a chunk, writes at least a
-- byte, ends a chunk or returns, so that the bytes and twice the chunks bound it, signals aside.
-- Nested calls of `post_session_event` take their depth as fuel: the session is abandoned after
-- the first refusal, and an abandoned session posts nothing. The reader of a command line takes
-- the number of arguments. The search for the program takes one round more than the search path
-- has bytes, and each round leaves an entry and its colon behind. The inner loop of the Windows
-- writer takes one round more than the chunk has bytes, of which each round writes one at least;
-- the limit of the queue bounds them.
--
-- Not modelled: in `pty_unix_spawn` the check of the working directory, and what the child, its
-- supervisor and the program do after the fork, but for the descriptors that they close; the
-- threads of a Windows session interleaved, but for the pseudo console, and those of a Unix session,
-- but for its close;
-- memory other than which blocks are held; the queue and the credit under interleavings; the Dart
-- library but for the reader of messages; the vendored Dart headers.
pub mod Prelude
pub mod Stats
pub mod Errors
pub mod Events
pub mod Queue
pub mod Session
pub mod Windows
pub mod Unix
pub mod Tests
