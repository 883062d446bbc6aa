-- ===== src/Queue/Consumer.antt =====
-- Histories of the write queue of src/common/pty_write_queue.c: callers offer bytes, and one
-- consumer takes the first chunk, writes part of it, and gives it back or completes it, as the
-- reactor does. The histories remember what was accepted and what was written.
use flutter_pty.Prelude.{
  ℕ, ◌+◌, ◌≡◌, Bool, true, false, List, [], ◌∷◌, ◌++◌, Option, none, some, ◌==◌, if◌then◌else◌,
  length, take, drop, ltb,
}
use flutter_pty.Stats.{Stats}
use flutter_pty.Queue.{
  Chunk, Queue, WriteResult, accepted, init, try_enqueue, dequeue, requeue_front, complete_chunk,
}
use flutter_pty.Queue.Invariant.{IsHeld, IsValid, remaining}

pub record System : Type 0 where
  pub queue : Queue
  pub stats : Stats
  pub held : Option Chunk
  -- the bytes and the request ids of all accepted writes, oldest first
  pub offered : List ℕ
  pub tickets : List ℕ
  -- the bytes written and the request ids completed, oldest first
  pub sent : List ℕ
  pub finished : List ℕ

pub data Op : Type 0 where
  offer : (allocated : Bool) (bytes : List ℕ) (request_id : ℕ) → Op
  fetch : Op
  write : (count : ℕ) → Op
  give_back : Op
  finish : Op

abbrev pub is_accepted : WriteResult → Bool
is_accepted accepted = true
is_accepted _ = false

abbrev pub rest : Chunk → List ℕ
rest c = drop c.offset c.bytes

abbrev pub stream : List Chunk → List ℕ
stream [] = []
stream (c ∷ cs) = rest c ++ stream cs

abbrev pub ids : List Chunk → List ℕ
ids [] = []
ids (c ∷ cs) = c.request_id ∷ ids cs

abbrev pub held_chunks : Option Chunk → List Chunk
held_chunks none = []
held_chunks (some c) = c ∷ []

-- A write of no bytes leaves no chunk, so no request to complete.
abbrev pub ticket : List ℕ → ℕ → List ℕ
ticket [] id = []
ticket (b ∷ bs) id = id ∷ []

unfoldable pub do_offer : Bool → List ℕ → ℕ → System → System
do_offer allocated bytes id y =
    let r = try_enqueue allocated y.queue y.stats (some bytes) (length bytes) id in
    if is_accepted r.2
    then record y {
      queue = r.0;
      stats = r.1;
      offered = y.offered ++ bytes;
      tickets = y.tickets ++ ticket bytes id;
    }
    else record y { queue = r.0; stats = r.1 }

-- The consumer fetches only when it holds no chunk.
unfoldable pub do_fetch : Option Chunk → System → System
do_fetch (some c) y = y
do_fetch none y =
    let r = dequeue y.queue y.stats in record y { queue = r.0; stats = r.1; held = r.2 }

-- `chunk->offset += result`, for a write of at most what is left.
unfoldable pub advance : ℕ → Chunk → Chunk
advance n c = record c { offset = c.offset + n }

unfoldable pub do_write : ℕ → Option Chunk → System → System
do_write n none y = y
do_write n (some c) y =
    if ltb (remaining c) n
    then y
    else record y { held = some (advance n c); sent = y.sent ++ take n (rest c) }

unfoldable pub do_give_back : Option Chunk → System → System
do_give_back none y = y
do_give_back (some c) y =
    let r = requeue_front y.queue y.stats c in
    record y { queue = r.0; stats = r.1; held = if is_accepted r.2 then none else some c }

-- Only a chunk that is written to its end is finished.
unfoldable pub do_finish : Option Chunk → System → System
do_finish none y = y
do_finish (some c) y =
    let r = complete_chunk y.queue y.stats c in
    let done = record y {
      queue = r.0;
      stats = r.1;
      held = none;
      finished = y.finished ++ c.request_id ∷ [];
    } in
    if c.offset == c.size then done else y

unfoldable pub step : Op → System → System
unfolding do_offer do_fetch do_write do_give_back do_finish
step (offer a bytes id) y = do_offer a bytes id y
step fetch y = do_fetch y.held y
step (write n) y = do_write n y.held y
step give_back y = do_give_back y.held y
step finish y = do_finish y.held y

unfoldable pub run : List Op → System → System
run [] y = y
run (o ∷ os) y = run os (step o y)

unfoldable pub start : ℕ → Stats → System
start limit s = record {
  queue = init limit;
  stats = s;
  held = none;
  offered = [];
  tickets = [];
  sent = [];
  finished = [];
}

abbrev pub accounted : Option Chunk → ℕ
accounted none = 0
accounted (some c) = c.accounted_bytes

abbrev pub MayHold : Option Chunk → Type 0
MayHold none = Unit {0}
MayHold (some c) = IsHeld c

-- Bytes accepted are those written, then those the consumer holds, then those that wait; and so for
-- the request ids.
pub record Inv (y : System) : Type 0 where
  pub valid : IsValid y.queue (accounted y.held)
  pub holds : MayHold y.held
  pub bytes_kept : y.offered ≡ y.sent ++ stream (held_chunks y.held ++ y.queue.chunks)
  pub ids_kept : y.tickets ≡ y.finished ++ ids (held_chunks y.held ++ y.queue.chunks)
