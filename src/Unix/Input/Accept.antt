-- ===== src/Unix/Input/Accept.antt =====
-- `pty_session_try_write` of src/unix/pty_unix_session.c for its caller.
use flutter_pty.Prelude.{
  ℕ, ◌+◌, ◌≤◌, ◌<◌, ◌≡◌, ◌↔◌, refl, sym, ◌∙◌, Bool, true, false, ◌||◌, arith, List, Option, none,
  some, inl, inr, leb, ◌==◌, length, Bool-cases,
}
use flutter_pty.Errors.{PtyError}
use flutter_pty.Errors
use flutter_pty.Queue.{Queue, WriteResult, accepted, backpressured, closed, error, try_enqueue}
use flutter_pty.Queue.Invariant.{IsValid, total, try_enqueue-IsValid, try_enqueue-accepted}
use flutter_pty.Session.{lifecycle_code}
use flutter_pty.Unix.World.{Platform, Os, World}
use flutter_pty.Unix.Input.{after_enqueue, raise, try_write}
use flutter_pty.Unix.Input.Steady.{queue_at}

-- The session takes input.
abbrev pub IsOpen : World → Platform → Type 0
IsOpen w p =
    (p.stopping ≡ false) × (p.input_closed ≡ false) × (lifecycle_code w.session.lifecycle < 2)

abbrev pub flag : Option Platform → Bool
flag none = false
flag (some p) = p.write_backpressured

module _ (os : Os) where
  after_enqueue-result :
      (r : WriteResult) (e : Option PtyError) (w : World) → (after_enqueue os r e w).2 ≡ r
  unfolding after_enqueue
  after_enqueue-result accepted e w = refl
  after_enqueue-result backpressured e w = refl
  after_enqueue-result closed e w = refl
  after_enqueue-result error e w = refl

  after_enqueue-queue :
      (r : WriteResult) (e : Option PtyError) (w : World)
      → queue_at (after_enqueue os r e w).0 ≡ queue_at w
  unfolding after_enqueue
  after_enqueue-queue accepted e w = refl
  after_enqueue-queue backpressured e w = refl
  after_enqueue-queue closed e w = refl
  after_enqueue-queue error e w = refl

  try_write-result :
      (a : Bool) (p : Platform) (w : World) (source : List ℕ) (size id : ℕ) (e : Option PtyError)
      → w.session.platform ≡ some p
      → IsOpen w p
      → 0 < size
      → (try_write os a id (some source) size e w).2
        ≡ (try_enqueue a p.write_queue w.stats (some source) size id).2
  unfolding try_write
  try_write-result a p w source size id e here open_ some_bytes = ground (
    arith,
    after_enqueue-result (try_enqueue a p.write_queue w.stats (some source) size id).2
        (Errors.clear e) _,
  )

  -- On an open session whose queue has exact accounting, and with memory at hand, a write of at
  -- least one byte is accepted exactly when the bytes that wait, those in flight and its own fit
  -- into the queue's limit together.
  pub try_write-accepted :
      (p : Platform) (w : World) (source : List ℕ) (size id held : ℕ) (e : Option PtyError)
      → w.session.platform ≡ some p
      → IsOpen w p
      → IsValid p.write_queue held
      → 0 < size
      → ((try_write os true id (some source) size e w).2 ≡ accepted)
        ↔ (total p.write_queue.chunks + held + size ≤ p.write_queue.limit)
  try_write-accepted p w source size id held e here open_ v some_bytes =
      rw (try_write-result true p w source size id e here open_ some_bytes)
        (try_enqueue-accepted p.write_queue w.stats source size id held v some_bytes)

  raise-queue : (r : WriteResult) (p : Platform) → (raise os r p).write_queue ≡ p.write_queue
  unfolding raise
  raise-queue accepted p = refl
  raise-queue backpressured p = refl
  raise-queue closed p = refl
  raise-queue error p = refl

  after_enqueue-flag :
      (r : WriteResult) (e : Option PtyError) (w : World)
      → flag (after_enqueue os r e w).0.session.platform ≡ flag w.session.platform
  unfolding after_enqueue
  after_enqueue-flag accepted e w = refl
  after_enqueue-flag backpressured e w = refl
  after_enqueue-flag closed e w = refl
  after_enqueue-flag error e w = refl

  -- A write of no more bytes than its source has, to a session that may be open or not, whatever
  -- its result, keeps the exact accounting of its queue exact and within the limit.
  pub try_write-IsValid :
      (a : Bool) (p : Platform) (w : World) (source : List ℕ) (size id held : ℕ)
      (e : Option PtyError)
      → w.session.platform ≡ some p
      → IsValid p.write_queue held
      → size ≤ length source
      → (q : Queue) × (queue_at (try_write os a id (some source) size e w).0 ≡ some q)
        × IsValid q held
  unfolding try_write
  try_write-IsValid a p w source size id held e here v fits = elim (Bool-cases shut) [
    | inl out ↦ (p.write_queue, kept_out out, v)
    | inr open_ ↦ elim (Bool-cases (size == 0)) [
      | inl nothing ↦ (p.write_queue, kept_empty nothing, v)
      | inr some_bytes ↦ (
        (try_enqueue a p.write_queue w.stats (some source) size id).0,
        offered_ open_ some_bytes,
        try_enqueue-IsValid a p.write_queue w.stats source size id held v fits,
      )
    ]
  ]
    where
      shut : Bool
      shut = p.stopping || p.input_closed || leb 2 (lifecycle_code w.session.lifecycle)

      after : World
      after = (try_write os a id (some source) size e w).0

      kept_out : shut ≡ true → queue_at after ≡ some p.write_queue
      kept_out out = ground arith

      kept_empty : (size == 0) ≡ true → queue_at after ≡ some p.write_queue
      kept_empty nothing = ground arith

      offered_ :
          shut ≡ false
          → (size == 0) ≡ false
          → queue_at after ≡ some (try_enqueue a p.write_queue w.stats (some source) size id).0
      offered_ open_ some_bytes = ground (
        arith,
        after_enqueue-queue (try_enqueue a p.write_queue w.stats (some source) size id).2
            (Errors.clear e) _,
        raise-queue (try_enqueue a p.write_queue w.stats (some source) size id).2 (record p {
          write_queue = (try_enqueue a p.write_queue w.stats (some source) size id).0;
        }),
      )

  -- A write of at least one byte to an open session that is refused for lack of room leaves the
  -- flag set by which the session is later reported as writable.
  pub try_write-flag :
      (a : Bool) (p : Platform) (w : World) (source : List ℕ) (size id : ℕ) (e : Option PtyError)
      → w.session.platform ≡ some p
      → IsOpen w p
      → 0 < size
      → (try_write os a id (some source) size e w).2 ≡ backpressured
      → flag (try_write os a id (some source) size e w).0.session.platform ≡ true
  unfolding try_write raise
  try_write-flag a p w source size id e here open_ some_bytes full =
      let refused : (try_enqueue a p.write_queue w.stats (some source) size id).2 ≡ backpressured =
        sym (try_write-result a p w source size id e here open_ some_bytes) ∙ full in
      ground (
        arith,
        after_enqueue-flag (try_enqueue a p.write_queue w.stats (some source) size id).2
            (Errors.clear e) _,
      )
