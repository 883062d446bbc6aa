-- ===== src/Windows/Writer/Finish.antt =====
-- How a chunk ends in a round of `windows_writer` in src/windows/pty_windows_session.c.
use flutter_pty.Prelude.{
  ℕ, zero, suc, ◌/◌, leb, ◌≤◌, ◌≡◌, refl, ◌∙◌, sym, ap, subst, true, false, ◌&&◌, arith, List, [],
  ◌∷◌, ◌++◌, Option, none, some, inl, inr, Bool-cases, length, take, append_assoc,
}
use flutter_pty.Errors.{PtyError}
use flutter_pty.Events.{writable, input_closed, write_complete}
use flutter_pty.Queue.{Chunk, complete_chunk, pending_bytes}
use flutter_pty.Queue.Invariant.{IsValid, complete_chunk-IsValid}
use flutter_pty.Queue.Consumer.{stream}
use flutter_pty.Windows.World.{WindowsOs, WindowsWorld, on_session, on_platform}
use flutter_pty.Windows.Posting.{
  windows_post_session_event, windows_maybe_post_writable, windows_mark_input_closed,
  windows_closing_reason, windows_take_chunk, windows_finish_chunk, windows_discard_chunks,
  windows_discard_pending_writes,
}
use flutter_pty.Errors.{io}
use flutter_pty.Prelude.Text.{codes}
use flutter_pty.Windows.Closing.{win32_error}
use flutter_pty.Windows.Workers.{
  LoopStep, again, leave, sleep, out_of_fuel, WriteOutcome, written, failed, unfinished,
  writer_finish,
}
use flutter_pty.Windows.Kept.{
  sent, Held, Held-session, Kept, Kept-refl, Kept-trans, windows_post_session_event-Kept,
}
use flutter_pty.Windows.Writer.{Wrote}

-- No chunk was written in part: on Windows the writer takes a chunk once, from its first byte.
abbrev pub AreWhole : List Chunk → Type 0
AreWhole [] = Unit {0}
AreWhole (c ∷ cs) = (c.offset ≡ 0) × AreWhole cs

-- What the writer relies on between two rounds.
pub record Writing (w : WindowsWorld) : Type 0 where
  pub valid : IsValid w.platform.write_queue 0
  pub whole : AreWhole w.platform.write_queue.chunks
  pub held : Held w

-- A round that goes on keeps this, and what went out and what still waits are together as before. One
-- that leaves has sent a part of what waited, in order. One that sleeps has nothing to send.
unfoldable pub RoundOk : WindowsWorld → LoopStep → Type 0
RoundOk w (again w') =
    Writing w'
    × (sent w'.log ++ stream w'.platform.write_queue.chunks
        ≡ sent w.log ++ stream w.platform.write_queue.chunks)
RoundOk w (leave w') =
    (n : ℕ) × (sent w'.log ≡ sent w.log ++ take n (stream w.platform.write_queue.chunks))
RoundOk w sleep = stream w.platform.write_queue.chunks ≡ []
RoundOk w out_of_fuel = true ≡ false

windows_finish_chunk-kept :
    (c : Chunk) (w : WindowsWorld)
    → let w' = windows_finish_chunk c w in
      (w'.session ≡ w.session)
      × (w'.log ≡ w.log)
      × (w'.platform.write_queue ≡ (complete_chunk w.platform.write_queue w.stats c).0)
unfolding windows_finish_chunk
windows_finish_chunk-kept c w = (refl, refl, refl)

windows_discard_chunks-log :
    (rounds : ℕ) (w : WindowsWorld) → (windows_discard_chunks rounds w).log ≡ w.log
unfolding windows_discard_chunks windows_take_chunk windows_finish_chunk
windows_discard_chunks-log zero w = refl
windows_discard_chunks-log (suc rounds) w =
    go (λ v. windows_discard_chunks-log rounds v) (windows_take_chunk w).1 refl
  where
    go :
        ((v : WindowsWorld) → (windows_discard_chunks rounds v).log ≡ v.log)
        → (o : Option Chunk) → (windows_take_chunk w).1 ≡ o
        → (windows_discard_chunks (suc rounds) w).log ≡ w.log
    go rec none e = ground arith
    go rec (some c) e =
        let v = windows_finish_chunk c (windows_take_chunk w).0 in
        let same : windows_discard_chunks (suc rounds) w ≡ windows_discard_chunks rounds v =
          ground arith in
        rw same (rec v)

module _ (os : WindowsOs) where
  pub windows_maybe_post_writable-Kept :
      (w : WindowsWorld) → Held w → let w' = windows_maybe_post_writable os w in Kept w w' × Held w'
  unfolding windows_maybe_post_writable
  windows_maybe_post_writable-Kept w h =
      let v = on_platform (λ p. record p { write_backpressured = false }) w in
      let (kept, held) =
        windows_post_session_event-Kept os writable v
          (record { mine = h.mine; owned = h.owned; few = h.few }) in
      elim (Bool-cases (
        w.platform.write_backpressured
        && leb (pending_bytes w.platform.write_queue) (w.session.input_buffer_limit / 2))) [
          | inl e ↦ rw e (Kept-trans (record { queue = refl; quiet = refl }) kept, held)
          | inr e ↦ rw e (Kept-refl w, h)
        ]

  windows_mark_input_closed-Kept :
      (e : Option PtyError) (w : WindowsWorld)
      → Held w
      → let w' = windows_mark_input_closed os e w in Kept w w' × Held w'
  unfolding windows_mark_input_closed
  windows_mark_input_closed-Kept e w h =
      let v =
        on_session (λ s. record s { input_closed = true })
          (on_platform (λ p. record p { input_closed = true }) w) in
      let (kept, held) =
        windows_post_session_event-Kept os (input_closed (windows_closing_reason os e)) v
          (record { mine = h.mine; owned = h.owned; few = h.few }) in
      elim (Bool-cases w.platform.input_closed) [
        | inl f ↦
            let same : windows_mark_input_closed os e w ≡ w = ground arith in
            rw same (Kept-refl w, h)
        | inr f ↦ rw f (Kept-trans (record { queue = refl; quiet = refl }) kept, held)
      ]

  -- A chunk that the writer has taken, with what still waits behind it.
  pub record Taken (c : Chunk) (cs : List Chunk) (w : WindowsWorld) : Type 0 where
    pub valid : IsValid w.platform.write_queue c.accounted_bytes
    pub behind : w.platform.write_queue.chunks ≡ cs
    pub whole : AreWhole cs
    pub held : Held w

  pub Taken-Kept :
      {c : Chunk} {cs : List Chunk} {w w' : WindowsWorld}
      → Taken c cs w
      → Kept w w'
      → Held w'
      → Taken c cs w'
  Taken-Kept {c} t k h = record {
    valid = subst (λ q. IsValid q c.accounted_bytes) (sym k.queue) t.valid;
    behind = ap (λ q. q.chunks) k.queue ∙ t.behind;
    whole = t.whole;
    held = h;
  }

  -- The end of a chunk that was written.
  finish-Writing :
      (c : Chunk) (cs : List Chunk) (w : WindowsWorld)
      → Taken c cs w
      → let w' = windows_maybe_post_writable os (
          windows_finish_chunk c
            ((windows_post_session_event os (write_complete c.request_id) w).0)) in
        Writing w' × (sent w'.log ≡ sent w.log) × (w'.platform.write_queue.chunks ≡ cs)
  finish-Writing c cs w t =
      let v = (windows_post_session_event os (write_complete c.request_id) w).0 in
      let (kept1, held1) =
        windows_post_session_event-Kept os (write_complete c.request_id) w t.held in
      let t1 = Taken-Kept {c = c} {cs = cs} {w = w} {w' = v} t kept1 held1 in
      let u = windows_finish_chunk c v in
      let (session_same, log_same, queue_is) = windows_finish_chunk-kept c v in
      let (valid1, chunks1) = complete_chunk-IsValid v.platform.write_queue v.stats c t1.valid in
      let held2 = Held-session {w = v} {w' = u} held1 session_same in
      let (kept2, held3) = windows_maybe_post_writable-Kept u held2 in
      let queue_last = kept2.queue ∙ queue_is in
      let chunks_last = ap (λ q. q.chunks) queue_last ∙ (chunks1 ∙ t1.behind) in
      (
        record {
          valid = subst (λ q. IsValid q 0) (sym queue_last) valid1;
          whole = subst AreWhole (sym chunks_last) t.whole;
          held = held3;
        },
        kept2.quiet ∙ (ap sent log_same ∙ kept1.quiet),
        chunks_last,
      )

  -- The end of the writer's loop, on an error.
  fail-sent :
      (rounds error_code : ℕ) (c : Chunk) (w : WindowsWorld)
      → Held w
      → let e = win32_error io error_code (codes "writing ConPTY input failed") in
        sent
          (windows_finish_chunk c
            (windows_discard_pending_writes rounds (windows_mark_input_closed os e w))).log
        ≡ sent w.log
  unfolding windows_discard_pending_writes windows_finish_chunk
  fail-sent rounds error_code c w h =
      let e = win32_error io error_code (codes "writing ConPTY input failed") in
      let v = windows_mark_input_closed os e w in
      let (kept, held) = windows_mark_input_closed-Kept e w h in
      ap sent (windows_discard_chunks-log rounds v) ∙ kept.quiet

  take-front : (n : ℕ) (xs ys : List ℕ) → n ≤ length xs → take n (xs ++ ys) ≡ take n xs
  take-front zero xs ys h = refl
  take-front (suc n) [] ys h = absurd (omega arith)
  take-front (suc n) (x ∷ xs) ys h = ap (◌∷◌ x) (take-front n xs ys (omega arith))

  -- The outcome of a chunk that was taken in `w0`, as the round's.
  pub finish-RoundOk :
      (rounds : ℕ) (c : Chunk) (cs : List Chunk) (w0 w : WindowsWorld) (o : WriteOutcome)
      → c.size ≡ length c.bytes
      → sent w.log ≡ sent w0.log
      → stream w0.platform.write_queue.chunks ≡ c.bytes ++ stream cs
      → Taken c cs w
      → Wrote c 0 w o
      → RoundOk w0 (writer_finish os rounds c o)
  unfolding RoundOk writer_finish Wrote
  finish-RoundOk rounds c cs w0 w (written w') size_is quiet front t g =
      let t1 : Taken c cs w' = record {
        valid = subst (λ p. IsValid p.write_queue c.accounted_bytes) (sym g.platform_kept) t.valid;
        behind = ap (λ p. p.write_queue.chunks) g.platform_kept ∙ t.behind;
        whole = t.whole;
        held = Held-session {w = w} {w' = w'} t.held g.session_kept;
      } in
      let (writing, log_same, chunks_are) = finish-Writing c cs w' t1 in
      (
        writing,
        rw (log_same, chunks_are, g.sent_is, quiet, front)
            (append_assoc (sent w0.log) c.bytes (stream cs)),
      )
  finish-RoundOk rounds c cs w0 w (failed e w') size_is quiet front t (n, g, short) =
      let held1 = Held-session {w = w} {w' = w'} t.held g.session_kept in
      (
        n,
        rw (fail-sent rounds e c w' held1, g.sent_is, quiet, front)
            (ap (λ b. sent w0.log ++ b) (sym (take-front n c.bytes (stream cs) (omega arith)))),
      )
  finish-RoundOk rounds c cs w0 w (unfinished w') size_is quiet front t g = g
