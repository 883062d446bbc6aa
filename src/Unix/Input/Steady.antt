-- ===== src/Unix/Input/Steady.antt =====
-- What posting leaves of the write queue in src/unix/pty_unix_session.c.
use flutter_pty.Prelude.{
  ◌≡◌, refl, ap, sym, ◌∙◌, true, false, arith, Option, none, some, Bool-cases, inl, inr, leb, ◌/◌,
  ◌&&◌,
}
use flutter_pty.Errors.{PtyError}
use flutter_pty.Events.{Event, writable, input_closed}
use flutter_pty.Queue.{Queue, pending_bytes}
use flutter_pty.Session.{Session}
use flutter_pty.Unix.World.{Platform, Os, World, on_session, put_platform}
use flutter_pty.Unix.Close.{post_session_event}
use flutter_pty.Unix.Frames.{core, written, Frame, HasRefs, post-Frame}
use flutter_pty.Unix.Input.{maybe_post_writable, mark_input_closed, closing_reason}

abbrev pub queue_of : Option Platform → Option Queue
queue_of none = none
queue_of (some p) = some p.write_queue

abbrev pub queue_at : World → Option Queue
queue_at w = queue_of w.session.platform

-- The queue is the same, no byte was written, and the caller keeps its reference.
pub record Steady (w w' : World) : Type 0 where
  pub queue_kept : queue_at w' ≡ queue_at w
  pub nothing_written : written w'.log ≡ written w.log
  pub refs : HasRefs w'

pub Steady-trans : {u v w : World} → Steady u v → Steady v w → Steady u w
Steady-trans f g = record {
  queue_kept = g.queue_kept ∙ f.queue_kept;
  nothing_written = g.nothing_written ∙ f.nothing_written;
  refs = g.refs;
}

pub Steady-refl : (w : World) → HasRefs w → Steady w w
Steady-refl w r = record { queue_kept = refl; nothing_written = refl; refs = r }

queue_of-core : (pl : Option Platform) → queue_of (core pl) ≡ queue_of pl
queue_of-core none = refl
queue_of-core (some p) = refl

Frame-queue_at : {w w' : World} → Frame w w' → queue_at w' ≡ queue_at w
Frame-queue_at {w} {w'} f =
    sym (queue_of-core w'.session.platform)
    ∙ ap (λ (s : Session Platform). queue_of s.platform) f.session_kept
    ∙ queue_of-core w.session.platform

module _ (os : Os) where
  pub post-Steady : (e : Event) (w : World) → HasRefs w → Steady w (post_session_event os e w).0
  post-Steady e w r =
      let (f, refs) = post-Frame os e w r in
      record { queue_kept = Frame-queue_at f; nothing_written = f.nothing_written; refs = refs }

  pub maybe_post_writable-Steady : (w : World) → HasRefs w → Steady w (maybe_post_writable os w)
  unfolding maybe_post_writable
  maybe_post_writable-Steady w r = at w.session.platform refl
    where
      at : (pl : Option Platform) → w.session.platform ≡ pl → Steady w (maybe_post_writable os w)
      at none e =
          let same : maybe_post_writable os w ≡ w = ground arith in rw same (Steady-refl w r)
      at (some p) e =
          let w1 = put_platform (record p { write_backpressured = false }) w in
          elim (Bool-cases (
            p.write_backpressured
            && leb (pending_bytes p.write_queue) (w.session.input_buffer_limit / 2))) [
              | inl due ↦
                  let same : maybe_post_writable os w ≡ (post_session_event os writable w1).0 =
                    ground arith in
                  let kept : HasRefs w1 = record { enough = r.enough; small = r.small } in
                  let cleared : Steady w w1 = record {
                    queue_kept = ground arith;
                    nothing_written = refl;
                    refs = kept;
                  } in
                  rw same (Steady-trans cleared (post-Steady writable w1 kept))
              | inr not_due ↦
                  let same : maybe_post_writable os w ≡ w = ground arith in
                  rw same (Steady-refl w r)
            ]

  pub mark_input_closed-Steady :
      (reason : Option PtyError) (w : World) → HasRefs w → Steady w (mark_input_closed os reason w)
  unfolding mark_input_closed
  mark_input_closed-Steady reason w r = at w.session.platform refl
    where
      at :
          (pl : Option Platform)
          → w.session.platform ≡ pl
          → Steady w (mark_input_closed os reason w)
      at none e =
          let same : mark_input_closed os reason w ≡ w = ground arith in rw same (Steady-refl w r)
      at (some p) e =
          let w1 =
            on_session (λ s. record s { input_closed = true })
              (put_platform (record p { input_closed = true }) w) in
          elim (Bool-cases p.input_closed) [
            | inl before ↦
                let same : mark_input_closed os reason w ≡ w = ground arith in
                rw same (Steady-refl w r)
            | inr first ↦
                let same : mark_input_closed os reason w
                    ≡ (post_session_event os (input_closed (closing_reason os reason)) w1).0 =
                  ground arith in
                let kept : HasRefs w1 = record { enough = r.enough; small = r.small } in
                let marked : Steady w w1 = record {
                  queue_kept = ground arith;
                  nothing_written = refl;
                  refs = kept;
                } in
                rw same (
                  Steady-trans marked
                    (post-Steady (input_closed (closing_reason os reason)) w1 kept))
          ]
