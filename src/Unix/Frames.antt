-- ===== src/Unix/Frames.antt =====
-- What posting an event leaves alone in src/unix/pty_unix_session.c, also when the event is refused
-- and the session is abandoned and closed.
use flutter_pty.Prelude.{
  ℕ, ◌+◌, ◌-◌, ◌≤◌, ◌<◌, ◌^◌, ◌≡◌, refl, ap, ◌∙◌, true, false, arith, Bool-cases, inl, inr, Option,
  none, some, List, [], ◌∷◌, ◌++◌, if◌then◌else◌, ◌||◌, ◌==◌,
}
use flutter_pty.Events.{Event}
use flutter_pty.Session.{
  Session, Lifecycle, starting, running, closing, closed, drop_reference, retain, mark_abandoned,
  mark_closed,
}
use flutter_pty.Stats.{worker_finished, worker_started}
use flutter_pty.Stats
use flutter_pty.Unix.World.{
  Platform, Os, World, Effect, posted, wrote, closer, did, on_stats, on_session, on_platform,
}
use flutter_pty.Unix.Close.{
  release, kill_all, stop_process, maybe_post_session_closed_by, close_platform_by, wake_reactor,
  launch_closer, reserve_close, close_here_by, start_close_worker, begin_close_by, abandon_by,
  post_session_event,
}
use flutter_pty.Unix.Reentry.{quiet, abandoned, stopped, stopped-abandoned, launch_closer-abandoned}

-- The platform without the flags that closing sets.
abbrev pub core : Option Platform → Option Platform
core none = none
core (some p) = some (record p {
  close_started = false;
  close_done = false;
  stopping = false;
  session_closed_posted = false;
})

-- The session without what closing changes.
abbrev pub session_core : Session Platform → Session Platform
session_core s = record s {
  ref_count = 0;
  lifecycle = starting;
  abandoned = false;
  platform = core s.platform;
}

-- The bytes that the master took, oldest first.
abbrev pub written : List Effect → List ℕ
written [] = []
written (wrote bytes ∷ log) = written log ++ bytes
written (_ ∷ log) = written log

-- The session is the same up to what closing changes, and no byte was written.
pub record Frame (w w' : World) : Type 0 where
  pub session_kept : session_core w'.session ≡ session_core w.session
  pub nothing_written : written w'.log ≡ written w.log

pub Frame-refl : (w : World) → Frame w w
Frame-refl w = record { session_kept = refl; nothing_written = refl }

pub Frame-trans : {u v w : World} → Frame u v → Frame v w → Frame u w
Frame-trans f g = record {
  session_kept = g.session_kept ∙ f.session_kept;
  nothing_written = g.nothing_written ∙ f.nothing_written;
}

-- The caller and the session's owner hold a reference each; an abandoned session has lost its
-- owner's.
pub record HasRefs (w : World) : Type 0 where
  pub enough : (if w.session.abandoned then 1 else 2) ≤ w.session.ref_count
  pub small : w.session.ref_count + 2 < 2 ^ 32

-- Giving up a reference that is not the last one.
pub release_kept :
    (w : World)
    → 2 ≤ w.session.ref_count
    → w.session.ref_count < 2 ^ 32
    → release w ≡ on_session (λ s. record s { ref_count = s.ref_count - 1 }) w
unfolding release drop_reference
release_kept w h k = ground arith

module _ (os : Os) where
  stop_process-session : (w : World) → (stop_process os w).session ≡ w.session
  unfolding stop_process kill_all
  stop_process-session w = ground arith

  pub stop_process-Frame : (w : World) → Frame w (stop_process os w)
  unfolding stop_process kill_all
  stop_process-Frame w = ground arith

  maybe_post-Frame : (w : World) → Frame w (maybe_post_session_closed_by os quiet w)
  unfolding maybe_post_session_closed_by mark_closed
  maybe_post-Frame w = ground arith

  maybe_post-refs :
      (w : World)
      → (maybe_post_session_closed_by os quiet w).session.ref_count ≡ w.session.ref_count
  unfolding maybe_post_session_closed_by mark_closed
  maybe_post-refs w = ground arith

  -- The platform is stopped and the process killed, once the two references are given back.
  stopped-Frame :
      (w : World)
      → Frame w (
          wake_reactor (
            stop_process os (on_platform (λ q. record q { stopping = true; close_done = true }) w)))
  stopped-Frame w =
      let v = on_platform (λ q. record q { stopping = true; close_done = true }) w in
      let f : Frame w v = ground arith in
      let g : Frame (stop_process os v) (wake_reactor (stop_process os v)) = record {
        session_kept = refl;
        nothing_written = refl;
      } in
      Frame-trans f (Frame-trans (stop_process-Frame v) g)

  stopped-refs :
      (w : World)
      → (stop_process os
          (on_platform (λ q. record q { stopping = true; close_done = true }) w)).session.ref_count
        ≡ w.session.ref_count
  stopped-refs w =
      ap (λ (s : Session Platform). s.ref_count)
        (stop_process-session
          (on_platform (λ q. record q { stopping = true; close_done = true }) w))
      ∙ ground arith

  -- Closing in place gives back the two references that were taken.
  close_here-Frame :
      (w : World)
      → 3 ≤ w.session.ref_count
      → w.session.ref_count < 2 ^ 32
      → Frame w (close_here_by os quiet w)
        × ((close_here_by os quiet w).session.ref_count ≡ w.session.ref_count - 2)
  unfolding close_here_by worker_finished
  close_here-Frame w h k =
      rw
        (
          release_kept (on_stats (worker_finished Stats.close) w) (omega arith) k,
          release_kept
              (on_session (λ s. record s { ref_count = s.ref_count - 1 })
                (on_stats (worker_finished Stats.close) w))
              (omega arith) (omega arith),
        )
        (
          Frame-trans {v = dropped} (record { session_kept = refl; nothing_written = refl })
              (Frame-trans (stopped-Frame dropped) (maybe_post-Frame (ending dropped))),
          maybe_post-refs (ending dropped) ∙ stopped-refs dropped ∙ omega arith,
        )
    where
      dropped : World
      dropped =
          on_session (λ s. record s { ref_count = w.session.ref_count - 1 - 1 })
            (on_stats (worker_finished Stats.close) w)

      ending : World → World
      ending v =
          wake_reactor
            (stop_process os (on_platform (λ q. record q { stopping = true; close_done = true }) v))

  maybe_post-abandoned :
      (w : World) → abandoned (maybe_post_session_closed_by os quiet w) ≡ abandoned w
  unfolding maybe_post_session_closed_by mark_closed
  maybe_post-abandoned w = ground arith

  close_here-abandoned : (w : World) → abandoned (close_here_by os quiet w) ≡ abandoned w
  unfolding close_here_by
  close_here-abandoned w = maybe_post-abandoned (stopped os w) ∙ stopped-abandoned os w

  launch_closer-Frame :
      (p : Platform) (w : World) → w.session.platform ≡ some p → Frame w (launch_closer os p w)
  unfolding launch_closer reserve_close worker_started retain
  launch_closer-Frame p w e = ground arith

  launch_closer-refs :
      (p : Platform) (w : World)
      → w.session.ref_count + 2 < 2 ^ 32
      → (launch_closer os p w).session.ref_count ≡ w.session.ref_count + 2
  unfolding launch_closer reserve_close retain
  launch_closer-refs p w h = omega arith

  -- What a step of closing keeps: the frame, and the caller's and owner's references.
  record Keeps (w w' : World) : Type 0 where
    frame : Frame w w'
    fewer_not : w.session.ref_count ≤ w'.session.ref_count
    one_more : w'.session.ref_count ≤ w.session.ref_count + 1
    still : w'.session.abandoned ≡ w.session.abandoned

  Keeps-refl : (w : World) → Keeps w w
  Keeps-refl w = record {
    frame = Frame-refl w;
    fewer_not = omega arith;
    one_more = omega arith;
    still = refl;
  }

  -- After a change of what closing may change, the references kept.
  Keeps-again :
      (w w1 : World) {w2 : World}
      → session_core w1.session ≡ session_core w.session
      → w1.session.ref_count ≡ w.session.ref_count
      → (w1.session.abandoned ≡ w.session.abandoned) × (written w1.log ≡ written w.log)
      → Keeps w1 w2
      → Keeps w w2
  Keeps-again w w1 c r (a, l) k = record {
    frame = Frame-trans (record { session_kept = c; nothing_written = l }) k.frame;
    fewer_not = omega (arith, k.fewer_not);
    one_more = omega (arith, k.one_more);
    still = k.still ∙ a;
  }

  start_close_worker-Keeps :
      (p : Platform) (w : World)
      → w.session.platform ≡ some p
      → 1 ≤ w.session.ref_count
      → w.session.ref_count + 2 < 2 ^ 32
      → Keeps w (start_close_worker os quiet p w)
  unfolding start_close_worker
  start_close_worker-Keeps p w e h k = elim (Bool-cases (p.close_started || p.close_done)) [
    | inl busy ↦ rw busy (Keeps-refl w)
    | inr free ↦
        rw free (elim (Bool-cases (os.create_thread (reserve_close os p w).log closer == 0)) [
          | inl made ↦
              rw (made, release_kept l (omega (arith, refs)) (omega (arith, refs)))
                (record {
                  frame =
                      Frame-trans frame (record { session_kept = refl; nothing_written = refl });
                  fewer_not = omega (arith, refs);
                  one_more = omega (arith, refs);
                  still = launch_closer-abandoned os p w;
                })
          | inr failed ↦ rw failed (
              let (f, r) = close_here-Frame l (omega (arith, refs)) (omega (arith, refs)) in
              record {
                frame = Frame-trans frame f;
                fewer_not = omega (arith, refs, r);
                one_more = omega (arith, refs, r);
                still = close_here-abandoned l ∙ launch_closer-abandoned os p w;
              })
        ])
  ]
    where
      l : World
      l = launch_closer os p w

      refs : l.session.ref_count ≡ w.session.ref_count + 2
      refs = launch_closer-refs p w k

      frame : Frame w l
      frame = launch_closer-Frame p w e

  close_platform-Keeps :
      (w : World)
      → 1 ≤ w.session.ref_count
      → w.session.ref_count + 2 < 2 ^ 32
      → Keeps w (close_platform_by os quiet w)
  unfolding close_platform_by
  close_platform-Keeps w h k = at w.session.platform refl
    where
      at : (pl : Option Platform) → w.session.platform ≡ pl → Keeps w (close_platform_by os quiet w)
      at none e =
          let same : close_platform_by os quiet w ≡ w = ground arith in rw same (Keeps-refl w)
      at (some p) e =
          let same : close_platform_by os quiet w ≡ start_close_worker os quiet p w =
            ground arith in
          rw same (start_close_worker-Keeps p w e h k)

  begin_close-Keeps :
      (w : World)
      → 1 ≤ w.session.ref_count
      → w.session.ref_count + 2 < 2 ^ 32
      → Keeps w (begin_close_by os quiet w)
  unfolding begin_close_by
  begin_close-Keeps w h k = at w.session.lifecycle refl
    where
      w1 : World
      w1 = on_session (λ s. record s { lifecycle = closing }) w

      at : (l : Lifecycle) → w.session.lifecycle ≡ l → Keeps w (begin_close_by os quiet w)
      at starting e =
          let same : begin_close_by os quiet w ≡ w1 = ground arith in
          rw same (Keeps-again w w1 refl refl (refl, refl) (Keeps-refl w1))
      at running e =
          let same : begin_close_by os quiet w ≡ close_platform_by os quiet w1 = ground arith in
          rw same (Keeps-again w w1 refl refl (refl, refl) (close_platform-Keeps w1 h k))
      at closing e =
          let same : begin_close_by os quiet w ≡ close_platform_by os quiet w = ground arith in
          rw same (close_platform-Keeps w h k)
      at closed e =
          let same : begin_close_by os quiet w ≡ w = ground arith in rw same (Keeps-refl w)

  abandon-HasRefs :
      (w : World) → HasRefs w → Frame w (abandon_by os quiet w) × HasRefs (abandon_by os quiet w)
  unfolding abandon_by mark_abandoned
  abandon-HasRefs w r = elim (Bool-cases w.session.abandoned) [
    | inl already ↦
        let same : abandon_by os quiet w ≡ w1 = ground arith in
        rw same (record { session_kept = refl; nothing_written = refl }, ground arith)
    | inr first ↦
        let refs : 2 ≤ w.session.ref_count = ground (arith, r.enough) in
        let k = begin_close-Keeps w1 (omega arith) (omega (arith, r.small)) in
        let same : abandon_by os quiet w ≡ release (begin_close_by os quiet w1) = ground arith in
        rw
          (
            same,
            release_kept (begin_close_by os quiet w1) (omega (arith, k.fewer_not))
                (omega (arith, k.one_more, r.small)),
          )
          (
            Frame-trans (record { session_kept = refl; nothing_written = refl })
                (Frame-trans k.frame (record { session_kept = refl; nothing_written = refl })),
            record {
              enough = rw k.still (omega (arith, k.fewer_not));
              small = omega (arith, k.one_more, r.small);
            },
          )
  ]
    where
      w1 : World
      w1 = on_session (λ s. record s { abandoned = true }) w

  -- When the caller holds a reference, posting an event keeps the session but for what closing
  -- changes, whether the event is taken or refused, writes no byte, and leaves the caller its
  -- reference.
  pub post-Frame :
      (e : Event) (w : World)
      → HasRefs w
      → Frame w (post_session_event os e w).0 × HasRefs (post_session_event os e w).0
  unfolding post_session_event
  post-Frame e w r = elim (Bool-cases w.session.abandoned) [
    | inl gone ↦
        let same : (post_session_event os e w).0 ≡ w = ground arith in rw same (Frame-refl w, r)
    | inr live ↦ elim (Bool-cases (os.post w.log e)) [
      | inl took ↦
          let same : (post_session_event os e w).0 ≡ w1 = ground arith in rw same (logged, kept)
      | inr refused ↦
          let same : (post_session_event os e w).0 ≡ abandon_by os quiet w1 = ground arith in
          let (f, refs) = abandon-HasRefs w1 kept in rw same (Frame-trans logged f, refs)
    ]
  ]
    where
      w1 : World
      w1 = did (posted e (os.post w.log e)) w

      logged : Frame w w1
      logged = record { session_kept = refl; nothing_written = refl }

      kept : HasRefs w1
      kept = record { enough = r.enough; small = r.small }
