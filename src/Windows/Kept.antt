-- ===== src/Windows/Kept.antt =====
-- What posting an event leaves alone, in src/windows/pty_windows_session.c.
use flutter_pty.Prelude.{
  ℕ, ◌+◌, ◌-◌, ◌^◌, ◌≤◌, ◌<◌, ◌≡◌, refl, sym, subst, ◌∙◌, true, false, arith, List, [], ◌∷◌, ◌++◌,
  inl, inr, Bool-cases, ◌==◌, ◌||◌,
}
use flutter_pty.Events.{Event}
use flutter_pty.Session.{
  Session, starting, running, retain, drop_reference, mark_abandoned, mark_closed,
}
use flutter_pty.Session
use flutter_pty.Stats.{worker_started, worker_finished}
use flutter_pty.Stats
use flutter_pty.Windows.World.{
  WindowsEffect, posted, WindowsOs, WindowsWorld, wrote, did, on_session, on_platform, on_stats,
  is_null,
}
use flutter_pty.Windows.Closing.{windows_release, windows_stop_process}
use flutter_pty.Windows.Posting.{
  CloseStep, settled, unstarted, launch_close_worker, close_without_worker, close_windows_platform,
  begin_windows_close, windows_begin_close_quickly, windows_abandon, windows_post_session_event,
}

-- The bytes that went to the program, in order.
abbrev pub sent : List WindowsEffect → List ℕ
sent [] = []
sent (wrote bytes ∷ log) = sent log ++ bytes
sent (_ ∷ log) = sent log

-- The caller holds a reference, and the owner another, until the session is abandoned.
pub record Held (w : WindowsWorld) : Type 0 where
  pub mine : 1 ≤ w.session.ref_count
  pub owned : w.session.abandoned ≡ false → 2 ≤ w.session.ref_count
  pub few : w.session.abandoned ≡ false → w.session.ref_count + 2 < 2 ^ 32

pub Held-session : {w w' : WindowsWorld} → Held w → w'.session ≡ w.session → Held w'
Held-session h e = record {
  mine = subst (λ s. 1 ≤ s.ref_count) (sym e) h.mine;
  owned = subst (λ s. s.abandoned ≡ false → 2 ≤ s.ref_count) (sym e) h.owned;
  few = subst (λ s. s.abandoned ≡ false → s.ref_count + 2 < 2 ^ 32) (sym e) h.few;
}

-- The queue is the same, and nothing was written.
pub record Kept (w w' : WindowsWorld) : Type 0 where
  pub queue : w'.platform.write_queue ≡ w.platform.write_queue
  pub quiet : sent w'.log ≡ sent w.log

pub Kept-refl : (w : WindowsWorld) → Kept w w
Kept-refl w = record { queue = refl; quiet = refl }

pub Kept-trans : {u v w : WindowsWorld} → Kept u v → Kept v w → Kept u w
Kept-trans f g = record { queue = g.queue ∙ f.queue; quiet = g.quiet ∙ f.quiet }

pub windows_release-kept :
    (w : WindowsWorld)
    → 2 ≤ w.session.ref_count
    → w.session.ref_count < 2 ^ 32
    → windows_release w ≡ on_session (λ s. record s { ref_count = s.ref_count - 1 }) w
unfolding windows_release drop_reference
windows_release-kept w h k = ground arith

module _ (os : WindowsOs) where
  windows_stop_process-Kept : (w : WindowsWorld) → Kept w (windows_stop_process os w)
  unfolding windows_stop_process
  windows_stop_process-Kept w = ground arith

  windows_stop_process-session :
      (w : WindowsWorld) → (windows_stop_process os w).session ≡ w.session
  unfolding windows_stop_process
  windows_stop_process-session w = ground arith

  -- Closing keeps the queue and the caller's references, and adds one at most.
  record Shut (w w' : WindowsWorld) : Type 0 where
    kept : Kept w w'
    no_fewer : w.session.ref_count ≤ w'.session.ref_count
    one_more : w'.session.ref_count ≤ w.session.ref_count + 1
    still : w'.session.abandoned ≡ w.session.abandoned

  abbrev world_of : CloseStep → WindowsWorld
  world_of (settled w) = w
  world_of (unstarted w) = w

  launch-Shut :
      (w : WindowsWorld)
      → w.session.ref_count + 2 < 2 ^ 32
      → let l = launch_close_worker os w in
        Kept w l
        × (l.session.ref_count ≡ w.session.ref_count + 2)
        × (l.session.abandoned ≡ w.session.abandoned)
  unfolding launch_close_worker retain
  launch-Shut w h = ground arith

  close_without_worker-Shut :
      (w : WindowsWorld)
      → 3 ≤ w.session.ref_count
      → w.session.ref_count < 2 ^ 32
      → let l = close_without_worker os w in
        Kept w l
        × (l.session.ref_count + 2 ≡ w.session.ref_count)
        × (l.session.abandoned ≡ w.session.abandoned)
  unfolding close_without_worker
  close_without_worker-Shut w h k =
      let v = on_stats (worker_finished Stats.close) w in
      let v1 = on_session (λ s. record s { ref_count = s.ref_count - 1 }) v in
      let stop =
        on_platform (λ p. record p { stopping = true; close_done = true })
          (on_session (λ s. record s { ref_count = s.ref_count - 1 }) v1) in
      let st = windows_stop_process-Kept stop in
      rw
        (
          windows_release-kept v (omega arith) k,
          windows_release-kept v1 (omega arith) (omega arith),
        )
        (
          Kept-trans (record { queue = refl; quiet = refl }) st,
          rw (windows_stop_process-session stop) (omega arith),
          rw (windows_stop_process-session stop) refl,
        )

  close_windows_platform-Shut :
      (w : WindowsWorld)
      → 1 ≤ w.session.ref_count
      → w.session.ref_count + 2 < 2 ^ 32
      → Shut w (world_of (close_windows_platform os w))
  unfolding close_windows_platform
  close_windows_platform-Shut w h k =
      let l = launch_close_worker os w in
      let (kept, refs, still) = launch-Shut w k in
      elim (Bool-cases
        (is_null w.session.platform || w.platform.close_started || w.platform.close_done)) [
          | inl out ↦ rw out (record {
            kept = Kept-refl w;
            no_fewer = omega arith;
            one_more = omega arith;
            still = refl;
          })
          | inr go ↦ rw go (elim (Bool-cases (l.platform.close_thread == 0)) [
            | inl none_made ↦
                let (kept1, refs1, still1) =
                  close_without_worker-Shut l (omega (arith, refs)) (omega (arith, refs)) in
                rw none_made (record {
                  kept = Kept-trans kept kept1;
                  no_fewer = omega (arith, refs, refs1);
                  one_more = omega (arith, refs, refs1);
                  still = still1 ∙ still;
                })
            | inr made ↦
                rw (made, windows_release-kept l (omega (arith, refs)) (omega (arith, refs)))
                  (record {
                    kept = Kept-trans kept (record { queue = refl; quiet = refl });
                    no_fewer = omega (arith, refs);
                    one_more = omega (arith, refs);
                    still = still;
                  })
          ])
        ]

  quickly-world :
      (w : WindowsWorld) → windows_begin_close_quickly os w ≡ world_of (begin_windows_close os w)
  unfolding windows_begin_close_quickly
  quickly-world w = ground arith

  begin-Shut :
      (w : WindowsWorld)
      → 1 ≤ w.session.ref_count
      → w.session.ref_count + 2 < 2 ^ 32
      → Shut w (world_of (begin_windows_close os w))
  unfolding begin_windows_close
  begin-Shut w h k = at w.session.lifecycle refl
    where
      plain : (v : WindowsWorld) → Shut v v
      plain v = record {
        kept = Kept-refl v;
        no_fewer = omega arith;
        one_more = omega arith;
        still = refl;
      }

      closing_w : WindowsWorld
      closing_w = on_session (λ s. record s { lifecycle = Session.closing }) w

      at :
          (life : Session.Lifecycle)
          → w.session.lifecycle ≡ life
          → Shut w (world_of (begin_windows_close os w))
      at starting e = ground arith
      at running e =
          let same : begin_windows_close os w ≡ close_windows_platform os closing_w =
            ground arith in
          let c = close_windows_platform-Shut closing_w h k in
          rw same (record {
            kept = Kept-trans (record { queue = refl; quiet = refl }) c.kept;
            no_fewer = c.no_fewer;
            one_more = c.one_more;
            still = c.still;
          })
      at Session.closing e =
          let same : begin_windows_close os w ≡ close_windows_platform os w = ground arith in
          rw same (close_windows_platform-Shut w h k)
      at Session.closed e =
          let same : begin_windows_close os w ≡ settled w = ground arith in rw same (plain w)

  -- Posting an event, taken or refused, keeps the queue, writes nothing, and leaves the caller its
  -- reference.
  pub windows_post_session_event-Kept :
      (e : Event) (w : WindowsWorld)
      → Held w
      → let w' = (windows_post_session_event os e w).0 in Kept w w' × Held w'
  unfolding windows_post_session_event windows_abandon mark_abandoned
  windows_post_session_event-Kept e w r = elim (Bool-cases w.session.abandoned) [
    | inl gone ↦
        let same : (windows_post_session_event os e w).0 ≡ w = ground arith in
        rw same (Kept-refl w, r)
    | inr live ↦ elim (Bool-cases (os.post w.log e)) [
      | inl took ↦
          let same : (windows_post_session_event os e w).0 ≡ did (posted e true) w = ground arith in
          rw same (
            record { queue = refl; quiet = refl },
            record { mine = r.mine; owned = r.owned; few = r.few },
          )
      | inr refused ↦
          let v = on_session (λ s. record s { abandoned = true }) (did (posted e false) w) in
          let b = world_of (begin_windows_close os v) in
          let c = begin-Shut v r.mine (r.few live) in
          let rest =
            windows_release-kept b (omega (arith, c.no_fewer, r.owned live))
              (omega (arith, c.one_more, r.few live)) in
          let same : (windows_post_session_event os e w).0 ≡ windows_release b =
            ground (arith, quickly-world v) in
          let gone : b.session.abandoned ≡ true = c.still in
          rw (same, rest)
            (
              Kept-trans (record { queue = refl; quiet = refl })
                  (Kept-trans c.kept (record { queue = refl; quiet = refl })),
              record {
                mine = omega (arith, c.no_fewer, r.owned live);
                owned = λ h. ground arith;
                few = λ h. ground arith;
              },
            )
    ]
  ]
