-- ===== src/Unix/Reentry.antt =====
-- How deep `post_session_event` of src/unix/pty_unix_session.c can call itself.
use flutter_pty.Prelude.{ℕ, zero, suc, ◌≡◌, refl, ◌∙◌, Bool, true, false, arith, Option, none, some}
use flutter_pty.Events.{Event, session_closed}
use flutter_pty.Session.{
  Lifecycle, starting, running, closing, closed, drop_reference, retain, mark_abandoned,
  mark_closed,
}
use flutter_pty.Stats.{worker_finished}
use flutter_pty.Stats
use flutter_pty.Unix.World.{
  Platform, Os, World, did, posted, put_platform, on_stats, on_session, on_platform,
}
use flutter_pty.Unix.Close.{
  free_unix_session, release, kill_all, stop_process, maybe_post_session_closed_by,
  close_platform_by, wake_reactor, launch_closer, reserve_close, close_here_by, start_close_worker,
  begin_close_by, abandon_by, post_at,
}

abbrev pub abandoned : World → Bool
abandoned w = w.session.abandoned

-- A call of `post_session_event` on an abandoned session.
abbrev pub quiet : Event → World → World × Bool
quiet e w = (w, false)

pub release-abandoned : (w : World) → abandoned (release w) ≡ abandoned w
unfolding release drop_reference free_unix_session
release-abandoned w = ground arith

module _ (os : Os) where
  post_at-quiet :
      (depth : ℕ) (e : Event) (w : World) → abandoned w ≡ true → post_at os depth e w ≡ quiet e w
  unfolding post_at
  post_at-quiet zero e w h = refl
  post_at-quiet (suc depth) e w h = rw h

  stop_process-abandoned : (w : World) → abandoned (stop_process os w) ≡ abandoned w
  unfolding stop_process kill_all
  stop_process-abandoned w = ground arith

  pub launch_closer-abandoned :
      (p : Platform) (w : World) → abandoned (launch_closer os p w) ≡ abandoned w
  unfolding launch_closer reserve_close retain
  launch_closer-abandoned p w = refl

  -- What `close_here_by` does before it may post.
  abbrev pub stopped : World → World
  stopped w = wake_reactor (
      stop_process os (
        on_platform (λ q. record q { stopping = true; close_done = true })
          (release (release (on_stats (worker_finished Stats.close) w)))))

  on_platform-abandoned :
      (f : Platform → Platform) (w : World) → abandoned (on_platform f w) ≡ abandoned w
  on_platform-abandoned f w = ground arith

  pub stopped-abandoned : (w : World) → abandoned (stopped w) ≡ abandoned w
  stopped-abandoned w =
      stop_process-abandoned _
      ∙ on_platform-abandoned _ _
      ∙ release-abandoned _
      ∙ release-abandoned _

  module _ (post : Event → World → World × Bool)
      (silent : (e : Event) (w : World) → abandoned w ≡ true → post e w ≡ quiet e w) where
    maybe_post-quiet :
        (w : World)
        → abandoned w ≡ true
        → maybe_post_session_closed_by os post w ≡ maybe_post_session_closed_by os quiet w
    unfolding maybe_post_session_closed_by mark_closed
    maybe_post-quiet w h = at w.session.platform refl
      where
        at :
            (pl : Option Platform)
            → w.session.platform ≡ pl
            → maybe_post_session_closed_by os post w ≡ maybe_post_session_closed_by os quiet w
        at none e = rw (e, maybe_post_session_closed_by)
        at (some p) e = rw (
          e,
          maybe_post_session_closed_by,
          silent session_closed
              (on_session mark_closed (put_platform (record p { session_closed_posted = true }) w))
              h,
        )

    close_here-quiet :
        (w : World) → abandoned w ≡ true → close_here_by os post w ≡ close_here_by os quiet w
    unfolding close_here_by
    close_here-quiet w h = maybe_post-quiet (stopped w) (stopped-abandoned w ∙ h)

    start_close_worker-quiet :
        (p : Platform) (w : World)
        → abandoned w ≡ true
        → start_close_worker os post p w ≡ start_close_worker os quiet p w
    unfolding start_close_worker
    start_close_worker-quiet p w h =
        rw (close_here-quiet (launch_closer os p w) (launch_closer-abandoned p w ∙ h))

    close_platform-quiet :
        (w : World)
        → abandoned w ≡ true
        → close_platform_by os post w ≡ close_platform_by os quiet w
    unfolding close_platform_by
    close_platform-quiet w h = at w.session.platform refl (λ p. start_close_worker-quiet p w h)
      where
        at :
            (pl : Option Platform)
            → w.session.platform ≡ pl
            → ((p : Platform) → start_close_worker os post p w ≡ start_close_worker os quiet p w)
            → close_platform_by os post w ≡ close_platform_by os quiet w
        at none e k = rw (e, close_platform_by)
        at (some p) e k = rw (e, close_platform_by) (k p)

    begin_close-quiet :
        (w : World) → abandoned w ≡ true → begin_close_by os post w ≡ begin_close_by os quiet w
    unfolding begin_close_by
    begin_close-quiet w h = at w.session.lifecycle refl
      where
        at :
            (l : Lifecycle)
            → w.session.lifecycle ≡ l
            → begin_close_by os post w ≡ begin_close_by os quiet w
        at starting e = rw (e, begin_close_by)
        at running e = rw (
          e,
          begin_close_by,
          close_platform-quiet (on_session (λ s. record s { lifecycle = closing }) w) h,
        )
        at closing e = rw (e, begin_close_by, close_platform-quiet w h)
        at closed e = rw (e, begin_close_by)

    abandon-quiet : (w : World) → abandon_by os post w ≡ abandon_by os quiet w
    unfolding abandon_by mark_abandoned
    abandon-quiet w =
        rw (begin_close-quiet (on_session (λ s. record s { abandoned = true }) w) refl)

  -- However deep the calls of `post_session_event` may stand one inside the other, the result is
  -- that of one level.
  pub post_at-once :
      (depth : ℕ) (e : Event) (w : World) → post_at os (suc depth) e w ≡ post_at os 1 e w
  unfolding post_at
  post_at-once depth e w = rw (
      abandon-quiet (λ e' w'. post_at os depth e' w') (post_at-quiet depth)
        (did (posted e (os.post w.log e)) w))
