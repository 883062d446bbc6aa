-- ===== src/Windows/Final.antt =====
-- The last event of src/windows/pty_windows_session.c, and what no call does any more after the end.
use flutter_pty.Prelude.{
  ℕ, ◌≡◌, refl, ◌∙◌, Bool, true, false, ◌||◌, arith, List, [], ◌∷◌, Option, inl, inr, Bool-cases,
  ◌==◌,
}
use flutter_pty.Errors.{PtyError, Size}
use flutter_pty.Events.{Event, session_closed}
use flutter_pty.Session.{Lifecycle, starting, running, mark_closed, mark_abandoned, drop_reference}
use flutter_pty.Session
use flutter_pty.Stats.{session_finished, worker_finished}
use flutter_pty.Stats
use flutter_pty.Windows.World.{
  posted, WindowsOs, WindowsWorld, did, on_session, on_platform, on_stats, is_null,
}
use flutter_pty.Windows.Closing.{
  Progress, returned, asleep, windows_mark_pseudo_console_closed, close_console, reserve_console,
  windows_wait_for_pseudo_console_close, windows_close_pseudo_console_now, free_memory,
  close_handle, close_handles, windows_free_session, windows_release, windows_stop_process,
}
use flutter_pty.Windows.Posting.{
  CloseStep, settled, unstarted, launch_close_worker, close_without_worker, close_windows_platform,
  begin_windows_close, windows_begin_close_quickly, windows_abandon, windows_post_session_event,
  windows_maybe_post_closed, windows_all_done,
}
use flutter_pty.Windows.Api.{is_shut, windows_resize, windows_kill}

-- Whether SESSION_CLOSED was posted.
abbrev is_final : WindowsWorld → Bool
is_final w = w.platform.session_closed_posted

progress_world : Progress → WindowsWorld
progress_world (returned w) = w
progress_world (asleep w) = w

close_handles-final : (hs : List ℕ) (w : WindowsWorld) → is_final (close_handles hs w) ≡ is_final w
unfolding close_handles
close_handles-final [] w = refl
close_handles-final (h ∷ hs) w =
    close_handles-final hs (close_handle h w)
    ∙ elim (Bool-cases (h == 0)) [ inl e ↦ rw e refl | inr e ↦ rw e refl ]

close_now-final :
    (w : WindowsWorld) → is_final (progress_world (windows_close_pseudo_console_now w)) ≡ is_final w
unfolding progress_world windows_close_pseudo_console_now close_console reserve_console
    windows_mark_pseudo_console_closed windows_wait_for_pseudo_console_close
close_now-final w = ground arith

freed-final :
    (p : Progress)
    → is_final
        (progress_world (elim p [ returned w ↦ returned (free_memory w) | asleep w ↦ asleep w ]))
      ≡ is_final (progress_world p)
unfolding progress_world free_memory
freed-final (returned w) = refl
freed-final (asleep w) = refl

free_session-final :
    (w : WindowsWorld) → is_final (progress_world (windows_free_session w)) ≡ is_final w
unfolding progress_world windows_free_session
free_session-final w = elim (Bool-cases (is_null w.session.platform)) [
  | inl e ↦ rw e refl
  | inr e ↦ rw e (
      let p = w.platform in
      let hs =
        p.reader_thread ∷ p.writer_thread ∷ p.waiter_thread ∷ p.close_thread
        ∷ p.console_close_thread ∷ p.input_write ∷ p.output_read ∷ p.process ∷ p.job ∷ [] in
      freed-final (windows_close_pseudo_console_now (close_handles hs w))
      ∙ (close_now-final (close_handles hs w) ∙ close_handles-final hs w))
]

release-final : (w : WindowsWorld) → is_final (windows_release w) ≡ is_final w
unfolding windows_release progress_world
release-final w =
    let v = on_stats session_finished (record w { session = (drop_reference w.session).0 }) in
    ground (arith, free_session-final v)

module _ (os : WindowsOs) where
  stop_process-final : (w : WindowsWorld) → is_final (windows_stop_process os w) ≡ is_final w
  unfolding windows_stop_process
  stop_process-final w = ground arith

  abbrev step_world : CloseStep → WindowsWorld
  step_world (settled w) = w
  step_world (unstarted w) = w

  close_without_worker-final :
      (w : WindowsWorld) → is_final (close_without_worker os w) ≡ is_final w
  unfolding close_without_worker
  close_without_worker-final w =
      let v = on_stats (worker_finished Stats.close) w in
      let v1 =
        on_platform (λ p. record p { stopping = true; close_done = true })
          (windows_release (windows_release v)) in
      stop_process-final v1 ∙ (release-final (windows_release v) ∙ release-final v)

  close_platform-final :
      (w : WindowsWorld) → is_final (step_world (close_windows_platform os w)) ≡ is_final w
  unfolding close_windows_platform launch_close_worker
  close_platform-final w =
      let l = launch_close_worker os w in
      ground (arith, close_without_worker-final l, release-final l)

  begin_close-final : (w : WindowsWorld) → is_final (windows_begin_close_quickly os w) ≡ is_final w
  unfolding windows_begin_close_quickly begin_windows_close
  begin_close-final w =
      let v = on_session (λ s. record s { lifecycle = Session.closing }) w in
      ground (arith, close_platform-final w, close_platform-final v)

  post-final :
      (e : Event) (w : WindowsWorld) → is_final (windows_post_session_event os e w).0 ≡ is_final w
  unfolding windows_post_session_event windows_abandon mark_abandoned
  post-final e w =
      let v = on_session (λ s. record s { abandoned = true }) (did (posted e false) w) in
      ground (arith, begin_close-final v, release-final (windows_begin_close_quickly os v))

  -- Further events, one after another.
  abbrev pub post_events : List Event → WindowsWorld → WindowsWorld
  post_events [] w = w
  post_events (e ∷ es) w = post_events es (windows_post_session_event os e w).0

  post_events-final :
      (es : List Event) (w : WindowsWorld) → is_final (post_events es w) ≡ is_final w
  post_events-final [] w = refl
  post_events-final (e ∷ es) w =
      post_events-final es (windows_post_session_event os e w).0 ∙ post-final e w

  maybe_post-final :
      (w : WindowsWorld)
      → (windows_all_done os w.platform || is_final w) ≡ true
      → is_final (windows_maybe_post_closed os w) ≡ true
  unfolding windows_maybe_post_closed
  maybe_post-final w h =
      let v =
        on_session mark_closed (on_platform (λ p. record p { session_closed_posted = true }) w) in
      let final = post-final session_closed v in ground (arith, final)

  final-kept : (w : WindowsWorld) → is_final w ≡ true → windows_maybe_post_closed os w ≡ w
  unfolding windows_maybe_post_closed
  final-kept w h = ground arith

  -- After a check on a session that is all done, or whose last event was posted, and after any further
  -- events, posted or refused, a second check changes nothing, so that it posts nothing.
  pub windows_maybe_post_closed_twice :
      (es : List Event) (w : WindowsWorld)
      → (windows_all_done os w.platform || w.platform.session_closed_posted) ≡ true
      → windows_maybe_post_closed os (post_events es (windows_maybe_post_closed os w))
        ≡ post_events es (windows_maybe_post_closed os w)
  windows_maybe_post_closed_twice es w h =
      final-kept (post_events es (windows_maybe_post_closed os w))
        (post_events-final es (windows_maybe_post_closed os w) ∙ maybe_post-final w h)

  -- A call of `pty_session_kill` or `pty_session_resize` on a session that is closed or stopping, and of
  -- `pty_session_kill` after the program's exit, calls nothing of the system and changes nothing.
  pub windows_no_call_after_end :
      (e : Option PtyError) (size : Size) (w : WindowsWorld)
      → ((is_shut w || w.session.process_exited) ≡ true → (windows_kill os e w).0 ≡ w)
        × (is_shut w ≡ true → (windows_resize os size e w).0 ≡ w)
  unfolding windows_kill windows_resize
  windows_no_call_after_end e size w = (λ h. ground arith, λ h. ground arith)
