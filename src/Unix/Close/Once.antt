-- ===== src/Unix/Close/Once.antt =====
-- Closing a session of src/unix/pty_unix_session.c more than once.
use flutter_pty.Prelude.{
  ◌-◌, ◌≡◌, refl, arith, List, Option, none, some, inl, inr, ◌||◌, Bool-cases,
}
use flutter_pty.Session.{Lifecycle, starting, running, closing, closed, retain}
use flutter_pty.Unix.World.{Platform, Os, World, Effect, closer, on_session}
use flutter_pty.Unix.Close.{
  release, reserve_close, launch_closer, start_close_worker, close_platform_by, begin_close_by,
  begin_close, post_session_event,
}
use flutter_pty.Unix.Frames.{HasRefs, release_kept}

module _ (os : Os) where
  launched :
      (p : Platform) (w : World)
      → HasRefs w
      → release (launch_closer os p w)
        ≡ on_session (λ s. record s { ref_count = s.ref_count - 1 }) (launch_closer os p w)
  unfolding launch_closer reserve_close retain
  launched p w r = release_kept (launch_closer os p w) (ground arith) (ground arith)

  close_platform_again :
      (w : World)
      → HasRefs w
      → w.session.lifecycle ≡ closing
      → ((log : List Effect) → os.create_thread log closer ≡ 0)
      → begin_close os (close_platform_by os (post_session_event os) w)
        ≡ close_platform_by os (post_session_event os) w
  unfolding begin_close_by close_platform_by start_close_worker launch_closer reserve_close retain
  close_platform_again w r ending created = at w.session.platform refl
    where
      at :
          (pl : Option Platform)
          → w.session.platform ≡ pl
          → begin_close os (close_platform_by os (post_session_event os) w)
            ≡ close_platform_by os (post_session_event os) w
      at none e = ground arith
      at (some p) e = elim (Bool-cases (p.close_started || p.close_done)) [
        | inl under_way ↦
            let same : close_platform_by os (post_session_event os) w ≡ w = ground arith in
            rw same (ground arith)
        | inr first ↦
            let same : close_platform_by os (post_session_event os) w
                ≡ release (launch_closer os p w) =
              ground (arith, created (reserve_close os p w).log) in
            rw (same, launched p w r) (ground arith)
      ]

  -- When the close worker can be created, the caller holds a reference, and a session that is
  -- starting has no platform yet, closing a second time right after the first changes nothing: no
  -- second close worker, no further reference.
  pub begin_close_twice :
      (w : World)
      → HasRefs w
      → (w.session.lifecycle ≡ starting → w.session.platform ≡ none)
      → ((log : List Effect) → os.create_thread log closer ≡ 0)
      → begin_close os (begin_close os w) ≡ begin_close os w
  unfolding begin_close_by close_platform_by
  begin_close_twice w r not_starting created = at w.session.lifecycle refl
    where
      ending : World
      ending = on_session (λ s. record s { lifecycle = closing }) w

      kept : HasRefs ending
      kept = record { enough = r.enough; small = r.small }

      at :
          (l : Lifecycle)
          → w.session.lifecycle ≡ l
          → begin_close os (begin_close os w) ≡ begin_close os w
      at starting e = let nothing = not_starting e in ground arith
      at running e =
          let same : begin_close os w ≡ close_platform_by os (post_session_event os) ending =
            ground arith in
          rw same (close_platform_again ending kept refl created)
      at closing e =
          let same : begin_close os w ≡ close_platform_by os (post_session_event os) w =
            ground arith in
          rw same (close_platform_again w r e created)
      at closed e = ground arith
