-- ===== src/Unix/Close/Final.antt =====
-- The last event of a session of src/unix/pty_unix_session.c.
use flutter_pty.Prelude.{
  ◌-◌, ◌≡◌, refl, Bool, true, false, not, ◌&&◌, arith, Option, none, some, inl, inr, Bool-cases,
}
use flutter_pty.Events.{session_closed}
use flutter_pty.Session.{closed, mark_closed, mark_abandoned}
use flutter_pty.Unix.World.{Platform, Os, World, posted, did, on_session, put_platform}
use flutter_pty.Unix.Close.{
  all_done, maybe_post_session_closed_by, maybe_post_session_closed, begin_close_by, abandon_by,
  post_at, post_session_event,
}
use flutter_pty.Unix.Frames.{HasRefs, release_kept}

abbrev pub ready_to_close : World → Bool
ready_to_close w = elim w.session.platform [
  | none ↦ false
  | some p ↦
      p.stopping && p.reactor_done && p.waiter_done && p.close_done && not p.session_closed_posted
]

module _ (os : Os) where
  settled : World → World
  settled w = (post_session_event os session_closed w).0

  settled-not_ready :
      (w : World)
      → HasRefs w
      → w.session.lifecycle ≡ closed
      → ready_to_close w ≡ false
      → ready_to_close (settled w) ≡ false
  unfolding settled post_session_event post_at abandon_by mark_abandoned begin_close_by
  settled-not_ready w r over done = elim (Bool-cases w.session.abandoned) [
    | inl gone ↦ ground arith
    | inr live ↦ elim (Bool-cases (os.post w.log session_closed)) [
      | inl took ↦ ground arith
      | inr refused ↦
          let v =
            on_session (λ s. record s { abandoned = true }) (did (posted session_closed false) w) in
          let same : settled w ≡ on_session (λ s. record s { ref_count = s.ref_count - 1 }) v =
            ground (arith, release_kept v (ground arith) (ground arith)) in
          rw same (ground arith)
    ]
  ]

  not_ready-same : (w : World) → ready_to_close w ≡ false → maybe_post_session_closed os w ≡ w
  unfolding maybe_post_session_closed_by
  not_ready-same w h = at w.session.platform refl
    where
      at : (pl : Option Platform) → w.session.platform ≡ pl → maybe_post_session_closed os w ≡ w
      at none e = ground arith
      at (some p) e = ground arith

  not_ready_after :
      (w : World) → HasRefs w → ready_to_close (maybe_post_session_closed os w) ≡ false
  unfolding maybe_post_session_closed_by mark_closed settled
  not_ready_after w r = at w.session.platform refl
    where
      at :
          (pl : Option Platform)
          → w.session.platform ≡ pl
          → ready_to_close (maybe_post_session_closed os w) ≡ false
      at none e = ground arith
      at (some p) e = elim (Bool-cases (all_done p)) [
        | inl all ↦
            let w1 =
              on_session mark_closed (put_platform (record p { session_closed_posted = true }) w) in
            let kept : HasRefs w1 = record { enough = r.enough; small = r.small } in
            let same : maybe_post_session_closed os w ≡ settled w1 = ground arith in
            rw same (settled-not_ready w1 kept refl (ground arith))
        | inr some_work ↦
            let same : maybe_post_session_closed os w ≡ w = ground arith in rw same (ground arith)
      ]

  -- A second call of `maybe_post_session_closed` right after a first changes nothing, so that it
  -- posts no second last event, whatever the port answered to the first. The caller holds a
  -- reference.
  pub maybe_post_session_closed_twice :
      (w : World)
      → HasRefs w
      → maybe_post_session_closed os (maybe_post_session_closed os w)
        ≡ maybe_post_session_closed os w
  maybe_post_session_closed_twice w r =
      not_ready-same (maybe_post_session_closed os w) (not_ready_after w r)
