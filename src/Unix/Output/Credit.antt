-- ===== src/Unix/Output/Credit.antt =====
-- The output credit and the closing of the output in src/unix/pty_unix_session.c.
use flutter_pty.Prelude.{
  ℕ, suc, ◌+◌, ◌≤◌, ◌<◌, ◌≡◌, refl, ap, sym, ◌∙◌, Bool, true, false, arith, List, [], ◌∷◌, Option,
  none, some, inl, inr, length, Bool-cases,
}
use flutter_pty.Prelude.Int.{pos, ltb_ℤ}
use flutter_pty.Prelude.Words.{u64_mod}
use flutter_pty.Events.{Event, output, output_closed}
use flutter_pty.Unix.World.{
  Platform, Os, World, gave, got, did, on_session, on_platform, put_platform,
}
use flutter_pty.Unix.Close.{post_session_event}
use flutter_pty.Unix.Frames.{core, HasRefs, post-Frame}
use flutter_pty.Unix.Output.{
  read_capacity, credit_after_read, is_discarding, mark_output_closed, deliver, read_master,
  read_output,
}

module _ (os : Os) where
  post-output_credit :
      (e : Event) (w : World)
      → HasRefs w
      → (post_session_event os e w).0.session.output_credit ≡ w.session.output_credit
  post-output_credit e w r = ap (λ s. s.output_credit) (post-Frame os e w r).0.session_kept

  closed_flag : Option Platform → Bool
  closed_flag none = true
  closed_flag (some p) = p.output_closed

  closed_flag-core : (pl : Option Platform) → closed_flag (core pl) ≡ closed_flag pl
  unfolding closed_flag
  closed_flag-core none = refl
  closed_flag-core (some p) = refl

  post-closed_flag :
      (e : Event) (w : World)
      → HasRefs w
      → closed_flag (post_session_event os e w).0.session.platform ≡ closed_flag w.session.platform
  post-closed_flag e w r =
      sym (closed_flag-core (post_session_event os e w).0.session.platform)
      ∙ ap (λ s. closed_flag s.platform) (post-Frame os e w r).0.session_kept
      ∙ closed_flag-core w.session.platform

  closed_already : (w : World) → closed_flag w.session.platform ≡ true → mark_output_closed os w ≡ w
  unfolding closed_flag mark_output_closed
  closed_already w e = at w.session.platform refl
    where
      at : (pl : Option Platform) → w.session.platform ≡ pl → mark_output_closed os w ≡ w
      at none k = ground arith
      at (some p) k = ground arith

  closed_after :
      (w : World) → HasRefs w → closed_flag (mark_output_closed os w).session.platform ≡ true
  unfolding closed_flag mark_output_closed
  closed_after w r = at w.session.platform refl
    where
      at :
          (pl : Option Platform)
          → w.session.platform ≡ pl
          → closed_flag (mark_output_closed os w).session.platform ≡ true
      at none k = ground arith
      at (some p) k =
          let w1 =
            on_session (λ s. record s { output_closed = true })
              (put_platform (record p { output_closed = true }) w) in
          let kept : HasRefs w1 = record { enough = r.enough; small = r.small } in
          ground (arith, post-closed_flag output_closed w1 kept)

  -- When the caller holds a reference, closing the output a second time changes nothing, so that
  -- it posts no second event, whatever the port answered to the first.
  pub mark_output_closed_twice :
      (w : World)
      → HasRefs w
      → mark_output_closed os (mark_output_closed os w) ≡ mark_output_closed os w
  mark_output_closed_twice w r = closed_already (mark_output_closed os w) (closed_after w r)

  deliver-credit :
      (bytes : List ℕ) (w : World)
      → HasRefs w
      → is_discarding w ≡ false
      → w.session.output_credit < u64_mod
      → length bytes ≤ w.session.output_credit
      → (deliver os bytes w).0.session.output_credit + length bytes ≡ w.session.output_credit
  unfolding deliver
  deliver-credit bytes w r live small fits = elim (Bool-cases posts.1) [
    | inl took ↦
        let same : (deliver os bytes w).0 ≡ posts.0 = ground arith in
        rw (same, post-output_credit (output bytes) charged kept) (ground arith)
    | inr refused ↦
        let same : (deliver os bytes w).0
            ≡ on_platform (λ p. record p { discard_output = true }) posts.0 =
          ground arith in
        rw (same, credit_kept posts.0, post-output_credit (output bytes) charged kept)
          (ground arith)
  ]
    where
      charged : World
      charged =
          on_session
            (λ s. record s { output_credit = credit_after_read s.output_credit (length bytes) }) w

      kept : HasRefs charged
      kept = record { enough = r.enough; small = r.small }

      posts : World × Bool
      posts = post_session_event os (output bytes) charged

      credit_kept :
          (v : World)
          → (on_platform (λ p. record p { discard_output = true }) v).session.output_credit
            ≡ v.session.output_credit
      credit_kept v = at v.session.platform refl
        where
          at :
              (pl : Option Platform)
              → v.session.platform ≡ pl
              → (on_platform (λ p. record p { discard_output = true }) v).session.output_credit
                ≡ v.session.output_credit
          at none e = ground arith
          at (some p) e = ground arith

  -- For a caller with a reference, while the output is not discarded, the master is open and
  -- there is credit: when a read gets no more bytes than were asked for, the credit falls by
  -- exactly the bytes that it got, whatever becomes of the event that carries them.
  pub read_output-credit :
      (tries : ℕ) (bytes : List ℕ) (p : Platform) (w : World)
      → HasRefs w
      → w.session.platform ≡ some p
      → p.discard_output ≡ false
      → 0 < w.session.output_credit
      → w.session.output_credit < u64_mod
      → ltb_ℤ p.master_fd (pos 0) ≡ false
      → os.read w.log p.master_fd (read_capacity false w.session.output_credit) ≡ gave bytes
      → length bytes ≤ read_capacity false w.session.output_credit
      → (read_output os (suc tries) w).0.session.output_credit + length bytes
        ≡ w.session.output_credit
  unfolding read_output read_master
  read_output-credit tries [] p w r here live some_credit small set answer fits = ground arith
  read_output-credit tries (b ∷ bs) p w r here live some_credit small set answer fits =
      let w1 = did (got (b ∷ bs)) w in
      let kept : HasRefs w1 = record { enough = r.enough; small = r.small } in
      let same : read_output os (suc tries) w ≡ deliver os (b ∷ bs) w1 = ground arith in
      let going : is_discarding w1 ≡ false = ground arith in
      rw same (deliver-credit (b ∷ bs) w1 kept going small (ground arith))
