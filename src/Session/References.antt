-- ===== src/Session/References.antt =====
-- The reference count of src/common/pty_refcount.c.
use flutter_pty.Prelude.{
  ℕ, zero, suc, ◌+◌, ◌^◌, ◌≡◌, ◌<◌, ◌≤◌, refl, Bool, true, false, arith, ◌==◌, if◌then◌else◌, ◌∙◌,
}
use flutter_pty.Session.{Session, retain, drop_reference}

module _ {P : Type 0} where
  -- The session after `n` calls of `pty_session_retain`.
  abbrev pub retained : ℕ → Session P → Session P
  retained zero s = s
  retained (suc n) s = retain (retained n s)

  -- The session after `n` calls that give a reference up, and whether one of them was the last.
  abbrev pub dropped : ℕ → Session P → Session P × Bool
  dropped zero s = (s, false)
  dropped (suc n) s =
      let (s1, last) = drop_reference s in
      let (s2, later) = dropped n s1 in (s2, if last then true else later)

  retained-ref_count :
      (n : ℕ) (s : Session P)
      → s.ref_count + n < 2 ^ 32
      → (retained n s).ref_count ≡ s.ref_count + n
  unfolding retain
  retained-ref_count zero s small = omega arith
  retained-ref_count (suc n) s small = ground (arith, retained-ref_count n s)

  dropped-last :
      (k : ℕ) (s : Session P)
      → 0 < s.ref_count
      → s.ref_count < 2 ^ 32
      → k ≤ s.ref_count
      → (dropped k s).1 ≡ (k == s.ref_count)
  unfolding drop_reference
  dropped-last zero s some_refs small within = ground arith
  dropped-last (suc k) s some_refs small within =
      let ih = dropped-last k (drop_reference s).0 in ground (arith, ih)

  -- When a session with references is retained, staying below 2 ^ 32 of them, and then given up
  -- at most as often as there are references, one of these calls reports the last reference
  -- exactly when all references are given up.
  pub dropped-retained :
      (n k : ℕ) (s : Session P)
      → 0 < s.ref_count
      → s.ref_count + n < 2 ^ 32
      → k ≤ s.ref_count + n
      → (dropped k (retained n s)).1 ≡ (k == s.ref_count + n)
  dropped-retained n k s some_refs small within =
      let count = retained-ref_count n s small in
      dropped-last k (retained n s) (omega arith) (omega arith) (omega arith) ∙ rw count refl
