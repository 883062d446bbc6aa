-- ===== src/Windows/Writer.antt =====
-- The inner loop of `windows_writer` in src/windows/pty_windows_session.c.
pub mod Finish
pub mod Round
use flutter_pty.Prelude.{
  ℕ, zero, suc, ◌+◌, ◌-◌, ◌≤◌, ◌<◌, ◌≡◌, refl, ◌∙◌, ap, Bool, true, false, arith, List, [], ◌∷◌,
  ◌++◌, inl, inr, Bool-cases, ltb, if◌then◌else◌, length, length-take, length-drop, take, drop,
  drop-drop, drop_all, append-nil, append_assoc, take-append-drop, sym,
}
use flutter_pty.Prelude.{take-take, take-then}
use flutter_pty.Queue.{Chunk}
use flutter_pty.Windows.World.{
  WindowsEffect, WindowsOs, WindowsWorld, WriteAnswer, took, rejected, wrote, write_failed, did,
  write_fault,
}
use flutter_pty.Windows.Workers.{
  WriteOutcome, written, failed, unfinished, uint32_max, requested, write_bytes,
}
use flutter_pty.Windows.Kept.{sent}

-- The bytes went out, and nothing else changed.
pub record Only (w w' : WindowsWorld) (out : List ℕ) : Type 0 where
  pub session_kept : w'.session ≡ w.session
  pub platform_kept : w'.platform ≡ w.platform
  pub sent_is : sent w'.log ≡ sent w.log ++ out

-- The outcome of writing the chunk from the offset on: all of it went out, or a part that is short of it.
pub Wrote : Chunk → ℕ → WindowsWorld → WriteOutcome → Type 0
Wrote c offset w (written w') = Only w w' (drop offset c.bytes)
Wrote c offset w (failed _ w') =
    (n : ℕ) × Only w w' (take n (drop offset c.bytes)) × (n < c.size - offset)
Wrote c offset w (unfinished _) = true ≡ false

module _ (os : WindowsOs)
    (bounded : (log : List WindowsEffect) (bytes : List ℕ) (n : ℕ)
      → os.write log bytes ≡ took n
      → n ≤ length bytes) where
  -- What comes after some bytes, seen from before them.
  after :
      (c : Chunk) (offset k : ℕ) (w w1 : WindowsWorld) (o : WriteOutcome)
      → offset + k ≤ c.size
      → Only w w1 (take k (drop offset c.bytes))
      → Wrote c (offset + k) w1 o
      → Wrote c offset w o
  unfolding Wrote
  after c offset k w w1 (written w') h f g =
      let split : drop (offset + k) c.bytes ≡ drop k (drop offset c.bytes) =
        sym (drop-drop offset k c.bytes) in
      record {
        session_kept = g.session_kept ∙ f.session_kept;
        platform_kept = g.platform_kept ∙ f.platform_kept;
        sent_is =
            rw (g.sent_is, f.sent_is, split)
              (simp (append_assoc, take-append-drop k (drop offset c.bytes)));
      }
  after c offset k w w1 (failed e w') h f (n, g, short) =
      let split : drop (offset + k) c.bytes ≡ drop k (drop offset c.bytes) =
        sym (drop-drop offset k c.bytes) in
      (
        k + n,
        record {
          session_kept = g.session_kept ∙ f.session_kept;
          platform_kept = g.platform_kept ∙ f.platform_kept;
          sent_is =
              rw (g.sent_is, f.sent_is, split)
                (simp (append_assoc, take-then k n (drop offset c.bytes)));
        },
        omega (arith, short),
      )
  after c offset k w w1 (unfinished w') h f g = g

  -- A write of `n` bytes takes them from the offset on.
  taken :
      (c : Chunk) (offset n : ℕ)
      → c.size ≡ length c.bytes
      → offset < c.size
      → n ≤ length (requested c offset)
      → (offset + n ≤ c.size) × (take n (requested c offset) ≡ take n (drop offset c.bytes))
  taken c offset n e l h =
      let m = if ltb uint32_max (c.size - offset) then uint32_max else c.size - offset in
      (
        grind (arith, length-take m (drop offset c.bytes), length-drop offset c.bytes),
        take-take n m (drop offset c.bytes) h,
      )

  -- On a chunk that holds the bytes it says, and with a `WriteFile` that takes no more bytes than it is
  -- given, the loop ends within one round more than there are bytes left, whatever `WriteFile`
  -- answers. Either the bytes from the offset on went out, all of them and in order, or the call failed
  -- or took none and a proper part of them did.
  pub write_bytes-Wrote :
      (fuel : ℕ) (c : Chunk) (offset : ℕ) (w : WindowsWorld)
      → c.size ≡ length c.bytes
      → c.size - offset < fuel
      → Wrote c offset w (write_bytes os fuel c offset w)
  unfolding Wrote write_bytes
  write_bytes-Wrote zero c offset w e h = absurd (omega arith)
  write_bytes-Wrote (suc fuel) c offset w e h = elim (Bool-cases (ltb offset c.size)) [
    | inr over ↦
        let same : write_bytes os (suc fuel) c offset w ≡ written w = ground arith in
        let none_left : drop offset c.bytes ≡ [] = drop_all offset c.bytes (ground arith) in
        rw (same, none_left)
          (record {
            session_kept = refl;
            platform_kept = refl;
            sent_is = sym (append-nil (sent w.log));
          })
    | inl more ↦
        answered (ground arith) (λ k w1 l. write_bytes-Wrote fuel c (offset + k) w1 e (grind arith))
          (os.write w.log (requested c offset)) refl
  ]
    where
      answered :
          offset < c.size
          → ((k : ℕ) (w1 : WindowsWorld)
              → 1 ≤ k
              → Wrote c (offset + k) w1 (write_bytes os fuel c (offset + k) w1))
          → (a : WriteAnswer) → os.write w.log (requested c offset) ≡ a
          → Wrote c offset w (write_bytes os (suc fuel) c offset w)
      answered l further (took zero) f =
          let same : write_bytes os (suc fuel) c offset w ≡ failed write_fault (did (wrote []) w) =
            ground arith in
          rw same
            (0, record { session_kept = refl; platform_kept = refl; sent_is = refl }, omega arith)
      answered l further (took (suc n)) f =
          let w1 = did (wrote (take (suc n) (requested c offset))) w in
          let (inside, out) =
            taken c offset (suc n) e l (bounded w.log (requested c offset) (suc n) f) in
          let same : write_bytes os (suc fuel) c offset w
              ≡ write_bytes os fuel c (offset + suc n) w1 =
            ground arith in
          rw same (
            after c offset (suc n) w w1 (write_bytes os fuel c (offset + suc n) w1) inside
              (record {
                session_kept = refl;
                platform_kept = refl;
                sent_is = ap (λ b. sent w.log ++ b) out;
              })
              (further (suc n) w1 (omega arith)))
      answered l further (rejected error_code) f =
          let same : write_bytes os (suc fuel) c offset w
              ≡ failed error_code (did (write_failed error_code) w) =
            ground arith in
          rw same (
            0,
            record {
              session_kept = refl;
              platform_kept = refl;
              sent_is = sym (append-nil (sent w.log));
            },
            omega arith,
          )
