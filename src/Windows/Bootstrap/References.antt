-- ===== src/Windows/Bootstrap/References.antt =====
-- The references that the workers of src/windows/pty_windows_session.c get from the bootstrap.
use flutter_pty.Prelude.{
  ℕ, ◌+◌, ◌^◌, ◌≤◌, ◌<◌, ◌≡◌, ◌∙◌, ap, Bool, true, false, not, ◌||◌, arith, Option, is_some, ◌==◌,
}
use flutter_pty.Session.{retain}
use flutter_pty.Stats.{WorkerKind, worker_started, worker_finished}
use flutter_pty.Windows.World.{
  WindowsPlatform, WindowsOs, WindowsWorld, WindowsWorker, reader, writer, waiter, thread, did,
  on_session, on_platform, on_stats,
}
use flutter_pty.Stats
use flutter_pty.Windows.Kept.{windows_release-kept}
use flutter_pty.Windows.Bootstrap.{
  start_windows_worker, put_reader, put_writer, put_waiter, start_windows_workers,
}

abbrev pub bit : Bool → ℕ
bit true = 1
bit false = 0

-- A start of a worker from one world to another: the handle that came, and one reference more if it
-- is not 0.
record WorkerStarted (put : ℕ → Bool → WindowsPlatform → WindowsPlatform) (w : WindowsWorld)
    (handle : ℕ) (r : WindowsWorld × Option ℕ) : Type 0 where
  refs : r.0.session.ref_count ≡ w.session.ref_count + bit (not (handle == 0))
  platform_is : r.0.platform ≡ put handle (not (handle == 0)) w.platform
  failed : is_some r.1 ≡ (handle == 0)
  life : r.0.session.lifecycle ≡ w.session.lifecycle

module _ (os : WindowsOs) where
  start_windows_worker-WorkerStarted :
      (kind : WorkerKind) (worker : WindowsWorker)
      (put : ℕ → Bool → WindowsPlatform → WindowsPlatform) (cancels : Bool) (w : WindowsWorld)
      → 1 ≤ w.session.ref_count
      → w.session.ref_count + 1 < 2 ^ 32
      → (handle : ℕ) × WorkerStarted put w handle
          (start_windows_worker os kind worker put cancels w)
  unfolding start_windows_worker retain
  start_windows_worker-WorkerStarted kind worker put cancels w h k =
      let w1 = on_session retain (on_stats (worker_started kind) w) in
      let handle = os.create_thread w1.log worker in
      let w2 = did (thread worker handle) w1 in
      let w3 = on_stats (worker_finished kind) (on_platform (put handle (not (handle == 0))) w2) in
      let kept = windows_release-kept w3 (ground arith) (ground arith) in
      (
        handle,
        record {
          refs = ground (arith, kept);
          platform_is = ground (arith, kept);
          failed = ground arith;
          life = ground (arith, kept);
        },
      )

  -- What three starts come to.
  abbrev pub AllStarted : WindowsWorld → WindowsWorld → Type 0
  AllStarted w w' =
      (w'.session.ref_count
        ≡ w.session.ref_count
          + bit w'.platform.reader_started
          + bit w'.platform.writer_started
          + bit w'.platform.waiter_started)
      × (w'.platform.reader_started ≡ not (w'.platform.reader_thread == 0))
      × (w'.platform.writer_started ≡ not (w'.platform.writer_thread == 0))
      × (w'.platform.waiter_started ≡ not (w'.platform.waiter_thread == 0))
      × (w'.session.lifecycle ≡ w.session.lifecycle)

  three-AllStarted :
      (w : WindowsWorld) (h1 h2 h3 : ℕ) (r1 r2 r3 : WindowsWorld × Option ℕ)
      → (w.platform.reader_started || w.platform.writer_started || w.platform.waiter_started)
        ≡ false
      → WorkerStarted (put_reader os) w h1 r1
      → WorkerStarted (put_writer os) r1.0 h2 r2
      → WorkerStarted (put_waiter os) r2.0 h3 r3
      → AllStarted w r3.0
  three-AllStarted w h1 h2 h3 r1 r2 r3 fresh s1 s2 s3 =
      let placed : r3.0.platform
          ≡ put_waiter os h3 (not (h3 == 0))
              (put_writer os h2 (not (h2 == 0)) (put_reader os h1 (not (h1 == 0)) w.platform)) =
        s3.platform_is
        ∙ ap (λ p. put_waiter os h3 (not (h3 == 0)) p)
            (s2.platform_is ∙ ap (λ p. put_writer os h2 (not (h2 == 0)) p) s1.platform_is) in
      rw (placed, s3.refs, s2.refs, s1.refs)
        (ground arith, ground arith, ground arith, ground arith, s3.life ∙ (s2.life ∙ s1.life))

  -- Starting the workers leaves the references as before and one more for each worker whose thread was
  -- created, and the flag of a worker is set exactly when its handle is there. The life cycle is left
  -- alone.
  pub start_windows_workers-AllStarted :
      (w : WindowsWorld)
      → 1 ≤ w.session.ref_count
      → w.session.ref_count + 3 < 2 ^ 32
      → (w.platform.reader_started || w.platform.writer_started || w.platform.waiter_started)
        ≡ false
      → AllStarted w (start_windows_workers os w).0
  unfolding start_windows_workers
  start_windows_workers-AllStarted w h k fresh =
      let r1 = start_windows_worker os Stats.read reader (put_reader os) true w in
      let (h1, s1) =
        start_windows_worker-WorkerStarted Stats.read reader (put_reader os) true w h
          (omega arith) in
      let r2 = start_windows_worker os Stats.write writer (put_writer os) true r1.0 in
      let (h2, s2) =
        start_windows_worker-WorkerStarted Stats.write writer (put_writer os) true r1.0
          (omega (arith, s1.refs)) (grind (arith, s1.refs)) in
      let r3 = start_windows_worker os Stats.wait waiter (put_waiter os) false r2.0 in
      let (h3, s3) =
        start_windows_worker-WorkerStarted Stats.wait waiter (put_waiter os) false r2.0
          (omega (arith, s1.refs, s2.refs)) (grind (arith, s1.refs, s2.refs)) in
      three-AllStarted w h1 h2 h3 r1 r2 r3 fresh s1 s2 s3
