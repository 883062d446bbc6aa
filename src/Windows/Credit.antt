-- ===== src/Windows/Credit.antt =====
-- The credit of the reader of src/windows/pty_windows_session.c.
use flutter_pty.Prelude.{
  ℕ, ◌+◌, ◌≤◌, ◌<◌, ◌≡◌, refl, true, false, not, ◌&&◌, arith, List, [], ◌∷◌, inl, inr, Bool-cases,
  ◌==◌, length,
}
use flutter_pty.Events.{Event, output}
use flutter_pty.Windows.World.{
  WindowsEffect, got, posted, ReadAnswer, gave, broke, WindowsOs, WindowsWorld, did, on_session,
}
use flutter_pty.Windows.Posting.{windows_post_session_event}
use flutter_pty.Windows.Workers.{
  LoopStep, again, leave, sleep, out_of_fuel, windows_read_capacity, windows_charge, reader_deliver,
  reader_answer, reader_round,
}

-- The bytes read from the console so far.
abbrev pub received : List WindowsEffect → ℕ
received [] = 0
received (got bytes ∷ log) = received log + length bytes
received (_ ∷ log) = received log

-- What a round of the reader does to the credit.
unfoldable pub Charged : WindowsWorld → LoopStep → Type 0
Charged w (again w') =
    (w'.session.output_credit + received w'.log ≡ w.session.output_credit + received w.log)
    × (received w.log < received w'.log)
Charged w (leave w') = Unit {0}
Charged w sleep = (w.session.output_credit ≡ 0) × (w.platform.stopping ≡ false)
Charged w out_of_fuel = true ≡ false

module _ (os : WindowsOs)
    (bounded : (log : List WindowsEffect) (capacity : ℕ) (bytes : List ℕ)
      → os.read log capacity ≡ gave bytes
      → length bytes ≤ capacity) where
  post-taken :
      (e : Event) (w : WindowsWorld)
      → (windows_post_session_event os e w).1 ≡ true
      → (windows_post_session_event os e w).0 ≡ did (posted e true) w
  unfolding windows_post_session_event
  post-taken e w h = ground arith

  deliver-Charged :
      (bytes : List ℕ) (w : WindowsWorld)
      → w.platform.discard_output ≡ false
      → 1 ≤ length bytes
      → length bytes ≤ w.session.output_credit
      → Charged w (reader_deliver os bytes (did (got bytes) w))
  unfolding Charged reader_deliver
  deliver-Charged bytes w kept some_bytes fits =
      let v = did (got bytes) w in
      let c =
        on_session (λ s. record s { output_credit = windows_charge s.output_credit (length bytes) })
          v in
      let r = windows_post_session_event os (output bytes) c in
      elim (Bool-cases r.1) [
        | inl ok ↦
            let same : reader_deliver os bytes v ≡ again (did (posted (output bytes) true) c) =
              ground (arith, post-taken (output bytes) c ok) in
            rw same (ground arith)
        | inr bad ↦ let same : reader_deliver os bytes v ≡ leave r.0 = ground arith in rw same tt
      ]

  answer-Charged :
      (a : ReadAnswer) (w : WindowsWorld)
      → w.platform.discard_output ≡ false
      → ((bytes : List ℕ) → a ≡ gave bytes → length bytes ≤ w.session.output_credit)
      → Charged w (reader_answer os a w)
  unfolding Charged reader_answer
  answer-Charged (gave []) w kept fits = tt
  answer-Charged (broke error_code) w kept fits = tt
  answer-Charged (gave (b ∷ bs)) w kept fits =
      deliver-Charged (b ∷ bs) w kept (omega arith) (fits (b ∷ bs) refl)

  -- For a `ReadFile` that gives no more bytes than it is asked for, and while output is not discarded:
  -- a round of the reader that goes on has read at least one byte and takes from the credit exactly
  -- the number of bytes that it read, so that it reads no more than the credit allows. A round sleeps
  -- only while there is no credit and the session is not stopping.
  pub reader_round-Charged :
      (w : WindowsWorld) → w.platform.discard_output ≡ false → Charged w (reader_round os w)
  unfolding reader_round Charged
  reader_round-Charged w kept =
      let p = w.platform in
      elim (Bool-cases (w.session.output_credit == 0 && not p.discard_output && not p.stopping)) [
        | inl idle ↦
            let same : reader_round os w ≡ sleep = ground arith in
            rw same (ground arith, ground arith)
        | inr busy ↦ elim (Bool-cases p.stopping) [
          | inl stop ↦ let same : reader_round os w ≡ leave w = ground arith in rw same tt
          | inr go ↦
              let capacity = windows_read_capacity p.discard_output w.session.output_credit in
              let a = os.read w.log capacity in
              let same : reader_round os w ≡ reader_answer os a w = ground arith in
              rw same (
                answer-Charged a w kept (λ bytes e. ground (arith, bounded w.log capacity bytes e)))
        ]
      ]
