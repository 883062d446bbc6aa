-- ===== src/Tests/Common.antt =====
-- The parts of src/common at concrete inputs.
use flutter_pty.Prelude.{◌+◌, ◌≤◌, ◌≡◌, ◌↔◌, refl, true, List, [], ◌∷◌, some, arith}
use flutter_pty.Prelude.Int.{pos}
use flutter_pty.Events.{message, process_exit}
use flutter_pty.Events.Decode.{parse, view, parse-message}
use flutter_pty.Queue.{accepted, try_enqueue, take_first}
use flutter_pty.Queue.Invariant.{
  IsValid, IsHeld, total, try_enqueue-accepted, take_first-IsValid, first-IsHeld,
}
use flutter_pty.Queue.Consumer.{Op, offer, fetch, write, give_back, finish, run, start, Inv}
use flutter_pty.Queue.History.{run-start-Inv}
use flutter_pty.Tests.Data.{no_stats, first, second, two_writes, two_writes-IsValid}

-- Two writes, of which the first is written in two parts with a return to the queue between.
abbrev history : List Op
history =
    offer true (1 ∷ 2 ∷ 3 ∷ []) 7
    ∷ offer true (4 ∷ []) 8
    ∷ fetch
    ∷ write 2
    ∷ give_back
    ∷ fetch
    ∷ write 1
    ∷ finish
    ∷ []

run-start-Inv_example : Inv (run history (start 8 no_stats))
run-start-Inv_example = run-start-Inv history 8 no_stats (omega arith)

try_enqueue-accepted_example :
    ((try_enqueue true two_writes no_stats (some (6 ∷ 7 ∷ [])) 2 9).2 ≡ accepted)
    ↔ (total two_writes.chunks + 0 + 2 ≤ two_writes.limit)
try_enqueue-accepted_example =
    try_enqueue-accepted two_writes no_stats (6 ∷ 7 ∷ []) 2 9 0 two_writes-IsValid (omega arith)

taken-IsValid :
    IsValid
      (take_first two_writes first (second ∷ [])).0
      (take_first two_writes first (second ∷ [])).1.accounted_bytes
taken-IsValid = take_first-IsValid two_writes first (second ∷ []) two_writes-IsValid refl

taken-IsHeld : IsHeld (take_first two_writes first (second ∷ [])).1
taken-IsHeld =
    first-IsHeld two_writes first (second ∷ [])
      (record { size_is = refl; inside = omega arith; small = omega arith })

parse-message_example :
    parse (message (process_exit true (pos 9))) ≡ view (process_exit true (pos 9))
parse-message_example = parse-message (process_exit true (pos 9))
