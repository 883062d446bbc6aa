-- ===== src/Session/Credit.antt =====
-- The output credit of src/pty_internal.h.
use flutter_pty.Prelude.{ℕ, ◌+◌, ◌≡◌, arith}
use Prim.Native.Nat.{min}
use flutter_pty.Session.{output_credit_after_ack}

-- The credit after an acknowledgement is the credit and the acknowledged bytes together, but no
-- more than the window.
pub output_credit_after_ack-min :
    (credit limit byte_count : ℕ)
    → output_credit_after_ack credit limit byte_count ≡ min limit (credit + byte_count)
unfolding output_credit_after_ack
output_credit_after_ack-min credit limit byte_count = ground arith
