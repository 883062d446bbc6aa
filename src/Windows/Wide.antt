-- ===== src/Windows/Wide.antt =====
-- `utf8_to_wide` of src/windows/pty_windows_commandline.c and, word for word, of
-- src/windows/pty_windows_environment.c.
use flutter_pty.Prelude.{ℕ, Bool, List, Option, none, some, if◌then◌else◌, not}
use flutter_pty.Prelude.Int.{ℤ, pos, pos_part, leb_ℤ}

-- The two calls of `MultiByteToWideChar`: the first counts the units of a text with its terminator,
-- the second writes them, the terminator left out here; both answer with no positive number, or
-- `none`, for a text that is not UTF-8. `allocated` says whether `malloc` gives so many units.
pub record System : Type 0 where
  pub count : List ℕ → ℤ
  pub write : List ℕ → (units : ℕ) → Option (List ℕ)
  pub allocated : (units : ℕ) → Bool

-- `none` is a null pointer, as an argument and as the result.
unfoldable pub utf8_to_wide : System → Option (List ℕ) → Option (List ℕ)
utf8_to_wide y none = none
utf8_to_wide y (some text) =
    let units = pos_part (y.count text) in
    if leb_ℤ (y.count text) (pos 0)
    then none
    else if not (y.allocated units)
    then none
    else y.write text units
