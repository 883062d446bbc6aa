-- ===== src/Errors.antt =====
-- Error values and the size check of src/common/pty_error.c, with the enumerations of
-- src/flutter_pty.h. A C string is the list of its bytes before the terminator.
use flutter_pty.Prelude.{ℕ, Bool, ◌&&◌, List, [], ◌++◌, ◌-◌, Option, none, some, ◌∷◌, take}
use flutter_pty.Prelude.Int.{ℤ, pos, leb_ℤ}

-- `PtyErrorDomain`
pub data Domain : Type 0 where
  no_domain posix win32 hresult internal_domain : Domain

-- `PtyErrorKind`
pub data Kind : Type 0 where
  no_error invalid_argument not_found permission_denied spawn_failed working_directory io : Kind
  closed unsupported out_of_memory internal : Kind

-- The values of the enumerations.
abbrev pub domain_code : Domain → ℕ
domain_code no_domain = 0
domain_code posix = 1
domain_code win32 = 2
domain_code hresult = 3
domain_code internal_domain = 4

abbrev pub kind_code : Kind → ℕ
kind_code no_error = 0
kind_code invalid_argument = 1
kind_code not_found = 2
kind_code permission_denied = 3
kind_code spawn_failed = 4
kind_code working_directory = 5
kind_code io = 6
kind_code closed = 7
kind_code unsupported = 8
kind_code out_of_memory = 9
kind_code internal = 10

-- `PtyError`
pub record PtyError : Type 0 where
  pub domain : Domain
  pub kind : Kind
  pub os_code : ℤ
  pub message : List ℕ

-- `sizeof(error->message)`
abbrev pub message_size : ℕ
message_size = 256

-- `sizeof(detail)`
abbrev pub detail_size : ℕ
detail_size = 256

-- `snprintf(buffer, size, "%s", text)`: what fits into the buffer before the terminator.
abbrev pub snprintf : ℕ → List ℕ → List ℕ
snprintf size text = take (size - 1) text

-- An error pointer may be NULL, here `none`: nothing is stored then.
unfoldable pub clear : Option PtyError → Option PtyError
clear none = none
clear (some e) =
    some (record { domain = no_domain; kind = no_error; os_code = pos 0; message = [] })

unfoldable pub set : Option PtyError → Domain → Kind → ℤ → Option (List ℕ) → Option PtyError
set none dom kind os_code message = none
set (some e) dom kind os_code none =
    some (record { domain = dom; kind = kind; os_code = os_code; message = [] })
set (some e) dom kind os_code (some message) = some (record {
  domain = dom;
  kind = kind;
  os_code = os_code;
  message = snprintf message_size message;
})

-- The text of `detail`. `strerror` is the C library's.
unfoldable pub detail : (ℕ → List ℕ) → ℕ → Option (List ℕ) → List ℕ
detail strerror error_number none = snprintf detail_size (strerror error_number)
detail strerror error_number (some []) = snprintf detail_size (strerror error_number)
detail strerror error_number (some (b ∷ bs)) =
    snprintf detail_size ((b ∷ bs) ++ b':' ∷ b' ' ∷ strerror error_number)

unfoldable pub set_errno :
    (ℕ → List ℕ) → Option PtyError → Kind → ℕ → Option (List ℕ) → Option PtyError
set_errno strerror e kind error_number message =
    set e posix kind (pos error_number) (some (detail strerror error_number message))

-- `PtySize`
pub record Size : Type 0 where
  pub rows : ℤ
  pub columns : ℤ
  pub pixel_width : ℤ
  pub pixel_height : ℤ

unfoldable pub size_is_valid : Size → Bool
size_is_valid z =
    leb_ℤ (pos 1) z.rows
    && leb_ℤ z.rows (pos 0x7fff)
    && leb_ℤ (pos 1) z.columns
    && leb_ℤ z.columns (pos 0x7fff)
    && leb_ℤ (pos 0) z.pixel_width
    && leb_ℤ z.pixel_width (pos 0xffff)
    && leb_ℤ (pos 0) z.pixel_height
    && leb_ℤ z.pixel_height (pos 0xffff)
