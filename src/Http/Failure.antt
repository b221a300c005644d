-- ===== src/Http/Failure.antt =====
-- Failures of shared/failure/failure.go, and the status and the key that response.WithError answers.
use go_espn_api.Prelude.{ℕ, ◌||◌, Bytes, codes, is_empty, ◌==◌, if◌then◌else◌}

-- What errors.As finds in an error: a ValidationError, a Failure with its code and its key, or neither.
pub data Failure : Type 0 where
  validation : ℕ → Failure
  failure : ℕ → Bytes → Failure
  other : Failure

-- GetCode.
unfoldable pub get_code : Failure → ℕ
get_code (validation code) = code
get_code (failure code key) = code
get_code other = 500

-- The key of a failure without one.
abbrev default_key : ℕ → Bytes
default_key code =
    if code == 422 || code == 400
    then codes "validation.failed"
    else if code == 404
    then codes "resource.not_found"
    else if code == 401
    then codes "auth.unauthorized"
    else if code == 403
    then codes "auth.forbidden"
    else codes "server.internal_error"

-- GetKey.
unfoldable pub get_key : Failure → Bytes
get_key (validation code) = codes "validation.failed"
get_key (failure code key) = if is_empty key then default_key code else key
get_key other = codes "server.internal_error"

-- The status and the error key of a response.
pub record Reply : Type 0 where
  pub status : ℕ
  pub key : Bytes

-- WithError, for an error without field errors.
unfoldable pub with_error : Failure → Reply
with_error f = record { status = get_code f; key = get_key f }

-- Unauthorized, UnauthorizedWithKey and ForbiddenError.
abbrev pub unauthorized : Failure
unauthorized = failure 401 (codes "")

abbrev pub unauthorized_with_key : Bytes → Failure
unauthorized_with_key key = failure 401 key

abbrev pub forbidden_error : Failure
forbidden_error = failure 403 (codes "auth.forbidden")
