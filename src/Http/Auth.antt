-- ===== src/Http/Auth.antt =====
-- The middleware of transport/http/middleware/auth.go, with permissions/permission.go and
-- ExtractTokenFromHeader of infras/jwt/jwt.go.
--
-- A middleware is what it writes to the response and the request that it hands on, if it does: it
-- writes before it hands on. Chi's route lookup and the validation of a token are parameters.
pub mod Laws
use go_espn_api.Prelude.{
  ℕ, Bool, true, false, ◌&&◌, ◌||◌, not, Option, none, some, List, [], ◌∷◌, ◌++◌, String, Bytes,
  codes, bytes_eq, is_empty, length, leb, take, drop, if◌then◌else◌,
}
use go_espn_api.Http.Failure.{
  Reply, with_error, unauthorized, unauthorized_with_key, forbidden_error,
}

pub record Permission : Type 0 where
  pub permissions : List Bytes
  pub path : Bytes
  pub method : Bytes
  pub skip : Bool

pub record PermissionData : Type 0 where
  pub endpoints : List Permission
  pub skip : Bool

abbrev pub no_permission : Permission
no_permission = record { permissions = []; path = []; method = []; skip = false }

unfoldable pub find_in : Bytes → Bytes → List Permission → Permission
find_in path method [] = no_permission
find_in path method (p ∷ ps) =
    if bytes_eq p.path path && bytes_eq p.method method then p else find_in path method ps

-- FindPermissions.
unfoldable pub find_permissions : PermissionData → Bytes → Bytes → Permission
unfolding find_in
find_permissions d path method = find_in path method d.endpoints

-- The request, and the values of its context that the middleware sets and reads.
pub record Request : Type 0 where
  pub method : Bytes
  pub url_path : Bytes
  pub authorization : Bytes
  pub api_key : Bytes
  pub skip : Option Bool
  pub user_id : Option Bytes
  pub user_email : Option Bytes
  pub user_role : Option Bytes

pub record Claims : Type 0 where
  pub subject : Bytes
  pub email : Bytes
  pub role : Bytes

-- What ValidateToken returns: the claims, or the text of an error.
pub data Validated : Type 0 where
  claims : Claims → Validated
  invalid : Bytes → Validated

pub record Output : Type 0 where
  pub written : List Reply
  pub handed_on : Option Request

abbrev pub serve_next : Request → Output
serve_next r = record { written = []; handed_on = some r }

abbrev pub answer : Reply → Output
answer w = record { written = w ∷ []; handed_on = none }

-- One middleware around another.
abbrev pub then_on : List Reply → Option Request → (Request → Output) → Output
then_on ws none next = record { written = ws; handed_on = none }
then_on ws (some r) next = record {
  written = ws ++ (next r).written;
  handed_on = (next r).handed_on;
}

abbrev pub and_then : Output → (Request → Output) → Output
and_then o next = then_on o.written o.handed_on next

abbrev pub is_set : Option Bool → Bool
is_set none = false
is_set (some b) = b

abbrev pub text_or_empty : Option Bytes → Bytes
text_or_empty none = []
text_or_empty (some s) = s

abbrev is_prefix : Bytes → Bytes → Bool
is_prefix s t = leb (length s) (length t) && bytes_eq (take (length s) t) s

-- strings.Contains.
unfoldable pub contains : Bytes → Bytes → Bool
contains [] sub = is_empty sub
contains (c ∷ s) sub = is_prefix sub (c ∷ s) || contains s sub

abbrev pub bearer : Bytes
bearer = codes "Bearer "

-- ExtractTokenFromHeader; each error is `none`.
unfoldable pub extract_token_from_header : Bytes → Option Bytes
extract_token_from_header header =
    if is_empty header
    then none
    else if not (leb (length bearer) (length header))
        || not (bytes_eq (take (length bearer) header) bearer)
    then none
    else some (drop (length bearer) header)

-- The switch over the text of the error.
unfoldable pub error_key : Bytes → Bytes
unfolding contains
error_key text =
    if contains text (codes "token_expired")
    then codes "auth.token_expired"
    else if contains text (codes "invalid_token")
    then codes "auth.token_invalid"
    else if contains text (codes "invalid_claim")
    then codes "auth.invalid_claim"
    else if contains text (codes "token_parse_failed")
    then codes "auth.token_invalid"
    else if contains text (codes "token_missing_kid")
    then codes "auth.token_invalid"
    else if contains text (codes "token_invalid_claims")
    then codes "auth.invalid_claim"
    else codes "auth.token_invalid"

abbrev pub member : Bytes → List Bytes → Bool
member s [] = false
member s (t ∷ ts) = bytes_eq t s || member s ts

-- The permission of the endpoint, under the route that Chi finds.
abbrev pub endpoint : (Bytes → Bytes → Bytes) → PermissionData → Request → Permission
endpoint route d r = find_permissions d (route r.method r.url_path) r.method

abbrev pub endpoint_skips : (Bytes → Bytes → Bytes) → Option PermissionData → Request → Bool
endpoint_skips route none r = false
endpoint_skips route (some d) r = (endpoint route d r).skip

module _ (route : Bytes → Bytes → Bytes) (validate : Bytes → Validated)
    (permission : Option PermissionData) where
  -- An empty claim is answered, and the request is handed on.
  abbrev reject_empty : Bytes → List Reply
  reject_empty s = if is_empty s then with_error unauthorized ∷ [] else []

  abbrev after_validation : Validated → Request → Output
  after_validation (invalid text) r = answer (with_error (unauthorized_with_key (error_key text)))
  after_validation (claims c) r = record {
    written = reject_empty c.subject ++ reject_empty c.email;
    handed_on =
        some (record r {
          user_id = some c.subject;
          user_email = some c.email;
          user_role = some c.role;
        });
  }

  abbrev after_header : Option Bytes → Request → Output
  after_header none r = answer (with_error unauthorized)
  after_header (some token) r = after_validation (validate token) r

  -- Auth.
  unfoldable pub auth : Request → Output
  auth r =
      if is_set r.skip
      then serve_next r
      else if endpoint_skips route permission r
      then serve_next r
      else if is_empty r.authorization
      then answer (with_error unauthorized)
      else after_header (extract_token_from_header r.authorization) r

  abbrev check_role : List Bytes → Request → Output
  check_role [] r = serve_next r
  check_role (p ∷ ps) r =
      if member (text_or_empty r.user_role) (p ∷ ps)
      then serve_next r
      else answer (with_error forbidden_error)

  abbrev rbac_with : Option PermissionData → Request → Output
  rbac_with none r = answer (with_error forbidden_error)
  rbac_with (some d) r =
      if d.skip
      then serve_next r
      else if (endpoint route d r).skip
      then serve_next r
      else check_role (endpoint route d r).permissions r

  -- RBAC.
  unfoldable pub rbac : Request → Output
  rbac r = if is_set r.skip then serve_next r else rbac_with permission r

module _ (configured : Bytes) where
  -- APIKeyRequired.
  unfoldable pub api_key_required : Request → Output
  api_key_required r =
      if is_empty r.api_key || not (bytes_eq r.api_key configured)
      then answer (with_error forbidden_error)
      else serve_next (record r { skip = some true })

  -- APIKey.
  unfoldable pub api_key : Request → Output
  api_key r =
      if is_empty r.api_key
      then serve_next (record r { skip = some false })
      else if not (bytes_eq r.api_key configured)
      then answer (with_error forbidden_error)
      else serve_next (record r { skip = some true })
