-- ===== src/Examples/Http.antt =====
-- The middleware at concrete requests.
use go_espn_api.Prelude.{◌≡◌, refl, true, false, none, some, [], ◌∷◌, map, Bytes, codes, bytes_eq}
use go_espn_api.Http.Auth.{
  PermissionData, Request, Claims, Validated, claims, extract_token_from_header, find_permissions,
  endpoint, member, auth, rbac, and_then, api_key_required,
}
use go_espn_api.Http.Auth.Laws.{
  IsProtected, token_claims, auth-rbac_guard, auth-empty_claims, api_key_required-Passes, Passes,
}

abbrev admin : Bytes
admin = codes "admin"

abbrev games : Bytes
games = codes "/games"

abbrev rules : PermissionData
rules = record {
  endpoints =
      record { permissions = admin ∷ []; path = games; method = codes "GET"; skip = false } ∷ [];
  skip = false;
}

abbrev same_path : Bytes → Bytes → Bytes
same_path method path = path

abbrev nobody : Claims
nobody = record { subject = []; email = codes "a"; role = admin }

abbrev accept : Bytes → Validated
accept token = claims nobody

abbrev request : Request
request = record {
  method = codes "GET";
  url_path = games;
  authorization = codes "Bearer t";
  api_key = [];
  skip = none;
  user_id = none;
  user_email = none;
  user_role = none;
}

request-IsProtected : IsProtected same_path rules request
unfolding find_permissions bytes_eq
request-IsProtected = record {
  no_skip = refl;
  data_skip = refl;
  endpoint_skip = refl;
  roles = λ e. cc;
}

abbrev signed_in : Request
signed_in = record request {
  user_id = some [];
  user_email = some (codes "a");
  user_role = some admin;
}

auth-rbac_guard_example :
    (c : Claims) × (token_claims accept (extract_token_from_header request.authorization) ≡ some c)
    × (member c.role (endpoint same_path rules request).permissions ≡ true)
    × (signed_in ≡ record request {
      user_id = some c.subject;
      user_email = some c.email;
      user_role = some c.role;
    })
unfolding auth rbac find_permissions bytes_eq extract_token_from_header
auth-rbac_guard_example =
    auth-rbac_guard same_path accept rules request signed_in request-IsProtected refl

auth-empty_claims_example :
    ((auth same_path accept (some rules) request).handed_on ≡ some signed_in)
    × (map (λ w. w.status) (auth same_path accept (some rules) request).written ≡ 401 ∷ [])
unfolding extract_token_from_header find_permissions bytes_eq
auth-empty_claims_example = auth-empty_claims same_path accept rules request nobody refl refl refl

api_key_required-Passes_example : Passes admin request (
    and_then
      (and_then (api_key_required admin request) (auth same_path accept (some rules)))
      (rbac same_path accept (some rules)))
api_key_required-Passes_example =
    api_key_required-Passes same_path accept (some rules) admin request
