-- ===== src/Http/Auth/Laws.antt =====
-- What the middleware lets through.
use go_espn_api.Prelude.{
  ◌≡◌, ◌≢◌, refl, sym, ap, ◌∙◌, ◌⊎◌, inl, inr, Bool, true, false, ◌||◌, not, Option, none, some,
  List, [], ◌∷◌, ◌++◌, Bytes, bytes_eq, bytes_eq_iff, is_empty, arith, if◌then◌else◌, Bool-cases,
  map, codes,
}
use go_espn_api.Http.Failure.{with_error, get_code, get_key, unauthorized}
use go_espn_api.Http.Auth.{
  PermissionData, Request, Claims, Validated, claims, invalid, Output, answer, and_then, is_set,
  extract_token_from_header, member, endpoint, after_header, after_validation, check_role, auth,
  rbac, api_key_required,
}

-- The claims of the token that a request bears, if it is valid.
abbrev valid_claims : Validated → Option Claims
valid_claims (claims c) = some c
valid_claims (invalid text) = none

abbrev pub token_claims : (Bytes → Validated) → Option Bytes → Option Claims
token_claims validate none = none
token_claims validate (some token) = valid_claims (validate token)

none-ne : {A : Type 0} {a : A} → none ≢ some a
none-ne h = cc

-- No skip applies to the request, and its endpoint has a list of roles.
pub record IsProtected (route : Bytes → Bytes → Bytes) (d : PermissionData) (r : Request)
    : Type 0 where
  pub no_skip : is_set r.skip ≡ false
  pub data_skip : d.skip ≡ false
  pub endpoint_skip : (endpoint route d r).skip ≡ false
  pub roles : (endpoint route d r).permissions ≢ []

check_role-member :
    (route : Bytes → Bytes → Bytes) (validate : Bytes → Validated)
    (permission : Option PermissionData) (roles : List Bytes) (r r' : Request) (role : Bytes)
    → roles ≢ []
    → r.user_role ≡ some role
    → (check_role route validate permission roles r).handed_on ≡ some r'
    → (member role roles ≡ true) × (r' ≡ r)
check_role-member route validate permission [] r r' role n u h = absurd (n refl)
check_role-member route validate permission (p ∷ ps) r r' role n u h =
    elim (Bool-cases (member role (p ∷ ps))) [
      | inl y ↦ (y, grind arith)
      | inr y ↦ absurd (grind arith)
    ]

-- Without a skip, the role decides.
rbac-step :
    (route : Bytes → Bytes → Bytes) (validate : Bytes → Validated) (d : PermissionData)
    (r : Request)
    → IsProtected route d r
    → rbac route validate (some d) r
      ≡ check_role route validate (some d) (endpoint route d r).permissions r
unfolding rbac
rbac-step route validate d r p = simp (p.no_skip, p.data_skip, p.endpoint_skip)

-- Without a skip, the header decides.
auth-step :
    (route : Bytes → Bytes → Bytes) (validate : Bytes → Validated) (d : PermissionData)
    (r : Request) (b : Bool)
    → is_set r.skip ≡ false
    → (endpoint route d r).skip ≡ false
    → is_empty r.authorization ≡ b
    → auth route validate (some d) r ≡ (
        if b
        then answer (with_error unauthorized)
        else after_header route validate (some d) (extract_token_from_header r.authorization) r)
unfolding auth
auth-step route validate d r b n s e = simp (n, s, e)

-- What a request with valid claims leads to.
abbrev accepted : Claims → Request → Output
accepted c r = record {
  written =
      (if is_empty c.subject then with_error unauthorized ∷ [] else [])
      ++ (if is_empty c.email then with_error unauthorized ∷ [] else []);
  handed_on =
      some
        (record r { user_id = some c.subject; user_email = some c.email; user_role = some c.role });
}

validated-accepted :
    (route : Bytes → Bytes → Bytes) (validate : Bytes → Validated)
    (permission : Option PermissionData) (v : Validated) (r : Request) (c : Claims)
    → valid_claims v ≡ some c
    → after_validation route validate permission v r ≡ accepted c r
validated-accepted route validate permission (invalid text) r c h = absurd (none-ne h)
validated-accepted route validate permission (claims x) r c h =
    let e : x ≡ c = cc in ap (λ z. accepted z r) e

header-accepted :
    (route : Bytes → Bytes → Bytes) (validate : Bytes → Validated)
    (permission : Option PermissionData) (o : Option Bytes) (r : Request) (c : Claims)
    → token_claims validate o ≡ some c
    → after_header route validate permission o r ≡ accepted c r
header-accepted route validate permission none r c h = absurd (none-ne h)
header-accepted route validate permission (some token) r c h =
    validated-accepted route validate permission (validate token) r c h

extract_token-empty : (h : Bytes) → is_empty h ≡ true → extract_token_from_header h ≡ none
unfolding extract_token_from_header
extract_token-empty h e = rw e

accepted-statuses :
    (c : Claims) (r : Request)
    → map (λ w. w.status) (accepted c r).written
      ≡ (if is_empty c.subject then 401 ∷ [] else []) ++ (if is_empty c.email then 401 ∷ [] else [])
unfolding with_error get_code
accepted-statuses c r = ground arith

rbac-guard :
    (route : Bytes → Bytes → Bytes) (validate : Bytes → Validated) (d : PermissionData)
    (r r' : Request) (role : Bytes)
    → IsProtected route d r
    → r.user_role ≡ some role
    → (rbac route validate (some d) r).handed_on ≡ some r'
    → (member role (endpoint route d r).permissions ≡ true) × (r' ≡ r)
rbac-guard route validate d r r' role p u h =
    check_role-member route validate (some d) (endpoint route d r).permissions r r' role p.roles u
      (sym (ap (λ o. o.handed_on) (rbac-step route validate d r p)) ∙ h)

validated-guard :
    (route : Bytes → Bytes → Bytes) (validate : Bytes → Validated) (d : PermissionData)
    (v : Validated) (r r' : Request)
    → IsProtected route d r
    → (and_then
        (after_validation route validate (some d) v r)
        (rbac route validate (some d))).handed_on
      ≡ some r'
    → (c : Claims) × (valid_claims v ≡ some c)
      × (member c.role (endpoint route d r).permissions ≡ true)
      × (r' ≡ record r {
        user_id = some c.subject;
        user_email = some c.email;
        user_role = some c.role;
      })
validated-guard route validate d (invalid text) r r' p h = absurd cc
validated-guard route validate d (claims c) r r' p h =
    let r2 = record r {
      user_id = some c.subject;
      user_email = some c.email;
      user_role = some c.role;
    } in
    let q : IsProtected route d r2 = record {
      no_skip = p.no_skip;
      data_skip = p.data_skip;
      endpoint_skip = p.endpoint_skip;
      roles = p.roles;
    } in
    let (m, e) = rbac-guard route validate d r2 r' c.role q refl h in (c, refl, m, e)

header-guard :
    (route : Bytes → Bytes → Bytes) (validate : Bytes → Validated) (d : PermissionData)
    (o : Option Bytes) (r r' : Request)
    → IsProtected route d r
    → (and_then (after_header route validate (some d) o r) (rbac route validate (some d))).handed_on
      ≡ some r'
    → (c : Claims) × (token_claims validate o ≡ some c)
      × (member c.role (endpoint route d r).permissions ≡ true)
      × (r' ≡ record r {
        user_id = some c.subject;
        user_email = some c.email;
        user_role = some c.role;
      })
header-guard route validate d none r r' p h = absurd cc
header-guard route validate d (some token) r r' p h =
    validated-guard route validate d (validate token) r r' p h

module _ (route : Bytes → Bytes → Bytes) (validate : Bytes → Validated) (d : PermissionData) where
  -- Authentication before the check of roles: a request to a protected endpoint is handed on only if
  -- it bears a token that is valid, whose role is in the list of the endpoint; and it is handed on
  -- with the claims of that token in its context.
  pub auth-rbac_guard :
      (r r' : Request)
      → IsProtected route d r
      → (and_then (auth route validate (some d) r) (rbac route validate (some d))).handed_on
        ≡ some r'
      → (c : Claims) × (token_claims validate (extract_token_from_header r.authorization) ≡ some c)
        × (member c.role (endpoint route d r).permissions ≡ true)
        × (r' ≡ record r {
          user_id = some c.subject;
          user_email = some c.email;
          user_role = some c.role;
        })
  auth-rbac_guard r r' p h =
      let check = rbac route validate (some d) in
      elim (Bool-cases (is_empty r.authorization)) [
        | inl y ↦ absurd (
            none-ne (
              sym (
                ap (λ o. (and_then o check).handed_on)
                  (auth-step route validate d r true p.no_skip p.endpoint_skip y))
              ∙ h))
        | inr n ↦ header-guard route validate d (extract_token_from_header r.authorization) r r' p (
            sym (
              ap (λ o. (and_then o check).handed_on)
                (auth-step route validate d r false p.no_skip p.endpoint_skip n))
            ∙ h)
      ]

  -- A request without a skip that bears a valid token is handed on, also where the subject or the email
  -- of the token is empty: each of the two that is empty is answered by 401 before.
  pub auth-empty_claims :
      (r : Request) (c : Claims)
      → is_set r.skip ≡ false
      → (endpoint route d r).skip ≡ false
      → token_claims validate (extract_token_from_header r.authorization) ≡ some c
      → ((auth route validate (some d) r).handed_on
          ≡ some (record r {
            user_id = some c.subject;
            user_email = some c.email;
            user_role = some c.role;
          }))
        × (map (λ w. w.status) (auth route validate (some d) r).written
            ≡ (if is_empty c.subject then 401 ∷ [] else [])
              ++ (if is_empty c.email then 401 ∷ [] else []))
  auth-empty_claims r c n e t = elim (Bool-cases (is_empty r.authorization)) [
    | inl y ↦
        absurd
          (none-ne (sym (ap (token_claims validate) (extract_token-empty r.authorization y)) ∙ t))
    | inr a ↦
        let q =
          auth-step route validate d r false n e a
          ∙ header-accepted route validate (some d) (extract_token_from_header r.authorization) r c
              t in
        (ap (λ o. o.handed_on) q, ap (λ o. map (λ w. w.status) o.written) q ∙ accepted-statuses c r)
  ]

key-cases :
    (s k : Bytes)
    → ((s ≢ []) × (s ≡ k) × ((is_empty s || not (bytes_eq s k)) ≡ false))
      ⊎ (((s ≡ []) ⊎ (s ≢ k)) × ((is_empty s || not (bytes_eq s k)) ≡ true))
key-cases [] k = inr (inl refl, refl)
key-cases (c ∷ s) k = elim (Bool-cases (bytes_eq (c ∷ s) k)) [
  | inl y ↦ inl ((λ e. cc), (bytes_eq_iff (c ∷ s) k).0 y, rw y)
  | inr n ↦ inr (inr (λ e. grind (arith, bytes_eq_iff (c ∷ s) k)), rw n)
]

-- Behind APIKeyRequired neither Auth nor RBAC changes anything.
api_key_required-skip :
    (route : Bytes → Bytes → Bytes) (validate : Bytes → Validated)
    (permission : Option PermissionData) (configured : Bytes) (r : Request)
    → and_then
        (and_then (api_key_required configured r) (auth route validate permission))
        (rbac route validate permission)
      ≡ api_key_required configured r
unfolding api_key_required auth rbac
api_key_required-skip route validate permission configured r =
    elim (Bool-cases (is_empty r.api_key || not (bytes_eq r.api_key configured))) [
      | inl y ↦ rw y
      | inr n ↦ rw n
    ]

-- What comes out of the three middlewares for a key that is the configured one, and for another.
pub data Passes (configured : Bytes) (r : Request) (o : Output) : Type 0 where
  admitted :
      r.api_key ≢ []
      → r.api_key ≡ configured
      → o.written ≡ []
      → o.handed_on ≡ some (record r { skip = some true })
      → Passes configured r o
  barred :
      (r.api_key ≡ []) ⊎ (r.api_key ≢ configured)
      → o.written ≡ record { status = 403; key = codes "auth.forbidden" } ∷ []
      → o.handed_on ≡ none
      → Passes configured r o

-- A request behind APIKeyRequired, Auth and RBAC: with the configured key, which is not empty, it is
-- handed on, marked so that the other two write nothing, whatever its token, its route and the roles
-- are; any other request gets the status 403 with the key auth.forbidden once, and goes no further.
pub api_key_required-Passes :
    (route : Bytes → Bytes → Bytes) (validate : Bytes → Validated)
    (permission : Option PermissionData) (configured : Bytes) (r : Request)
    → Passes configured r (
        and_then
          (and_then (api_key_required configured r) (auth route validate permission))
          (rbac route validate permission))
unfolding api_key_required with_error get_code get_key
api_key_required-Passes route validate permission configured r =
    rw (api_key_required-skip route validate permission configured r)
      (elim (key-cases r.api_key configured) [
        | inl (n, e, t) ↦ admitted n e (rw t refl) (rw t refl)
        | inr (e, t) ↦ barred e (rw t refl) (rw t refl)
      ])
