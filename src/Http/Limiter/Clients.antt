-- ===== src/Http/Limiter/Clients.antt =====
-- The limit of each client, by the address and the agent of its requests.
use mathlib.Core.Path.{subst}
use go_espn_api.Prelude.{
  ℕ, suc, ◌-◌, ◌≡◌, ◌≢◌, refl, ap, sym, ◌∙◌, Bool, true, false, ◌&&◌, List, [], ◌∷◌, ◌++◌, Bytes,
  codes, bytes_eq, is_empty, ◌==◌, if◌then◌else◌, Bool-cases, inl, inr, arith, All, Lacks, Trims,
  Cuts, trim_space, trim_space-Trims, cut_before, cut_after, cut-Cuts,
}
use go_espn_api.Http.Limiter.{
  Got, hit, get_failed, Requester, LimitConfig, get_ua, first_ip, get_client_ip, limit_key, Limited,
  rate_limits,
}
use go_espn_api.Http.Limiter.Laws.{
  used, is_admitted, smaller, requests_of, admitted_of, rate_limits-admitted,
}

-- The address of a request: what stands before the first comma of X-Forwarded-For, or all of that
-- header where it begins with a comma; without that header X-Real-IP; and the remote address without
-- either. White space around a header's text does not count.
pub data IsAddress (c : Requester) (address : Bytes) : Type 0 where
  forwarded :
      (first rest : Bytes)
      → Cuts b',' c.forwarded_for first rest
      → first ≢ []
      → Trims first address
      → IsAddress c address
  forwarded_whole :
      (rest : Bytes)
      → c.forwarded_for ≡ b',' ∷ rest
      → Trims c.forwarded_for address
      → IsAddress c address
  real : c.forwarded_for ≡ [] → c.real_ip ≢ [] → Trims c.real_ip address → IsAddress c address
  remote : c.forwarded_for ≡ [] → c.real_ip ≡ [] → address ≡ c.remote_addr → IsAddress c address

-- The agent of a request, or "unknown".
pub data IsAgent (c : Requester) (agent : Bytes) : Type 0 where
  told : c.user_agent ≢ [] → agent ≡ c.user_agent → IsAgent c agent
  untold : c.user_agent ≡ [] → agent ≡ codes "unknown" → IsAgent c agent

get_ua_text : (c : Requester) (text : Bytes) → c.user_agent ≡ text → IsAgent c (get_ua c)
unfolding get_ua
get_ua_text c [] e = untold e (rw e refl)
get_ua_text c (a ∷ s) e = told (λ n. cc) (rw e refl)

first_ip_whole : (a : ℕ) (s : Bytes) → (a == b',') ≡ true → first_ip (a ∷ s) ≡ trim_space (a ∷ s)
unfolding first_ip
first_ip_whole a s y = rw y refl

first_ip_cut :
    (a : ℕ) (s : Bytes)
    → (a == b',') ≡ false
    → first_ip (a ∷ s) ≡ trim_space (cut_before b',' (a ∷ s))
unfolding first_ip
first_ip_cut a s n = rw n refl

cut_before-some : (a : ℕ) (s : Bytes) → (a == b',') ≡ false → cut_before b',' (a ∷ s) ≢ []
unfolding cut_before
cut_before-some a s n = rw n (λ h. cc)

first_ip-IsAddress :
    (c : Requester) (a : ℕ) (s : Bytes) → c.forwarded_for ≡ a ∷ s → IsAddress c (first_ip (a ∷ s))
first_ip-IsAddress c a s e = elim (Bool-cases (a == b',')) [
  | inl y ↦
      let f : a ≡ b',' = ground arith in
      subst (IsAddress c) (sym (first_ip_whole a s y)) (
        forwarded_whole s (e ∙ ap (λ z. z ∷ s) f)
          (subst (λ z. Trims z (trim_space (a ∷ s))) (sym e) (trim_space-Trims (a ∷ s))))
  | inr n ↦
      let first = cut_before b',' (a ∷ s) in
      let rest = cut_after b',' (a ∷ s) in
      subst (IsAddress c) (sym (first_ip_cut a s n)) (
        forwarded first rest (subst (λ z. Cuts b',' z first rest) (sym e) (cut-Cuts b',' (a ∷ s)))
          (cut_before-some a s n) (trim_space-Trims first))
]

client_ip_forwarded :
    (c : Requester) (a : ℕ) (s : Bytes)
    → c.forwarded_for ≡ a ∷ s
    → get_client_ip c ≡ first_ip (a ∷ s)
unfolding get_client_ip
client_ip_forwarded c a s e =
    ap
      (λ z.
        if is_empty z
        then (if is_empty c.real_ip then c.remote_addr else trim_space c.real_ip)
        else first_ip z)
      e

client_ip_real :
    (c : Requester) (a : ℕ) (s : Bytes)
    → c.forwarded_for ≡ []
    → c.real_ip ≡ a ∷ s
    → get_client_ip c ≡ trim_space c.real_ip
unfolding get_client_ip
client_ip_real c a s e f =
    ap
      (λ z.
        if is_empty z
        then (if is_empty c.real_ip then c.remote_addr else trim_space c.real_ip)
        else first_ip z)
      e
    ∙ ap (λ z. if is_empty z then c.remote_addr else trim_space c.real_ip) f

client_ip_remote :
    (c : Requester) → c.forwarded_for ≡ [] → c.real_ip ≡ [] → get_client_ip c ≡ c.remote_addr
unfolding get_client_ip
client_ip_remote c e f =
    ap
      (λ z.
        if is_empty z
        then (if is_empty c.real_ip then c.remote_addr else trim_space c.real_ip)
        else first_ip z)
      e
    ∙ ap (λ z. if is_empty z then c.remote_addr else trim_space c.real_ip) f

get_client_ip_texts :
    (c : Requester) (f r : Bytes)
    → c.forwarded_for ≡ f
    → c.real_ip ≡ r
    → IsAddress c (get_client_ip c)
get_client_ip_texts c (a ∷ s) r e g =
    subst (IsAddress c) (sym (client_ip_forwarded c a s e)) (first_ip-IsAddress c a s e)
get_client_ip_texts c [] [] e g = remote e g (client_ip_remote c e g)
get_client_ip_texts c [] (b ∷ t) e g =
    subst (IsAddress c) (sym (client_ip_real c b t e g))
      (real e (λ n. cc) (trim_space-Trims c.real_ip))

-- A request by what it shows of its client.
abbrev pub IsFrom : Requester → Type 0
IsFrom c = IsAddress c (get_client_ip c) × IsAgent c (get_ua c)

IsFrom-texts : (c : Requester) → IsFrom c
IsFrom-texts c =
    (get_client_ip_texts c c.forwarded_for c.real_ip refl refl, get_ua_text c c.user_agent refl)

bytes_eq-prefix : (p s t : Bytes) → bytes_eq (p ++ s) (p ++ t) ≡ bytes_eq s t
unfolding bytes_eq
bytes_eq-prefix [] s t = refl
bytes_eq-prefix (c ∷ p) s t = ground (arith, bytes_eq-prefix p s t)

bytes_eq-colon :
    (a b u v : Bytes)
    → Lacks b':' a
    → Lacks b':' b
    → bytes_eq (a ++ (b':' ∷ u)) (b ++ (b':' ∷ v)) ≡ (bytes_eq a b && bytes_eq u v)
unfolding bytes_eq
bytes_eq-colon [] [] u v h k = refl
bytes_eq-colon [] (d ∷ b) u v h (k, ks) = let e : (b':' == d) ≡ false = ground arith in rw e refl
bytes_eq-colon (c ∷ a) [] u v (h, hs) k = let e : (c == b':') ≡ false = ground arith in rw e refl
bytes_eq-colon (c ∷ a) (d ∷ b) u v (h, hs) (k, ks) = elim (Bool-cases (c == d)) [
  | inl y ↦ rw y (bytes_eq-colon a b u v hs ks)
  | inr n ↦ rw n refl
]

-- Two requests of one client have the same address and the same agent.
abbrev pub same_client : Requester → Requester → Bool
same_client c d = bytes_eq (get_client_ip c) (get_client_ip d) && bytes_eq (get_ua c) (get_ua d)

-- An address without a colon.
abbrev pub HasNoColon : Requester → Type 0
HasNoColon c = Lacks b':' (get_client_ip c)

limit_key-same :
    (cfg : LimitConfig) (c d : Requester)
    → HasNoColon c
    → HasNoColon d
    → bytes_eq (limit_key cfg c) (limit_key cfg d) ≡ same_client c d
unfolding limit_key
limit_key-same cfg c d h k =
    bytes_eq-prefix cfg.app_name _ _
    ∙ bytes_eq-prefix (codes ":cache:limiter:") _ _
    ∙ bytes_eq-colon (get_client_ip c) (get_client_ip d) (get_ua c) (get_ua d) h k

-- The requests of a client, and those of them that were admitted.
unfoldable pub requests_from : Requester → List Requester → ℕ
requests_from d [] = 0
requests_from d (c ∷ cs) =
    let rest = requests_from d cs in if same_client c d then suc rest else rest

unfoldable pub admitted_from : Requester → List Requester → List Limited → ℕ
admitted_from d [] ls = 0
admitted_from d (c ∷ cs) [] = 0
admitted_from d (c ∷ cs) (l ∷ ls) =
    let rest = admitted_from d cs ls in
    if same_client c d then (if is_admitted l then suc rest else rest) else rest

module _ (cfg : LimitConfig) (d : Requester) (k : HasNoColon d) where
  requests-client :
      (cs : List Requester)
      → All HasNoColon cs
      → requests_of cfg (limit_key cfg d) cs ≡ requests_from d cs
  unfolding requests_of requests_from
  requests-client [] h = refl
  requests-client (c ∷ cs) (h, hs) = rw (limit_key-same cfg c d h k, requests-client cs hs) refl

  admitted-client :
      (cs : List Requester) (ls : List Limited)
      → All HasNoColon cs
      → admitted_of cfg (limit_key cfg d) cs ls ≡ admitted_from d cs ls
  unfolding admitted_of admitted_from
  admitted-client [] ls h = refl
  admitted-client (c ∷ cs) [] h = refl
  admitted-client (c ∷ cs) (l ∷ ls) (h, hs) =
      rw (limit_key-same cfg c d h k, admitted-client cs ls hs) refl

All-IsFrom : (cs : List Requester) → All IsFrom cs
All-IsFrom [] = tt
All-IsFrom (c ∷ cs) = (IsFrom-texts c, All-IsFrom cs)

-- Where the limit is enabled, and requests come one behind the other, each after the Save of the one
-- before it, from clients whose addresses have no colon (as a remote address with its port has): of
-- the requests of a client the first are admitted up to the limit, less what the cache has counted
-- under the key of that client, and no more, whatever the others do. A client is told by the first
-- address of X-Forwarded-For, by X-Real-IP or by the remote address, in this order, and by its agent.
-- What it takes of the cache: for the time of these requests it does not fail, it has what was saved
-- last under a key, and a Save leaves the other keys.
pub rate_limits-clients :
    {C : Type 0} (cache_get : Bytes → C → Got) (cache_save : Bytes → ℕ → ℕ → C → Bool × C)
    (works : (k : Bytes) (s : C) → cache_get k s ≢ get_failed)
    (saves : (k : Bytes) (n w : ℕ) (s : C) → (cache_save k n w s).0 ≡ true)
    (keeps : (k : Bytes) (n w : ℕ) (s : C) → cache_get k (cache_save k n w s).1 ≡ hit n)
    (leaves : (j k : Bytes) (n w : ℕ) (s : C)
      → j ≢ k
      → cache_get j (cache_save k n w s).1 ≡ cache_get j s)
    (cfg : LimitConfig) (d : Requester) (cs : List Requester) (s : C)
    → cfg.enable ≡ true
    → HasNoColon d
    → All HasNoColon cs
    → All IsFrom (d ∷ cs)
      × (admitted_from d cs (rate_limits cache_get cache_save cfg cs s).0
          ≡ smaller (requests_from d cs) (cfg.max_requests - used (cache_get (limit_key cfg d) s)))
rate_limits-clients cache_get cache_save works saves keeps leaves cfg d cs s on k h = (
  All-IsFrom (d ∷ cs),
  sym (admitted-client cfg d k cs (rate_limits cache_get cache_save cfg cs s).0 h)
      ∙ rate_limits-admitted cache_get cache_save works saves keeps leaves cfg (limit_key cfg d) cs
          s on
      ∙ ap (λ n. smaller n (cfg.max_requests - used (cache_get (limit_key cfg d) s)))
          (requests-client cfg d k cs h),
)
