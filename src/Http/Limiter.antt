-- ===== src/Http/Limiter.antt =====
-- The rate limit of transport/http/middleware/limiter.go, with BuildCacheKey of shared/shared.go.
--
-- The cache is a parameter: its state C, what it finds under a key, and what it answers to a Save
-- with its seconds to live. Its errors are values. The Get and the Save of a request are separate calls
-- in the code; here nothing comes between them: requests are taken one behind the other.
pub mod Laws
pub mod Clients
use go_espn_api.Prelude.{
  ℕ, suc, ◌-◌, Bool, true, false, Option, none, some, List, [], ◌∷◌, ◌++◌, Bytes, codes, is_empty,
  ltb, ◌==◌, trim_space, cut_before, if◌then◌else◌,
}

-- What Get of the cache answers: a value, cache.Nil, or another error.
pub data Got : Type 0 where
  hit : ℕ → Got
  absent : Got
  get_failed : Got

-- What the limit reads of a request.
pub record Requester : Type 0 where
  pub user_agent : Bytes
  pub forwarded_for : Bytes
  pub real_ip : Bytes
  pub remote_addr : Bytes

-- The limit's configuration, whose numbers are not negative, and the name of the application.
pub record LimitConfig : Type 0 where
  pub enable : Bool
  pub max_requests : ℕ
  pub window_seconds : ℕ
  pub app_name : Bytes

-- getUA.
unfoldable pub get_ua : Requester → Bytes
get_ua c = if is_empty c.user_agent then codes "unknown" else c.user_agent

-- A header with a comma at its front is taken as it stands.
unfoldable pub first_ip : Bytes → Bytes
unfolding cut_before trim_space
first_ip [] = []
first_ip (c ∷ s) = if c == b',' then trim_space (c ∷ s) else trim_space (cut_before b',' (c ∷ s))

-- getClientIP.
unfoldable pub get_client_ip : Requester → Bytes
unfolding first_ip trim_space
get_client_ip c =
    if is_empty c.forwarded_for
    then (if is_empty c.real_ip then c.remote_addr else trim_space c.real_ip)
    else first_ip c.forwarded_for

-- BuildCacheKey of the limiter, the client's address and its agent.
unfoldable pub limit_key : LimitConfig → Requester → Bytes
unfolding get_ua get_client_ip
limit_key cfg c =
    cfg.app_name ++ (codes ":cache:limiter:" ++ (get_client_ip c ++ (codes ":" ++ get_ua c)))

-- What the limit does with a request: it hands it on, with or without its headers, or refuses it.
pub data Limited : Type 0 where
  unmeasured : Limited
  measured : ℕ → ℕ → ℕ → Limited
  limit_exceeded : Limited

abbrev pub count_of : Got → Option ℕ
count_of (hit n) = some (suc n)
count_of absent = some 1
count_of get_failed = none

module _ {C : Type 0} (cache_get : Bytes → C → Got) (cache_save : Bytes → ℕ → ℕ → C → Bool × C)
    (cfg : LimitConfig) where
  abbrev pub counted : ℕ → Bool × C → Limited × C
  counted count (true, s) =
      (measured cfg.max_requests (cfg.max_requests - count) cfg.window_seconds, s)
  counted count (false, s) = (unmeasured, s)

  abbrev pub limit : Bytes → C → Option ℕ → Limited × C
  limit key s none = (unmeasured, s)
  limit key s (some count) =
      if ltb cfg.max_requests count
      then (limit_exceeded, s)
      else counted count (cache_save key count cfg.window_seconds s)

  -- RateLimit.
  unfoldable pub rate_limit : Requester → C → Limited × C
  unfolding limit_key
  rate_limit c s =
      if cfg.enable
      then limit (limit_key cfg c) s (count_of (cache_get (limit_key cfg c) s))
      else (unmeasured, s)

  -- Requests one behind the other.
  unfoldable pub rate_limits : List Requester → C → List Limited × C
  unfolding rate_limit
  rate_limits [] s = ([], s)
  rate_limits (c ∷ cs) s =
      let (now, t) = rate_limit c s in let (later, u) = rate_limits cs t in (now ∷ later, u)
