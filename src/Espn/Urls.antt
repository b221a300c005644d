-- ===== src/Espn/Urls.antt =====
-- The URLs of infras/espn/espn.go: buildURL, and what the endpoint methods ask for.
--
-- Encode of url.Values is a parameter.
pub mod Laws
use mathlib.Core.List.{reverse}
use go_espn_api.Prelude.{
  ℕ, Bool, true, false, List, [], ◌∷◌, ◌++◌, Bytes, codes, is_empty, ◌==◌, ℤ, pos_part, is_pos,
  itoa, if◌then◌else◌,
}

pub data Domain : Type 0 where
  site : Domain
  core : Domain
  site_v2 : Domain
  web_v3 : Domain
  cdn : Domain
  now : Domain

-- defaultBaseURLs.
abbrev pub default_base_url : Domain → Bytes
default_base_url site = codes "https://site.api.espn.com"
default_base_url core = codes "https://sports.core.api.espn.com"
default_base_url site_v2 = codes "https://site.api.espn.com"
default_base_url web_v3 = codes "https://site.web.api.espn.com"
default_base_url cdn = codes "https://cdn.espn.com"
default_base_url now = codes "https://now.core.api.espn.com"

-- strings.TrimLeft and strings.TrimRight of slashes.
unfoldable pub trim_slashes : Bytes → Bytes
trim_slashes [] = []
trim_slashes (c ∷ s) = if c == b'/' then trim_slashes s else c ∷ s

abbrev pub trim_slashes_right : Bytes → Bytes
unfolding trim_slashes
trim_slashes_right s = reverse (trim_slashes (reverse s))

-- A map[string]string.
abbrev pub Params : Type 0
Params = List (Bytes × Bytes)

abbrev pub optional : Bool → Bytes → Bytes → Params
optional given key value = if given then (key, value) ∷ [] else []

-- What stands behind /sports/ in the path of an endpoint.
abbrev pub sports_path : Bytes → Bytes → Bytes → Bytes
sports_path sport league leaf =
    codes "/apis/site/v2/sports/" ++ (sport ++ (codes "/" ++ (league ++ leaf)))

abbrev pub limit_or : ℤ → ℕ → Bytes
limit_or limit def = if is_pos limit then itoa (pos_part limit) else itoa def

module _ (encode : Params → Bytes) where
  abbrev pub with_params : Bytes → Params → Bytes
  with_params full [] = full
  with_params full (p ∷ params) = full ++ (codes "?" ++ encode (p ∷ params))

  -- buildURL.
  unfoldable pub build_url : Domain → Bytes → Params → Bytes
  unfolding trim_slashes
  build_url domain path params =
      with_params (trim_slashes_right (default_base_url domain) ++ (codes "/" ++ trim_slashes path))
        params

  -- The URLs of GetScoreboard, GetTeams, GetNews, GetLeagueInjuries and GetLeagueTransactions.
  unfoldable pub scoreboard_url : Bytes → Bytes → Bytes → ℤ → Bytes
  unfolding build_url itoa
  scoreboard_url sport league date limit =
      build_url site (sports_path sport league (codes "/scoreboard")) (
        optional (if is_empty date then false else true) (codes "dates") date
        ++ optional (is_pos limit) (codes "limit") (itoa (pos_part limit)))

  unfoldable pub teams_url : Bytes → Bytes → ℤ → Bytes
  unfolding build_url itoa
  teams_url sport league limit =
      build_url site (sports_path sport league (codes "/teams"))
        ((codes "limit", limit_or limit 100) ∷ [])

  unfoldable pub news_url : Bytes → Bytes → ℤ → Bytes
  unfolding build_url itoa
  news_url sport league limit =
      build_url site (sports_path sport league (codes "/news"))
        ((codes "limit", limit_or limit 25) ∷ [])

  unfoldable pub injuries_url : Bytes → Bytes → Bytes
  unfolding build_url
  injuries_url sport league = build_url site (sports_path sport league (codes "/injuries")) []

  unfoldable pub transactions_url : Bytes → Bytes → Bytes
  unfolding build_url
  transactions_url sport league =
      build_url site (sports_path sport league (codes "/transactions")) []

  -- The URL of GetAthleteStats.
  unfoldable pub athlete_stats_url : Bytes → Bytes → Bytes → ℤ → ℤ → Bytes
  unfolding build_url itoa
  athlete_stats_url sport league athlete season season_type =
      build_url web_v3
        (codes "/apis/common/v3/sports/"
          ++ (sport
              ++ (codes "/" ++ (league ++ (codes "/athletes/" ++ (athlete ++ codes "/stats"))))))
        (optional (is_pos season) (codes "season") (itoa (pos_part season))
          ++ optional (is_pos season_type) (codes "seasontype") (itoa (pos_part season_type)))
