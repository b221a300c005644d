-- ===== src/Espn/Urls/Laws.antt =====
-- The sport and the league can be read from a URL.
use go_espn_api.Prelude.{
  ◌≡◌, refl, ap, ◌∙◌, Bool, true, false, ◌||◌, [], ◌∷◌, ◌++◌, append_assoc, Bytes, codes,
  cut_before, cut_after, ◌==◌, ℤ, is_empty, is_pos, pos_part, itoa, arith, if◌then◌else◌,
}
use go_espn_api.Espn.Urls.{
  Params, limit_or, trim_slashes, build_url, scoreboard_url, teams_url, news_url, injuries_url,
  transactions_url, athlete_stats_url, optional, with_params,
}

abbrev pub has_slash : Bytes → Bool
has_slash [] = false
has_slash (c ∷ s) = c == b'/' || has_slash s

cut_before-slash : (s t : Bytes) → has_slash s ≡ false → cut_before b'/' (s ++ (b'/' ∷ t)) ≡ s
unfolding cut_before
cut_before-slash [] t h = refl
cut_before-slash (c ∷ s) t h =
    let n : (c == 47) ≡ false = ground arith in
    rw n (ap (λ z. c ∷ z) (cut_before-slash s t (ground arith)))

cut_after-slash : (s t : Bytes) → has_slash s ≡ false → cut_after b'/' (s ++ (b'/' ∷ t)) ≡ t
unfolding cut_after
cut_after-slash [] t h = refl
cut_after-slash (c ∷ s) t h =
    let n : (c == 47) ≡ false = ground arith in rw n (cut_after-slash s t (ground arith))

-- The two names at the front of a path, each up to its slash.
abbrev pub first_two : Bytes → Bytes × Bytes
unfolding cut_before cut_after
first_two rest = (cut_before b'/' rest, cut_before b'/' (cut_after b'/' rest))

-- A call of one of the endpoint methods, but for its sport and its league.
pub data Get : Type 0 where
  get_scoreboard : Bytes → ℤ → Get
  get_teams : ℤ → Get
  get_news : ℤ → Get
  get_league_injuries : Get
  get_league_transactions : Get
  get_athlete_stats : Bytes → ℤ → ℤ → Get

-- Its URL.
abbrev pub url_of : (Params → Bytes) → Get → Bytes → Bytes → Bytes
unfolding scoreboard_url teams_url news_url injuries_url transactions_url athlete_stats_url
url_of encode (get_scoreboard date limit) sport league =
    scoreboard_url encode sport league date limit
url_of encode (get_teams limit) sport league = teams_url encode sport league limit
url_of encode (get_news limit) sport league = news_url encode sport league limit
url_of encode get_league_injuries sport league = injuries_url encode sport league
url_of encode get_league_transactions sport league = transactions_url encode sport league
url_of encode (get_athlete_stats athlete season type) sport league =
    athlete_stats_url encode sport league athlete season type

-- Where the sports stand on the host of a call.
abbrev pub root_of : Get → Bytes
root_of (get_athlete_stats athlete season type) =
    codes "https://site.web.api.espn.com/apis/common/v3/sports/"
root_of _ = codes "https://site.api.espn.com/apis/site/v2/sports/"

-- A URL goes on behind a root with the two names.
pub record Names (root sport league url : Bytes) : Type 0 where
  pub rest : Bytes
  pub under : url ≡ root ++ rest
  pub read : first_two rest ≡ (sport, league)

module _ (encode : Params → Bytes) (sport league : Bytes) (a : has_slash sport ≡ false)
    (b : has_slash league ≡ false) where
  names-slashes :
      (tail : Bytes) → first_two (sport ++ (b'/' ∷ (league ++ (b'/' ∷ tail)))) ≡ (sport, league)
  unfolding first_two
  names-slashes tail =
      rw
        (
          cut_before-slash sport (league ++ (b'/' ∷ tail)) a,
          cut_after-slash sport (league ++ (b'/' ∷ tail)) a,
          cut_before-slash league tail b,
        )
        refl

  -- The two names before any tail and any query.
  pub Names-params :
      (root tail : Bytes) (params : Params)
      → Names root sport league
          (with_params encode (root ++ (sport ++ (b'/' ∷ (league ++ (b'/' ∷ tail))))) params)
  Names-params root tail [] = record {
    rest = sport ++ (b'/' ∷ (league ++ (b'/' ∷ tail)));
    under = refl;
    read = names-slashes tail;
  }
  Names-params root tail (p ∷ params) =
      let q = codes "?" ++ encode (p ∷ params) in
      record {
        rest = sport ++ (b'/' ∷ (league ++ (b'/' ∷ (tail ++ q))));
        under =
            append_assoc root (sport ++ (b'/' ∷ (league ++ (b'/' ∷ tail)))) q
            ∙ ap (λ z. root ++ z) (append_assoc sport (b'/' ∷ (league ++ (b'/' ∷ tail))) q)
            ∙ ap (λ z. root ++ (sport ++ (b'/' ∷ z))) (append_assoc league (b'/' ∷ tail) q);
        read = names-slashes (tail ++ q);
      }

-- The URL of each of the six endpoint methods stands under the root of its host, and from what
-- follows one reads the sport and the league of the call, if these have no slash.
pub url_of-Names :
    (encode : Params → Bytes) (get : Get) (sport league : Bytes)
    → has_slash sport ≡ false
    → has_slash league ≡ false
    → Names (root_of get) sport league (url_of encode get sport league)
unfolding url_of scoreboard_url teams_url news_url injuries_url transactions_url athlete_stats_url
    build_url trim_slashes
url_of-Names encode (get_scoreboard date limit) sport league a b =
    Names-params encode sport league a b (root_of (get_scoreboard date limit)) (codes "scoreboard")
      (optional (if is_empty date then false else true) (codes "dates") date
        ++ optional (is_pos limit) (codes "limit") (itoa (pos_part limit)))
url_of-Names encode (get_teams limit) sport league a b =
    Names-params encode sport league a b (root_of (get_teams limit)) (codes "teams")
      ((codes "limit", limit_or limit 100) ∷ [])
url_of-Names encode (get_news limit) sport league a b =
    Names-params encode sport league a b (root_of (get_news limit)) (codes "news")
      ((codes "limit", limit_or limit 25) ∷ [])
url_of-Names encode get_league_injuries sport league a b =
    Names-params encode sport league a b (root_of get_league_injuries) (codes "injuries") []
url_of-Names encode get_league_transactions sport league a b =
    Names-params encode sport league a b (root_of get_league_transactions) (codes "transactions") []
url_of-Names encode (get_athlete_stats athlete season type) sport league a b =
    Names-params encode sport league a b (root_of (get_athlete_stats athlete season type))
      (codes "athletes/" ++ (athlete ++ codes "/stats"))
      (optional (is_pos season) (codes "season") (itoa (pos_part season))
        ++ optional (is_pos type) (codes "seasontype") (itoa (pos_part type)))
