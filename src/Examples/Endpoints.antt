-- ===== src/Examples/Endpoints.antt =====
-- The ingest endpoints at a concrete request, and the URLs of the client.
use go_espn_api.Prelude.{refl, none, some, [], Bytes, codes, pos, Option}
use go_espn_api.Espn.Urls.{Params}
use go_espn_api.Espn.Urls.Laws.{get_news, root_of, Names, url_of, url_of-Names}
use go_espn_api.Ingest.Endpoints.{SportLeagueRequest, ScoreboardRequest, NewsRequest}

abbrev no_pair : Bytes → Option SportLeagueRequest
no_pair body = none

abbrev no_scoreboard : Bytes → Option ScoreboardRequest
no_scoreboard body = none

abbrev ten_articles : Bytes → Option NewsRequest
ten_articles body =
    some (record { sport = codes " Football"; league = codes "NFL"; limit = some (pos 10) })

abbrev no_query : Params → Bytes
no_query params = []

url_of-Names_example :
    Names
      (root_of (get_news (pos 10)))
      (codes "football")
      (codes "nfl")
      (url_of no_query (get_news (pos 10)) (codes "football") (codes "nfl"))
url_of-Names_example =
    url_of-Names no_query (get_news (pos 10)) (codes "football") (codes "nfl") refl refl
