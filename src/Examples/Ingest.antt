-- ===== src/Examples/Ingest.antt =====
-- The ingest services at concrete inputs.
use go_espn_api.Prelude.{
  ℕ, ◌+◌, ◌≡◌, refl, false, Option, some, none, List, [], ◌∷◌, Bytes, codes, bytes_eq, length, pos,
}
use go_espn_api.Ingest.Result.{IngestionResult, total_processed}
use go_espn_api.Ingest.Json.{
  Value, Map, null, str, array, object, no_element, element, no_member, member, get, mmap, mslice,
  mstr_or, mid,
}
use go_espn_api.Ingest.Store.{Table, ok, Session, statement, upsert}
use go_espn_api.Ingest.Store.Laws.{value_at}
use go_espn_api.Ingest.Db.{scoped_eq, Db, Env}
use go_espn_api.Ingest.Resolve.{resolve_sport_league}
use go_espn_api.Ingest.Resolve.Laws.{begun, decoded}
use go_espn_api.Ingest.News.{parse_article, store_article, ingest_news}
use go_espn_api.Ingest.News.Laws.{last_article, ingest_news_lem}
use go_espn_api.Ingest.Injuries.{or_items, parse_injury, store_injury, ingest_injuries}
use go_espn_api.Ingest.Success.{ingest-Succeeds}
use go_espn_api.Ingest.Store.Success.{Succeeds}
use go_espn_api.Ingest.Teams.{teams_from_response, parse_team, store_team, ingest_teams}
use go_espn_api.Ingest.Teams.Laws.{last_team, ingest_teams_lem}
use go_espn_api.Ingest.Transactions.{
  parse_transaction, save_transaction, store_transaction, transaction_insert, upsert_by_espn,
  ingest_transactions,
}
use go_espn_api.Ingest.Transactions.Laws.{ingest_transactions_lem}
use go_espn_api.Ingest.Injuries.Laws.{report, replaced, ingest_injuries_lem}

abbrev pub no_rows : {K V : Type 0} → Table K V
no_rows = record { next = 1; rows = [] }

abbrev pub no_db : Db
no_db = record {
  sports = no_rows;
  leagues = no_rows;
  teams = no_rows;
  news = no_rows;
  injuries = [];
  transactions = no_rows;
  nhl_teams = no_rows;
  venues = no_rows;
  events = no_rows;
  competitors = [];
  nhl_players = no_rows;
  nhl_standings = no_rows;
}

-- One article and one without an id; one item, which is an injury and a transaction, and one without
-- an athlete and a description.
abbrev payload : Map
payload = some (
    member "articles"
      (array (
        element
          (object (member "id" (str (codes "1")) (member "headline" (str (codes "Hi")) no_member)))
          (element null no_element)))
      (member "items"
        (array (
          element
            (object (
              member "athlete" (object (member "fullName" (str (codes "Ann")) no_member))
                (member "description" (str (codes "Traded")) no_member)))
            (element null no_element)))
        no_member))

abbrev pub env : Env
env = record {
  fails = λ n. false;
  get_news = λ sport league limit. some [];
  get_league_injuries = λ sport league. some [];
  get_league_transactions = λ sport league. some [];
  get_teams = λ sport league. none;
  get_nhl_teams = none;
  get_scoreboard = λ sport league date. some [];
  get_standings = none;
  get_roster = λ team. none;
  any_id = λ ids. first ids;
  unmarshal = λ body. payload_of body;
  marshal = λ v. none;
  parse_time = λ layout s. none;
  now = 0;
  today = 0;
  year_of = λ t. pos 2024;
  sport_names = λ slug. some slug;
  league_info = λ slug. some (record { name = slug; abbreviation = slug });
}
  where
    first : List ℕ → Option ℕ
    first [] = none
    first (i ∷ ids) = some i

    payload_of : Bytes → Option Map
    payload_of body = some payload

abbrev pub start : Session Db
start = record { db = no_db; clock = 0 }

abbrev pub football : Bytes
football = codes "football"

abbrev pub nfl : Bytes
nfl = codes "nfl"

abbrev news_result : IngestionResult
news_result = record { created = 1; updated = 0; errors = 1; details = [] }

ingest_news_lem_example :
    (l : ℕ) × (root : Map) × ((resolve_sport_league env football nfl (begun start)).0 ≡ ok l)
    × (decoded env (env.get_news football nfl 50) ≡ some root)
    × (total_processed news_result + news_result.errors ≡ length (mslice root "articles"))
    × (length (ingest_news env football nfl 50 start).1.db.news.rows
        ≡ length start.db.news.rows + news_result.created)
    × (value_at bytes_eq (codes "1") (ingest_news env football nfl 50 start).1.db.news
        ≡ last_article env l
            (codes "1")
            (mslice root "articles")
            (value_at bytes_eq (codes "1") start.db.news))
unfolding ingest_news statement mslice get store_article parse_article mid mstr_or upsert
ingest_news_lem_example = ingest_news_lem env football nfl 50 start news_result (codes "1") refl

abbrev injuries_result : IngestionResult
injuries_result = record { created = 1; updated = 0; errors = 1; details = [] }

ingest_injuries_lem_example :
    (l : ℕ) × (root : Map) × ((resolve_sport_league env football nfl (begun start)).0 ≡ ok l)
    × (decoded env (env.get_league_injuries football nfl) ≡ some root)
    × let items = or_items (mslice root "items") (mslice root "injuries") in
      ((ingest_injuries env football nfl start).1.db.injuries
        ≡ replaced env l start.db.teams items start.db.injuries)
      × (injuries_result.created ≡ length (report env l start.db.teams items))
      × (injuries_result.created + injuries_result.errors ≡ length items)
      × (injuries_result.updated ≡ 0)
unfolding ingest_injuries statement or_items mslice get store_injury parse_injury mstr_or mmap mid
ingest_injuries_lem_example = ingest_injuries_lem env football nfl start injuries_result refl

abbrev transactions_result : IngestionResult
transactions_result = record { created = 1; updated = 0; errors = 1; details = [] }

ingest_transactions_lem_example :
    (root : Map) × (decoded env (env.get_league_transactions football nfl) ≡ some root)
    × (total_processed transactions_result + transactions_result.errors
        ≡ length (or_items (mslice root "items") (mslice root "transactions")))
    × (length (ingest_transactions env football nfl start).1.db.transactions.rows
        ≡ length start.db.transactions.rows + transactions_result.created)
unfolding ingest_transactions statement or_items mslice get store_transaction parse_transaction
    mstr_or save_transaction transaction_insert upsert_by_espn mid mmap
ingest_transactions_lem_example =
    ingest_transactions_lem env football nfl start transactions_result refl

abbrev pub one : Value → Value
one v = array (element v no_element)

-- One team, under "team".
abbrev teams_payload : Map
teams_payload = some (
    member "sports"
      (one (
        object (
          member "leagues"
            (one (
              object (
                member "teams"
                  (one (
                    object
                      (member "team" (object (member "id" (str (codes "7")) no_member)) no_member)))
                  no_member)))
            no_member)))
      no_member)

abbrev teams_env : Env
teams_env = record env {
  unmarshal = λ body. some teams_payload;
  get_teams = λ sport league. some [];
}

abbrev teams_result : IngestionResult
teams_result = record { created = 1; updated = 0; errors = 0; details = [] }

ingest_teams_lem_example :
    let teams' = (ingest_teams teams_env football nfl start).1.db.teams in
    (l : ℕ) × (root : Map) × ((resolve_sport_league teams_env football nfl (begun start)).0 ≡ ok l)
    × (decoded teams_env (teams_env.get_teams football nfl) ≡ some root)
    × (total_processed teams_result + teams_result.errors ≡ length (teams_from_response root))
    × (length teams'.rows ≡ length start.db.teams.rows + teams_result.created)
    × (value_at scoped_eq (1, codes "7") teams'
        ≡ last_team teams_env l
            (1, codes "7")
            (teams_from_response root)
            (value_at scoped_eq (1, codes "7") start.db.teams))
unfolding ingest_teams statement teams_from_response mslice get store_team parse_team mid mmap
    upsert
ingest_teams_lem_example =
    ingest_teams_lem teams_env football nfl start teams_result (1, codes "7") refl

ingest-Succeeds_example :
    Succeeds (ingest_news teams_env football nfl 50)
    × Succeeds (ingest_injuries teams_env football nfl)
    × Succeeds (ingest_transactions teams_env football nfl)
    × Succeeds (ingest_teams teams_env football nfl)
ingest-Succeeds_example =
    ingest-Succeeds teams_env football nfl 50 teams_payload teams_payload teams_payload
      teams_payload (λ n. refl) refl refl refl refl

abbrev status : Map
status = some (member "type" (object (member "state" (str (codes "post")) no_member)) no_member)
