-- ===== src/Ingest/Endpoints/Laws.antt =====
-- What a request to an ingest endpoint comes to.
use mathlib.Core.Option
use go_espn_api.Prelude.{ℕ, ◌+◌, ◌≡◌, ◌⊎◌, Option, none, some, Bytes, codes, ℤ, Trims, IsBlank}
use go_espn_api.Ingest.Result.{IngestionResult}
use go_espn_api.Ingest.Store.{ok, err, Error, Session, Tx}
use go_espn_api.Ingest.Db.{Db, Env}
use go_espn_api.Ingest.Scoreboard.{ingest_scoreboard}
use go_espn_api.Ingest.Teams.{ingest_teams}
use go_espn_api.Ingest.News.{ingest_news}
use go_espn_api.Ingest.Injuries.{ingest_injuries}
use go_espn_api.Ingest.Transactions.{ingest_transactions}
use go_espn_api.Ingest.Endpoints.{
  SportLeagueRequest, ScoreboardRequest, NewsRequest, Call, Endpoint, to_scoreboard, to_teams,
  to_news, to_injuries, to_transactions, IngestReply, refused, answered, call,
}
use go_espn_api.Ingest.Endpoints.Validation.{IsName, IsDate, IsLimit, IsOut}

module _ (env : Env) where
  module _ (decode_pair : Bytes → Option SportLeagueRequest)
      (decode_scoreboard : Bytes → Option ScoreboardRequest)
      (decode_news : Bytes → Option NewsRequest) where
    -- The run of a service that a body asks an endpoint for.
    pub data Asks (body : Bytes) : Endpoint → Tx Db IngestionResult → Type 0 where
      asks_scoreboard :
          (q : ScoreboardRequest) (sport league date : Bytes)
          → decode_scoreboard body ≡ some q
          → IsName q.sport sport
          → IsName q.league league
          → Trims q.date date
          → IsDate date
          → Asks body to_scoreboard (ingest_scoreboard env sport league date)
      asks_teams :
          (q : SportLeagueRequest) (sport league : Bytes)
          → decode_pair body ≡ some q
          → IsName q.sport sport
          → IsName q.league league
          → Asks body to_teams (ingest_teams env sport league)
      asks_news :
          (q : NewsRequest) (sport league : Bytes) (limit : ℕ)
          → decode_news body ≡ some q
          → IsName q.sport sport
          → IsName q.league league
          → IsLimit q.limit limit
          → Asks body to_news (ingest_news env sport league limit)
      asks_injuries :
          (q : SportLeagueRequest) (sport league : Bytes)
          → decode_pair body ≡ some q
          → IsName q.sport sport
          → IsName q.league league
          → Asks body to_injuries (ingest_injuries env sport league)
      asks_transactions :
          (q : SportLeagueRequest) (sport league : Bytes)
          → decode_pair body ≡ some q
          → IsName q.sport sport
          → IsName q.league league
          → Asks body to_transactions (ingest_transactions env sport league)

    -- What is wrong with the two names in a body, if it can be decoded.
    abbrev pub BadPair : Bytes → Type 0
    BadPair body =
        (decode_pair body ≡ none)
        ⊎ ((q : SportLeagueRequest) × (decode_pair body ≡ some q)
            × (IsBlank q.sport ⊎ IsBlank q.league))

    -- What is wrong with a body, for an endpoint.
    pub data Faulty (body : Bytes) : Endpoint → Type 0 where
      no_scoreboard : decode_scoreboard body ≡ none → Faulty body to_scoreboard
      no_name :
          (q : ScoreboardRequest)
          → decode_scoreboard body ≡ some q
          → IsBlank q.sport ⊎ IsBlank q.league
          → Faulty body to_scoreboard
      no_date :
          (q : ScoreboardRequest) (date : Bytes)
          → decode_scoreboard body ≡ some q
          → Trims q.date date
          → ¬ IsDate date
          → Faulty body to_scoreboard
      no_news : decode_news body ≡ none → Faulty body to_news
      no_topic :
          (q : NewsRequest)
          → decode_news body ≡ some q
          → IsBlank q.sport ⊎ IsBlank q.league
          → Faulty body to_news
      no_limit :
          (q : NewsRequest) (n : ℤ)
          → decode_news body ≡ some q
          → q.limit ≡ some n
          → IsOut n
          → Faulty body to_news
      bad_teams : BadPair body → Faulty body to_teams
      bad_injuries : BadPair body → Faulty body to_injuries
      bad_transactions : BadPair body → Faulty body to_transactions

    -- What the call that a handler comes to is to the body.
    abbrev Fits : Bytes → Endpoint → Option Call → Type 0
    unfolding call
    Fits body to none = Faulty body to
    Fits body to (some c) = Asks body to (call env c)

    -- What a request comes to.
    pub data Ending (to : Endpoint) (body : Bytes) (s : Session Db) (out : IngestReply × Session Db)
        : Type 0 where
      invalid :
          Faulty body to
          → out ≡ (refused (record { status = 400; key = codes "validation.failed" }), s)
          → Ending to body s out
      failed :
          (run : Tx Db IngestionResult) (e : Error)
          → Asks body to run
          → (run s).0 ≡ err e
          → out.0 ≡ refused (record { status = 502; key = codes "external.service_error" })
          → out.1 ≡ (run s).1
          → out.1.db ≡ s.db
          → Ending to body s out
      served :
          (run : Tx Db IngestionResult) (r : IngestionResult)
          → Asks body to run
          → (run s).0 ≡ ok r
          → out.0
            ≡ answered (record {
              created = r.created;
              updated = r.updated;
              errors = r.errors;
              total_processed = r.created + r.updated;
              details = r.details;
            })
          → out.1 ≡ (run s).1
          → Ending to body s out
