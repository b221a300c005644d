-- ===== src/Ingest/Endpoints.antt =====
-- The endpoints POST /ingest/* of internal/handlers/ingest/handler.go, over the services.
--
-- The decoder of a JSON body into each of the three request types is a parameter; it is `none` where
-- it fails.
pub mod Validation
pub mod Rollback
pub mod Laws
use mathlib.Core.Option
use go_espn_api.Prelude.{
  ℕ, ◌+◌, ◌^◌, Bool, true, false, ◌&&◌, ◌||◌, not, Option, none, some, List, [], ◌∷◌, Bytes, codes,
  is_empty, trim_space, to_lower, length, ltb, ◌==◌, is_digit, ℤ, pos, negsuc, if◌then◌else◌,
}
use go_espn_api.Http.Failure.{Reply, with_error, failure}
use go_espn_api.Ingest.Result.{IngestionResult, total_processed}
use go_espn_api.Ingest.Store.{Result, ok, err, Session, Tx}
use go_espn_api.Ingest.Db.{Db, Env}
use go_espn_api.Ingest.Scoreboard.{ingest_scoreboard}
use go_espn_api.Ingest.Teams.{ingest_teams}
use go_espn_api.Ingest.News.{ingest_news}
use go_espn_api.Ingest.Injuries.{ingest_injuries}
use go_espn_api.Ingest.Transactions.{ingest_transactions}

pub record SportLeagueRequest : Type 0 where
  pub sport : Bytes
  pub league : Bytes

pub record ScoreboardRequest : Type 0 where
  pub sport : Bytes
  pub league : Bytes
  pub date : Bytes

pub record NewsRequest : Type 0 where
  pub sport : Bytes
  pub league : Bytes
  pub limit : Option ℤ

-- ingestResponse.
pub record IngestResponse : Type 0 where
  pub created : ℕ
  pub updated : ℕ
  pub errors : ℕ
  pub total_processed : ℕ
  pub details : List Bytes

-- toResponse.
unfoldable pub to_response : IngestionResult → IngestResponse
to_response r = record {
  created = r.created;
  updated = r.updated;
  errors = r.errors;
  total_processed = total_processed r;
  details = r.details;
}

abbrev default_news_limit : ℕ
default_news_limit = 50

abbrev both : Bytes → Bytes → Option (Bytes × Bytes)
both sport league = if is_empty sport || is_empty league then none else some (sport, league)

-- requireSportLeague: `none` is the error, which is the same for either name.
unfoldable pub require_sport_league : Bytes → Bytes → Option (Bytes × Bytes)
unfolding trim_space to_lower
require_sport_league sport league =
    both (to_lower (trim_space sport)) (to_lower (trim_space league))

-- isDigits.
unfoldable pub only_digits : Bytes → Bool
only_digits [] = true
only_digits (c ∷ s) = is_digit c && only_digits s

abbrev pub is_date : Bytes → Bool
unfolding only_digits
is_date date = is_empty date || (length date == 8 && only_digits date)

-- validateDate.
unfoldable pub validate_date : Bytes → Option Bytes
unfolding trim_space only_digits
validate_date date = if is_date (trim_space date) then some (trim_space date) else none

-- validateLimit.
unfoldable pub validate_limit : Option ℤ → Option ℕ
validate_limit none = some default_news_limit
validate_limit (some (pos n)) = if ltb n 1 || ltb 200 n then none else some n
validate_limit (some (negsuc n)) = none

-- The call of a service, with what the handler hands to it.
pub data Call : Type 0 where
  scoreboard : Bytes → Bytes → Bytes → Call
  teams : Bytes → Bytes → Call
  news : Bytes → Bytes → ℕ → Call
  injuries : Bytes → Bytes → Call
  transactions : Bytes → Bytes → Call

-- The routes.
pub data Endpoint : Type 0 where
  to_scoreboard : Endpoint
  to_teams : Endpoint
  to_news : Endpoint
  to_injuries : Endpoint
  to_transactions : Endpoint

pub data IngestReply : Type 0 where
  refused : Reply → IngestReply
  answered : IngestResponse → IngestReply

abbrev pub bad_request : Reply
bad_request = with_error (failure 400 (codes "validation.failed"))

-- ingestError.
abbrev pub bad_gateway : Reply
bad_gateway = with_error (failure 502 (codes "external.service_error"))

abbrev pub reply_of : Result IngestionResult → IngestReply
reply_of (ok r) = answered (to_response r)
reply_of (err e) = refused bad_gateway

module _ (env : Env) where
  unfoldable pub call : Call → Tx Db IngestionResult
  unfolding ingest_scoreboard ingest_teams ingest_news ingest_injuries ingest_transactions
  call (scoreboard sport league date) = ingest_scoreboard env sport league date
  call (teams sport league) = ingest_teams env sport league
  call (news sport league limit) = ingest_news env sport league limit
  call (injuries sport league) = ingest_injuries env sport league
  call (transactions sport league) = ingest_transactions env sport league

  -- A request that is not valid is refused before anything is done.
  unfoldable pub handle : Option Call → Session Db → IngestReply × Session Db
  unfolding call
  handle none s = (refused bad_request, s)
  handle (some c) s = (reply_of (call c s).0, (call c s).1)

  module _ (decode_pair : Bytes → Option SportLeagueRequest)
      (decode_scoreboard : Bytes → Option ScoreboardRequest)
      (decode_news : Bytes → Option NewsRequest) where
    -- decodeSportLeague.
    unfoldable pub decode_sport_league : Bytes → Option (Bytes × Bytes)
    unfolding require_sport_league
    decode_sport_league body =
        Option.bind (decode_pair body) λ req. require_sport_league req.sport req.league

    abbrev scoreboard_call : Bytes → Option Call
    unfolding require_sport_league validate_date
    scoreboard_call body = Option.bind (decode_scoreboard body) λ req.
        Option.bind (require_sport_league req.sport req.league)
          λ names. Option.map (λ date. scoreboard names.0 names.1 date) (validate_date req.date)

    abbrev news_call : Bytes → Option Call
    unfolding require_sport_league validate_limit
    news_call body = Option.bind (decode_news body) λ req.
        Option.bind (require_sport_league req.sport req.league)
          λ names. Option.map (λ limit. news names.0 names.1 limit) (validate_limit req.limit)

    -- Scoreboard, Teams, News, Injuries and Transactions of the handler.
    unfoldable pub post_scoreboard : Bytes → Session Db → IngestReply × Session Db
    unfolding handle require_sport_league validate_date
    post_scoreboard body = handle (scoreboard_call body)

    unfoldable pub post_teams : Bytes → Session Db → IngestReply × Session Db
    unfolding handle decode_sport_league
    post_teams body =
        handle (Option.map (λ names. teams names.0 names.1) (decode_sport_league body))

    unfoldable pub post_news : Bytes → Session Db → IngestReply × Session Db
    unfolding handle require_sport_league validate_limit
    post_news body = handle (news_call body)

    unfoldable pub post_injuries : Bytes → Session Db → IngestReply × Session Db
    unfolding handle decode_sport_league
    post_injuries body =
        handle (Option.map (λ names. injuries names.0 names.1) (decode_sport_league body))

    unfoldable pub post_transactions : Bytes → Session Db → IngestReply × Session Db
    unfolding handle decode_sport_league
    post_transactions body =
        handle (Option.map (λ names. transactions names.0 names.1) (decode_sport_league body))

    -- Router.
    unfoldable pub post : Endpoint → Bytes → Session Db → IngestReply × Session Db
    unfolding post_scoreboard post_teams post_news post_injuries post_transactions
    post to_scoreboard = post_scoreboard
    post to_teams = post_teams
    post to_news = post_news
    post to_injuries = post_injuries
    post to_transactions = post_transactions
