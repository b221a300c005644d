-- ===== src/Ingest/Endpoints/Rollback.antt =====
-- A service that an ingest endpoint calls is one transaction.
use go_espn_api.Prelude.{ℕ, ◌≡◌, Option, Bytes}
use go_espn_api.Ingest.Json.{Map, mslice}
use go_espn_api.Ingest.Result.{new_result, IngestionResult}
use go_espn_api.Ingest.Resolve.{resolve_sport_league, load}
use go_espn_api.Ingest.Store.{err, Error, Session, Tx, with_tx, for_each, ◌>>=◌}
use go_espn_api.Ingest.Store.Laws.{with_tx-rollback}
use go_espn_api.Ingest.Db.{Db, Env}
use go_espn_api.Ingest.Scoreboard.{event_item, ingest_scoreboard}
use go_espn_api.Ingest.Teams.{team_item, teams_from_response, ingest_teams}
use go_espn_api.Ingest.News.{news_item, ingest_news}
use go_espn_api.Ingest.Injuries.{or_items, store_injuries, ingest_injuries}
use go_espn_api.Ingest.Transactions.{transaction_item, ingest_transactions}
use go_espn_api.Ingest.Endpoints.{Call, scoreboard, teams, news, injuries, transactions, call}

module _ (env : Env) where
  -- The transaction that all the services are.
  service-rollback :
      (sport league : Bytes) (response : Option Bytes) (tail : ℕ → Map → Tx Db IngestionResult)
      (s : Session Db) (e : Error)
      → let run = with_tx env.fails do
        league_id ← resolve_sport_league env sport league
        root ← load env response
        tail league_id root
        in (run s).0 ≡ err e → (run s).1.db ≡ s.db
  service-rollback sport league response tail s e h = with_tx-rollback env.fails _ s e h

  pub call-rollback :
      (c : Call) (s : Session Db) (e : Error)
      → (call env c s).0 ≡ err e
      → (call env c s).1.db ≡ s.db
  unfolding call ingest_scoreboard ingest_teams ingest_news ingest_injuries ingest_transactions
  call-rollback (scoreboard sport league date) s e h =
      service-rollback sport league (env.get_scoreboard sport league date)
        (λ id root. for_each (event_item env id) (mslice root "events") new_result) s e h
  call-rollback (teams sport league) s e h =
      service-rollback sport league (env.get_teams sport league)
        (λ id root. for_each (team_item env id) (teams_from_response root) new_result) s e h
  call-rollback (news sport league limit) s e h =
      service-rollback sport league (env.get_news sport league limit)
        (λ id root. for_each (news_item env id) (mslice root "articles") new_result) s e h
  call-rollback (injuries sport league) s e h =
      service-rollback sport league (env.get_league_injuries sport league)
        (λ id root. store_injuries env id (or_items (mslice root "items") (mslice root "injuries")))
        s e h
  call-rollback (transactions sport league) s e h =
      service-rollback sport league (env.get_league_transactions sport league)
        (λ id root.
          for_each (transaction_item env id)
            (or_items (mslice root "items") (mslice root "transactions")) new_result)
        s e h
