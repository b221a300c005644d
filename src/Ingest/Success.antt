-- ===== src/Ingest/Success.antt =====
-- The ingest services succeed when nothing outside of them fails.
use go_espn_api.Prelude.{
  ℕ, ◌≡◌, false, Option, none, some, List, [], ◌∷◌, Bytes, is_empty, inl, inr, Bool-cases,
}
use go_espn_api.Ingest.Result.{IngestionResult, new_result}
use go_espn_api.Ingest.Json.{Value, Map, as_map, mslice}
use go_espn_api.Ingest.Parse.{sport_default}
use go_espn_api.Ingest.Store.{Row, Tx, ◌>>=◌, with_tx, for_each}
use go_espn_api.Ingest.Store.Success.{
  Succeeds, pure-Succeeds, bind-Succeeds, for_each-Succeeds, statement-Succeeds, with_tx-Succeeds,
}
use go_espn_api.Ingest.Resolve.{
  sport_get_or_create, league_get_or_create, resolve_sport_league, load,
}
use go_espn_api.Ingest.Resolve.Laws.{decoded}
use go_espn_api.Ingest.Db.{NewsArticle, Injury, Team, Transaction, ScopedKey, Db, Env}
use go_espn_api.Ingest.News.{news_upsert, store_article, news_item, parse_article, ingest_news}
use go_espn_api.Ingest.Injuries.{
  id_by_espn_in_league, delete_by_league, injury_insert, store_injury, injury_item, store_injuries,
  parse_injury, or_items, ingest_injuries,
}
use go_espn_api.Ingest.Transactions.{
  transaction_insert, transaction_update, write_found, upsert_by_espn, save_transaction,
  store_transaction, transaction_item, parse_transaction, ingest_transactions,
}
use go_espn_api.Ingest.Teams.{
  team_upsert, store_team, team_item, parse_team, teams_from_response, ingest_teams,
}

module _ (env : Env) (never : (n : ℕ) → env.fails n ≡ false) where
  resolve-Succeeds : (sport league : Bytes) → Succeeds (resolve_sport_league env sport league)
  unfolding resolve_sport_league sport_get_or_create league_get_or_create
  resolve-Succeeds sport league =
      bind-Succeeds (sport_get_or_create env sport (sport_default env.sport_names sport)) _
        (statement-Succeeds env.fails never _) (λ id. statement-Succeeds env.fails never _)

  load-Succeeds :
      (o : Option Bytes) (root : Map) → decoded env o ≡ some root → Succeeds (load env o)
  unfolding load ◌>>=◌
  load-Succeeds none root e s = absurd cc
  load-Succeeds (some body) root e s = (root, rw e)

  service-Succeeds :
      {R : Type 0} (o : Option Bytes) (body : ℕ → Map → Tx Db R) (sport league : Bytes) (root : Map)
      → decoded env o ≡ some root
      → ((l : ℕ) (m : Map) → Succeeds (body l m))
      → Succeeds
          (with_tx env.fails (resolve_sport_league env sport league >>= λ l. load env o >>= body l))
  service-Succeeds o body sport league root e p =
      with_tx-Succeeds env.fails never
        (resolve_sport_league env sport league >>= λ l. load env o >>= body l)
        (bind-Succeeds (resolve_sport_league env sport league) (λ l. load env o >>= body l)
          (resolve-Succeeds sport league)
          (λ l. bind-Succeeds (load env o) (body l) (load-Succeeds o root e) (p l)))

  store_article-Succeeds :
      (o : Option NewsArticle) (r : IngestionResult) → Succeeds (store_article env o r)
  unfolding store_article news_upsert
  store_article-Succeeds none r = pure-Succeeds _
  store_article-Succeeds (some m) r =
      bind-Succeeds (news_upsert env m) _ (statement-Succeeds env.fails never _)
        (λ b. pure-Succeeds _)

  id-Succeeds : (l : ℕ) (e : Bytes) → Succeeds (id_by_espn_in_league env l e)
  unfolding id_by_espn_in_league
  id-Succeeds l e = elim (Bool-cases (is_empty e)) [
    | inl y ↦ rw y (pure-Succeeds _)
    | inr n ↦ rw n (statement-Succeeds env.fails never _)
  ]

  store_injury-Succeeds :
      (l : ℕ) (o : Option (Injury × Bytes)) (r : IngestionResult)
      → Succeeds (store_injury env l o r)
  unfolding store_injury injury_insert
  store_injury-Succeeds l none r = pure-Succeeds _
  store_injury-Succeeds l (some (m, team)) r =
      bind-Succeeds (id_by_espn_in_league env l team) _ (id-Succeeds l team) (λ t.
        bind-Succeeds (injury_insert env (record m { team_id = t })) _
          (statement-Succeeds env.fails never _) (λ u. pure-Succeeds _))

  store_injuries-Succeeds : (l : ℕ) (xs : List Value) → Succeeds (store_injuries env l xs)
  unfolding store_injuries injury_item delete_by_league
  store_injuries-Succeeds l [] = pure-Succeeds _
  store_injuries-Succeeds l (x ∷ xs) =
      bind-Succeeds (delete_by_league env l) _ (statement-Succeeds env.fails never _) (λ u.
        for_each-Succeeds (injury_item env l)
          (λ y r. store_injury-Succeeds l (parse_injury env l (as_map y)) r) (x ∷ xs) new_result)

  write_found-Succeeds :
      (m : Transaction) (o : Option (Row ScopedKey Transaction)) → Succeeds (write_found env m o)
  unfolding transaction_insert transaction_update
  write_found-Succeeds m none = statement-Succeeds env.fails never _
  write_found-Succeeds m (some row) = statement-Succeeds env.fails never _

  save-Succeeds : (m : Transaction) → Succeeds (save_transaction env m)
  unfolding save_transaction upsert_by_espn
  save-Succeeds m = elim (Bool-cases (is_empty m.espn_id)) [
    | inl y ↦ rw y (write_found-Succeeds m none)
    | inr n ↦ rw n (
        bind-Succeeds _ (write_found env m) (statement-Succeeds env.fails never _)
          (write_found-Succeeds m))
  ]

  store_transaction-Succeeds :
      (l : ℕ) (o : Option (Transaction × Bytes)) (r : IngestionResult)
      → Succeeds (store_transaction env l o r)
  unfolding store_transaction
  store_transaction-Succeeds l none r = pure-Succeeds _
  store_transaction-Succeeds l (some (m, team)) r =
      bind-Succeeds (id_by_espn_in_league env l team) _ (id-Succeeds l team) (λ t.
        bind-Succeeds (save_transaction env (record m { team_id = t })) _ (save-Succeeds _)
          (λ b. pure-Succeeds _))

  store_team-Succeeds :
      (l : ℕ) (o : Team × Bytes) (r : IngestionResult) → Succeeds (store_team env l o r)
  unfolding store_team team_upsert
  store_team-Succeeds l (m, e) r = elim (Bool-cases (is_empty e)) [
    | inl y ↦ rw y (pure-Succeeds _)
    | inr n ↦ rw n (
        bind-Succeeds (team_upsert env l e m) _ (statement-Succeeds env.fails never _)
          (λ b. pure-Succeeds _))
  ]

-- If the database refuses nothing and the responses arrive and decode, each of IngestNews,
-- IngestInjuries, IngestTransactions and IngestTeams returns a result, whatever the items are.
pub ingest-Succeeds :
    (env : Env) (sport league : Bytes) (limit : ℕ) (news injuries transactions teams : Map)
    → ((n : ℕ) → env.fails n ≡ false)
    → decoded env (env.get_news sport league limit) ≡ some news
    → decoded env (env.get_league_injuries sport league) ≡ some injuries
    → decoded env (env.get_league_transactions sport league) ≡ some transactions
    → decoded env (env.get_teams sport league) ≡ some teams
    → Succeeds (ingest_news env sport league limit)
      × Succeeds (ingest_injuries env sport league)
      × Succeeds (ingest_transactions env sport league)
      × Succeeds (ingest_teams env sport league)
unfolding ingest_news ingest_injuries ingest_transactions ingest_teams news_item transaction_item
    team_item
ingest-Succeeds env sport league limit news injuries transactions teams never a b c d = (
  service-Succeeds env never (env.get_news sport league limit)
      (λ l m. for_each (news_item env l) (mslice m "articles") new_result) sport league news a
      (λ l m.
        for_each-Succeeds (news_item env l)
          (λ x r. store_article-Succeeds env never (parse_article env l (as_map x)) r)
          (mslice m "articles") new_result),
  service-Succeeds env never (env.get_league_injuries sport league)
      (λ l m. store_injuries env l (or_items (mslice m "items") (mslice m "injuries"))) sport league
      injuries b
      (λ l m.
        store_injuries-Succeeds env never l (or_items (mslice m "items") (mslice m "injuries"))),
  service-Succeeds env never (env.get_league_transactions sport league)
      (λ l m.
        for_each (transaction_item env l) (or_items (mslice m "items") (mslice m "transactions"))
          new_result)
      sport league transactions c
      (λ l m.
        for_each-Succeeds (transaction_item env l)
          (λ x r. store_transaction-Succeeds env never l (parse_transaction env l (as_map x)) r)
          (or_items (mslice m "items") (mslice m "transactions")) new_result),
  service-Succeeds env never (env.get_teams sport league)
      (λ l m. for_each (team_item env l) (teams_from_response m) new_result) sport league teams d
      (λ l m.
        for_each-Succeeds (team_item env l)
          (λ x r. store_team-Succeeds env never l (parse_team env (as_map x)) r)
          (teams_from_response m) new_result),
)
