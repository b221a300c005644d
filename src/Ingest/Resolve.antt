-- ===== src/Ingest/Resolve.antt =====
-- resolveSportLeague of internal/ingest/common.go, over GetOrCreateTx of the sport and the league
-- repositories, and the start that the ESPN services share.
pub mod Laws
use go_espn_api.Prelude.{ℕ, Option, some, none, Bytes, bytes_eq, List, []}
use go_espn_api.Ingest.Json.{Map}
use go_espn_api.Ingest.Parse.{LeagueMeta, sport_default, league_defaults}
use go_espn_api.Ingest.Store.{
  Tx, Error, statement, get_or_create, ◌>>=◌, pure, require, fetch, decode,
}
use go_espn_api.Ingest.Db.{Db, Env, scoped_eq}

module _ (env : Env) where
  -- GetOrCreateTx of the sport repository.
  unfoldable pub sport_get_or_create : Bytes → Bytes → Tx Db ℕ
  sport_get_or_create slug name = statement env.fails λ db.
      let (u, t) = get_or_create bytes_eq slug name db.sports in (u.id, record db { sports = t })

  -- GetOrCreateTx of the league repository.
  unfoldable pub league_get_or_create : ℕ → Bytes → LeagueMeta → Tx Db ℕ
  league_get_or_create sport slug meta = statement env.fails λ db.
      let (u, t) = get_or_create scoped_eq (sport, slug) meta db.leagues in
      (u.id, record db { leagues = t })

  -- resolveSportLeague.
  unfoldable pub resolve_sport_league : Bytes → Bytes → Tx Db ℕ
  unfolding sport_get_or_create league_get_or_create ◌>>=◌
  resolve_sport_league sport league = do
    sport_id ← sport_get_or_create sport (sport_default env.sport_names sport)
    league_get_or_create sport_id league (league_defaults env.league_info league)

  -- The response of a client, decoded: each error ends the run.
  unfoldable pub load : Option Bytes → Tx Db Map
  unfolding ◌>>=◌
  load response = do body ← require fetch response; require decode (env.unmarshal body)
