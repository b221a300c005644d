-- ===== src/Ingest/News.antt =====
-- IngestNews and parseArticle of internal/ingest/news.go, over UpsertTx of the news repository.
pub mod Laws
use go_espn_api.Prelude.{
  ℕ, ◌+◌, Bool, true, false, ◌||◌, Option, none, some, List, [], ◌∷◌, Bytes, codes, bytes_eq,
  is_empty, if◌then◌else◌,
}
use go_espn_api.Ingest.Result.{IngestionResult, new_result, tally}
use go_espn_api.Ingest.Json.{Value, Map, as_map, get, mid, mstr, mstr_or, mslice, raw_obj, raw_map}
use go_espn_api.Ingest.Parse.{truncate, parse_iso}
use go_espn_api.Ingest.Store.{Tx, statement, upsert, with_tx, for_each, ◌>>=◌, pure}
use go_espn_api.Ingest.Db.{NewsArticle, Db, Env, json_or_default}
use go_espn_api.Ingest.Resolve.{resolve_sport_league, load}

abbrev pub max_headline_len : ℕ
max_headline_len = 500

abbrev pub first_or : Bytes → Bytes → Bytes
first_or s t = if is_empty s then t else s

module _ (env : Env) where
  -- parseArticle.
  unfoldable pub parse_article : ℕ → Map → Option NewsArticle
  parse_article league_id item =
      let espn_id = first_or (mid item "dataSourceIdentifier") (mid item "id") in
      let headline = mstr_or item ("headline" ∷ "title" ∷ []) in
      if is_empty espn_id || is_empty headline
      then none
      else some (record {
        espn_id = espn_id;
        headline = truncate headline max_headline_len;
        description = mstr_or item ("description" ∷ "abstract" ∷ []);
        story = mstr item "story";
        published = parse_iso env.parse_time (mstr item "published");
        last_modified = parse_iso env.parse_time (mstr item "lastModified");
        type = mstr item "type";
        league_id = league_id;
        categories = raw_obj env.marshal (get item "categories") (codes "[]");
        images = raw_obj env.marshal (get item "images") (codes "[]");
        links = raw_obj env.marshal (get item "links") (codes "{}");
        raw_data = raw_map env.marshal item (codes "{}");
      })

  -- The arguments of the upsert.
  unfoldable pub news_row : NewsArticle → NewsArticle
  news_row m = record m {
    categories = json_or_default m.categories (codes "[]");
    images = json_or_default m.images (codes "[]");
    links = json_or_default m.links (codes "{}");
    raw_data = json_or_default m.raw_data (codes "{}");
  }

  -- UpsertTx of the news repository.
  unfoldable pub news_upsert : NewsArticle → Tx Db Bool
  news_upsert m = statement env.fails λ db.
      let (u, t) = upsert bytes_eq m.espn_id (news_row m) db.news in
      (u.inserted, record db { news = t })

  -- The body of the loop over the articles: an article that does not parse is counted.
  unfoldable pub store_article : Option NewsArticle → IngestionResult → Tx Db IngestionResult
  unfolding news_upsert ◌>>=◌
  store_article none r = pure (record r { errors = r.errors + 1 })
  store_article (some m) r = do created ← news_upsert m; pure (tally created r)

  unfoldable pub news_item : ℕ → Value → IngestionResult → Tx Db IngestionResult
  news_item league_id raw = store_article (parse_article league_id (as_map raw))

  -- IngestNews. No article is no error, and no row.
  unfoldable pub ingest_news : Bytes → Bytes → ℕ → Tx Db IngestionResult
  unfolding news_item for_each resolve_sport_league load with_tx ◌>>=◌
  ingest_news sport league limit = with_tx env.fails do
    league_id ← resolve_sport_league env sport league
    root ← load env (env.get_news sport league limit)
    for_each (news_item league_id) (mslice root "articles") new_result
