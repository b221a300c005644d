-- ===== src/Ingest/News/Laws.antt =====
-- What a run of IngestNews has done when it succeeds.
use go_espn_api.Prelude.{
  ℕ, ◌+◌, ◌≡◌, refl, ap, sym, ◌∙◌, Bool, Option, none, some, List, [], ◌∷◌, Bytes, bytes_eq,
  bytes_eq_iff, arith, if◌then◌else◌, length,
}
use go_espn_api.Ingest.Result.{IngestionResult, new_result, total_processed, tally, tally-counts}
use go_espn_api.Ingest.Json.{Value, Map, as_map, mslice}
use go_espn_api.Ingest.Store.{ok, Session, Tx, for_each, pure, upsert}
use go_espn_api.Ingest.Store.Laws.{
  upsert-length, upsert-value, value_at, for_each-Keeps, statement-ok, ok-inj,
}
use go_espn_api.Ingest.Resolve.{resolve_sport_league}
use go_espn_api.Ingest.Resolve.Laws.{service-ok, begun, decoded}
use go_espn_api.Ingest.Db.{NewsArticle, Db, Env}
use go_espn_api.Ingest.News.{parse_article, news_row, store_article, news_item, ingest_news}

-- The value that an article leaves under a key whose value was `old`.
unfoldable put_article : Env → Bytes → Option NewsArticle → Option NewsArticle → Option NewsArticle
put_article env k none old = old
put_article env k (some m) old = if bytes_eq m.espn_id k then some (news_row env m) else old

-- The value under a key after a feed: that of the last article in it with the key, if there is one.
unfoldable pub last_article : Env → ℕ → Bytes → List Value → Option NewsArticle → Option NewsArticle
unfolding put_article
last_article env l k [] old = old
last_article env l k (raw ∷ articles) old =
    last_article env l k articles (put_article env k (parse_article env l (as_map raw)) old)

module _ (env : Env) where
  -- One article: it is counted once, a row that is new is counted as created, and its key has its value.
  store_article-effect :
      (o : Option NewsArticle) (r : IngestionResult) (s : Session Db) (r' : IngestionResult)
      (k : Bytes)
      → (store_article env o r s).0 ≡ ok r'
      → let d' = (store_article env o r s).1.db in
        (total_processed r' + r'.errors ≡ total_processed r + r.errors + 1)
        × (length d'.news.rows + r.created ≡ length s.db.news.rows + r'.created)
        × (value_at bytes_eq k d'.news ≡ put_article env k o (value_at bytes_eq k s.db.news))
  unfolding store_article put_article
  store_article-effect none r s r' k h =
      let e : record r { errors = r.errors + 1 } ≡ r' = cc in rw (← e) (omega arith, refl, refl)
  store_article-effect (some m) r s r' k h =
      let turn : Db → Bool × Db = λ db. (
        (upsert bytes_eq m.espn_id (news_row env m) db.news).0.inserted,
        record db { news = (upsert bytes_eq m.espn_id (news_row env m) db.news).1 },
      ) in
      let q = statement-ok env.fails turn (λ created. pure (tally created r)) s r' h in
      let e : tally (turn s.db).0 r ≡ r' = ok-inj (sym (ap (λ z. z.0) q) ∙ h) in
      rw (ap (λ z. z.1.db) q, ← e)
        (
          (tally-counts (turn s.db).0 r).0,
          omega (
            arith,
            (tally-counts (turn s.db).0 r).1,
            upsert-length bytes_eq bytes_eq_iff m.espn_id (news_row env m) s.db.news,
          ),
          upsert-value bytes_eq bytes_eq_iff m.espn_id k (news_row env m) s.db.news,
        )

  -- The state of the loop, against that at its start.
  abbrev Progress :
      ℕ → Bytes → ℕ → ℕ → Option NewsArticle → List Value → IngestionResult → Db → Type 0
  Progress l k total rows v articles r db =
      (total_processed r + r.errors + length articles ≡ total)
      × (length db.news.rows ≡ rows + r.created)
      × (last_article env l k articles (value_at bytes_eq k db.news) ≡ v)

  news_item-Progress :
      (l : ℕ) (k : Bytes) (total rows : ℕ) (v : Option NewsArticle) (x : Value) (xs : List Value)
      (r : IngestionResult) (s : Session Db) (r' : IngestionResult)
      → (news_item env l x r s).0 ≡ ok r'
      → Progress l k total rows v (x ∷ xs) r s.db
      → Progress l k total rows v xs r' (news_item env l x r s).1.db
  unfolding news_item last_article
  news_item-Progress l k total rows v x xs r s r' h (p, q, e) =
      let (a, b, c) = store_article-effect (parse_article env l (as_map x)) r s r' k h in
      (omega arith, omega arith, ap (last_article env l k xs) c ∙ e)

-- A run of IngestNews that succeeds has counted every article of the response once, as created, as
-- updated or as an error; the table has grown by the rows created; and for every ESPN id the table
-- has the last article with that id in the response, as parsed for the resolved league, or what it
-- had when no parsed article has the id.
pub ingest_news_lem :
    (env : Env) (sport league : Bytes) (limit : ℕ) (s : Session Db) (r : IngestionResult)
    (k : Bytes)
    → (ingest_news env sport league limit s).0 ≡ ok r
    → let news' = (ingest_news env sport league limit s).1.db.news in
      (l : ℕ) × (root : Map) × ((resolve_sport_league env sport league (begun s)).0 ≡ ok l)
      × (decoded env (env.get_news sport league limit) ≡ some root)
      × (total_processed r + r.errors ≡ length (mslice root "articles"))
      × (length news'.rows ≡ length s.db.news.rows + r.created)
      × (value_at bytes_eq k news'
          ≡ last_article env l k (mslice root "articles") (value_at bytes_eq k s.db.news))
unfolding ingest_news last_article
ingest_news_lem env sport league limit s r k h =
    let body : ℕ → Map → Tx Db IngestionResult =
      λ l root. for_each (news_item env l) (mslice root "articles") new_result in
    let (l, root, s', e, d, c, b, f) =
      service-ok env (env.get_news sport league limit) body sport league s r h in
    let n : s'.db.news ≡ s.db.news = ap (λ z. z.1) c in
    let (p, q, v) =
      for_each-Keeps (news_item env l)
        (Progress env l k (length (mslice root "articles")) (length s.db.news.rows)
          (last_article env l k (mslice root "articles") (value_at bytes_eq k s.db.news)))
        (news_item-Progress env l k (length (mslice root "articles")) (length s.db.news.rows)
          (last_article env l k (mslice root "articles") (value_at bytes_eq k s.db.news)))
        (mslice root "articles") new_result s' r b
        (
          omega arith,
          rw (ap (λ z. length z.rows) n) (omega arith),
          ap (λ z. last_article env l k (mslice root "articles") (value_at bytes_eq k z)) n,
        ) in
    let m = ap (λ z. z.news) f in
    (l, root, e, d, omega arith, ap (λ z. length z.rows) m ∙ q, ap (value_at bytes_eq k) m ∙ v)
