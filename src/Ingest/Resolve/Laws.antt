-- ===== src/Ingest/Resolve/Laws.antt =====
-- How a run of an ESPN service starts when it succeeds: the league is resolved, the response decoded.
use go_espn_api.Prelude.{ℕ, ◌+◌, ◌≡◌, refl, ap, sym, ◌∙◌, Option, some, none, Bytes, List}
use go_espn_api.Ingest.Json.{Map}
use go_espn_api.Ingest.Parse.{sport_default, league_defaults}
use go_espn_api.Ingest.Store.{Table, Tx, Session, ok, Error, decode, ◌>>=◌, require, with_tx}
use go_espn_api.Ingest.Store.Laws.{statement-Keeps, bind-Keeps, with_tx-ok, bind-ok, ok-inj}
use go_espn_api.Ingest.Db.{
  Db, Env, ScopedKey, Team, NewsArticle, Injury, Transaction, NhlTeam, Venue, Event, Competitor,
}
use go_espn_api.Ingest.Resolve.{
  sport_get_or_create, league_get_or_create, resolve_sport_league, load,
}

-- The tables of the content.
abbrev pub content :
    Db
    → Table ScopedKey Team
      × Table Bytes NewsArticle
      × List Injury
      × Table ScopedKey Transaction
      × Table Bytes NhlTeam
      × Table Bytes Venue
      × Table ScopedKey Event
      × List Competitor
content d =
    (d.teams, d.news, d.injuries, d.transactions, d.nhl_teams, d.venues, d.events, d.competitors)

-- A session after the BEGIN of a transaction.
abbrev pub begun : Session Db → Session Db
begun s = record s { clock = s.clock + 1 }

module _ (env : Env) where
  abbrev pub decoded : Option Bytes → Option Map
  decoded none = none
  decoded (some body) = env.unmarshal body

  require-ok :
      {A : Type 0} (e : Error) (o : Option A) (s : Session Db) (a : A)
      → (require e o s).0 ≡ ok a
      → (o ≡ some a) × ((require e o s).1 ≡ s)
  require-ok e none s a h = cc
  require-ok e (some x) s a h = (ap some (ok-inj h), refl)

  load-ok :
      (response : Option Bytes) (s : Session Db) (root : Map)
      → (load env response s).0 ≡ ok root
      → (decoded response ≡ some root) × ((load env response s).1 ≡ s)
  unfolding load ◌>>=◌
  load-ok none s root h = cc
  load-ok (some body) s root h = require-ok decode (env.unmarshal body) s root h

  require-db : {A : Type 0} (e : Error) (o : Option A) (s : Session Db) → (require e o s).1 ≡ s
  require-db e none s = refl
  require-db e (some x) s = refl

  pub load-db : (response : Option Bytes) (s : Session Db) → (load env response s).1 ≡ s
  unfolding load ◌>>=◌
  load-db none s = refl
  load-db (some body) s = require-db decode (env.unmarshal body) s

  -- A fetch that the run gets past has given a payload, and has left the session alone.
  pub loaded-ok :
      {R : Type 0} (response : Option Bytes) (body : Map → Tx Db R) (s : Session Db) (r : R)
      → ((load env response >>= body) s).0 ≡ ok r
      → (root : Map) × (decoded response ≡ some root)
        × ((load env response >>= body) s ≡ body root s)
  loaded-ok response body s r h =
      let (root, e, q) = bind-ok (load env response) body s r h in
      let (d, t) = load-ok response s root e in (root, d, q ∙ ap (body root) t)

  resolve-content :
      (sport league : Bytes) (s : Session Db)
      → content (resolve_sport_league env sport league s).1.db ≡ content s.db
  unfolding resolve_sport_league sport_get_or_create league_get_or_create
  resolve-content sport league s =
      bind-Keeps (sport_get_or_create env sport (sport_default env.sport_names sport))
        (λ id. league_get_or_create env id league (league_defaults env.league_info league)) content
        (statement-Keeps env.fails _ content λ db. refl)
        (λ a. statement-Keeps env.fails _ content λ db. refl) s

  -- A service that succeeds has run its body with the id of the league and with the response decoded,
  -- over the content as it was, and what it leaves is what the body left.
  pub service-ok :
      {R : Type 0} (response : Option Bytes) (body : ℕ → Map → Tx Db R) (sport league : Bytes)
      (s : Session Db) (r : R)
      → let run =
          with_tx env.fails
            (resolve_sport_league env sport league >>= λ l. load env response >>= body l) in
        (run s).0 ≡ ok r
        → (l : ℕ) × (root : Map) × (s' : Session Db) × ((resolve_sport_league env sport league
              (begun s)).0
            ≡ ok l)
          × (decoded response ≡ some root)
          × (content s'.db ≡ content s.db)
          × ((body l root s').0 ≡ ok r)
          × ((run s).1.db ≡ (body l root s').1.db)
  service-ok response body sport league s r h =
      let (h1, d1) =
        with_tx-ok env.fails
          (resolve_sport_league env sport league >>= λ l. load env response >>= body l) s r h in
      let (l, h2, q2) =
        bind-ok (resolve_sport_league env sport league) (λ l. load env response >>= body l)
          (begun s) r h1 in
      let s1 = (resolve_sport_league env sport league (begun s)).1 in
      let (root, h3, q3) =
        bind-ok (load env response) (body l) s1 r (sym (ap (λ z. z.0) q2) ∙ h1) in
      let (e, t) = load-ok response s1 root h3 in
      (
        l,
        root,
        s1,
        h2,
        e,
        resolve-content sport league (begun s),
        ap (λ z. (body l root z).0) (sym t) ∙ sym (ap (λ z. z.0) q3) ∙ sym (ap (λ z. z.0) q2) ∙ h1,
        d1 ∙ ap (λ z. z.1.db) q2 ∙ ap (λ z. z.1.db) q3 ∙ ap (λ z. (body l root z).1.db) t,
      )
