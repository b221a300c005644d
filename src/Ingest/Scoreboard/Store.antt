-- ===== src/Ingest/Scoreboard/Store.antt =====
-- What storing one event does when it succeeds.
use mathlib.Core.Path.{subst}
use go_espn_api.Prelude.{
  ℕ, ◌+◌, ◌==◌, ◌≡◌, ◌≢◌, refl, ap, sym, ◌∙◌, true, false, not, Option, some, List, [], ◌∷◌, ◌++◌,
  bytes_eq, arith, keep_if, keep_if-append, length, if◌then◌else◌, append-nil,
}
use go_espn_api.Ingest.Json.{Value, Map, mid, mslice}
use go_espn_api.Ingest.Result.{IngestionResult, tally, tally-counts, total_processed}
use go_espn_api.Ingest.Store.{Table, Upserted, ok, Session, ◌>>=◌, for_each, pure, upsert}
use go_espn_api.Ingest.Store.Laws.{
  statement-ok, bind-ok, ok-inj, value_at, upsert-value, upsert-length,
}
use go_espn_api.Ingest.Store.Ids.{
  id_at, IsExtended, IsGrown, HasIds, upsert-id_at, upsert-HasIds, upsert-id,
}
use go_espn_api.Ingest.Db.{Team, Event, Competitor, ScopedKey, Db, Env, scoped_eq}
use go_espn_api.Ingest.Db.Keys.{scoped_eq_iff}
use go_espn_api.Ingest.Scoreboard.Competitors.{delete_by_event, create_competitor, parse_competitor}
use go_espn_api.Ingest.Scoreboard.Rebuild.{
  Lineup, nobody, skipped, placed, Rebuilt, competitors_lem,
}
use go_espn_api.Ingest.Scoreboard.Venues.{VenueIs, Housed, upsert_venue-Housed}
use go_espn_api.Ingest.Scoreboard.{
  venue_of, competition_of, upsert_venue, parse_event, event_row, event_upsert, rebuild_competitors,
  store_event,
}

-- The competitors of an event.
abbrev pub of_event : ℕ → List Competitor → List Competitor
of_event e = keep_if (λ c. c.event_id == e)

-- Those of the others.
abbrev pub not_of_event : ℕ → List Competitor → List Competitor
not_of_event e = keep_if (λ c. not (c.event_id == e))

of-not_of : (e : ℕ) (cs : List Competitor) → of_event e (not_of_event e cs) ≡ []
of-not_of e [] = refl
of-not_of e (c ∷ cs) = ground (arith, of-not_of e cs)

of-not_of_other :
    (e i : ℕ) (cs : List Competitor) → i ≢ e → of_event i (not_of_event e cs) ≡ of_event i cs
of-not_of_other e i [] n = refl
of-not_of_other e i (c ∷ cs) n = ground (arith, of-not_of_other e i cs n)

module _ (env : Env) (l e : ℕ) (teams : Table ScopedKey Team) where
  lineup-own :
      (idx : ℕ) (cs : List Value) (rows : List Competitor)
      → Lineup env l e teams idx cs rows
      → of_event e rows ≡ rows
  unfolding parse_competitor
  lineup-own idx cs rows (nobody i) = refl
  lineup-own idx cs rows (skipped i c ds ys y p) = lineup-own (i + 1) ds ys p
  lineup-own idx cs rows (placed i c ds ys t n h p) = ground (arith, lineup-own (i + 1) ds ys p)

  lineup-other :
      (j : ℕ) (idx : ℕ) (cs : List Value) (rows : List Competitor)
      → j ≢ e
      → Lineup env l e teams idx cs rows
      → of_event j rows ≡ []
  unfolding parse_competitor
  lineup-other j idx cs rows ne (nobody i) = refl
  lineup-other j idx cs rows ne (skipped i c ds ys y p) = lineup-other j (i + 1) ds ys ne p
  lineup-other j idx cs rows ne (placed i c ds ys t n h p) =
      ground (arith, lineup-other j (i + 1) ds ys ne p)

-- What a step leaves of an event: its id, its row and its competitors.
abbrev pub SameEvent : ScopedKey → Db → Db → Type 0
SameEvent k d d' =
    (id_at scoped_eq k d'.events ≡ id_at scoped_eq k d.events)
    × (value_at scoped_eq k d'.events ≡ value_at scoped_eq k d.events)
    × ((i : ℕ)
        → id_at scoped_eq k d.events ≡ some i
        → of_event i d'.competitors ≡ of_event i d.competitors)

-- What a step leaves of the database.
abbrev pub Grows : Db → Db → Type 0
Grows d d' =
    HasIds scoped_eq d'.events
    × IsExtended scoped_eq d.teams d'.teams
    × IsGrown bytes_eq d.venues d'.venues

module _ (env : Env) where
  -- What the rebuilding leaves.
  rebuild-Rebuilt :
      (l e : ℕ) (items : List Value) (s : Session Db) (n : ℕ)
      → (rebuild_competitors env l e items s).0 ≡ ok n
      → Rebuilt env l e items 0
          (record s.db { competitors = not_of_event e s.db.competitors })
          (rebuild_competitors env l e items s).1.db
  unfolding rebuild_competitors delete_by_event
  rebuild-Rebuilt l e items s n h =
      let turn : Db → Unit × Db =
        λ d. (tt, record d { competitors = not_of_event e d.competitors }) in
      let q =
        statement-ok env.fails turn (λ u. for_each (create_competitor env l e) items 0) s n h in
      rw (ap (λ z. z.1.db) q) (
        competitors_lem env l e items 0 (record { db = (turn s.db).1; clock = s.clock + 1 }) n
          (sym (ap (λ z. z.0) q) ∙ h))

  -- An item as the database shows it: the row of the event, with the venue, and its competitors.
  pub record Shows (l : ℕ) (item : Map) (d : Db) : Type 0 where
    pub id : ℕ
    pub venue_id : Option ℕ
    pub rows : List Competitor
    pub at_id : id_at scoped_eq (l, mid item "id") d.events ≡ some id
    pub at_value :
        value_at scoped_eq (l, mid item "id") d.events
        ≡ some (event_row env (parse_event env item venue_id))
    pub venue : VenueIs (venue_of item) d.venues venue_id
    pub lineup : Lineup env l id d.teams 0 (mslice (competition_of item) "competitors") rows
    pub shown : of_event id d.competitors ≡ rows

  -- The step in one piece, from the parts: the venue, the event, the competitors.
  module _ (l : ℕ) (item : Map) (d d1 d' : Db) (v : Option ℕ) where
    abbrev key : ScopedKey
    key = (l, mid item "id")

    abbrev done : Upserted × Table ScopedKey Event
    done = upsert scoped_eq key (event_row env (parse_event env item v)) d1.events

    abbrev ready : Db
    ready = record d1 { events = done.1; competitors = not_of_event done.0.id d1.competitors }

    abbrev Parts : Type 0
    Parts =
        Housed (venue_of item) v d d1
        × Rebuilt env l done.0.id (mslice (competition_of item) "competitors") 0 ready d'

    abbrev stored : Event
    stored = event_row env (parse_event env item v)

    done-HasIds : HasIds scoped_eq d.events → d1.events ≡ d.events → HasIds scoped_eq done.1
    done-HasIds w e =
        upsert-HasIds scoped_eq scoped_eq_iff key stored d1.events
          (subst (HasIds scoped_eq) (sym e) w)

    parts-Grows : HasIds scoped_eq d.events → Parts → Grows d d'
    parts-Grows w ((p, g, e, t, c), (rows, q, m, (x, u, y))) = (
      subst (HasIds scoped_eq) (sym u) (done-HasIds w e),
      subst (λ z. IsExtended scoped_eq z d'.teams) t x,
      subst (IsGrown bytes_eq d.venues) (sym y) g,
    )

    parts-Shows : Parts → Shows l item d'
    parts-Shows ((p, g, e, t, c), (rows, q, m, (x, u, y))) = record {
      id = done.0.id;
      venue_id = v;
      rows = rows;
      at_id =
          ap (id_at scoped_eq key) u ∙ upsert-id_at scoped_eq scoped_eq_iff key stored d1.events;
      at_value =
          let same : scoped_eq key key ≡ true = (scoped_eq_iff key key).1 refl in
          ap (value_at scoped_eq key) u
          ∙ upsert-value scoped_eq scoped_eq_iff key key stored d1.events
          ∙ rw same refl;
      venue = subst (λ z. VenueIs (venue_of item) z v) (sym y) p;
      lineup = q;
      shown =
          ap (of_event done.0.id) m
          ∙ keep_if-append (λ c. c.event_id == done.0.id) (not_of_event done.0.id d1.competitors)
              rows
          ∙ ap (λ z. z ++ of_event done.0.id rows) (of-not_of done.0.id d1.competitors)
          ∙ lineup-own env l done.0.id d'.teams 0 _ rows q;
    }

    parts-length :
        Parts → length d'.events.rows ≡ length d.events.rows + (if done.0.inserted then 1 else 0)
    parts-length ((p, g, e, t, c), (rows, q, m, (x, u, y))) =
        ap (λ z. length z.rows) u
        ∙ upsert-length scoped_eq scoped_eq_iff key stored d1.events
        ∙ ap (λ z. length z.rows + (if done.0.inserted then 1 else 0)) e

    parts-SameEvent :
        (k : ScopedKey) → HasIds scoped_eq d.events → k ≢ key → Parts → SameEvent k d d'
    parts-SameEvent k w n ((p, g, e, t, c), (rows, q, m, (x, u, y))) =
        let other : scoped_eq key k ≡ false = ground (arith, scoped_eq_iff key k) in
        let same : id_at scoped_eq k done.1 ≡ id_at scoped_eq k d.events =
          upsert-id scoped_eq scoped_eq_iff key k stored d1.events
          ∙ rw other (ap (id_at scoped_eq k) e) in
        (
          ap (id_at scoped_eq k) u ∙ same,
          ap (value_at scoped_eq k) u
              ∙ upsert-value scoped_eq scoped_eq_iff key k stored d1.events
              ∙ rw other (ap (value_at scoped_eq k) e),
          λ i h.
              let ne : i ≢ done.0.id = λ f. n (
                (done-HasIds w e).apart k key i (same ∙ h)
                  (upsert-id_at scoped_eq scoped_eq_iff key stored d1.events ∙ ap some (sym f))) in
              ap (of_event i) m
              ∙ keep_if-append (λ c. c.event_id == i) (not_of_event done.0.id d1.competitors) rows
              ∙ ap (λ z. of_event i (not_of_event done.0.id d1.competitors) ++ z)
                  (lineup-other env l done.0.id d'.teams i 0 _ rows ne q)
              ∙ append-nil _
              ∙ of-not_of_other done.0.id i d1.competitors ne
              ∙ ap (of_event i) c,
        )

  -- The run passes through the parts.
  store_event-Parts :
      (l : ℕ) (item : Map) (r : IngestionResult) (s : Session Db) (r' : IngestionResult)
      → (store_event env l item r s).0 ≡ ok r'
      → (d1 : Db) × (v : Option ℕ) × (r'
          ≡ tally (done l item s.db d1 (store_event env l item r s).1.db v).0.inserted r)
        × Parts l item s.db d1 (store_event env l item r s).1.db v
  unfolding store_event event_upsert
  store_event-Parts l item r s r' h =
      let (v, h1, q1) = bind-ok (upsert_venue env (venue_of item)) _ s r' h in
      let s1 = (upsert_venue env (venue_of item) s).1 in
      let k : ScopedKey = (l, mid item "id") in
      let turn : Db → Upserted × Db = λ d. (
        (upsert scoped_eq k (event_row env (parse_event env item v)) d.events).0,
        record d {
          events = (upsert scoped_eq k (event_row env (parse_event env item v)) d.events).1;
        },
      ) in
      let q2 =
        statement-ok env.fails turn
          (λ u. rebuild_competitors env l u.id (mslice (competition_of item) "competitors") >>= λ n.
            pure (tally u.inserted r))
          s1 r' (sym (ap (λ z. z.0) q1) ∙ h) in
      let s2 : Session Db = record { db = (turn s1.db).1; clock = s1.clock + 1 } in
      let u = (turn s1.db).0 in
      let (n, h3, q3) =
        bind-ok (rebuild_competitors env l u.id (mslice (competition_of item) "competitors"))
          (λ n. pure (tally u.inserted r)) s2 r' (sym (ap (λ z. z.0) (q1 ∙ q2)) ∙ h) in
      let q = q1 ∙ q2 ∙ q3 in
      (
        s1.db,
        v,
        sym (ok-inj (sym (ap (λ z. z.0) q) ∙ h)),
        (
          upsert_venue-Housed env (venue_of item) s v h1,
          rw (ap (λ z. z.1.db) q) (rebuild-Rebuilt l u.id _ s2 n h3),
        ),
      )

  -- What storing an item leaves of the counts, of itself and of the other events.
  abbrev pub Stored : ℕ → Map → IngestionResult → Db → IngestionResult → Db → Type 0
  Stored l item r d r' d' =
      (total_processed r' + r'.errors ≡ total_processed r + r.errors + 1)
      × (length d'.events.rows + r.created ≡ length d.events.rows + r'.created)
      × Grows d d'
      × Shows l item d'
      × ((k : ScopedKey) → k ≢ (l, mid item "id") → SameEvent k d d')

  pub store_event-Stored :
      (l : ℕ) (item : Map) (r : IngestionResult) (s : Session Db) (r' : IngestionResult)
      → (store_event env l item r s).0 ≡ ok r'
      → HasIds scoped_eq s.db.events
      → Stored l item r s.db r' (store_event env l item r s).1.db
  store_event-Stored l item r s r' h w =
      let (d1, v, e, p) = store_event-Parts l item r s r' h in
      let d' = (store_event env l item r s).1.db in
      let b = (done l item s.db d1 d' v).0.inserted in
      let (c1, c2) = tally-counts b r in
      (
        ap (λ z. total_processed z + z.errors) e ∙ c1,
        omega (arith, parts-length l item s.db d1 d' v p, c2, ap (λ z. z.created) e),
        parts-Grows l item s.db d1 d' v w p,
        parts-Shows l item s.db d1 d' v p,
        λ k n. parts-SameEvent l item s.db d1 d' v k w n p,
      )
