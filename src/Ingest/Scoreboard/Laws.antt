-- ===== src/Ingest/Scoreboard/Laws.antt =====
-- What a run of IngestScoreboard has done when it succeeds.
use mathlib.Core.Path.{subst}
use go_espn_api.Prelude.{
  ℕ, ◌+◌, ◌≡◌, ◌≢◌, refl, ap, sym, ◌∙◌, Option, none, some, List, [], ◌∷◌, Bytes, is_empty, arith,
  if◌then◌else◌, inl, inr, Bool-cases, length,
}
use go_espn_api.Ingest.Result.{IngestionResult, new_result, total_processed}
use go_espn_api.Ingest.Json.{Value, Map, as_map, mid, mslice}
use go_espn_api.Ingest.Store.{ok, Session, for_each, find_row}
use go_espn_api.Ingest.Store.Laws.{for_each-Keeps, ok-inj, value_at}
use go_espn_api.Ingest.Store.Ids.{id_at, IsExtended, HasIds, extended-IsGrown}
use go_espn_api.Ingest.Resolve.{resolve_sport_league}
use go_espn_api.Ingest.Resolve.Laws.{service-ok, begun, decoded}
use go_espn_api.Ingest.Db.{ScopedKey, Db, Env, scoped_eq}
use go_espn_api.Ingest.Db.Keys.{scoped_eq_iff}
use go_espn_api.Ingest.Scoreboard.Rebuild.{lineup-grown}
use go_espn_api.Ingest.Scoreboard.Venues.{venue-grown}
use go_espn_api.Ingest.Scoreboard.Store.{Shows, SameEvent, Grows, of_event, store_event-Stored}
use go_espn_api.Ingest.Scoreboard.{ingest_event, event_item, store_event, ingest_scoreboard}

-- The item that stands under a key, once an item is read.
unfoldable put_item : ℕ → ScopedKey → Map → Option Map → Option Map
put_item l k item old =
    if is_empty (mid item "id")
    then old
    else if scoped_eq (l, mid item "id") k
    then some item
    else old

-- The last item of a feed with the key, or the one before the feed.
unfoldable pub last_event : ℕ → ScopedKey → List Value → Option Map → Option Map
unfolding put_item
last_event l k [] old = old
last_event l k (raw ∷ items) old = last_event l k items (put_item l k (as_map raw) old)

module _ (env : Env) (l : ℕ) where
  -- What a board shows under a key: the item, where the feed has one, or what was there.
  abbrev pub Board : ScopedKey → Option Map → Db → Db → Type 0
  Board k none before d = SameEvent k before d
  Board k (some item) before d = ((l, mid item "id") ≡ k) × Shows env l item d

  same-Shows :
      (item : Map) (d d' : Db)
      → Grows d d'
      → SameEvent (l, mid item "id") d d'
      → Shows env l item d
      → Shows env l item d'
  same-Shows item d d' (w, x, g) (i, v, c) b = record {
    id = b.id;
    venue_id = b.venue_id;
    rows = b.rows;
    at_id = i ∙ b.at_id;
    at_value = v ∙ b.at_value;
    venue = venue-grown _ d.venues d'.venues b.venue_id g b.venue;
    lineup =
        lineup-grown env l b.id d.teams d'.teams 0 _ b.rows
          (extended-IsGrown scoped_eq scoped_eq_iff d.teams d'.teams x) b.lineup;
    shown = c b.id b.at_id ∙ b.shown;
  }

  same-Board :
      (k : ScopedKey) (o : Option Map) (before d d' : Db)
      → Grows d d'
      → SameEvent k d d'
      → Board k o before d
      → Board k o before d'
  same-Board k none before d d' w (i, v, c) (i0, v0, c0) =
      (i ∙ i0, v ∙ v0, λ j h. c j (i0 ∙ h) ∙ c0 j h)
  same-Board k (some item) before d d' w e (q, b) =
      (q, same-Shows item d d' w (subst (λ z. SameEvent z d d') (sym q) e) b)

  -- What an item leaves under a key.
  abbrev Turn : ScopedKey → Map → IngestionResult → Db → IngestionResult → Db → Type 0
  Turn k item r d r' d' =
      (total_processed r' + r'.errors ≡ total_processed r + r.errors + 1)
      × (length d'.events.rows + r.created ≡ length d.events.rows + r'.created)
      × Grows d d'
      × ((o : Option Map) (before : Db)
          → Board k o before d
          → Board k (put_item l k item o) before d')

  ingest_event-Turn :
      (k : ScopedKey) (item : Map) (r : IngestionResult) (s : Session Db) (r' : IngestionResult)
      → (ingest_event env l item r s).0 ≡ ok r'
      → HasIds scoped_eq s.db.events
      → Turn k item r s.db r' (ingest_event env l item r s).1.db
  unfolding ingest_event put_item
  ingest_event-Turn k item r s r' h w = elim (Bool-cases (is_empty (mid item "id"))) [
    | inl y ↦
        let f : record r { errors = r.errors + 1 } ≡ r' = ok-inj (rw y at h) in
        rw (y, ← f) (omega arith, refl, (w, (λ j i g. g), (λ j i g. g)), λ o before b. b)
    | inr n ↦
        let (a, c, g, b, e) = store_event-Stored env l item r s r' (rw n at h) w in
        rw n (
          a,
          c,
          g,
          λ o before x. elim (Bool-cases (scoped_eq (l, mid item "id") k)) [
            | inl y ↦ rw y ((scoped_eq_iff (l, mid item "id") k).0 y, b)
            | inr m ↦
                let ne : k ≢ (l, mid item "id") =
                  ground (arith, scoped_eq_iff (l, mid item "id") k) in
                rw m (same-Board k o before s.db (store_event env l item r s).1.db g (e k ne) x)
          ],
        )
  ]

  -- The state of the loop, against what it ends in.
  abbrev Progress : ScopedKey → Db → Option Map → ℕ → List Value → IngestionResult → Db → Type 0
  Progress k before last items xs r d =
      (total_processed r + r.errors + length xs ≡ items)
      × (length d.events.rows ≡ length before.events.rows + r.created)
      × HasIds scoped_eq d.events
      × IsExtended scoped_eq before.teams d.teams
      × ((o : Option Map) × (last_event l k xs o ≡ last) × Board k o before d)

  event_item-Progress :
      (k : ScopedKey) (before : Db) (last : Option Map) (items : ℕ) (x : Value) (xs : List Value)
      (r : IngestionResult) (s : Session Db) (r' : IngestionResult)
      → (event_item env l x r s).0 ≡ ok r'
      → Progress k before last items (x ∷ xs) r s.db
      → Progress k before last items xs r' (event_item env l x r s).1.db
  unfolding event_item last_event
  event_item-Progress k before last items x xs r s r' h (p, q, w, y, (o, e, b)) =
      let (a, c, (w', y', g), f) = ingest_event-Turn k (as_map x) r s r' h w in
      (
        omega arith,
        omega arith,
        w',
        (λ j i z. y' j i (y j i z)),
        (put_item l k (as_map x) o, e, f o before b),
      )

-- A run of IngestScoreboard that succeeds, on a database whose events have ids of their own, has
-- counted every item of the response once, as created, as updated or as an error; the table of the
-- events has grown by the rows created, and has ids of their own; every team that was there has kept
-- its row. For every league and ESPN id, if the league is the resolved one and the response has an
-- item with the id, which is not blank, the database shows the last such item: the row under the key
-- has its fields, and the id of its venue, and the competitors of the row are those of the item, in
-- order, each with the id of its team. Under any other key the row, its id and its competitors are as
-- they were.
pub ingest_scoreboard_lem :
    (env : Env) (sport league date : Bytes) (s : Session Db) (r : IngestionResult) (k : ScopedKey)
    → HasIds scoped_eq s.db.events
    → (ingest_scoreboard env sport league date s).0 ≡ ok r
    → let d' = (ingest_scoreboard env sport league date s).1.db in
      (l : ℕ) × (root : Map) × ((resolve_sport_league env sport league (begun s)).0 ≡ ok l)
      × (decoded env (env.get_scoreboard sport league date) ≡ some root)
      × (total_processed r + r.errors ≡ length (mslice root "events"))
      × (length d'.events.rows ≡ length s.db.events.rows + r.created)
      × HasIds scoped_eq d'.events
      × IsExtended scoped_eq s.db.teams d'.teams
      × Board env l k (last_event l k (mslice root "events") none) s.db d'
unfolding ingest_scoreboard last_event
ingest_scoreboard_lem env sport league date s r k w h =
    let (l, root, s', e, d, c, b, f) =
      service-ok env (env.get_scoreboard sport league date)
        (λ l root. for_each (event_item env l) (mslice root "events") new_result) sport league s r
        h in
    let items = mslice root "events" in
    let last = last_event l k items none in
    let ev = ap (λ z. z.6) c in
    let begin : SameEvent k s.db s'.db = (
      ap (id_at scoped_eq k) ev,
      ap (value_at scoped_eq k) ev,
      λ i g. ap (λ z. of_event i z.7) c,
    ) in
    let (p, q, w', y, (o, x, m)) = subst (Progress env l k s.db last (length items) [] r) (sym f) (
      for_each-Keeps (event_item env l) (Progress env l k s.db last (length items))
        (event_item-Progress env l k s.db last (length items)) items new_result s' r b
        (
          omega arith,
          omega (arith, ap (λ z. length z.rows) ev),
          subst (HasIds scoped_eq) (sym ev) w,
          (λ j i g. subst (λ z. find_row scoped_eq j z.rows ≡ some i) (sym (ap (λ z. z.0) c)) g),
          (none, refl, begin),
        )) in
    (
      l,
      root,
      e,
      d,
      omega arith,
      q,
      w',
      y,
      subst (λ z. Board env l k z s.db (ingest_scoreboard env sport league date s).1.db) x m,
    )
