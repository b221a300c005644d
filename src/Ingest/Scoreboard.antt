-- ===== src/Ingest/Scoreboard.antt =====
-- IngestScoreboard of internal/ingest/scoreboard.go, over the statements of the venue, event, team
-- and competitor repositories.
pub mod Competitors
pub mod Rebuild
pub mod Venues
pub mod Store
pub mod Laws
use go_espn_api.Prelude.{
  ℕ, ◌+◌, Bool, true, Option, none, some, List, [], ◌∷◌, Bytes, codes, is_empty, pos, if◌then◌else◌,
}
use go_espn_api.Ingest.Result.{IngestionResult, new_result, tally}
use go_espn_api.Ingest.Json.{
  Value, Map, str, no_member, as_map, get, mid, mstr, mstr_or, mbool, mint, mint_ptr, mslice, mmap,
  raw_obj, raw_map,
}
use go_espn_api.Ingest.Parse.{parse_event_status, parse_event_time}
use go_espn_api.Ingest.Store.{Tx, Upserted, statement, upsert, with_tx, for_each, ◌>>=◌, ◌>>◌, pure}
use go_espn_api.Ingest.Db.{Venue, Event, ScopedKey, Db, Env, json_or_default, scoped_eq}
use go_espn_api.Ingest.Resolve.{resolve_sport_league, load}
use Competitors.{create_competitor, delete_by_event}
use go_espn_api.Prelude.{bytes_eq}

abbrev str_or : Value → Bytes → Bytes
str_or (str s) def = s
str_or _ def = def

-- The first competition, or an empty map.
abbrev first_competition : List Value → Map
first_competition [] = some no_member
first_competition (c ∷ cs) = as_map c

unfoldable pub competition_of : Map → Map
competition_of item = first_competition (mslice item "competitions")

abbrev pub venue_of : Map → Map
venue_of item = mmap (competition_of item) "venue"

-- defaultSeasonType.
abbrev default_season_type : ℕ
default_season_type = 2

module _ (env : Env) where
  -- The model that upsertVenue builds.
  unfoldable pub parse_venue : Map → Venue
  parse_venue venue =
      let address = mmap venue "address" in
      record {
        name = mstr_or venue ("fullName" ∷ "shortName" ∷ []);
        city = mstr address "city";
        state = mstr address "state";
        country = str_or (get address "country") (codes "USA");
        is_indoor = mbool venue "indoor" true;
        capacity = mint_ptr venue "capacity";
        raw_data = raw_map env.marshal venue (codes "{}");
      }

  abbrev venue_row : Venue → Venue
  venue_row v = record v { raw_data = json_or_default v.raw_data (codes "{}") }

  -- UpsertTx of the venue repository.
  unfoldable pub venue_upsert : Bytes → Venue → Tx Db ℕ
  venue_upsert espn_id v = statement env.fails λ db.
      let (u, t) = upsert bytes_eq espn_id (venue_row v) db.venues in
      (u.id, record db { venues = t })

  -- upsertVenue.
  unfoldable pub upsert_venue : Map → Tx Db (Option ℕ)
  unfolding venue_upsert ◌>>=◌
  upsert_venue venue =
      if is_empty (mid venue "id")
      then pure none
      else (venue_upsert (mid venue "id") (parse_venue venue) >>= λ id. pure (some id))

  -- The model that ingestEvent builds, without its key.
  unfoldable pub parse_event : Map → Option ℕ → Event
  parse_event item venue_id =
      let competition = competition_of item in
      let status_data = mmap item "status" in
      let season = mmap item "season" in
      let date = parse_event_time env.parse_time env.now (mstr item "date") in
      record {
        venue_id = venue_id;
        uid = mstr item "uid";
        date = date;
        name = mstr item "name";
        short_name = mstr item "shortName";
        season_year = mint season "year" (env.year_of date);
        season_type = mint season "type" (pos default_season_type);
        season_slug = mstr season "slug";
        week = mint_ptr (mmap item "week") "number";
        status = (parse_event_status status_data).0;
        status_detail = (parse_event_status status_data).1;
        clock = mstr status_data "displayClock";
        period = mint_ptr status_data "period";
        attendance = mint_ptr competition "attendance";
        broadcasts = raw_obj env.marshal (get competition "broadcasts") (codes "[]");
        links = raw_obj env.marshal (get item "links") (codes "[]");
        raw_data = raw_map env.marshal item (codes "{}");
      }

  -- The arguments of the upsert.
  unfoldable pub event_row : Event → Event
  event_row m = record m {
    broadcasts = json_or_default m.broadcasts (codes "[]");
    links = json_or_default m.links (codes "[]");
    raw_data = json_or_default m.raw_data (codes "{}");
  }

  -- UpsertTx of the event repository.
  unfoldable pub event_upsert : ℕ → Bytes → Event → Tx Db Upserted
  event_upsert league_id espn_id m = statement env.fails λ db.
      let (u, t) = upsert scoped_eq (league_id, espn_id) (event_row m) db.events in
      (u, record db { events = t })

  -- The competitors of an event are deleted and made anew; the index goes along.
  unfoldable pub rebuild_competitors : ℕ → ℕ → List Value → Tx Db ℕ
  unfolding for_each ◌>>=◌
  rebuild_competitors league_id event_id items =
      delete_by_event env event_id >> for_each (create_competitor env league_id event_id) items 0

  -- ingestEvent, behind the test of the id.
  unfoldable pub store_event : ℕ → Map → IngestionResult → Tx Db IngestionResult
  unfolding upsert_venue event_upsert rebuild_competitors ◌>>=◌
  store_event league_id item r = do
    venue_id ← upsert_venue (venue_of item)
    u ← event_upsert league_id (mid item "id") (parse_event item venue_id)
    n ← rebuild_competitors league_id u.id (mslice (competition_of item) "competitors")
    pure (tally u.inserted r)

  -- ingestEvent: an item without an id is counted.
  unfoldable pub ingest_event : ℕ → Map → IngestionResult → Tx Db IngestionResult
  unfolding store_event
  ingest_event league_id item r =
      if is_empty (mid item "id")
      then pure (record r { errors = r.errors + 1 })
      else store_event league_id item r

  unfoldable pub event_item : ℕ → Value → IngestionResult → Tx Db IngestionResult
  event_item league_id raw = ingest_event league_id (as_map raw)

  -- IngestScoreboard.
  unfoldable pub ingest_scoreboard : Bytes → Bytes → Bytes → Tx Db IngestionResult
  unfolding event_item for_each resolve_sport_league load with_tx ◌>>=◌
  ingest_scoreboard sport league date = with_tx env.fails do
    league_id ← resolve_sport_league env sport league
    root ← load env (env.get_scoreboard sport league date)
    for_each (event_item league_id) (mslice root "events") new_result
