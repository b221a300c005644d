-- ===== src/Reads/Detail.antt =====
-- An event by its id or its ESPN id: GetByID and GetByESPNID of internal/handlers/event, of the
-- service with buildDetail, and of the repository; EventDetailResponse of the dto.
--
-- A query for one row answers `none` where it fails, and `some none` where there is no row.
pub mod Laws
use mathlib.Core.Option
use go_espn_api.Prelude.{
  ℕ, Bool, true, false, ◌&&◌, Option, none, some, List, [], ◌∷◌, Bytes, codes, ℤ, pos, negsuc, atoi,
}
use go_espn_api.Ingest.Json.{Map}
use go_espn_api.Http.Failure.{Reply}
use go_espn_api.Reads.Sql.{Arg, text, number}
use go_espn_api.Reads.Listing.{query_failed}
use go_espn_api.Reads.Competitors.{
  CompetitorRow, CompetitorResponse, jsonb_array, group_at, group_competitors,
}
use go_espn_api.Reads.Events.{competitors_by_event_ids}

pub record LeagueMinimal : Type 0 where
  pub id : ℕ
  pub slug : Bytes
  pub name : Bytes
  pub abbreviation : Bytes
  pub sport_slug : Bytes

pub record EventDetailRow (T : Type 0) : Type 0 where
  pub id : ℕ
  pub espn_id : Bytes
  pub uid : Bytes
  pub date : T
  pub name : Bytes
  pub short_name : Bytes
  pub season_year : ℤ
  pub season_type : ℤ
  pub season_slug : Bytes
  pub week : Option ℤ
  pub status : Bytes
  pub status_detail : Bytes
  pub clock : Bytes
  pub period : Option ℤ
  pub attendance : Option ℤ
  pub broadcasts : Bytes
  pub links : Bytes
  pub created_at : T
  pub updated_at : T
  pub league : LeagueMinimal
  pub venue_id : Option ℕ
  pub venue_espn_id : Option Bytes
  pub venue_name : Option Bytes
  pub venue_city : Option Bytes
  pub venue_state : Option Bytes
  pub venue_country : Option Bytes
  pub venue_is_indoor : Option Bool
  pub venue_capacity : Option ℤ
  pub venue_created_at : Option T
  pub venue_updated_at : Option T

pub record VenueResponse (T : Type 0) : Type 0 where
  pub id : ℕ
  pub espn_id : Bytes
  pub name : Bytes
  pub city : Bytes
  pub state : Bytes
  pub country : Bytes
  pub is_indoor : Bool
  pub capacity : Option ℤ
  pub created_at : Option T
  pub updated_at : Option T

pub record EventDetailResponse (T : Type 0) : Type 0 where
  pub id : ℕ
  pub espn_id : Bytes
  pub uid : Bytes
  pub date : T
  pub name : Bytes
  pub short_name : Bytes
  pub season_year : ℤ
  pub season_type : ℤ
  pub season_slug : Bytes
  pub week : Option ℤ
  pub status : Bytes
  pub status_detail : Bytes
  pub clock : Bytes
  pub period : Option ℤ
  pub attendance : Option ℤ
  pub broadcasts : Bytes
  pub links : Bytes
  pub league : LeagueMinimal
  pub venue : Option (VenueResponse T)
  pub competitors : List CompetitorResponse
  pub created_at : T
  pub updated_at : T

-- derefString.
abbrev pub deref_string : Option Bytes → Bytes
deref_string none = []
deref_string (some s) = s

abbrev is_true : Option Bool → Bool
is_true (some true) = true
is_true _ = false

abbrev detail_venue : {T : Type 0} → EventDetailRow T → Option ℕ → Option (VenueResponse T)
detail_venue r none = none
detail_venue r (some id) = some (record {
  id = id;
  espn_id = deref_string r.venue_espn_id;
  name = deref_string r.venue_name;
  city = deref_string r.venue_city;
  state = deref_string r.venue_state;
  country = deref_string r.venue_country;
  is_indoor = is_true r.venue_is_indoor;
  capacity = r.venue_capacity;
  created_at = r.venue_created_at;
  updated_at = r.venue_updated_at;
})

-- NewEventDetailResponse.
unfoldable pub new_event_detail_response :
    {T : Type 0} → EventDetailRow T → List CompetitorResponse → EventDetailResponse T
new_event_detail_response r competitors = record {
  id = r.id;
  espn_id = r.espn_id;
  uid = r.uid;
  date = r.date;
  name = r.name;
  short_name = r.short_name;
  season_year = r.season_year;
  season_type = r.season_type;
  season_slug = r.season_slug;
  week = r.week;
  status = r.status;
  status_detail = r.status_detail;
  clock = r.clock;
  period = r.period;
  attendance = r.attendance;
  broadcasts = jsonb_array r.broadcasts;
  links = jsonb_array r.links;
  league = r.league;
  venue = detail_venue r r.venue_id;
  competitors = competitors;
  created_at = r.created_at;
  updated_at = r.updated_at;
}

-- What a handler answers: DRFNotFound with its text, an error, or the object.
pub data DetailReply (R : Type 0) : Type 0 where
  not_found : Bytes → DetailReply R
  broken : Reply → DetailReply R
  found : R → DetailReply R

abbrev pub reply_detail : {R : Type 0} → Bytes → Option (Option R) → DetailReply R
reply_detail missing none = broken query_failed
reply_detail missing (some none) = not_found missing
reply_detail missing (some (some r)) = found r

module _ {T : Type 0} (unmarshal : Bytes → Option (List Map))
    (query_detail : Bytes → List (Bytes × Arg) → Option (Option (EventDetailRow T)))
    (query_competitors : List ℕ → Option (List CompetitorRow)) where
  -- GetByID and GetByESPNID of the repository: the clause behind the SELECT, and its argument.
  unfoldable pub select_by_id : ℤ → Option (Option (EventDetailRow T))
  select_by_id id = query_detail (codes " WHERE e.id = :id") ((codes "id", number id) ∷ [])

  unfoldable pub select_by_espn_id : Bytes → Option (Option (EventDetailRow T))
  select_by_espn_id espn_id =
      query_detail (codes " WHERE e.espn_id = :espn_id ORDER BY e.date DESC LIMIT 1")
        ((codes "espn_id", text espn_id) ∷ [])

  -- buildDetail.
  unfoldable pub build_detail : Option (EventDetailRow T) → Option (Option (EventDetailResponse T))
  unfolding group_competitors group_at new_event_detail_response
  build_detail none = some none
  build_detail (some row) = Option.bind (query_competitors (row.id ∷ [])) λ rows.
      some
        (some (new_event_detail_response row (group_at row.id (group_competitors unmarshal rows))))

  abbrev pub reply_by_id : Option ℤ → DetailReply (EventDetailResponse T)
  unfolding select_by_id build_detail
  reply_by_id none = not_found (codes "Not found.")
  reply_by_id (some id) =
      reply_detail (codes "Not found.") (Option.bind (select_by_id id) build_detail)

  -- GetByID of the handler and of the service, of the id in the path.
  unfoldable pub get_by_id : Bytes → DetailReply (EventDetailResponse T)
  unfolding atoi select_by_id build_detail
  get_by_id raw = reply_by_id (atoi raw)

  -- GetByESPNID of the handler and of the service.
  unfoldable pub get_by_espn_id : Bytes → DetailReply (EventDetailResponse T)
  unfolding select_by_espn_id build_detail
  get_by_espn_id espn_id =
      reply_detail (codes "Event not found") (Option.bind (select_by_espn_id espn_id) build_detail)
