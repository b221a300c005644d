-- ===== src/Reads/Events.antt =====
-- The list of events: the handler's filter in internal/handlers/event/handler.go, the queries of
-- internal/domains/event/repository/repository.go, and the responses of the service and of
-- internal/domains/event/model/dto/dto.go.
--
-- The database is what answers a query with its arguments, with `none` where it fails. A timestamp
-- is the type T.
pub mod Laws
use mathlib.Core.Option
use go_espn_api.Prelude.{
  ℕ, Option, none, some, List, [], ◌∷◌, ◌++◌, map, Bytes, codes, is_empty, ℤ, pos, atoi,
  if◌then◌else◌,
}
use go_espn_api.Ingest.Json.{Map}
use go_espn_api.Http.Pages.{Query, PageRequest, query_get}
use go_espn_api.Reads.Sql.{Arg, number, where_text, args_of}
use go_espn_api.Reads.Filters.{EventFilter, event_conditions}
use go_espn_api.Reads.Ordering.{Whitelist, resolve_ordering}
use go_espn_api.Reads.Listing.{ListReply, list_handler}
use go_espn_api.Reads.Competitors.{CompetitorRow, CompetitorResponse, group_at, group_competitors}

-- parseIntPtr.
unfoldable pub parse_int_ptr : Bytes → Option ℤ
unfolding atoi
parse_int_ptr raw = if is_empty raw then none else atoi raw

-- The filter that List of the handler reads from the URL.
unfoldable pub event_filter : Query → EventFilter
unfolding query_get parse_int_ptr
event_filter q = record {
  sport = query_get (codes "sport") q;
  league = query_get (codes "league") q;
  date = query_get (codes "date") q;
  date_from = query_get (codes "date_from") q;
  date_to = query_get (codes "date_to") q;
  status = query_get (codes "status") q;
  season_year = parse_int_ptr (query_get (codes "season_year") q);
  season_type = parse_int_ptr (query_get (codes "season_type") q);
  team = query_get (codes "team") q;
  search = query_get (codes "search") q;
  ordering = query_get (codes "ordering") q;
}

-- eventListSelect.
abbrev pub event_list_select : Bytes
event_list_select =
    codes
      "\n\tSELECT e.id, e.espn_id, e.date, e.name, e.short_name, e.status, e.status_detail,\n\t       l.slug AS league_slug, s.slug AS sport_slug, v.name AS venue_name\n\tFROM events e\n\tJOIN leagues l ON l.id = e.league_id\n\tJOIN sports s ON s.id = l.sport_id\n\tLEFT JOIN venues v ON v.id = e.venue_id"

-- eventOrdering.
abbrev pub event_ordering : Whitelist
event_ordering = (codes "date", codes "e.date") ∷ (codes "created_at", codes "e.created_at") ∷ []

-- The texts of List and of Count.
unfoldable pub event_list_query : EventFilter → Bytes
unfolding where_text event_conditions resolve_ordering
event_list_query f =
    event_list_select
    ++ (where_text (event_conditions f)
        ++ (codes " ORDER BY "
            ++ (resolve_ordering f.ordering event_ordering (codes "e.date DESC")
                ++ codes ", e.id LIMIT :limit OFFSET :offset")))

unfoldable pub event_count_query : EventFilter → Bytes
unfolding where_text event_conditions
event_count_query f =
    codes
      "SELECT COUNT(e.id) FROM events e\n\t\tJOIN leagues l ON l.id = e.league_id\n\t\tJOIN sports s ON s.id = l.sport_id\n\t\tLEFT JOIN venues v ON v.id = e.venue_id"
    ++ where_text (event_conditions f)

unfoldable pub event_list_args : EventFilter → ℕ → ℤ → List (Bytes × Arg)
unfolding args_of event_conditions
event_list_args f limit offset =
    (codes "limit", number (pos limit))
    ∷ (codes "offset", number offset)
    ∷ args_of (event_conditions f)

unfoldable pub event_count_args : EventFilter → List (Bytes × Arg)
unfolding args_of event_conditions
event_count_args f = args_of (event_conditions f)

pub record EventListRow (T : Type 0) : Type 0 where
  pub id : ℕ
  pub espn_id : Bytes
  pub date : T
  pub name : Bytes
  pub short_name : Bytes
  pub status : Bytes
  pub status_detail : Bytes
  pub league_slug : Bytes
  pub sport_slug : Bytes
  pub venue_name : Option Bytes

pub record EventListResponse (T : Type 0) : Type 0 where
  pub id : ℕ
  pub espn_id : Bytes
  pub date : T
  pub name : Bytes
  pub short_name : Bytes
  pub status : Bytes
  pub status_detail : Bytes
  pub league_slug : Bytes
  pub sport_slug : Bytes
  pub venue_name : Option Bytes
  pub competitors : List CompetitorResponse

-- NewEventListResponse.
unfoldable pub new_event_list_response :
    {T : Type 0} → EventListRow T → List CompetitorResponse → EventListResponse T
new_event_list_response r competitors = record {
  id = r.id;
  espn_id = r.espn_id;
  date = r.date;
  name = r.name;
  short_name = r.short_name;
  status = r.status;
  status_detail = r.status_detail;
  league_slug = r.league_slug;
  sport_slug = r.sport_slug;
  venue_name = r.venue_name;
  competitors = competitors;
}

module _ {T : Type 0} (unmarshal : Bytes → Option (List Map))
    (query_count : Bytes → List (Bytes × Arg) → Option ℕ)
    (query_events : Bytes → List (Bytes × Arg) → Option (List (EventListRow T)))
    (query_competitors : List ℕ → Option (List CompetitorRow)) where
  -- Count.
  unfoldable pub count_events : EventFilter → Option ℕ
  unfolding event_count_query event_count_args
  count_events f = query_count (event_count_query f) (event_count_args f)

  -- List of the repository.
  unfoldable pub select_events : EventFilter → ℕ → ℤ → Option (List (EventListRow T))
  unfolding event_list_query event_list_args
  select_events f limit offset = query_events (event_list_query f) (event_list_args f limit offset)

  -- CompetitorsByEventIDs: no query without an event.
  unfoldable pub competitors_by_event_ids : List ℕ → Option (List CompetitorRow)
  competitors_by_event_ids [] = some []
  competitors_by_event_ids (id ∷ ids) = query_competitors (id ∷ ids)

  -- What List of the service makes of the rows of a page.
  unfoldable pub render_events : List (EventListRow T) → Option (List (EventListResponse T))
  unfolding competitors_by_event_ids group_competitors group_at new_event_list_response
  render_events rows =
      Option.bind (competitors_by_event_ids (map (λ (r : EventListRow T). r.id) rows)) λ found.
        let grouped = group_competitors unmarshal found in
        some (map (λ (r : EventListRow T). new_event_list_response r (group_at r.id grouped)) rows)

  -- List of the handler and of the service.
  unfoldable pub list_events : PageRequest → ListReply (EventListResponse T)
  unfolding list_handler count_events select_events render_events event_filter
  list_events = list_handler count_events select_events render_events event_filter
