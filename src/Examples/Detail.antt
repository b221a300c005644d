-- ===== src/Examples/Detail.antt =====
-- An event by its id, and the links of a list, at concrete requests.
use mathlib.Core.Option
use go_espn_api.Prelude.{
  ℕ, ◌≡◌, refl, true, Option, none, some, List, [], ◌∷◌, Bytes, codes, atoi, ◌==◌, ℤ, pos, negsuc,
  if◌then◌else◌, map, keep_if,
}
use go_espn_api.Http.Pages.{page_url}
use go_espn_api.Http.Pages.Laws.{follow}
use go_espn_api.Reads.Sql.{Arg, number}
use go_espn_api.Reads.Competitors.{new_competitor_response}
use go_espn_api.Reads.Competitors.Laws.{of_event}
use go_espn_api.Reads.Events.Laws.{of_events}
use go_espn_api.Reads.Detail.{EventDetailRow, new_event_detail_response, found, get_by_id}
use go_espn_api.Reads.Detail.Laws.{get_by_id-shown}
use go_espn_api.Reads.Requests.Laws.{of_games, filter_of, filter_of-page_url}
use go_espn_api.Examples.Reads.{competitors, no_json, page_request}

abbrev seventh : EventDetailRow ℕ
seventh = record {
  id = 7;
  espn_id = codes "401";
  uid = [];
  date = 0;
  name = codes "Leafs at Bruins";
  short_name = [];
  season_year = pos 2025;
  season_type = pos 2;
  season_slug = [];
  week = none;
  status = codes "final";
  status_detail = [];
  clock = [];
  period = some (pos 3);
  attendance = none;
  broadcasts = [];
  links = [];
  created_at = 0;
  updated_at = 0;
  league = record {
    id = 1;
    slug = codes "nhl";
    name = codes "NHL";
    abbreviation = codes "NHL";
    sport_slug = codes "hockey";
  };
  venue_id = some 4;
  venue_espn_id = none;
  venue_name = some (codes "TD Garden");
  venue_city = none;
  venue_state = none;
  venue_country = none;
  venue_is_indoor = some true;
  venue_capacity = none;
  venue_created_at = some 0;
  venue_updated_at = none;
}

abbrev row_with : ℤ → Option (EventDetailRow ℕ)
row_with (pos n) = if n == 7 then some seventh else none
row_with (negsuc n) = none

abbrev answer : List (Bytes × Arg) → Option (Option (EventDetailRow ℕ))
answer ((k, number id) ∷ args) = some (row_with id)
answer _ = none

get_by_id-shown_example :
    get_by_id no_json (λ q args. answer args) (λ ids. some (of_events ids competitors)) (codes "7")
    ≡ found (
        new_event_detail_response seventh
          (map (new_competitor_response no_json) (keep_if (of_event 7) competitors)))
unfolding atoi Option.bind
get_by_id-shown_example =
    get_by_id-shown no_json (λ q args. answer args) (λ ids. some (of_events ids competitors))
      row_with competitors (λ id. refl) (λ ids. refl) (codes "7")

filter_of-page_url_example :
    filter_of of_games (follow (page_url page_request (pos 2))).query
    ≡ filter_of of_games page_request.query
filter_of-page_url_example = filter_of-page_url page_request (pos 2) of_games
