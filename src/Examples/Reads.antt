-- ===== src/Examples/Reads.antt =====
-- The lists, the rate limit and the server's states at concrete inputs.
use go_espn_api.Prelude.{
  ℕ, ◌-◌, ◌≡◌, ◌≢◌, refl, Bool, true, false, Option, none, some, List, [], ◌∷◌, Bytes, codes,
  bytes_eq, bytes_eq_iff, cut_before, take, drop, pos, if◌then◌else◌, arith, ◌⊎◌, map, All,
}
use go_espn_api.Ingest.Json.{Map}
use go_espn_api.Http.Pages.{PageRequest, parse_page, page_url, query_get}
use go_espn_api.Http.Pages.Laws.{follow, parse_page-page_url}
use go_espn_api.Http.Server.{
  in_cleanup_period, handed_on, preparing_shutdown, exited, Course, new_server,
  server_state_middleware, become_ready, request, handled, enter_grace, enter_cleanup, exit, next,
  done,
}
use go_espn_api.Http.Limiter.{
  Got, hit, absent, get_failed, Requester, LimitConfig, limit_key, get_client_ip, rate_limits,
}
use go_espn_api.Http.Limiter.Laws.{smaller, used}
use go_espn_api.Http.Limiter.Clients.{
  IsFrom, HasNoColon, requests_from, admitted_from, rate_limits-clients,
}
use go_espn_api.Reads.Ordering.{directed, resolve_ordering}
use go_espn_api.Reads.Ordering.Laws.{IsAllowed, resolve_ordering-Allowed}
use go_espn_api.Reads.Sql.{Arg, number, where_text, args_of}
use go_espn_api.Reads.Sql.Laws.{IsBound, params}
use go_espn_api.Reads.Filters.Laws.{ListFilter, events, conditions, conditions-IsBound}
use go_espn_api.Reads.Competitors.{CompetitorRow}
use go_espn_api.Reads.Events.{
  EventListRow, event_ordering, event_filter, event_list_args, list_events,
}
use go_espn_api.Reads.Events.Laws.{of_events, with_competitors, visit-list_events}
use go_espn_api.Reads.Listing.Laws.{visit}

abbrev pub page_request : PageRequest
page_request = record {
  tls = true;
  forwarded_proto = [];
  host = codes "localhost";
  path = codes "/api/v1/events/";
  query = (codes "sport", codes "hockey") ∷ [];
}

parse_page-page_url_example : parse_page (follow (page_url page_request (pos 12))) ≡ 12
parse_page-page_url_example = parse_page-page_url page_request 12 (ground arith)

resolve_ordering-Allowed_example :
    (resolve_ordering (codes "-date") event_ordering (codes "e.date DESC") ≡ codes "e.date DESC")
    ⊎ ((column : Bytes) × (d : Bool) × IsAllowed column event_ordering
        × (resolve_ordering (codes "-date") event_ordering (codes "e.date DESC")
            ≡ directed d column))
resolve_ordering-Allowed_example =
    resolve_ordering-Allowed (codes "-date") event_ordering (codes "e.date DESC")

abbrev hockey : ListFilter
hockey = events (event_filter page_request.query)

conditions-IsBound_example :
    All (IsBound (args_of (conditions hockey))) (params (where_text (conditions hockey)))
conditions-IsBound_example = conditions-IsBound hockey tt

abbrev competitor : ℕ → ℕ → Bytes → CompetitorRow
competitor event id score = record {
  event_id = event;
  id = id;
  home_away = codes "home";
  score = score;
  winner = none;
  line_scores = [];
  records = [];
  statistics = [];
  leaders = [];
  order = pos 0;
  team_id = id;
  team_espn_id = codes "1";
  team_abbreviation = codes "TOR";
  team_display_name = [];
  team_short_display_name = [];
  team_location = [];
  team_color = [];
  team_logos = [];
}

abbrev pub competitors : List CompetitorRow
competitors =
    competitor 7 1 (codes "3") ∷ competitor 8 2 (codes "") ∷ competitor 7 3 (codes "2") ∷ []

abbrev pub no_json : Bytes → Option (List Map)
no_json raw = none

abbrev event : ℕ → EventListRow ℕ
event id = record {
  id = id;
  espn_id = codes "401";
  date = 0;
  name = [];
  short_name = [];
  status = codes "final";
  status_detail = [];
  league_slug = codes "nhl";
  sport_slug = codes "hockey";
  venue_name = none;
}

-- A database that has two events, whatever the filter.
abbrev stored : List (EventListRow ℕ)
stored = event 7 ∷ event 8 ∷ []

abbrev paged : List (Bytes × Arg) → List (EventListRow ℕ)
paged ((l, number (pos n)) ∷ (o, number (pos k)) ∷ args) = take n (drop k stored)
paged _ = []

visit-list_events_example :
    visit
      (list_events no_json
        (λ q args. some 2)
        (λ q args. some (paged args))
        (λ ids. some (of_events ids competitors)))
      3
      page_request
    ≡ some (map (with_competitors no_json competitors) stored)
unfolding event_list_args parse_page query_get bytes_eq
visit-list_events_example =
    visit-list_events no_json (λ q args. some 2) (λ q args. some (paged args))
      (λ ids. some (of_events ids competitors)) competitors (λ ids. refl) (λ f. stored) (λ f. refl)
      (λ f n k. refl) page_request refl (ground arith)

-- The signal before the end of setup and two requests, one whose handler returns, in each period.
abbrev drained :
    Course false new_server
      (handed_on ∷ preparing_shutdown ∷ [])
      (record { state = in_cleanup_period; watch = exited; set_up = true; running = 0 })
unfolding server_state_middleware
drained = next _ _ _ _ _ (become_ready tt refl) (
    next _ _ _ _ _ (enter_grace refl refl) (
      next _ _ _ _ _ (request tt refl) (
        next _ _ _ _ _ (handled 0 tt refl) (
          next _ _ _ _ _ (enter_cleanup refl)
            (next _ _ _ _ _ (request tt refl) (next _ _ _ _ _ (exit refl) (done _)))))))

-- A cache that keeps what it is given.
abbrev cache_get : Bytes → List (Bytes × ℕ) → Got
cache_get k [] = absent
cache_get k ((j, n) ∷ s) = if bytes_eq j k then hit n else cache_get k s

abbrev cache_save : Bytes → ℕ → ℕ → List (Bytes × ℕ) → Bool × List (Bytes × ℕ)
cache_save k n w s = (true, (k, n) ∷ s)

cache_get-works : (k : Bytes) (s : List (Bytes × ℕ)) → cache_get k s ≢ get_failed
cache_get-works k [] = λ e. ground (arith, e)
cache_get-works k ((j, n) ∷ s) = ground (arith, cache_get-works k s)

cache_get-same :
    (k : Bytes) (n w : ℕ) (s : List (Bytes × ℕ)) → cache_get k (cache_save k n w s).1 ≡ hit n
cache_get-same k n w s = let e : bytes_eq k k ≡ true = (bytes_eq_iff k k).1 refl in rw e refl

cache_get-other :
    (j k : Bytes) (n w : ℕ) (s : List (Bytes × ℕ))
    → j ≢ k
    → cache_get j (cache_save k n w s).1 ≡ cache_get j s
cache_get-other j k n w s ne =
    let e : bytes_eq k j ≡ false = ground (arith, bytes_eq_iff k j) in rw e refl

abbrev limits : LimitConfig
limits = record { enable = true; max_requests = 2; window_seconds = 60; app_name = codes "espn" }

abbrev client : Requester
client = record {
  user_agent = [];
  forwarded_for = codes "1.2.3.4, 9.9.9.9";
  real_ip = [];
  remote_addr = codes "10.0.0.1:80";
}

abbrev other_client : Requester
other_client = record client { forwarded_for = codes "1.2.3.5" }

-- Three requests of the one client, and one of the other between them.
abbrev requests : List Requester
requests = client ∷ other_client ∷ client ∷ client ∷ []

client-HasNoColon : HasNoColon client
unfolding get_client_ip cut_before
client-HasNoColon = (
  (λ e. omega arith),
  (
    (λ e. omega arith),
    (
      (λ e. omega arith),
      ((λ e. omega arith), ((λ e. omega arith), ((λ e. omega arith), ((λ e. omega arith), tt)))),
    ),
  ),
)

other_client-HasNoColon : HasNoColon other_client
unfolding get_client_ip cut_before
other_client-HasNoColon = (
  (λ e. omega arith),
  (
    (λ e. omega arith),
    (
      (λ e. omega arith),
      ((λ e. omega arith), ((λ e. omega arith), ((λ e. omega arith), ((λ e. omega arith), tt)))),
    ),
  ),
)

rate_limits-clients_example :
    All IsFrom (client ∷ requests)
    × (admitted_from client requests (rate_limits cache_get cache_save limits requests []).0
        ≡ smaller
            (requests_from client requests)
            (2 - used (cache_get (limit_key limits client) [])))
rate_limits-clients_example =
    rate_limits-clients cache_get cache_save cache_get-works (λ k n w s. refl) cache_get-same
      cache_get-other limits client requests [] refl client-HasNoColon
      (client-HasNoColon, (other_client-HasNoColon, (client-HasNoColon, (client-HasNoColon, tt))))
