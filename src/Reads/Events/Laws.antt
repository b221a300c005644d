-- ===== src/Reads/Events/Laws.antt =====
-- A client that follows the links of the events collects every event with its competitors.
use mathlib.Core.Option
use go_espn_api.Prelude.{
  ℕ, suc, ◌+◌, ◌<◌, ◌^◌, ◌≡◌, refl, ap, ◌∙◌, Bool, true, false, ◌||◌, Option, some, List, [], ◌∷◌,
  map, length, take, drop, Bytes, codes, bytes_eq, bytes_eq_iff, ◌==◌, ℤ, pos, keep_if, All, arith,
}
use go_espn_api.Ingest.Json.{Map}
use go_espn_api.Http.Pages.{PageRequest, query_get, page_url, page_param, parse_page}
use go_espn_api.Http.Pages.Laws.{follow, page_url-get}
use go_espn_api.Reads.Sql.{Arg}
use go_espn_api.Reads.Filters.{EventFilter}
use go_espn_api.Reads.Listing.Laws.{visit, visit-rows}
use go_espn_api.Reads.Competitors.{
  CompetitorRow, group_at, group_competitors, new_competitor_response,
}
use go_espn_api.Reads.Competitors.Laws.{of_event, group_at-group_competitors}
use go_espn_api.Reads.Events.{
  EventListRow, EventListResponse, event_filter, event_list_query, event_list_args,
  event_count_query, event_count_args, new_event_list_response, count_events, select_events,
  competitors_by_event_ids, render_events, list_events,
}

-- The links keep every parameter that the filter is made of.
event_filter-page_url :
    (r : PageRequest) (n : ℤ) → event_filter (follow (page_url r n)).query ≡ event_filter r.query
unfolding event_filter follow bytes_eq
event_filter-page_url r n =
    let kept : (j : Bytes)
        → bytes_eq page_param j ≡ false
        → query_get j (page_url r n).query ≡ query_get j r.query =
      λ j e. page_url-get r n j (ground (arith, bytes_eq_iff page_param j)) in
    rw
      (
        kept (codes "sport") refl,
        kept (codes "league") refl,
        kept (codes "date") refl,
        kept (codes "date_from") refl,
        kept (codes "date_to") refl,
        kept (codes "status") refl,
        kept (codes "season_year") refl,
        kept (codes "season_type") refl,
        kept (codes "team") refl,
        kept (codes "search") refl,
        kept (codes "ordering") refl,
      )
      refl

abbrev pub any_id : ℕ → List ℕ → Bool
any_id id [] = false
any_id id (k ∷ ks) = id == k || any_id id ks

-- The rows whose event is one of some ids.
abbrev pub of_events : List ℕ → List CompetitorRow → List CompetitorRow
of_events ids = keep_if (λ (r : CompetitorRow). any_id r.event_id ids)

pub of_event-of_events :
    (id : ℕ) (ids : List ℕ) (table : List CompetitorRow)
    → any_id id ids ≡ true
    → keep_if (of_event id) (of_events ids table) ≡ keep_if (of_event id) table
of_event-of_events id ids [] h = refl
of_event-of_events id ids (r ∷ table) h = ground (arith, of_event-of_events id ids table h)

abbrev row_ids : {T : Type 0} → List (EventListRow T) → List ℕ
row_ids = map (λ (r : EventListRow _). r.id)

-- The rows whose id is one of some ids.
abbrev Within : {T : Type 0} → List ℕ → List (EventListRow T) → Type 0
Within ids = All (λ (r : EventListRow _). any_id r.id ids ≡ true)

Within-cons :
    {T : Type 0} (id : ℕ) (ids : List ℕ) (xs : List (EventListRow T))
    → Within ids xs
    → Within (id ∷ ids) xs
Within-cons id ids [] h = tt
Within-cons id ids (x ∷ xs) (h, hs) = (ground (arith, h), Within-cons id ids xs hs)

Within-self : {T : Type 0} (xs : List (EventListRow T)) → Within (row_ids xs) xs
Within-self [] = tt
Within-self (x ∷ xs) = (ground arith, Within-cons x.id (row_ids xs) xs (Within-self xs))

module _ {T : Type 0} (unmarshal : Bytes → Option (List Map)) where
  -- An event with its competitors among the rows of a table, in the order of the table.
  unfoldable pub with_competitors : List CompetitorRow → EventListRow T → EventListResponse T
  with_competitors table r =
      new_event_list_response r
        (map (new_competitor_response unmarshal) (keep_if (of_event r.id) table))

  grouped-with_competitors :
      (table : List CompetitorRow) (ids : List ℕ) (xs : List (EventListRow T))
      → Within ids xs
      → map
          (λ (r : EventListRow T).
            new_event_list_response r
              (group_at r.id (group_competitors unmarshal (of_events ids table))))
          xs
        ≡ map (with_competitors table) xs
  unfolding with_competitors
  grouped-with_competitors table ids [] h = refl
  grouped-with_competitors table ids (x ∷ xs) (h, hs) =
      let own =
        group_at-group_competitors unmarshal x.id (of_events ids table)
        ∙ ap (map (new_competitor_response unmarshal)) (of_event-of_events x.id ids table h) in
      rw (own, grouped-with_competitors table ids xs hs) refl

  module _ (query_count : Bytes → List (Bytes × Arg) → Option ℕ)
      (query_events : Bytes → List (Bytes × Arg) → Option (List (EventListRow T)))
      (query_competitors : List ℕ → Option (List CompetitorRow)) (table : List CompetitorRow)
      (finds : (ids : List ℕ) → query_competitors ids ≡ some (of_events ids table)) where
    render_events-each :
        (xs : List (EventListRow T))
        → render_events unmarshal query_count query_events query_competitors xs
          ≡ some (map (with_competitors table) xs)
    unfolding render_events competitors_by_event_ids Option.bind
    render_events-each [] = refl
    render_events-each (x ∷ xs) = rw (finds (row_ids (x ∷ xs))) (
        ap some (grouped-with_competitors table (row_ids (x ∷ xs)) (x ∷ xs) (Within-self (x ∷ xs))))

    -- A client that starts at the first page of the events and follows the links collects the events
    -- of its filter, each once and in the order of the database, with all of its competitors and no
    -- other's. The rows and fifty more are below
    -- 2 ^ 63. What it takes of the database: the count query answers the number of the rows of a
    -- filter, the list query the rows behind the offset up to the limit, in one order, and the
    -- competitors' query the rows of a table whose event is one of those asked for.
    pub visit-list_events :
        (rows : EventFilter → List (EventListRow T))
        → ((f : EventFilter)
            → query_count (event_count_query f) (event_count_args f) ≡ some (length (rows f)))
        → ((f : EventFilter) (n k : ℕ)
            → query_events (event_list_query f) (event_list_args f n (pos k))
              ≡ some (take n (drop k (rows f))))
        → (r : PageRequest) → parse_page r ≡ 1
        → length (rows (event_filter r.query)) + 50 < 2 ^ 63
        → visit
            (list_events unmarshal query_count query_events query_competitors)
            (suc (length (rows (event_filter r.query))))
            r
          ≡ some (map (with_competitors table) (rows (event_filter r.query)))
    unfolding list_events count_events select_events
    visit-list_events rows counts selects r e b =
        visit-rows (count_events unmarshal query_count query_events query_competitors)
          (select_events unmarshal query_count query_events query_competitors)
          (render_events unmarshal query_count query_events query_competitors) event_filter rows
          (with_competitors table) counts selects render_events-each event_filter-page_url r e b
