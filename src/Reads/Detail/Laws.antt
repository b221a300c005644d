-- ===== src/Reads/Detail/Laws.antt =====
-- The event behind an id.
use mathlib.Core.Option
use go_espn_api.Prelude.{
  ℕ, ◌≡◌, refl, ap, ◌∙◌, Option, none, some, List, [], ◌∷◌, map, Bytes, codes, ℤ, atoi, keep_if,
  arith,
}
use go_espn_api.Ingest.Json.{Map}
use go_espn_api.Reads.Sql.{Arg, number}
use go_espn_api.Reads.Competitors.{
  CompetitorRow, group_at, group_competitors, new_competitor_response,
}
use go_espn_api.Reads.Competitors.Laws.{of_event, group_at-group_competitors}
use go_espn_api.Reads.Events.Laws.{of_events, of_event-of_events}
use go_espn_api.Reads.Detail.{
  EventDetailRow, EventDetailResponse, new_event_detail_response, DetailReply, not_found, found,
  get_by_id, reply_by_id, select_by_id, build_detail,
}

module _ {T : Type 0} (unmarshal : Bytes → Option (List Map))
    (query_detail : Bytes → List (Bytes × Arg) → Option (Option (EventDetailRow T)))
    (query_competitors : List ℕ → Option (List CompetitorRow))
    (row_with : ℤ → Option (EventDetailRow T)) (table : List CompetitorRow)
    (selects : (id : ℤ)
      → query_detail (codes " WHERE e.id = :id") ((codes "id", number id) ∷ [])
        ≡ some (row_with id))
    (finds : (ids : List ℕ) → query_competitors ids ≡ some (of_events ids table)) where
  -- What is shown of a row that may be missing: the event with its competitors among those of the
  -- table.
  abbrev pub shown : Option (EventDetailRow T) → DetailReply (EventDetailResponse T)
  shown none = not_found (codes "Not found.")
  shown (some row) = found (
      new_event_detail_response row
        (map (new_competitor_response unmarshal) (keep_if (of_event row.id) table)))

  own_competitors :
      (id : ℕ)
      → group_at id (group_competitors unmarshal (of_events (id ∷ []) table))
        ≡ map (new_competitor_response unmarshal) (keep_if (of_event id) table)
  own_competitors id =
      group_at-group_competitors unmarshal id (of_events (id ∷ []) table)
      ∙ ap (map (new_competitor_response unmarshal))
          (of_event-of_events id (id ∷ []) table (ground arith))

  shown_row :
      (id : ℤ) (o : Option (EventDetailRow T))
      → row_with id ≡ o
      → reply_by_id unmarshal query_detail query_competitors (some id) ≡ shown o
  unfolding reply_by_id select_by_id build_detail Option.bind
  shown_row id none e = rw (selects id, e) refl
  shown_row id (some row) e = rw (selects id, e, finds (row.id ∷ []), own_competitors row.id) refl

  shown_id :
      (o : Option ℤ)
      → reply_by_id unmarshal query_detail query_competitors o ≡ shown (Option.bind o row_with)
  unfolding reply_by_id Option.bind
  shown_id none = refl
  shown_id (some id) = shown_row id (row_with id) refl

  -- As long as the database answers, the reply to GET /events/{id} is the event whose row has that
  -- id, with all of its competitors and no other's, in the order of the query; and it is 404 where
  -- the text is no id, or where no row has it.
  pub get_by_id-shown :
      (raw : Bytes)
      → get_by_id unmarshal query_detail query_competitors raw
        ≡ shown (Option.bind (atoi raw) row_with)
  unfolding get_by_id
  get_by_id-shown raw = shown_id (atoi raw)
