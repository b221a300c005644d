-- ===== src/Reads/Competitors/Laws.antt =====
-- Grouping the competitors by their event.
use go_espn_api.Prelude.{
  ℕ, ◌≡◌, refl, ap, sym, ◌∙◌, Bool, true, false, Option, List, [], ◌∷◌, ◌++◌, map, append_assoc,
  append-nil, Bytes, ◌==◌, if◌then◌else◌, keep_if, Bool-cases, inl, inr, arith,
}
use go_espn_api.Ingest.Json.{Map}
use go_espn_api.Reads.Competitors.{
  CompetitorRow, CompetitorResponse, append_at, group_at, new_competitor_response, group_from,
  group_competitors,
}

group_at-append_at :
    {R : Type 0} (id j : ℕ) (r : R) (m : List (ℕ × List R))
    → group_at id (append_at j r m) ≡ group_at id m ++ (if j == id then r ∷ [] else [])
unfolding group_at append_at
group_at-append_at id j r [] = ground arith
group_at-append_at id j r ((k, rs) ∷ m) = elim (Bool-cases (k == j)) [
  | inl y ↦ elim (Bool-cases (k == id)) [
    | inl z ↦ let e : (j == id) ≡ true = ground arith in rw (y, z, e) refl
    | inr z ↦
        let e : (j == id) ≡ false = ground arith in rw (y, z, e) (sym (append-nil (group_at id m)))
  ]
  | inr n ↦ elim (Bool-cases (k == id)) [
    | inl z ↦ let e : (j == id) ≡ false = ground arith in rw (n, z, e) (sym (append-nil rs))
    | inr z ↦ rw (n, z) (group_at-append_at id j r m)
  ]
]

-- The competitors of an event.
abbrev pub of_event : ℕ → CompetitorRow → Bool
of_event id r = r.event_id == id

module _ (unmarshal : Bytes → Option (List Map)) where
  group_at-group_from :
      (id : ℕ) (rows : List CompetitorRow) (out : List (ℕ × List CompetitorResponse))
      → group_at id (group_from unmarshal rows out)
        ≡ group_at id out ++ map (new_competitor_response unmarshal) (keep_if (of_event id) rows)
  unfolding group_from
  group_at-group_from id [] out = sym (append-nil (group_at id out))
  group_at-group_from id (r ∷ rows) out =
      let resp = new_competitor_response unmarshal r in
      let more = map (new_competitor_response unmarshal) (keep_if (of_event id) rows) in
      let split : group_at id (group_from unmarshal (r ∷ rows) out)
          ≡ (group_at id out ++ (if r.event_id == id then resp ∷ [] else [])) ++ more =
        group_at-group_from id rows (append_at r.event_id resp out)
        ∙ ap (λ z. z ++ more) (group_at-append_at id r.event_id resp out) in
      elim (Bool-cases (r.event_id == id)) [
        | inl y ↦ split ∙ rw y (append_assoc (group_at id out) (resp ∷ []) more)
        | inr n ↦ split ∙ rw n (ap (λ z. z ++ more) (append-nil (group_at id out)))
      ]

  -- The group of an event is what the rows of that event become, in the order of the query; an
  -- event without a row has none.
  pub group_at-group_competitors :
      (id : ℕ) (rows : List CompetitorRow)
      → group_at id (group_competitors unmarshal rows)
        ≡ map (new_competitor_response unmarshal) (keep_if (of_event id) rows)
  unfolding group_competitors group_at
  group_at-group_competitors id rows = group_at-group_from id rows []
