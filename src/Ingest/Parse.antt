-- ===== src/Ingest/Parse.antt =====
-- internal/ingest/parse.go, and the pure functions of common.go and nhl_parse.go.
--
-- time.Parse is the parameter `parse_time`, from a layout and a text to an instant; time.Now is
-- `now`, and the year of an instant `year_of`.
pub mod Laws
use Prim.Native.Nat.{min}
use mathlib.Core.List.{reverse}
use go_espn_api.Prelude.{
  ℕ, zero, suc, ◌+◌, ◌-◌, Bool, true, false, ◌&&◌, ◌||◌, Option, none, some, List, [], ◌∷◌, ◌++◌,
  String, Bytes, codes, bytes_eq, is_empty, is_space, trim_space, to_lower, to_upper, lower, upper,
  take, length, leb, ltb, ◌==◌, map, if◌then◌else◌,
}
use go_espn_api.Ingest.Json.{Map, mmap, mstr, mbool}

-- strings.Replace(s, "Z", "+00:00", 1).
unfoldable pub replace_z : Bytes → Bytes
replace_z [] = []
replace_z (c ∷ s) = if c == b'Z' then codes "+00:00" ++ s else c ∷ replace_z s

abbrev pub rfc3339 : Bytes
rfc3339 = codes "2006-01-02T15:04:05Z07:00"

abbrev pub no_seconds : Bytes
no_seconds = codes "2006-01-02T15:04Z07:00"

abbrev pub date_layout : Bytes
date_layout = codes "2006-01-02"

abbrev pub date_len : ℕ
date_len = 10

module _ {T : Type 0} (parse_time : Bytes → Bytes → Option T) where
  abbrev try_layouts : List Bytes → Bytes → Option T
  try_layouts [] s = none
  try_layouts (layout ∷ layouts) s = elim (parse_time layout s) [
    | some t ↦ some t
    | none ↦ try_layouts layouts s
  ]

  -- parseISO and parseDTPtr.
  unfoldable pub parse_iso : Bytes → Option T
  unfolding replace_z
  parse_iso s = if is_empty s then none else try_layouts (rfc3339 ∷ no_seconds ∷ []) (replace_z s)

  abbrev or_now : T → Option T → T
  or_now now none = now
  or_now now (some t) = t

  -- parseEventTime.
  unfoldable pub parse_event_time : T → Bytes → T
  unfolding parse_iso
  parse_event_time now s = or_now now (parse_iso s)

  -- parseDateOnly.
  unfoldable pub parse_date_only : Bytes → Option T
  parse_date_only s =
      if ltb (length s) date_len then none else parse_time date_layout (take date_len s)

pub data Status : Type 0 where
  scheduled in_progress final : Status

abbrev pub is_str : Bytes → String → Bool
is_str s t = bytes_eq s (codes t)

abbrev pub state_or_pre : Bytes → Bytes
state_or_pre raw = if is_empty raw then codes "pre" else raw

abbrev pub detail_of : Bool → Bytes → Bytes
detail_of completed detail = if completed && is_empty detail then codes "Final" else detail

-- The switch on the state, behind the test of `completed`.
unfoldable pub status_of : Bool → Bytes → Status
status_of completed state =
    if completed
    then final
    else if is_str state "pre"
    then scheduled
    else if is_str state "in"
    then in_progress
    else if is_str state "post"
    then final
    else scheduled

-- parseEventStatus.
unfoldable pub parse_event_status : Map → Status × Bytes
unfolding status_of
parse_event_status status_data =
    let type_data = mmap status_data "type" in
    let completed = mbool type_data "completed" false in
    (
      status_of completed (state_or_pre (mstr type_data "state")),
      detail_of completed (mstr type_data "detail"),
    )

-- homeAwayFallback.
unfoldable pub home_away_fallback : Bytes → ℕ → Bytes
unfolding bytes_eq
home_away_fallback raw idx =
    if is_str raw "home" || is_str raw "away"
    then raw
    else if idx == 1
    then codes "home"
    else codes "away"

abbrev pub injury_status_map : List (String × String)
injury_status_map =
    ("out", "out")
    ∷ ("doubtful", "doubtful")
    ∷ ("questionable", "questionable")
    ∷ ("injured reserve", "ir")
    ∷ ("ir", "ir")
    ∷ ("day-to-day", "day_to_day")
    ∷ ("probable", "day_to_day")
    ∷ []

unfoldable pub find_status : Bytes → List (String × String) → Bytes
find_status s [] = codes "other"
find_status s ((k, v) ∷ rest) = if is_str s k then codes v else find_status s rest

-- normalizeInjuryStatus.
unfoldable pub normalize_injury_status : Bytes → Bytes
unfolding find_status to_lower trim_space
normalize_injury_status raw = find_status (to_lower (trim_space raw)) injury_status_map

-- truncate.
unfoldable pub truncate : Bytes → ℕ → Bytes
truncate s n = if leb (length s) n then s else take n s

-- strings.Fields, with the word that is being read, its bytes in order.
unfoldable pub fields_loop : Bytes → Bytes → List Bytes
fields_loop word [] = if is_empty word then [] else word ∷ []
fields_loop word (c ∷ s) = elim (is_space c) [
  | true ↦ elim (is_empty word) [ true ↦ fields_loop [] s | false ↦ word ∷ fields_loop [] s ]
  | false ↦ fields_loop (word ++ c ∷ []) s
]

unfoldable pub fields : Bytes → List Bytes
unfolding fields_loop
fields = fields_loop []

abbrev last_or_empty : List Bytes → Bytes
last_or_empty [] = []
last_or_empty (w ∷ []) = w
last_or_empty (w ∷ v ∷ ws) = last_or_empty (v ∷ ws)

-- lastWord of nhl_parse.go.
unfoldable pub last_word : Bytes → Bytes
unfolding fields
last_word s = last_or_empty (fields s)

abbrev capitalize : Bytes → Bytes
capitalize [] = []
capitalize (c ∷ w) = upper c ∷ map lower w

abbrev join_words : List Bytes → Bytes
join_words [] = []
join_words (w ∷ []) = w
join_words (w ∷ v ∷ ws) = w ++ (32 ∷ join_words (v ∷ ws))

-- titleCase of common.go.
unfoldable pub title_case : Bytes → Bytes
unfolding fields upper lower
title_case s = join_words (map capitalize (fields s))

abbrev pub max_abbreviation_len : ℕ
max_abbreviation_len = 10

-- strings.ReplaceAll(slug, "-", " ").
abbrev spaced : Bytes → Bytes
spaced = map (λ c. if c == b'-' then 32 else c)

pub record LeagueMeta : Type 0 where
  pub name : Bytes
  pub abbreviation : Bytes

-- The registries of infras/espn/registry.go are the arguments.
unfoldable pub sport_default : (Bytes → Option Bytes) → Bytes → Bytes
unfolding title_case
sport_default names slug = elim (names slug) [ some name ↦ name | none ↦ title_case (spaced slug) ]

abbrev slug_defaults : Bytes → LeagueMeta
slug_defaults slug = record {
  name = title_case (spaced slug);
  abbreviation =
      if ltb max_abbreviation_len (length (to_upper slug))
      then take max_abbreviation_len (to_upper slug)
      else to_upper slug;
}

abbrev meta_or : Option LeagueMeta → LeagueMeta → LeagueMeta
meta_or none def = def
meta_or (some meta) def = meta

-- leagueDefaults of common.go.
unfoldable pub league_defaults : (Bytes → Option LeagueMeta) → Bytes → LeagueMeta
unfolding title_case to_upper
league_defaults info slug = meta_or (info slug) (slug_defaults slug)
