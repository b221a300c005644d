-- ===== src/Reads/Competitors.antt =====
-- The competitors of events: internal/domains/event/model/dto/dto.go, with the team of
-- internal/domains/team/model/dto/dto.go that each of them shows.
--
-- The decoder of a JSON array of objects is a parameter; it is `none` where it fails.
pub mod Laws
use go_espn_api.Prelude.{
  ℕ, Bool, true, false, ◌||◌, Option, none, some, List, [], ◌∷◌, ◌++◌, map, Bytes, codes, bytes_eq,
  is_empty, ◌==◌, ℤ, atoi, if◌then◌else◌, keep_if,
}
use go_espn_api.Ingest.Json.{Value, Map, get, as_slice, str}

pub record CompetitorRow : Type 0 where
  pub event_id : ℕ
  pub id : ℕ
  pub home_away : Bytes
  pub score : Bytes
  pub winner : Option Bool
  pub line_scores : Bytes
  pub records : Bytes
  pub statistics : Bytes
  pub leaders : Bytes
  pub order : ℤ
  pub team_id : ℕ
  pub team_espn_id : Bytes
  pub team_abbreviation : Bytes
  pub team_display_name : Bytes
  pub team_short_display_name : Bytes
  pub team_location : Bytes
  pub team_color : Bytes
  pub team_logos : Bytes

pub record TeamMinimal : Type 0 where
  pub id : ℕ
  pub espn_id : Bytes
  pub abbreviation : Bytes
  pub display_name : Bytes
  pub short_display_name : Bytes
  pub location : Bytes
  pub color : Bytes
  pub primary_logo : Option Bytes

pub record CompetitorResponse : Type 0 where
  pub id : ℕ
  pub team : TeamMinimal
  pub home_away : Bytes
  pub score : Bytes
  pub score_int : Option ℤ
  pub winner : Option Bool
  pub line_scores : Bytes
  pub records : Bytes
  pub statistics : Bytes
  pub leaders : Bytes
  pub order : ℤ

-- JSONBArray of shared/drf.
abbrev pub jsonb_array : Bytes → Bytes
jsonb_array raw = if is_empty raw then codes "[]" else raw

-- ComputeScoreInt.
unfoldable pub compute_score_int : Bytes → Option ℤ
unfolding atoi
compute_score_int score = if is_empty score then none else atoi score

abbrev href_text : Value → Option Bytes
href_text (str s) = some s
href_text _ = none

-- hrefOf.
unfoldable pub href_of : Map → Option Bytes
unfolding get
href_of logo = href_text (get logo "href")

abbrev is_default : Value → Bool
is_default (str s) = bytes_eq s (codes "default")
is_default _ = false

unfoldable pub any_default : List Value → Bool
any_default [] = false
any_default (r ∷ rs) = is_default r || any_default rs

-- The loop over the logos, which ends at the first that is the default.
unfoldable pub default_logo : List Map → Map → Option Bytes
unfolding get href_of any_default
default_logo [] first = href_of first
default_logo (logo ∷ logos) first =
    if any_default (as_slice (get logo "rel")) then href_of logo else default_logo logos first

abbrev logo_of : Option (List Map) → Option Bytes
unfolding default_logo
logo_of none = none
logo_of (some []) = none
logo_of (some (logo ∷ logos)) = default_logo (logo ∷ logos) logo

unfoldable pub append_at : {R : Type 0} → ℕ → R → List (ℕ × List R) → List (ℕ × List R)
append_at id r [] = (id, r ∷ []) ∷ []
append_at id r ((k, rs) ∷ m) =
    let rest = append_at id r m in if k == id then (k, rs ++ (r ∷ [])) ∷ m else (k, rs) ∷ rest

-- grouped[id]: nil where no row has the id.
unfoldable pub group_at : {R : Type 0} → ℕ → List (ℕ × List R) → List R
group_at id [] = []
group_at id ((k, rs) ∷ m) = if k == id then rs else group_at id m

module _ (unmarshal : Bytes → Option (List Map)) where
  -- ComputePrimaryLogo.
  unfoldable pub compute_primary_logo : Bytes → Option Bytes
  unfolding default_logo
  compute_primary_logo logos = if is_empty logos then none else logo_of (unmarshal logos)

  -- NewCompetitorResponse, with NewTeamMinimalResponse.
  unfoldable pub new_competitor_response : CompetitorRow → CompetitorResponse
  unfolding compute_primary_logo compute_score_int
  new_competitor_response r = record {
    id = r.id;
    team = record {
      id = r.team_id;
      espn_id = r.team_espn_id;
      abbreviation = r.team_abbreviation;
      display_name = r.team_display_name;
      short_display_name = r.team_short_display_name;
      location = r.team_location;
      color = r.team_color;
      primary_logo = compute_primary_logo r.team_logos;
    };
    home_away = r.home_away;
    score = r.score;
    score_int = compute_score_int r.score;
    winner = r.winner;
    line_scores = jsonb_array r.line_scores;
    records = jsonb_array r.records;
    statistics = jsonb_array r.statistics;
    leaders = jsonb_array r.leaders;
    order = r.order;
  }

  -- The loop of GroupCompetitors.
  unfoldable pub group_from :
      List CompetitorRow → List (ℕ × List CompetitorResponse) → List (ℕ × List CompetitorResponse)
  unfolding append_at new_competitor_response
  group_from [] out = out
  group_from (r ∷ rows) out = group_from rows (append_at r.event_id (new_competitor_response r) out)

  unfoldable pub group_competitors : List CompetitorRow → List (ℕ × List CompetitorResponse)
  unfolding group_from
  group_competitors rows = group_from rows []
