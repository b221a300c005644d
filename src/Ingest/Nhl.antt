-- ===== src/Ingest/Nhl.antt =====
-- The NHL feeds: nhl_parse.go of internal/ingest. The services are in the modules below.
pub mod Teams
pub mod Standings
pub mod Rosters
use go_espn_api.Prelude.{
  ℕ, true, Option, none, some, List, [], ◌∷◌, ◌++◌, String, Bytes, codes, is_empty, is_space, ltb,
  length, take, pos, trim_space, if◌then◌else◌,
}
use go_espn_api.Ingest.Json.{
  Map, Float, mid, mstr, mstr_or, mint, mfloat, default_str, raw_map, nhl_team_abbrev,
}
use go_espn_api.Ingest.Parse.{date_len, date_layout, last_word}
use go_espn_api.Ingest.Db.{Env, NhlTeam, NhlPlayer, NhlStanding}

abbrev zero_float : Float
zero_float = record { text = codes "0"; int = pos 0 }

module _ (env : Env) where
  abbrev or_today : Option ℕ → ℕ
  or_today none = env.today
  or_today (some t) = t

  -- parseStandingsDate.
  unfoldable pub parse_standings_date : Map → ℕ
  parse_standings_date root =
      let raw = mstr root "standingsDate" in
      if ltb (length raw) date_len
      then env.today
      else or_today (env.parse_time date_layout (take date_len raw))

  -- parseNHLTeam; the team id stands in the model.
  unfoldable pub parse_nhl_team : Map → NhlTeam
  parse_nhl_team t = record {
    team_id = mid t "id";
    abbreviation = mstr_or t ("triCode" ∷ "rawTricode" ∷ []);
    name = last_word (mstr t "fullName");
    full_name = mstr t "fullName";
    franchise_id = mid t "franchiseId";
    is_active = true;
    raw_data = raw_map env.marshal t (codes "{}");
  }

  -- parseNHLPlayer, without the player id, which is `mid p "id"`.
  unfoldable pub parse_nhl_player : Map → ℕ → NhlPlayer
  parse_nhl_player p team_id =
      let first = default_str p "firstName" in
      let last = default_str p "lastName" in
      record {
        first_name = first;
        last_name = last;
        full_name = trim_space (first ++ (codes " " ++ last));
        sweater_number = mid p "sweaterNumber";
        position = mstr p "positionCode";
        current_team_id = some team_id;
        is_active = true;
        headshot_url = mstr p "headshot";
        raw_data = raw_map env.marshal p (codes "{}");
      }

  -- parseNHLStanding, without the team id and the date.
  unfoldable pub parse_nhl_standing : Map → NhlStanding
  parse_nhl_standing row = record {
    games_played = mint row "gamesPlayed" (pos 0);
    wins = mint row "wins" (pos 0);
    losses = mint row "losses" (pos 0);
    ot_losses = mint row "otLosses" (pos 0);
    points = mint row "points" (pos 0);
    point_pct = some (mfloat row "pointPctg" zero_float);
    division_name = mstr row "divisionName";
    conference_name = mstr row "conferenceName";
    raw_data = raw_map env.marshal row (codes "{}");
  }
