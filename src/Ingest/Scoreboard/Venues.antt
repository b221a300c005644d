-- ===== src/Ingest/Scoreboard/Venues.antt =====
-- What upsertVenue does when it succeeds.
use go_espn_api.Prelude.{
  ℕ, ◌≡◌, refl, ap, sym, ◌∙◌, true, false, Option, none, some, Bytes, bytes_eq, bytes_eq_iff,
  is_empty, inl, inr, Bool-cases,
}
use go_espn_api.Ingest.Json.{Map, mid}
use go_espn_api.Ingest.Store.{Table, ok, Session, pure, upsert}
use go_espn_api.Ingest.Store.Laws.{statement-ok, ok-inj}
use go_espn_api.Ingest.Store.Ids.{id_at, IsGrown, upsert-IsGrown, upsert-id_at}
use go_espn_api.Ingest.Db.{Venue, Db, Env}
use go_espn_api.Ingest.Scoreboard.{parse_venue, venue_row, venue_upsert, upsert_venue}

-- The venue of an event: none where it has no id, else the row under it.
pub data VenueIs (venue : Map) (venues : Table Bytes Venue) : Option ℕ → Type 0 where
  nowhere : is_empty (mid venue "id") ≡ true → VenueIs venue venues none
  housed :
      (i : ℕ)
      → is_empty (mid venue "id") ≡ false
      → id_at bytes_eq (mid venue "id") venues ≡ some i
      → VenueIs venue venues (some i)

pub venue-grown :
    (venue : Map) (venues venues' : Table Bytes Venue) (v : Option ℕ)
    → IsGrown bytes_eq venues venues'
    → VenueIs venue venues v
    → VenueIs venue venues' v
venue-grown venue venues venues' v g (nowhere y) = nowhere y
venue-grown venue venues venues' v g (housed i n h) = housed i n (g _ i h)

-- What upsertVenue leaves.
abbrev pub Housed : Map → Option ℕ → Db → Db → Type 0
Housed venue v d d' =
    VenueIs venue d'.venues v
    × IsGrown bytes_eq d.venues d'.venues
    × (d'.events ≡ d.events)
    × (d'.teams ≡ d.teams)
    × (d'.competitors ≡ d.competitors)

module _ (env : Env) where
  pub upsert_venue-Housed :
      (venue : Map) (s : Session Db) (v : Option ℕ)
      → (upsert_venue env venue s).0 ≡ ok v
      → Housed venue v s.db (upsert_venue env venue s).1.db
  unfolding upsert_venue venue_upsert
  upsert_venue-Housed venue s v h = elim (Bool-cases (is_empty (mid venue "id"))) [
    | inl y ↦
        let f : none ≡ v = ok-inj (rw y at h) in
        rw (y, ← f) (nowhere y, (λ j i g. g), refl, refl, refl)
    | inr n ↦
        let k = mid venue "id" in
        let row = venue_row env (parse_venue env venue) in
        let turn : Db → ℕ × Db = λ d. (
          (upsert bytes_eq k row d.venues).0.id,
          record d { venues = (upsert bytes_eq k row d.venues).1 },
        ) in
        let q = statement-ok env.fails turn (λ id. pure (some id)) s v (rw n at h) in
        let f = ok-inj (sym (ap (λ z. z.0) q) ∙ rw n at h) in
        rw (n, ap (λ z. z.1.db) q, ← f)
          (
            housed _ n (upsert-id_at bytes_eq bytes_eq_iff k row s.db.venues),
            upsert-IsGrown bytes_eq bytes_eq_iff k row s.db.venues,
            refl,
            refl,
            refl,
          )
  ]
