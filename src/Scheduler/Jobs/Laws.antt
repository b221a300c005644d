-- ===== src/Scheduler/Jobs/Laws.antt =====
-- The units that the jobs fan out over.
use go_espn_api.Prelude.{
  ℕ, ◌+◌, ◌*◌, ◌≤◌, ◌≡◌, ◌↔◌, refl, Bool, true, false, ◌||◌, List, [], ◌∷◌, ◌++◌, bytes_eq_iff,
  arith, length, length-append, sum_of, sum_of-append, if◌then◌else◌, Bool-cases, inl, inr,
}
use go_espn_api.Calendar.{Date, day_before, format_compact}
use go_espn_api.Config.{IngestLeague}
use go_espn_api.Scheduler.Fanout.{WorkUnit}
use go_espn_api.Scheduler.Jobs.{
  Scheduler, StuckEventRef, Buckets, scoreboard_units, for_dates, for_leagues, unit_eq, is_seen,
  bucket, add_bucket, for_refs, unstick_units,
}

-- The unit of a league and a date.
abbrev pub scoped : IngestLeague → Date → WorkUnit
scoped lg d = record { sport = lg.sport; league = lg.league; date = format_compact d }

for_leagues-sum :
    (w : WorkUnit → ℕ) (leagues : List IngestLeague) (now yesterday : Date) (units : List WorkUnit)
    → sum_of w (for_leagues leagues (format_compact now ∷ format_compact yesterday ∷ []) units)
      ≡ sum_of w units + sum_of (λ lg. w (scoped lg now) + w (scoped lg yesterday)) leagues
unfolding for_leagues for_dates
for_leagues-sum w [] now yesterday units = omega arith
for_leagues-sum w (lg ∷ leagues) now yesterday units = omega (
  arith,
  for_leagues-sum w leagues now yesterday
      ((units ++ scoped lg now ∷ []) ++ scoped lg yesterday ∷ []),
  sum_of-append w units (scoped lg now ∷ []),
  sum_of-append w (units ++ scoped lg now ∷ []) (scoped lg yesterday ∷ []),
)

-- runScoreboards hands out each configured league twice, for today and for the day before, and
-- nothing else: every weight of units sums to that of the pairs.
pub scoreboard_units-sum :
    (w : WorkUnit → ℕ) (s : Scheduler) (now : Date)
    → sum_of w (scoreboard_units s now)
      ≡ sum_of (λ lg. w (scoped lg now) + w (scoped lg (day_before now))) s.leagues
unfolding scoreboard_units
scoreboard_units-sum w s now = omega (arith, for_leagues-sum w s.leagues now (day_before now) [])

pub unit_eq_iff : (u v : WorkUnit) → (unit_eq u v ≡ true) ↔ (u ≡ v)
unfolding unit_eq
unit_eq_iff u v = ground (
  arith,
  bytes_eq_iff u.sport v.sport,
  bytes_eq_iff u.league v.league,
  bytes_eq_iff u.date v.date,
)

-- How often a unit stands in a list.
abbrev pub count : WorkUnit → List WorkUnit → ℕ
count u = sum_of (λ v. if unit_eq v u then 1 else 0)

-- The invariant of the loop: `seen` holds the units that were handed out, each once.
record IsDeduped (b : Buckets) : Type 0 where
  agrees : (u : WorkUnit) → count u b.units ≡ (if is_seen u b.seen then 1 else 0)

count_last :
    (u x : WorkUnit) (units : List WorkUnit)
    → count u (units ++ x ∷ []) ≡ count u units + (if unit_eq x u then 1 else 0)
count_last u x units =
    omega (arith, sum_of-append (λ v. if unit_eq v u then 1 else 0) units (x ∷ []))

add_bucket-IsDeduped :
    (r : StuckEventRef) (day : Date) (b : Buckets) → IsDeduped b → IsDeduped (add_bucket r day b)
unfolding add_bucket is_seen
add_bucket-IsDeduped r day b h = record {
  agrees = λ u. elim (Bool-cases (is_seen (bucket r day) b.seen)) [
    | inl e ↦ rw e (h.agrees u)
    | inr e ↦
        rw (e, count_last u (bucket r day) b.units, h.agrees u)
          (ground (arith, unit_eq_iff (bucket r day) u))
  ];
}

for_refs-IsDeduped :
    (refs : List StuckEventRef) (b : Buckets) → IsDeduped b → IsDeduped (for_refs refs b)
unfolding for_refs
for_refs-IsDeduped [] b h = h
for_refs-IsDeduped (r ∷ refs) b h =
    for_refs-IsDeduped refs _
      (add_bucket-IsDeduped r (day_before r.date) _ (add_bucket-IsDeduped r r.date b h))

-- The specification: the unit is one of the two buckets of some stuck event.
abbrev pub is_wanted : WorkUnit → List StuckEventRef → Bool
is_wanted u [] = false
is_wanted u (r ∷ refs) =
    unit_eq (bucket r r.date) u || unit_eq (bucket r (day_before r.date)) u || is_wanted u refs

is_seen-add_bucket :
    (u : WorkUnit) (r : StuckEventRef) (day : Date) (b : Buckets)
    → is_seen u (add_bucket r day b).seen ≡ unit_eq (bucket r day) u || is_seen u b.seen
unfolding add_bucket is_seen
is_seen-add_bucket u r day b = ground (arith, unit_eq_iff (bucket r day) u)

is_seen-for_refs :
    (u : WorkUnit) (refs : List StuckEventRef) (b : Buckets)
    → is_seen u (for_refs refs b).seen ≡ is_wanted u refs || is_seen u b.seen
unfolding for_refs
is_seen-for_refs u [] b = refl
is_seen-for_refs u (r ∷ refs) b = ground (
  arith,
  is_seen-for_refs u refs (add_bucket r (day_before r.date) (add_bucket r r.date b)),
  is_seen-add_bucket u r (day_before r.date) (add_bucket r r.date b),
  is_seen-add_bucket u r r.date b,
)

-- runUnstick hands out exactly the two date buckets of each stuck event, its UTC date and the day
-- before, and each bucket once, however many events share it.
pub unstick_units-once :
    (u : WorkUnit) (refs : List StuckEventRef)
    → count u (unstick_units refs) ≡ (if is_wanted u refs then 1 else 0)
unfolding unstick_units is_seen
unstick_units-once u refs =
    let start : Buckets = record { seen = []; units = [] } in
    let d = for_refs-IsDeduped refs start (record { agrees = λ v. refl }) in
    ground (arith, d.agrees u, is_seen-for_refs u refs start)

add_bucket-length :
    (r : StuckEventRef) (day : Date) (b : Buckets)
    → length (add_bucket r day b).units ≤ length b.units + 1
unfolding add_bucket
add_bucket-length r day b = ground (arith, length-append b.units (bucket r day ∷ []))

for_refs-length :
    (refs : List StuckEventRef) (b : Buckets)
    → length (for_refs refs b).units ≤ length b.units + 2 * length refs
unfolding for_refs
for_refs-length [] b = omega arith
for_refs-length (r ∷ refs) b = omega (
  arith,
  for_refs-length refs (add_bucket r (day_before r.date) (add_bucket r r.date b)),
  add_bucket-length r (day_before r.date) (add_bucket r r.date b),
  add_bucket-length r r.date b,
)

-- Each stuck event adds at most two units, which is the capacity that the slices are made with.
pub unstick_units-length :
    (refs : List StuckEventRef) → length (unstick_units refs) ≤ 2 * length refs
unfolding unstick_units
unstick_units-length refs = omega (arith, for_refs-length refs (record { seen = []; units = [] }))
