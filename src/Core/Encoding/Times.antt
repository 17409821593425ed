-- ===== src/Core/Encoding/Times.antt =====
-- Which times the encoder writes.
use go_healthcheck.Prelude.{ℕ, ◌+◌, ◌-◌, ◌*◌, ◌≤◌, ◌<◌, ◌≡◌, refl, ap, ◌↔◌, true, arith}
use go_healthcheck.Prelude.Int.{ℤ, pos, negsuc}
use go_healthcheck.Json.{Time, Zone, utc_zone, east, west}
use go_healthcheck.Core.Encoding.{in_zone, is_time_encodable}
use go_healthcheck.Core.Encoding.Years.{
  days_before, days_in_year, day_nanos, after_zero, before_zero, ahead, behind, IsIn,
  days_before-last, year_ends, year_of,
}

-- The local clock is in one of the years 0 to 9999, and less than a day from UTC.
pub record IsWritable (t : Time) : Type 0 where
  pub year : ℕ
  pub four_digits : year ≤ 9999
  pub is_in : IsIn t year
  pub near_east : ahead t.zone < 86400
  pub near_west : behind t.zone < 86400

first_year : days_before 1 ≡ 366
unfolding days_before
first_year = refl

-- The clock and the bounds of the encoder at the instant `plus - minus`.
module _ (plus minus : ℕ) where
  abbrev Clock : Zone → ℕ → ℕ → Type 0
  Clock z year rest =
      day_nanos (days_before 1) + plus + ahead z * 1000000000
      ≡ day_nanos (days_before year) + rest + minus + behind z * 1000000000

  Clock-in_zone :
      (z : Zone) (year rest : ℕ)
      → year ≤ 9999
      → rest < day_nanos (days_in_year year)
      → Clock z year rest
      → ahead z < 86400
      → behind z < 86400
      → in_zone z plus minus ≡ true
  Clock-in_zone utc_zone year rest low within clock e w =
      ground (arith, first_year, year_ends year low)
  Clock-in_zone (east o) year rest low within clock e w =
      ground (arith, first_year, year_ends year low)
  Clock-in_zone (west o) year rest low within clock e w =
      ground (arith, first_year, year_ends year low)

  in_zone-bounds :
      (z : Zone)
      → in_zone z plus minus ≡ true
      → (n : ℕ) × (n < day_nanos 3652425)
        × (day_nanos 366 + plus + ahead z * 1000000000 ≡ n + minus + behind z * 1000000000)
        × (ahead z < 86400)
        × (behind z < 86400)
  in_zone-bounds utc_zone h =
      (31622400000000000 + plus - minus, ground arith, ground arith, omega arith, omega arith)
  in_zone-bounds (east o) h = (
    31622400000000000 + plus + o * 1000000000 - minus,
    ground arith,
    ground arith,
    ground arith,
    omega arith,
  )
  in_zone-bounds (west o) h = (
    31622400000000000 + plus - (minus + o * 1000000000),
    ground arith,
    ground arith,
    omega arith,
    ground arith,
  )

IsWritable-is_time_encodable : (t : Time) → IsWritable t → is_time_encodable t ≡ true
unfolding is_time_encodable
IsWritable-is_time_encodable t w = go t.instant refl
  where
    go : (i : ℤ) → t.instant ≡ i → is_time_encodable t ≡ true
    go (pos n) e = rw (e) (
        Clock-in_zone n 0 t.zone w.year w.is_in.rest w.four_digits w.is_in.within
          (rw (← ap after_zero e, ← ap before_zero e) w.is_in.clock) w.near_east w.near_west)
    go (negsuc n) e = rw (e) (
        Clock-in_zone 0 (n + 1) t.zone w.year w.is_in.rest w.four_digits w.is_in.within
          (omega (arith, ap after_zero e, ap before_zero e, w.is_in.clock)) w.near_east w.near_west)

-- The year that so many nanoseconds from the start of the year 0 lead to.
bounds-IsWritable :
    (t : Time) (n : ℕ)
    → n < day_nanos 3652425
    → day_nanos 366 + after_zero t.instant + ahead t.zone * 1000000000
      ≡ n + before_zero t.instant + behind t.zone * 1000000000
    → ahead t.zone < 86400
    → behind t.zone < 86400
    → IsWritable t
bounds-IsWritable t n below clock e w =
    let (y, low, (rest, within, sum)) = year_of n 10000 (omega (arith, days_before-last)) in
    record {
      year = y;
      four_digits = omega arith;
      is_in = record { rest = rest; within = within; clock = omega (arith, first_year) };
      near_east = e;
      near_west = w;
    }

is_time_encodable-IsWritable : (t : Time) → is_time_encodable t ≡ true → IsWritable t
unfolding is_time_encodable
is_time_encodable-IsWritable t h = go t.instant refl
  where
    go : (i : ℤ) → t.instant ≡ i → IsWritable t
    go (pos m) e =
        let test : in_zone t.zone m 0 ≡ true = ground (arith, e) in
        let (n, below, clock, near, near') = in_zone-bounds m 0 t.zone test in
        bounds-IsWritable t n below (omega (arith, ap after_zero e, ap before_zero e)) near near'
    go (negsuc m) e =
        let test : in_zone t.zone 0 (m + 1) ≡ true = ground (arith, e) in
        let (n, below, clock, near, near') = in_zone-bounds 0 (m + 1) t.zone test in
        bounds-IsWritable t n below (omega (arith, ap after_zero e, ap before_zero e)) near near'

-- The test of the encoder finds the times of the years 0 to 9999 in the zones near UTC.
pub is_time_encodable_iff : (t : Time) → (is_time_encodable t ≡ true) ↔ IsWritable t
is_time_encodable_iff t = (is_time_encodable-IsWritable t, IsWritable-is_time_encodable t)
