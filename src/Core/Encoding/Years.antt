-- ===== src/Core/Encoding/Years.antt =====
-- The years of the calendar that time.Time and RFC 3339 use, counted from the year 0.
use go_healthcheck.Prelude.{
  ℕ, zero, suc, ◌+◌, ◌*◌, ◌/◌, ◌%◌, ◌-◌, ◌≤◌, ◌<◌, ◌≡◌, refl, ap, Bool, true, false, inl, inr,
  nat_eq, ltb, if◌then◌else◌, Bool-cases, arith,
}
use go_healthcheck.Prelude.Int.{ℤ, pos, negsuc}
use go_healthcheck.Json.{Time, Zone, utc_zone, east, west}

-- A year has a leap day if 4 divides it, unless 100 does and 400 does not.
abbrev pub is_leap : ℕ → Bool
is_leap y =
    if nat_eq (y % 400) 0 then true else if nat_eq (y % 100) 0 then false else nat_eq (y % 4) 0

abbrev pub days_in_year : ℕ → ℕ
days_in_year y = if is_leap y then 366 else 365

-- The days from the start of the year 0 to the start of the given year.
unfoldable pub days_before : ℕ → ℕ
days_before zero = 0
days_before (suc y) = days_before y + days_in_year y

-- The nanoseconds of so many days.
abbrev pub day_nanos : ℕ → ℕ
day_nanos d = d * 86400000000000

-- The nanoseconds by which an instant is after the zero time, and by which it is before it.
abbrev pub after_zero : ℤ → ℕ
after_zero (pos n) = n
after_zero (negsuc n) = 0

abbrev pub before_zero : ℤ → ℕ
before_zero (pos n) = 0
before_zero (negsuc n) = suc n

-- The seconds by which a zone's clock is ahead of UTC, and by which it is behind.
abbrev pub ahead : Zone → ℕ
ahead utc_zone = 0
ahead (east o) = o
ahead (west o) = 0

abbrev pub behind : Zone → ℕ
behind utc_zone = 0
behind (east o) = 0
behind (west o) = o

-- A time's local clock stands `rest` nanoseconds after the start of the year: the instant and the
-- zone's offset, counted from the zero time at the start of the year 1, lead there.
pub record IsIn (t : Time) (year : ℕ) : Type 0 where
  pub rest : ℕ
  pub within : rest < day_nanos (days_in_year year)
  pub clock :
      day_nanos (days_before 1) + after_zero t.instant + ahead t.zone * 1000000000
      ≡ day_nanos (days_before year) + rest + before_zero t.instant + behind t.zone * 1000000000

days_before-closed :
    (y : ℕ) → days_before y + (y + 99) / 100 ≡ y * 365 + (y + 3) / 4 + (y + 399) / 400
unfolding days_before
days_before-closed zero = refl
days_before-closed (suc y) = ground (arith, days_before-closed y)

pub days_before-last : days_before 10000 ≡ 3652425
days_before-last = omega (arith, days_before-closed 10000)

-- Later years start no earlier.
days_before_mono : (y k m : ℕ) → k + y ≡ m → days_before y ≤ days_before m
unfolding days_before
days_before_mono y zero m e = let same : y ≡ m = omega arith in omega (arith, ap days_before same)
days_before_mono y (suc k) zero e = absurd (omega arith)
days_before_mono y (suc k) (suc m) e =
    let earlier = days_before_mono y k m (omega arith) in omega arith

pub year_ends : (y : ℕ) → y ≤ 9999 → days_before y + days_in_year y ≤ 3652425
unfolding days_before
year_ends y low = rw (← days_before-last) (days_before_mono (suc y) (9999 - y) 10000 (omega arith))

-- Every number of nanoseconds before the start of a year is in some earlier year.
pub year_of :
    (n m : ℕ)
    → n < day_nanos (days_before m)
    → (y : ℕ) × (y < m)
      × ((rest : ℕ) × (rest < day_nanos (days_in_year y)) × (day_nanos (days_before y) + rest ≡ n))
unfolding days_before
year_of n zero low = absurd (omega arith)
year_of n (suc m) low = elim (Bool-cases (ltb n (day_nanos (days_before m)))) [
  | inl earlier ↦
      let (y, below, found) = year_of n m (ground (arith, earlier)) in (y, omega arith, found)
  | inr last ↦
      let start : day_nanos (days_before m) ≤ n = ground (arith, last) in
      (m, omega arith, (n - day_nanos (days_before m), omega arith, omega arith))
]
