-- ===== src/Value/Times/Civil.antt =====
-- xmlrpc-c/lib/libutil/time.c: gmtime of the C library gives a day of a month of a year.
use xml_rpc.Prelude.{
  subst, ℕ, ◌+◌, ◌-◌, ◌/◌, ◌%◌, ◌≤◌, ◌<◌, ◌≡◌, refl, sym, ◌&&◌, ltb, if◌then◌else◌, arith, pos,
}
use xml_rpc.Value.Times.{
  is_leap_year, days_of_years, days_of_months, year_of, month_days, month_of, gmtime,
}
use xml_rpc.Value.Times.Calendar.{
  IsYearDay, year_of_lem, month_sum, month_of_lem, days_of_months_lem, month_days-bound,
  year_days-months,
}

-- What gmtime gives: a year after 1970, a month, a day, and the time of the day.
pub record IsCivil (secs n m d : ℕ) : Type 0 where
  pub run : gmtime secs ≡ record {
    tm_sec = pos (secs % 60);
    tm_min = pos (secs / 60 % 60);
    tm_hour = pos (secs / 3600 % 24);
    tm_mday = pos (d + 1);
    tm_mon = pos m;
    tm_year = pos (1970 + n - 1900);
  }
  pub month : m < 12
  pub day : d < 31
  pub sum :
      secs / 86400
      ≡ days_of_years n
        + (days_of_months m + (if ltb 1 m && is_leap_year (1970 + n) then 1 else 0))
        + d

day_bound : (d len : ℕ) → d < len → len ≤ 31 → d < 31
day_bound d len h k = omega arith

day_sum :
    (days years rest months all d : ℕ)
    → days ≡ years + rest
    → 0 + rest ≡ all + d
    → months ≡ all
    → days ≡ years + months + d
day_sum days years rest months all d e sum same = omega arith

gmtime_run :
    (secs year rest m d : ℕ)
    → year_of (secs / 86400 + 1) 1970 (secs / 86400) ≡ (year, rest)
    → month_of 12 (is_leap_year year) 0 rest ≡ (m, d)
    → gmtime secs ≡ record {
      tm_sec = pos (secs % 60);
      tm_min = pos (secs / 60 % 60);
      tm_hour = pos (secs / 3600 % 24);
      tm_mday = pos (d + 1);
      tm_mon = pos m;
      tm_year = pos (year - 1900);
    }
unfolding gmtime
gmtime_run secs year rest m d h k = rw h (rw k refl)

gmtime_month :
    (secs n rest m d : ℕ)
    → year_of (secs / 86400 + 1) 1970 (secs / 86400) ≡ (1970 + n, rest)
    → IsYearDay (secs / 86400) n rest
    → month_of 12 (is_leap_year (1970 + n)) 0 rest ≡ (m, d)
    → m < 0 + 12
    → d < month_days (is_leap_year (1970 + n)) m
    → month_sum (is_leap_year (1970 + n)) 0 + rest ≡ month_sum (is_leap_year (1970 + n)) m + d
    → IsCivil secs n m d
gmtime_month secs n rest m d h is_day k bound within sum =
    let months = days_of_months_lem (is_leap_year (1970 + n)) m in
    let short = month_days-bound (is_leap_year (1970 + n)) m in
    record {
      run = gmtime_run secs (1970 + n) rest m d h k;
      month = omega arith;
      day = day_bound d _ within short;
      sum = day_sum (secs / 86400) (days_of_years n) rest _ _ d is_day.sum sum months;
    }

gmtime_year :
    (secs n rest : ℕ)
    → year_of (secs / 86400 + 1) 1970 (secs / 86400) ≡ (1970 + n, rest)
    → IsYearDay (secs / 86400) n rest
    → (m : ℕ) × (d : ℕ) × IsCivil secs n m d
gmtime_year secs n rest h is_day =
    let (m, d, k, bound, within, sum) =
      month_of_lem 12 (is_leap_year (1970 + n)) 0 rest
        (subst (λ len. rest < len) (sym (year_days-months (1970 + n))) is_day.within) in
    (m, d, gmtime_month secs n rest m d h is_day k bound within sum)

no_years : (days : ℕ) → days ≡ days_of_years 0 + days
unfolding days_of_years
no_years days = omega arith

pub gmtime-IsCivil : (secs : ℕ) → (n : ℕ) × (m : ℕ) × (d : ℕ) × IsCivil secs n m d
gmtime-IsCivil secs =
    let (n, rest, h, is_day) =
      year_of_lem (secs / 86400 + 1) 0 (secs / 86400) (secs / 86400) (omega arith)
        (no_years (secs / 86400)) in
    let (m, d, c) = gmtime_year secs n rest h is_day in (n, m, d, c)
