-- ===== src/Value/Times/Calendar.antt =====
-- xmlrpc-c/lib/libutil/time.c: the sums of xmlrpc_timegm against the calendar of gmtime.
use xml_rpc.Prelude.{
  List, [], ◌∷◌, All, ℕ, zero, suc, ◌+◌, ◌-◌, ◌*◌, ◌≤◌, ◌<◌, ◌≡◌, refl, ap, ◌∙◌, sym, Bool, true,
  false, ◌&&◌, ltb, ◌==◌, if◌then◌else◌, arith, get_or, inl, inr, Bool-cases,
}
use xml_rpc.Value.Times.{
  is_leap_year, year_days, month_days_non_leap, days_of_years, days_of_months, year_of, month_days,
  month_of,
}

-- A day `d` of the year `n` after 1970, counted from the start of that year.
pub record IsYearDay (days n d : ℕ) : Type 0 where
  pub within : d < year_days (1970 + n)
  pub sum : days ≡ days_of_years n + d

year_days-bounds : (y : ℕ) → (365 ≤ year_days y) × (year_days y ≤ 366)
year_days-bounds y = ground arith

next_year : (n : ℕ) → 1970 + n + 1 ≡ 1970 + suc n
next_year n = omega arith

pub year_of_lem :
    (fuel n days rest : ℕ)
    → rest < fuel
    → days ≡ days_of_years n + rest
    → (n' : ℕ) × (d : ℕ) × (year_of fuel (1970 + n) rest ≡ (1970 + n', d)) × IsYearDay days n' d
unfolding year_of days_of_years
year_of_lem zero n days rest h e = absurd (omega arith)
year_of_lem (suc fuel) n days rest h e = elim (Bool-cases (ltb rest (year_days (1970 + n)))) [
  | inl here ↦ (n, rest, rw here refl, record { within = ground arith; sum = e })
  | inr later ↦
      let (n', d, run, is_day) =
        year_of_lem fuel (suc n) days (rest - year_days (1970 + n))
          (ground (arith, year_days-bounds (1970 + n))) (ground arith) in
      (
        n',
        d,
        rw later (ap (λ y. year_of fuel y (rest - year_days (1970 + n))) (next_year n) ∙ run),
        is_day,
      )
]

pub days_of_years-ge : (n : ℕ) → n * 365 ≤ days_of_years n
unfolding days_of_years
days_of_years-ge zero = omega arith
days_of_years-ge (suc n) = omega (arith, days_of_years-ge n, year_days-bounds (1970 + n))

-- The days of the months before a month, in a year of either kind.
abbrev pub month_sum : Bool → ℕ → ℕ
month_sum leap zero = 0
month_sum leap (suc m) = month_sum leap m + month_days leap m

-- The days of the next months.
abbrev pub months_from : Bool → ℕ → ℕ → ℕ
months_from leap zero m = 0
months_from leap (suc k) m = month_days leap m + months_from leap k (m + 1)

add_one : (m : ℕ) → m + 1 ≡ suc m
add_one m = omega arith

later_sum :
    (rest len before after : ℕ)
    → ltb rest len ≡ false
    → before + len + (rest - len) ≡ after
    → before + rest ≡ after
later_sum rest len before after h e = ground arith

pub month_of_lem :
    (fuel : ℕ) (leap : Bool) (m rest : ℕ)
    → rest < months_from leap fuel m
    → (m' : ℕ) × (d : ℕ) × (month_of fuel leap m rest ≡ (m', d))
      × (m' < m + fuel)
      × (d < month_days leap m')
      × (month_sum leap m + rest ≡ month_sum leap m' + d)
unfolding month_of
month_of_lem zero leap m rest h = absurd (omega arith)
month_of_lem (suc fuel) leap m rest h = elim (Bool-cases (ltb rest (month_days leap m))) [
  | inl here ↦ (m, rest, rw here refl, omega arith, ground arith, refl)
  | inr later ↦
      let (m', d, run, bound, within, sum) =
        month_of_lem fuel leap (m + 1) (rest - month_days leap m) (ground arith) in
      (
        m',
        d,
        rw later run,
        omega arith,
        within,
        later_sum rest (month_days leap m) (month_sum leap m) (month_sum leap m' + d) later
            (ap (λ k. month_sum leap k + (rest - month_days leap m)) (sym (add_one m)) ∙ sum),
      )
]

-- One more month after February of a leap year.
leap_step :
    (days month sum m : ℕ)
    → days + (if ltb 1 (suc (suc m)) && true then 1 else 0) ≡ sum
    → days + month + (if ltb 1 (suc (suc (suc m))) && true then 1 else 0)
      ≡ sum + (month + (if true && suc (suc m) == 1 then 1 else 0))
leap_step days month sum m h = ground arith

-- The second loop of xmlrpc_timegm, with the day that is added behind a February of 29 days.
pub days_of_months_lem :
    (leap : Bool) (m : ℕ) → days_of_months m + (if ltb 1 m && leap then 1 else 0) ≡ month_sum leap m
unfolding days_of_months
days_of_months_lem true zero = refl
days_of_months_lem true (suc zero) = refl
days_of_months_lem true (suc (suc zero)) = refl
days_of_months_lem true (suc (suc (suc m))) =
    leap_step (days_of_months (suc (suc m))) (get_or month_days_non_leap (suc (suc m)) 0)
      (month_sum true (suc (suc m))) m (days_of_months_lem true (suc (suc m)))
days_of_months_lem false zero = refl
days_of_months_lem false (suc m) = ground (arith, days_of_months_lem false m)

days_bound : (days : List ℕ) (i : ℕ) → All (λ d. d ≤ 31) days → get_or days i 0 ≤ 31
days_bound [] i h = omega arith
days_bound (d ∷ days) zero h = h.0
days_bound (d ∷ days) (suc i) h = days_bound days i h.1

non_leap_bound : All (λ d. d ≤ 31) month_days_non_leap
non_leap_bound = ground arith

pub month_days-bound : (leap : Bool) (m : ℕ) → month_days leap m ≤ 31
month_days-bound leap zero = ground arith
month_days-bound leap (suc zero) = ground arith
month_days-bound leap (suc (suc m)) =
    ground (arith, days_bound month_days_non_leap (suc (suc m)) non_leap_bound)

pub year_days-months : (y : ℕ) → months_from (is_leap_year y) 12 0 ≡ year_days y
year_days-months y = elim (Bool-cases (is_leap_year y)) [
  | inl leap ↦ rw leap refl
  | inr plain ↦ rw plain refl
]
