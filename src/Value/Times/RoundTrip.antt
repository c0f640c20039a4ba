-- ===== src/Value/Times/RoundTrip.antt =====
-- xmlrpc-c/src/xmlrpc_datetime.c and xmlrpc-c/lib/libutil/time.c: a time becomes a datetime, and a time again.
use xml_rpc.Prelude.{
  ◌||◌, ℕ, ◌+◌, ◌-◌, ◌*◌, ◌/◌, ◌%◌, ◌^◌, ◌≤◌, ◌<◌, ◌≡◌, refl, ap, ◌∙◌, false, ◌&&◌, ltb,
  if◌then◌else◌, arith, pos, some,
}
use xml_rpc.Fault.{ok}
use xml_rpc.Value.{Datetime, Value, datetime}
use xml_rpc.Value.Times.{
  above, below, Tm, is_leap_year, days_of_years, days_of_months, timegm, timegm_sum,
  int_of_unsigned, unsigned_of_int, broken_time, datetime_new_usec, datetime_new_sec, read_datetime,
  read_datetime_usec, read_datetime_sec,
}
use xml_rpc.Value.Times.Calendar.{days_of_years-ge}
use xml_rpc.Value.Times.Civil.{IsCivil, gmtime-IsCivil}

-- The sums of xmlrpc_timegm at such a time.
sum_lem :
    (secs before d : ℕ)
    → secs / 86400 ≡ before + d
    → ((((before + (d + 1 + 2 ^ 32 - 1)) % 2 ^ 32 * 24 + secs / 3600 % 24) * 60 + secs / 60 % 60)
            * 60
          + secs % 60)
        % 2 ^ 32
      ≡ secs % 2 ^ 32
sum_lem secs before d h = omega arith

unsigned_lem : (k : ℕ) → k < 2 ^ 32 → unsigned_of_int (pos k) ≡ k
unfolding unsigned_of_int
unsigned_lem k h = omega arith

int_lem : (k : ℕ) → k < 2 ^ 31 → int_of_unsigned k ≡ pos k
unfolding int_of_unsigned
int_lem k h = ground arith

-- The datetime of such a time.
abbrev civil : ℕ → ℕ → ℕ → ℕ → Datetime
civil secs n m d = record {
  year = 1970 + n;
  month = m + 1;
  day = d + 1;
  hour = secs / 3600 % 24;
  minute = secs / 60 % 60;
  second = secs % 60;
  microsecond = 0;
}

abbrev civil_tm : ℕ → ℕ → ℕ → ℕ → Tm
civil_tm secs n m d = record {
  tm_sec = pos (secs % 60);
  tm_min = pos (secs / 60 % 60);
  tm_hour = pos (secs / 3600 % 24);
  tm_mday = pos (d + 1);
  tm_mon = pos m;
  tm_year = pos (1970 + n - 1900);
}

year_field :
    (n : ℕ) → n < 40000 → (1900 + unsigned_of_int (pos (1970 + n - 1900))) % 2 ^ 32 ≡ 1970 + n
unfolding unsigned_of_int
year_field n h = omega arith

month_field : (m : ℕ) → m < 12 → (unsigned_of_int (pos m) + 1) % 2 ^ 32 ≡ m + 1
unfolding unsigned_of_int
month_field m h = omega arith

day_small : (d : ℕ) → d < 31 → d + 1 < 2 ^ 32
day_small d h = omega arith

day_small31 : (d : ℕ) → d < 31 → d + 1 < 2 ^ 31
day_small31 d h = omega arith

month_int : (m : ℕ) → m < 12 → int_of_unsigned ((m + 1 + 2 ^ 32 - 1) % 2 ^ 32) ≡ pos m
month_int m h = ap int_of_unsigned (omega arith) ∙ int_lem m (omega arith)

year_int :
    (n : ℕ)
    → n < 40000
    → int_of_unsigned ((1970 + n + 2 ^ 32 - 1900) % 2 ^ 32) ≡ pos (1970 + n - 1900)
year_int n h = ap int_of_unsigned (omega arith) ∙ int_lem (1970 + n - 1900) (omega arith)

new_lem :
    (secs n m d : ℕ)
    → n < 40000
    → IsCivil secs n m d
    → datetime_new_sec secs ≡ ok (datetime (civil secs n m d))
unfolding datetime_new_sec datetime_new_usec
new_lem secs n m d small c =
    ap
      (λ tm. ok (
        datetime (record {
          year = (1900 + unsigned_of_int tm.tm_year) % 2 ^ 32;
          month = (unsigned_of_int tm.tm_mon + 1) % 2 ^ 32;
          day = unsigned_of_int tm.tm_mday;
          hour = unsigned_of_int tm.tm_hour;
          minute = unsigned_of_int tm.tm_min;
          second = unsigned_of_int tm.tm_sec;
          microsecond = 0;
        })))
      c.run
    ∙ (λ i. ok (
        datetime (record {
          year = year_field n small i;
          month = month_field m c.month i;
          day = unsigned_lem (d + 1) (day_small d c.day) i;
          hour = unsigned_lem (secs / 3600 % 24) (omega arith) i;
          minute = unsigned_lem (secs / 60 % 60) (omega arith) i;
          second = unsigned_lem (secs % 60) (omega arith) i;
          microsecond = 0;
        })))

broken_lem :
    (secs n m d : ℕ)
    → n < 40000
    → IsCivil secs n m d
    → broken_time (civil secs n m d) ≡ civil_tm secs n m d
unfolding broken_time
broken_lem secs n m d small c = λ i. record {
  tm_sec = int_lem (secs % 60) (omega arith) i;
  tm_min = int_lem (secs / 60 % 60) (omega arith) i;
  tm_hour = int_lem (secs / 3600 % 24) (omega arith) i;
  tm_mday = int_lem (d + 1) (day_small31 d c.day) i;
  tm_mon = month_int m c.month i;
  tm_year = year_int n small i;
}

-- No member is out of range.
in_range :
    (y mo d h mi s : ℕ)
    → 70 ≤ y
    → mo < 12
    → d < 31
    → h < 24
    → mi < 60
    → s < 60
    → (below (pos y) 70
        || above (pos mo) 11
        || below (pos mo) 0
        || above (pos (d + 1)) 31
        || above (pos mi) 60
        || above (pos s) 60
        || above (pos h) 24)
      ≡ false
in_range y mo d h mi s hy hmo hd hh hmi hs = ground arith

year_unsigned : (n : ℕ) → n < 40000 → unsigned_of_int (pos (1970 + n - 1900)) ≡ n + 70
unfolding unsigned_of_int
year_unsigned n h = omega arith

year_at : (n : ℕ) → 1900 + (n + 70) ≡ 1970 + n
year_at n = omega arith

rounds : (n : ℕ) → n + 70 - 70 ≡ n
rounds n = omega arith

days_at :
    (days years months leap d : ℕ)
    → days ≡ years + (months + leap) + d
    → days ≡ years + months + leap + d
days_at days years months leap d h = omega arith

total_lem :
    (secs n m d : ℕ)
    → IsCivil secs n m d
    → timegm_sum (n + 70) m (d + 1) (secs / 3600 % 24) (secs / 60 % 60) (secs % 60) ≡ secs % 2 ^ 32
unfolding timegm_sum
total_lem secs n m d c =
    let leap = if ltb 1 m && is_leap_year (1970 + n) then 1 else 0 in
    rw (rounds n) (
      rw (year_at n) (
        sum_lem secs (days_of_years n + days_of_months m + leap) d
          (days_at (secs / 86400) (days_of_years n) (days_of_months m) leap d c.sum)))

timegm_lem :
    (secs n m d : ℕ)
    → n < 40000
    → IsCivil secs n m d
    → timegm (civil_tm secs n m d) ≡ some (secs % 2 ^ 32)
unfolding timegm timegm_sum
timegm_lem secs n m d small c =
    rw
      (
        in_range (1970 + n - 1900) m d (secs / 3600 % 24) (secs / 60 % 60) (secs % 60) (omega arith)
            c.month c.day (omega arith) (omega arith) (omega arith),
        timegm,
      )
      ((λ i. some (
          timegm_sum (year_unsigned n small i) (unsigned_lem m (omega arith) i)
            (unsigned_lem (d + 1) (day_small d c.day) i)
            (unsigned_lem (secs / 3600 % 24) (omega arith) i)
            (unsigned_lem (secs / 60 % 60) (omega arith) i)
            (unsigned_lem (secs % 60) (omega arith) i)))
        ∙ ap some (total_lem secs n m d c))

late : (n : ℕ) → ltb (1970 + n) 1970 ≡ false
late n = ground arith

read_lem :
    (secs n m d : ℕ)
    → n < 40000
    → IsCivil secs n m d
    → read_datetime_sec (datetime (civil secs n m d)) ≡ ok (secs % 2 ^ 32)
unfolding read_datetime_sec read_datetime_usec read_datetime
read_lem secs n m d small c = rw (late n) (
    rw
      (
        ap timegm (broken_lem secs n m d small c) ∙ timegm_lem secs n m d small c,
        read_datetime_usec,
      )
      refl)

few_years : (secs n m d : ℕ) → secs < 2 ^ 40 → IsCivil secs n m d → n < 40000
few_years secs n m d h c = omega (arith, days_of_years-ge n, c.sum)

-- A time becomes a datetime, and reading that gives the time, modulo 2^32: from February 2106 on it is
-- another one. The time is below 2^40.
pub read-datetime_new_sec :
    (secs : ℕ)
    → secs < 2 ^ 40
    → (v : Value) × (datetime_new_sec secs ≡ ok v) × (read_datetime_sec v ≡ ok (secs % 2 ^ 32))
unfolding read_datetime_sec read_datetime_usec read_datetime
read-datetime_new_sec secs h =
    let (n, m, d, c) = gmtime-IsCivil secs in
    let small = few_years secs n m d h c in
    (datetime (civil secs n m d), new_lem secs n m d small c, read_lem secs n m d small c)
