-- ===== src/Value/Times.antt =====
-- xmlrpc-c/src/xmlrpc_datetime.c and xmlrpc-c/lib/libutil/time.c, as built where time_t has 64 bits. gmtime
-- of the C library is the Gregorian calendar.
pub mod Text
pub mod Calendar
pub mod Civil
pub mod RoundTrip
use xml_rpc.Prelude.{
  ℕ, zero, suc, ◌+◌, ◌-◌, ◌*◌, ◌/◌, ◌%◌, ◌^◌, Bool, true, false, ◌&&◌, ◌||◌, not, List, [], ◌∷◌,
  ◌++◌, ltb, ◌==◌, if◌then◌else◌, Bytes, ℤ, pos, negsuc, get_or, Option, none, some, decimal,
  zero_pad, take,
}
use xml_rpc.Fault.{Result, ok, type_error, parse_error, fault, faultf, ◌>>=◌}
use xml_rpc.Value.{Datetime, Value, datetime}

-- The conversions between int and unsigned int.
unfoldable pub int_of_unsigned : ℕ → ℤ
int_of_unsigned n = if ltb n (2 ^ 31) then pos n else negsuc (2 ^ 32 - 1 - n)

unfoldable pub unsigned_of_int : ℤ → ℕ
unsigned_of_int (pos n) = n % 2 ^ 32
unsigned_of_int (negsuc n) = (2 ^ 32 - 1 - n % 2 ^ 32) % 2 ^ 32

-- struct tm of the C library
pub record Tm : Type 0 where
  pub tm_sec : ℤ
  pub tm_min : ℤ
  pub tm_hour : ℤ
  pub tm_mday : ℤ
  pub tm_mon : ℤ
  pub tm_year : ℤ

-- isLeapYear
unfoldable pub is_leap_year : ℕ → Bool
is_leap_year year = year % 4 == 0 && (not (year % 100 == 0) || year % 400 == 0)

-- `z > n` and `z < n` for an int and a constant
abbrev pub above : ℤ → ℕ → Bool
above (pos m) n = ltb n m
above (negsuc m) n = false

abbrev pub below : ℤ → ℕ → Bool
below (pos m) n = ltb m n
below (negsuc m) n = true

abbrev pub month_days_non_leap : List ℕ
month_days_non_leap = 31 ∷ 28 ∷ 31 ∷ 30 ∷ 31 ∷ 30 ∷ 31 ∷ 31 ∷ 30 ∷ 31 ∷ 30 ∷ 31 ∷ []

abbrev pub year_days : ℕ → ℕ
year_days year = if is_leap_year year then 366 else 365

-- The first loop of xmlrpc_timegm, after so many rounds.
unfoldable pub days_of_years : ℕ → ℕ
days_of_years zero = 0
days_of_years (suc rounds) = days_of_years rounds + year_days (1970 + rounds)

-- The second loop, after so many rounds.
unfoldable pub days_of_months : ℕ → ℕ
days_of_months zero = 0
days_of_months (suc rounds) = days_of_months rounds + get_or month_days_non_leap rounds 0

-- The sums of xmlrpc_timegm in unsigned int.
unfoldable pub timegm_sum : ℕ → ℕ → ℕ → ℕ → ℕ → ℕ → ℕ
timegm_sum year month day hour minute second =
    let before = days_of_years (year - 70) + days_of_months month in
    let leap = if ltb 1 month && is_leap_year (1900 + year) then 1 else 0 in
    let total_days = (before + leap + (day + 2 ^ 32 - 1)) % 2 ^ 32 in
    (((total_days * 24 + hour) * 60 + minute) * 60 + second) % 2 ^ 32

-- xmlrpc_timegm; none stands for its error text.
unfoldable pub timegm : Tm → Option ℕ
timegm tm =
    if below tm.tm_year 70
      || above tm.tm_mon 11
      || below tm.tm_mon 0
      || above tm.tm_mday 31
      || above tm.tm_min 60
      || above tm.tm_sec 60
      || above tm.tm_hour 24
    then none
    else some (
        timegm_sum (unsigned_of_int tm.tm_year) (unsigned_of_int tm.tm_mon)
          (unsigned_of_int tm.tm_mday) (unsigned_of_int tm.tm_hour) (unsigned_of_int tm.tm_min)
          (unsigned_of_int tm.tm_sec))

-- The year and the month of a day, by the lengths of the years from 1970 and of the months.
unfoldable pub year_of : ℕ → ℕ → ℕ → ℕ × ℕ
year_of zero year days = (year, days)
year_of (suc fuel) year days =
    let later = year_of fuel (year + 1) (days - year_days year) in
    if ltb days (year_days year) then (year, days) else later

abbrev pub month_days : Bool → ℕ → ℕ
month_days leap month = get_or month_days_non_leap month 0 + (if leap && month == 1 then 1 else 0)

unfoldable pub month_of : ℕ → Bool → ℕ → ℕ → ℕ × ℕ
month_of zero leap month days = (month, days)
month_of (suc fuel) leap month days =
    let later = month_of fuel leap (month + 1) (days - month_days leap month) in
    if ltb days (month_days leap month) then (month, days) else later

-- gmtime, for a time from 1970 on
unfoldable pub gmtime : ℕ → Tm
unfolding year_of month_of
gmtime secs =
    let days = secs / 86400 in
    let (year, year_day) = year_of (days + 1) 1970 days in
    let (month, day) = month_of 12 (is_leap_year year) 0 year_day in
    record {
      tm_sec = pos (secs % 60);
      tm_min = pos (secs / 60 % 60);
      tm_hour = pos (secs / 3600 % 24);
      tm_mday = pos (day + 1);
      tm_mon = pos month;
      tm_year = pos (year - 1900);
    }

-- xmlrpc_datetime_new_usec, for a time from 1970 on
unfoldable pub datetime_new_usec : ℕ → ℕ → Result Value
unfolding gmtime
datetime_new_usec secs usecs =
    let tm = gmtime secs in
    if not (ltb usecs 1000000)
    then faultf "Number of fractional microseconds must be less than one million.  You specified %u"
    else ok (
        datetime (record {
          year = (1900 + unsigned_of_int tm.tm_year) % 2 ^ 32;
          month = (unsigned_of_int tm.tm_mon + 1) % 2 ^ 32;
          day = unsigned_of_int tm.tm_mday;
          hour = unsigned_of_int tm.tm_hour;
          minute = unsigned_of_int tm.tm_min;
          second = unsigned_of_int tm.tm_sec;
          microsecond = usecs;
        }))

-- xmlrpc_datetime_new_sec
unfoldable pub datetime_new_sec : ℕ → Result Value
datetime_new_sec value = datetime_new_usec value 0

-- xmlrpc_datetime_new_timeval and xmlrpc_datetime_new_timespec
unfoldable pub datetime_new_timeval : ℕ → ℕ → Result Value
datetime_new_timeval tv_sec tv_usec = datetime_new_usec tv_sec tv_usec

unfoldable pub datetime_new_timespec : ℕ → ℕ → Result Value
datetime_new_timespec tv_sec tv_nsec = datetime_new_usec tv_sec (tv_nsec / 1000)

-- xmlrpc_read_datetime
unfoldable pub read_datetime : Value → Result Datetime
read_datetime (datetime dt) = ok dt
read_datetime v = fault type_error "Value of type %s supplied where type %s was expected."

-- The broken-down time of a value.
unfoldable pub broken_time : Datetime → Tm
broken_time dt = record {
  tm_sec = int_of_unsigned dt.second;
  tm_min = int_of_unsigned dt.minute;
  tm_hour = int_of_unsigned dt.hour;
  tm_mday = int_of_unsigned dt.day;
  tm_mon = int_of_unsigned ((dt.month + 2 ^ 32 - 1) % 2 ^ 32);
  tm_year = int_of_unsigned ((dt.year + 2 ^ 32 - 1900) % 2 ^ 32);
}

-- xmlrpc_read_datetime_usec
unfoldable pub read_datetime_usec : Value → Result (ℕ × ℕ)
unfolding timegm
read_datetime_usec v = do
  dt ← read_datetime v
  if ltb dt.year 1970
      then faultf "Year (%u) is too early to represent as a standard Unix time"
      else elim (timegm (broken_time dt)) [
        | none ↦
            fault parse_error
              "A datetime received in an XML-RPC message or generated with legacy Xmlrpc-c facilities does not validly describe a datetime.  %s"
        | some secs ↦ ok (secs, dt.microsecond)
      ]

-- xmlrpc_read_datetime_sec
unfoldable pub read_datetime_sec : Value → Result ℕ
read_datetime_sec v = do times ← read_datetime_usec v; ok times.0

-- xmlrpc_read_datetime_timeval and xmlrpc_read_datetime_timespec
unfoldable pub read_datetime_timeval : Value → Result (ℕ × ℕ)
read_datetime_timeval v = read_datetime_usec v

unfoldable pub read_datetime_timespec : Value → Result (ℕ × ℕ)
read_datetime_timespec v = do times ← read_datetime_usec v; ok (times.0, times.1 * 1000)

-- strftime with "%Y%m%dT%H:%M:%S", into a buffer that is large enough
unfoldable pub hybrid_time : Tm → Bytes
hybrid_time tm =
    decimal (1900 + unsigned_of_int tm.tm_year)
    ++ zero_pad 2 (decimal (unsigned_of_int tm.tm_mon + 1))
    ++ zero_pad 2 (decimal (unsigned_of_int tm.tm_mday))
    ++ b'T' ∷ zero_pad 2 (decimal (unsigned_of_int tm.tm_hour))
    ++ b':' ∷ zero_pad 2 (decimal (unsigned_of_int tm.tm_min))
    ++ b':' ∷ zero_pad 2 (decimal (unsigned_of_int tm.tm_sec))

-- xmlrpc_read_datetime_str, and xmlrpc_read_datetime_str_old, which keeps the text
unfoldable pub read_datetime_str : Value → Result Bytes
unfolding gmtime
read_datetime_str v = do
  times ← read_datetime_usec v
  ok (
      if times.1 == 0
      then hybrid_time (gmtime times.0)
      else take 63 (hybrid_time (gmtime times.0) ++ take 63 (b'.' ∷ zero_pad 6 (decimal times.1))))

-- xmlrpc_read_datetime_8601
unfoldable pub read_datetime_8601 : Value → Result Bytes
read_datetime_8601 v = do
  dt ← read_datetime v
  if ltb 9999 dt.year
      then faultf "Too far in future (year %u).  ISO 8601 cannot represent years after AD 9999"
      else ok (
          zero_pad 4 (decimal dt.year)
          ++ zero_pad 2 (decimal dt.month)
          ++ zero_pad 2 (decimal dt.day)
          ++ b'T' ∷ zero_pad 2 (decimal dt.hour)
          ++ zero_pad 2 (decimal dt.minute)
          ++ zero_pad 2 (decimal dt.second)
          ++ b',' ∷ zero_pad 6 (decimal dt.microsecond)
          ++ b'Z' ∷ [])
