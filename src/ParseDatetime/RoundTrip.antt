-- ===== src/ParseDatetime/RoundTrip.antt =====
-- xmlrpc-c/src/parse_datetime.c reads what serializeDatetime of xmlrpc-c/src/xmlrpc_serialize.c
-- writes.
use xml_rpc.Prelude.{
  c_str, not, ◌&&◌, ℕ, zero, suc, ◌/◌, ◌≤◌, ◌<◌, ◌≡◌, refl, ap, ◌∙◌, Bool, true, false, inl, inr,
  [], ◌∷◌, arith, Bytes, ◌==◌, if◌then◌else◌, decimal, zero_pad, Bool-cases, take, some,
}
use xml_rpc.Value.{Datetime, datetime}
use xml_rpc.Value.Strings.{has_cr}
use xml_rpc.Fault.{ok}
use xml_rpc.ParseScalar.Range.{IsDatetime}
use xml_rpc.ParseDatetime.{
  match_digits, match_optional, Matches, match_to_seconds, digit_string_value,
  digit_string_millionths, matched_datetime, parse_standard, parse_dt_regex, validate_datetime_some,
  parse_datetime, all_digits,
}
use xml_rpc.Serialize.{format_datetime}
use xml_rpc.ParseDatetime.Digits.{digit, decimal_four, padded, zero_pad-padded}

match_two :
    (a b : ℕ) (s : Bytes)
    → match_digits 2 (digit a ∷ digit b ∷ s) ≡ some (digit a ∷ digit b ∷ [], s)
unfolding match_digits digit
match_two a b s = ground arith

match_four :
    (a b c d : ℕ) (s : Bytes)
    → match_digits 4 (digit a ∷ digit b ∷ digit c ∷ digit d ∷ s)
      ≡ some (digit a ∷ digit b ∷ digit c ∷ digit d ∷ [], s)
unfolding match_digits digit
match_four a b c d s = ground arith

no_dash : (a : ℕ) (s : Bytes) → match_optional b'-' (digit a ∷ s) ≡ digit a ∷ s
unfolding digit
no_dash a s = ground arith

-- The text of a time up to its seconds, with what follows.
stamp : Datetime → Bytes → Bytes
stamp dt rest =
    digit (dt.year / 1000)
    ∷ digit (dt.year / 100)
    ∷ digit (dt.year / 10)
    ∷ digit dt.year
    ∷ digit (dt.month / 10)
    ∷ digit dt.month
    ∷ digit (dt.day / 10)
    ∷ digit dt.day
    ∷ b'T'
    ∷ digit (dt.hour / 10)
    ∷ digit dt.hour
    ∷ b':'
    ∷ digit (dt.minute / 10)
    ∷ digit dt.minute
    ∷ b':'
    ∷ digit (dt.second / 10)
    ∷ digit dt.second
    ∷ rest

two : ℕ → Bytes
two n = digit (n / 10) ∷ digit n ∷ []

matches : Datetime → Bytes → Matches
matches dt rest = record {
  year = digit (dt.year / 1000) ∷ digit (dt.year / 100) ∷ digit (dt.year / 10) ∷ digit dt.year ∷ [];
  month = two dt.month;
  day = two dt.day;
  hour = two dt.hour;
  minute = two dt.minute;
  second = two dt.second;
  rest = rest;
}

match_to_seconds-stamp :
    (dt : Datetime) (rest : Bytes) → match_to_seconds (stamp dt rest) ≡ some (matches dt rest)
unfolding match_to_seconds stamp matches two
match_to_seconds-stamp dt rest =
    rw (match_four (dt.year / 1000) (dt.year / 100) (dt.year / 10) dt.year _) (
      rw (no_dash (dt.month / 10) _) (
        rw (match_two (dt.month / 10) dt.month _) (
          rw (no_dash (dt.day / 10) _) (
            rw (match_two (dt.day / 10) dt.day _) (
              rw (match_two (dt.hour / 10) dt.hour _) (
                rw (match_two (dt.minute / 10) dt.minute _)
                  (rw (match_two (dt.second / 10) dt.second rest) refl)))))))

value_of_two : (n : ℕ) → n < 100 → digit_string_value 0 (two n) ≡ n
unfolding digit_string_value two digit
value_of_two n h = omega arith

value_of_four :
    (n : ℕ)
    → n < 10000
    → digit_string_value 0 (digit (n / 1000) ∷ digit (n / 100) ∷ digit (n / 10) ∷ digit n ∷ []) ≡ n
unfolding digit_string_value digit
value_of_four n h = omega arith

value_of_six : (n : ℕ) → n < 1000000 → digit_string_millionths 6 0 (padded 6 n) ≡ n
unfolding digit_string_millionths padded digit
value_of_six n h = omega arith

-- The times that fit in the format: the year has four digits.
abbrev pub IsWritable : Datetime → Type 0
IsWritable dt = (1000 ≤ dt.year) × (dt.year < 10000) × IsDatetime dt

matched_datetime-matches :
    (dt : Datetime) (rest : Bytes)
    → IsWritable dt
    → matched_datetime (matches dt rest) dt.microsecond ≡ dt
unfolding matched_datetime matches
matched_datetime-matches dt rest h = rw (value_of_four dt.year (omega arith)) (
    rw (value_of_two dt.month (omega arith)) (
      rw (value_of_two dt.day (omega arith)) (
        rw (value_of_two dt.hour (omega arith)) (
          rw (value_of_two dt.minute (omega arith))
            (rw (value_of_two dt.second (omega arith)) refl)))))

all_digits-padded : (n : ℕ) → all_digits (padded 6 n) ≡ true
unfolding all_digits padded digit
all_digits-padded n = ground arith

-- What follows the seconds.
fraction : ℕ → Bytes
fraction n = if n == 0 then [] else b'.' ∷ padded 6 n

parse_standard-plain :
    (dt : Datetime) → parse_standard (matches dt []) ≡ some (matched_datetime (matches dt []) 0)
unfolding parse_standard matches all_digits
parse_standard-plain dt = refl

parse_standard-fraction :
    (dt : Datetime) (n : ℕ)
    → n < 1000000
    → parse_standard (matches dt (b'.' ∷ padded 6 n))
      ≡ some (matched_datetime (matches dt (b'.' ∷ padded 6 n)) n)
unfolding parse_standard matches padded
parse_standard-fraction dt n h =
    rw (all_digits-padded n)
      (ap (λ u. some (matched_datetime (matches dt (b'.' ∷ padded 6 n)) u)) (value_of_six n h))

parse_standard-matches :
    (dt : Datetime)
    → IsWritable dt
    → parse_standard (matches dt (fraction dt.microsecond)) ≡ some dt
unfolding fraction
parse_standard-matches dt h = elim (Bool-cases (dt.microsecond == 0)) [
  | inl whole ↦
      let is_zero : 0 ≡ dt.microsecond = ground arith in
      rw whole (
        parse_standard-plain dt
        ∙ ap (λ u. some (matched_datetime (matches dt []) u)) is_zero
        ∙ ap some (matched_datetime-matches dt [] h))
  | inr part ↦ rw part (
      parse_standard-fraction dt dt.microsecond (omega arith)
      ∙ ap some (matched_datetime-matches dt (b'.' ∷ padded 6 dt.microsecond) h))
]

validate_datetime_some_lem : (dt : Datetime) → IsDatetime dt → validate_datetime_some dt ≡ ok tt
unfolding validate_datetime_some
validate_datetime_some_lem dt h = ground arith

parse_dt_regex-stamp :
    (dt : Datetime) → IsWritable dt → parse_dt_regex (stamp dt (fraction dt.microsecond)) ≡ ok dt
unfolding parse_dt_regex
parse_dt_regex-stamp dt h =
    rw (match_to_seconds-stamp dt (fraction dt.microsecond), parse_dt_regex)
      (rw (parse_standard-matches dt h) refl)

parse_datetime-stamp :
    (dt : Datetime)
    → IsWritable dt
    → parse_datetime (stamp dt (fraction dt.microsecond)) ≡ ok (datetime dt)
unfolding parse_datetime
parse_datetime-stamp dt h =
    rw (parse_dt_regex-stamp dt h) (rw (validate_datetime_some_lem dt h.2) refl)

zero_pad-two : (n : ℕ) → n < 100 → zero_pad 2 (decimal n) ≡ two n
unfolding two padded
zero_pad-two n h = zero_pad-padded 1 n h

with_fraction :
    (dt : Datetime)
    → (if dt.microsecond == 0
        then stamp dt []
        else take 63 (stamp dt (b'.' ∷ padded 6 dt.microsecond)))
      ≡ stamp dt (fraction dt.microsecond)
unfolding stamp fraction padded
with_fraction dt = elim (Bool-cases (dt.microsecond == 0)) [
  | inl whole ↦ rw whole refl
  | inr part ↦ rw part refl
]

format_datetime-stamp :
    (dt : Datetime) → IsWritable dt → format_datetime dt ≡ stamp dt (fraction dt.microsecond)
unfolding format_datetime stamp fraction two
format_datetime-stamp dt h = rw (decimal_four dt.year (omega arith) (omega arith)) (
    rw (zero_pad-two dt.month (omega arith)) (
      rw (zero_pad-two dt.day (omega arith)) (
        rw (zero_pad-two dt.hour (omega arith)) (
          rw (zero_pad-two dt.minute (omega arith)) (
            rw (zero_pad-two dt.second (omega arith))
              (rw (zero_pad-padded 5 dt.microsecond (omega arith)) (with_fraction dt)))))))

-- A time with fields in range, whose year has four digits, is read back from its text.
pub parse_datetime-format_datetime :
    (dt : Datetime) → IsWritable dt → parse_datetime (format_datetime dt) ≡ ok (datetime dt)
parse_datetime-format_datetime dt h =
    ap parse_datetime (format_datetime-stamp dt h) ∙ parse_datetime-stamp dt h

-- Neither NUL nor CR.
all_plain : Bytes → Bool
all_plain [] = true
all_plain (c ∷ s) = not (c == 0) && not (c == b'\r') && all_plain s

all_plain-digit : (n : ℕ) (s : Bytes) → all_plain (digit n ∷ s) ≡ all_plain s
unfolding all_plain digit
all_plain-digit n s = ground arith

has_cr-all_plain : (s : Bytes) → all_plain s ≡ true → has_cr s ≡ false
unfolding all_plain has_cr
has_cr-all_plain [] h = refl
has_cr-all_plain (c ∷ s) h = ground (arith, has_cr-all_plain s)

c_str-all_plain : (s : Bytes) → all_plain s ≡ true → c_str s ≡ s
unfolding all_plain
c_str-all_plain [] h = refl
c_str-all_plain (zero ∷ s) h = ground arith
c_str-all_plain (suc c ∷ s) h = ground (arith, c_str-all_plain s)

all_plain_char :
    (c : ℕ) (s : Bytes) → not (c == 0) && not (c == b'\r') ≡ true → all_plain (c ∷ s) ≡ all_plain s
unfolding all_plain
all_plain_char c s h = rw h refl

all_plain-stamp : (dt : Datetime) (rest : Bytes) → all_plain (stamp dt rest) ≡ all_plain rest
unfolding stamp
all_plain-stamp dt rest =
    simp (all_plain-digit, all_plain_char b'T' _ refl, all_plain_char b':' _ refl)

all_plain-fraction : (n : ℕ) → all_plain (fraction n) ≡ true
unfolding all_plain fraction padded digit
all_plain-fraction n = ground arith

all_plain-format_datetime : (dt : Datetime) → IsWritable dt → all_plain (format_datetime dt) ≡ true
all_plain-format_datetime dt h =
    ap all_plain (format_datetime-stamp dt h)
    ∙ all_plain-stamp dt (fraction dt.microsecond)
    ∙ all_plain-fraction dt.microsecond

-- There is no CR in a time, and no NUL.
pub has_cr-format_datetime : (dt : Datetime) → IsWritable dt → has_cr (format_datetime dt) ≡ false
has_cr-format_datetime dt h = has_cr-all_plain (format_datetime dt) (all_plain-format_datetime dt h)

pub c_str-format_datetime :
    (dt : Datetime) → IsWritable dt → c_str (format_datetime dt) ≡ format_datetime dt
c_str-format_datetime dt h = c_str-all_plain (format_datetime dt) (all_plain-format_datetime dt h)
