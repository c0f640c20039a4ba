-- ===== src/ParseDatetime.antt =====
-- xmlrpc-c/src/parse_datetime.c, as it is built with regular expressions (HAVE_REGEX). The two expressions
-- have one way to match at most, so each is written as a scan from the left.
pub mod Digits
pub mod RoundTrip
use mathlib.Core.Option
use xml_rpc.Prelude.{
  ℕ, zero, suc, ◌+◌, ◌-◌, ◌*◌, Bool, true, ◌&&◌, ◌||◌, [], ◌∷◌, Option, none, some, ltb, leb, ◌==◌,
  if◌then◌else◌, Bytes, length,
}
use xml_rpc.Fault.{Result, ok, parse_error, fault, ◌>>=◌, ◌>>◌}
use xml_rpc.Number.{is_digit, is_empty}
use xml_rpc.Value.{Value, Datetime, datetime}

infixl 5 ◌>>=?◌
abbrev ◌>>=?◌ {ℓ} : {A B : Type ℓ} → Option A → (A → Option B) → Option B
none >>=? f = none
some a >>=? f = f a

-- [0-9]{n}: the digits, and the rest
unfoldable pub match_digits : ℕ → Bytes → Option (Bytes × Bytes)
match_digits zero s = some ([], s)
match_digits (suc n) [] = none
match_digits (suc n) (c ∷ s) =
    let later = Option.map (λ (m : Bytes × Bytes). (c ∷ m.0, m.1)) (match_digits n s) in
    if is_digit c then later else none

-- c?
abbrev match_optional : ℕ → Bytes → Bytes
match_optional c [] = []
match_optional c (d ∷ s) = if d == c then s else d ∷ s

-- T, in either case
abbrev match_t : Bytes → Option Bytes
match_t [] = none
match_t (c ∷ s) = if c == b'T' || c == b't' then some s else none

-- [0-9]*, and the end
unfoldable pub all_digits : Bytes → Bool
all_digits [] = true
all_digits (c ∷ s) = is_digit c && all_digits s

-- The subexpressions that both expressions begin with, and the rest.
pub record Matches : Type 0 where
  pub year : Bytes
  pub month : Bytes
  pub day : Bytes
  pub hour : Bytes
  pub minute : Bytes
  pub second : Bytes
  pub rest : Bytes

-- ^([0-9]{4})\-?([0-9]{2})\-?([0-9]{2})T([0-9]{2}):?([0-9]{2}):?([0-9]{2})
unfoldable pub match_to_seconds : Bytes → Option Matches
unfolding match_digits
match_to_seconds s = match_digits 4 s >>=? λ y. match_digits 2 (match_optional b'-' y.1) >>=? λ mo.
    match_digits 2 (match_optional b'-' mo.1) >>=? λ d. match_t d.1 >>=? λ t.
    match_digits 2 t >>=? λ h. match_digits 2 (match_optional b':' h.1) >>=? λ mi.
    match_digits 2 (match_optional b':' mi.1) >>=? λ sec. some (record {
      year = y.0;
      month = mo.0;
      day = d.0;
      hour = h.0;
      minute = mi.0;
      second = sec.0;
      rest = sec.1;
    })

-- digitStringValue
unfoldable pub digit_string_value : ℕ → Bytes → ℕ
digit_string_value accum [] = accum
digit_string_value accum (c ∷ s) = digit_string_value (accum * 10 + (c - b'0')) s

-- digitStringMillionths, with the rounds of its loop
unfoldable pub digit_string_millionths : ℕ → ℕ → Bytes → ℕ
digit_string_millionths zero accum s = accum
digit_string_millionths (suc rounds) accum [] = digit_string_millionths rounds (accum * 10) []
digit_string_millionths (suc rounds) accum (c ∷ s) =
    digit_string_millionths rounds (accum * 10 + (c - b'0')) s

unfoldable pub matched_datetime : Matches → ℕ → Datetime
unfolding digit_string_value
matched_datetime m u = record {
  year = digit_string_value 0 m.year;
  month = digit_string_value 0 m.month;
  day = digit_string_value 0 m.day;
  hour = digit_string_value 0 m.hour;
  minute = digit_string_value 0 m.minute;
  second = digit_string_value 0 m.second;
  microsecond = u;
}

-- \.?([0-9]+)?$ and subParseDtRegex_standard
unfoldable pub parse_standard : Matches → Option Datetime
unfolding all_digits digit_string_millionths matched_datetime
parse_standard m =
    let fraction = match_optional b'.' m.rest in
    if all_digits fraction
    then some
        (matched_datetime m (if is_empty fraction then 0 else digit_string_millionths 6 0 fraction))
    else none

-- [Z\+\-]([0-9]{2,4})?$ and subParseDtRegex_standardtzd. In a bracket the backslash stands for
-- itself.
unfoldable pub parse_standard_tzd : Matches → Option Datetime
unfolding all_digits matched_datetime
parse_standard_tzd m = elim m.rest [
  | [] ↦ none
  | c ∷ zone ↦
      if (c == b'Z' || c == b'z' || c == b'+' || c == b'-' || c == b'\\')
        && all_digits zone
        && (is_empty zone || (leb 2 (length zone) && leb (length zone) 4))
      then some (matched_datetime m 0)
      else none
]

-- parseDtRegex
unfoldable pub parse_dt_regex : Bytes → Result Datetime
unfolding match_to_seconds parse_standard parse_standard_tzd
parse_dt_regex s = elim (match_to_seconds s) [
  | none ↦
      fault parse_error
        "value '%s' is not of any form we recognize for a <dateTime.iso8601> element"
  | some m ↦ elim (parse_standard m) [
    | some dt ↦ ok dt
    | none ↦ elim (parse_standard_tzd m) [
      | some dt ↦ ok dt
      | none ↦
          fault parse_error
            "value '%s' is not of any form we recognize for a <dateTime.iso8601> element"
    ]
  ]
]

-- validateXmlrpcDatetimeSome
unfoldable pub validate_datetime_some : Datetime → Result (Unit {0})
validate_datetime_some dt =
    if ltb dt.month 1 || ltb 12 dt.month
    then fault parse_error "Month of year value %u is not in the range 1-12"
    else if ltb dt.day 1 || ltb 31 dt.day
    then fault parse_error "Day of month value %u is not in the range 1-31"
    else if ltb 23 dt.hour
    then fault parse_error "Hour of day value %u is not in the range 0-23"
    else if ltb 59 dt.minute
    then fault parse_error "Minute of hour value %u is not in the range 0-59"
    else if ltb 59 dt.second
    then fault parse_error "Second of minute value %u is not in the range 0-59"
    else if ltb 999999 dt.microsecond
    then fault parse_error "Microsecond of second value %u is not in the range 0-1M"
    else ok tt

-- xmlrpc_parseDatetime
unfoldable pub parse_datetime : Bytes → Result Value
unfolding parse_dt_regex validate_datetime_some
parse_datetime s = do dt ← parse_dt_regex s; validate_datetime_some dt; ok (datetime dt)
