-- ===== src/Value/Times/Text.antt =====
-- xmlrpc-c/src/xmlrpc_datetime.c: a datetime from its text. A failed assertion is a fault here.
use xml_rpc.Prelude.{
  ℕ, zero, suc, ◌+◌, ◌-◌, ◌*◌, Bool, true, ◌&&◌, ◌||◌, not, [], ◌∷◌, ltb, leb, ◌==◌, if◌then◌else◌,
  Bytes, length, get_or, take, drop,
}
use xml_rpc.Fault.{Result, ok, faultf, ◌>>=◌, ◌>>◌}
use xml_rpc.Value.{Datetime, Value, datetime}

-- isdigit
abbrev pub isdigit : ℕ → Bool
isdigit c = leb b'0' c && leb c b'9'

abbrev all_digit : Bytes → Bool
all_digit [] = true
all_digit (c ∷ dt) = isdigit c && all_digit dt

-- A character of the first seventeen: a digit, or a letter that stands there.
abbrev fits17 : ℕ → ℕ → Bool
fits17 i c = if i == 8 then c == b'T' else if i == 11 || i == 14 then c == b':' else isdigit c

unfoldable pub all_fit17 : ℕ → Bytes → Bool
all_fit17 i [] = true
all_fit17 i (c ∷ dt) = fits17 i c && all_fit17 (i + 1) dt

-- validateFirst17; a fault has the text of the last check that fails, here one text for all
unfoldable pub validate_first17 : Bytes → Result (Unit {0})
unfolding all_fit17
validate_first17 dt =
    if all_fit17 0 (take 17 dt) then ok tt else faultf "Not a digit, not 'T' or not a colon: '%c'"

-- validateFractionalSeconds
unfoldable pub validate_fractional_seconds : Bytes → Result (Unit {0})
validate_fractional_seconds dt =
    if ltb 17 (length dt)
    then (if not (get_or dt 17 0 == b'.')
        then faultf "'%c' where only a period is valid"
        else if length dt == 18
        then faultf "Nothing after decimal point"
        else if all_digit (drop 18 dt)
        then ok tt
        else faultf "Non-digit in fractional seconds: '%c'")
    else ok tt

-- validateFormat
unfoldable pub validate_format : Bytes → Result (Unit {0})
unfolding validate_first17 validate_fractional_seconds
validate_format dt =
    if ltb (length dt) 17
    then faultf "Invalid length of %u of datetime string.  Must be at least 17 characters"
    else (do validate_first17 dt; validate_fractional_seconds dt)

-- atoi, on digits
unfoldable pub atoi_from : ℕ → Bytes → ℕ
atoi_from n [] = n
atoi_from n (c ∷ dt) = atoi_from (n * 10 + (c - b'0')) dt

unfoldable pub times_ten : ℕ → ℕ → ℕ
times_ten zero u = u
times_ten (suc pad) u = times_ten pad u * 10

-- parseDatetimeString
unfoldable pub parse_datetime_string : Bytes → Result Datetime
unfolding atoi_from times_ten
parse_datetime_string dt =
    if leb (length dt) 24
    then ok (record {
      year = atoi_from 0 (take 4 dt);
      month = atoi_from 0 (take 2 (drop 4 dt));
      day = atoi_from 0 (take 2 (drop 6 dt));
      hour = atoi_from 0 (take 2 (drop 9 dt));
      minute = atoi_from 0 (take 2 (drop 12 dt));
      second = atoi_from 0 (take 2 (drop 15 dt));
      microsecond =
          if ltb 17 (length dt) then times_ten (24 - length dt) (atoi_from 0 (drop 18 dt)) else 0;
    })
    else faultf "dtStrlen >= 17 && dtStrlen != 18 && dtStrlen <= 24"

-- xmlrpc_datetime_new_str
unfoldable pub datetime_new_str : Bytes → Result Value
unfolding validate_format parse_datetime_string
datetime_new_str dt = do validate_format dt; parsed ← parse_datetime_string dt; ok (datetime parsed)
