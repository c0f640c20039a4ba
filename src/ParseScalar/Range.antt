-- ===== src/ParseScalar/Range.antt =====
-- What the parsers of xmlrpc-c/src/parse_value.c for the elements without children can yield.
use Prim.Native.String.{String}
use xml_rpc.Prelude.{
  ℕ, ◌≤◌, ◌<◌, ◌^◌, ◌≡◌, refl, ◌⊎◌, inl, inr, ℤ, pos, negsuc, false, [], ◌∷◌, arith, Bytes, All,
  c_str,
}
use xml_rpc.Fault.{Fault, Result, ok, err, parse_error, invalid_utf8_error, ◌>>=◌, Result-cases}
use xml_rpc.Utf8.{validate_utf8}
use xml_rpc.Utf8.Chars.{IsByte}
use xml_rpc.Utf8.Faults.{validate_utf8-FailsWith}
use xml_rpc.Number.{Strtol, strtol, parse_int64, signed_long, strtol_digits, strtol_sign}
use xml_rpc.Base64.{base64_decode, decode_finish}
use xml_rpc.ParseDatetime.{parse_datetime, parse_dt_regex, validate_datetime_some}
use xml_rpc.Value.{Value, Datetime, int, bool, double, datetime, string, base64, nil, i8}
use xml_rpc.Value.Strings.{string_new_lp, has_cr}
use xml_rpc.Value.Strings.Lines.{string_new_lp_lem}
use xml_rpc.ParseScalar.{
  parse_int, check_int, parse_boolean, parse_base64, parse_i8, Kind, kind_of, parse_kind, k_int,
  k_boolean, k_double, k_datetime, k_string, k_base64, k_nil, k_i8, k_unknown,
  parse_simple_value_cdata,
}
use xml_rpc.ParseScalar.Double.{FloatOps, parse_double}

-- The faults of the parser of values.
abbrev pub IsParseFault : Fault → Type 0
IsParseFault e = (e.code ≡ parse_error) ⊎ (e.code ≡ invalid_utf8_error)

-- A result has the property, or a failure is one of these.
abbrev pub Yields {ℓ} : {A : Type ℓ} → (A → Type 0) → Result A → Type 0
Yields P (ok a) = P a
Yields P (err e) = IsParseFault e

pub Yields-bind {ℓ κ} :
    {A : Type ℓ} {B : Type κ} (P : A → Type 0) (Q : B → Type 0) (m : Result A) (f : A → Result B)
    → Yields P m
    → ((a : A) → P a → Yields Q (f a))
    → Yields Q (m >>= f)
Yields-bind P Q (ok a) f p k = k a p
Yields-bind P Q (err e) f p k = p

-- The range of a w-bit signed integer, w being one more than `bits`.
abbrev pub IsSigned : ℕ → ℤ → Type 0
IsSigned bits (pos n) = n < 2 ^ bits
IsSigned bits (negsuc n) = n < 2 ^ bits

abbrev pub IsDatetime : Datetime → Type 0
IsDatetime dt =
    (1 ≤ dt.month)
    × (dt.month ≤ 12)
    × (1 ≤ dt.day)
    × (dt.day ≤ 31)
    × (dt.hour ≤ 23)
    × (dt.minute ≤ 59)
    × (dt.second ≤ 59)
    × (dt.microsecond ≤ 999999)

-- The content of a string: valid UTF-8, with LF line ends only.
abbrev pub IsLines : Bytes → Type 0
IsLines block = (validate_utf8 block ≡ ok tt) × (has_cr block ≡ false)

-- A value without parts that XML-RPC can carry.
abbrev pub IsScalar : Value → Type 0
IsScalar (int i) = IsSigned 31 i
IsScalar (bool b) = Unit
IsScalar (double d) = Unit
IsScalar (datetime dt) = IsDatetime dt
IsScalar (string block) = IsLines block
IsScalar (base64 bytes) = Unit
IsScalar nil = Unit
IsScalar (i8 i) = IsSigned 63 i
IsScalar v = ⊥

check_int-Yields : (r : Strtol) → Yields IsScalar (check_int r)
unfolding check_int
check_int-Yields r = ground arith

parse_int-Yields : (str : Bytes) → Yields IsScalar (parse_int str)
unfolding parse_int
parse_int-Yields str = ground (arith, check_int-Yields (strtol str))

parse_boolean-Yields : (str : Bytes) → Yields IsScalar (parse_boolean str)
unfolding parse_boolean
parse_boolean-Yields [] = inl refl
parse_boolean-Yields (c ∷ s) = ground arith

parse_double-Yields : (fl : FloatOps) (str : Bytes) → Yields IsScalar (parse_double fl str)
unfolding parse_double
parse_double-Yields fl str = ground arith

validate_datetime_some-Yields :
    (dt : Datetime) → Yields (λ _. IsDatetime dt) (validate_datetime_some dt)
unfolding validate_datetime_some
validate_datetime_some-Yields dt = ground arith

parse_dt_regex-Yields : (str : Bytes) → Yields (λ _. Unit {0}) (parse_dt_regex str)
unfolding parse_dt_regex
parse_dt_regex-Yields str = ground arith

parse_datetime-Yields : (str : Bytes) → Yields IsScalar (parse_datetime str)
unfolding parse_datetime
parse_datetime-Yields str =
    Yields-bind (λ _. Unit) IsScalar (parse_dt_regex str) _ (parse_dt_regex-Yields str)
      (λ dt _.
        Yields-bind (λ _. IsDatetime dt) IsScalar (validate_datetime_some dt) _
          (validate_datetime_some-Yields dt) (λ _ h. h))

parse_base64-Yields : (str : Bytes) → Yields IsScalar (parse_base64 str)
unfolding parse_base64 base64_decode decode_finish
parse_base64-Yields str = ground arith

strtol-IsSigned : (str : Bytes) → IsSigned 63 (strtol str).value
unfolding strtol strtol_sign strtol_digits signed_long
strtol-IsSigned str = ground arith

parse_i8-Yields : (str : Bytes) → Yields IsScalar (parse_i8 str)
unfolding parse_i8 parse_int64
parse_i8-Yields str = ground (arith, strtol-IsSigned str)

-- The strings.
abbrev pub IsString : Value → Type 0
IsString (string block) = IsLines block
IsString v = ⊥

string_new_lp_valid :
    (str : Bytes) → All IsByte str → validate_utf8 str ≡ ok tt → Yields IsString (string_new_lp str)
string_new_lp_valid str h valid =
    let (block, e, plain, v, same) = string_new_lp_lem str h valid in rw e (v, plain)

string_new_lp_invalid :
    (str : Bytes) (e : Fault) → validate_utf8 str ≡ err e → Yields IsString (string_new_lp str)
unfolding string_new_lp
string_new_lp_invalid str e h = rw h (inr (rw h at (validate_utf8-FailsWith str)))

pub string_new_lp-Yields : (str : Bytes) → All IsByte str → Yields IsString (string_new_lp str)
string_new_lp-Yields str h = elim (Result-cases (validate_utf8 str)) [
  | inl (tt, valid) ↦ string_new_lp_valid str h valid
  | inr (e, bad) ↦ string_new_lp_invalid str e bad
]

IsString-IsScalar : (v : Value) → IsString v → IsScalar v
IsString-IsScalar v h = ground arith

string_new_lp-IsScalar : (r : Result Value) → Yields IsString r → Yields IsScalar r
string_new_lp-IsScalar (ok v) h = IsString-IsScalar v h
string_new_lp-IsScalar (err e) h = h

parse_kind-Yields :
    (fl : FloatOps) (k : Kind) (cdata : Bytes)
    → All IsByte cdata
    → Yields IsScalar (parse_kind fl k cdata)
unfolding parse_kind
parse_kind-Yields fl k_int cdata h = parse_int-Yields (c_str cdata)
parse_kind-Yields fl k_boolean cdata h = parse_boolean-Yields (c_str cdata)
parse_kind-Yields fl k_double cdata h = parse_double-Yields fl (c_str cdata)
parse_kind-Yields fl k_datetime cdata h = parse_datetime-Yields (c_str cdata)
parse_kind-Yields fl k_string cdata h =
    string_new_lp-IsScalar (string_new_lp cdata) (string_new_lp-Yields cdata h)
parse_kind-Yields fl k_base64 cdata h = parse_base64-Yields cdata
parse_kind-Yields fl k_nil cdata h = tt
parse_kind-Yields fl k_i8 cdata h = parse_i8-Yields (c_str cdata)
parse_kind-Yields fl k_unknown cdata h = inl refl

-- An element without children yields a value in the range of its type, whatever its name and its
-- content: a 32-bit or a 64-bit integer, a time with fields in range, valid UTF-8 without CR. Every
-- failure is XMLRPC_PARSE_ERROR or XMLRPC_INVALID_UTF8_ERROR.
pub parse_simple_value_cdata-Yields :
    (fl : FloatOps) (name : String) (cdata : Bytes)
    → All IsByte cdata
    → Yields IsScalar (parse_simple_value_cdata fl name cdata)
unfolding parse_simple_value_cdata
parse_simple_value_cdata-Yields fl name cdata h = parse_kind-Yields fl (kind_of name) cdata h
