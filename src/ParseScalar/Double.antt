-- ===== src/ParseScalar/Double.antt =====
-- The content of a <double> of xmlrpc-c/src/parse_value.c. The arithmetic of `double` and strtod are
-- parameters; a `double` is its 64-bit pattern.
use xml_rpc.Prelude.{
  ℕ, ◌-◌, Bool, true, false, not, ◌&&◌, ◌||◌, [], ◌∷◌, ◌==◌, if◌then◌else◌, Bytes,
}
use xml_rpc.Fault.{Result, ok, err, parse_error, fault, ◌>>=◌}
use xml_rpc.Number.{is_digit, is_empty}
use xml_rpc.Value.{Value, double}

-- What strtod returns: the value, the tail, and whether `errno` is set.
pub record Strtod : Type 0 where
  pub value : ℕ
  pub tail : Bytes
  pub is_errno : Bool

-- What the source uses of `double`.
pub record FloatOps : Type 0 where
  pub zero_value : ℕ
  pub ten : ℕ
  pub tenth : ℕ
  pub of_int : ℕ → ℕ
  pub add : ℕ → ℕ → ℕ
  pub mul : ℕ → ℕ → ℕ
  pub negate : ℕ → ℕ
  pub exceeds_max : ℕ → Bool
  pub strtod : Bytes → Strtod

-- The string behind its sign.
abbrev pub mantissa_start : Bytes → Bytes
mantissa_start [] = []
mantissa_start (c ∷ s) = if c == b'-' || c == b'+' then s else c ∷ s

-- The loop of scanAndValidateDoubleString: the digits before the decimal point and behind it. The
-- flag says that the point has been seen.
unfoldable pub scan_digits : Bool → Bytes → Result (Bytes × Bytes)
scan_digits dp [] = ok ([], [])
scan_digits dp (c ∷ s) =
    let is_dot = c == b'.' in
    let later = scan_digits (dp || is_dot) s in
    if is_dot
    then if dp then fault parse_error "Two decimal points" else later
    else if not (is_digit c)
    then fault parse_error "Garbage (not sign, digit, or period) starting at '%s'"
    else later >>= λ m. ok (if dp then (m.0, c ∷ m.1) else (c ∷ m.0, m.1))

-- scanAndValidateDoubleString: the mantissa and the fraction
unfoldable pub scan_and_validate_double_string : Bytes → Result (Bytes × Bytes)
unfolding scan_digits
scan_and_validate_double_string string = scan_digits false (mantissa_start string)

abbrev pub is_negative : Bytes → Bool
is_negative [] = false
is_negative (c ∷ s) = c == b'-'

module _ (fl : FloatOps) where
  -- The whole part, behind `accum`.
  unfoldable pub add_whole : ℕ → Bytes → ℕ
  add_whole accum [] = accum
  add_whole accum (p ∷ mantissa) =
      add_whole (fl.add (fl.mul accum fl.ten) (fl.of_int (p - b'0'))) mantissa

  -- The fractional part.
  unfoldable pub add_fraction : ℕ → ℕ → Bytes → ℕ
  add_fraction significance accum [] = accum
  add_fraction significance accum (p ∷ fraction) =
      add_fraction (fl.mul significance fl.tenth)
        (fl.add accum (fl.mul (fl.of_int (p - b'0')) significance)) fraction

  -- parseDoubleString, behind the scan
  unfoldable pub accumulate : Bytes → Bytes → Bytes → Result ℕ
  unfolding add_whole add_fraction
  accumulate string mantissa fraction =
      let accum = add_fraction fl.tenth (add_whole fl.zero_value mantissa) fraction in
      if is_empty mantissa && is_empty fraction
      then fault parse_error "No digits"
      else if fl.exceeds_max accum
      then fault parse_error "Value exceeds the size allowed by XML-RPC"
      else ok (if is_negative string then fl.negate accum else accum)

  -- parseDoubleString
  unfoldable pub parse_double_string : Bytes → Result ℕ
  unfolding scan_and_validate_double_string accumulate
  parse_double_string string = do
    m ← scan_and_validate_double_string string
    accumulate string m.0 m.1

  -- parseDoubleStringStrtod; none if it failed
  unfoldable pub parse_double_string_strtod : Bytes → Bool × ℕ
  parse_double_string_strtod str =
      let r = fl.strtod str in
      if is_empty str then (true, 0) else (r.is_errno || not (is_empty r.tail), r.value)

  -- parseDouble
  unfoldable pub parse_double : Bytes → Result Value
  unfolding parse_double_string parse_double_string_strtod
  parse_double str = elim (parse_double_string str) [
    | ok value ↦ ok (double value)
    | err e ↦
        let (failed, value) = parse_double_string_strtod str in
        if failed
        then fault parse_error
            "<double> element value '%s' is not a valid floating point number.  %s"
        else ok (double value)
  ]
