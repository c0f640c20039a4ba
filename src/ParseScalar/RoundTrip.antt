-- ===== src/ParseScalar/RoundTrip.antt =====
-- What xmlrpc-c/src/xmlrpc_serialize.c writes for a value without parts is read by xmlrpc-c/src/parse_value.c.
use xml_rpc.Prelude.{
  ◌≡◌, refl, ap, ◌∙◌, ℤ, pos, negsuc, true, false, [], ◌∷◌, arith, Bytes, decimal_z,
}
use xml_rpc.Fault.{ok}
use xml_rpc.Number.{parse_int64, is_empty}
use xml_rpc.Number.Decimal.{
  exactly, IsLong, strtol-decimal_z, begins_number, begins_number-decimal_z,
}
use xml_rpc.Value.{int, i8}
use xml_rpc.ParseScalar.{parse_int, check_int, parse_i8, check_i8, starts_with_space}
use xml_rpc.ParseScalar.Range.{IsSigned}

no_space :
    (str : Bytes)
    → begins_number str ≡ true
    → (is_empty str ≡ false) × (starts_with_space str ≡ false)
no_space [] h = cc
no_space (c ∷ str) h = ground arith

check_int-exactly : (i : ℤ) → IsSigned 31 i → check_int (exactly i) ≡ ok (int i)
unfolding check_int
check_int-exactly (pos n) h = ground arith
check_int-exactly (negsuc n) h = ground arith

IsSigned-IsLong : (i : ℤ) → IsSigned 31 i → IsLong i
IsSigned-IsLong (pos n) h = omega arith
IsSigned-IsLong (negsuc n) h = omega arith

pub parse_int-decimal_z : (i : ℤ) → IsSigned 31 i → parse_int (decimal_z i) ≡ ok (int i)
unfolding parse_int
parse_int-decimal_z i h =
    let (some_text, word) = no_space (decimal_z i) (begins_number-decimal_z i) in
    rw some_text
      (rw word (ap check_int (strtol-decimal_z i (IsSigned-IsLong i h)) ∙ check_int-exactly i h))

parse_int64-decimal_z : (i : ℤ) → IsSigned 63 i → parse_int64 (decimal_z i) ≡ ok i
unfolding parse_int64
parse_int64-decimal_z i h = rw (strtol-decimal_z i h) refl

pub parse_i8-decimal_z : (i : ℤ) → IsSigned 63 i → parse_i8 (decimal_z i) ≡ ok (i8 i)
unfolding parse_i8
parse_i8-decimal_z i h =
    let (some_text, word) = no_space (decimal_z i) (begins_number-decimal_z i) in
    rw some_text (rw word (ap check_i8 (parse_int64-decimal_z i h)))
