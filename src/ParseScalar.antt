-- ===== src/ParseScalar.antt =====
-- The parsers of xmlrpc-c/src/parse_value.c for the elements without children. A parser that takes a C
-- string gets the bytes before the first NUL.
pub mod Double
pub mod Range
pub mod RoundTrip
use Prim.Native.String.{String}
use text.Mathlib.Text.{◌==◌ as str_eq}
use xml_rpc.Prelude.{
  ℕ, ◌-◌, ◌^◌, ℤ, pos, negsuc, Bool, true, false, not, ◌&&◌, ◌||◌, List, [], ◌∷◌, ltb, leb, ◌==◌,
  if◌then◌else◌, Bytes, c_str,
}
use xml_rpc.Fault.{Result, ok, err, parse_error, fault, ◌>>=◌, ◌>>◌}
use xml_rpc.Number.{is_space, is_empty, Strtol, strtol, parse_int64}
use xml_rpc.Base64.{base64_decode}
use xml_rpc.ParseDatetime.{parse_datetime}
use xml_rpc.Value.{Value, int, bool, base64, nil, i8}
use xml_rpc.Value.Strings.{string_new_lp}
use xml_rpc.ParseScalar.Double.{FloatOps, parse_double}

abbrev pub starts_with_space : Bytes → Bool
starts_with_space [] = false
starts_with_space (c ∷ s) = is_space c

-- i < XMLRPC_INT32_MIN and i > XMLRPC_INT32_MAX
abbrev pub is_below_int32 : ℤ → Bool
is_below_int32 (pos n) = false
is_below_int32 (negsuc n) = leb (2 ^ 31) n

abbrev pub is_above_int32 : ℤ → Bool
is_above_int32 (pos n) = ltb (2 ^ 31 - 1) n
is_above_int32 (negsuc n) = false

-- What parseInt does with the result of strtol.
unfoldable pub check_int : Strtol → Result Value
check_int r =
    if r.is_erange
    then fault parse_error
        "<int> XML element value '%s' represents a number beyond the range that XML-RPC allows (%d - %d)"
    else if is_below_int32 r.value
    then fault parse_error "<int> value %ld is below the range allowed by XML-RPC (minimum is %d)"
    else if is_above_int32 r.value
    then fault parse_error "<int> value %ld is above the range allowed by XML-RPC (maximum is %d)"
    else if not (is_empty r.tail)
    then fault parse_error "<int> value '%s' contains non-numerical junk: '%s'"
    else ok (int r.value)

-- parseInt
unfoldable pub parse_int : Bytes → Result Value
unfolding check_int
parse_int str =
    if is_empty str
    then fault parse_error "<int> XML element content is empty"
    else if starts_with_space str
    then fault parse_error "<int> content '%s' starts with white space"
    else check_int (strtol str)

-- parseBoolean
unfoldable pub parse_boolean : Bytes → Result Value
parse_boolean [] =
    fault parse_error
      "<boolean> XML element content must be either '0' or '1' according to XML-RPC.  This one has '%s'"
parse_boolean (c ∷ s) =
    if is_empty s && (c == b'0' || c == b'1')
    then ok (bool (c == b'1'))
    else fault parse_error
        "<boolean> XML element content must be either '0' or '1' according to XML-RPC.  This one has '%s'"

-- parseBase64
unfoldable pub parse_base64 : Bytes → Result Value
parse_base64 str = do decoded ← base64_decode str; ok (base64 decoded)

-- What parseI8 does with the result of xmlrpc_parse_int64.
abbrev pub check_i8 : Result ℤ → Result Value
check_i8 (ok i) = ok (i8 i)
check_i8 (err e) =
    fault parse_error
      "<i8> XML element value '%s' is invalid because it does not represent a 64 bit integer.  %s"

-- parseI8
unfoldable pub parse_i8 : Bytes → Result Value
parse_i8 str =
    if is_empty str
    then fault parse_error "<i8> XML element content is empty"
    else if starts_with_space str
    then fault parse_error "<i8> content '%s' starts with white space"
    else check_i8 (parse_int64 str)

-- The data types that an element name may stand for.
pub data Kind : Type 0 where
  k_int k_boolean k_double k_datetime k_string k_base64 k_nil k_i8 k_unknown : Kind

-- The tests of parseSimpleValueCdata on the name, in order.
unfoldable pub kind_of : String → Kind
kind_of name =
    if str_eq name "int"
      || str_eq name "i4"
      || str_eq name "i1"
      || str_eq name "i2"
      || str_eq name "ex:i1"
      || str_eq name "ex:i2"
    then k_int
    else if str_eq name "boolean"
    then k_boolean
    else if str_eq name "double"
    then k_double
    else if str_eq name "dateTime.iso8601"
    then k_datetime
    else if str_eq name "string"
    then k_string
    else if str_eq name "base64"
    then k_base64
    else if str_eq name "nil" || str_eq name "ex:nil"
    then k_nil
    else if str_eq name "i8" || str_eq name "ex:i8"
    then k_i8
    else k_unknown

-- The branches of parseSimpleValueCdata.
unfoldable pub parse_kind : FloatOps → Kind → Bytes → Result Value
parse_kind fl k_int cdata = parse_int (c_str cdata)
parse_kind fl k_boolean cdata = parse_boolean (c_str cdata)
parse_kind fl k_double cdata = parse_double fl (c_str cdata)
parse_kind fl k_datetime cdata = parse_datetime (c_str cdata)
parse_kind fl k_string cdata = string_new_lp cdata
parse_kind fl k_base64 cdata = parse_base64 cdata
parse_kind fl k_nil cdata = ok nil
parse_kind fl k_i8 cdata = parse_i8 (c_str cdata)
parse_kind fl k_unknown cdata = fault parse_error "Unknown value type -- XML element is named <%s>"

-- parseSimpleValueCdata
unfoldable pub parse_simple_value_cdata : FloatOps → String → Bytes → Result Value
unfolding kind_of parse_kind
parse_simple_value_cdata fl name cdata = parse_kind fl (kind_of name) cdata
