-- ===== src/Document/Scalars.antt =====
-- The values without parts: what xmlrpc-c/src/parse_value.c reads from the text of their elements.
use xml_rpc.Prelude.{
  ◌≡◌, ap, ◌∙◌, true, false, [], ◌++◌, Bytes, All, ℤ, append-nil, decimal_z, c_str,
}
use xml_rpc.Fault.{ok, ◌>>=◌}
use xml_rpc.Utf8.Chars.{IsByte}
use xml_rpc.Base64.{base64_encode, base64_decode, encode_base64}
use xml_rpc.Base64.RoundTrip.{base64_decode-encode_base64}
use xml_rpc.Value.{
  Datetime, Value, int, bool, double, datetime, string, base64, array, struct, c_ptr, nil, i8, dead,
  Values, no_items, item, Members, no_members, member,
}
use xml_rpc.Value.Strings.{copy_lines, string_new_lp}
use xml_rpc.Serialize.{i8_name, end_line, Dialect, dialect_i8, dialect_apache}
use xml_rpc.ParseDatetime.{parse_datetime}
use xml_rpc.ParseDatetime.RoundTrip.{
  IsWritable, parse_datetime-format_datetime, has_cr-format_datetime, c_str-format_datetime,
}
use xml_rpc.Serialize.{format_datetime}
use xml_rpc.ParseScalar.Range.{IsLines, IsSigned}
use xml_rpc.ParseScalar.{
  parse_simple_value_cdata, parse_kind, kind_of, parse_base64, parse_int, parse_i8,
}
use xml_rpc.ParseScalar.Double.{FloatOps}
use xml_rpc.Value.Strings.Lines.{copy_lines_id}
use xml_rpc.Number.Decimal.{c_str-decimal_z, has_cr-decimal_z}
use xml_rpc.ParseScalar.RoundTrip.{parse_int-decimal_z, parse_i8-decimal_z}
use xml_rpc.Document.Pieces.{string_new_lp_lines, base64_decode-copy_lines, base64_decode-end_line}

-- Values whose text says exactly what they are: no `double` in them, times with years of four
-- digits, base64 of bytes.
unfoldable mutual
  pub IsExact : Value → Type 0
  IsExact (double d) = ⊥
  IsExact (datetime dt) = IsWritable dt
  IsExact (c_ptr p) = ⊥
  IsExact dead = ⊥
  IsExact (base64 bytes) = All IsByte bytes
  IsExact (array vs) = AllExact vs
  IsExact (struct ms) = MembersExact ms
  IsExact (int i) = Unit
  IsExact (i8 i) = Unit
  IsExact (bool b) = Unit
  IsExact (string block) = Unit
  IsExact nil = Unit

  pub AllExact : Values → Type 0
  AllExact no_items = Unit
  AllExact (item v vs) = IsExact v × AllExact vs

  pub MembersExact : Members → Type 0
  MembersExact no_members = Unit
  MembersExact (member hash key v ms) = IsExact v × MembersExact ms

pub raw_decimal_z : (i : ℤ) → c_str (copy_lines false (decimal_z i) ++ []) ≡ decimal_z i
raw_decimal_z i =
    ap c_str (
      append-nil (copy_lines false (decimal_z i))
      ∙ copy_lines_id (decimal_z i) (has_cr-decimal_z i))
    ∙ c_str-decimal_z i

pub parse_int_raw :
    (fl : FloatOps) (i : ℤ)
    → IsSigned 31 i
    → parse_simple_value_cdata fl "i4" (copy_lines false (decimal_z i) ++ []) ≡ ok (int i)
unfolding parse_simple_value_cdata kind_of parse_kind
parse_int_raw fl i h = ap parse_int (raw_decimal_z i) ∙ parse_int-decimal_z i h

pub parse_i8_raw :
    (fl : FloatOps) (dialect : Dialect) (i : ℤ)
    → IsSigned 63 i
    → parse_simple_value_cdata fl (i8_name dialect) (copy_lines false (decimal_z i) ++ [])
      ≡ ok (i8 i)
unfolding parse_simple_value_cdata kind_of parse_kind i8_name
parse_i8_raw fl dialect_i8 i h = ap parse_i8 (raw_decimal_z i) ∙ parse_i8-decimal_z i h
parse_i8_raw fl dialect_apache i h = ap parse_i8 (raw_decimal_z i) ∙ parse_i8-decimal_z i h

pub parse_string_chars :
    (fl : FloatOps) (block : Bytes)
    → IsLines block
    → parse_simple_value_cdata fl "string" (block ++ []) ≡ ok (string block)
unfolding parse_simple_value_cdata kind_of parse_kind
parse_string_chars fl block h = ap string_new_lp (append-nil block) ∙ string_new_lp_lines block h

pub parse_base64_raw :
    (fl : FloatOps) (bytes : Bytes)
    → All IsByte bytes
    → parse_simple_value_cdata fl "base64"
        (copy_lines false (end_line ++ base64_encode bytes) ++ [])
      ≡ ok (base64 bytes)
unfolding parse_simple_value_cdata kind_of parse_kind parse_base64 base64_encode
parse_base64_raw fl bytes h =
    let text = end_line ++ encode_base64 bytes true in
    let decoded : base64_decode (copy_lines false text ++ []) ≡ ok bytes =
      ap base64_decode (append-nil (copy_lines false text))
      ∙ base64_decode-copy_lines text
      ∙ base64_decode-end_line (encode_base64 bytes true)
      ∙ base64_decode-encode_base64 bytes true h in
    ap (λ r. r >>= λ d. ok (base64 d)) decoded

pub parse_datetime_raw :
    (fl : FloatOps) (dt : Datetime)
    → IsWritable dt
    → parse_simple_value_cdata fl "dateTime.iso8601" (copy_lines false (format_datetime dt) ++ [])
      ≡ ok (datetime dt)
unfolding parse_simple_value_cdata kind_of parse_kind
parse_datetime_raw fl dt h =
    let plain : c_str (copy_lines false (format_datetime dt) ++ []) ≡ format_datetime dt =
      ap c_str (
        append-nil (copy_lines false (format_datetime dt))
        ∙ copy_lines_id (format_datetime dt) (has_cr-format_datetime dt h))
      ∙ c_str-format_datetime dt h in
    ap parse_datetime plain ∙ parse_datetime-format_datetime dt h
