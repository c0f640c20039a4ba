-- ===== src/Tests/Documents.antt =====
-- xmlrpc-c/src/xmlrpc_serialize.c and xmlrpc-c/src/parse_value.c on one value.
use xml_rpc.Prelude.{◌≡◌, refl, [], ◌∷◌, arith, pos, neg, decimal}
use xml_rpc.Fault.{ok}
use xml_rpc.Utf8.{validate_utf8, utf8_to_wcs, decode_loop, decode_char}
use xml_rpc.Value.{
  Datetime, datetime, Value, int, string, base64, array, struct, nil, i8, no_items, item, Members,
  no_members, member,
}
use xml_rpc.Value.Strings.{has_cr}
use xml_rpc.Value.Structs.{hash_struct_key, hash_from, char_to_uint32}
use xml_rpc.Value.Structs.Keys.{IsStruct}
use xml_rpc.ParseDatetime.{parse_datetime}
use xml_rpc.ParseDatetime.RoundTrip.{IsWritable, parse_datetime-format_datetime}
use xml_rpc.Serialize.{format_datetime, dialect_apache, serialize_value2}
use xml_rpc.ParseScalar.Range.{IsLines}
use xml_rpc.ParseValue.{parse_value}
use xml_rpc.ParseValue.Shape.{Fits, AllFit, MembersFit}
use xml_rpc.Document.{element_of, one, content_node, elem, print}
use xml_rpc.Document.Scalars.{IsExact, AllExact, MembersExact}
use xml_rpc.Document.Parsed.{parse_value-content_node}
use xml_rpc.Document.Printed.{serialize_value2-print}
use xml_rpc.Tests.Parse.{counting}

-- [-7, {"a": <, "b": nil}, (a byte), a time, 5000000000]
abbrev two_members : Members
two_members = member 97 (97 ∷ []) (string (60 ∷ [])) (member 98 (98 ∷ []) nil no_members)

abbrev leap_day : Datetime
leap_day = record {
  year = 2024;
  month = 2;
  day = 29;
  hour = 23;
  minute = 59;
  second = 58;
  microsecond = 500;
}

abbrev sample : Value
sample = array (
    item (int (neg 7)) (
      item (struct two_members) (
        item (base64 (200 ∷ [])) (item (datetime leap_day) (item (i8 (pos 5000000000)) no_items)))))

two_members-IsStruct : IsStruct two_members
unfolding hash_struct_key hash_from char_to_uint32
two_members-IsStruct = record { hashed = (refl, (refl, tt)); distinct = (refl, (refl, tt)) }

key_a-IsLines : IsLines (97 ∷ [])
unfolding validate_utf8 utf8_to_wcs decode_loop decode_char has_cr
key_a-IsLines = (refl, refl)

key_b-IsLines : IsLines (98 ∷ [])
unfolding validate_utf8 utf8_to_wcs decode_loop decode_char has_cr
key_b-IsLines = (refl, refl)

less-IsLines : IsLines (60 ∷ [])
unfolding validate_utf8 utf8_to_wcs decode_loop decode_char has_cr
less-IsLines = (refl, refl)

sample-Fits : Fits 3 sample
unfolding Fits AllFit MembersFit
sample-Fits = (
  omega arith,
  (
    (two_members-IsStruct, (key_a-IsLines, less-IsLines, (key_b-IsLines, tt, tt))),
    (tt, (omega arith, (omega arith, tt))),
  ),
)

sample-IsExact : IsExact sample
unfolding IsExact AllExact MembersExact
sample-IsExact = ground arith

parsed_example :
    parse_value counting 3 (element_of "value" (one (content_node decimal dialect_apache sample)))
    ≡ ok sample
parsed_example =
    parse_value-content_node decimal dialect_apache counting 3 sample sample-Fits sample-IsExact

printed_example :
    serialize_value2 (λ d. ok (decimal d)) dialect_apache sample
    ≡ ok (print (elem "value" (one (content_node decimal dialect_apache sample))))
printed_example = serialize_value2-print decimal dialect_apache 3 sample sample-Fits

leap_day-IsWritable : IsWritable leap_day
leap_day-IsWritable = omega arith

datetime_example : parse_datetime (format_datetime leap_day) ≡ ok (datetime leap_day)
datetime_example = parse_datetime-format_datetime leap_day leap_day-IsWritable
