-- ===== src/Serialize.antt =====
-- xmlrpc-c/src/xmlrpc_serialize.c. Each function returns what it appends to the output; after a fault the
-- output is of no use. The output block does not run out of memory. xmlrpc_formatFloat (xmlrpc-c/src/double.c,
-- floating-point arithmetic) is a parameter.
pub mod Escape
use xml_rpc.Prelude.{
  ℕ, zero, suc, ◌+◌, Bool, true, false, List, [], ◌∷◌, ◌++◌, ltb, leb, ◌==◌, if◌then◌else◌, Bytes,
  ℤ, length, take, text, decimal, zero_pad, decimal_z, String,
}
use xml_rpc.Fault.{Result, ok, err, Fault, faultf, ◌>>=◌}
use xml_rpc.Base64.{base64_encode}
use xml_rpc.Value.Strings.{string_new_lp}
use xml_rpc.Value.Structs.{struct_new, struct_set_value_n}
use xml_rpc.Value.{
  Datetime, Value, int, bool, double, datetime, string, base64, array, struct, c_ptr, nil, i8, dead,
  Values, no_items, item, Members, no_members, member,
}

pub data Dialect : Type 0 where
  dialect_i8 dialect_apache : Dialect

-- CRLF
unfoldable pub end_line : Bytes
end_line = 13 ∷ 10 ∷ []

-- formatOut: a buffer of 128 bytes, which the text and its NUL may not fill.
unfoldable pub format_out : Bytes → Result Bytes
format_out formatted =
    if leb 128 (length formatted + 1)
    then faultf "formatOut() overflowed internal buffer"
    else ok formatted

-- escapedSize
pub escaped_size : Bytes → ℕ
escaped_size [] = 0
escaped_size (c ∷ chars) =
    (if c == b'<'
      then 4
      else if c == b'>'
      then 4
      else if c == b'&'
      then 5
      else if c == b'\r'
      then 6
      else 1)
    + escaped_size chars

-- What escapeForXml writes for one character.
unfoldable pub escape_char : ℕ → Bytes
escape_char c =
    if c == b'<'
    then b'&' ∷ b'l' ∷ b't' ∷ b';' ∷ []
    else if c == b'>'
    then b'&' ∷ b'g' ∷ b't' ∷ b';' ∷ []
    else if c == b'&'
    then b'&' ∷ b'a' ∷ b'm' ∷ b'p' ∷ b';' ∷ []
    else if c == b'\r'
    then b'&' ∷ b'#' ∷ b'x' ∷ b'0' ∷ b'd' ∷ b';' ∷ []
    else c ∷ []

-- escapeForXml, and serializeUtf8MemBlock on the characters before the NUL
unfoldable pub escape_for_xml : Bytes → Bytes
escape_for_xml [] = []
escape_for_xml (c ∷ chars) = escape_char c ++ escape_for_xml chars

-- `dtString` is a buffer of 64 bytes, and both writes cut what does not fit.
unfoldable pub format_datetime : Datetime → Bytes
format_datetime dt =
    let whole = take 63 (
      decimal dt.year
      ++ zero_pad 2 (decimal dt.month)
      ++ zero_pad 2 (decimal dt.day)
      ++ b'T' ∷ zero_pad 2 (decimal dt.hour)
      ++ b':' ∷ zero_pad 2 (decimal dt.minute)
      ++ b':' ∷ zero_pad 2 (decimal dt.second)) in
    let usec = take 63 (whole ++ b'.' ∷ zero_pad 6 (decimal dt.microsecond)) in
    if dt.microsecond == 0 then whole else usec

-- The element names that depend on the dialect.
unfoldable pub i8_name : Dialect → String
i8_name dialect_i8 = "i8"
i8_name dialect_apache = "ex:i8"

unfoldable pub nil_name : Dialect → String
nil_name dialect_i8 = "nil"
nil_name dialect_apache = "ex:nil"

-- The opening tag of a document, with the name space of the Apache dialect.
unfoldable pub xmlns : Dialect → Bytes
xmlns dialect_i8 = []
xmlns dialect_apache = text " xmlns:ex=\"http://ws.apache.org/xmlrpc/namespaces/extensions\""

-- XML_PROLOGUE
unfoldable pub xml_prologue : Bytes
xml_prologue = text "<?xml version=\"1.0\" encoding=\"UTF-8\"?>" ++ end_line

module _ (format_float : ℕ → Result Bytes) (dialect : Dialect) where
  unfoldable mutual
    unfolding i8_name nil_name

    -- formatValueContent
    pub format_value_content : Value → Result Bytes
    format_value_content (int i) = format_out (text "<i4>" ++ decimal_z i ++ text "</i4>")
    format_value_content (i8 i) = format_out (
        text "<"
        ++ text (i8_name dialect)
        ++ text ">"
        ++ decimal_z i
        ++ text "</"
        ++ text (i8_name dialect)
        ++ text ">")
    format_value_content (bool b) =
        format_out (text "<boolean>" ++ (if b then text "1" else text "0") ++ text "</boolean>")
    format_value_content (double d) = do
      serialized ← format_float d
      ok (text "<double>" ++ serialized ++ text "</double>")
    format_value_content (datetime dt) =
        ok (text "<dateTime.iso8601>" ++ format_datetime dt ++ text "</dateTime.iso8601>")
    format_value_content (string block) =
        ok (text "<string>" ++ escape_for_xml block ++ text "</string>")
    format_value_content (base64 block) =
        ok (text "<base64>" ++ end_line ++ base64_encode block ++ text "</base64>")
    format_value_content (array items) = do
      content ← serialize_items items
      ok (text "<array><data>" ++ end_line ++ content ++ text "</data></array>")
    format_value_content (struct members) = do
      content ← serialize_members members
      ok (text "<struct>" ++ end_line ++ content ++ text "</struct>")
    format_value_content (c_ptr p) = faultf "Tried to serialize a C pointer value."
    format_value_content nil = format_out (text "<" ++ text (nil_name dialect) ++ text "/>")
    format_value_content dead = faultf "Tried to serialize a dead value."

    -- xmlrpc_serialize_value2 around the content, and CRLF: the loop of serializeArray
    pub serialize_items : Values → Result Bytes
    serialize_items no_items = ok []
    serialize_items (item v vs) = do
      content ← format_value_content v
      rest ← serialize_items vs
      ok (text "<value>" ++ content ++ text "</value>" ++ end_line ++ rest)

    -- the loop of serializeStruct, with serializeStructMember
    pub serialize_members : Members → Result Bytes
    serialize_members no_members = ok []
    serialize_members (member h key v ms) = do
      content ← format_value_content v
      rest ← serialize_members ms
      ok (
          text "<member><name>"
          ++ escape_for_xml key
          ++ text "</name>"
          ++ end_line
          ++ text "<value>"
          ++ content
          ++ text "</value>"
          ++ text "</member>"
          ++ end_line
          ++ rest)

  -- xmlrpc_serialize_value2
  unfoldable pub serialize_value2 : Value → Result Bytes
  serialize_value2 v = do
    content ← format_value_content v
    ok (text "<value>" ++ content ++ text "</value>")

  -- the loop of xmlrpc_serialize_params2
  unfoldable pub serialize_param_items : Values → Result Bytes
  serialize_param_items no_items = ok []
  serialize_param_items (item v vs) = do
    content ← serialize_value2 v
    rest ← serialize_param_items vs
    ok (text "<param>" ++ content ++ text "</param>" ++ end_line ++ rest)

  -- xmlrpc_serialize_params2; the parameters are an array, as the source assumes.
  unfoldable pub serialize_params2 : Values → Result Bytes
  serialize_params2 params = do
    content ← serialize_param_items params
    ok (text "<params>" ++ end_line ++ content ++ text "</params>" ++ end_line)

  -- xmlrpc_serialize_call2
  unfoldable pub serialize_call2 : Bytes → Values → Result Bytes
  serialize_call2 method_name params = do
    head ←
        format_out
          (text "<methodCall" ++ xmlns dialect ++ text ">" ++ end_line ++ text "<methodName>")
    content ← serialize_params2 params
    ok (
        xml_prologue
        ++ head
        ++ escape_for_xml method_name
        ++ text "</methodName>"
        ++ end_line
        ++ content
        ++ text "</methodCall>"
        ++ end_line)

  -- xmlrpc_serialize_response2
  unfoldable pub serialize_response2 : Value → Result Bytes
  serialize_response2 v = do
    head ← format_out (
        text "<methodResponse"
        ++ xmlns dialect
        ++ text ">"
        ++ end_line
        ++ text "<params>"
        ++ end_line
        ++ text "<param>")
    content ← serialize_value2 v
    ok (
        xml_prologue
        ++ head
        ++ content
        ++ text "</param>"
        ++ end_line
        ++ text "</params>"
        ++ end_line
        ++ text "</methodResponse>"
        ++ end_line)

-- xmlrpc_build_value(envP, "{s:i,s:s}", "faultCode", ..., "faultString", ...)
unfoldable pub fault_struct : Fault → Result Value
fault_struct f = do
  coded ← struct_set_value_n struct_new (text "faultCode") (int f.code)
  fault_string ← string_new_lp f.text
  struct_set_value_n coded (text "faultString") fault_string

-- xmlrpc_serialize_fault
unfoldable pub serialize_fault : (ℕ → Result Bytes) → Fault → Result Bytes
serialize_fault format_float f = do
  v ← fault_struct f
  content ← serialize_value2 format_float dialect_i8 v
  ok (
      xml_prologue
      ++ text "<methodResponse>"
      ++ end_line
      ++ text "<fault>"
      ++ end_line
      ++ content
      ++ end_line
      ++ text "</fault>"
      ++ end_line
      ++ text "</methodResponse>"
      ++ end_line)
