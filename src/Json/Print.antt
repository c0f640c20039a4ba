-- ===== src/Json/Print.antt =====
-- xmlrpc-c/src/json.c: the serializer. Each function returns what it appends to the output; after a fault the
-- output is of no use. The text of a double by "%e" is a parameter,
-- and so is what the program does where sprintf writes behind a buffer.
use xml_rpc.Prelude.{
  ℕ, zero, suc, ◌+◌, ◌*◌, [], ◌∷◌, ◌++◌, leb, if◌then◌else◌, Bytes, length, text, decimal, zero_pad,
  decimal_z,
}
use xml_rpc.Fault.{Result, ok, faultf, ◌>>=◌}
use xml_rpc.Base64.{base64_encode}
use xml_rpc.Value.{
  Datetime, Value, int, bool, double, datetime, string, base64, array, struct, c_ptr, nil, i8, dead,
  Values, no_items, item, Members, no_members, member,
}
use xml_rpc.Value.Data.{read_int, read_i8, read_bool, read_double, read_base64}
use xml_rpc.Value.Strings.{read_string_lp}
use xml_rpc.Json.Strings.{make_json_string}

-- formatOut: a buffer of 1024 bytes
unfoldable pub format_out : Bytes → Result Bytes
format_out formatted =
    if leb 1024 (length formatted + 1)
    then faultf "formatOut() overflowed internal buffer"
    else ok formatted

-- indent
unfoldable pub spaces : ℕ → Bytes
spaces zero = []
spaces (suc n) = b' ' ∷ spaces n

unfoldable pub indent : ℕ → Bytes
unfolding spaces
indent level = spaces (level * 2)

-- makeJsonStringFromXmlRpc
unfoldable pub make_json_string_from_xml_rpc : (Bytes → Result Bytes) → Value → Result Bytes
make_json_string_from_xml_rpc overrun v = do
  value ← read_string_lp v
  make_json_string overrun value

-- serializeInt
unfoldable pub serialize_int : Value → Result Bytes
serialize_int v = do value ← read_int v; format_out (decimal_z value)

-- serializeI8
unfoldable pub serialize_i8 : Value → Result Bytes
serialize_i8 v = do value ← read_i8 v; format_out (decimal_z value)

-- serializeBool
unfoldable pub serialize_bool : Value → Result Bytes
serialize_bool v = do value ← read_bool v; format_out (if value then text "true" else text "false")

-- serializeDatetime
unfoldable pub serialize_datetime : Datetime → Result Bytes
serialize_datetime dt = format_out (
    b'"' ∷ decimal dt.year
    ++ zero_pad 2 (decimal dt.month)
    ++ zero_pad 2 (decimal dt.day)
    ++ b'T' ∷ zero_pad 2 (decimal dt.hour)
    ++ b':' ∷ zero_pad 2 (decimal dt.minute)
    ++ b':' ∷ zero_pad 2 (decimal dt.second)
    ++ b'"' ∷ [])

-- serializeString
unfoldable pub serialize_string : (Bytes → Result Bytes) → Value → Result Bytes
unfolding make_json_string_from_xml_rpc
serialize_string overrun v = do
  contents ← make_json_string_from_xml_rpc overrun v
  ok (b'"' ∷ contents ++ b'"' ∷ [])

-- serializeBitstring
unfoldable pub serialize_bitstring : Value → Result Bytes
serialize_bitstring v = do bytes ← read_base64 v; ok (b'"' ∷ base64_encode bytes ++ b'"' ∷ [])

-- What separates an item from the items after it.
abbrev after_item : Values → Bytes → Bytes
after_item no_items later = later
after_item (item v vs) later = b',' ∷ 10 ∷ later

abbrev after_member : Members → Bytes → Bytes
after_member no_members later = later
after_member (member h key v ms) later = b',' ∷ 10 ∷ later

-- What serializeValue writes around the content of a value.
unfoldable pub indented : ℕ → Result Bytes → Result Bytes
unfolding indent
indented level contents = do content ← contents; ok (indent level ++ content)

-- serializeStructMember, with the content of the value
unfoldable pub serialize_struct_member :
    (Bytes → Result Bytes) → Bytes → Result Bytes → ℕ → Result Bytes
unfolding indented serialize_string
serialize_struct_member overrun key contents level = do
  name ← indented level (serialize_string overrun (string key))
  content ← indented level contents
  ok (name ++ b':' ∷ content)

module _ (overrun : Bytes → Result Bytes) (format_e : ℕ → Bytes) where
  -- serializeDouble
  unfoldable pub serialize_double : Value → Result Bytes
  serialize_double v = do value ← read_double v; format_out (format_e value)

  unfoldable mutual
    unfolding serialize_int serialize_i8 serialize_bool serialize_datetime serialize_string
        serialize_bitstring serialize_double format_out indent indented serialize_struct_member

    -- serializeValue behind the indentation, with the frames of serializeArray and serializeStruct.
    pub serialize_content : Value → ℕ → Result Bytes
    serialize_content (int i) level = serialize_int (int i)
    serialize_content (i8 i) level = serialize_i8 (i8 i)
    serialize_content (bool b) level = serialize_bool (bool b)
    serialize_content (double d) level = serialize_double (double d)
    serialize_content (datetime dt) level = serialize_datetime dt
    serialize_content (string s) level = serialize_string overrun (string s)
    serialize_content (base64 b) level = serialize_bitstring (base64 b)
    serialize_content (array vs) level =
        serialize_array vs (level + 1)
        >>= (λ content. ok (b'[' ∷ 10 ∷ content ++ 10 ∷ indent level ++ b']' ∷ []))
    serialize_content (struct ms) level =
        serialize_struct ms (level + 1)
        >>= (λ content. ok (b'{' ∷ 10 ∷ content ++ 10 ∷ indent level ++ b'}' ∷ []))
    serialize_content (c_ptr p) level = faultf "Tried to serialize a C pointer value."
    serialize_content nil level = format_out (text "null")
    serialize_content dead level = faultf "Tried to serialize a dead value."

    -- The loop of serializeArray
    pub serialize_array : Values → ℕ → Result Bytes
    serialize_array no_items level = ok []
    serialize_array (item v vs) level =
        indented level (serialize_content v level)
        >>= (λ content. serialize_array vs level >>= (λ later. ok (content ++ after_item vs later)))

    -- The loop of serializeStruct
    pub serialize_struct : Members → ℕ → Result Bytes
    serialize_struct no_members level = ok []
    serialize_struct (member h key v ms) level =
        serialize_struct_member overrun key (serialize_content v level) level >>= (λ content.
          serialize_struct ms level >>= (λ later. ok (content ++ after_member ms later)))

  -- serializeValue
  unfoldable pub serialize_value : Value → ℕ → Result Bytes
  serialize_value v level = indented level (serialize_content v level)

  -- xmlrpc_serialize_json
  unfoldable pub serialize_json : Value → Result Bytes
  unfolding serialize_value
  serialize_json v = serialize_value v 0
