-- ===== src/ParseCall/Faults.antt =====
-- xmlrpc-c/src/xmlrpc_parse.c reads a fault from the elements of the document that xmlrpc_serialize_fault of
-- xmlrpc-c/src/xmlrpc_serialize.c writes for it.
use xml_rpc.Prelude.{ℕ, suc, ◌≡◌, refl, Bytes, text, codes, ℤ}
use xml_rpc.Fault.{Fault, ok}
use xml_rpc.Utf8.{validate_utf8}
use xml_rpc.Value.Structs.{
  hash_struct_key, hash_from, char_to_uint32, struct_set_value_n, struct_set_value_v, set_member,
  find_member, find_from, is_key, memcmp_is_zero, add_new_member, append_member, struct_read_value,
  struct_find_value, found_value, get_member, required,
}
use xml_rpc.Value.{Value, int, string, struct, Members, no_members, member}
use xml_rpc.Value.Strings.{
  string_new_lp, read_string, access_string_value, validate_string_type, verify_no_nulls,
}
use xml_rpc.Serialize.{Dialect, fault_struct}
use xml_rpc.ParseScalar.Double.{FloatOps}
use xml_rpc.ParseScalar.Range.{IsLines, IsSigned}
use xml_rpc.ParseValue.Shape.{Fits, MembersFit}
use xml_rpc.Document.{node, one, eol, cdata_of, elements_of, element_of, content_node}
use xml_rpc.Document.Scalars.{IsExact, MembersExact}
use xml_rpc.Document.Pieces.{string_new_lp_lines}
use xml_rpc.Document.Parsed.{parse_value-content_node}
use xml_rpc.ParseCall.{
  only_child, failure, parse_method_response_elt, interpret_fault_value, fault_members,
}
use xml_rpc.Utf8.{utf8_to_wcs, decode_loop, decode_char}
use xml_rpc.Value.Strings.{has_cr}
use xml_rpc.Value.Structs.Keys.{IsStruct}
use xml_rpc.Value.Structs.{struct_new}
use xml_rpc.ParseCall.{interpret_fault_code, interpret_fault_string}
use xml_rpc.Value.Data.{read_int}
use xml_rpc.ParseCall.Documents.{value_node, fault_nodes, parse_fault_element_lem}

-- The struct that a fault is sent as.
abbrev pub code_member : ℤ → Members → Members
code_member code ms = member (hash_struct_key (codes "faultCode")) (codes "faultCode") (int code) ms

abbrev pub string_member : Bytes → Members
string_member fault_string =
    member (hash_struct_key (codes "faultString")) (codes "faultString") (string fault_string)
      no_members

abbrev pub fault_value : ℤ → Bytes → Value
fault_value code fault_string = struct (code_member code (string_member fault_string))

set_code :
    (code : ℤ)
    → struct_set_value_n struct_new (text "faultCode") (int code)
      ≡ ok (struct (code_member code no_members))
unfolding text struct_set_value_n string_new_lp validate_utf8 utf8_to_wcs decode_loop decode_char
    has_cr struct_set_value_v set_member find_member find_from add_new_member append_member
set_code code = refl

set_string :
    (code : ℤ) (fault_string : Bytes)
    → struct_set_value_n
        (struct (code_member code no_members))
        (text "faultString")
        (string fault_string)
      ≡ ok (fault_value code fault_string)
unfolding text struct_set_value_n string_new_lp validate_utf8 utf8_to_wcs decode_loop decode_char
    has_cr struct_set_value_v set_member find_member find_from add_new_member append_member
    hash_struct_key hash_from char_to_uint32
set_string code fault_string = refl

-- The text is sent as the string that is made of it.
pub fault_struct-string :
    (f : Fault) (block : Bytes)
    → string_new_lp f.text ≡ ok (string block)
    → fault_struct f ≡ ok (fault_value f.code block)
unfolding fault_struct
fault_struct-string f block h = rw (set_code f.code) (rw h (set_string f.code block))

pub fault_struct_lem :
    (f : Fault) → IsLines f.text → fault_struct f ≡ ok (fault_value f.code f.text)
fault_struct_lem f h = fault_struct-string f f.text (string_new_lp_lines f.text h)

read_code :
    (code : ℤ) (fault_string : Bytes)
    → struct_read_value (fault_value code fault_string) (text "faultCode") ≡ ok (int code)
unfolding text struct_read_value struct_find_value required found_value get_member find_member
    find_from is_key memcmp_is_zero hash_struct_key hash_from char_to_uint32
read_code code fault_string = refl

read_fault_string :
    (code : ℤ) (fault_string : Bytes)
    → struct_read_value (fault_value code fault_string) (text "faultString")
      ≡ ok (string fault_string)
unfolding text struct_read_value struct_find_value required found_value get_member find_member
    find_from is_key memcmp_is_zero hash_struct_key hash_from char_to_uint32
read_fault_string code fault_string = refl

interpret_string :
    (fault_string : Bytes)
    → verify_no_nulls fault_string ≡ ok tt
    → interpret_fault_string (string fault_string) ≡ ok fault_string
unfolding interpret_fault_string read_string access_string_value validate_string_type
interpret_string fault_string h = rw (h, interpret_fault_string) refl

fault_members_lem :
    (code : ℤ) (fault_string : Bytes)
    → verify_no_nulls fault_string ≡ ok tt
    → fault_members (fault_value code fault_string) ≡ ok (code, fault_string)
unfolding fault_members interpret_fault_code read_int
fault_members_lem code fault_string h =
    rw (read_code code fault_string)
      (rw (read_fault_string code fault_string) (rw (interpret_string fault_string h) refl))

interpret_fault_value_lem :
    (code : ℤ) (fault_string : Bytes)
    → verify_no_nulls fault_string ≡ ok tt
    → interpret_fault_value (fault_value code fault_string) ≡ ok (code, fault_string)
unfolding interpret_fault_value
interpret_fault_value_lem code fault_string h =
    rw (fault_members_lem code fault_string h, interpret_fault_value) refl

keys-IsLines : IsLines (codes "faultCode") × IsLines (codes "faultString")
unfolding validate_utf8 utf8_to_wcs decode_loop decode_char has_cr
keys-IsLines = ((refl, refl), (refl, refl))

fault_value-IsStruct :
    (code : ℤ) (fault_string : Bytes) → IsStruct (code_member code (string_member fault_string))
fault_value-IsStruct code fault_string = record {
  hashed = (refl, (refl, tt));
  distinct = (refl, (refl, tt));
}

pub fault_value-Fits :
    (n : ℕ) (code : ℤ) (fault_string : Bytes)
    → IsSigned 31 code
    → IsLines fault_string
    → Fits (suc (suc n)) (fault_value code fault_string)
unfolding Fits MembersFit
fault_value-Fits n code fault_string c s =
    (fault_value-IsStruct code fault_string, (keys-IsLines.0, c, (keys-IsLines.1, s, tt)))

pub fault_value-IsExact :
    (code : ℤ) (fault_string : Bytes) → IsExact (fault_value code fault_string)
unfolding IsExact MembersExact
fault_value-IsExact code fault_string = (tt, (tt, tt))

module _ (float_text : ℕ → Bytes) (dialect : Dialect) (fl : FloatOps) where
  -- A fault is made a value, and its code and its text are read back from the elements of the
  -- document with that value, if the code has 32 bits and the text is valid UTF-8 without CR and NUL,
  -- and the nesting limit is two or more.
  pub parse_method_response_elt-fault_nodes :
      (f : Fault) (n : ℕ)
      → IsSigned 31 f.code
      → IsLines f.text
      → verify_no_nulls f.text ≡ ok tt
      → (v : Value) × (fault_struct f ≡ ok v)
        × (parse_method_response_elt fl
              (suc (suc n))
              (element_of "methodResponse" (fault_nodes float_text dialect v))
            ≡ ok (failure f.code f.text))
  unfolding parse_method_response_elt only_child elements_of
  parse_method_response_elt-fault_nodes f n c s z =
      let v = fault_value f.code f.text in
      (
        v,
        fault_struct_lem f s,
        parse_fault_element_lem float_text dialect fl (suc (suc n))
            (element_of "value" (one (content_node float_text dialect v))) f.code f.text v
            (parse_value-content_node float_text dialect fl (suc (suc n)) v
              (fault_value-Fits n f.code f.text c s) (fault_value-IsExact f.code f.text))
            (interpret_fault_value_lem f.code f.text z) refl
            (cdata_of (node eol (node (value_node float_text dialect v) (one eol)))),
      )
