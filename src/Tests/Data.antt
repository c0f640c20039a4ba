-- ===== src/Tests/Data.antt =====
-- xmlrpc-c/lib/libutil/base64.c, xmlrpc-c/src/xmlrpc_array.c and xmlrpc-c/src/xmlrpc_struct.c at concrete data.
use xml_rpc.Prelude.{
  ℕ, ◌+◌, ◌*◌, ◌/◌, ◌≤◌, ◌<◌, ◌≡◌, refl, true, false, if◌then◌else◌, List, [], ◌∷◌, some, arith,
  Bytes, All, length, pos, codes,
}
use mathlib.Core.List.{foldl}
use xml_rpc.Fault.{ok, index_error, IsFault}
use xml_rpc.Base64.{encode_base64, base64_decode, decode_char, initial}
use xml_rpc.Base64.Rfc.{rfc_base64, lines_text, encode_base64_lines}
use xml_rpc.Base64.Bounds.{decode_buffer_bound}
use xml_rpc.Base64.RoundTrip.{base64_decode-encode_base64}
use xml_rpc.Value.{
  int, nil, bool, array, string, struct, Values, no_items, item, count_items, Members, no_members,
  member, count_members,
}
use xml_rpc.Value.Arrays.{array_append_item, array_size, array_read_item, array_read-append_item}
use xml_rpc.Value.Structs.{
  struct_set_value_v, struct_find_value_v, struct_size, hash_struct_key, hash_from, char_to_uint32,
}
use xml_rpc.Value.Structs.Lookup.{IsHashed, same_bytes, lookup, find-set_value}
use xml_rpc.Value.Structs.Keys.{IsStruct, is_found, struct_set_value-IsStruct}

-- Four bytes: a group and a rest, the last byte not ASCII.
abbrev octets : Bytes
octets = 77 ∷ 97 ∷ 110 ∷ 255 ∷ []

base64_round_trip_example : base64_decode (encode_base64 octets true) ≡ ok octets
base64_round_trip_example = base64_decode-encode_base64 octets true (ground arith)

base64_lines_example :
    (lines : List Bytes) × (encode_base64 octets true ≡ lines_text true lines)
    × All (λ line. length line ≤ 76) lines
    × (lines_text false lines ≡ rfc_base64 octets)
base64_lines_example = encode_base64_lines octets true (ground arith)

-- TWFu/w==
abbrev ascii : Bytes
ascii = codes "TWFu/w=="

decode_buffer_example :
    length (foldl decode_char initial ascii).bin_data ≤ (length ascii + 3) / 4 * 3
decode_buffer_example = decode_buffer_bound ascii

abbrev two_items : Values
two_items = item (int (pos 1)) (item nil no_items)

array_append_example :
    (vs' : Values) × (array_append_item (array two_items) (bool true) ≡ ok (array vs'))
    × (array_size (array vs') ≡ ok (count_items two_items + 1))
    × (array_read_item (array vs') (count_items two_items) ≡ ok (bool true))
    × ((i : ℕ)
        → i < count_items two_items
        → array_read_item (array vs') i ≡ array_read_item (array two_items) i)
    × ((i : ℕ) → count_items two_items < i → IsFault index_error (array_read_item (array vs') i))
array_append_example = array_read-append_item two_items (bool true)

-- The keys a and b.
abbrev key_a : Bytes
key_a = 97 ∷ []

abbrev key_b : Bytes
key_b = 98 ∷ []

abbrev two_members : Members
two_members = member 97 key_a (int (pos 1)) (member 98 key_b nil no_members)

hash_test : hash_struct_key (codes "ab") ≡ 97 * 33 + 98
unfolding hash_struct_key hash_from char_to_uint32
hash_test = refl

hash_signed_test : hash_struct_key (0xC3 ∷ []) ≡ 0xFFFFFFC3
unfolding hash_struct_key hash_from char_to_uint32
hash_signed_test = refl

two_members-IsHashed : IsHashed two_members
unfolding hash_struct_key hash_from char_to_uint32
two_members-IsHashed = (refl, (refl, tt))

two_members-IsStruct : IsStruct two_members
two_members-IsStruct = record { hashed = two_members-IsHashed; distinct = (refl, (refl, tt)) }

find_set_example :
    (ms' : Members) × (struct_set_value_v (struct two_members) (string key_b) (bool true)
      ≡ ok (struct ms'))
    × IsHashed ms'
    × ((j : Bytes)
        → struct_find_value_v (struct ms') (string j) ≡ (
            if same_bytes key_b j
            then ok (some (bool true))
            else struct_find_value_v (struct two_members) (string j)))
find_set_example = find-set_value two_members key_b (bool true) two_members-IsHashed

set_value_example :
    (ms' : Members) × (struct_set_value_v (struct two_members) (string key_b) (bool true)
      ≡ ok (struct ms'))
    × IsStruct ms'
    × (struct_size (struct ms')
        ≡ ok (
            if is_found (lookup key_b two_members)
            then count_members two_members
            else count_members two_members + 1))
set_value_example = struct_set_value-IsStruct two_members key_b (bool true) two_members-IsStruct
