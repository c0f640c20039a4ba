-- ===== src/Value/Structs.antt =====
-- xmlrpc-c/src/xmlrpc_struct.c. A key given as a C string is its bytes before the NUL. INCREF and DECREF
-- have no counterpart.
pub mod Lookup
pub mod Keys
use xml_rpc.Prelude.{
  ℕ, zero, suc, ◌+◌, ◌-◌, ◌*◌, ◌%◌, ◌^◌, Bool, true, false, ◌&&◌, List, [], ◌∷◌, ℤ, pos, negsuc,
  Option, none, some, ltb, leb, ◌==◌, if◌then◌else◌, Bytes, length,
}
use xml_rpc.Fault.{Result, ok, err, type_error, index_error, fault, ◌>>=◌}
use xml_rpc.Value.{Value, string, struct, Members, no_members, member, count_members}
use xml_rpc.Value.Strings.{string_new_lp}

-- xmlrpc_struct_new
abbrev pub struct_new : Value
struct_new = struct no_members

-- xmlrpc_struct_size
unfoldable pub struct_size : Value → Result ℕ
struct_size (struct ms) = ok (count_members ms)
struct_size v = fault type_error "Value is not a struct.  It is type #%d"

-- A `char` as the `int` that it is promoted to, in `uint32_t`: it is signed.
unfoldable pub char_to_uint32 : ℕ → ℕ
char_to_uint32 c = if ltb c 128 then c else 2 ^ 32 - 256 + c

-- The loop of hashStructKey, from the hash so far.
unfoldable pub hash_from : ℕ → Bytes → ℕ
hash_from hash [] = hash
hash_from hash (c ∷ key) = hash_from ((hash + char_to_uint32 c + hash * 32 % 2 ^ 32) % 2 ^ 32) key

unfoldable pub hash_struct_key : Bytes → ℕ
unfolding hash_from char_to_uint32
hash_struct_key key = hash_from 0 key

-- `memcmp(key, keystr, keyLen) == 0`, for byte strings of one size
unfoldable pub memcmp_is_zero : Bytes → Bytes → Bool
memcmp_is_zero [] keystr = true
memcmp_is_zero (x ∷ key) [] = true
memcmp_is_zero (x ∷ key) (y ∷ keystr) = x == y && memcmp_is_zero key keystr

-- The test of findMember once the hashes agree.
unfoldable pub is_key : Bytes → Bytes → Bool
unfolding memcmp_is_zero
is_key key keystr = length keystr == length key && memcmp_is_zero key keystr

-- The loop of findMember, from index `i`.
unfoldable pub find_from : ℕ → Bytes → ℕ → Members → Option ℕ
find_from search_hash key i no_members = none
find_from search_hash key i (member hash keystr v ms) =
    let later = find_from search_hash key (i + 1) ms in
    if hash == search_hash && is_key key keystr then some i else later

unfoldable pub find_member : Members → Bytes → Option ℕ
find_member ms key = find_from (hash_struct_key key) key 0 ms

-- xmlrpc_struct_has_key_n, and xmlrpc_struct_has_key on the bytes before the NUL
unfoldable pub struct_has_key_n : Value → Bytes → Result Bool
struct_has_key_n (struct ms) key = ok (elim (find_member ms key) [ none ↦ false | some i ↦ true ])
struct_has_key_n v key = fault type_error "Value is not a struct"

-- members[index]
unfoldable pub get_member : Members → ℕ → Option (Bytes × Value)
get_member no_members i = none
get_member (member h k v ms) zero = some (k, v)
get_member (member h k v ms) (suc i) = get_member ms i

-- The value of a member that findMember has found.
unfoldable pub found_value : Members → Option ℕ → Option Value
found_value ms none = none
found_value ms (some i) = elim (get_member ms i) [ none ↦ none | some (k, v) ↦ some v ]

-- xmlrpc_struct_find_value
unfoldable pub struct_find_value : Value → Bytes → Result (Option Value)
unfolding found_value
struct_find_value (struct ms) key = ok (found_value ms (find_member ms key))
struct_find_value v key = fault type_error "Value is not a struct.  It is type #%d"

-- xmlrpc_struct_find_value_v
unfoldable pub struct_find_value_v : Value → Value → Result (Option Value)
unfolding found_value
struct_find_value_v (struct ms) (string key) = ok (found_value ms (find_member ms key))
struct_find_value_v (struct ms) v = fault type_error "Key value is not a string.  It is type #%d"
struct_find_value_v s v = fault type_error "Value is not a struct.  It is type #%d"

-- A member that must be there.
unfoldable pub required : Option Value → Result Value
required none = fault index_error "No member of struct has key '%s'"
required (some v) = ok v

-- xmlrpc_struct_read_value_v
unfoldable pub struct_read_value_v : Value → Value → Result Value
unfolding required
struct_read_value_v s key = do found ← struct_find_value_v s key; required found

-- xmlrpc_struct_read_value
unfoldable pub struct_read_value : Value → Bytes → Result Value
unfolding required
struct_read_value s key = do found ← struct_find_value s key; required found

-- xmlrpc_struct_get_value_n, and xmlrpc_struct_get_value on the bytes before the NUL
unfoldable pub struct_get_value_n : Value → Bytes → Result Value
unfolding required
struct_get_value_n s key = do
  key_value ← string_new_lp key
  found ← struct_find_value_v s key_value
  required found

-- changeMemberValue
unfoldable pub change_member_value : Members → ℕ → Value → Members
change_member_value no_members i v = no_members
change_member_value (member h k w ms) zero v = member h k v ms
change_member_value (member h k w ms) (suc i) v = member h k w (change_member_value ms i v)

-- XMLRPC_MEMBLOCK_APPEND of one member
unfoldable pub append_member : Members → ℕ → Bytes → Value → Members
append_member no_members h k v = member h k v no_members
append_member (member h' k' v' ms) h k v = member h' k' v' (append_member ms h k v)

-- addNewMember
unfoldable pub add_new_member : Members → Bytes → Value → Members
add_new_member ms key v = append_member ms (hash_struct_key key) key v

-- What xmlrpc_struct_set_value_v does to the members.
unfoldable pub set_member : Members → Bytes → Value → Members
set_member ms key v = elim (find_member ms key) [
  | none ↦ add_new_member ms key v
  | some i ↦ change_member_value ms i v
]

-- xmlrpc_struct_set_value_v
unfoldable pub struct_set_value_v : Value → Value → Value → Result Value
struct_set_value_v (struct ms) (string key) v = ok (struct (set_member ms key v))
struct_set_value_v (struct ms) key_value v = fault type_error "Key value is not a string"
struct_set_value_v s key_value v = fault type_error "Value is not a struct"

-- xmlrpc_struct_set_value_n, and xmlrpc_struct_set_value on the bytes before the NUL
unfoldable pub struct_set_value_n : Value → Bytes → Value → Result Value
struct_set_value_n (struct ms) key v = do
  key_value ← string_new_lp key
  struct_set_value_v (struct ms) key_value v
struct_set_value_n s key v =
    fault type_error "Trying to set value in something not a struct.  Type is %d; struct is %d"

-- xmlrpc_struct_read_member
unfoldable pub struct_read_member : Value → ℕ → Result (Bytes × Value)
struct_read_member (struct ms) index = elim (get_member ms index) [
  | none ↦ fault index_error "Index %u is beyond the end of the %u-member structure"
  | some m ↦ ok m
]
struct_read_member v index =
    fault type_error "Attempt to read a struct member of something that is not a struct"

-- xmlrpc_struct_get_key_and_value
unfoldable pub struct_get_key_and_value : Value → ℤ → Result (Bytes × Value)
struct_get_key_and_value v (negsuc n) = fault index_error "Index %d is negative."
struct_get_key_and_value v (pos index) = struct_read_member v index
