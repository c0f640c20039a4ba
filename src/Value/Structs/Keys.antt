-- ===== src/Value/Structs/Keys.antt =====
-- The keys of a struct of xmlrpc-c/src/xmlrpc_struct.c are distinct, and its size counts them.
use xml_rpc.Prelude.{
  ◌+◌, ◌≡◌, refl, Bool, true, false, inl, inr, Option, none, some, Bool-cases, if◌then◌else◌, Bytes,
  arith, ap,
}
use xml_rpc.Fault.{ok}
use xml_rpc.Value.{Value, string, struct, Members, no_members, member, count_members}
use xml_rpc.Value.Structs.{struct_set_value_v, struct_size}
use xml_rpc.Value.Structs.Lookup.{
  same_bytes, same_bytes_iff, IsHashed, lookup, set_by_key, lookup-set_by_key,
  set_member-set_by_key, IsHashed-set_by_key,
}

-- No key stands twice.
abbrev pub HasDistinctKeys : Members → Type 0
HasDistinctKeys no_members = Unit
HasDistinctKeys (member h k v ms) = (lookup k ms ≡ none) × HasDistinctKeys ms

abbrev pub is_found : Option Value → Bool
is_found none = false
is_found (some v) = true

HasDistinctKeys-set_by_key :
    (ms : Members) (key : Bytes) (v : Value)
    → HasDistinctKeys ms
    → HasDistinctKeys (set_by_key ms key v)
HasDistinctKeys-set_by_key no_members key v d = (refl, tt)
HasDistinctKeys-set_by_key (member h k w ms) key v (fresh, ds) =
    elim (Bool-cases (same_bytes k key)) [
      | inl same ↦ rw same (fresh, ds)
      | inr other ↦ rw other (
        ground (arith, lookup-set_by_key ms key k v, same_bytes_iff k key, same_bytes_iff key k),
        HasDistinctKeys-set_by_key ms key v ds,
      )
    ]

count-set_by_key :
    (ms : Members) (key : Bytes) (v : Value)
    → count_members (set_by_key ms key v)
      ≡ (if is_found (lookup key ms) then count_members ms else count_members ms + 1)
count-set_by_key no_members key v = refl
count-set_by_key (member h k w ms) key v = ground (arith, count-set_by_key ms key v)

-- What a struct is built up to satisfy.
pub record IsStruct (ms : Members) : Type 0 where
  pub hashed : IsHashed ms
  pub distinct : HasDistinctKeys ms

pub IsStruct-set_by_key :
    (ms : Members) (key : Bytes) (v : Value) → IsStruct ms → IsStruct (set_by_key ms key v)
IsStruct-set_by_key ms key v s = record {
  hashed = IsHashed-set_by_key ms key v s.hashed;
  distinct = HasDistinctKeys-set_by_key ms key v s.distinct;
}

-- Setting a member keeps the keys distinct and the hash codes right, and adds one to the size
-- exactly if the key was not there.
pub struct_set_value-IsStruct :
    (ms : Members) (key : Bytes) (v : Value)
    → IsStruct ms
    → (ms' : Members) × (struct_set_value_v (struct ms) (string key) v ≡ ok (struct ms'))
      × IsStruct ms'
      × (struct_size (struct ms')
          ≡ ok (if is_found (lookup key ms) then count_members ms else count_members ms + 1))
unfolding struct_set_value_v struct_size
struct_set_value-IsStruct ms key v s = (
  set_by_key ms key v,
  ap (λ m. ok (struct m)) (set_member-set_by_key ms key v s.hashed),
  IsStruct-set_by_key ms key v s,
  ap ok (count-set_by_key ms key v),
)
