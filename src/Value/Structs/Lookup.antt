-- ===== src/Value/Structs/Lookup.antt =====
-- The members of xmlrpc-c/src/xmlrpc_struct.c as a map from keys to values: the search by hash codes against
-- a search by the keys alone.
use mathlib.Core.Option
use xml_rpc.Prelude.{
  ℕ, suc, ◌+◌, ◌≡◌, refl, ap, ◌∙◌, ◌↔◌, inl, inr, Bool, true, false, ◌&&◌, [], ◌∷◌, Option, none,
  some, Option-cases, Bool-cases, ◌==◌, if◌then◌else◌, Bytes, arith,
}
use xml_rpc.Fault.{ok}
use xml_rpc.Value.{Value, string, struct, Members, no_members, member}
use xml_rpc.Value.Structs.{
  hash_struct_key, is_key, find_from, find_member, get_member, found_value, change_member_value,
  append_member, add_new_member, set_member, struct_find_value_v, struct_set_value_v,
}

-- Equality of keys, byte by byte.
abbrev pub same_bytes : Bytes → Bytes → Bool
same_bytes [] [] = true
same_bytes [] (y ∷ ys) = false
same_bytes (x ∷ xs) [] = false
same_bytes (x ∷ xs) (y ∷ ys) = x == y && same_bytes xs ys

pub same_bytes_iff : (a b : Bytes) → (same_bytes a b ≡ true) ↔ (a ≡ b)
same_bytes_iff [] [] = ground arith
same_bytes_iff [] (y ∷ ys) = ground arith
same_bytes_iff (x ∷ xs) [] = ground arith
same_bytes_iff (x ∷ xs) (y ∷ ys) = ground (arith, same_bytes_iff xs ys)

is_key-same_bytes : (key keystr : Bytes) → is_key key keystr ≡ same_bytes keystr key
unfolding is_key
is_key-same_bytes [] [] = refl
is_key-same_bytes [] (y ∷ ys) = ground arith
is_key-same_bytes (x ∷ xs) [] = ground arith
is_key-same_bytes (x ∷ xs) (y ∷ ys) = ground (arith, is_key-same_bytes xs ys)

-- Every member has the hash of its key.
abbrev pub IsHashed : Members → Type 0
IsHashed no_members = Unit
IsHashed (member h k v ms) = (h ≡ hash_struct_key k) × IsHashed ms

-- The value of the first member with a key.
abbrev pub lookup : Bytes → Members → Option Value
lookup key no_members = none
lookup key (member h k v ms) = if same_bytes k key then some v else lookup key ms

-- The member's test is that of its key.
hash_test :
    (h : ℕ) (key k : Bytes)
    → h ≡ hash_struct_key k
    → (h == hash_struct_key key && is_key key k) ≡ same_bytes k key
hash_test h key k e = elim (Bool-cases (same_bytes k key)) [
  | inl same ↦ ground (
    arith,
    is_key-same_bytes key k,
    same_bytes_iff k key,
    ap hash_struct_key ((same_bytes_iff k key).0 same),
  )
  | inr other ↦ ground (arith, is_key-same_bytes key k)
]

find_from-suc :
    (h : ℕ) (key : Bytes) (i : ℕ) (ms : Members)
    → find_from h key (i + 1) ms ≡ Option.map suc (find_from h key i ms)
unfolding find_from
find_from-suc h key i no_members = refl
find_from-suc h key i (member h' k v ms) = ground (arith, find_from-suc h key (i + 1) ms)

-- What findMember finds at the head, or behind it.
find_member_step :
    (h : ℕ) (key k : Bytes) (v : Value) (ms : Members)
    → h ≡ hash_struct_key k
    → find_member (member h k v ms) key
      ≡ (if same_bytes k key then some 0 else Option.map suc (find_member ms key))
unfolding find_member find_from
find_member_step h key k v ms e = rw (hash_test h key k e) (
    ap (λ later. if same_bytes k key then some 0 else later)
      (find_from-suc (hash_struct_key key) key 0 ms))

found_value-suc :
    (h : ℕ) (k : Bytes) (v : Value) (ms : Members) (o : Option ℕ)
    → found_value (member h k v ms) (Option.map suc o) ≡ found_value ms o
unfolding found_value get_member
found_value-suc h k v ms none = refl
found_value-suc h k v ms (some i) = refl

-- The search by hash codes finds the value of the first member with the key.
pub found_value-find_member :
    (ms : Members) (key : Bytes) → IsHashed ms → found_value ms (find_member ms key) ≡ lookup key ms
found_value-find_member no_members key h = unfold found_value find_member find_from in refl
found_value-find_member (member h k v ms) key (e, hs) =
    rw (find_member_step h key k v ms e) (elim (Bool-cases (same_bytes k key)) [
      | inl same ↦ rw same (unfold found_value get_member in refl)
      | inr other ↦
          rw other
            (found_value-suc h k v ms (find_member ms key) ∙ found_value-find_member ms key hs)
    ])

-- Setting a member, by the keys alone.
abbrev pub set_by_key : Members → Bytes → Value → Members
set_by_key no_members key v = member (hash_struct_key key) key v no_members
set_by_key (member h k w ms) key v =
    if same_bytes k key then member h k v ms else member h k w (set_by_key ms key v)

abbrev set_found : Members → Bytes → Value → Option ℕ → Members
set_found ms key v none = add_new_member ms key v
set_found ms key v (some i) = change_member_value ms i v

set_found-suc :
    (h : ℕ) (k key : Bytes) (w v : Value) (ms : Members) (o : Option ℕ)
    → set_found (member h k w ms) key v (Option.map suc o) ≡ member h k w (set_found ms key v o)
unfolding add_new_member append_member change_member_value
set_found-suc h k key w v ms none = refl
set_found-suc h k key w v ms (some i) = refl

set_found-find_member :
    (ms : Members) (key : Bytes) (v : Value)
    → IsHashed ms
    → set_found ms key v (find_member ms key) ≡ set_by_key ms key v
set_found-find_member no_members key v h =
    unfold find_member find_from add_new_member append_member in refl
set_found-find_member (member h k w ms) key v (e, hs) =
    rw (find_member_step h key k w ms e) (elim (Bool-cases (same_bytes k key)) [
      | inl same ↦ rw same (unfold change_member_value in refl)
      | inr other ↦ rw other (
          set_found-suc h k key w v ms (find_member ms key)
          ∙ ap (member h k w) (set_found-find_member ms key v hs))
    ])

pub set_member-set_by_key :
    (ms : Members) (key : Bytes) (v : Value)
    → IsHashed ms
    → set_member ms key v ≡ set_by_key ms key v
unfolding set_member
set_member-set_by_key ms key v h = elim (Option-cases (find_member ms key)) [
  | inl e ↦ rw (e, set_member) (rw e at (set_found-find_member ms key v h))
  | inr (i, e) ↦ rw (e, set_member) (rw e at (set_found-find_member ms key v h))
]

pub IsHashed-set_by_key :
    (ms : Members) (key : Bytes) (v : Value) → IsHashed ms → IsHashed (set_by_key ms key v)
IsHashed-set_by_key no_members key v h = (refl, tt)
IsHashed-set_by_key (member h k w ms) key v (e, hs) = elim (Bool-cases (same_bytes k key)) [
  | inl same ↦ rw same (e, hs)
  | inr other ↦ rw other (e, IsHashed-set_by_key ms key v hs)
]

pub lookup-set_by_key :
    (ms : Members) (key j : Bytes) (v : Value)
    → lookup j (set_by_key ms key v) ≡ (if same_bytes key j then some v else lookup j ms)
lookup-set_by_key no_members key j v = refl
lookup-set_by_key (member h k w ms) key j v = ground (
  arith,
  same_bytes_iff k key,
  same_bytes_iff k j,
  same_bytes_iff key j,
  lookup-set_by_key ms key j v,
)

-- In a struct with the right hash codes, setting a member changes the value that is found for its
-- key, to the new one, and for no other key. The hash codes stay right.
pub find-set_value :
    (ms : Members) (key : Bytes) (v : Value)
    → IsHashed ms
    → (ms' : Members) × (struct_set_value_v (struct ms) (string key) v ≡ ok (struct ms'))
      × IsHashed ms'
      × ((j : Bytes)
          → struct_find_value_v (struct ms') (string j) ≡ (
              if same_bytes key j then ok (some v) else struct_find_value_v (struct ms) (string j)))
unfolding struct_set_value_v
find-set_value ms key v h =
    let e = set_member-set_by_key ms key v h in
    let h' = IsHashed-set_by_key ms key v h in
    (
      set_by_key ms key v,
      ap (λ m. ok (struct m)) e,
      h',
      λ j.
          unfold struct_find_value_v in
          rw (found_value-find_member (set_by_key ms key v) j h')
            (rw (found_value-find_member ms j h) (ground (arith, lookup-set_by_key ms key j v))),
    )
