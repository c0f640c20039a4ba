-- ===== src/Document/Pieces.antt =====
-- The arrays and structs that xmlrpc-c/src/parse_value.c builds up while it reads a document, and the strings
-- and the base64 in it.
use mathlib.Core.List.{foldl}
use xml_rpc.Prelude.{
  ℕ, ◌≡◌, refl, sym, ap, ◌∙◌, Bool, true, false, inl, inr, [], ◌∷◌, ◌++◌, arith, Bytes, ◌==◌, ◌&&◌,
  ◌≢◌, Bool-cases, none,
}
use xml_rpc.Fault.{ok}
use xml_rpc.Base64.{base64_decode, decode_finish, decode_char, initial, Decoder}
use xml_rpc.Value.{Value, string, Values, no_items, item, Members, no_members, member}
use xml_rpc.Value.Strings.{copy_lines, string_new_lp}
use xml_rpc.Value.Structs.{hash_struct_key}
use xml_rpc.Value.Structs.Lookup.{same_bytes, same_bytes_iff, IsHashed, lookup, set_by_key}
use xml_rpc.Value.Structs.Keys.{HasDistinctKeys}
use xml_rpc.Value.Arrays.{append_item}
use xml_rpc.Serialize.{end_line}
use xml_rpc.ParseScalar.Range.{IsLines}

pub string_new_lp_lines : (block : Bytes) → IsLines block → string_new_lp block ≡ ok (string block)
unfolding string_new_lp
string_new_lp_lines block (valid, plain) = rw valid (rw plain refl)

-- The base64 decoder does not see how lines end.
pub decode_cr : (s : Decoder) → decode_char s b'\r' ≡ s
unfolding decode_char
decode_cr s = refl

pub decode_lf : (s : Decoder) → decode_char s b'\n' ≡ s
unfolding decode_char
decode_lf s = refl

pub foldl-copy_lines :
    (s : Decoder) (after_cr : Bool) (bytes : Bytes)
    → foldl decode_char s (copy_lines after_cr bytes) ≡ foldl decode_char s bytes
unfolding copy_lines
foldl-copy_lines s after_cr [] = refl
foldl-copy_lines s after_cr (c ∷ bytes) = elim (Bool-cases (c == b'\r')) [
  | inl cr ↦
      let c_is : c ≡ b'\r' = ground arith in
      rw cr (
        rw c_is (
          ap (λ t. foldl decode_char t (copy_lines true bytes)) (decode_lf s)
          ∙ foldl-copy_lines s true bytes
          ∙ ap (λ t. foldl decode_char t bytes) (sym (decode_cr s))))
  | inr other ↦ elim (Bool-cases (after_cr && c == b'\n')) [
    | inl lf ↦
        let c_is : c ≡ b'\n' = ground arith in
        rw other (
          rw lf (
            rw c_is (
              foldl-copy_lines s false bytes
              ∙ ap (λ t. foldl decode_char t bytes) (sym (decode_lf s)))))
    | inr kept ↦ rw other (rw kept (foldl-copy_lines (decode_char s c) false bytes))
  ]
]

pub base64_decode-copy_lines :
    (bytes : Bytes) → base64_decode (copy_lines false bytes) ≡ base64_decode bytes
unfolding base64_decode
base64_decode-copy_lines bytes = ap decode_finish (foldl-copy_lines initial false bytes)

pub base64_decode-end_line :
    (bytes : Bytes) → base64_decode (end_line ++ bytes) ≡ base64_decode bytes
unfolding base64_decode end_line
base64_decode-end_line bytes =
    ap (λ t. decode_finish (foldl decode_char t bytes))
      (ap (λ t. decode_char t b'\n') (decode_cr initial) ∙ decode_lf initial)

-- Reading behind what has been read.
unfoldable pub join_items : Values → Values → Values
join_items no_items ws = ws
join_items (item v vs) ws = item v (join_items vs ws)

unfoldable pub join_members : Members → Members → Members
join_members no_members ns = ns
join_members (member h k v ms) ns = member h k v (join_members ms ns)

pub join_items-append :
    (vs ws : Values) (v : Value) → join_items (append_item vs v) ws ≡ join_items vs (item v ws)
unfolding join_items append_item
join_items-append no_items ws v = refl
join_items-append (item w vs) ws v = ap (item w) (join_items-append vs ws v)

pub join_items-no_items : (vs : Values) → join_items vs no_items ≡ vs
unfolding join_items
join_items-no_items no_items = refl
join_items-no_items (item v vs) = ap (item v) (join_items-no_items vs)

pub join_members-no_members : (ms : Members) → join_members ms no_members ≡ ms
unfolding join_members
join_members-no_members no_members = refl
join_members-no_members (member h k v ms) = ap (member h k v) (join_members-no_members ms)

unfoldable pub add_last : Members → Bytes → Value → Members
add_last ms key v = join_members ms (member (hash_struct_key key) key v no_members)

pub join_members-add_last :
    (ms ns : Members) (key : Bytes) (v : Value)
    → join_members (add_last ms key v) ns ≡ join_members ms (member (hash_struct_key key) key v ns)
unfolding join_members add_last
join_members-add_last no_members ns key v = refl
join_members-add_last (member h k w ms) ns key v =
    ap (member h k w) (join_members-add_last ms ns key v)

pub lookup-join_members :
    (ms ns : Members) (h : ℕ) (key : Bytes) (w : Value)
    → lookup key (join_members ms (member h key w ns)) ≢ none
unfolding join_members
lookup-join_members no_members ns h key w = ground (arith, (same_bytes_iff key key).1 refl)
lookup-join_members (member h' k u ms) ns h key w =
    ground (arith, lookup-join_members ms ns h key w)

-- A key that comes later is not among the members before it.
pub set_by_key-fresh :
    (ms ns : Members) (h : ℕ) (key : Bytes) (v w : Value)
    → HasDistinctKeys (join_members ms (member h key w ns))
    → set_by_key ms key v ≡ add_last ms key v
unfolding join_members add_last
set_by_key-fresh no_members ns h key v w d = refl
set_by_key-fresh (member h' k u ms) ns h key v w (fresh, d) = elim (Bool-cases (same_bytes k key)) [
  | inl same ↦
      let k_is : k ≡ key = (same_bytes_iff k key).0 same in
      absurd (lookup-join_members ms ns h key w (rw k_is at fresh))
  | inr other ↦ rw other (ap (member h' k u) (set_by_key-fresh ms ns h key v w d))
]

pub join_members-IsHashed :
    (ms ns : Members) → IsHashed (join_members ms ns) → IsHashed ms × IsHashed ns
unfolding join_members
join_members-IsHashed no_members ns h = (tt, h)
join_members-IsHashed (member h' k v ms) ns (e, h) =
    let (a, b) = join_members-IsHashed ms ns h in ((e, a), b)
