-- ===== src/ParseValue/Pieces.antt =====
-- The parts that xmlrpc_parseValue of xmlrpc-c/src/parse_value.c is made of: the array and the struct under
-- construction, the children of a <member>, an element without children.
use Prim.Native.String.{String}
use xml_rpc.Prelude.{ℕ, suc, refl, inl, inr, arith, Bytes, All, Bool-cases}
use xml_rpc.Fault.{Result, ok, err}
use xml_rpc.Utf8.Chars.{IsByte}
use xml_rpc.Element.{
  Element, element, Elements, no_children, child, element_name, element_cdata, element_children,
}
use xml_rpc.Value.{
  Value, Values, no_items, item, Members, no_members, member, array, struct, string,
}
use xml_rpc.Value.Arrays.{array_append_item, append_item}
use xml_rpc.Value.Structs.{struct_set_value_v}
use xml_rpc.Value.Structs.Lookup.{same_bytes, set_by_key, set_member-set_by_key}
use xml_rpc.Value.Structs.Keys.{IsStruct, IsStruct-set_by_key}
use xml_rpc.ParseValue.Shape.{HasBytes, HaveBytes, Fits, AllFit, MembersFit}
use xml_rpc.ParseScalar.Double.{FloatOps}
use xml_rpc.ParseScalar.{parse_simple_value_cdata}
use xml_rpc.ParseScalar.Range.{
  Yields, IsScalar, IsString, IsLines, string_new_lp-Yields, parse_simple_value_cdata-Yields,
}
use xml_rpc.ParseValue.{parse_name, find_child, parse_simple_value}

pub Fits-append :
    (depth : ℕ) (vs : Values) (v : Value)
    → AllFit depth vs
    → Fits depth v
    → AllFit depth (append_item vs v)
unfolding AllFit append_item
Fits-append depth no_items v h f = (f, tt)
Fits-append depth (item w vs) v h f = (h.0, Fits-append depth vs v h.1 f)

pub MembersFit-set_by_key :
    (depth : ℕ) (ms : Members) (key : Bytes) (v : Value)
    → MembersFit depth ms
    → IsLines key
    → Fits depth v
    → MembersFit depth (set_by_key ms key v)
unfolding MembersFit
MembersFit-set_by_key depth no_members key v h k f = (k, f, tt)
MembersFit-set_by_key depth (member hash key' w ms) key v (k', f', h) k f =
    elim (Bool-cases (same_bytes key' key)) [
      | inl same ↦ rw same (k', f, h)
      | inr other ↦ rw other (k', f', MembersFit-set_by_key depth ms key v h k f)
    ]

-- An array or a struct under construction.
abbrev pub IsArray : ℕ → Value → Type 0
IsArray depth (array vs) = AllFit depth vs
IsArray depth v = ⊥

abbrev pub IsStructValue : ℕ → Value → Type 0
IsStructValue depth (struct ms) = IsStruct ms × MembersFit depth ms
IsStructValue depth v = ⊥

pub array_append_item-Yields :
    (depth : ℕ) (arr v : Value)
    → IsArray depth arr
    → Fits depth v
    → Yields (IsArray depth) (array_append_item arr v)
unfolding array_append_item
array_append_item-Yields depth (array vs) v h f = Fits-append depth vs v h f
array_append_item-Yields depth _ v h f = absurd h

pub struct_set_value_v-Yields :
    (depth : ℕ) (str key v : Value)
    → IsStructValue depth str
    → IsString key
    → Fits depth v
    → Yields (IsStructValue depth) (struct_set_value_v str key v)
unfolding struct_set_value_v
struct_set_value_v-Yields depth (struct ms) (string key) v (s, h) k f =
    rw (set_member-set_by_key ms key v s.hashed)
      (IsStruct-set_by_key ms key v s, MembersFit-set_by_key depth ms key v h k f)
struct_set_value_v-Yields depth (struct ms) _ v h k f = absurd k
struct_set_value_v-Yields depth _ key v h k f = absurd h

pub find_child-Yields :
    (name complaint : String) (es : Elements)
    → HaveBytes es
    → Yields HasBytes (find_child name complaint es)
unfolding find_child HaveBytes
find_child-Yields name complaint no_children h = inl refl
find_child-Yields name complaint (child e es) h =
    ground (arith, find_child-Yields name complaint es h.1)

pub element_children-HaveBytes : (e : Element) → HasBytes e → HaveBytes (element_children e)
unfolding HasBytes
element_children-HaveBytes (element name cdata es) h = h.1

pub element_cdata-IsByte : (e : Element) → HasBytes e → All IsByte (element_cdata e)
unfolding HasBytes
element_cdata-IsByte (element name cdata es) h = h.0

pub parse_name-Yields : (e : Element) → HasBytes e → Yields IsString (parse_name e)
unfolding parse_name
parse_name-Yields e h =
    ground (arith, string_new_lp-Yields (element_cdata e) (element_cdata-IsByte e h))

pub IsScalar-Fits : (depth : ℕ) (v : Value) → IsScalar v → Fits (suc depth) v
unfolding Fits
IsScalar-Fits depth v h = ground arith

pub Yields-Fits : (depth : ℕ) (r : Result Value) → Yields IsScalar r → Yields (Fits (suc depth)) r
Yields-Fits depth (ok v) h = IsScalar-Fits depth v h
Yields-Fits depth (err e) h = h

pub parse_simple_value-Yields :
    (fl : FloatOps) (depth : ℕ) (e : Element)
    → HasBytes e
    → Yields (Fits (suc depth)) (parse_simple_value fl e)
unfolding parse_simple_value
parse_simple_value-Yields fl depth e h = ground (
  arith,
  Yields-Fits depth (parse_simple_value_cdata fl (element_name e) (element_cdata e)) (
      parse_simple_value_cdata-Yields fl (element_name e) (element_cdata e)
        (element_cdata-IsByte e h)),
)
