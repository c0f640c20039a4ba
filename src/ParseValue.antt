-- ===== src/ParseValue.antt =====
-- xmlrpc_parseValue of xmlrpc-c/src/parse_value.c with its arrays and structs. The recursion is bounded as in
-- the source, by maxRecursion, which counts down to 0.
pub mod Shape
pub mod Pieces
pub mod Bounded
use Prim.Native.String.{String}
use text.Mathlib.Text.{◌==◌ as str_eq}
use xml_rpc.Prelude.{ℕ, zero, suc, Bool, true, false, not, ◌==◌, if◌then◌else◌, Bytes}
use xml_rpc.Fault.{Result, ok, err, parse_error, fault, ◌>>=◌, ◌>>◌}
use xml_rpc.Element.{
  Element, Elements, no_children, child, element_name, element_cdata, element_children,
  children_size,
}
use xml_rpc.Value.{Value}
use xml_rpc.Value.Strings.{string_new_lp}
use xml_rpc.Value.Arrays.{array_new, array_append_item}
use xml_rpc.Value.Structs.{struct_new, struct_set_value_v}
use xml_rpc.ParseScalar.Double.{FloatOps}
use xml_rpc.ParseScalar.{parse_simple_value_cdata}

-- parseName
unfoldable pub parse_name : Element → Result Value
parse_name name_elem =
    if not (children_size (element_children name_elem) == 0)
    then fault parse_error "<name> element has %u children.  Should have none."
    else string_new_lp (element_cdata name_elem)

-- The loop of getNameChild and getValueChild: the first child with this name.
unfoldable pub find_child : String → String → Elements → Result Element
find_child name complaint no_children = fault parse_error complaint
find_child name complaint (child e es) =
    let later = find_child name complaint es in if str_eq (element_name e) name then ok e else later

unfoldable pub get_name_child : Element → Result Element
unfolding find_child
get_name_child parent = find_child "name" "<member> has no <name> child" (element_children parent)

unfoldable pub get_value_child : Element → Result Element
unfolding find_child
get_value_child parent =
    find_child "value" "<member> has no <value> child" (element_children parent)

-- parseSimpleValue
unfoldable pub parse_simple_value : FloatOps → Element → Result Value
parse_simple_value fl elem =
    if not (children_size (element_children elem) == 0)
    then fault parse_error
        "The child of a <value> element is neither <array> nor <struct>, but has %u child elements of its own."
    else parse_simple_value_cdata fl (element_name elem) (element_cdata elem)

-- `rec` is xmlrpc_parseValue with maxRecursion - 1.
module _ (rec : Element → Result Value) where
  -- parseArrayDataChild: the array with the item appended
  unfoldable pub parse_array_data_child : Value → Element → Result Value
  parse_array_data_child arr e =
      if not (str_eq (element_name e) "value")
      then fault parse_error "<data> element has <%s> child.  Only <value> makes sense."
      else (rec e >>= λ item. array_append_item arr item)

  -- The loop of parseArray.
  unfoldable pub parse_array_items : Value → Elements → Result Value
  parse_array_items arr no_children = ok arr
  parse_array_items arr (child e es) =
      parse_array_data_child arr e >>= λ arr'. parse_array_items arr' es

  -- parseArray, on the children of its element
  unfoldable pub parse_array : Elements → Result Value
  unfolding parse_array_items parse_array_data_child
  parse_array (child data_elem no_children) =
      if not (str_eq (element_name data_elem) "data")
      then fault parse_error "<array> element has <%s> child.  Only <data> makes sense."
      else parse_array_items array_new (element_children data_elem)
  parse_array no_children =
      fault parse_error "<array> element has %u children.  Only one <data> makes sense."
  parse_array (child e (child e' es)) =
      fault parse_error "<array> element has %u children.  Only one <data> makes sense."

  -- parseMember: the key and the value
  unfoldable pub parse_member : Element → Result (Value × Value)
  parse_member member_elem =
      if not (children_size (element_children member_elem) == 2)
      then fault parse_error
          "<member> element has %u children.  Only one <name> and one <value> make sense."
      else (get_name_child member_elem >>= λ name_elem. parse_name name_elem >>= λ key.
          get_value_child member_elem >>= λ value_elem. rec value_elem >>= λ v. ok (key, v))

  -- One round of the loop of parseStruct.
  unfoldable pub parse_struct_member : Value → Element → Result Value
  unfolding parse_member
  parse_struct_member str e =
      if not (str_eq (element_name e) "member")
      then fault parse_error "<%s> element found where only <member> makes sense"
      else (parse_member e >>= λ m. struct_set_value_v str m.0 m.1)

  -- The loop of parseStruct.
  unfoldable pub parse_struct_members : Value → Elements → Result Value
  parse_struct_members str no_children = ok str
  parse_struct_members str (child e es) =
      parse_struct_member str e >>= λ str'. parse_struct_members str' es

  -- parseStruct, on the children of its element
  unfoldable pub parse_struct : Elements → Result Value
  unfolding parse_struct_members parse_struct_member
  parse_struct members = parse_struct_members struct_new members

  -- The child of a <value> decides what it is.
  unfoldable pub parse_typed : FloatOps → Element → Result Value
  unfolding parse_struct parse_array
  parse_typed fl e =
      if str_eq (element_name e) "struct"
      then parse_struct (element_children e)
      else if str_eq (element_name e) "array"
      then parse_array (element_children e)
      else parse_simple_value fl e

  -- xmlrpc_parseValue, behind the test of maxRecursion
  unfoldable pub parse_value_content : FloatOps → Bytes → Elements → Result Value
  unfolding parse_typed
  parse_value_content fl cdata no_children = string_new_lp cdata
  parse_value_content fl cdata (child e no_children) = parse_typed fl e
  parse_value_content fl cdata (child e (child e' es)) =
      fault parse_error "<value> has %u child elements.  Only zero or one make sense."

-- xmlrpc_parseValue
unfoldable pub parse_value : FloatOps → ℕ → Element → Result Value
unfolding parse_value_content
parse_value fl zero e = fault parse_error "Nested data structure too deep."
parse_value fl (suc max_recursion) e =
    if not (str_eq (element_name e) "value")
    then fault parse_error "<%s> element where <value> expected"
    else parse_value_content (parse_value fl max_recursion) fl (element_cdata e)
        (element_children e)
